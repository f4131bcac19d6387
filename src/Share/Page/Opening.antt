-- ===== src/Share/Page/Opening.antt =====
-- The share page from the arrival of the key to the note on show.
use key_bank.Base.{
  ℕ, ◌≡◌, ◌∙◌, refl, sym, subst, false, [], ◌∷◌, Option, none, some, Text, Result, ok, err,
}
use key_bank.Crypto.Message.{Encrypted, decrypt_message}
use key_bank.Api.{Settle, Response, finish_fetch_key}
use key_bank.Share.Reveal
use key_bank.Share.Reveal.{Shown}
use key_bank.Share.Page.{
  Env, open_note, spent, nothing, for_key, for_plaintext, Page, reply, decrypted, start_decrypt,
  key_arrived, give_up, on_reply, show_plaintext, on_decrypted, step, run,
}
use key_bank.Share.Page.Invariant.{Inv, Inv-IsBusy}

-- The text is on show.
pub record ShowsText (q : Page) (plaintext : Text) : Type 0 where
  pub note : Shown
  pub on_show : q.shown ≡ some note
  pub output_is : note.output ≡ plaintext
  pub visible : note.hidden ≡ false

-- The page after a decryption that has ended so.
abbrev pub Ends : Page → Result Text → Type 0
Ends q (ok plaintext) = (q.state ≡ open_note) × ShowsText q plaintext
Ends q (err e) = (q.state ≡ spent) × (q.shown ≡ none)

module _ (env : Env) where
  show_plaintext-Ends :
      (p : Page) (now : ℕ) (r : Result Text) → p.shown ≡ none → Ends (show_plaintext env p now r) r
  show_plaintext-Ends p now (err e) h = unfold show_plaintext give_up in (refl, h)
  show_plaintext-Ends p now (ok t) h =
      unfold show_plaintext in
      (
        refl,
        record {
          note = _;
          on_show = refl;
          output_is = unfold Reveal.reveal in refl;
          visible = unfold Reveal.reveal in refl;
        },
      )

  -- The page that waits for the decryption of a fragment with a key.
  record Decrypts (q : Page) (pem : Text) (f : Encrypted) : Type 0 where
    waits : q.wait ≡ for_plaintext pem f
    none_shown : q.shown ≡ none

  arrived :
      (p : Page) (pem : Text) (f : Encrypted)
      → p.fragment ≡ some f
      → p.shown ≡ none
      → Decrypts (key_arrived env p (ok (some pem))) pem f
  arrived p pem f e h =
      unfold key_arrived in
      subst (λ o. Decrypts (start_decrypt env p pem o) pem f) (sym e)
        (unfold start_decrypt in record { waits = refl; none_shown = h })

  replied :
      (p : Page) (handle : Settle) (response : Option Response) (pem : Text) (f : Encrypted)
      → p.wait ≡ for_key handle
      → p.fragment ≡ some f
      → p.shown ≡ none
      → (finish_fetch_key p.net handle response).1 ≡ ok (some pem)
      → Decrypts (step env p (reply response)) pem f
  unfolding step on_reply
  replied p handle response pem f w e h k =
      subst (λ w. Decrypts (on_reply env p w response) pem f) (sym w)
        (subst
          (λ r.
            Decrypts
              (key_arrived env (record p { net = (finish_fetch_key p.net handle response).0 }) r)
              pem f)
          (sym k)
          (arrived (record p { net = (finish_fetch_key p.net handle response).0 }) pem f e h))

  ended :
      (q : Page) (pem : Text) (f : Encrypted) (now : ℕ)
      → Decrypts q pem f
      → Ends (step env q (decrypted now)) (decrypt_message env.crypto pem f.wrapped f.iv f.ct)
  unfolding step on_decrypted
  ended q pem f now d =
      subst
        (λ w. Ends (on_decrypted env q w now) (decrypt_message env.crypto pem f.wrapped f.iv f.ct))
        (sym d.waits)
        (show_plaintext-Ends q now (decrypt_message env.crypto pem f.wrapped f.iv f.ct)
          d.none_shown)

  -- Let a page with the invariant hold a fragment and wait for the key, and the reply bring a key. When
  -- the decryption with that key has ended, the page is open and shows the text, if the decryption
  -- yields one, and else the page is spent and shows none.
  pub run-Ends :
      (p : Page) (handle : Settle) (response : Option Response) (pem : Text) (f : Encrypted)
      (now : ℕ)
      → Inv p
      → p.wait ≡ for_key handle
      → p.fragment ≡ some f
      → (finish_fetch_key p.net handle response).1 ≡ ok (some pem)
      → Ends
          (run env p (reply response ∷ decrypted now ∷ []))
          (decrypt_message env.crypto pem f.wrapped f.iv f.ct)
  unfolding run
  run-Ends p handle response pem f now h w e k =
      ended (step env p (reply response)) pem f now (
        replied p handle response pem f w e (Inv-IsBusy p h (λ q. waiting (sym w ∙ q))).none_shown
          k)
    where
      waiting : for_key handle ≡ nothing → ⊥
      waiting q = cc
