-- ===== src/Share/Page/Preserved.antt =====
-- Every event of the share page keeps its invariant.
use key_bank.Base.{
  ℕ, ◌≡◌, ◌∙◌, refl, sym, ap, not, List, [], ◌∷◌, Option, none, some, Text, subst, Result, ok, err,
}
use key_bank.Crypto.Message.{Encrypted, decrypt_message}
use key_bank.Api.{Response, finish_fetch_key}
use key_bank.Share.Reveal
use key_bank.Share.Reveal.{Shown}
use key_bank.Share.Page.{
  Env, CardState, ready, busy, open_note, spent, invalid, Wait, nothing, for_key, for_plaintext,
  Page, is_ready, spent_text, undecryptable_text, Event, hash_change, click, reply, decrypted,
  shown_event, give_up, start_decrypt, key_arrived, on_reply, show_plaintext, on_decrypted,
  on_shown, step, run,
}
use key_bank.Share.Page.Invariant.{
  IsRead, FragmentOk, Phase, Inv, finish_fetch_key-IsFaithful, IsBusy, Inv-IsBusy,
}
use key_bank.Share.Page.Clicks.{key_failed-Inv, on_click-Inv, on_hash_change-Inv}

some_or_none : (s : Shown) → some s ≡ none → ⊥
some_or_none s q = cc

still_shown :
    (state : CardState) (wait : Wait) (shown : Option Shown) (s s' : Shown)
    → shown ≡ some s
    → Phase state wait shown
    → Phase state wait (some s')
still_shown open_note wait shown s s' e h = (h.0, tt)
still_shown ready wait shown s s' e h = absurd (some_or_none s (sym e ∙ h.1))
still_shown busy wait shown s s' e h = absurd (some_or_none s (sym e ∙ h.1))
still_shown spent wait shown s s' e h = absurd (some_or_none s (sym e ∙ h.1))
still_shown invalid wait shown s s' e h = absurd (some_or_none s (sym e ∙ h.1))

abbrev BeginsWell : Result Page → Type 0
BeginsWell (ok p) = Inv p
BeginsWell (err e) = Unit

module _ (env : Env) where
  give_up-Inv : (p : Page) (message : Text) → IsBusy p → Inv (give_up env p message)
  unfolding give_up
  give_up-Inv p message b = record {
    button = refl;
    fragment_ok = b.read;
    phase = (refl, b.none_shown);
    faithful = b.shows;
  }

  start_decrypt-Inv :
      (p : Page) (pem : Text) (fragment : Option Encrypted)
      → IsBusy p
      → IsRead fragment
      → Inv (start_decrypt env p pem fragment)
  unfolding start_decrypt
  start_decrypt-Inv p pem none b r = absurd r
  start_decrypt-Inv p pem (some f) b r = record {
    button = b.disabled_is ∙ ap (λ s. not (is_ready s)) (sym b.state_is);
    fragment_ok = subst (λ s. FragmentOk s p.fragment) (sym b.state_is) b.read;
    phase = subst (λ s. Phase s (for_plaintext pem f) p.shown) (sym b.state_is) (r, b.none_shown);
    faithful = b.shows;
  }

  key_arrived-Inv : (p : Page) (r : Result (Option Text)) → IsBusy p → Inv (key_arrived env p r)
  key_arrived-Inv p (err e) b =
      unfold key_arrived in key_failed-Inv env p e b.none_shown b.read b.shows
  key_arrived-Inv p (ok none) b = unfold key_arrived in give_up-Inv p spent_text b
  key_arrived-Inv p (ok (some pem)) b =
      unfold key_arrived in start_decrypt-Inv p pem p.fragment b b.read

  on_reply-Inv :
      (p : Page) (response : Option Response) → Inv p → Inv (on_reply env p p.wait response)
  on_reply-Inv p response h = go p.wait refl
    where
      go : (w : Wait) → p.wait ≡ w → Inv (on_reply env p w response)
      go nothing e = unfold on_reply in h
      go (for_plaintext pem f) e = unfold on_reply in h
      go (for_key handle) e =
          let b = Inv-IsBusy p h (λ q. waiting (sym e ∙ q)) in
          unfold on_reply in
          key_arrived-Inv (record p { net = (finish_fetch_key p.net handle response).0 })
            (finish_fetch_key p.net handle response).1
            (record {
              state_is = b.state_is;
              disabled_is = b.disabled_is;
              none_shown = b.none_shown;
              read = b.read;
              shows = finish_fetch_key-IsFaithful p.net handle response b.shows;
            })
        where
          waiting : for_key handle ≡ nothing → ⊥
          waiting q = cc

  show_plaintext-Inv :
      (p : Page) (now : ℕ) (r : Result Text) → IsBusy p → Inv (show_plaintext env p now r)
  show_plaintext-Inv p now (err e) b = unfold show_plaintext in give_up-Inv p undecryptable_text b
  show_plaintext-Inv p now (ok plaintext) b =
      unfold show_plaintext in
      record { button = refl; fragment_ok = b.read; phase = (refl, tt); faithful = b.shows }

  on_decrypted-Inv : (p : Page) (now : ℕ) → Inv p → Inv (on_decrypted env p p.wait now)
  on_decrypted-Inv p now h = go p.wait refl
    where
      go : (w : Wait) → p.wait ≡ w → Inv (on_decrypted env p w now)
      go nothing e = unfold on_decrypted in h
      go (for_key handle) e = unfold on_decrypted in h
      go (for_plaintext pem f) e =
          unfold on_decrypted in
          show_plaintext-Inv p now (decrypt_message env.crypto pem f.wrapped f.iv f.ct)
            (Inv-IsBusy p h (λ q. waiting (sym e ∙ q)))
        where
          waiting : for_plaintext pem f ≡ nothing → ⊥
          waiting q = cc

  on_shown-Inv : (p : Page) (e : Reveal.Event) → Inv p → Inv (on_shown env p p.shown e)
  on_shown-Inv p e h = go p.shown refl
    where
      go : (s : Option Shown) → p.shown ≡ s → Inv (on_shown env p s e)
      go none q = unfold on_shown in h
      go (some s) q =
          unfold on_shown in
          record {
            button = h.button;
            fragment_ok = h.fragment_ok;
            phase = still_shown p.state p.wait p.shown s _ q h.phase;
            faithful = h.faithful;
          }

  -- Every event keeps the invariant.
  pub step-Inv : (p : Page) (e : Event) → Inv p → Inv (step env p e)
  unfolding step
  step-Inv p (hash_change location) h = on_hash_change-Inv env p location h
  step-Inv p click h = on_click-Inv env p h
  step-Inv p (reply response) h = on_reply-Inv p response h
  step-Inv p (decrypted now) h = on_decrypted-Inv p now h
  step-Inv p (shown_event e) h = on_shown-Inv p e h

  -- Whatever happens to the page, in whatever order: the button is enabled exactly on a ready page, a
  -- page that is not invalid holds a well-formed fragment, an answer is awaited exactly on a working
  -- page, a note is on show exactly on an open one, and the ledger shows every request as it was sent.
  pub run-Inv : (p : Page) (es : List Event) → Inv p → Inv (run env p es)
  unfolding run
  run-Inv p [] h = h
  run-Inv p (e ∷ es) h = run-Inv (step env p e) es (step-Inv p e h)
