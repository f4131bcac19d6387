-- ===== src/Share/Page/Once.antt =====
-- That the share page asks for the key no more once it has come or is gone.
use key_bank.Base.{
  ℕ, ◌≡◌, ◌∙◌, ◌⊎◌, inl, inr, refl, sym, ap, true, false, not, List, [], ◌∷◌, Option, none, some,
  Text, Result, ok, err, subst,
}
use key_bank.Crypto.Message.{Encrypted, decrypt_message}
use key_bank.Api.{Settle, Response, finish_fetch_key}
use key_bank.Share.Reveal
use key_bank.Share.Reveal.{Shown}
use key_bank.Share.Page.{
  Env, CardState, ready, busy, open_note, spent, invalid, Wait, nothing, for_key, for_plaintext,
  Page, is_ready, Event, hash_change, click, reply, decrypted, shown_event, on_hash_change,
  on_click, give_up, start_decrypt, key_arrived, on_reply, show_plaintext, on_decrypted, on_shown,
  step, run, undecryptable_text, spent_text,
}
use key_bank.Share.Page.Invariant.{Inv, Phase, IsBusy, Inv-IsBusy}
use key_bank.Share.Page.Preserved.{step-Inv}
use key_bank.Share.Page.Safety.{on_reply-requests, step-requests, AsksForKey}

-- The key has been delivered, or the server has said that it is gone.
abbrev pub IsOver : CardState → Wait → Type 0
IsOver spent wait = Unit
IsOver open_note wait = Unit
IsOver busy (for_plaintext pem f) = Unit
IsOver busy (for_key handle) = ⊥
IsOver busy nothing = ⊥
IsOver ready wait = ⊥
IsOver invalid wait = ⊥

not_ready : (s : CardState) (w : Wait) → IsOver s w → is_ready s ≡ false
not_ready spent w o = refl
not_ready open_note w o = refl
not_ready busy w o = refl
not_ready ready w o = absurd o
not_ready invalid w o = absurd o

-- No answer of the request for the key is awaited when it is over.
not_for_key :
    (s : CardState) (handle : Settle) (shown : Option Shown)
    → Phase s (for_key handle) shown
    → IsOver s (for_key handle)
    → ⊥
not_for_key spent handle shown h o = key_waits h.0
  where
    key_waits : for_key handle ≡ nothing → ⊥
    key_waits q = cc
not_for_key open_note handle shown h o = key_waits h.0
  where
    key_waits : for_key handle ≡ nothing → ⊥
    key_waits q = cc
not_for_key busy handle shown h o = o
not_for_key ready handle shown h o = o
not_for_key invalid handle shown h o = o

module _ (env : Env) where
  give_up-IsOver :
      (p : Page) (message : Text)
      → IsOver (give_up env p message).state (give_up env p message).wait
  unfolding give_up
  give_up-IsOver p message = tt

  start_decrypt-IsOver :
      (p : Page) (pem : Text) (f : Option Encrypted)
      → p.state ≡ busy
      → IsOver (start_decrypt env p pem f).state (start_decrypt env p pem f).wait
  start_decrypt-IsOver p pem none b = unfold start_decrypt in give_up-IsOver p undecryptable_text
  start_decrypt-IsOver p pem (some f) b =
      unfold start_decrypt in subst (λ s. IsOver s (for_plaintext pem f)) (sym b) tt

  key_arrived-IsOver :
      (p : Page) (key : Option Text)
      → p.state ≡ busy
      → IsOver (key_arrived env p (ok key)).state (key_arrived env p (ok key)).wait
  key_arrived-IsOver p none b = unfold key_arrived in give_up-IsOver p spent_text
  key_arrived-IsOver p (some pem) b = unfold key_arrived in start_decrypt-IsOver p pem p.fragment b

  show_plaintext-IsOver :
      (p : Page) (now : ℕ) (r : Result Text)
      → IsOver (show_plaintext env p now r).state (show_plaintext env p now r).wait
  show_plaintext-IsOver p now (err e) = unfold show_plaintext in give_up-IsOver p undecryptable_text
  show_plaintext-IsOver p now (ok t) = unfold show_plaintext in tt

  on_hash_change-IsOver :
      (p : Page) (s : CardState)
      → p.state ≡ s
      → IsOver s p.wait
      → IsOver (on_hash_change env s p).state (on_hash_change env s p).wait
  unfolding on_hash_change
  on_hash_change-IsOver p spent e o = subst (λ s. IsOver s p.wait) (sym e) o
  on_hash_change-IsOver p open_note e o = subst (λ s. IsOver s p.wait) (sym e) o
  on_hash_change-IsOver p busy e o = subst (λ s. IsOver s p.wait) (sym e) o
  on_hash_change-IsOver p ready e o = absurd o
  on_hash_change-IsOver p invalid e o = absurd o

  on_click-same : (p : Page) → p.disabled ≡ true → on_click env p ≡ p
  unfolding on_click
  on_click-same p e = rw e

  on_reply-IsOver :
      (p : Page) (w : Wait) (response : Option Response)
      → p.wait ≡ w
      → Phase p.state w p.shown
      → IsOver p.state w
      → IsOver (on_reply env p w response).state (on_reply env p w response).wait
  on_reply-IsOver p nothing response e h o = unfold on_reply in subst (IsOver p.state) (sym e) o
  on_reply-IsOver p (for_plaintext pem f) response e h o =
      unfold on_reply in subst (IsOver p.state) (sym e) o
  on_reply-IsOver p (for_key handle) response e h o =
      absurd (not_for_key p.state handle p.shown h o)

  on_decrypted-IsOver :
      (p : Page) (w : Wait) (now : ℕ)
      → p.wait ≡ w
      → IsOver p.state w
      → IsOver (on_decrypted env p w now).state (on_decrypted env p w now).wait
  on_decrypted-IsOver p nothing now e o = unfold on_decrypted in subst (IsOver p.state) (sym e) o
  on_decrypted-IsOver p (for_key handle) now e o =
      unfold on_decrypted in subst (IsOver p.state) (sym e) o
  on_decrypted-IsOver p (for_plaintext pem f) now e o =
      unfold on_decrypted in
      show_plaintext-IsOver p now (decrypt_message env.crypto pem f.wrapped f.iv f.ct)

  on_shown-IsOver :
      (p : Page) (s : Option Shown) (e : Reveal.Event)
      → IsOver p.state p.wait
      → IsOver (on_shown env p s e).state (on_shown env p s e).wait
  on_shown-IsOver p none e o = unfold on_shown in o
  on_shown-IsOver p (some s) e o = unfold on_shown in o

  step-IsOver :
      (p : Page) (e : Event)
      → Inv p
      → IsOver p.state p.wait
      → IsOver (step env p e).state (step env p e).wait
  unfolding step
  step-IsOver p (hash_change location) h o =
      on_hash_change-IsOver (record p { location = location }) p.state refl o
  step-IsOver p click h o =
      subst (λ q. IsOver q.state q.wait)
        (sym (on_click-same p (h.button ∙ ap not (not_ready p.state p.wait o)))) o
  step-IsOver p (reply response) h o = on_reply-IsOver p p.wait response refl h.phase o
  step-IsOver p (decrypted now) h o = on_decrypted-IsOver p p.wait now refl o
  step-IsOver p (shown_event e) h o = on_shown-IsOver p p.shown e o

  step-silent :
      (p : Page) (e : Event)
      → Inv p
      → IsOver p.state p.wait
      → (step env p e).net.requests ≡ p.net.requests
  step-silent p e h o = go (step-requests env p e h)
    where
      go :
          ((step env p e).net.requests ≡ p.net.requests) ⊎ AsksForKey env p (step env p e)
          → (step env p e).net.requests ≡ p.net.requests
      go (inl q) = q
      go (inr a) = absurd (subst (λ s. IsOver s p.wait) a.was_ready o)

  run-silent :
      (p : Page) (es : List Event)
      → Inv p
      → IsOver p.state p.wait
      → (run env p es).net.requests ≡ p.net.requests
  unfolding run
  run-silent p [] h o = refl
  run-silent p (e ∷ es) h o =
      run-silent (step env p e) es (step-Inv env p e h) (step-IsOver p e h o) ∙ step-silent p e h o

  replied-IsOver :
      (p : Page) (w : Wait) (handle : Settle) (response : Option Response) (key : Option Text)
      → w ≡ for_key handle
      → p.state ≡ busy
      → (finish_fetch_key p.net handle response).1 ≡ ok key
      → IsOver (on_reply env p w response).state (on_reply env p w response).wait
  replied-IsOver p w handle response key e b k =
      subst (λ w. IsOver (on_reply env p w response).state (on_reply env p w response).wait) (sym e)
        answered
    where
      answered :
          IsOver
            (on_reply env p (for_key handle) response).state
            (on_reply env p (for_key handle) response).wait
      answered =
          unfold on_reply in
          subst
            (λ r.
              IsOver
                (key_arrived env (record p { net = (finish_fetch_key p.net handle response).0 })
                  r).state
                (key_arrived env (record p { net = (finish_fetch_key p.net handle response).0 })
                  r).wait)
            (sym k)
            (key_arrived-IsOver (record p { net = (finish_fetch_key p.net handle response).0 }) key
              b)

  step_reply :
      (p : Page) (response : Option Response)
      → step env p (reply response) ≡ on_reply env p p.wait response
  unfolding step
  step_reply p response = refl

  -- Let a page with the invariant wait for the key, and a response come that `fetchKey` reads as a
  -- key or as no key. Then whatever happens afterwards, clicks and new addresses included, the page
  -- sends no request any more.
  pub asks_once :
      (p : Page) (handle : Settle) (response : Option Response) (key : Option Text)
      (es : List Event)
      → Inv p
      → p.wait ≡ for_key handle
      → (finish_fetch_key p.net handle response).1 ≡ ok key
      → (run env (step env p (reply response)) es).net.requests ≡ p.net.requests
  asks_once p handle response key es h w k =
      run-silent (step env p (reply response)) es (step-Inv env p (reply response) h) over ∙ silent
    where
      waiting : for_key handle ≡ nothing → ⊥
      waiting q = cc

      b : IsBusy p
      b = Inv-IsBusy p h (λ q. waiting (sym w ∙ q))

      over : IsOver (step env p (reply response)).state (step env p (reply response)).wait
      over =
          subst (λ q. IsOver q.state q.wait) (sym (step_reply p response))
            (replied-IsOver p p.wait handle response key w b.state_is k)

      silent : (step env p (reply response)).net.requests ≡ p.net.requests
      silent =
          ap (λ q. q.net.requests) (step_reply p response) ∙ on_reply-requests env p p.wait response
