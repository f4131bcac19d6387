-- ===== src/Share/Page/Safety.antt =====
-- When the key is asked for, and that it is asked for no more once it has come or is gone.
use key_bank.Base.{
  ℕ, ◌≡◌, ◌∙◌, ◌⊎◌, inl, inr, refl, sym, ap, Bool, true, false, [], ◌∷◌, ◌++◌, Option, none, some,
  Text, Result, ok, err, ◌>>=◌, codes, subst, if◌then◌else◌,
}
use key_bank.Js.Url.{encode_uri_component}
use key_bank.Crypto.Message.{Encrypted, decrypt_message}
use key_bank.Link.{parse_fragment}
use key_bank.Ui.{Anatomy, render_anatomy, set_status, working}
use key_bank.Api.{Net, Settle, Response, start_send, start_fetch_key, finish_fetch_key}
use key_bank.Share.Reveal
use key_bank.Share.Reveal.{Shown}
use key_bank.Share.Page.{
  Env, CardState, ready, busy, open_note, spent, invalid, Wait, nothing, for_key, for_plaintext,
  Page, set_state, fetching_text, Event, hash_change, click, reply, decrypted, shown_event,
  show_parts, inspect_with, inspect_link, on_hash_change, key_failed, key_requested, fetch_with,
  on_click, give_up, start_decrypt, key_arrived, on_reply, show_plaintext, on_decrypted, on_shown,
  step,
}
use key_bank.Share.Page.Invariant.{IsRead, Inv, FragmentOk-IsRead, enabled-ready}

finish_fetch_key-requests :
    (net : Net) (handle : Settle) (response : Option Response)
    → (finish_fetch_key net handle response).0.requests ≡ net.requests
unfolding finish_fetch_key
finish_fetch_key-requests net handle none = refl
finish_fetch_key-requests net handle (some r) = refl

-- A request that is started, if any, is the last.
abbrev Starts : Net → Text → Result (Net × Settle) → Type 0
Starts net id (err e) = Unit
Starts net id (ok (net', handle)) =
    (id_text : Text) × (encode_uri_component id ≡ ok id_text)
    × (net'.requests
        ≡ net.requests
          ++ record { method = codes "GET"; path = codes "/api/keys/" ++ id_text; body = none }
            ∷ [])

start_fetch_key-Starts : (net : Net) (id : Text) → Starts net id (start_fetch_key net id)
unfolding start_fetch_key
start_fetch_key-Starts net id = go (encode_uri_component id) refl
  where
    go :
        (r : Result Text)
        → encode_uri_component id ≡ r
        → Starts net id (
            r >>= λ id_text. ok (start_send net (codes "GET") (codes "/api/keys/" ++ id_text) none))
    go (err x) e = tt
    go (ok t) e = (t, e, unfold start_send in refl)

-- The request for the key was sent, by a page that holds a well-formed fragment.
pub record AsksForKey (env : Env) (p p' : Page) : Type 0 where
  pub was_ready : p.state ≡ ready
  pub was_read : IsRead p.fragment
  pub id_text : Text
  pub encoded : encode_uri_component env.share_id ≡ ok id_text
  pub sent :
      p'.net.requests
      ≡ p.net.requests
        ++ record { method = codes "GET"; path = codes "/api/keys/" ++ id_text; body = none } ∷ []

abbrev pub SendsNothing : Page → Page → Type 0
SendsNothing p p' = p'.net.requests ≡ p.net.requests

module _ (env : Env) where
  key_requested-requests :
      (p q : Page) (r : Result (Net × Settle))
      → q.net ≡ p.net
      → p.state ≡ ready
      → IsRead p.fragment
      → Starts p.net env.share_id r
      → SendsNothing p (key_requested env q r) ⊎ AsksForKey env p (key_requested env q r)
  unfolding key_requested
  key_requested-requests p q (err e) same s f h =
      inl (unfold key_failed in ap (λ n. n.requests) same)
  key_requested-requests p q (ok (net, handle)) same s f h =
      inr (record { was_ready = s; was_read = f; id_text = h.0; encoded = h.1; sent = h.2 })

  fetch_with-requests :
      (p : Page) (fragment : Option Encrypted) (id : Text)
      → p.fragment ≡ fragment
      → env.share_id ≡ id
      → Inv p
      → p.state ≡ ready
      → SendsNothing p (fetch_with env p fragment id)
        ⊎ AsksForKey env p (fetch_with env p fragment id)
  unfolding fetch_with
  fetch_with-requests p none id e i h s = inl refl
  fetch_with-requests p (some f) [] e i h s = inl refl
  fetch_with-requests p (some f) (d ∷ id) e i h s =
      key_requested-requests p
        (record (set_state busy p) { status = set_status fetching_text working })
        (start_fetch_key p.net (d ∷ id)) refl s
        (FragmentOk-IsRead p.state p.fragment f e h.fragment_ok)
        (subst (λ j. Starts p.net j (start_fetch_key p.net (d ∷ id))) (sym i)
          (start_fetch_key-Starts p.net (d ∷ id)))

  on_click-requests :
      (p : Page) → Inv p → SendsNothing p (on_click env p) ⊎ AsksForKey env p (on_click env p)
  unfolding on_click
  on_click-requests p h = go p.disabled refl
    where
      abbrev_after : Bool → Page
      abbrev_after b = if b then p else fetch_with env p p.fragment env.share_id

      go :
          (b : Bool)
          → p.disabled ≡ b
          → SendsNothing p (abbrev_after b) ⊎ AsksForKey env p (abbrev_after b)
      go true off = inl refl
      go false on = fetch_with-requests p p.fragment env.share_id refl refl h (enabled-ready p h on)

  show_parts-net : (p : Page) (r : Result Encrypted) → (show_parts env p r).net ≡ p.net
  unfolding show_parts
  show_parts-net p (ok f) = refl
  show_parts-net p (err e) = refl

  inspect_link-net : (p : Page) → (inspect_link env p).net ≡ p.net
  inspect_link-net p =
      unfold inspect_link in go (render_anatomy env.parse_url env.to_locale_string p.location.href)
    where
      go : (r : Result Anatomy) → (inspect_with env p r).net ≡ p.net
      go (err e) = unfold inspect_with in refl
      go (ok a) =
          unfold inspect_with in
          show_parts-net (record p { anatomy = a }) (parse_fragment p.location.hash)

  on_hash_change-net : (s : CardState) (p : Page) → (on_hash_change env s p).net ≡ p.net
  unfolding on_hash_change
  on_hash_change-net ready p = inspect_link-net p
  on_hash_change-net invalid p = inspect_link-net p
  on_hash_change-net busy p = refl
  on_hash_change-net open_note p = refl
  on_hash_change-net spent p = refl

  key_arrived-net : (p : Page) (r : Result (Option Text)) → (key_arrived env p r).net ≡ p.net
  key_arrived-net p (err e) = unfold key_arrived key_failed in refl
  key_arrived-net p (ok none) = unfold key_arrived give_up in refl
  key_arrived-net p (ok (some pem)) = unfold key_arrived in go p.fragment
    where
      go : (f : Option Encrypted) → (start_decrypt env p pem f).net ≡ p.net
      go none = unfold start_decrypt give_up in refl
      go (some f) = unfold start_decrypt in refl

  pub on_reply-requests :
      (p : Page) (w : Wait) (response : Option Response)
      → SendsNothing p (on_reply env p w response)
  on_reply-requests p nothing response = unfold on_reply in refl
  on_reply-requests p (for_plaintext pem f) response = unfold on_reply in refl
  on_reply-requests p (for_key handle) response =
      unfold on_reply in
      ap (λ n. n.requests)
        (key_arrived-net (record p { net = (finish_fetch_key p.net handle response).0 })
          (finish_fetch_key p.net handle response).1)
      ∙ finish_fetch_key-requests p.net handle response

  show_plaintext-net :
      (p : Page) (now : ℕ) (r : Result Text) → (show_plaintext env p now r).net ≡ p.net
  show_plaintext-net p now (err e) = unfold show_plaintext give_up in refl
  show_plaintext-net p now (ok t) = unfold show_plaintext in refl

  on_decrypted-net : (p : Page) (w : Wait) (now : ℕ) → (on_decrypted env p w now).net ≡ p.net
  on_decrypted-net p nothing now = unfold on_decrypted in refl
  on_decrypted-net p (for_key handle) now = unfold on_decrypted in refl
  on_decrypted-net p (for_plaintext pem f) now =
      unfold on_decrypted in
      show_plaintext-net p now (decrypt_message env.crypto pem f.wrapped f.iv f.ct)

  on_shown-net : (p : Page) (s : Option Shown) (e : Reveal.Event) → (on_shown env p s e).net ≡ p.net
  on_shown-net p none e = unfold on_shown in refl
  on_shown-net p (some s) e = unfold on_shown in refl

  -- An event of a page with the invariant sends nothing, or it sends the one request for the key of
  -- the page's note, and then the page was ready and holds a well-formed fragment.
  pub step-requests :
      (p : Page) (e : Event)
      → Inv p
      → SendsNothing p (step env p e) ⊎ AsksForKey env p (step env p e)
  unfolding step
  step-requests p (hash_change location) h =
      inl (ap (λ n. n.requests) (on_hash_change-net p.state (record p { location = location })))
  step-requests p click h = on_click-requests p h
  step-requests p (reply response) h = inl (on_reply-requests p p.wait response)
  step-requests p (decrypted now) h = inl (ap (λ n. n.requests) (on_decrypted-net p p.wait now))
  step-requests p (shown_event e) h = inl (ap (λ n. n.requests) (on_shown-net p p.shown e))
