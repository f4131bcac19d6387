-- ===== src/Create/Page/Preserved.antt =====
-- Every event of the create page keeps its invariant.
use key_bank.Base.{
  ℕ, ◌≡◌, ◌∙◌, refl, sym, ap, subst, Bool, true, false, List, [], ◌∷◌, Option, none, some, Text,
  Result, ok, err, ◌>>=◌, All, ◌++◌, if◌then◌else◌,
}
use key_bank.Crypto.Message.{encrypt_message}
use key_bank.Link.{build_share_url}
use key_bank.Ui.{Status, Anatomy, render_anatomy}
use key_bank.Api.{Net, Settle, Response, Key, finish_send, finish_create_key, describe_create}
use key_bank.Api.Faithful.{IsFaithful, finish_send-IsFaithful}
use key_bank.Create.Expiry.{Form, configure_expiry_options}
use key_bank.Create.Expiry.Choice.{IsLong, IsLongPreset}
use key_bank.Create.Expiry.Kept.{FormOf, configure_kept, pick_kept}
use key_bank.Create.Page.{
  Wait, nothing, for_confirmation, for_key, for_link, Page, Event, pick, type_minutes, type_message,
  submit, confirmed, reply, encrypted, copied, native_share, new_note, is_confirmed,
  on_native_share, Env, max_ttl, template_page, expiry_text, configured_page, init_create_page,
  emptied, on_new_note, on_confirmed, key_created, on_reply, show_result, link_made, on_encrypted,
  on_copied, step, run,
}
use key_bank.Create.Page.Requests.{
  IsTold, WaitAllowed, awaits_answer, Inv, request_key-Inv, failed-Inv, on_submit-Inv,
}

finish_create_key-requests :
    (json : Text → Result Key) (net : Net) (handle : Settle) (response : Option Response)
    → (finish_create_key json net handle response).0.requests ≡ net.requests
unfolding finish_create_key finish_send
finish_create_key-requests json net handle none = refl
finish_create_key-requests json net handle (some r) = refl

finish_create_key-IsFaithful :
    (json : Text → Result Key) (net : Net) (handle : Settle) (response : Option Response)
    → IsFaithful net
    → IsFaithful (finish_create_key json net handle response).0
unfolding finish_create_key
finish_create_key-IsFaithful json net handle response h =
    finish_send-IsFaithful net handle describe_create response h

module _ (env : Env) where
  -- Nothing that the invariant speaks of has changed.
  same-Inv :
      (p q : Page)
      → Inv env p
      → All IsLongPreset q.form.presets
      → q.wait ≡ p.wait
      → q.submit_disabled ≡ p.submit_disabled
      → q.net ≡ p.net
      → Inv env q
  same-Inv p q h long w s n = record {
    long = long;
    pending = subst (WaitAllowed env) (sym w) h.pending;
    locked = s ∙ h.locked ∙ ap awaits_answer (sym w);
    faithful = subst IsFaithful (sym n) h.faithful;
    told = subst (λ m. All (IsTold env) m.requests) (sym n) h.told;
  }

  on_confirmed-Inv :
      (p : Page) (answer : Bool) → Inv env p → Inv env (on_confirmed env p p.wait answer)
  on_confirmed-Inv p answer h = go p.wait answer refl
    where
      go : (w : Wait) (b : Bool) → p.wait ≡ w → Inv env (on_confirmed env p w b)
      go nothing b e = unfold on_confirmed in h
      go (for_key handle ttl t) b e = unfold on_confirmed in h
      go (for_link key ttl t) b e = unfold on_confirmed in h
      go (for_confirmation ttl t) true e =
          unfold on_confirmed in
          request_key-Inv env (record p { wait = nothing }) ttl t
            (record {
              long = h.long;
              pending = tt;
              locked = h.locked ∙ ap awaits_answer e;
              faithful = h.faithful;
              told = h.told;
            })
            (subst (WaitAllowed env) e h.pending)
      go (for_confirmation ttl t) false e =
          unfold on_confirmed in
          record {
            long = h.long;
            pending = tt;
            locked = h.locked ∙ ap awaits_answer e;
            faithful = h.faithful;
            told = h.told;
          }

  key_created-Inv :
      (p : Page) (ttl : ℕ) (t : Text) (r : Result Key)
      → Inv env p
      → p.submit_disabled ≡ true
      → Inv env (key_created env p ttl t r)
  unfolding key_created
  key_created-Inv p ttl t (err e) h s = failed-Inv env p e h
  key_created-Inv p ttl t (ok key) h s = record {
    long = h.long;
    pending = tt;
    locked = s;
    faithful = h.faithful;
    told = h.told;
  }

  on_reply-Inv :
      (p : Page) (response : Option Response) → Inv env p → Inv env (on_reply env p p.wait response)
  on_reply-Inv p response h = go p.wait refl
    where
      go : (w : Wait) → p.wait ≡ w → Inv env (on_reply env p w response)
      go nothing e = unfold on_reply in h
      go (for_confirmation ttl t) e = unfold on_reply in h
      go (for_link key ttl t) e = unfold on_reply in h
      go (for_key handle ttl t) e =
          unfold on_reply in
          key_created-Inv (record p { net = (finish_create_key env.json p.net handle response).0 })
            ttl t (finish_create_key env.json p.net handle response).1
            (record {
              long = h.long;
              pending = h.pending;
              locked = h.locked;
              faithful = finish_create_key-IsFaithful env.json p.net handle response h.faithful;
              told =
                  subst (All (IsTold env))
                    (sym (finish_create_key-requests env.json p.net handle response)) h.told;
            })
            (h.locked ∙ ap awaits_answer e)

  link_made-Inv :
      (p : Page) (ttl : ℕ) (r : Result Text) → Inv env p → Inv env (link_made env p ttl r)
  link_made-Inv p ttl (err e) h = unfold link_made in failed-Inv env p e h
  link_made-Inv p ttl (ok url) h =
      unfold link_made in
      go (render_anatomy env.parse_url env.to_locale_string url)
        (record p { share_url = url; result_expiry = expiry_text env ttl })
        (same-Inv p (record p { share_url = url; result_expiry = expiry_text env ttl }) h h.long
          refl refl refl)
    where
      go : (r : Result Anatomy) (q : Page) → Inv env q → Inv env (show_result env q url r)
      go (err e) q k = failed-Inv env q e k
      go (ok a) q k = record {
        long = k.long;
        pending = tt;
        locked = refl;
        faithful = k.faithful;
        told = k.told;
      }

  on_encrypted-Inv :
      (p : Page) (random : env.crypto.Random)
      → Inv env p
      → Inv env (on_encrypted env p p.wait random)
  on_encrypted-Inv p random h = go p.wait
    where
      go : (w : Wait) → Inv env (on_encrypted env p w random)
      go nothing = unfold on_encrypted in h
      go (for_confirmation ttl t) = unfold on_encrypted in h
      go (for_key handle ttl t) = unfold on_encrypted in h
      go (for_link key ttl t) =
          unfold on_encrypted in
          link_made-Inv p ttl
            (encrypt_message env.crypto random key.pub_pem t >>= build_share_url env.origin key.id)
            h

  on_copied-Inv : (p : Page) (worked : Result Bool) → Inv env p → Inv env (on_copied env p worked)
  on_copied-Inv p (err e) h = same-Inv p _ h h.long refl refl refl
  on_copied-Inv p (ok true) h = same-Inv p _ h h.long refl refl refl
  on_copied-Inv p (ok false) h = same-Inv p _ h h.long refl refl refl

  on_native_share-Inv : (p : Page) → Inv env p → Inv env (on_native_share env p)
  on_native_share-Inv p h = go p.native_share_hidden
    where
      go :
          (b : Bool) → Inv env (if b then p else record p { shared = p.shared ++ p.share_url ∷ [] })
      go true = h
      go false = same-Inv p _ h h.long refl refl refl

  module _ (long : All IsLongPreset env.default_form.presets) where
    on_new_note-Inv : (p : Page) → Inv env p → Inv env (on_new_note env p)
    on_new_note-Inv p h =
        unfold on_new_note in
        go (configure_expiry_options env.default_form (max_ttl env))
          (configure_kept IsLong env.default_form (max_ttl env) long)
      where
        go : (r : Result Form) → FormOf IsLong r → Inv env (emptied env p (configured_page env p r))
        go (err e) f = same-Inv p _ h long refl refl refl
        go (ok form) f = same-Inv p _ h f refl refl refl

    step-Inv : (p : Page) (e : Event env.crypto.Random) → Inv env p → Inv env (step env p e)
    unfolding step
    step-Inv p (pick i) h = same-Inv p _ h (pick_kept IsLong i p.form.presets h.long) refl refl refl
    step-Inv p (type_minutes minutes) h = same-Inv p _ h h.long refl refl refl
    step-Inv p (type_message text) h = same-Inv p _ h h.long refl refl refl
    step-Inv p submit h = on_submit-Inv env p h
    step-Inv p (confirmed answer) h = on_confirmed-Inv p (is_confirmed answer) h
    step-Inv p (reply response) h = on_reply-Inv p response h
    step-Inv p (encrypted random) h = on_encrypted-Inv p random h
    step-Inv p (copied worked) h = on_copied-Inv p worked h
    step-Inv p native_share h = on_native_share-Inv p h
    step-Inv p new_note h = on_new_note-Inv p h

    run-Inv : (p : Page) (es : List (Event env.crypto.Random)) → Inv env p → Inv env (run env p es)
    unfolding run
    run-Inv p [] h = h
    run-Inv p (e ∷ es) h = run-Inv (step env p e) es (step-Inv p e h)

  abbrev BeginsWell : Result Page → Type 0
  BeginsWell (err e) = Unit
  BeginsWell (ok p) = Inv env p

  -- Let every preset of seconds in the template have at least 60, no request before have a body, unless
  -- it is one for a key, the ledger show them, and `initCreatePage` make a page. Then after any events in
  -- any order: every request with a body is one for a key, and the body tells a lifetime from a minute
  -- up to the page's limit and nothing else; the ledger shows every request as it was sent; and the
  -- submit button is locked exactly while the server or the encryption is awaited.
  pub init_create_page-Inv :
      (net : Net) (meta : Text) (line : Status) (p : Page) (es : List (Event env.crypto.Random))
      → All IsLongPreset env.default_form.presets
      → IsFaithful net
      → All (IsTold env) net.requests
      → init_create_page env net meta line ≡ ok p
      → Inv env (run env p es)
  unfolding init_create_page
  init_create_page-Inv net meta line p es long n told e = run-Inv long p es (
      subst BeginsWell e (
        go (configure_expiry_options env.default_form (max_ttl env))
          (configure_kept IsLong env.default_form (max_ttl env) long)
          (template_page env net meta line) refl refl refl))
    where
      go :
          (r : Result Form)
          → FormOf IsLong r
          → (q : Page) → q.wait ≡ nothing
          → q.submit_disabled ≡ false
          → q.net ≡ net
          → BeginsWell (configured_page env q r)
      go (err e) f q w s m = tt
      go (ok form) f q w s m = record {
        long = f;
        pending = subst (WaitAllowed env) (sym w) tt;
        locked = s ∙ ap awaits_answer (sym w);
        faithful = subst IsFaithful (sym m) n;
        told = subst (λ m. All (IsTold env) m.requests) (sym m) told;
      }
