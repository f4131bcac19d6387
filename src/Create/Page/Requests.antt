-- ===== src/Create/Page/Requests.antt =====
-- What the create page sends: requests for a key with a lifetime that the server accepts, and nothing
-- of the note.
use key_bank.Base.{
  ℕ, ◌≤◌, ◌≡◌, ◌⊎◌, inl, ◌∙◌, refl, ap, Bool, true, false, none, some, Text, codes, Error, Result,
  ok, err, if◌then◌else◌, All, All-append, all, ltb,
}
use key_bank.Crypto.Pem.{is_space}
use key_bank.Ui.{Status}
use key_bank.Api.{Request, create_body, start_send, start_create_key}
use key_bank.Api.Faithful.{IsFaithful, start_send-IsFaithful}
use key_bank.Create.Expiry.{selected_ttl}
use key_bank.Create.Expiry.Choice.{IsLongPreset, selected_ttl-bounds}
use key_bank.Create.Page.{
  Wait, nothing, for_confirmation, for_key, for_link, Page, Env, max_ttl, byte_length,
  soft_plaintext_limit_bytes, request_key, submit_with, warned, on_submit, failed,
}

-- A lifetime from a minute up to the page's limit, which is at most seven days.
abbrev pub IsAllowed : Env → ℕ → Type 0
IsAllowed env ttl = (60 ≤ ttl) × (ttl ≤ 604800) × (ttl ≤ max_ttl env)

-- The request for a key: the lifetime is all that it tells.
pub record IsKeyRequest (env : Env) (r : Request) : Type 0 where
  pub ttl : ℕ
  pub allowed : IsAllowed env ttl
  pub same :
      r ≡ record { method = codes "POST"; path = codes "/api/keys"; body = some (create_body ttl) }

-- A request for a key, or one without a body, such as that of the page itself.
abbrev pub IsTold : Env → Request → Type 0
IsTold env r = IsKeyRequest env r ⊎ (r.body ≡ none)

abbrev pub WaitAllowed : Env → Wait → Type 0
WaitAllowed env (for_confirmation ttl plaintext) = IsAllowed env ttl
WaitAllowed env _ = Unit

-- The button is locked while the server's answer or the encryption is awaited, and only then.
abbrev pub awaits_answer : Wait → Bool
awaits_answer nothing = false
awaits_answer (for_confirmation ttl plaintext) = false
awaits_answer (for_key handle ttl plaintext) = true
awaits_answer (for_link key ttl plaintext) = true

pub record Inv (env : Env) (p : Page) : Type 0 where
  pub long : All IsLongPreset p.form.presets
  pub pending : WaitAllowed env p.wait
  pub locked : p.submit_disabled ≡ awaits_answer p.wait
  pub faithful : IsFaithful p.net
  pub told : All (IsTold env) p.net.requests

module _ (env : Env) where
  pub request_key-Inv :
      (p : Page) (ttl : ℕ) (plaintext : Text)
      → Inv env p
      → IsAllowed env ttl
      → Inv env (request_key env p ttl plaintext)
  unfolding request_key start_create_key start_send
  request_key-Inv p ttl plaintext h a = record {
    long = h.long;
    pending = tt;
    locked = refl;
    faithful =
        start_send-IsFaithful p.net (codes "POST") (codes "/api/keys") (some (create_body ttl))
          h.faithful;
    told =
        All-append (IsTold env) p.net.requests _ h.told
          (inl (record { ttl = ttl; allowed = a; same = refl }), tt);
  }

  submit_with-Inv :
      (p : Page) (plaintext : Text) (r : Result ℕ)
      → Inv env p
      → p.wait ≡ nothing
      → ((ttl : ℕ) → r ≡ ok ttl → IsAllowed env ttl)
      → Inv env (submit_with env p plaintext r)
  unfolding submit_with
  submit_with-Inv p plaintext (err e) h w a = record {
    long = h.long;
    pending = h.pending;
    locked = h.locked;
    faithful = h.faithful;
    told = h.told;
  }
  submit_with-Inv p plaintext (ok ttl) h w a =
      go (ltb soft_plaintext_limit_bytes (byte_length plaintext))
    where
      go :
          (b : Bool)
          → Inv env (if b then warned env p ttl plaintext else request_key env p ttl plaintext)
      go true = record {
        long = h.long;
        pending = a ttl refl;
        locked = h.locked ∙ ap awaits_answer w;
        faithful = h.faithful;
        told = h.told;
      }
      go false = request_key-Inv p ttl plaintext h (a ttl refl)

  pub failed-Inv : (p : Page) (e : Error) → Inv env p → Inv env (failed env p e)
  failed-Inv p e h = record {
    long = h.long;
    pending = tt;
    locked = refl;
    faithful = h.faithful;
    told = h.told;
  }

  pub on_submit-Inv : (p : Page) → Inv env p → Inv env (on_submit env p p.wait)
  on_submit-Inv p h = go p.wait refl
    where
      allowed :
          (ttl : ℕ)
          → selected_ttl env.to_locale_string p.form (max_ttl env) ≡ ok ttl
          → IsAllowed env ttl
      allowed ttl e =
          selected_ttl-bounds env.to_locale_string p.form env.configured_max_ttl ttl h.long e

      unchanged : (line : Status) → Inv env (record p { status = line })
      unchanged line = record {
        long = h.long;
        pending = h.pending;
        locked = h.locked;
        faithful = h.faithful;
        told = h.told;
      }

      blank_or_not :
          p.wait ≡ nothing
          → (b : Bool) (line : Status)
          → Inv env (
              if b
              then record p { status = line }
              else submit_with env p p.message
                  (selected_ttl env.to_locale_string p.form (max_ttl env)))
      blank_or_not w true line = unchanged line
      blank_or_not w false line = submit_with-Inv p p.message _ h w allowed

      guarded : (b : Bool) (q : Page) → Inv env q → Inv env (if b then p else q)
      guarded true q hq = h
      guarded false q hq = hq

      go : (w : Wait) → p.wait ≡ w → Inv env (on_submit env p w)
      go nothing e =
          unfold on_submit in
          guarded p.submit_disabled _ (blank_or_not e (all is_space p.message) _)
      go (for_confirmation ttl t) e = unfold on_submit in h
      go (for_key handle ttl t) e = unfold on_submit in h
      go (for_link key ttl t) e = unfold on_submit in h
