-- ===== src/Server/Handlers/Keys.antt =====
-- The two handlers of keys, over a store that keeps its contract.
use key_bank.Base.{
  ℕ, ◌≡◌, ◌∙◌, refl, sym, ap, subst, [], ◌∷◌, ◌++◌, Option, none, some, Text, Bytes, codes, arith,
}
use key_bank.Server.Go.{Try, fails, gives, ℤ, pos}
use key_bank.Server.Store.{Record, KeyStore, adapter_save, pem_of, adapter_load}
use key_bank.Server.Http.{
  Request, Writer, set_header, delete_header, write_header, write, http_error, finished, state_of,
  answer_of, EndsWith,
}
use key_bank.Server.Handlers.{
  KeyPair, Json, Handlers, World, Decoded, end_of_body, malformed, too_large, null, crashes,
  request, nothing_more, something_more, too_much_more, chosen_ttl, key_written, key_saved,
  key_generated, create_with, create_decoded, create_key, key_loaded, fetch_key,
}

-- What a handler says about a key that was there, or was not.
abbrev pub reply_to : Option Record → Option ℕ × Bytes
reply_to none = (some 404, codes "404 page not found" ++ b'\n' ∷ [])
reply_to (some rec) = (some 200, rec.priv_pem)

-- A response that nothing has been written to.
abbrev pub IsUnsent : Writer → Type 0
IsUnsent w = (w.sent ≡ none) × (w.body ≡ [])

written_answer :
    {S : Type 0} (s : S) (w : Writer) (status : ℕ) (body : Bytes)
    → IsUnsent w
    → answer_of (finished s (write body (write_header status w))) ≡ (some status, body)
unfolding write write_header
written_answer s w status body (unsent, bare) = rw (unsent, bare) refl

pub http_error-answer :
    {S : Type 0} (s : S) (w : Writer) (status : ℕ) (message : Text)
    → IsUnsent w
    → answer_of (finished s (http_error message status w)) ≡ (some status, message ++ b'\n' ∷ [])
unfolding http_error set_header delete_header write write_header
http_error-answer s w status message (unsent, bare) = rw (unsent, bare) refl

-- The lifetime that a body asks for, if it is a request.
abbrev pub asked_of : Decoded → Option ℤ
asked_of end_of_body = some (pos 0)
asked_of (request ttl nothing_more) = some ttl
asked_of _ = none

module _ (ks : KeyStore) (json : Json) (LimiterCall : Type 0) (h : Handlers) where
  loaded_answer :
      (w : Writer) (s : ks.State) (found : Option Record)
      → IsUnsent w
      → EndsWith
          (key_loaded ks json LimiterCall h w (s, pem_of ks (gives found)))
          s
          (reply_to found)
  loaded_answer w s none u = (refl, http_error-answer s w 404 (codes "404 page not found") u)
  loaded_answer w s (some rec) u = (refl, written_answer s w 200 rec.priv_pem u)

  pub key_loaded_state :
      (w : Writer) (a : ks.State × Try (Option Bytes))
      → state_of (key_loaded ks json LimiterCall h w a) ≡ a.0
  key_loaded_state w (s, fails) = refl
  key_loaded_state w (s, gives none) = refl
  key_loaded_state w (s, gives (some key)) = refl

  -- What a request for a key leaves is what the load leaves.
  pub fetch_key_state :
      (world : World ks.Call LimiterCall) (s : ks.State) (w : Writer) (r : Request)
      → state_of (fetch_key ks json LimiterCall h world s w r)
        ≡ (ks.load world.call world.now s r.id).0
  unfolding fetch_key adapter_load
  fetch_key_state world s w r = key_loaded_state w (adapter_load ks world.call world.now s r.id)

  pub fetch_key_answer :
      (world : World ks.Call LimiterCall) (s : ks.State) (w : Writer) (r : Request)
      (found : Option Record)
      → (ks.load world.call world.now s r.id).1 ≡ gives found
      → IsUnsent w
      → EndsWith
          (fetch_key ks json LimiterCall h world s w r)
          (ks.load world.call world.now s r.id).0
          (reply_to found)
  unfolding fetch_key adapter_load
  fetch_key_answer world s w r found e u =
      let left = (ks.load world.call world.now s r.id).0 in
      subst
        (λ a.
          EndsWith (key_loaded ks json LimiterCall h w (left, pem_of ks a)) left (reply_to found))
        (sym e) (loaded_answer w left found u)

  -- The record that a request for a new key saves.
  abbrev pub record_of : World ks.Call LimiterCall → KeyPair → Record
  record_of world keys = record { priv_pem = keys.private_pem; created_at = world.now }

  -- A request for a new key that is granted.
  pub record IsGranted (world : World ks.Call LimiterCall) (s : ks.State) (r : Request) (ttl : ℕ)
      (keys : KeyPair) (id : Text) (body : Bytes) : Type 0 where
    pub asked : ℤ
    pub read : asked_of (json.decode r.body r.limit) ≡ some asked
    pub chosen : chosen_ttl h.max_ttl asked ≡ some ttl
    pub generated : world.keys ≡ gives keys
    pub saved : (ks.save world.call world.now s (record_of world keys) ttl).1 ≡ gives id
    pub written : json.key_response id keys.public_pem ≡ gives body

  abbrev pub saved_state : World ks.Call LimiterCall → ks.State → ℕ → KeyPair → ks.State
  saved_state world s ttl keys = (ks.save world.call world.now s (record_of world keys) ttl).0

  same_asked :
      (world : World ks.Call LimiterCall) (s : ks.State) (w : Writer) (a b : ℤ)
      → some a ≡ some b
      → create_with ks json LimiterCall h world s w (chosen_ttl h.max_ttl a)
        ≡ create_with ks json LimiterCall h world s w (chosen_ttl h.max_ttl b)
  same_asked world s w a b e =
      let same : a ≡ b = ground arith in
      ap (λ a. create_with ks json LimiterCall h world s w (chosen_ttl h.max_ttl a)) same

  decoded_as :
      (world : World ks.Call LimiterCall) (s : ks.State) (w : Writer) (d : Decoded) (asked : ℤ)
      → asked_of d ≡ some asked
      → create_decoded ks json LimiterCall h world s w d
        ≡ create_with ks json LimiterCall h world s w (chosen_ttl h.max_ttl asked)
  decoded_as world s w end_of_body asked e = same_asked world s w (pos 0) asked e
  decoded_as world s w (request ttl nothing_more) asked e = same_asked world s w ttl asked e
  decoded_as world s w malformed asked e = cc
  decoded_as world s w too_large asked e = cc
  decoded_as world s w null asked e = cc
  decoded_as world s w crashes asked e = cc
  decoded_as world s w (request ttl something_more) asked e = cc
  decoded_as world s w (request ttl too_much_more) asked e = cc

  pub create_key_lem :
      (world : World ks.Call LimiterCall) (s : ks.State) (w : Writer) (r : Request) (ttl : ℕ)
      (keys : KeyPair) (id : Text) (body : Bytes)
      → IsGranted world s r ttl keys id body
      → IsUnsent w
      → EndsWith
          (create_key ks json LimiterCall h world s w r)
          (saved_state world s ttl keys)
          (some 201, body)
  unfolding create_key adapter_save set_header
  create_key_lem world s w r ttl keys id body g u =
      subst (λ o. EndsWith o (saved_state world s ttl keys) (some 201, body)) (sym outcome)
        (
          refl,
          written_answer (saved_state world s ttl keys)
              (set_header (codes "Content-Type") (codes "application/json") w) 201 body u,
        )
    where
      outcome :
          create_key ks json LimiterCall h world s w r
          ≡ finished (saved_state world s ttl keys) (
              write body
                (write_header 201 (set_header (codes "Content-Type") (codes "application/json") w)))
      outcome =
          decoded_as world s w (json.decode r.body r.limit) g.asked g.read
          ∙ ap (create_with ks json LimiterCall h world s w) g.chosen
          ∙ ap (key_generated ks json LimiterCall h world s w ttl) g.generated
          ∙ ap (λ a. key_saved ks json LimiterCall h w keys (saved_state world s ttl keys, a))
              g.saved
          ∙ ap (key_written ks json LimiterCall h (saved_state world s ttl keys) w) g.written

  module _ (world : World ks.Call LimiterCall) (s : ks.State) (P : ks.State → Type 0) (here : P s)
      (after_save : (rec : Record) (ttl : ℕ) → P (ks.save world.call world.now s rec ttl).0) where
    key_saved_state :
        (w : Writer) (keys : KeyPair) (a : ks.State × Try Text)
        → P a.0
        → P (state_of (key_saved ks json LimiterCall h w keys a))
    key_saved_state w keys (s', fails) p = p
    key_saved_state w keys (s', gives id) p = go (json.key_response id keys.public_pem)
      where
        go : (b : Try Bytes) → P (state_of (key_written ks json LimiterCall h s' w b))
        go fails = p
        go (gives b) = p

    create_with_state :
        (w : Writer) (o : Option ℕ) → P (state_of (create_with ks json LimiterCall h world s w o))
    create_with_state w none = here
    create_with_state w (some ttl) = go world.keys
      where
        go : (k : Try KeyPair) → P (state_of (key_generated ks json LimiterCall h world s w ttl k))
        go fails = here
        go (gives keys) =
            unfold adapter_save in
            key_saved_state w keys (ks.save world.call world.now s (record_of world keys) ttl)
              (after_save _ ttl)

    -- A request for a new key leaves what was there, or what the save leaves.
    pub create_key_state :
        (w : Writer) (r : Request) → P (state_of (create_key ks json LimiterCall h world s w r))
    create_key_state w r = unfold create_key in go (json.decode r.body r.limit)
      where
        go : (d : Decoded) → P (state_of (create_decoded ks json LimiterCall h world s w d))
        go end_of_body = create_with_state w (chosen_ttl h.max_ttl (pos 0))
        go malformed = here
        go too_large = here
        go null = here
        go crashes = here
        go (request ttl nothing_more) = create_with_state w (chosen_ttl h.max_ttl ttl)
        go (request ttl something_more) = here
        go (request ttl too_much_more) = here
