-- ===== src/Server/Handlers/Gone.antt =====
-- handlers.go over Redis: what FetchKey leaves, and what it says when its command is sent again.
use key_bank.Base.{
  ℕ, ◌≡◌, ◌∙◌, sym, ap, subst, [], ◌∷◌, ◌++◌, Option, none, some, Text, Bytes, codes,
}
use key_bank.Server.Go.{gives}
use key_bank.Server.Redis.{
  Redis, IsLawful, Network, IsPrompt, HasArrived, answered, lost_before, lost_after, send,
}
use key_bank.Server.Store.{Coding, RedisCall, decoded, redis_load, redis_key_store}
use key_bank.Server.Http.{
  Request, Writer, Outcome, finished, panicked, state_of, answer_of, EndsWith,
}
use key_bank.Server.Handlers.{Json, Handlers, World, fetch_key}
use key_bank.Server.Handlers.Keys.{reply_to, IsUnsent, fetch_key_state, fetch_key_answer}

module _ (redis : Redis) (view : redis.State → ℕ → Text → Option Bytes) (laws : IsLawful redis view)
    (coding : Coding) (json : Json) (LimiterCall : Type 0) (h : Handlers) where
  -- What is gone stays gone.
  sent_absent :
      (network : Network) (now : ℕ) (s : redis.State) (id : Text) (t : ℕ)
      → view s t id ≡ none
      → view (send network (λ m. redis.get_del m now id) s).0 t id ≡ none
  sent_absent [] now s id t e = e
  sent_absent (answered ∷ more) now s id t e = laws.get_del_gone s now id t
  sent_absent (lost_before ∷ more) now s id t e = sent_absent more now s id t e
  sent_absent (lost_after ∷ more) now s id t e =
      sent_absent more now (redis.get_del s now id).0 id t (laws.get_del_gone s now id t)

  sent_gone :
      (network : Network) (now : ℕ) (s : redis.State) (id : Text) (t : ℕ)
      → HasArrived network
      → view (send network (λ m. redis.get_del m now id) s).0 t id ≡ none
  sent_gone [] now s id t reached = absurd reached
  sent_gone (answered ∷ more) now s id t reached = laws.get_del_gone s now id t
  sent_gone (lost_before ∷ more) now s id t reached = sent_gone more now s id t reached
  sent_gone (lost_after ∷ more) now s id t reached =
      sent_absent more now (redis.get_del s now id).0 id t (laws.get_del_gone s now id t)

  pub loaded_gone :
      (world : World RedisCall LimiterCall) (s : redis.State) (w : Writer) (r : Request) (t : ℕ)
      → HasArrived (world.call.network 0)
      → view
          (state_of (fetch_key (redis_key_store redis coding) json LimiterCall h world s w r))
          t
          r.id
        ≡ none
  unfolding redis_load
  loaded_gone world s w r t reached =
      ap (λ s'. view s' t r.id)
        (fetch_key_state (redis_key_store redis coding) json LimiterCall h world s w r)
      ∙ sent_gone (world.call.network 0) world.now s r.id t reached

  -- Where nothing is, an answer says so.
  sent_nothing :
      (network : Network) (now : ℕ) (s : redis.State) (id : Text)
      → IsPrompt network
      → view s now id ≡ none
      → (send network (λ m. redis.get_del m now id) s).1 ≡ gives none
  sent_nothing [] now s id p e = absurd p
  sent_nothing (answered ∷ more) now s id p e = ap gives (laws.get_del_read s now id ∙ e)
  sent_nothing (lost_before ∷ more) now s id p e = sent_nothing more now s id p e
  sent_nothing (lost_after ∷ more) now s id p e = absurd p

  answer_is :
      (o : Outcome redis.State) (s : redis.State) (a : Option ℕ × Bytes)
      → EndsWith o s a
      → answer_of o ≡ a
  answer_is (finished s' w) s a e = e.1
  answer_is (panicked s' w) s a e = absurd e

  -- In a lawful Redis that is asked for a key, let the first answer be lost on the way back, and let
  -- the command be sent again and answered then. Whatever was there, the client gets 404, and nothing
  -- is left under the ID.
  pub fetch_key-resent :
      (world : World RedisCall LimiterCall) (s : redis.State) (w : Writer) (r : Request)
      (more : Network)
      → world.call.network 0 ≡ lost_after ∷ more
      → IsPrompt more
      → IsUnsent w
      → (answer_of (fetch_key (redis_key_store redis coding) json LimiterCall h world s w r)
          ≡ (some 404, codes "404 page not found" ++ b'\n' ∷ []))
        × ((t : ℕ)
            → view
                (state_of (fetch_key (redis_key_store redis coding) json LimiterCall h world s w r))
                t
                r.id
              ≡ none)
  unfolding redis_load
  fetch_key-resent world s w r more resent prompt unsent = (
    answer_is _ _ (reply_to none) (
        fetch_key_answer (redis_key_store redis coding) json LimiterCall h world s w r none nothing
          unsent),
    λ t. loaded_gone world s w r t (subst HasArrived (sym resent) tt),
  )
    where
      nothing : (redis_load redis coding world.call world.now s r.id).1 ≡ gives none
      nothing =
          ap (λ n. decoded coding (send n (λ m. redis.get_del m world.now r.id) s).1) resent
          ∙ ap (decoded coding) (
              sent_nothing more world.now (redis.get_del s world.now r.id).0 r.id prompt
                (laws.get_del_gone s world.now r.id world.now))
