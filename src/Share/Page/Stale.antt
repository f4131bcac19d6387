-- ===== src/Share/Page/Stale.antt =====
-- The share page after its address has changed while it waits for the key.
use key_bank.Base.{◌≡◌, ◌∙◌, refl, sym, false, none, [], ◌∷◌, subst}
use key_bank.Api.{Settle, finish_send, finish_fetch_key}
use key_bank.Share.Page.{
  Env, ready, busy, Location, nothing, for_key, Page, hash_change, reply, on_hash_change,
  key_failed, key_arrived, on_reply, step, run,
}
use key_bank.Share.Page.Invariant.{Inv, IsBusy, Inv-IsBusy}

-- The page offers the key for the fragment that it read before, whatever its address is now.
pub record IsStale (p p' : Page) (location : Location) : Type 0 where
  pub is_ready_now : p'.state ≡ ready
  pub enabled : p'.disabled ≡ false
  pub moved : p'.location ≡ location
  pub kept : p'.fragment ≡ p.fragment

module _ (env : Env) where
  changed :
      (p : Page) (location : Location)
      → p.state ≡ busy
      → step env p (hash_change location) ≡ record p { location = location }
  unfolding step
  changed p location b =
      subst
        (λ s.
          on_hash_change env s (record p { location = location })
          ≡ record p { location = location })
        (sym b) (unfold on_hash_change in refl)

  refused :
      (p : Page) (handle : Settle)
      → p.wait ≡ for_key handle
      → IsStale p (step env p (reply none)) p.location
  unfolding step on_reply key_arrived key_failed finish_fetch_key finish_send
  refused p handle w =
      subst (λ w. IsStale p (on_reply env p w none) p.location) (sym w)
        (record { is_ready_now = refl; enabled = refl; moved = refl; kept = refl })

  -- Let a page with the invariant wait for the key, its address change, and no reply come. Then it
  -- is ready and its button enabled with the fragment of the address it had before: the new address
  -- is not read, whether or not it holds a well-formed link.
  pub unread_after_failure :
      (p : Page) (handle : Settle) (location : Location)
      → Inv p
      → p.wait ≡ for_key handle
      → IsStale p (run env p (hash_change location ∷ reply none ∷ [])) location
  unfolding run
  unread_after_failure p handle location h w =
      subst (λ q. IsStale p (step env q (reply none)) location)
        (sym (changed p location b.state_is))
        (same (refused (record p { location = location }) handle w))
    where
      waiting : for_key handle ≡ nothing → ⊥
      waiting q = cc

      b : IsBusy p
      b = Inv-IsBusy p h (λ q. waiting (sym w ∙ q))

      same :
          {p' : Page}
          → IsStale (record p { location = location }) p' location
          → IsStale p p' location
      same s = record {
        is_ready_now = s.is_ready_now;
        enabled = s.enabled;
        moved = s.moved;
        kept = s.kept;
      }
