-- ===== src/Server/Middleware/Order.antt =====
-- handlers/middleware.go: the order of `Chain`.
use key_bank.Base.{ℕ, zero, suc, ◌≡◌, ◌∙◌, refl, ap, List, [], ◌∷◌, length}
use key_bank.Server.Http.{Handler}
use key_bank.Server.Middleware.{Middleware, apply_at, chain_loop, chain}

-- The specification: each middleware around those after it.
unfoldable pub nested : (S W : Type 0) → List (Middleware S W) → Middleware S W
nested S W [] next = next
nested S W (m ∷ mw) next = m (nested S W mw next)

module _ (S W : Type 0) where
  loop_cons :
      (i : ℕ) (m : Middleware S W) (mw : List (Middleware S W)) (next : Handler S W)
      → chain_loop S W (suc i) (m ∷ mw) next ≡ m (chain_loop S W i mw next)
  unfolding chain_loop
  loop_cons zero m mw next = refl
  loop_cons (suc i) m mw next = loop_cons i m mw (apply_at S W i mw next)

  -- The loop of `Chain`, which runs from the last middleware to the first, nests them in their order.
  pub chain-nested :
      (mw : List (Middleware S W)) (next : Handler S W) → chain S W mw next ≡ nested S W mw next
  unfolding chain nested
  chain-nested [] next = unfold chain_loop in refl
  chain-nested (m ∷ mw) next = loop_cons (length mw) m mw next ∙ ap m (chain-nested mw next)
