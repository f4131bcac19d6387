-- ===== src/Server/Store/Once.antt =====
-- What comes out of a key store that keeps the contract, over calls in any order.
use key_bank.Base.{
  ℕ, ◌+◌, ◌≤◌, ◌≡◌, ◌≢◌, ◌∙◌, refl, sym, ap, subst, Bool, true, false, List, [], ◌∷◌, Option, none,
  some, Text, All, arith, if◌then◌else◌, Bool-cases, inl, inr, ℕ_discrete,
}
use key_bank.Js.Url.{text_eq}
use key_bank.Js.Url.Equality.{text_eq_iff}
use key_bank.Server.Go.{Try, fails, gives}
use key_bank.Server.Store.{Record, KeyStore}
use key_bank.Server.Store.Contract.{IsKeyStore, Op, loads, saves, serve}

abbrev delivered : Try (Option Record) → ℕ
delivered fails = 0
delivered (gives none) = 0
delivered (gives (some rec)) = 1

-- How often an operation delivers the record of an ID.
abbrev delivery : (ks : KeyStore) → Text → ks.State → Op ks → ℕ
delivery ks id s (loads call now k) = if text_eq k id then delivered (ks.load call now s k).1 else 0
delivery ks id s (saves call now rec ttl) = 0

unfoldable pub deliveries : (ks : KeyStore) → Text → ks.State → List (Op ks) → ℕ
unfolding serve
deliveries ks id s [] = 0
deliveries ks id s (op ∷ ops) = delivery ks id s op + deliveries ks id (serve ks s op) ops

module _ (ks : KeyStore) (view : ks.State → ℕ → Text → Option Record)
    (MayUse : ks.Call → Text → Type 0) (IsStorable : Record → ℕ → Type 0)
    (IsSure : ks.Call → Type 0) (laws : IsKeyStore ks view MayUse IsStorable IsSure)
    (id : Text) where
  -- The operation does not store under the ID.
  abbrev pub IsForeign : Op ks → Type 0
  IsForeign (loads call now k) = Unit
  IsForeign (saves call now rec ttl) = MayUse call id → ⊥

  abbrev IsGone : ks.State → Type 0
  IsGone s = (t : ℕ) → view s t id ≡ none

  IsGone-load :
      (s : ks.State) (call : ks.Call) (now : ℕ) (k : Text)
      → IsGone s
      → IsGone (ks.load call now s k).0
  IsGone-load s call now k g t = elim (Bool-cases (text_eq k id)) [
    | inl same ↦
        subst (λ j. view (ks.load call now s j).0 t id ≡ none) (sym ((text_eq_iff k id).0 same))
          (laws.load_less call now s id t (g t))
    | inr other ↦ laws.load_other call now s k id t (differ other) ∙ g t
  ]
    where
      differ : text_eq k id ≡ false → k ≢ id
      differ other e =
          elim (text_eq k id) as (λ b. b ≡ false → b ≡ true → ⊥) [
            | true ↦ λ p q. cc
            | false ↦ λ p q. cc
          ]
            other ((text_eq_iff k id).1 e)

  IsGone-serve : (s : ks.State) (op : Op ks) → IsForeign op → IsGone s → IsGone (serve ks s op)
  unfolding serve
  IsGone-serve s (loads call now k) f g = IsGone-load s call now k g
  IsGone-serve s (saves call now rec ttl) f g = λ t. laws.save_other call now s rec ttl id t f ∙ g t

  nothing_delivered :
      (found : Option Record) (now : ℕ) (s : ks.State)
      → found ≡ view s now id
      → IsGone s
      → found ≡ none
  nothing_delivered found now s e g = e ∙ g now

  gone_delivers :
      (s : ks.State) (call : ks.Call) (now : ℕ) → IsGone s → delivered (ks.load call now s id).1 ≡ 0
  gone_delivers s call now g = go (ks.load call now s id).1 refl
    where
      go : (r : Try (Option Record)) → (ks.load call now s id).1 ≡ r → delivered r ≡ 0
      go fails e = refl
      go (gives none) e = refl
      go (gives (some rec)) e = absurd (clash (sym (laws.load_found call now s id rec e) ∙ g now))
        where
          clash : some rec ≡ none → ⊥
          clash q = cc

  gone_delivery : (s : ks.State) (op : Op ks) → IsGone s → delivery ks id s op ≡ 0
  gone_delivery s (saves call now rec ttl) g = refl
  gone_delivery s (loads call now k) g = elim (Bool-cases (text_eq k id)) [
    | inl same ↦ rw same (
        subst (λ j. delivered (ks.load call now s j).1 ≡ 0) (sym ((text_eq_iff k id).0 same))
          (gone_delivers s call now g))
    | inr other ↦ rw other refl
  ]

  gone_deliveries :
      (s : ks.State) (ops : List (Op ks))
      → All IsForeign ops
      → IsGone s
      → deliveries ks id s ops ≡ 0
  unfolding deliveries
  gone_deliveries s [] f g = refl
  gone_deliveries s (op ∷ ops) (f, fs) g =
      omega (
        arith,
        gone_delivery s op g,
        gone_deliveries (serve ks s op) ops fs (IsGone-serve s op f g),
      )

  load_delivers-IsGone :
      (s : ks.State) (call : ks.Call) (now : ℕ)
      → delivered (ks.load call now s id).1 ≢ 0
      → IsGone (ks.load call now s id).0
  load_delivers-IsGone s call now d = go (ks.load call now s id).1 refl
    where
      go :
          (r : Try (Option Record))
          → (ks.load call now s id).1 ≡ r
          → IsGone (ks.load call now s id).0
      go fails e = absurd (d (ap delivered e))
      go (gives found) e = λ t. laws.load_gone call now s id found t e

  -- What delivers the record leaves nothing.
  delivery-IsGone : (s : ks.State) (op : Op ks) → delivery ks id s op ≢ 0 → IsGone (serve ks s op)
  unfolding serve
  delivery-IsGone s (saves call now rec ttl) d = absurd (d refl)
  delivery-IsGone s (loads call now k) d = elim (Bool-cases (text_eq k id)) [
    | inl same ↦
        let k_is : k ≡ id = (text_eq_iff k id).0 same in
        subst (λ j. IsGone (ks.load call now s j).0) (sym k_is)
          (load_delivers-IsGone s call now
            (λ z. d (rw same (subst (λ j. delivered (ks.load call now s j).1 ≡ 0) (sym k_is) z))))
    | inr other ↦ absurd (d (rw other refl))
  ]

  delivered-le-one : (r : Try (Option Record)) → delivered r ≤ 1
  delivered-le-one fails = omega arith
  delivered-le-one (gives none) = omega arith
  delivered-le-one (gives (some rec)) = omega arith

  delivery-le-one : (s : ks.State) (op : Op ks) → delivery ks id s op ≤ 1
  delivery-le-one s (saves call now rec ttl) = omega arith
  delivery-le-one s (loads call now k) = go (text_eq k id)
    where
      go : (b : Bool) → (if b then delivered (ks.load call now s k).1 else 0) ≤ 1
      go true = delivered-le-one (ks.load call now s k).1
      go false = omega arith

  -- At most one delivery.
  pub deliveries-le-one :
      (s : ks.State) (ops : List (Op ks)) → All IsForeign ops → deliveries ks id s ops ≤ 1
  unfolding deliveries
  deliveries-le-one s [] f = omega arith
  deliveries-le-one s (op ∷ ops) (f, fs) = elim (ℕ_discrete (delivery ks id s op) 0) [
    | yes none_now ↦ omega (arith, deliveries-le-one (serve ks s op) ops fs)
    | no now ↦ omega (
      arith,
      delivery-le-one s op,
      gone_deliveries (serve ks s op) ops fs (delivery-IsGone s op now),
    )
  ]
