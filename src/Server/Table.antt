-- ===== src/Server/Table.antt =====
-- A map with texts as keys. The program never iterates over one.
use key_bank.Base.{
  ◌≡◌, ◌≢◌, refl, sym, ◌∙◌, false, List, [], ◌∷◌, Option, none, some, Text, if◌then◌else◌, arith,
  Bool-cases, inl, inr,
}
use key_bank.Js.Url.{text_eq}
use key_bank.Js.Url.Equality.{text_eq_iff, text_eq_refl}

abbrev pub Table {ℓ} : Type ℓ → Type ℓ
Table V = List (Text × V)

pub text_ne : (k j : Text) → k ≢ j → text_eq k j ≡ false
text_ne k j h = elim (Bool-cases (text_eq k j)) [
  | inl same ↦ absurd (h ((text_eq_iff k j).0 same))
  | inr other ↦ other
]

module _ {ℓ} {V : Type ℓ} where
  unfoldable pub find : Text → Table V → Option V
  find k [] = none
  find k ((j, v) ∷ t) = if text_eq j k then some v else find k t

  unfoldable pub erase : Text → Table V → Table V
  erase k [] = []
  erase k ((j, v) ∷ t) = let rest = erase k t in if text_eq j k then rest else (j, v) ∷ rest

  unfoldable pub put : Text → V → Table V → Table V
  unfolding erase
  put k v t = (k, v) ∷ erase k t

  find-erase_same : (k : Text) (t : Table V) → find k (erase k t) ≡ none
  unfolding find erase
  find-erase_same k [] = refl
  find-erase_same k ((j, v) ∷ t) = elim (Bool-cases (text_eq j k)) [
    | inl same ↦ rw same (find-erase_same k t)
    | inr other ↦ rw (other, other) (find-erase_same k t)
  ]

  find-erase_other :
      (k j : Text) (t : Table V) → text_eq k j ≡ false → find j (erase k t) ≡ find j t
  unfolding find erase
  find-erase_other k j [] ne = refl
  find-erase_other k j ((i, v) ∷ t) ne = elim (Bool-cases (text_eq i k)) [
    | inl same ↦
        let i_is : i ≡ k = (text_eq_iff i k).0 same in
        rw same (find-erase_other k j t ne ∙ sym (rw (i_is, ne) refl))
    | inr other ↦ rw other (ground (arith, find-erase_other k j t ne))
  ]

  -- What a key holds after one has been erased.
  pub find-erase :
      (k j : Text) (t : Table V) → find j (erase k t) ≡ (if text_eq k j then none else find j t)
  find-erase k j t = elim (Bool-cases (text_eq k j)) [
    | inl same ↦
        let k_is : k ≡ j = (text_eq_iff k j).0 same in
        rw (k_is, text_eq_refl j) (find-erase_same j t)
    | inr other ↦ rw other (find-erase_other k j t other)
  ]

  -- What a key holds after one has been set.
  pub find-put :
      (k j : Text) (v : V) (t : Table V)
      → find j (put k v t) ≡ (if text_eq k j then some v else find j t)
  unfolding find put
  find-put k j v t = elim (Bool-cases (text_eq k j)) [
    | inl same ↦ rw same refl
    | inr other ↦ rw other (find-erase_other k j t other)
  ]
