-- ===== src/Base/Errors.antt =====
-- JavaScript's exceptions as values. `Text` is a JavaScript string: its UTF-16 code units.
use Prim.Native.Nat.{ℕ}
use Prim.Native.Char.{code}
use Prim.Native.String.{String}
use mathlib.Core.List.{List, [], ◌∷◌}
use mathlib.Core.Path.{◌≡◌, refl}

abbrev pub Text : Type 0
Text = List ℕ

abbrev pub Bytes : Type 0
Bytes = List ℕ

-- A literal of the source. Its characters are all in the basic plane, so that a character is a code
-- unit. The function is shut: a message stays a name in proofs.
unfoldable pub codes : String → Text
codes String.[] = []
codes (String.◌∷◌ c s) = code c ∷ codes s

-- `thrown m` is an `Error` with message `m`, `rejected` an exception of the browser itself, and
-- `unfinished` is no exception: the loop's fuel ran out.
pub data Error : Type 0 where
  thrown : Text → Error
  rejected unfinished : Error

-- How a call ends.
pub data Result {ℓ} (A : Type ℓ) : Type ℓ where
  err : Error → Result A
  ok : A → Result A

-- An exception ends what follows it.
infixl 5 ◌>>=◌
abbrev pub ◌>>=◌ {ℓ κ} : {A : Type ℓ} {B : Type κ} → Result A → (A → Result B) → Result B
err thrown_before >>= next = err thrown_before
ok result >>= next = next result

pub >>=-eq-ok {ℓ κ} :
    {A : Type ℓ} {B : Type κ} (call : Result A) (next : A → Result B) {value : B}
    → (call >>= next) ≡ ok value
    → (result : A) × (call ≡ ok result) × (next result ≡ ok value)
>>=-eq-ok (err e) next h = cc
>>=-eq-ok (ok result) next h = (result, refl, h)
