-- ===== src/Prelude/Text.antt =====
-- Texts put together, as by an f-string.
use Prim.Native.Nat.{ℕ, zero, suc, ◌/◌, ◌%◌}
use Prim.Native.String
use Prim.Native.String.{String}
use mathlib.Core.Path.{◌≡◌, refl}
use mathlib.Core.Bool.{true, false}
use mathlib.Core.List.{List, [], ◌∷◌}
use lineage_collection.Prelude.Tests.{ltb}

unfoldable pub join : List String → String
join [] = ""
join (s ∷ ss) = String.◌++◌ s (join ss)

abbrev nth : List String → ℕ → String
nth [] i = ""
nth (s ∷ ss) zero = s
nth (s ∷ ss) (suc i) = nth ss i

abbrev digit : ℕ → String
digit = nth ("0" ∷ "1" ∷ "2" ∷ "3" ∷ "4" ∷ "5" ∷ "6" ∷ "7" ∷ "8" ∷ "9" ∷ [])

-- A number has at most as many digits as it is large, and one.
unfoldable pub digits : ℕ → ℕ → String
digits zero n = digit n
digits (suc fuel) n = elim (ltb n 10) [
  | true ↦ digit n
  | false ↦ String.◌++◌ (digits fuel (n / 10)) (digit (n % 10))
]

-- `str(n)`
unfoldable pub decimal : ℕ → String
decimal n = digits n n

decimal_405 : join ("v" ∷ decimal 405 ∷ []) ≡ "v405"
unfolding join decimal digits
decimal_405 = refl
