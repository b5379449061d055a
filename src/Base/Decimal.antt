-- ===== src/Base/Decimal.antt =====
-- `%d` of a number that is not negative.
use Prim.Native.Nat.{ℕ, zero, suc, ◌+◌, ◌-◌, ◌*◌, ◌/◌, ◌%◌, ◌≤◌, ◌<◌}
use mathlib.Core.Path.{◌≡◌, refl, ap}
use mathlib.Core.Logic.{inl, inr}
use mathlib.Core.List.{[], ◌∷◌, ◌++◌}
use mathlib.Core.Bool.{Bool, ◌&&◌}
use native.Mathlib.Omega.{arith}
use etcd_play.Base.Tests.{ltb, leb, if◌then◌else◌, Bool-cases}
use etcd_play.Base.Lists.{All, All-append}
use etcd_play.Base.Text.{Text}

-- Fuel above the number is enough (`value-decimal`).
decimal_go : ℕ → ℕ → Text
decimal_go zero n = []
decimal_go (suc f) n =
    let rest = decimal_go f (n / 10) in
    if ltb n 10 then (48 + n) ∷ [] else rest ++ (48 + n % 10) ∷ []

unfoldable pub decimal : ℕ → Text
unfolding decimal_go
decimal n = decimal_go (suc n) n

-- What the digits stand for.
unfoldable pub value_from : ℕ → Text → ℕ
value_from acc [] = acc
value_from acc (d ∷ ds) = value_from (10 * acc + (d - 48)) ds

pub value_from-append :
    (acc : ℕ) (s : Text) (d : ℕ) → value_from acc (s ++ d ∷ []) ≡ 10 * value_from acc s + (d - 48)
unfolding value_from
value_from-append acc [] d = refl
value_from-append acc (x ∷ s) d = value_from-append (10 * acc + (x - 48)) s d

value-decimal_go : (f n : ℕ) → n < f → value_from 0 (decimal_go f n) ≡ n
unfolding decimal_go
value-decimal_go zero n h = elim h [ ]
value-decimal_go (suc f) n h = elim (Bool-cases (ltb n 10)) [
  | inl small ↦ rw small (unfold value_from in (omega arith))
  | inr big ↦ rw big (
      omega (
        arith,
        value_from-append 0 (decimal_go f (n / 10)) (48 + n % 10),
        value-decimal_go f (n / 10) (ground arith),
      ))
]

-- The reading of a decimal text undoes `%d`.
pub value-decimal : (n : ℕ) → value_from 0 (decimal n) ≡ n
unfolding decimal
value-decimal n = value-decimal_go (suc n) n (omega arith)

pub decimal_injective : (n m : ℕ) → decimal n ≡ decimal m → n ≡ m
decimal_injective n m e = omega (arith, ap (value_from 0) e, value-decimal n, value-decimal m)

abbrev pub is_digit : ℕ → Bool
is_digit c = leb 48 c && leb c 57

abbrev pub IsDigit : ℕ → Type 0
IsDigit c = (48 ≤ c) × (c ≤ 57)

decimal_go-digits : (f n : ℕ) → All IsDigit (decimal_go f n)
unfolding decimal_go
decimal_go-digits zero n = tt
decimal_go-digits (suc f) n = elim (Bool-cases (ltb n 10)) [
  | inl small ↦ rw small (ground arith)
  | inr big ↦ rw big (
      All-append IsDigit (decimal_go f (n / 10)) _ (decimal_go-digits f (n / 10))
        ((omega arith, omega arith), tt))
]

pub decimal-digits : (n : ℕ) → All IsDigit (decimal n)
unfolding decimal
decimal-digits n = decimal_go-digits (suc n) n

decimal_test : decimal 1203 ≡ 49 ∷ 50 ∷ 48 ∷ 51 ∷ []
unfolding decimal
decimal_test = refl
