-- ===== src/Base/Text/Quoted.antt =====
-- Searching and splitting a text in which parts stand between single quotes.
use Prim.Native.Nat.{ℕ}
use mathlib.Core.Path.{◌≡◌, refl, ap, ◌∙◌}
use mathlib.Core.Logic.{◌≢◌, inl, inr}
use mathlib.Core.Bool.{Bool, true, false, ◌||◌}
use mathlib.Core.List.{[], ◌∷◌, ◌++◌, reverse, reverse-append, reverse-cons, reverse-reverse}
use mathlib.Core.Option.{some}
use native.Mathlib.Omega.{arith}
use etcd_play.Base.Tests.{Bool-cases, if◌then◌else◌}
use etcd_play.Base.Lists.{All, length, drop, last_or}
use etcd_play.Base.Text.{
  Text, codes, same, starts_with, contains, pieces, split, first_piece, after_first, trim_left,
  trim_space,
}

-- No single quote.
abbrev pub Unquoted : Text → Type 0
Unquoted = All (λ x. x ≢ 39)

-- A text ends in `q`.
unfoldable pub ends_in : Text → Text → Bool
unfolding same
ends_in q [] = same q []
ends_in q (x ∷ s) = same q (x ∷ s) || ends_in q s

-- Up to the first quote of the text, a separator that ends in a quote is all or nothing.
starts_with-quote :
    (q s rest : Text)
    → Unquoted q
    → Unquoted s
    → starts_with (q ++ 39 ∷ []) (s ++ 39 ∷ rest) ≡ same q s
unfolding starts_with same
starts_with-quote [] [] rest hq hs = refl
starts_with-quote [] (x ∷ s) rest hq hs = ground (arith, hs.0)
starts_with-quote (p ∷ q) [] rest hq hs = ground (arith, hq.0)
starts_with-quote (p ∷ q) (x ∷ s) rest hq hs = ground (arith, starts_with-quote q s rest hq.1 hs.1)

drop-quote :
    (q s rest : Text) → same q s ≡ true → drop (length (q ++ 39 ∷ [])) (s ++ 39 ∷ rest) ≡ rest
unfolding same
drop-quote [] [] rest e = refl
drop-quote [] (x ∷ s) rest e = cc
drop-quote (p ∷ q) [] rest e = cc
drop-quote (p ∷ q) (x ∷ s) rest e = drop-quote q s rest (ground (arith, e))

-- What follows the first match is known at each quote.
pub after_first-quote :
    (q s rest : Text)
    → Unquoted q
    → Unquoted s
    → after_first (s ++ 39 ∷ rest) (q ++ 39 ∷ [])
      ≡ (if ends_in q s then some rest else after_first rest (q ++ 39 ∷ []))
unfolding after_first ends_in
after_first-quote q [] rest hq hs = elim (Bool-cases (same q [])) [
  | inl eq ↦ ground (arith, starts_with-quote q [] rest hq tt, eq, drop-quote q [] rest eq)
  | inr ne ↦ ground (arith, starts_with-quote q [] rest hq tt, ne)
]
after_first-quote q (x ∷ s) rest hq hs = elim (Bool-cases (same q (x ∷ s))) [
  | inl eq ↦
      ground (arith, starts_with-quote q (x ∷ s) rest hq hs, eq, drop-quote q (x ∷ s) rest eq)
  | inr ne ↦
      ground (arith, starts_with-quote q (x ∷ s) rest hq hs, ne, after_first-quote q s rest hq hs.1)
]

-- The separator "' " after a part between quotes, and its absence at the end.
pub first_piece-quote :
    (v more : Text) → Unquoted v → first_piece (split (v ++ 39 ∷ 32 ∷ more) (codes "' ")) ≡ v
unfolding split pieces starts_with
first_piece-quote [] more h = refl
first_piece-quote (x ∷ v) more h = ground (arith, h.0, first_piece-quote v more h.1)

pub first_piece-last :
    (v : Text) → Unquoted v → first_piece (split (v ++ 39 ∷ []) (codes "' ")) ≡ v ++ 39 ∷ []
unfolding split pieces starts_with
first_piece-last [] h = refl
first_piece-last (x ∷ v) h = ground (arith, h.0, first_piece-last v h.1)

-- A text without "--" does not end in a text that begins with it.
pub ends_in-dashes :
    (r s : Text) → contains s (codes "--") ≡ false → ends_in (45 ∷ 45 ∷ r) s ≡ false
unfolding ends_in contains starts_with same
ends_in-dashes r [] h = refl
ends_in-dashes r (x ∷ []) h = ground arith
ends_in-dashes r (x ∷ y ∷ s) h = ground (arith, h, ends_in-dashes r (y ∷ s))

last-eq : (q s : Text) (d : ℕ) → same (q ++ 61 ∷ []) s ≡ true → last_or d s ≡ 61
unfolding same
last-eq [] [] d h = absurd (ground (arith, h))
last-eq [] (x ∷ []) d h = ground (arith, h)
last-eq [] (x ∷ y ∷ s) d h = absurd (ground (arith, h))
last-eq (p ∷ q) [] d h = absurd (ground (arith, h))
last-eq (p ∷ q) (x ∷ s) d h = last-eq q s x (ground (arith, h))

-- A text whose last byte is not "=" does not end in a text whose last byte is.
pub ends_in-equals : (q s : Text) (d : ℕ) → last_or d s ≢ 61 → ends_in (q ++ 61 ∷ []) s ≡ false
unfolding ends_in same
ends_in-equals [] [] d h = refl
ends_in-equals (p ∷ q) [] d h = refl
ends_in-equals q (x ∷ s) d h = elim (Bool-cases (same (q ++ 61 ∷ []) (x ∷ s))) [
  | inl eq ↦ absurd (h (last-eq q (x ∷ s) d eq))
  | inr ne ↦ ground (arith, ne, ends_in-equals q s x h)
]

pub trim_space-command : (c : Text) → trim_space (45 ∷ (c ++ 39 ∷ 32 ∷ [])) ≡ 45 ∷ (c ++ 39 ∷ [])
unfolding trim_space trim_left
trim_space-command c =
    let t : Text = 45 ∷ c in
    ap (λ r. reverse (trim_left r)) (reverse-append t (39 ∷ 32 ∷ []))
    ∙ reverse-cons 39 (reverse t)
    ∙ ap (λ r. r ++ 39 ∷ []) (reverse-reverse t)
