-- ===== src/Base/Text/Laws.antt =====
-- Laws of the byte strings: equality, the last piece of a split, trimming, order under a prefix.
use Prim.Native.Nat.{ℕ}
use mathlib.Core.Path.{◌≡◌, refl}
use mathlib.Core.Logic.{◌↔◌, ◌≢◌, inl, inr}
use mathlib.Core.Bool.{true, false}
use mathlib.Core.List.{[], ◌∷◌, ◌++◌, reverse, reverse-cons, reverse-reverse}
use native.Mathlib.Omega.{arith}
use etcd_play.Base.Tests.{Bool-cases}
use etcd_play.Base.Lists.{All, All-append, last_or}
use etcd_play.Base.Text.{
  Text, same, starts_with, pieces, split, first_piece, last_piece, trim_left, trim_space, is_space,
}

pub same_iff : (s t : Text) → (same s t ≡ true) ↔ (s ≡ t)
unfolding same
same_iff [] [] = ground arith
same_iff (x ∷ xs) [] = ground arith
same_iff [] (y ∷ ys) = ground arith
same_iff (x ∷ xs) (y ∷ ys) = ground (arith, same_iff xs ys)

-- Splitting at a byte `c`: what follows its last occurrence is the last piece.
module _ (c : ℕ) where
  starts_with-hit : (xs : Text) → starts_with (c ∷ []) (c ∷ xs) ≡ true
  unfolding starts_with
  starts_with-hit xs = ground arith

  starts_with-miss : (x : ℕ) (xs : Text) → x ≢ c → starts_with (c ∷ []) (x ∷ xs) ≡ false
  unfolding starts_with
  starts_with-miss x xs h = ground arith

  pieces-none : (t : Text) → All (λ x. x ≢ c) t → pieces (c ∷ []) 0 t ≡ (t, [])
  unfolding pieces
  pieces-none [] h = refl
  pieces-none (x ∷ t) h = rw (starts_with-miss x t h.0, pieces) (rw (pieces-none t h.1))

  pieces-last :
      (s t d : Text) → All (λ x. x ≢ c) t → last_or d (pieces (c ∷ []) 0 (s ++ c ∷ t)).1 ≡ t
  unfolding pieces
  pieces-last [] t d h = rw (starts_with-hit t, pieces) (rw (pieces-none t h))
  pieces-last (x ∷ s) t d h = elim (Bool-cases (starts_with (c ∷ []) (x ∷ (s ++ c ∷ t)))) [
    | inl hit ↦ rw (hit, pieces) (pieces-last s t _ h)
    | inr miss ↦ rw (miss, pieces) (pieces-last s t d h)
  ]

  pub last_piece-split :
      (s t : Text) → All (λ x. x ≢ c) t → last_piece (split (s ++ c ∷ t) (c ∷ [])) ≡ t
  unfolding split
  last_piece-split s t h = pieces-last s t _ h

  pieces-first : (t u : Text) → All (λ x. x ≢ c) t → (pieces (c ∷ []) 0 (t ++ c ∷ u)).0 ≡ t
  unfolding pieces
  pieces-first [] u h = rw (starts_with-hit u, pieces) refl
  pieces-first (x ∷ t) u h =
      rw (starts_with-miss x (t ++ c ∷ u) h.0, pieces) (rw (pieces-first t u h.1))

  pub first_piece-split :
      (t u : Text) → All (λ x. x ≢ c) t → first_piece (split (t ++ c ∷ u) (c ∷ [])) ≡ t
  unfolding split
  first_piece-split t u h = pieces-first t u h

abbrev pub NotSpace : ℕ → Type 0
NotSpace c = is_space c ≡ false

trim_left-NotSpace : (t : Text) → All NotSpace t → trim_left t ≡ t
unfolding trim_left
trim_left-NotSpace [] h = refl
trim_left-NotSpace (x ∷ t) h = rw h.0

pub All-reverse : (P : ℕ → Type 0) (t : Text) → All P t → All P (reverse t)
All-reverse P [] h = h
All-reverse P (x ∷ t) h =
    rw (reverse-cons x t) (All-append P (reverse t) (x ∷ []) (All-reverse P t h.1) (h.0, tt))

pub trim_space-NotSpace : (t : Text) → All NotSpace t → trim_space t ≡ t
unfolding trim_space
trim_space-NotSpace t h =
    rw (trim_left-NotSpace t h, trim_left-NotSpace (reverse t) (All-reverse NotSpace t h))
      (reverse-reverse t)

-- A common prefix does not matter to equality.
pub same-append : (d s t : Text) → same (d ++ s) (d ++ t) ≡ same s t
unfolding same
same-append [] s t = refl
same-append (x ∷ d) s t = ground (arith, same-append d s t)
