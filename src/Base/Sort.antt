-- ===== src/Base/Sort.antt =====
-- `sort.Strings`: byte-wise order and an insertion sort. The sorted list of a bag of strings is
-- unique, so any correct sort gives the same list (`sort-perm`).
use mathlib.Core.Path.{◌≡◌, refl, ap₂, ◌∙◌}
use mathlib.Core.Logic.{◌⊎◌, inl, inr, ∥∥₁_elim}
use mathlib.Core.Bool.{Bool, true, false, ◌&&◌, ◌||◌}
use mathlib.Core.List.{List, [], ◌∷◌, ◌++◌, Perm, Permᴰ}
use native.Mathlib.Omega.{arith}
use etcd_play.Base.Tests.{ltb, ◌==◌, if◌then◌else◌}
use etcd_play.Base.Text.{Text}

unfoldable pub le_text : Text → Text → Bool
le_text [] t = true
le_text (x ∷ xs) [] = false
le_text (x ∷ xs) (y ∷ ys) = ltb x y || ((x == y) && le_text xs ys)

pub le_text_total : (s t : Text) → (le_text s t ≡ true) ⊎ (le_text t s ≡ true)
unfolding le_text
le_text_total [] t = inl refl
le_text_total (x ∷ xs) [] = inr refl
le_text_total (x ∷ xs) (y ∷ ys) = ground (arith, le_text_total xs ys)

pub le_text_antisymm : (s t : Text) → le_text s t ≡ true → le_text t s ≡ true → s ≡ t
unfolding le_text
le_text_antisymm [] [] h k = refl
le_text_antisymm [] (y ∷ ys) h k = ground arith
le_text_antisymm (x ∷ xs) [] h k = ground arith
le_text_antisymm (x ∷ xs) (y ∷ ys) h k = ground (arith, le_text_antisymm xs ys)

pub le_text_trans : (s t u : Text) → le_text s t ≡ true → le_text t u ≡ true → le_text s u ≡ true
unfolding le_text
le_text_trans [] t u h k = refl
le_text_trans (x ∷ xs) [] u h k = ground arith
le_text_trans (x ∷ xs) (y ∷ ys) [] h k = ground arith
le_text_trans (x ∷ xs) (y ∷ ys) (z ∷ zs) h k = ground (arith, le_text_trans xs ys zs)

-- Nor does a common prefix matter to the order.
pub le_text-append : (d s t : Text) → le_text (d ++ s) (d ++ t) ≡ le_text s t
unfolding le_text
le_text-append [] s t = refl
le_text-append (x ∷ d) s t = ground (arith, le_text-append d s t)

unfoldable pub insert_sorted : Text → List Text → List Text
insert_sorted x [] = x ∷ []
insert_sorted x (y ∷ ys) = if le_text x y then x ∷ y ∷ ys else y ∷ insert_sorted x ys

unfoldable pub sort : List Text → List Text
unfolding insert_sorted le_text
sort [] = []
sort (x ∷ xs) = insert_sorted x (sort xs)

insert_sorted_comm :
    (x y : Text) (l : List Text)
    → insert_sorted x (insert_sorted y l) ≡ insert_sorted y (insert_sorted x l)
unfolding insert_sorted
insert_sorted_comm x y [] = ground (arith, le_text_total x y, le_text_antisymm x y)
insert_sorted_comm x y (z ∷ l) = ground (
  arith,
  insert_sorted_comm x y l,
  le_text_total x y,
  le_text_antisymm x y,
  le_text_trans x y z,
  le_text_trans y x z,
)

texts_set : IsSet (List Text)
texts_set = hlevel

sort-permᴰ : {l m : List Text} → Permᴰ l m → sort l ≡ sort m
unfolding sort
sort-permᴰ Permᴰ.nil = refl
sort-permᴰ (Permᴰ.cons e p) = ap₂ insert_sorted e (sort-permᴰ p)
sort-permᴰ (Permᴰ.swap {a' = x} {b' = y} {l = l} e e') =
    rw (e, e') (insert_sorted_comm y x (sort l))
sort-permᴰ (Permᴰ.trans p q) = sort-permᴰ p ∙ sort-permᴰ q

-- The order in which a Go map hands out its keys does not show in the sorted list.
pub sort-perm : {l m : List Text} → Perm l m → sort l ≡ sort m
sort-perm p = ∥∥₁_elim p (texts_set _ _) sort-permᴰ
