-- ===== src/Base/Map/Keys.antt =====
-- The keys of a map.
use Prim.Native.Nat.{suc, ◌≤◌}
use mathlib.Core.Path.{◌≡◌, refl, subst}
use mathlib.Core.List.{[], ◌∷◌}
use mathlib.Core.Logic.{◌≢◌, inl, inr}
use mathlib.Core.Option.{some}
use native.Mathlib.Omega.{arith}
use etcd_play.Base.Tests.{Bool-cases}
use etcd_play.Base.Lists.{length, All, Apart, All-weaken}
use etcd_play.Base.Text.{Text, same}
use etcd_play.Base.Text.Laws.{same_iff}
use etcd_play.Base.Map.{Map, lookup, insert, keys}

module _ {ℓ} {V : Type ℓ} where
  keys-insert {κ} :
      (P : Text → Type κ) (k : Text) (v : V) (m : Map V)
      → All P (keys m)
      → P k
      → All P (keys (insert k v m))
  unfolding insert
  keys-insert P k v [] h p = (p, tt)
  keys-insert P k v ((j, w) ∷ m) h p = elim (Bool-cases (same j k)) [
    | inl eq ↦ rw eq (p, h.1)
    | inr ne ↦ rw ne (h.0, keys-insert P k v m h.1 p)
  ]

  -- A map's keys stay different.
  pub insert-Apart : (k : Text) (v : V) (m : Map V) → Apart (keys m) → Apart (keys (insert k v m))
  unfolding insert
  insert-Apart k v [] h = (tt, tt)
  insert-Apart k v ((j, w) ∷ m) h = elim (Bool-cases (same j k)) [
    | inl eq ↦
        let j≡k : j ≡ k = (same_iff j k).0 eq in
        rw eq (subst (λ i. All (λ y. i ≢ y) (keys m)) j≡k h.0, h.1)
    | inr ne ↦
        let differ : j ≢ k = λ e. ground (arith, same_iff j k, ne, e) in
        rw ne (keys-insert (λ y. j ≢ y) k v m h.0 differ, insert-Apart k v m h.1)
  ]

  pub length-insert-le :
      (k : Text) (v : V) (m : Map V) → length (keys (insert k v m)) ≤ suc (length (keys m))
  unfolding insert
  length-insert-le k v [] = omega arith
  length-insert-le k v ((j, w) ∷ m) = elim (Bool-cases (same j k)) [
    | inl eq ↦ rw eq (omega arith)
    | inr ne ↦ rw ne (omega (arith, length-insert-le k v m))
  ]

  -- Every key is found.
  pub keys-found : (m : Map V) → All (λ k. (v : V) × (lookup k m ≡ some v)) (keys m)
  unfolding lookup
  keys-found [] = tt
  keys-found ((j, w) ∷ m) = (
    (w, ground (arith, same_iff j j)),
    All-weaken _ _
        (λ k. λ (v, e). elim (Bool-cases (same j k)) [
          | inl eq ↦ (w, rw eq refl)
          | inr ne ↦ (v, rw ne e)
        ])
        (keys m) (keys-found m),
  )

  -- What holds of all keys holds of one that is found.
  pub All-found {κ} :
      (P : Text → Type κ) (k : Text) (v : V) (m : Map V)
      → All P (keys m)
      → lookup k m ≡ some v
      → P k
  unfolding lookup
  All-found P k v [] h e = cc
  All-found P k v ((j, w) ∷ m) h e = elim (Bool-cases (same j k)) [
    | inl eq ↦ subst P ((same_iff j k).0 eq) h.0
    | inr ne ↦ All-found P k v m h.1 (rw ne at e)
  ]
