-- ===== src/Base/Map/Values.antt =====
-- A predicate on all values of a map.
use mathlib.Core.Path.{◌≡◌, subst}
use mathlib.Core.List.{[], ◌∷◌}
use mathlib.Core.Logic.{inl, inr}
use mathlib.Core.Option.{some}
use native.Mathlib.Omega.{arith}
use etcd_play.Base.Tests.{Bool-cases}
use etcd_play.Base.Lists.{All}
use etcd_play.Base.Text.{Text, same}
use etcd_play.Base.Map.{Map, lookup, insert, delete}

module _ {ℓ κ} {V : Type ℓ} (P : V → Type κ) where
  abbrev pub Values : Map V → Type κ
  Values m = All (λ kv. P kv.1) m

  pub Values-insert : (k : Text) (v : V) (m : Map V) → Values m → P v → Values (insert k v m)
  unfolding insert
  Values-insert k v [] h p = (p, tt)
  Values-insert k v ((j, w) ∷ m) h p = elim (Bool-cases (same j k)) [
    | inl eq ↦ rw eq (p, h.1)
    | inr ne ↦ rw ne (h.0, Values-insert k v m h.1 p)
  ]

  pub Values-delete : (k : Text) (m : Map V) → Values m → Values (delete k m)
  unfolding delete
  Values-delete k [] h = tt
  Values-delete k ((j, w) ∷ m) h = elim (Bool-cases (same j k)) [
    | inl eq ↦ rw eq (Values-delete k m h.1)
    | inr ne ↦ rw ne (h.0, Values-delete k m h.1)
  ]

  pub Values-lookup : (k : Text) (v : V) (m : Map V) → Values m → lookup k m ≡ some v → P v
  unfolding lookup
  Values-lookup k v [] h e = cc
  Values-lookup k v ((j, w) ∷ m) h e = elim (Bool-cases (same j k)) [
    | inl eq ↦ subst P (ground (arith, rw eq at e)) h.0
    | inr ne ↦ Values-lookup k v m h.1 (rw ne at e)
  ]
