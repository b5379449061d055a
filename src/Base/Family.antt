-- ===== src/Base/Family.antt =====
-- Families indexed by goroutine, changed at one index.
use Prim.Native.Nat.{ℕ}
use mathlib.Core.Bool.{true, false}
use etcd_play.Base.Tests.{◌==◌, if◌then◌else◌}

abbrev pub update {ℓ} : {A : Type ℓ} → (ℕ → A) → ℕ → A → ℕ → A
update f i p j = if i == j then p else f j

-- What holds of the new member and of an old one holds of the changed family's.
pub update-cases {ℓ κ} :
    {A : Type ℓ} (P : A → Type κ) (f : ℕ → A) (i : ℕ) (p : A) (j : ℕ)
    → P p
    → P (f j)
    → P (update f i p j)
update-cases P f i p j new old = elim (i == j) as (λ b. P (if b then p else f j)) [
  | true ↦ new
  | false ↦ old
]
