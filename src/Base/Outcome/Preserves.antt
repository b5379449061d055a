-- ===== src/Base/Outcome/Preserves.antt =====
-- Facts about the state that an action keeps, with a rule for each way to build one.
use mathlib.Core.Bool.{Bool, true, false}
use mathlib.Core.Option.{Option, none, some}
use mathlib.Core.List.{List, [], ◌∷◌}
use etcd_play.Base.Tests.{if◌then◌else◌}
use etcd_play.Base.Outcome.{M, ◌>>=◌, pure, get, modify, state_of, >>=-Keeps}

-- `m` keeps `P`, however it ends.
pub record Preserves {S A : Type 0} (P : S → Type 0) (m : M S A) : Type 0 where
  pub kept : (s : S) → P s → P (state_of (m s))

pub Preserves-get : {S : Type 0} {P : S → Type 0} → Preserves P get
Preserves-get = record { kept = λ s p. p }

pub Preserves-modify :
    {S : Type 0} {P : S → Type 0} {f : S → S} → ((s : S) → P s → P (f s)) → Preserves P (modify f)
Preserves-modify h = record { kept = h }

module _ {S A : Type 0} {P : S → Type 0} where
  pub Preserves-pure : (a : A) → Preserves P (pure a)
  Preserves-pure a = record { kept = λ s p. p }

  pub Preserves-Bool :
      (b : Bool) {m n : M S A}
      → Preserves P m
      → Preserves P n
      → Preserves P (elim b [ true ↦ m | false ↦ n ])
  Preserves-Bool true km kn = km
  Preserves-Bool false km kn = kn

  pub Preserves-if :
      (b : Bool) {m n : M S A} → Preserves P m → Preserves P n → Preserves P (if b then m else n)
  Preserves-if true km kn = km
  Preserves-if false km kn = kn

module _ {S A B : Type 0} {P : S → Type 0} where
  pub Preserves-bind :
      {m : M S A} {f : A → M S B}
      → Preserves P m
      → ((a : A) → Preserves P (f a))
      → Preserves P (m >>= f)
  Preserves-bind {m} {f} km kf = record { kept = >>=-Keeps P m f km.kept (λ a. (kf a).kept) }

  pub Preserves-Option :
      (o : Option B) {m : M S A} {f : B → M S A}
      → Preserves P m
      → ((b : B) → Preserves P (f b))
      → Preserves P (elim o [ none ↦ m | some b ↦ f b ])
  Preserves-Option none km kf = km
  Preserves-Option (some b) km kf = kf b

  pub Preserves-List :
      (xs : List B) {m : M S A} {f : B → List B → M S A}
      → Preserves P m
      → ((x : B) (rest : List B) → Preserves P (f x rest))
      → Preserves P (elim xs [ [] ↦ m | x ∷ rest ↦ f x rest ])
  Preserves-List [] km kf = km
  Preserves-List (x ∷ rest) km kf = kf x rest
