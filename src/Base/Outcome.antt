-- ===== src/Base/Outcome.antt =====
-- What a call does to the state it works on: it returns, it waits for good unless another goroutine
-- helps (a locked mutex, a full channel), or it panics.

pub mod Preserves
use mathlib.Core.Path.{◌≡◌, refl, subst}

pub data Outcome (S A : Type 0) : Type 0 where
  done : A → S → Outcome S A
  blocked : S → Outcome S A
  panicked : S → Outcome S A

abbrev pub M : Type 0 → Type 0 → Type 0
M S A = S → Outcome S A

infixl 5 ◌>>=◌ ◌>>◌
abbrev pub ◌>>=◌ : {S A B : Type 0} → M S A → (A → M S B) → M S B
◌>>=◌ m f s = elim (m s) [
  | done a s' ↦ f a s'
  | blocked s' ↦ blocked s'
  | panicked s' ↦ panicked s'
]

abbrev pub ◌>>◌ : {S A B : Type 0} → M S A → M S B → M S B
m >> k = m >>= λ _. k

abbrev pub pure : {S A : Type 0} → A → M S A
pure a s = done a s

abbrev pub get : {S : Type 0} → M S S
get s = done s s

abbrev pub modify : {S : Type 0} → (S → S) → M S (Unit {0})
modify f s = done tt (f s)

-- The call returns, and what it returns and leaves behind satisfies `P`.
abbrev pub Returns : {S A : Type 0} → Outcome S A → (A → S → Type 0) → Type 0
Returns (done a s) P = P a s
Returns (blocked s) P = ⊥
Returns (panicked s) P = ⊥

-- If the call returns, what it returns and leaves behind satisfies `P`.
abbrev pub IfReturns : {S A : Type 0} → Outcome S A → (A → S → Type 0) → Type 0
IfReturns (done a s) P = P a s
IfReturns (blocked s) P = Unit
IfReturns (panicked s) P = Unit

pub returned_as :
    {S A : Type 0} (P : A → S → Type 0) {r : Outcome S A} {a : A} {s : S}
    → IfReturns r P
    → r ≡ done a s
    → P a s
returned_as P h e = subst (λ r. IfReturns r P) e h

-- The call waits for another goroutine.
abbrev pub Blocks : {S A : Type 0} → Outcome S A → Type 0
Blocks (blocked s) = Unit
Blocks _ = ⊥

-- The call panicked.
abbrev pub Panics : {S A : Type 0} → Outcome S A → Type 0
Panics (panicked s) = Unit
Panics _ = ⊥

-- The state that a call leaves behind, however it ends.
abbrev pub state_of : {S A : Type 0} → Outcome S A → S
state_of (done a s) = s
state_of (blocked s) = s
state_of (panicked s) = s

-- A fact about the state that a call keeps, however it ends.
abbrev pub Keeps : {S A : Type 0} → (S → Type 0) → M S A → Type 0
Keeps {S} P m = (s : S) → P s → P (state_of (m s))

abbrev pub continue : {S A B : Type 0} → Outcome S A → (A → M S B) → Outcome S B
continue r f = elim r [ done a s ↦ f a s | blocked s ↦ blocked s | panicked s ↦ panicked s ]

continue-kept :
    {S A B : Type 0} (P : S → Type 0) (r : Outcome S A) (f : A → M S B)
    → P (state_of r)
    → ((a : A) → Keeps P (f a))
    → P (state_of (continue r f))
continue-kept P (done a s) f h k = k a s h
continue-kept P (blocked s) f h k = h
continue-kept P (panicked s) f h k = h

-- A chain keeps what its parts keep.
pub >>=-Keeps :
    {S A B : Type 0} (P : S → Type 0) (m : M S A) (f : A → M S B)
    → Keeps P m
    → ((a : A) → Keeps P (f a))
    → Keeps P (m >>= f)
>>=-Keeps P m f h k s p = continue-kept P (m s) f (h s p) k

then_regroup :
    {S A C : Type 0} (q : Outcome S A) (g : M S C)
    → continue q (λ x. g) ≡ continue (continue q (λ x. pure tt)) (λ (u : Unit {0}). g)
then_regroup (done x d) g = refl
then_regroup (blocked d) g = refl
then_regroup (panicked d) g = refl

-- Two calls and what follows them.
pub regroup :
    {S A B C : Type 0} (r : Outcome S A) (f : M S B) (g : M S C)
    → continue r (λ x. f >> g) ≡ continue (continue r (λ x. f >> pure tt)) (λ (u : Unit {0}). g)
regroup (done x d) f g = then_regroup (f d) g
regroup (blocked d) f g = refl
regroup (panicked d) f g = refl
