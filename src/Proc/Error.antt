-- ===== src/Proc/Error.antt =====
-- The errors that the package `proc` makes, one constructor for each format string, with the values
-- that the string shows. `external` is an error handed on from another package.
use etcd_play.Base.{ℕ, ◌≡◌, refl, ◌⊎◌, inl, inr, Bool, true, false, List}
use etcd_play.Base.Text.{Text}
use etcd_play.Base.Time.{ℤ}

pub data Error : Type 0 where
  -- flags.go
  duplicate_name : Text → Error
  duplicate_ports : List Text → Error
  name_unspecified : Error
  bad_cluster_state : Error
  field_not_found : Text → Error
  -- node_web_local.go, node_web_remote_client.go
  already_running : Text → Error
  already_terminated : Text → Error
  same_node_restarted : ℤ → ℤ → Error
  node_terminated : ℤ → ℤ → Error
  same_node_terminated : ℤ → ℤ → Error
  node_restarted : ℤ → ℤ → Error
  -- proc_cluster.go
  does_not_exist : Text → Error
  agent_endpoints_size : ℕ → ℕ → Error
  no_agent_endpoints : Error
  no_leader : Error
  no_leader_after : Error → Error
  timed_out : Error
  stress_timed_out : Error
  named : Text → Error → Error
  external : Text → Error

-- A value, or the error returned with it.
pub data Result (A : Type 0) : Type 0 where
  ok : A → Result A
  err : Error → Result A

infixl 5 ◌>>=◌ ◌>>◌
abbrev pub ◌>>=◌ : {A B : Type 0} → Result A → (A → Result B) → Result B
err problem >>= next = err problem
ok value >>= next = next value

abbrev pub ◌>>◌ : {B : Type 0} → Result (Unit {0}) → Result B → Result B
checked >> next = checked >>= λ _. next

-- What a chain that succeeds has passed.
pub >>=-eq-ok :
    {A B : Type 0} (r : Result A) (next : A → Result B) {y : B}
    → (r >>= next) ≡ ok y
    → (x : A) × (r ≡ ok x) × (next x ≡ ok y)
>>=-eq-ok (err problem) next h = cc
>>=-eq-ok (ok x) next h = (x, refl, h)

abbrev pub is_ok : {A : Type 0} → Result A → Bool
is_ok (ok a) = true
is_ok (err e) = false

pub is_ok→ok : {A : Type 0} (r : Result A) → is_ok r ≡ true → (a : A) × (r ≡ ok a)
is_ok→ok (ok a) h = (a, refl)
is_ok→ok (err e) h = cc

pub Result-cases :
    {A : Type 0} (r : Result A) → ((e : Error) × (r ≡ err e)) ⊎ ((a : A) × (r ≡ ok a))
Result-cases (ok a) = inr (a, refl)
Result-cases (err e) = inl (e, refl)
