-- ===== src/Backend/Loops/Cleanup.antt =====
-- The loop that cleans up old users (backend/cache.go).
use etcd_play.Base.{ℕ, ◌+◌, ◌≤◌, ◌≡◌, [], ◌∷◌, some, All, arith, Bool-cases, inl, inr}
use etcd_play.Base.Text.{Text}
use etcd_play.Base.Time.{pos, since, ltb_ℤ, hour, lt_since_iff}
use etcd_play.Base.Map.{Map, lookup}
use etcd_play.Backend.State.{UserData}
use etcd_play.Backend.Loops.{drop_old}

-- The session began no more than an hour before `now`.
abbrev pub IsRecent : ℕ → UserData → Type 0
IsRecent now u = now ≤ u.start_time + hour

drop_old-All : (now : ℕ) (us : Map UserData) → All (λ kv. IsRecent now kv.1) (drop_old now us)
unfolding drop_old
drop_old-All now [] = tt
drop_old-All now ((id, u) ∷ us) = elim (Bool-cases (ltb_ℤ (pos hour) (since now u.start_time))) [
  | inl old ↦ rw old (drop_old-All now us)
  | inr recent ↦ rw recent (
    ground (arith, recent, lt_since_iff now u.start_time hour (omega arith)),
    drop_old-All now us,
  )
]

drop_old-lookup :
    (now : ℕ) (us : Map UserData) (id : Text) (u : UserData)
    → IsRecent now u
    → lookup id us ≡ some u
    → lookup id (drop_old now us) ≡ some u
unfolding drop_old lookup
drop_old-lookup now [] id u recent found = cc
drop_old-lookup now ((j, v) ∷ us) id u recent found = ground (
  arith,
  found,
  lt_since_iff now v.start_time hour (omega arith),
  drop_old-lookup now us id u recent,
)

-- A round of the clean-up leaves no user whose session began more than an hour ago, and keeps the
-- data of every other user.
pub drop_old-IsRecent :
    (now : ℕ) (us : Map UserData) (id : Text) (u : UserData)
    → IsRecent now u
    → lookup id us ≡ some u
    → All (λ kv. IsRecent now kv.1) (drop_old now us) × (lookup id (drop_old now us) ≡ some u)
drop_old-IsRecent now us id u recent found =
    (drop_old-All now us, drop_old-lookup now us id u recent found)
