-- ===== src/Backend/Cache/RateLimit.antt =====
-- How many requests okToRequest (backend/cache.go) allows in a second.
use etcd_play.Base.{
  ℕ, suc, ◌+◌, ◌-◌, ◌^◌, ◌%◌, ◌≤◌, ◌<◌, ◌≡◌, ◌⊎◌, Bool, true, false, List, [], ◌∷◌, ltb, leb, ◌==◌,
  length, if◌then◌else◌, arith, inl, inr,
}
use etcd_play.Base.Time.{pos, ltb_ℤ, since, second, lt_since_iff}
use etcd_play.Proc.Node.{Readings}
use etcd_play.Backend.State.{UserData}
use etcd_play.Backend.Cache.{count_request, new_user, lt_int}

-- How many of a user's requests, with the clock's readings at each, are allowed.
pub allowed : UserData → List Readings → ℕ
allowed u [] = 0
allowed u (now ∷ rest) =
    let later = allowed (count_request now u).0 rest in
    if (count_request now u).1 then suc later else later

-- All readings lie within one second from `start` on.
abbrev pub Within : ℕ → List Readings → Type 0
Within start [] = Unit
Within start (now ∷ rest) =
    ((start ≤ now.first)
      × (start ≤ now.second)
      × (now.second ≤ start + second)
      × (start ≤ now.third))
    × Within start rest

-- The count is far from the end of an int's range.
abbrev limit63 : ℕ
limit63 = 9223372036854775807

-- A bound on what a user in this state can still get before `start + second`.
abbrev budget : ℕ → ℕ → ℕ → ℕ
budget start count last =
    if count == 0 then 4 else if leb start last then 4 - count else (4 - count) + 5

lt_int-small : (n : ℕ) → n ≤ limit63 → lt_int n 5 ≡ ltb n 5
lt_int-small n h = ground arith

wrap-small : (n : ℕ) → n < limit63 → (n + 1) % 2 ^ 64 ≡ n + 1
wrap-small n h = omega arith

-- What count_request does while the count does not wrap.
plain : Readings → UserData → UserData × Bool
plain now u =
    let n = u.request_count + 1 in
    let v = record u {
      last_request_time = if n == 1 then now.first else u.last_request_time;
      request_count = n;
    } in
    if ltb n 5
    then (v, true)
    else if ltb_ℤ (pos second) (since now.second v.last_request_time)
    then (record v { last_request_time = now.third; request_count = 0 }, true)
    else (v, false)

count_request-plain :
    (now : Readings) (u : UserData) → u.request_count < limit63 → count_request now u ≡ plain now u
unfolding count_request plain
count_request-plain now u h =
    rw (wrap-small u.request_count h, lt_int-small (u.request_count + 1) (omega arith))

-- One request pays from the budget, and counts by one.
plain-budget :
    (start : ℕ) (now : Readings) (u : UserData)
    → start ≤ now.first
    → now.second ≤ start + second
    → (((plain now u).1 ≡ true)
        × (budget start (plain now u).0.request_count (plain now u).0.last_request_time + 1
            ≤ budget start u.request_count u.last_request_time)
        × ((plain now u).0.request_count ≤ u.request_count + 1))
      ⊎ (((plain now u).1 ≡ false)
          × (budget start (plain now u).0.request_count (plain now u).0.last_request_time
              ≤ budget start u.request_count u.last_request_time)
          × ((plain now u).0.request_count ≤ u.request_count + 1))
unfolding plain
plain-budget start now u a c = ground (
  arith,
  lt_since_iff now.second u.last_request_time second (omega arith),
  lt_since_iff now.second now.first second (omega arith),
)

allowed-le-budget :
    (start : ℕ) (u : UserData) (reqs : List Readings)
    → u.request_count + length reqs ≤ limit63
    → Within start reqs
    → allowed u reqs ≤ budget start u.request_count u.last_request_time
unfolding allowed
allowed-le-budget start u [] h w = omega arith
allowed-le-budget start u (now ∷ rest) h w =
    rw (count_request-plain now u (omega arith)) (elim (plain-budget start now u w.0.0 w.0.2) [
      | inl (yes_sent, pays, counts) ↦
          rw yes_sent
            (omega (arith, allowed-le-budget start (plain now u).0 rest (omega arith) w.1))
      | inr (not_sent, pays, counts) ↦
          rw not_sent
            (omega (arith, allowed-le-budget start (plain now u).0 rest (omega arith) w.1))
    ])

-- Of a user's requests whose clock readings lie within one second, at most eight are allowed,
-- whatever came before, as long as the count of requests stays within an int.
pub allowed-le-eight :
    (start : ℕ) (u : UserData) (reqs : List Readings)
    → u.request_count + length reqs ≤ limit63
    → Within start reqs
    → allowed u reqs ≤ 8
allowed-le-eight start u reqs h w = ground (arith, allowed-le-budget start u reqs h w)

-- A user who has just been made gets at most four within a second.
pub allowed-new_user :
    (start now : ℕ) (reqs : List Readings)
    → length reqs ≤ limit63
    → Within start reqs
    → allowed (new_user now) reqs ≤ 4
allowed-new_user start now reqs h w =
    omega (arith, allowed-le-budget start (new_user now) reqs (omega arith) w)
