-- ===== src/Backend/Cache.antt =====
-- backend/cache.go: withCache and okToRequest.
pub mod RateLimit
use etcd_play.Base.{
  ℕ, ◌+◌, ◌*◌, ◌^◌, ◌%◌, Bool, true, false, List, [], ◌∷◌, Option, none, some, ltb, ◌==◌,
  if◌then◌else◌,
}
use etcd_play.Base.Text.{Text, codes}
use etcd_play.Base.Time.{ℤ, pos, ltb_ℤ, since, second}
use etcd_play.Base.Map.{Map, lookup, insert}
use etcd_play.Base.Outcome.{Outcome, done, blocked, panicked, M, ◌>>=◌, ◌>>◌, pure, get, modify}
use etcd_play.Proc.Error.{Error}
use etcd_play.Proc.Node.{Readings}
use etcd_play.Backend.State.{
  App, UserData, Body, lock, unlock, respond, cluster_active, not_active, rate_limited,
}

-- The data of a user who visits for the first time, at a time rounded to seconds.
abbrev pub new_user : ℕ → UserData
new_user now = record {
  start_time = now;
  last_request_time = 0;
  request_count = 0;
  selected_node_name = [];
  selected_operation = [];
  last_key = [];
  last_value = [];
  key_history = codes "TYPE_YOUR_KEY" ∷ [];
}

-- Go's int: a comparison of two bit patterns with their signs.
abbrev pub lt_int : ℕ → ℕ → Bool
lt_int a b = ltb ((a + 2 ^ 63) % 2 ^ 64) ((b + 2 ^ 63) % 2 ^ 64)

abbrev pub add_user : Text → ℕ → App → App
add_user id now a = elim (lookup id a.users) [
  | some u ↦ a
  | none ↦ record a { users = insert id (new_user now) a.users }
]

-- withCache: makes the user's data on the first visit, then calls the handler.
unfoldable pub with_cache : Text → ℕ → M App (Option Error) → M App (Option Error)
unfolding lock unlock
with_cache id now handler = do lock; modify (add_user id now); unlock; handler

-- The body of okToRequest for a user: the new data and the answer.
unfoldable pub count_request : Readings → UserData → UserData × Bool
count_request now u =
    let n = (u.request_count + 1) % 2 ^ 64 in
    let v = record u {
      last_request_time = if n == 1 then now.first else u.last_request_time;
      request_count = n;
    } in
    if lt_int n 5
    then (v, true)
    else if ltb_ℤ (pos second) (since now.second v.last_request_time)
    then (record v { last_request_time = now.third; request_count = 0 }, true)
    else (v, false)

-- okToRequest
unfoldable pub ok_to_request : Text → Readings → M App Bool
unfolding lock unlock
ok_to_request id now = do
  lock
  a ← get
  elim (lookup id a.users) [
    | none ↦ do unlock; pure false
    | some u ↦ do
      modify (λ a. record a { users = insert id (count_request now u).0 a.users })
      unlock
      pure (count_request now u).1
  ]

-- fmt.Fprintln(w, …); return nil
abbrev pub say : Body → M App (Option Error)
say b = do respond b; pure none

-- `if !globalCache.clusterActive() { …; return nil }`
unfoldable pub when_active : M App (Option Error) → M App (Option Error)
unfolding cluster_active respond
when_active body = do active ← cluster_active; elim active [ true ↦ body | false ↦ say not_active ]

-- `if !globalCache.okToRequest(userID) { …; return nil }`
unfoldable pub when_allowed : Text → Readings → M App (Option Error) → M App (Option Error)
unfolding ok_to_request respond
when_allowed id now body = do
  allowed ← ok_to_request id now
  elim allowed [ true ↦ body | false ↦ say rate_limited ]
