-- ===== src/Backend/State.antt =====
-- backend/cache.go: the global state, and access to it. `globalCache.mu` is the field `locked`;
-- `written` collects what a handler writes to the response.
use etcd_play.Base.{ℕ, Bool, true, false, ◌++◌, List, [], ◌∷◌, Option, none, some}
use etcd_play.Base.Text.{Text}
use etcd_play.Base.Time.{ℤ}
use etcd_play.Base.Map.{Map, lookup, insert}
use etcd_play.Base.Outcome.{Outcome, done, blocked, panicked, M, ◌>>=◌, ◌>>◌, pure, get}
use etcd_play.Proc.Error.{Error}
use etcd_play.Proc.Message.{Message}
use etcd_play.Proc.Cluster.{Cluster}
use etcd_play.Proc.Cluster.Report.{ServerStatus}

-- The command line's values.
pub record GlobalFlags : Type 0 where
  pub etcd_binary : Text
  pub cluster_size : ℤ
  pub live_log : Bool
  pub keep_alive : Bool
  pub cluster_timeout : ℤ
  pub limit_interval : ℤ
  pub revive_interval : ℤ
  pub stress_number : ℤ
  pub play_web_port : Text
  pub is_remote : Bool
  pub agent_endpoints : List Text

-- `request_count` is the bit pattern of an int.
pub record UserData : Type 0 where
  pub start_time : ℕ
  pub last_request_time : ℕ
  pub request_count : ℕ
  pub selected_node_name : Text
  pub selected_operation : Text
  pub last_key : Text
  pub last_value : Text
  pub key_history : List Text

-- A part of the text that a GET shows.
pub data Piece : Type 0 where
  quoted : Text → Piece
  comma line_break see_below : Piece

-- One node's fields in the answer of /server_status.
pub record StatusRow : Type 0 where
  pub name : Text
  pub id : Text
  pub endpoint : Text
  pub state : Text
  pub hash : ℕ
  pub db_size : ℕ
  pub db_size_txt : Text

-- What handlers write, one constructor for each format or JSON struct.
pub data Body : Type 0 where
  not_active rate_limited method_not_allowed : Body
  error_text : Error → Body
  stream_logs : List Message → ℕ → Body
  already_started start_requested : ℤ → Text → Body
  start_failed : ℤ → Text → Error → Body
  server_status : ℕ → Text → List StatusRow → Body
  stress_success : ℤ → Text → ℤ → Body
  key_history_values : List Text → Body
  put_error : Error → Text → Text → Body
  put_success : Text → Text → ℤ → Body
  get_error : Error → Text → Body
  get_success : List Piece → Text → ℤ → Body
  get_not_exist : Text → ℤ → Body
  delete_error : Error → Text → Body
  delete_success : Text → ℕ → ℤ → Body
  kill_requested restart_requested : Text → Body

pub record App : Type 0 where
  pub locked : Bool
  pub cluster : Option Cluster
  pub users : Map UserData
  pub active_user_list : Text
  pub name_to_status : Map ServerStatus
  pub port_prefix : ℕ
  pub flags : GlobalFlags
  pub written : List Body

-- The part of a request that the handlers read; `encode` is what encoding the answer returns.
pub record Request : Type 0 where
  pub method : Text
  pub url : Text
  pub form_error : Option Error
  pub form : Map (List Text)
  pub encode : Option Error

abbrev pub put_locked : Bool → App → App
put_locked b a = record a { locked = b }

unfoldable pub lock : M App (Unit {0})
lock a = elim a.locked [ true ↦ blocked a | false ↦ done tt (put_locked true a) ]

unfoldable pub unlock : M App (Unit {0})
unlock a = elim a.locked [ true ↦ done tt (put_locked false a) | false ↦ panicked a ]

-- fmt.Fprintln(w, …) and http.Error
unfoldable pub respond : Body → M App (Unit {0})
respond b a = done tt (record a { written = a.written ++ b ∷ [] })

-- `if err := json.NewEncoder(w).Encode(resp); err != nil { return err }`
unfoldable pub encode : Request → Body → M App (Option Error)
unfolding respond
encode r b = elim r.encode [ some e ↦ pure (some e) | none ↦ do respond b; pure none ]

-- globalCache.users[userID], read through: a missing user is a nil pointer.
unfoldable pub user : Text → M App UserData
user id a = elim (lookup id a.users) [ none ↦ panicked a | some u ↦ done u a ]

-- A write through the pointer.
unfoldable pub update_user : Text → (UserData → UserData) → M App (Unit {0})
update_user id f a = elim (lookup id a.users) [
  | none ↦ panicked a
  | some u ↦ done tt (record a { users = insert id (f u) a.users })
]

-- A method call on globalCache.cluster: a nil interface panics.
abbrev pub after_cluster : {A : Type 0} → App → Outcome Cluster A → Outcome App A
after_cluster a (done x c) = done x (record a { cluster = some c })
after_cluster a (blocked c) = blocked (record a { cluster = some c })
after_cluster a (panicked c) = panicked (record a { cluster = some c })

unfoldable pub on_cluster : {A : Type 0} → M Cluster A → M App A
on_cluster m a = elim a.cluster [ none ↦ panicked a | some c ↦ after_cluster a (m c) ]

-- clusterActive
unfoldable pub cluster_active : M App Bool
unfolding lock unlock
cluster_active = do lock; a ← get; unlock; pure (elim a.cluster [ none ↦ false | some c ↦ true ])

-- What a deferred Unlock does to a handler's body, which holds the mutex.
abbrev pub released : {A : Type 0} → Outcome App A → Outcome App A
released (done x a) = done x (put_locked false a)
released (blocked a) = blocked a
released (panicked a) = panicked (put_locked false a)

unfoldable pub with_lock : {A : Type 0} → M App A → M App A
unfolding lock
with_lock body a = elim (lock a) [
  | done _ a' ↦ released (body a')
  | blocked a' ↦ blocked a'
  | panicked a' ↦ panicked a'
]
