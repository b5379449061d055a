-- ===== src/Proc/Cluster/Report.antt =====
-- proc/proc_cluster.go: Endpoints, Leader and Status. What etcd answers is `Answers`; the size text
-- of go-humanize is the parameter `bytes_text`. The goroutines of Status deliver in any order: that
-- of the node map.
use etcd_play.Base.{
  ℕ, zero, suc, ◌+◌, ◌/◌, ◌%◌, Bool, true, false, List, [], ◌∷◌, ◌++◌, Option, none, some, ltb,
  ◌==◌, if◌then◌else◌,
}
use etcd_play.Base.Text.{Text, codes, same}
use etcd_play.Base.Sort.{sort}
use etcd_play.Base.Map.{Map, lookup, insert, keys}
use etcd_play.Base.Outcome.{panicked, M, ◌>>=◌, pure, get}
use etcd_play.Proc.Error.{Error, Result, ok, err, no_leader, no_leader_after, timed_out}
use etcd_play.Proc.Node.{UrlHost, endpoint}
use etcd_play.Proc.Cluster.{Cluster, Node, flags_of, node_is_active}

-- The three results of Endpoints.
pub record Endpoints : Type 0 where
  pub active : List Text
  pub name_to_endpoint : Map Text
  pub endpoint_to_name : Map Text

abbrev pub no_endpoints : Endpoints
no_endpoints = record { active = []; name_to_endpoint = []; endpoint_to_name = [] }

abbrev pub add_endpoint : Text → Text → Bool → Endpoints → Endpoints
add_endpoint n ep is_active r = record {
  active = if is_active then r.active ++ ep ∷ [] else r.active;
  name_to_endpoint = insert n ep r.name_to_endpoint;
  endpoint_to_name = insert ep n r.endpoint_to_name;
}

-- nd.Endpoint(), and nd.Endpoint() != "" && nd.IsActive(); a URL that url.Parse refuses panics.
unfoldable pub shows : UrlHost → Text → Node → M Cluster (Text × Bool)
shows host n nd = elim (endpoint host (flags_of nd)) [
  | none ↦ panicked
  | some ep ↦ do
    is_active ← (if same ep [] then pure false else node_is_active n nd)
    pure (ep, is_active)
]

unfoldable pub endpoints_go : UrlHost → List Text → Endpoints → M Cluster Endpoints
endpoints_go host [] r = pure r
endpoints_go host (n ∷ ns) r = do
  c ← get
  elim (lookup n c.name_to_node) [
    | none ↦ endpoints_go host ns r
    | some nd ↦ do seen ← shows host n nd; endpoints_go host ns (add_endpoint n seen.0 seen.1 r)
  ]

-- Endpoints
unfoldable pub endpoints : UrlHost → M Cluster Endpoints
unfolding endpoints_go
endpoints host = do
  c ← get
  r ← endpoints_go host (keys c.name_to_node) no_endpoints
  pure (record r { active = sort r.active })

-- MemberId, Leader and DbSize of a status response
pub record StatusResponse : Type 0 where
  pub member_id : ℕ
  pub leader : ℕ
  pub db_size : ℕ

-- An answer that comes, one that is an error, and none within five seconds.
pub data Answer (A : Type 0) : Type 0 where
  answered : A → Answer A
  failed : Error → Answer A
  late : Answer A

pub record Answers : Type 0 where
  pub host : UrlHost
  pub client_new : Text → Option Error
  pub maintenance_status : Text → Result StatusResponse
  pub dial : Text → Option Error
  pub status : Text → Answer StatusResponse
  pub hash : Text → Answer ℕ

abbrev leader_error : Option Error → Error
leader_error none = no_leader
leader_error (some e) = no_leader_after e

-- A missing key of a Go map reads as the zero value.
abbrev pub name_or_empty : Option Text → Text
name_or_empty none = []
name_or_empty (some n) = n

-- The loop of Leader, with `lerr`.
unfoldable pub leader_go : Answers → Map Text → Option Error → List Text → Result Text
leader_go w ep_to_name lerr [] = err (leader_error lerr)
leader_go w ep_to_name lerr (ep ∷ eps) = elim (w.client_new ep) [
  | some e ↦ leader_go w ep_to_name (some e) eps
  | none ↦ elim (w.maintenance_status ep) [
    | err e ↦ leader_go w ep_to_name (some e) eps
    | ok resp ↦ elim (resp.member_id == resp.leader) [
      | true ↦ ok (name_or_empty (lookup ep ep_to_name))
      | false ↦ leader_go w ep_to_name none eps
    ]
  ]
]

-- Leader
unfoldable pub leader : Answers → M Cluster (Result Text)
unfolding endpoints leader_go
leader w = do r ← endpoints w.host; pure (leader_go w r.endpoint_to_name none r.active)

pub record ServerStatus : Type 0 where
  pub name : Text
  pub id : Text
  pub endpoint : Text
  pub state : Text
  pub hash : ℕ
  pub db_size : ℕ
  pub db_size_txt : Text

abbrev pub empty_stat : ServerStatus
empty_stat = record {
  name = [];
  id = codes "unknown";
  endpoint = codes "unknown";
  state = codes "unreachable";
  hash = 0;
  db_size = 0;
  db_size_txt = codes "0 B";
}

abbrev hex_digit : ℕ → ℕ
hex_digit d = if ltb d 10 then 48 + d else 87 + d

hex_go : ℕ → ℕ → Text
hex_go zero n = []
hex_go (suc f) n =
    let rest = hex_go f (n / 16) in
    if ltb n 16 then hex_digit n ∷ [] else rest ++ hex_digit (n % 16) ∷ []

-- `%x`
unfoldable pub hex : ℕ → Text
unfolding hex_go
hex n = hex_go (suc n) n

-- getStatus
unfoldable pub get_status : (ℕ → Text) → Answers → Text → Text → Result ServerStatus
unfolding hex
get_status bytes_text w name grpc_endpoint = elim (w.dial grpc_endpoint) [
  | some e ↦ err e
  | none ↦ elim (w.status grpc_endpoint) [
    | late ↦ err timed_out
    | failed e ↦ err e
    | answered sresp ↦ elim (w.hash grpc_endpoint) [
      | late ↦ err timed_out
      | failed e ↦ err e
      | answered h ↦ ok (record {
        name = name;
        id = hex sresp.member_id;
        endpoint = grpc_endpoint;
        state = if sresp.member_id == sresp.leader then codes "Leader" else codes "Follower";
        hash = h;
        db_size = sresp.db_size;
        db_size_txt = bytes_text sresp.db_size;
      })
    ]
  ]
]

-- The loop that receives the answers: `nameToStatus` and the last error.
unfoldable pub collect :
    (ℕ → Text)
    → Answers
    → Map Text
    → Map ServerStatus
    → Option Error
    → Map ServerStatus × Option Error
collect bytes_text w [] m e = (m, e)
collect bytes_text w ((name, ep) ∷ eps) m e = elim (get_status bytes_text w name ep) [
  | ok s ↦ collect bytes_text w eps (insert s.name s m) e
  | err e' ↦ collect bytes_text w eps m (some e')
]

-- The loop that fills in the nodes which gave no status.
unfoldable pub fill : Map Text → Map ServerStatus → Map ServerStatus
fill [] m = m
fill ((name, ep) ∷ eps) m = fill eps (elim (lookup name m) [
  | some s ↦ m
  | none ↦ insert name (record empty_stat { name = name; endpoint = ep }) m
])

abbrev pub survey : (ℕ → Text) → Answers → Map Text → Map ServerStatus × Option Error
survey bytes_text w eps = let (m, e) = collect bytes_text w eps [] none in (fill eps m, e)

-- Status
unfoldable pub status : (ℕ → Text) → Answers → M Cluster (Map ServerStatus × Option Error)
unfolding endpoints collect fill
status bytes_text w = do r ← endpoints w.host; pure (survey bytes_text w r.name_to_endpoint)
