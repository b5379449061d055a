-- ===== src/Backend/Handlers/Pages.antt =====
-- backend/backend.go: startClusterHandler, serverStatusHandler, streamHandler.
use etcd_play.Base.{
  zero, suc, Bool, true, false, List, [], ◌∷◌, ◌++◌, Option, none, some, length, if◌then◌else◌,
}
use etcd_play.Base.Text.{Text, codes, same}
use etcd_play.Base.Time.{ℤ, pos, negsuc}
use etcd_play.Base.Map.{Map, lookup, insert}
use etcd_play.Base.Outcome.{M, ◌>>=◌, ◌>>◌, pure, get, modify}
use etcd_play.Proc.Error.{Error, Result}
use etcd_play.Proc.Message.{Message}
use etcd_play.Proc.Cluster.{Cluster, stream}
use etcd_play.Proc.Cluster.Report.{ServerStatus}
use etcd_play.Backend.State.{
  App, Request, StatusRow, lock, unlock, respond, encode, on_cluster, cluster_active,
  method_not_allowed, already_started, start_requested, start_failed, server_status, stream_logs,
}
use etcd_play.Backend.Cache.{say, when_active}
use etcd_play.Backend.Start.{start_cluster}

-- wport
abbrev pub shown_port : App → Text
shown_port a = if a.flags.is_remote then codes ":80" else a.flags.play_web_port

-- len(globalCache.users) - 1, the number of other users in the welcome text
abbrev pub others : App → ℤ
others a = elim (length a.users) [ zero ↦ negsuc 0 | suc n ↦ pos n ]

unfoldable pub start_page : (Text → Result Text) → Text → Request → M App (Option Error)
start_page new_agent token r = do
  a ← get
  active ← cluster_active
  elim active [
    | true ↦ encode r (already_started (others a) (shown_port a))
    | false ↦ do
      e ← start_cluster new_agent token
      elim e [
        | none ↦ encode r (start_requested (others a) (shown_port a))
        | some x ↦ encode r (start_failed (others a) (shown_port a) x)
      ]
  ]

-- startClusterHandler; the goroutine of startCluster has run up to its message.
unfoldable pub start_cluster_handler : (Text → Result Text) → Text → Request → M App (Option Error)
unfolding start_page cluster_active encode respond
start_cluster_handler new_agent token r =
    if same r.method (codes "GET") then start_page new_agent token r else say method_not_allowed

-- The variables of one node, and its struct fields.
unfoldable pub row : Text → Map ServerStatus → StatusRow
row name m = elim (lookup name m) [
  | none ↦ record {
    name = name;
    id = codes "unknown";
    endpoint = codes "unknown";
    state = [];
    hash = 0;
    db_size = 0;
    db_size_txt = codes "0 B";
  }
  | some v ↦ record {
    name = name;
    id = v.id;
    endpoint = v.endpoint;
    state = v.state;
    hash = v.hash;
    db_size = v.db_size;
    db_size_txt = v.db_size_txt;
  }
]

-- The five nodes that the page knows.
unfoldable pub rows : Map ServerStatus → List StatusRow
unfolding row
rows m =
    row (codes "etcd1") m
    ∷ row (codes "etcd2") m
    ∷ row (codes "etcd3") m
    ∷ row (codes "etcd4") m
    ∷ row (codes "etcd5") m
    ∷ []

unfoldable pub status_page : Request → M App (Option Error)
status_page r = do
  a ← get
  active ← cluster_active
  elim active [
    | false ↦ pure none
    | true ↦ encode r (server_status (length a.users) a.active_user_list (rows a.name_to_status))
  ]

-- serverStatusHandler, without the uptime text
unfoldable pub server_status_handler : Request → M App (Option Error)
unfolding status_page cluster_active encode respond
server_status_handler r =
    if same r.method (codes "GET") then status_page r else say method_not_allowed

-- The select of streamHandler: `picks` says which channel is read when both have messages; it goes on
-- until both are empty for a second.
unfoldable pub drain : List Bool → List Message → List Message → List Message
drain [] shared own = shared ++ own
drain (b ∷ picks) [] own = own
drain (b ∷ picks) (m ∷ shared) [] = m ∷ shared
drain (true ∷ picks) (m ∷ shared) (n ∷ own) = m ∷ drain picks shared (n ∷ own)
drain (false ∷ picks) (m ∷ shared) (n ∷ own) = n ∷ drain picks (m ∷ shared) own

-- Both channels, emptied.
unfoldable pub take_streams : List Bool → Text → M Cluster (List Message)
unfolding stream insert drain
take_streams picks id = do
  own ← stream id
  c ← get
  modify (λ c. record c {
    shared = record (c.shared) { stream = [] };
    id_to_stream = insert id [] c.id_to_stream;
  })
  pure (drain picks c.shared.stream own)

unfoldable pub stream_page : List Bool → Text → Request → M App (Option Error)
stream_page picks id r = do
  lock
  on_cluster (stream id)
  unlock
  streams ← on_cluster (take_streams picks id)
  elim streams [ [] ↦ pure none | m ∷ ms ↦ encode r (stream_logs (m ∷ ms) (length (m ∷ ms))) ]

-- streamHandler
unfoldable pub stream_handler : List Bool → Text → Request → M App (Option Error)
unfolding when_active stream_page lock unlock encode respond
stream_handler picks id r =
    if same r.method (codes "GET")
    then when_active (stream_page picks id r)
    else say method_not_allowed
