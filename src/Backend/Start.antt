-- ===== src/Backend/Start.antt =====
-- backend/backend.go: the check of CommandFunc, and startCluster in two parts, up to the message on
-- `done` and from the end of the select. What runs in between is Bootstrap (Proc/Cluster/Control).
pub mod Generated
pub mod Kept
pub mod Total
pub mod Named
pub mod Turns
pub mod Booted
use etcd_play.Base.{
  ℕ, zero, suc, ◌+◌, Bool, true, false, ◌&&◌, List, [], ◌∷◌, ◌++◌, Option, none, some, ltb, ◌==◌,
  length, get_elem?, if◌then◌else◌,
}
use etcd_play.Base.Text.{Text, codes, split, first_piece, trim_space}
use etcd_play.Base.Decimal.{decimal}
use etcd_play.Base.Time.{ℤ, pos, negsuc}
use etcd_play.Base.Outcome.{Outcome, done, blocked, panicked, M, ◌>>=◌, ◌>>◌, pure, get, modify}
use etcd_play.Proc.Error.{Error, Result, ok, err}
use etcd_play.Proc.Message.{
  Message, starting_nodes, cluster_error, unexpected_interruption, cluster_time_out,
}
use etcd_play.Proc.Flags.{Flags, generate_flags}
use etcd_play.Proc.Cluster.{send_stream}
use etcd_play.Proc.Cluster
use etcd_play.Proc.Cluster.Control.{bootstrap, shutdown}
use etcd_play.Proc.Cluster.Create.{
  NodeType, web_local, web_remote, is_remote, new_cluster, with_limit_interval,
  with_agent_endpoints, with_live_log, OpOption,
}
use etcd_play.Backend.State.{App, GlobalFlags, lock, unlock, cluster_active, on_cluster}

abbrev pub same_size : ℤ → ℕ → Bool
same_size (pos n) m = n == m
same_size (negsuc n) m = false

-- CommandFunc's check: a remote cluster has an agent endpoint for each node.
unfoldable pub sizes_agree : GlobalFlags → Bool
sizes_agree g = if g.is_remote then same_size g.cluster_size (length g.agent_endpoints) else true

abbrev pub node_type : GlobalFlags → NodeType
node_type g = if g.is_remote then web_remote else web_local

-- The host of the i-th node; `none` is an index past the agent endpoints.
unfoldable pub host_of : NodeType → List Text → ℕ → Option Text
unfolding split trim_space
host_of t eps i =
    if ltb 1 (length eps) && is_remote t
    then elim (get_elem? eps i) [
      | none ↦ none
      | some ep ↦ some (trim_space (first_piece (split ep (codes ":"))))
    ]
    else some (codes "localhost")

abbrev pub node_name : ℕ → Text
node_name i = codes "etcd" ++ decimal (i + 1)

-- The loop over `fs`: `n` nodes from the i-th on, with the global port prefix passed along.
unfoldable pub cluster_flags : NodeType → List Text → ℕ → ℕ → ℕ → Option (List Flags × ℕ)
unfolding host_of generate_flags
cluster_flags t eps zero i prefix = some ([], prefix)
cluster_flags t eps (suc n) i prefix = elim (host_of t eps i) [
  | none ↦ none
  | some host ↦
      let (f, prefix') = generate_flags (node_name i) host (is_remote t) prefix in
      let later = cluster_flags t eps n (i + 1) prefix' in
      elim later [ none ↦ none | some (fs, last) ↦ some (f ∷ fs, last) ]
]

-- `fs`, whose `make` panics for a negative size.
abbrev pub make_flags : NodeType → List Text → ℤ → ℕ → Option (List Flags × ℕ)
make_flags t eps (pos n) prefix = cluster_flags t eps n 0 prefix
make_flags t eps (negsuc n) prefix = none

abbrev pub options : GlobalFlags → List OpOption
options g =
    with_limit_interval g.limit_interval
    ∷ with_agent_endpoints g.agent_endpoints
    ∷ (if g.live_log then with_live_log ∷ [] else [])

-- startCluster up to `done` (`none`) or `errc`. The cluster that another request has started in the
-- meantime is kept.
unfoldable pub start_cluster : (Text → Result Text) → Text → M App (Option Error)
unfolding cluster_flags new_cluster cluster_active lock unlock
start_cluster new_agent token = do
  a ← get
  let g = a.flags
  elim (make_flags (node_type g) g.agent_endpoints g.cluster_size a.port_prefix) [
    | none ↦ panicked
    | some (fs, prefix) ↦ do
      modify (λ a. record a { port_prefix = prefix })
      elim (new_cluster new_agent token (node_type g) g.etcd_binary fs (options g)) [
        | err e ↦ pure (some e)
        | ok c ↦ do
          active ← cluster_active
          if active
              then pure none
              else do lock; modify (λ a. record a { cluster = c }); unlock; pure none
      ]
  ]

-- The goroutine that startCluster leaves behind: the first message to the user's stream, and
-- Bootstrap, which waits for a signal when every node has started. Its cluster is that of globalCache,
-- where no other start has replaced it.
unfoldable pub boot_cluster : Cluster.Outside → Cluster.Outside → Text → Bool → M App (Option Error)
unfolding on_cluster send_stream bootstrap
boot_cluster o o' id signalled = do
  a ← get
  on_cluster (send_stream id (starting_nodes a.flags.cluster_size))
  on_cluster (bootstrap o o' signalled)

-- How the select of startCluster ends.
pub data Ending : Type 0 where
  bootstrap_failed : Error → Ending
  bootstrap_done : Ending
  timed_out : Ending

-- The message of the select; a timeout says nothing when the cluster is kept alive.
unfoldable pub ending_message : GlobalFlags → Ending → Option Message
ending_message g (bootstrap_failed e) = some (cluster_error e)
ending_message g bootstrap_done = some unexpected_interruption
ending_message g timed_out =
    if g.keep_alive then none else some (cluster_time_out g.cluster_timeout)

-- The rest of startCluster: the message to the user's stream, and the deferred shutdown. Its cluster is
-- that of globalCache, where no other start has replaced it.
unfoldable pub finish_cluster : Cluster.Outside → Text → Ending → M App (Unit {0})
unfolding ending_message on_cluster send_stream shutdown lock unlock
finish_cluster o id ending = do
  a ← get
  elim (ending_message a.flags ending) [ none ↦ pure tt | some m ↦ on_cluster (send_stream id m) ]
  if a.flags.keep_alive
      then pure tt
      else do on_cluster (shutdown o); lock; modify (λ a. record a { cluster = none }); unlock
