-- ===== src/Proc/Cluster/Boot.antt =====
-- Bootstrap (proc/proc_cluster.go) on a cluster whose nodes can all be started.
use etcd_play.Base.{
  suc, ◌+◌, ◌<◌, ◌≤◌, ◌≡◌, ◌≢◌, refl, ap, true, false, List, [], ◌∷◌, Option, none, some, length,
  length-append, All, Apart, arith,
}
use etcd_play.Base.Text.{Text}
use etcd_play.Base.Map.{keys, lookup-insert_self}
use etcd_play.Base.Outcome.{done, blocked, M, pure, Returns, continue}
use etcd_play.Proc.Error.{Error, ok, named}
use etcd_play.Proc.Flags.{is_valid}
use etcd_play.Proc.Message.{start_node}
use etcd_play.Proc.Node.Local
use etcd_play.Proc.Node.Remote
use etcd_play.Proc.Node.Local.{NodeWebLocal, World, stream_cap}
use etcd_play.Proc.Node.Remote.{NodeWebRemoteClient}
use etcd_play.Proc.Node.Refines.{Ready, launch, ask_agent, string-ok}
use etcd_play.Proc.Cluster.{
  Cluster, Node, local, remote, Outside, node_start, put_world, put_remote,
}
use etcd_play.Proc.Cluster.Control.{start_all, bootstrap, shutdown, each}
use etcd_play.Proc.Cluster.Lookup.{node_start-Keeps}
use etcd_play.Proc.Cluster.Rounds.{
  returned, HasIn, IsUp, Succeeds, each-Succeeds, each-Keeps, room_for-one, loop-runs,
}

-- A node that is down, and whose process or agent starts.
abbrev pub Startable : Outside → Text → Node → Type 0
Startable o name (local nd) =
    (nd.active ≡ false) × (is_valid nd.flags ≡ ok tt) × (launch (o.of_local name) nd ≡ none)
Startable o name (remote nd) =
    (nd.active ≡ false) × (nd.locked ≡ false) × (ask_agent (o.of_remote name) nd ≡ none)

local_start-runs :
    (o : Local.Outside) (w : World)
    → Ready w
    → w.node.active ≡ false
    → launch o w.node ≡ none
    → Returns (Local.start o w) (λ e w'.
      (e ≡ none)
      × (w'.node.active ≡ true)
      × (w'.shared.locked ≡ false)
      × (length w'.shared.stream ≤ suc (length w.shared.stream)))
unfolding Local.start
local_start-runs o w h down works =
    let (s, e) = string-ok w.node.flags h.valid in
    ground (arith, e, works, length-append w.shared.stream (start_node w.node.flags.name ∷ []))

remote_start-runs :
    (o : Remote.Outside) (nd : NodeWebRemoteClient)
    → nd.locked ≡ false
    → nd.active ≡ false
    → ask_agent o nd ≡ none
    → Returns (Remote.start o nd) (λ e nd'. (e ≡ none) × (nd'.active ≡ true))
unfolding Remote.start
remote_start-runs o nd free down works = ground (arith, works)

node_start-runs :
    (o : Outside) (name : Text) (nd : Node) (c : Cluster)
    → c.shared.locked ≡ false
    → length c.shared.stream < stream_cap
    → Startable o name nd
    → Succeeds IsUp 1 (node_start o name nd) none name c
unfolding node_start
node_start-runs o name (local nd) c free room (down, valid, works) =
    let w : World = record { node = nd; shared = c.shared } in
    let (e, w', ran, (none_left, up, free', grown)) = returned (Local.start (o.of_local name) w) (
      local_start-runs (o.of_local name) w (record { free = free; room = room; valid = valid }) down
        works) in
    (
      put_world name w' c,
      rw (ran, none_left) refl,
      free',
      omega (arith, grown),
      (local w'.node, lookup-insert_self name _ _, up),
    )
node_start-runs o name (remote nd) c free room (down, own, works) =
    let (e, nd', ran, (none_left, up)) =
      returned (Remote.start (o.of_remote name) nd)
        (remote_start-runs (o.of_remote name) nd own down works) in
    (
      put_remote name nd' c,
      rw (ran, none_left) refl,
      free,
      omega arith,
      (remote nd', lookup-insert_self name _ _, up),
    )

start_all-cons :
    (o : Outside) (name : Text) (names : List Text) (c c' : Cluster)
    → each (node_start o) name c ≡ done none c'
    → start_all o (name ∷ names) c ≡ start_all o names c'
unfolding start_all
start_all-cons o name names c c' one = ap (λ r. continue r next) one
  where
    next : Option Error → M Cluster (Option Error)
    next e = elim e [ some x ↦ pure (some (named name x)) | none ↦ start_all o names ]

start_all-runs :
    (o : Outside) (names : List Text) (c : Cluster)
    → Apart names
    → c.shared.locked ≡ false
    → length c.shared.stream + length names ≤ stream_cap
    → All (HasIn (Startable o) c) names
    → (c' : Cluster) × (start_all o names c ≡ done none c') × All (HasIn IsUp c') names
start_all-runs o names c apart free room h =
    let (c', ran, up, _) =
      loop-runs (Startable o) IsUp 1 (λ name. each (node_start o) name) none (start_all o)
        (λ name j v other. each-Keeps (node_start o) name j v (node_start-Keeps o name j v other))
        (λ name c (free, room, (nd, holds, ready)).
          each-Succeeds IsUp 1 (node_start o) name nd c holds
            (node_start-runs o name nd c free (omega (arith, room)) ready))
        (λ c. unfold start_all in refl) (start_all-cons o) names c apart free
        (omega (arith, room, room_for-one names)) h in
    (c', ran, up)

-- When the mutex of a cluster is free, its nodes have different names, every node is down with valid
-- flags, a remote one with its mutex free, and its process or agent starts, and the shared stream has
-- room for a line from each node, Bootstrap of at least one node starts every node and then waits for
-- the signal; when the signal comes, it does what Shutdown does to the running nodes.
pub bootstrap-runs :
    (o o' : Outside) (c : Cluster)
    → c.name_to_node ≢ []
    → c.shared.locked ≡ false
    → Apart (keys c.name_to_node)
    → length c.shared.stream + length (keys c.name_to_node) ≤ stream_cap
    → All (HasIn (Startable o) c) (keys c.name_to_node)
    → (c' : Cluster) × All (HasIn IsUp c') (keys c.name_to_node)
      × (bootstrap o o' false c ≡ blocked c')
      × (bootstrap o o' true c ≡ shutdown o' c')
unfolding bootstrap
bootstrap-runs o o' c some_node free apart room h =
    let (c', ran, up) = start_all-runs o (keys c.name_to_node) c apart free room h in
    (c', up, ground (arith, some_node, ran), ground (arith, some_node, ran))
