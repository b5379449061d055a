-- ===== src/Proc/Cluster/Idle.antt =====
-- Revive (proc/proc_cluster.go) on a cluster whose nodes have all been down for the limit interval.
use etcd_play.Base.{
  ℕ, suc, ◌+◌, ◌<◌, ◌≤◌, ◌≡◌, refl, ap, ◌∙◌, true, false, List, [], ◌∷◌, Option, none, some, length,
  length-append, All, Apart, arith,
}
use etcd_play.Base.Text.{Text}
use etcd_play.Base.Time.{ℤ, since, ltb_ℤ}
use etcd_play.Base.Map.{keys, lookup-insert_self}
use etcd_play.Base.Outcome.{done, M, pure, Returns, continue}
use etcd_play.Proc.Error.{Error, ok}
use etcd_play.Proc.Flags.{is_valid}
use etcd_play.Proc.Message.{restart_node}
use etcd_play.Proc.Node.Local
use etcd_play.Proc.Node.Remote
use etcd_play.Proc.Node.{Readings}
use etcd_play.Proc.Node.Local.{NodeWebLocal, World, Shared, stream_cap, existing}
use etcd_play.Proc.Node.Remote.{NodeWebRemoteClient}
use etcd_play.Proc.Node.Refines.{Ready, launch, existing-valid, string-ok}
use etcd_play.Proc.Cluster.{
  Cluster, Node, local, remote, Outside, node_restart, put_world, put_remote,
}
use etcd_play.Proc.Cluster.Control.{restart_all, revive, each}
use etcd_play.Proc.Cluster.Lookup.{node_restart-Keeps}
use etcd_play.Proc.Cluster.Fit.{IsFit}
use etcd_play.Proc.Cluster.Revive.{some_runs, revive-choice}
use etcd_play.Proc.Cluster.Rounds.{
  returned, HasIn, IsUp, Succeeds, each-Succeeds, each-Keeps, room_for-one, loop-runs,
}

-- The limit interval has passed since both times.
abbrev pub Rested : Readings → ℤ → ℕ → ℕ → Type 0
Rested now limit restarted terminated =
    (ltb_ℤ (since now.first restarted) limit ≡ false)
    × (ltb_ℤ (since now.second terminated) limit ≡ false)

-- A node that is down, may be restarted, and whose process or agent does so.
abbrev pub Waits : Outside → Text → Node → Type 0
Waits o name (local nd) =
    (nd.active ≡ false)
    × Rested (o.of_local name).now nd.limit_interval nd.last_restarted nd.last_terminated
    × (is_valid nd.flags ≡ ok tt)
    × (launch (o.of_local name) (existing nd) ≡ none)
Waits o name (remote nd) =
    (nd.active ≡ false)
    × Rested (o.of_remote name).now nd.limit_interval nd.last_restarted nd.last_terminated
    × (nd.locked ≡ false)
    × ((o.of_remote name).agent_restart ≡ none)

local_restart-runs :
    (o : Local.Outside) (w : World)
    → Ready w
    → w.node.active ≡ false
    → Rested o.now w.node.limit_interval w.node.last_restarted w.node.last_terminated
    → launch o (existing w.node) ≡ none
    → Returns (Local.restart o w) (λ e w'.
      (e ≡ none)
      × (w'.node.active ≡ true)
      × (w'.shared.locked ≡ false)
      × (length w'.shared.stream ≤ suc (length w.shared.stream)))
unfolding Local.restart
local_restart-runs o w h down rested works =
    let (s, e) = string-ok (existing w.node).flags (existing-valid w.node h.valid) in
    ground (arith, e, works, length-append w.shared.stream (restart_node w.node.flags.name ∷ []))

remote_restart-runs :
    (o : Remote.Outside) (nd : NodeWebRemoteClient)
    → nd.locked ≡ false
    → nd.active ≡ false
    → Rested o.now nd.limit_interval nd.last_restarted nd.last_terminated
    → o.agent_restart ≡ none
    → Returns (Remote.restart o nd) (λ e nd'. (e ≡ none) × (nd'.active ≡ true))
unfolding Remote.restart
remote_restart-runs o nd free down rested works = ground (arith, works)

node_restart-runs :
    (o : Outside) (name : Text) (nd : Node) (c : Cluster)
    → c.shared.locked ≡ false
    → length c.shared.stream < stream_cap
    → Waits o name nd
    → Succeeds IsUp 1 (node_restart o name nd) none name c
unfolding node_restart
node_restart-runs o name (local nd) c free room (down, rested, valid, works) =
    let w : World = record { node = nd; shared = c.shared } in
    let (e, w', ran, (none_left, up, free', grown)) = returned (Local.restart (o.of_local name) w) (
      local_restart-runs (o.of_local name) w (record { free = free; room = room; valid = valid })
        down rested works) in
    (
      put_world name w' c,
      rw (ran, none_left) refl,
      free',
      omega (arith, grown),
      (local w'.node, lookup-insert_self name _ _, up),
    )
node_restart-runs o name (remote nd) c free room (down, rested, own, works) =
    let (e, nd', ran, (none_left, up)) =
      returned (Remote.restart (o.of_remote name) nd)
        (remote_restart-runs (o.of_remote name) nd own down rested works) in
    (
      put_remote name nd' c,
      rw (ran, none_left) refl,
      free,
      omega arith,
      (remote nd', lookup-insert_self name _ _, up),
    )

restart_all-cons :
    (o : Outside) (name : Text) (names : List Text) (c c' : Cluster)
    → each (node_restart o) name c ≡ done none c'
    → restart_all o (name ∷ names) c ≡ restart_all o names c'
unfolding restart_all
restart_all-cons o name names c c' one = ap (λ r. continue r (next names)) one
  where
    next : List Text → Option Error → M Cluster (Option Error)
    next ns e = elim e [ some x ↦ pure (some x) | none ↦ restart_all o ns ]

none_runs :
    (o : Outside) (c : Cluster) (names : List Text)
    → All (HasIn (Waits o) c) names
    → some_runs c.name_to_node names ≡ false
none_runs o c [] h = refl
none_runs o c (name ∷ names) ((local nd, holds, waits), rest) =
    ground (arith, holds, waits.0, none_runs o c names rest)
none_runs o c (name ∷ names) ((remote nd, holds, waits), rest) =
    ground (arith, holds, waits.0, none_runs o c names rest)

-- When no mutex is held, the nodes have valid flags and different names, every node is down and has
-- been neither restarted nor terminated for the limit interval, every process or agent does start, and
-- the shared stream has room for a line from each node, Revive returns without an error and every node
-- runs.
pub revive-runs :
    (o : Outside) (c : Cluster)
    → IsFit c
    → Apart (keys c.name_to_node)
    → length c.shared.stream + length (keys c.name_to_node) ≤ stream_cap
    → All (HasIn (Waits o) c) (keys c.name_to_node)
    → Returns (revive o c) (λ e c'. (e ≡ none) × All (HasIn IsUp c') (keys c.name_to_node))
revive-runs o c fit apart room h =
    let names : List Text = keys c.name_to_node in
    let (c', ran, up, _) =
      loop-runs (Waits o) IsUp 1 (λ name. each (node_restart o) name) none (restart_all o)
        (λ name j v other.
          each-Keeps (node_restart o) name j v (node_restart-Keeps o name j v other))
        (λ name c (free, room, (nd, holds, ready)).
          each-Succeeds IsUp 1 (node_restart o) name nd c holds
            (node_restart-runs o name nd c free (omega (arith, room)) ready))
        (λ c. unfold restart_all in refl) (restart_all-cons o) names c apart fit.free
        (omega (arith, room, room_for-one names)) h in
    let run : revive o c ≡ done none c' = revive-choice o c fit ∙ rw (none_runs o c names h) ran in
    rw run (refl, up)
