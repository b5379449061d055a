-- ===== src/Proc/Cluster/Halt.antt =====
-- Shutdown (proc/proc_cluster.go) on a cluster whose nodes can all be terminated.
use etcd_play.Base.{
  ◌+◌, ◌<◌, ◌≤◌, ◌≡◌, ◌≢◌, ◌⊎◌, refl, ap, ◌∙◌, false, List, [], ◌∷◌, Option, none, some, length,
  length-append, All, Apart, arith,
}
use etcd_play.Base.Text.{Text}
use etcd_play.Base.Map.{keys, lookup-insert_self}
use etcd_play.Base.Outcome.{done, M, ◌>>◌, pure, Returns, Keeps, >>=-Keeps, continue, regroup}
use etcd_play.Proc.Error.{Error}
use etcd_play.Proc.Message.{terminate_node, clean_node}
use etcd_play.Proc.Node.Local
use etcd_play.Proc.Node.Remote
use etcd_play.Proc.Node.Local.{World, stream_cap}
use etcd_play.Proc.Node.Remote.{NodeWebRemoteClient}
use etcd_play.Proc.Cluster.{
  Cluster, Node, local, remote, Outside, node_terminate, node_clean, put_world, put_remote,
}
use etcd_play.Proc.Cluster.Control.{shutdown_all, shutdown, each, found_one}
use etcd_play.Proc.Cluster.Lookup.{Holds, node_terminate-Keeps, node_clean-Keeps}
use etcd_play.Proc.Cluster.Revive.{runs}
use etcd_play.Proc.Cluster.Idle.{Rested}
use etcd_play.Proc.Cluster.Rounds.{
  returned, HasIn, Succeeds, Part, each-Keeps, room_for-two, loop-runs,
}

-- A node that is down, or that may be terminated and whose process or agent obeys.
abbrev pub Stoppable : Outside → Text → Node → Type 0
Stoppable o name (local nd) =
    (nd.active ≡ false)
    ⊎ (Rested (o.of_local name).now nd.limit_interval nd.last_terminated nd.last_restarted
        × ((o.of_local name).kill nd.pid ≡ none))
Stoppable o name (remote nd) =
    (nd.locked ≡ false)
    × ((nd.active ≡ false)
        ⊎ (Rested (o.of_remote name).now nd.limit_interval nd.last_terminated nd.last_restarted
            × ((o.of_remote name).agent_stop ≡ none)))

abbrev pub IsDown : Text → Node → Type 0
IsDown name nd = runs nd ≡ false

abbrev Quiet : World → Option Error → World → Type 0
Quiet w e w' =
    (w'.node.active ≡ false)
    × (w'.shared.locked ≡ false)
    × (length w'.shared.stream ≤ length w.shared.stream + 1)

local_terminate-stops :
    (o : Local.Outside) (w : World)
    → w.shared.locked ≡ false
    → length w.shared.stream < stream_cap
    → (w.node.active ≡ false)
      ⊎ (Rested o.now w.node.limit_interval w.node.last_terminated w.node.last_restarted
          × (o.kill w.node.pid ≡ none))
    → Returns (Local.terminate o w) (Quiet w)
unfolding Local.terminate
local_terminate-stops o w free room h =
    ground (arith, length-append w.shared.stream (terminate_node w.node.flags.name w.node.pid ∷ []))

local_clean-stops :
    (o : Local.Outside) (w : World)
    → w.shared.locked ≡ false
    → length w.shared.stream < stream_cap
    → w.node.active ≡ false
    → Returns (Local.clean o w) (Quiet w)
unfolding Local.clean
local_clean-stops o w free room down =
    ground (
      arith,
      length-append w.shared.stream (clean_node w.node.flags.name w.node.flags.data_dir ∷ []),
    )

remote_terminate-stops :
    (o : Remote.Outside) (nd : NodeWebRemoteClient)
    → nd.locked ≡ false
    → (nd.active ≡ false)
      ⊎ (Rested o.now nd.limit_interval nd.last_terminated nd.last_restarted
          × (o.agent_stop ≡ none))
    → Returns (Remote.terminate o nd) (λ e nd'. (nd'.active ≡ false) × (nd'.locked ≡ false))
unfolding Remote.terminate
remote_terminate-stops o nd free h = ground arith

-- Terminate and Clean of one node.
abbrev stop : Outside → Text → M Cluster (Unit {0})
stop o name = do each (node_terminate o) name; each (node_clean o) name; pure tt

-- A call for one node returns, with an error or none, writes a line at most, and the node is down.
abbrev Ends : M Cluster (Option Error) → Text → Cluster → Type 0
Ends one name c =
    (e : Option Error) × (c' : Cluster) × (one c ≡ done e c')
    × (c'.shared.locked ≡ false)
    × (length c'.shared.stream ≤ length c.shared.stream + 1)
    × HasIn IsDown c' name

each-Ends :
    (method : Text → Node → M Cluster (Option Error)) (name : Text) (nd : Node) (c : Cluster)
    → Holds name (some nd) c
    → Ends (method name nd) name c
    → Ends (each method name) name c
each-Ends method name nd c holds (e, c', ran, free, grown, has) =
    (e, c', ap (λ v. found_one method name v c) holds ∙ ran, free, grown, has)

module _ (o : Outside) (name : Text) where
  node_terminate-Ends :
      (nd : Node) (c : Cluster)
      → c.shared.locked ≡ false
      → length c.shared.stream < stream_cap
      → Stoppable o name nd
      → Ends (node_terminate o name nd) name c
  unfolding node_terminate
  node_terminate-Ends (local nd) c free room h =
      let w : World = record { node = nd; shared = c.shared } in
      let (e, w', ran, (down, free', grown)) =
        returned (Local.terminate (o.of_local name) w)
          (local_terminate-stops (o.of_local name) w free room h) in
      (
        e,
        put_world name w' c,
        rw ran refl,
        free',
        grown,
        (local w'.node, lookup-insert_self name _ _, down),
      )
  node_terminate-Ends (remote nd) c free room (own, h) =
      let (e, nd', ran, (down, own')) =
        returned (Remote.terminate (o.of_remote name) nd)
          (remote_terminate-stops (o.of_remote name) nd own h) in
      (
        e,
        put_remote name nd' c,
        rw ran refl,
        free,
        omega arith,
        (remote nd', lookup-insert_self name _ _, down),
      )

  node_clean-Ends :
      (nd : Node) (c : Cluster)
      → c.shared.locked ≡ false
      → length c.shared.stream < stream_cap
      → IsDown name nd
      → Ends (node_clean o name nd) name c
  unfolding node_clean
  node_clean-Ends (local nd) c free room down =
      let w : World = record { node = nd; shared = c.shared } in
      let (e, w', ran, (down', free', grown)) =
        returned (Local.clean (o.of_local name) w)
          (local_clean-stops (o.of_local name) w free room down) in
      (
        e,
        put_world name w' c,
        rw ran refl,
        free',
        grown,
        (local w'.node, lookup-insert_self name _ _, down'),
      )
  node_clean-Ends (remote nd) c free room down = (
    (o.of_remote name).agent_cleanup,
    put_remote name nd c,
    (unfold Remote.clean in refl),
    free,
    omega arith,
    (remote nd, lookup-insert_self name _ _, down),
  )

  stop-Succeeds :
      (c : Cluster) → Part (Stoppable o) name c 2 → Succeeds IsDown 2 (stop o name) tt name c
  stop-Succeeds c (free, room, (nd, holds, ready)) =
      let (e, c', ran, free', grown, (nd', holds', down)) =
        each-Ends (node_terminate o) name nd c holds
          (node_terminate-Ends nd c free (omega (arith, room)) ready) in
      let (e', c'', ran', free'', grown', has) =
        each-Ends (node_clean o) name nd' c' holds'
          (node_clean-Ends nd' c' free' (omega (arith, room, grown)) down) in
      let last : Option Error → M Cluster (Unit {0}) = λ x. pure tt in
      (
        c'',
        ap (λ r. continue r (λ x d. continue (each (node_clean o) name d) last)) ran
            ∙ ap (λ r. continue r last) ran',
        free'',
        omega (arith, grown, grown'),
        has,
      )

  stop-Keeps : (j : Text) (v : Option Node) → name ≢ j → Keeps (Holds j v) (stop o name)
  stop-Keeps j v other =
      >>=-Keeps (Holds j v) (each (node_terminate o) name) _
        (each-Keeps (node_terminate o) name j v (node_terminate-Keeps o name j v other))
        (λ e.
          >>=-Keeps (Holds j v) (each (node_clean o) name) _
            (each-Keeps (node_clean o) name j v (node_clean-Keeps o name j v other)) (λ e' c h. h))

shutdown_all-cons :
    (o : Outside) (name : Text) (names : List Text) (c c' : Cluster)
    → stop o name c ≡ done tt c'
    → shutdown_all o (name ∷ names) c ≡ shutdown_all o names c'
unfolding shutdown_all
shutdown_all-cons o name names c c' one =
    regroup (each (node_terminate o) name c) (each (node_clean o) name) (shutdown_all o names)
    ∙ ap (λ r. continue r (λ u. shutdown_all o names)) one

-- When the mutexes of the cluster and of its remote nodes are free, the nodes have different names,
-- each node is down already or has been neither terminated nor restarted for the limit interval and
-- its process or agent obeys, and the shared stream has room for two lines from each node, Shutdown
-- returns without an error and every node is down.
pub shutdown-stops :
    (o : Outside) (c : Cluster)
    → c.shared.locked ≡ false
    → Apart (keys c.name_to_node)
    → length c.shared.stream + (length (keys c.name_to_node) + length (keys c.name_to_node))
      ≤ stream_cap
    → All (HasIn (Stoppable o) c) (keys c.name_to_node)
    → Returns (shutdown o c) (λ e c'. (e ≡ none) × All (HasIn IsDown c') (keys c.name_to_node))
unfolding shutdown
shutdown-stops o c free apart room h =
    let names : List Text = keys c.name_to_node in
    let (c', ran, down, _) =
      loop-runs (Stoppable o) IsDown 2 (stop o) tt (shutdown_all o)
        (λ name j v other. stop-Keeps o name j v other) (stop-Succeeds o)
        (λ c. unfold shutdown_all in refl) (shutdown_all-cons o) names c apart free
        (omega (arith, room, room_for-two names)) h in
    let last : Unit {0} → M Cluster (Option Error) = λ u. pure none in
    let run : shutdown o c ≡ done none c' = ap (λ r. continue r last) ran in rw run (refl, down)
