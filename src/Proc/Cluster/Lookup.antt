-- ===== src/Proc/Cluster/Lookup.antt =====
-- The methods of the cluster (proc/proc_cluster.go) on a name: an unknown one, and the other nodes.
use etcd_play.Base.{◌≡◌, ◌≢◌, refl, ◌∙◌, Option, none, some, arith}
use etcd_play.Base.Text.{Text}
use etcd_play.Base.Map.{lookup, lookup-insert_ne}
use etcd_play.Base.Outcome.{Outcome, done, blocked, panicked, M, state_of, Keeps, >>=-Keeps}
use etcd_play.Proc.Error.{Error}
use etcd_play.Proc.Node.Local.{World}
use etcd_play.Proc.Node.Remote.{NodeWebRemoteClient}
use etcd_play.Proc.Cluster.{
  Cluster, Node, local, remote, Outside, node_of, after_local, after_remote, node_start,
  node_restart, node_terminate, node_clean,
}
use etcd_play.Proc.Cluster.Control.{by_name, dispatch, start, restart, terminate, clean}

-- What stands under a name.
abbrev pub Holds : Text → Option Node → Cluster → Type 0
Holds j v c = lookup j c.name_to_node ≡ v

after_local-Holds :
    {A : Type 0} (name j : Text) (v : Option Node) (c : Cluster) (r : Outcome World A)
    → name ≢ j
    → Holds j v c
    → Holds j v (state_of (after_local name c r))
after_local-Holds name j v c (done a w) h e = lookup-insert_ne name j (local w.node) _ h ∙ e
after_local-Holds name j v c (blocked w) h e = lookup-insert_ne name j (local w.node) _ h ∙ e
after_local-Holds name j v c (panicked w) h e = lookup-insert_ne name j (local w.node) _ h ∙ e

after_remote-Holds :
    {A : Type 0} (name j : Text) (v : Option Node) (c : Cluster) (r : Outcome NodeWebRemoteClient A)
    → name ≢ j
    → Holds j v c
    → Holds j v (state_of (after_remote name c r))
after_remote-Holds name j v c (done a nd) h e = lookup-insert_ne name j (remote nd) _ h ∙ e
after_remote-Holds name j v c (blocked nd) h e = lookup-insert_ne name j (remote nd) _ h ∙ e
after_remote-Holds name j v c (panicked nd) h e = lookup-insert_ne name j (remote nd) _ h ∙ e

module _ (o : Outside) (name j : Text) (v : Option Node) (other : name ≢ j) where
  pub node_start-Keeps : (nd : Node) → Keeps (Holds j v) (node_start o name nd)
  unfolding node_start
  node_start-Keeps (local nd) c e = after_local-Holds name j v c _ other e
  node_start-Keeps (remote nd) c e = after_remote-Holds name j v c _ other e

  pub node_restart-Keeps : (nd : Node) → Keeps (Holds j v) (node_restart o name nd)
  unfolding node_restart
  node_restart-Keeps (local nd) c e = after_local-Holds name j v c _ other e
  node_restart-Keeps (remote nd) c e = after_remote-Holds name j v c _ other e

  pub node_terminate-Keeps : (nd : Node) → Keeps (Holds j v) (node_terminate o name nd)
  unfolding node_terminate
  node_terminate-Keeps (local nd) c e = after_local-Holds name j v c _ other e
  node_terminate-Keeps (remote nd) c e = after_remote-Holds name j v c _ other e

  pub node_clean-Keeps : (nd : Node) → Keeps (Holds j v) (node_clean o name nd)
  unfolding node_clean
  node_clean-Keeps (local nd) c e = after_local-Holds name j v c _ other e
  node_clean-Keeps (remote nd) c e = after_remote-Holds name j v c _ other e

  node_of-Keeps : Keeps (Holds j v) (node_of name)
  unfolding node_of
  node_of-Keeps c e = ground arith

  dispatch-Keeps :
      (method : Text → Node → M Cluster (Option Error))
      → ((nd : Node) → Keeps (Holds j v) (method name nd))
      → (found : Option Node) → Keeps (Holds j v) (dispatch method name found)
  dispatch-Keeps method k none c e = e
  dispatch-Keeps method k (some nd) c e = k nd c e

  by_name-Keeps :
      (method : Text → Node → M Cluster (Option Error))
      → ((nd : Node) → Keeps (Holds j v) (method name nd))
      → Keeps (Holds j v) (by_name method name)
  by_name-Keeps method k =
      >>=-Keeps (Holds j v) (node_of name) (dispatch method name) node_of-Keeps
        (dispatch-Keeps method k)

-- Start, Restart, Terminate and Clean of one node leave the node of every other name as it was,
-- however they end.
pub other_nodes_untouched :
    (o : Outside) (name j : Text) (c : Cluster)
    → name ≢ j
    → let before : Option Node = lookup j c.name_to_node in
      Holds j before (state_of (start o name c))
      × Holds j before (state_of (restart o name c))
      × Holds j before (state_of (terminate o name c))
      × Holds j before (state_of (clean o name c))
unfolding start restart terminate clean
other_nodes_untouched o name j c h =
    let v : Option Node = lookup j c.name_to_node in
    (
      by_name-Keeps o name j v h (node_start o) (node_start-Keeps o name j v h) c refl,
      by_name-Keeps o name j v h (node_restart o) (node_restart-Keeps o name j v h) c refl,
      by_name-Keeps o name j v h (node_terminate o) (node_terminate-Keeps o name j v h) c refl,
      by_name-Keeps o name j v h (node_clean o) (node_clean-Keeps o name j v h) c refl,
    )
