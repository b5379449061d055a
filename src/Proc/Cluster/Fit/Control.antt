-- ===== src/Proc/Cluster/Fit/Control.antt =====
-- The life-cycle methods of the cluster (proc/proc_cluster.go) keep it fit.
use etcd_play.Base.{refl, Bool, true, false, List, [], ◌∷◌, Option, none, some, if◌then◌else◌}
use etcd_play.Base.Text.{Text}
use etcd_play.Base.Map.{lookup, keys}
use etcd_play.Base.Outcome.{M, ◌>>=◌, pure, state_of}
use etcd_play.Base.Outcome.Preserves.{
  Preserves, Preserves-pure, Preserves-get, Preserves-bind, Preserves-Bool, Preserves-if,
  Preserves-Option, Preserves-List,
}
use etcd_play.Proc.Error.{Error}
use etcd_play.Proc.Cluster.{
  Cluster, Node, Outside, node_of, node_start, node_restart, node_terminate, node_clean,
  node_is_active,
}
use etcd_play.Proc.Cluster.Control.{
  dispatch, by_name, found_one, each, start, restart, terminate, clean, any_active, restart_all,
  revive, start_all, shutdown_all, shutdown, bootstrap,
}
use etcd_play.Proc.Cluster.Fit.{
  NodeFits, IsFit, FoundFits, found-FoundFits, node_start-Preserves, node_restart-Preserves,
  node_terminate-Preserves, node_clean-Preserves, node_is_active-Preserves,
}

-- A method of the nodes that keeps the cluster fit.
module _ (method : Text → Node → M Cluster (Option Error))
    (keeps : (name : Text) (nd : Node) → NodeFits nd → Preserves IsFit (method name nd)) where
  found_one-IsFit :
      (name : Text) (v : Option Node) (c : Cluster)
      → FoundFits v
      → IsFit c
      → IsFit (state_of (found_one method name v c))
  found_one-IsFit name none c h f = f
  found_one-IsFit name (some nd) c h f = (keeps name nd h).kept c f

  each-Preserves : (name : Text) → Preserves IsFit (each method name)
  each-Preserves name = record {
    kept = λ c f. found_one-IsFit name (lookup name c.name_to_node) c (found-FoundFits name c f) f;
  }

  dispatch-IsFit :
      (name : Text) (v : Option Node) (c : Cluster)
      → FoundFits v
      → IsFit c
      → IsFit (state_of (dispatch method name v c))
  dispatch-IsFit name none c h f = f
  dispatch-IsFit name (some nd) c h f = (keeps name nd h).kept c f

  by_name-Preserves : (name : Text) → Preserves IsFit (by_name method name)
  unfolding node_of
  by_name-Preserves name = record {
    kept = λ c f. rw f.free (
        dispatch-IsFit name (lookup name c.name_to_node) _ (found-FoundFits name c f)
          (record { free = refl; nodes = f.nodes }));
  }

pub start-Preserves : (o : Outside) (name : Text) → Preserves IsFit (start o name)
unfolding start
start-Preserves o name = by_name-Preserves (node_start o) (node_start-Preserves o) name

pub restart-Preserves : (o : Outside) (name : Text) → Preserves IsFit (restart o name)
unfolding restart
restart-Preserves o name = by_name-Preserves (node_restart o) (node_restart-Preserves o) name

pub terminate-Preserves : (o : Outside) (name : Text) → Preserves IsFit (terminate o name)
unfolding terminate
terminate-Preserves o name = by_name-Preserves (node_terminate o) (node_terminate-Preserves o) name

pub clean-Preserves : (o : Outside) (name : Text) → Preserves IsFit (clean o name)
unfolding clean
clean-Preserves o name = by_name-Preserves (node_clean o) (node_clean-Preserves o) name

abbrev ask : Text → Option Node → M Cluster Bool
ask name none = pure false
ask name (some nd) = node_is_active name nd

ask-Preserves :
    (name : Text) (v : Option Node) (rest : M Cluster Bool)
    → FoundFits v
    → Preserves IsFit rest
    → Preserves IsFit (do active ← ask name v; if active then pure true else rest)
ask-Preserves name none rest h k =
    Preserves-bind (Preserves-pure false) (λ b. Preserves-if b (Preserves-pure true) k)
ask-Preserves name (some nd) rest h k =
    Preserves-bind (node_is_active-Preserves name nd h)
      (λ b. Preserves-if b (Preserves-pure true) k)

any_active-Preserves : (names : List Text) → Preserves IsFit (any_active names)
unfolding any_active
any_active-Preserves [] = Preserves-pure false
any_active-Preserves (name ∷ names) = record {
  kept = λ c f.
      (ask-Preserves name (lookup name c.name_to_node) (any_active names) (found-FoundFits name c f)
          (any_active-Preserves names)).kept
        c f;
}

restart_all-Preserves : (o : Outside) (names : List Text) → Preserves IsFit (restart_all o names)
unfolding restart_all
restart_all-Preserves o [] = Preserves-pure none
restart_all-Preserves o (name ∷ names) =
    Preserves-bind (each-Preserves (node_restart o) (node_restart-Preserves o) name)
      (λ e. Preserves-Option e (restart_all-Preserves o names) (λ x. Preserves-pure (some x)))

pub revive-Preserves : (o : Outside) → Preserves IsFit (revive o)
unfolding revive
revive-Preserves o = Preserves-bind Preserves-get (λ c.
    Preserves-bind (any_active-Preserves (keys c.name_to_node)) (λ active.
      Preserves-if active (Preserves-pure none) (restart_all-Preserves o (keys c.name_to_node))))

shutdown_all-Preserves : (o : Outside) (names : List Text) → Preserves IsFit (shutdown_all o names)
unfolding shutdown_all
shutdown_all-Preserves o [] = Preserves-pure tt
shutdown_all-Preserves o (name ∷ names) =
    Preserves-bind (each-Preserves (node_terminate o) (node_terminate-Preserves o) name) (λ e.
      Preserves-bind (each-Preserves (node_clean o) (node_clean-Preserves o) name)
        (λ e'. shutdown_all-Preserves o names))

pub shutdown-Preserves : (o : Outside) → Preserves IsFit (shutdown o)
unfolding shutdown
shutdown-Preserves o = Preserves-bind Preserves-get (λ c.
    Preserves-bind (shutdown_all-Preserves o (keys c.name_to_node)) (λ e. Preserves-pure none))

start_all-Preserves : (o : Outside) (names : List Text) → Preserves IsFit (start_all o names)
unfolding start_all
start_all-Preserves o [] = Preserves-pure none
start_all-Preserves o (name ∷ names) =
    Preserves-bind (each-Preserves (node_start o) (node_start-Preserves o) name)
      (λ e. Preserves-Option e (start_all-Preserves o names) (λ x. Preserves-pure _))

-- The Start of one node.
pub start_each-Preserves : (o : Outside) (name : Text) → Preserves IsFit (each (node_start o) name)
start_each-Preserves o name = each-Preserves (node_start o) (node_start-Preserves o) name

pub bootstrap-Preserves :
    (o o' : Outside) (signalled : Bool) → Preserves IsFit (bootstrap o o' signalled)
unfolding bootstrap
bootstrap-Preserves o o' signalled = Preserves-bind Preserves-get (λ c.
    Preserves-List c.name_to_node (Preserves-pure none) (λ kv m.
      Preserves-bind (start_all-Preserves o (keys (kv ∷ m))) (λ e.
        Preserves-Option e
          (Preserves-Bool signalled (shutdown-Preserves o') (record { kept = λ s f. f }))
          (λ x. Preserves-pure (some x)))))
