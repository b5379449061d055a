-- ===== src/Proc/Cluster/Control.antt =====
-- proc/proc_cluster.go: starting, restarting, reviving, terminating, cleaning, bootstrapping and
-- shutting down. Goroutines of one method run one after the other, in the order of the node map,
-- which is any order; each method of a node holds its lock only for statements on its own fields.
use etcd_play.Base.{Bool, true, false, List, [], ◌∷◌, Option, none, some, if◌then◌else◌}
use etcd_play.Base.Text.{Text}
use etcd_play.Base.Map.{lookup, keys}
use etcd_play.Base.Outcome.{blocked, M, ◌>>=◌, ◌>>◌, pure, get}
use etcd_play.Proc.Error.{Error, does_not_exist, named}
use etcd_play.Proc.Cluster.{
  Cluster, Node, Outside, node_of, node_start, node_restart, node_terminate, node_clean,
  node_is_active,
}

-- The shape that Start, Restart, Terminate and Clean share.
abbrev pub dispatch :
    (Text → Node → M Cluster (Option Error)) → Text → Option Node → M Cluster (Option Error)
dispatch method name none = pure (some (does_not_exist name))
dispatch method name (some nd) = method name nd

abbrev pub by_name : (Text → Node → M Cluster (Option Error)) → Text → M Cluster (Option Error)
by_name method name = do found ← node_of name; dispatch method name found

unfoldable pub start : Outside → Text → M Cluster (Option Error)
unfolding node_of
start o name = by_name (node_start o) name

unfoldable pub restart : Outside → Text → M Cluster (Option Error)
unfolding node_of
restart o name = by_name (node_restart o) name

unfoldable pub terminate : Outside → Text → M Cluster (Option Error)
unfolding node_of
terminate o name = by_name (node_terminate o) name

unfoldable pub clean : Outside → Text → M Cluster (Option Error)
unfolding node_of
clean o name = by_name (node_clean o) name

-- `for _, nd := range c.nameToNode`, without the cluster's own lock: the node of each name.
abbrev pub found_one :
    (Text → Node → M Cluster (Option Error)) → Text → Option Node → M Cluster (Option Error)
found_one method name none = pure none
found_one method name (some nd) = method name nd

abbrev pub each : (Text → Node → M Cluster (Option Error)) → Text → M Cluster (Option Error)
each method name c = found_one method name (lookup name c.name_to_node) c

unfoldable pub any_active : List Text → M Cluster Bool
any_active [] = pure false
any_active (name ∷ names) = do
  c ← get
  active ← elim (lookup name c.name_to_node) [
    | none ↦ pure false
    | some nd ↦ node_is_active name nd
  ]
  if active then pure true else any_active names

unfoldable pub restart_all : Outside → List Text → M Cluster (Option Error)
restart_all o [] = pure none
restart_all o (name ∷ names) = do
  e ← each (node_restart o) name
  elim e [ some err ↦ pure (some err) | none ↦ restart_all o names ]

-- Revive
unfoldable pub revive : Outside → M Cluster (Option Error)
unfolding any_active restart_all
revive o = do
  c ← get
  active ← any_active (keys c.name_to_node)
  if active then pure none else restart_all o (keys c.name_to_node)

-- The goroutines of Bootstrap, in the order in which they come to their end. Bootstrap returns with the
-- first error; the goroutines that have not ended by then go on without it.
unfoldable pub start_all : Outside → List Text → M Cluster (Option Error)
start_all o [] = pure none
start_all o (name ∷ names) = do
  e ← each (node_start o) name
  elim e [ some err ↦ pure (some (named name err)) | none ↦ start_all o names ]

-- The goroutines of Shutdown: errors are logged, and do not stop Clean.
unfoldable pub shutdown_all : Outside → List Text → M Cluster (Unit {0})
shutdown_all o [] = pure tt
shutdown_all o (name ∷ names) = do
  each (node_terminate o) name
  each (node_clean o) name
  shutdown_all o names

-- Shutdown
unfoldable pub shutdown : Outside → M Cluster (Option Error)
unfolding shutdown_all
shutdown o = do c ← get; shutdown_all o (keys c.name_to_node); pure none

-- Bootstrap waits for a signal once every node has started, then shuts down.
unfoldable pub bootstrap : Outside → Outside → Bool → M Cluster (Option Error)
unfolding start_all shutdown
bootstrap o o' signalled = do
  c ← get
  elim c.name_to_node [
    | [] ↦ pure none
    | kv ∷ m ↦ do
      e ← start_all o (keys (kv ∷ m))
      elim e [
        | some err ↦ pure (some err)
        | none ↦ elim signalled [ true ↦ shutdown o' | false ↦ blocked ]
      ]
  ]
