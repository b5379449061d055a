-- ===== src/Proc/Cluster/Revive.antt =====
-- Revive (proc/proc_cluster.go): it leaves a cluster alone in which a node runs, and otherwise
-- restarts the nodes.
use etcd_play.Base.{
  ◌≡◌, refl, ap, Bool, false, ◌||◌, List, [], ◌∷◌, none, some, arith, Bool-cases, Option-cases, inl,
  inr, if◌then◌else◌,
}
use etcd_play.Base.Text.{Text, same}
use etcd_play.Base.Text.Laws.{same_iff}
use etcd_play.Base.Map.{Map, lookup, insert, keys}
use etcd_play.Base.Map.Values.{Values-lookup}
use etcd_play.Base.Outcome.{done}
use etcd_play.Proc.Node.Local
use etcd_play.Proc.Node.Remote
use etcd_play.Proc.Node.Local.{NodeWebLocal, World, Shared}
use etcd_play.Proc.Node.Remote.{NodeWebRemoteClient}
use etcd_play.Proc.Cluster.{Cluster, Node, local, remote, Outside, node_is_active}
use etcd_play.Proc.Cluster.Control.{any_active, restart_all, revive}
use etcd_play.Proc.Cluster.Fit.{IsFit, NodeFits}

-- A map that already holds the value.
insert-lookup : {V : Type 0} (k : Text) (v : V) (m : Map V) → lookup k m ≡ some v → insert k v m ≡ m
unfolding lookup insert
insert-lookup k v [] e = cc
insert-lookup k v ((j, w) ∷ m) e = elim (Bool-cases (same j k)) [
  | inl eq ↦ ground (arith, eq, e, same_iff j k)
  | inr ne ↦ ground (arith, ne, e, insert-lookup k v m)
]

abbrev pub runs : Node → Bool
runs (local nd) = nd.active
runs (remote nd) = nd.active

-- A node of these names runs.
abbrev pub some_runs : Map Node → List Text → Bool
some_runs m [] = false
some_runs m (name ∷ names) = elim (lookup name m) [
  | none ↦ some_runs m names
  | some nd ↦ runs nd || some_runs m names
]

local_is_active-free :
    (w : World) → w.shared.locked ≡ false → Local.is_active w ≡ done w.node.active w
unfolding Local.is_active
local_is_active-free w h = ground (arith, h)

remote_is_active-free :
    (nd : NodeWebRemoteClient) → nd.locked ≡ false → Remote.is_active nd ≡ done nd.active nd
unfolding Remote.is_active
remote_is_active-free nd h = ground (arith, h)

pub node_is_active-free :
    (name : Text) (nd : Node) (c : Cluster)
    → IsFit c
    → lookup name c.name_to_node ≡ some nd
    → node_is_active name nd c ≡ done (runs nd) c
unfolding node_is_active
node_is_active-free name (local nd) c fit e =
    let w : World = record { node = nd; shared = c.shared } in
    rw (local_is_active-free w fit.free) (
      ap (λ m. done nd.active (record c { name_to_node = m }))
        (insert-lookup name (local nd) c.name_to_node e))
node_is_active-free name (remote nd) c fit e =
    let h = Values-lookup NodeFits name (remote nd) c.name_to_node fit.nodes e in
    rw (remote_is_active-free nd h.1) (
      ap (λ m. done nd.active (record c { name_to_node = m }))
        (insert-lookup name (remote nd) c.name_to_node e))

any_active-free :
    (names : List Text) (c : Cluster)
    → IsFit c
    → any_active names c ≡ done (some_runs c.name_to_node names) c
unfolding any_active
any_active-free [] c fit = refl
any_active-free (name ∷ names) c fit = elim (Option-cases (lookup name c.name_to_node)) [
  | inl missing ↦ ground (arith, missing, any_active-free names c fit)
  | inr (nd, found) ↦
      ground (arith, found, node_is_active-free name nd c fit found, any_active-free names c fit)
]

-- In a cluster whose mutexes are free and whose nodes have valid flags, Revive returns at once and
-- changes nothing if a node runs, and does what restarting the nodes one after the other does if none
-- does.
pub revive-choice :
    (o : Outside) (c : Cluster)
    → IsFit c
    → let names : List Text = keys c.name_to_node in
      revive o c ≡ (if some_runs c.name_to_node names then done none c else restart_all o names c)
unfolding revive
revive-choice o c fit = ground (arith, any_active-free (keys c.name_to_node) c fit)
