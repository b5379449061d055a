-- ===== src/Proc/Cluster/Fit/Fresh.antt =====
-- The nodes of a local cluster that NewCluster (proc/proc_cluster.go) has just made are down, and their
-- names differ.
use etcd_play.Base.{
  ℕ, suc, ◌+◌, ◌≤◌, ◌≡◌, refl, ap, ◌∙◌, subst, false, List, [], ◌∷◌, some, length, Apart, arith,
}
use etcd_play.Base.Text.{Text}
use etcd_play.Base.Map.{Map, insert, keys}
use etcd_play.Base.Map.Values.{Values, Values-insert}
use etcd_play.Base.Map.Keys.{insert-Apart, length-insert-le}
use etcd_play.Proc.Error.{Result, ok}
use etcd_play.Proc.Flags.{Flags, is_valid, set_cluster}
use etcd_play.Proc.Flags.Combine.{combine_flags-parts}
use etcd_play.Proc.Cluster.{Cluster, Node, local, remote}
use etcd_play.Proc.Cluster.Create.{
  web_local, Op, OpOption, apply, zero_op, next_color, new_local, make_nodes, max_name_length,
  new_cluster,
}
use etcd_play.Proc.Cluster.Fit.Create.{AllValid, combine_flags-AllValid, new_cluster-parts}

-- A local node that has not been started.
abbrev pub IsFresh : Node → Type 0
IsFresh (local nd) = (nd.active ≡ false) × (is_valid nd.flags ≡ ok tt)
IsFresh (remote nd) = ⊥

pub record AllFresh (n : ℕ) (c : Cluster) : Type 0 where
  pub free : c.shared.locked ≡ false
  pub quiet : c.shared.stream ≡ []
  pub nodes : Values IsFresh c.name_to_node
  pub apart : Apart (keys c.name_to_node)
  pub few : length (keys c.name_to_node) ≤ n

module _ (new_agent : Text → Result Text) (path : Text) (o : Op) (max_length : ℕ) where
  make_nodes-IsFresh :
      (i color_idx : ℕ) (fs : List Flags) (m n : Map Node)
      → AllValid fs
      → Values IsFresh m
      → Apart (keys m)
      → make_nodes new_agent web_local path o max_length i color_idx fs m ≡ ok n
      → Values IsFresh n × Apart (keys n) × (length (keys n) ≤ length (keys m) + length fs)
  unfolding make_nodes
  make_nodes-IsFresh i color_idx [] m n v h apart e =
      subst (λ n. Values IsFresh n × Apart (keys n) × (length (keys n) ≤ length (keys m) + 0))
        (ground (arith, e)) (h, apart, omega arith)
  make_nodes-IsFresh i color_idx (f ∷ fs) m n v h apart e =
      let nd : Node = local (new_local path o max_length (next_color color_idx) f) in
      let (h', apart', few) =
        make_nodes-IsFresh (i + 1) (next_color color_idx + 1) fs (insert f.name nd m) n v.1
          (Values-insert IsFresh f.name nd m h (refl, v.0)) (insert-Apart f.name nd m apart) e in
      (h', apart', omega (arith, few, length-insert-le f.name nd m))

set_cluster-length :
    (token : Text) (m : Map Text) (fs : List Flags) → length (set_cluster token m fs) ≡ length fs
unfolding set_cluster
set_cluster-length token m [] = refl
set_cluster-length token m (f ∷ fs) = ap suc (set_cluster-length token m fs)

pub new_cluster-AllFresh :
    (new_agent : Text → Result Text) (token path : Text) (fs : List Flags) (opts : List OpOption)
    (c : Cluster)
    → AllValid fs
    → new_cluster new_agent token web_local path fs opts ≡ ok (some c)
    → AllFresh (length fs) c
new_cluster-AllFresh new_agent token path fs opts c v e =
    let (gs, nodes, combined, made, same_cluster) =
      new_cluster-parts new_agent token web_local path fs opts c e in
    let (m, _, k) = combine_flags-parts token false fs gs combined in
    let as_many : length gs ≡ length fs = ap length k ∙ set_cluster-length token m fs in
    let (h, apart, few) =
      make_nodes-IsFresh new_agent path (apply opts zero_op) (max_name_length 0 gs) 0 0 gs [] nodes
        (combine_flags-AllValid token false fs gs combined v) tt tt made in
    subst (AllFresh (length fs)) same_cluster (record {
      free = refl;
      quiet = refl;
      nodes = h;
      apart = apart;
      few = omega (arith, few, as_many);
    })
