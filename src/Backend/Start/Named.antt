-- ===== src/Backend/Start/Named.antt =====
-- startCluster (backend/backend.go) on a local cluster: NewCluster succeeds, and the cluster has a
-- node under each name.
use etcd_play.Base.{
  ℕ, zero, suc, ◌+◌, ◌^◌, ◌<◌, ◌≡◌, refl, false, List, [], ◌∷◌, none, some, All, arith, Bool-cases,
  inl, inr, subst, sym, ltb, length,
}
use etcd_play.Base.Text.{Text, same}
use etcd_play.Base.Map.{Map, lookup, insert, lookup-insert, lookup-insert_self}
use etcd_play.Base.Time.{pos}
use etcd_play.Base.Outcome.{done, Returns}
use etcd_play.Proc.Error.{Result, ok}
use etcd_play.Proc.Flags.{Flags, combine_flags, set_cluster}
use etcd_play.Proc.Flags.Combine.{combine_flags-parts}
use etcd_play.Proc.Cluster.{Node, Cluster, local}
use etcd_play.Proc.Cluster.Create.{
  NodeType, web_local, is_remote, Op, make_nodes, new_local, next_color, new_cluster, OpOption,
  apply, zero_op, max_name_length, check_sizes,
}
use etcd_play.Proc.Cluster.Fit.Create.{cluster_of}
use etcd_play.Backend.State.{App, GlobalFlags}
use etcd_play.Backend.Start.{
  node_type, node_name, cluster_flags, make_flags, options, start_cluster,
}
use etcd_play.Backend.Start.Generated.{
  cluster_flags-step, combine_flags-cluster_flags, generate_flags-name, made,
}
use etcd_play.Backend.Start.Total.{cluster_flags_total}

zero_add : (j : ℕ) → 0 + j ≡ j
zero_add j = omega arith

-- A map has something under a name.
abbrev pub HasNode : Map Node → Text → Type 0
HasNode m name = (nd : Node) × (lookup name m ≡ some nd)

insert-HasNode :
    (k : Text) (nd : Node) (m : Map Node) (name : Text)
    → HasNode m name
    → HasNode (insert k nd m) name
insert-HasNode k nd m name (x, e) = elim (Bool-cases (same k name)) [
  | inl eq ↦ (nd, ground (arith, lookup-insert k name nd m, eq))
  | inr ne ↦ (x, ground (arith, lookup-insert k name nd m, ne, e))
]

module _ (new_agent : Text → Result Text) (path : Text) (o : Op) (max_length : ℕ) where
  -- The nodes of a local cluster are made, each under its name.
  make_nodes-HasNode :
      (i color_idx : ℕ) (fs : List Flags) (m : Map Node)
      → (n : Map Node) × (make_nodes new_agent web_local path o max_length i color_idx fs m ≡ ok n)
        × ((name : Text) → HasNode m name → HasNode n name)
        × All (λ f. HasNode n f.name) fs
  unfolding make_nodes
  make_nodes-HasNode i color_idx [] m = (m, refl, (λ name h. h), tt)
  make_nodes-HasNode i color_idx (f ∷ fs) m =
      let nd : Node = local (new_local path o max_length (next_color color_idx) f) in
      let (n, e, old, new) =
        make_nodes-HasNode (i + 1) (next_color color_idx + 1) fs (insert f.name nd m) in
      (
        n,
        e,
        (λ name h. old name (insert-HasNode f.name nd m name h)),
        (old f.name (nd, ground (arith, lookup-insert_self f.name nd m)), new),
      )

-- CombineFlags leaves the names alone.
set_cluster-names :
    (token : Text) (m : Map Text) (P : Text → Type 0) (fs : List Flags)
    → All (λ f. P f.name) (set_cluster token m fs)
    → All (λ f. P f.name) fs
unfolding set_cluster
set_cluster-names token m P [] h = tt
set_cluster-names token m P (f ∷ fs) h = (h.0, set_cluster-names token m P fs h.1)

-- The i-th flags have the i-th name.
cluster_flags-names :
    (t : NodeType) (eps : List Text) (n i prefix : ℕ) (fs : List Flags) (last : ℕ)
    (P : Text → Type 0)
    → cluster_flags t eps n i prefix ≡ some (fs, last)
    → All (λ f. P f.name) fs
    → (j : ℕ) → j < n
    → P (node_name (i + j))
cluster_flags-names t eps zero i prefix fs last P e h j lt = absurd (omega (arith, lt))
cluster_flags-names t eps (suc n) i prefix gs last P e h zero lt =
    let (host, fs, eg, el) = cluster_flags-step t eps n i prefix gs last e in
    let all : All (λ f. P f.name) ((made t i prefix host).0 ∷ fs) =
      subst (All (λ f. P f.name)) eg h in
    let here : P (node_name i) =
      subst P (generate_flags-name (node_name i) host (is_remote t) prefix) all.0 in
    let same_index : i ≡ i + 0 = omega arith in subst (λ k. P (node_name k)) same_index here
cluster_flags-names t eps (suc n) i prefix gs last P e h (suc j) lt =
    let (host, fs, eg, el) = cluster_flags-step t eps n i prefix gs last e in
    let all : All (λ f. P f.name) ((made t i prefix host).0 ∷ fs) =
      subst (All (λ f. P f.name)) eg h in
    let shifted : (i + 1) + j ≡ i + suc j = omega arith in
    subst (λ k. P (node_name k)) shifted
      (cluster_flags-names t eps n (i + 1) (made t i prefix host).1 fs last P el all.1 j
        (omega arith))

local_sizes : (o : Op) (fs : List Flags) → check_sizes web_local o fs ≡ ok tt
unfolding check_sizes
local_sizes o fs = elim (Bool-cases (ltb 0 (length o.agent_endpoints))) [
  | inl some_eps ↦ rw some_eps refl
  | inr no_eps ↦ rw no_eps refl
]

new_cluster-made :
    (new_agent : Text → Result Text) (token path : Text) (opts : List OpOption) (f : Flags)
    (fs hs : List Flags) (nodes : Map Node)
    → combine_flags token false (f ∷ fs) ≡ ok hs
    → make_nodes new_agent web_local path (apply opts zero_op) (max_name_length 0 hs) 0 0 hs []
      ≡ ok nodes
    → new_cluster new_agent token web_local path (f ∷ fs) opts ≡ ok (some (cluster_of nodes))
unfolding new_cluster check_sizes
new_cluster-made new_agent token path opts f fs hs nodes combined built =
    rw (combined, built, local_sizes (apply opts zero_op) (f ∷ fs)) refl

-- NewCluster on the flags of a local cluster.
pub new_cluster-HasNode :
    (new_agent : Text → Result Text) (token path : Text) (opts : List OpOption) (eps : List Text)
    (n prefix : ℕ) (fs : List Flags) (last : ℕ)
    → cluster_flags web_local eps (suc n) 0 prefix ≡ some (fs, last)
    → prefix + suc n < 2 ^ 32
    → (c : Cluster) × (new_cluster new_agent token web_local path fs opts ≡ ok (some c))
      × ((j : ℕ) → j < suc n → HasNode c.name_to_node (node_name j))
new_cluster-HasNode new_agent token path opts eps n prefix gs last e bound =
    let (host, fs, eg, el) = cluster_flags-step web_local eps n 0 prefix gs last e in
    let f : Flags = (made web_local 0 prefix host).0 in
    let o : Op = apply opts zero_op in
    let (hs, combined) = combine_flags-cluster_flags web_local eps n prefix gs last token e bound in
    let (m, _, shared) = combine_flags-parts token false gs hs combined in
    let (nodes, built, _, named) =
      make_nodes-HasNode new_agent path o (max_name_length 0 hs) 0 0 hs [] in
    let P : Text → Type 0 = HasNode nodes in
    let all : All (λ f. P f.name) (set_cluster token m gs) =
      subst (All (λ f. P f.name)) shared named in
    (
      cluster_of nodes,
      subst
          (λ (fs : List Flags).
            combine_flags token false fs ≡ ok hs
            → new_cluster new_agent token web_local path fs opts ≡ ok (some (cluster_of nodes)))
          (sym eg) (λ e. new_cluster-made new_agent token path opts f fs hs nodes e built) combined,
      (λ j lt.
          subst (λ k. P (node_name k)) (zero_add j)
            (cluster_flags-names web_local eps (suc n) 0 prefix gs last P e
              (set_cluster-names token m P gs all) j lt)),
    )

-- startCluster, when the flags and the cluster are made.
pub start_cluster-made :
    (new_agent : Text → Result Text) (token : Text) (a : App) (fs : List Flags) (last : ℕ)
    (c : Cluster)
    → make_flags (node_type a.flags) a.flags.agent_endpoints a.flags.cluster_size a.port_prefix
      ≡ some (fs, last)
    → new_cluster new_agent token (node_type a.flags) a.flags.etcd_binary fs (options a.flags)
      ≡ ok (some c)
    → a.locked ≡ false
    → a.cluster ≡ none
    → start_cluster new_agent token a
      ≡ done none (record a { locked = false; port_prefix = last; cluster = some c })
unfolding start_cluster
start_cluster-made new_agent token a fs last c e made_ok free no_cluster =
    ground (arith, e, made_ok, free, no_cluster)

pub local_type : (g : GlobalFlags) → g.is_remote ≡ false → node_type g ≡ web_local
local_type g e = ground (arith, e)

-- When the mutex is free, there is no cluster, the nodes are local, at least one is asked for and the
-- port counter stays a uint32, startCluster returns without an error, gives the mutex back, and the
-- cluster has a node under each name from etcd1 to the cluster's size.
pub start_cluster_starts :
    (new_agent : Text → Result Text) (token : Text) (a : App) (n : ℕ)
    → a.locked ≡ false
    → a.cluster ≡ none
    → a.flags.is_remote ≡ false
    → a.flags.cluster_size ≡ pos (suc n)
    → a.port_prefix + suc n < 2 ^ 32
    → Returns (start_cluster new_agent token a) (λ e b.
      (e ≡ none)
      × (b.locked ≡ false)
      × ((c : Cluster) × (b.cluster ≡ some c)
          × ((j : ℕ) → j < suc n → HasNode c.name_to_node (node_name j))))
start_cluster_starts new_agent token a n free no_cluster local_nodes size bound =
    let g : GlobalFlags = a.flags in
    let t : node_type g ≡ web_local = local_type g local_nodes in
    let (fs, last, e) =
      cluster_flags_total web_local g.agent_endpoints (suc n) 0 a.port_prefix (λ r. absurd cc) in
    let (c, made_ok, named) =
      new_cluster-HasNode new_agent token g.etcd_binary (options g) g.agent_endpoints n
        a.port_prefix fs last e bound in
    let run =
      start_cluster-made new_agent token a fs last c (rw (t, size) e) (rw t made_ok) free
        no_cluster in
    rw run (refl, refl, (c, refl, named))
