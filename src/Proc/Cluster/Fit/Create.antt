-- ===== src/Proc/Cluster/Fit/Create.antt =====
-- A cluster that NewCluster (proc/proc_cluster.go) makes of nodes with valid flags is fit.
use etcd_play.Base.{
  ℕ, ◌+◌, ◌≡◌, refl, Bool, false, List, [], ◌∷◌, none, some, All, arith, get_elem?, Option-cases,
  inl, inr, subst,
}
use etcd_play.Base.Text.{Text, codes}
use etcd_play.Base.Map.{Map, insert}
use etcd_play.Base.Map.Values.{Values, Values-insert}
use etcd_play.Proc.Error.{Result, ok, err, ◌>>=◌, >>=-eq-ok, no_agent_endpoints, external}
use etcd_play.Proc.Flags.{Flags, is_valid, combine_flags, set_cluster}
use etcd_play.Proc.Flags.Combine.{combine_flags-parts}
use etcd_play.Proc.Cluster.{Cluster, Node, local, remote}
use etcd_play.Proc.Cluster.Create.{
  NodeType, web_local, web_remote, is_remote, Op, OpOption, apply, zero_op, next_color, new_local,
  new_remote, make_nodes, check_sizes, max_name_length, new_cluster,
}
use etcd_play.Proc.Cluster.Fit.{NodeFits, IsFit}

abbrev pub AllValid : List Flags → Type 0
AllValid fs = All (λ f. is_valid f ≡ ok tt) fs

-- The token and the shared map leave valid flags valid.
set_cluster-AllValid :
    (token : Text) (m : Map Text) (fs : List Flags)
    → AllValid fs
    → AllValid (set_cluster token m fs)
unfolding set_cluster is_valid
set_cluster-AllValid token m [] h = tt
set_cluster-AllValid token m (f ∷ fs) h = (h.0, set_cluster-AllValid token m fs h.1)

pub combine_flags-AllValid :
    (token : Text) (b : Bool) (fs gs : List Flags)
    → combine_flags token b fs ≡ ok gs
    → AllValid fs
    → AllValid gs
combine_flags-AllValid token b fs gs e h =
    let (m, _, k) = combine_flags-parts token b fs gs e in rw k (set_cluster-AllValid token m fs h)

-- The agent's client exists if the loop goes on.
agent_made :
    (new_agent : Text → Result Text) (eps : List Text) (i : ℕ) (next : Text → Result (Map Node))
    (n : Map Node)
    → elim eps as (λ _. Result (Map Node)) [
      | [] ↦ err no_agent_endpoints
      | ep ∷ rest ↦ elim (get_elem? (ep ∷ rest) i) [
        | none ↦ err (external (codes "index out of range"))
        | some ep' ↦ do agent ← new_agent ep'; next agent
      ]
    ]
      ≡ ok n
    → (agent : Text) × (next agent ≡ ok n)
agent_made new_agent [] i next n e = cc
agent_made new_agent (ep ∷ rest) i next n e = elim (Option-cases (get_elem? (ep ∷ rest) i)) [
  | inl missing ↦ absurd (ground (arith, missing, e))
  | inr (ep', found) ↦
      let (agent, _, k) = >>=-eq-ok (new_agent ep') next (ground (arith, found, e)) in (agent, k)
]

module _ (new_agent : Text → Result Text) (path : Text) (o : Op) (max_length : ℕ) where
  make_nodes-local :
      (i color_idx : ℕ) (fs : List Flags) (m n : Map Node)
      → AllValid fs
      → Values NodeFits m
      → make_nodes new_agent web_local path o max_length i color_idx fs m ≡ ok n
      → Values NodeFits n
  unfolding make_nodes
  make_nodes-local i color_idx [] m n v h e = subst (Values NodeFits) (ground (arith, e)) h
  make_nodes-local i color_idx (f ∷ fs) m n v h e =
      let nd : Node = local (new_local path o max_length (next_color color_idx) f) in
      make_nodes-local (i + 1) (next_color color_idx + 1) fs (insert f.name nd m) n v.1
        (Values-insert NodeFits f.name nd m h v.0) e

  -- What a remote node that was made leaves to the rest.
  make_nodes-step :
      (i color_idx : ℕ) (f : Flags) (fs : List Flags) (m n : Map Node)
      → make_nodes new_agent web_remote path o max_length i color_idx (f ∷ fs) m ≡ ok n
      → (agent : Text) × (make_nodes new_agent web_remote path o max_length
            (i + 1)
            (next_color color_idx + 1)
            fs
            (insert f.name (remote (new_remote o agent f)) m)
          ≡ ok n)
  unfolding make_nodes
  make_nodes-step i color_idx f fs m n e =
      agent_made new_agent o.agent_endpoints i
        (λ agent.
          make_nodes new_agent web_remote path o max_length (i + 1) (next_color color_idx + 1) fs
            (insert f.name (remote (new_remote o agent f)) m))
        n e

  make_nodes-remote :
      (i color_idx : ℕ) (fs : List Flags) (m n : Map Node)
      → AllValid fs
      → Values NodeFits m
      → make_nodes new_agent web_remote path o max_length i color_idx fs m ≡ ok n
      → Values NodeFits n
  unfolding make_nodes
  make_nodes-remote i color_idx [] m n v h e = subst (Values NodeFits) (ground (arith, e)) h
  make_nodes-remote i color_idx (f ∷ fs) m n v h e =
      let (agent, e') = make_nodes-step i color_idx f fs m n e in
      let nd : Node = remote (new_remote o agent f) in
      make_nodes-remote (i + 1) (next_color color_idx + 1) fs (insert f.name nd m) n v.1
        (Values-insert NodeFits f.name nd m h (v.0, refl)) e'

  make_nodes-Values :
      (t : NodeType) (i color_idx : ℕ) (fs : List Flags) (n : Map Node)
      → AllValid fs
      → make_nodes new_agent t path o max_length i color_idx fs [] ≡ ok n
      → Values NodeFits n
  make_nodes-Values web_local i color_idx fs n v e = make_nodes-local i color_idx fs [] n v tt e
  make_nodes-Values web_remote i color_idx fs n v e = make_nodes-remote i color_idx fs [] n v tt e

abbrev pub cluster_of : Map Node → Cluster
cluster_of nodes = record {
  shared = record { locked = false; stream = [] };
  id_to_stream = [];
  name_to_node = nodes;
}

-- What NewCluster has made on its way to a cluster.
pub new_cluster-parts :
    (new_agent : Text → Result Text) (token : Text) (t : NodeType) (path : Text) (fs : List Flags)
    (opts : List OpOption) (c : Cluster)
    → new_cluster new_agent token t path fs opts ≡ ok (some c)
    → (gs : List Flags) × (nodes : Map Node) × (combine_flags token (is_remote t) fs ≡ ok gs)
      × (make_nodes new_agent t path (apply opts zero_op) (max_name_length 0 gs) 0 0 gs []
          ≡ ok nodes)
      × (cluster_of nodes ≡ c)
unfolding new_cluster
new_cluster-parts new_agent token t path [] opts c e = cc
new_cluster-parts new_agent token t path (f ∷ fs) opts c e =
    let o : Op = apply opts zero_op in
    let (_, _, after_check) = >>=-eq-ok (check_sizes t o (f ∷ fs)) _ e in
    let (gs, combined, after_flags) =
      >>=-eq-ok (combine_flags token (is_remote t) (f ∷ fs)) _ after_check in
    let (nodes, made, last) =
      >>=-eq-ok (make_nodes new_agent t path o (max_name_length 0 gs) 0 0 gs []) _ after_flags in
    (gs, nodes, combined, made, ground (arith, last))

-- A cluster made of nodes with valid flags has free mutexes and valid flags.
pub new_cluster-IsFit :
    (new_agent : Text → Result Text) (token : Text) (t : NodeType) (path : Text) (fs : List Flags)
    (opts : List OpOption) (c : Cluster)
    → AllValid fs
    → new_cluster new_agent token t path fs opts ≡ ok (some c)
    → IsFit c
new_cluster-IsFit new_agent token t path fs opts c v e =
    let (gs, nodes, combined, made, same_cluster) =
      new_cluster-parts new_agent token t path fs opts c e in
    subst IsFit same_cluster (record {
      free = refl;
      nodes =
          make_nodes-Values new_agent path (apply opts zero_op) (max_name_length 0 gs) t 0 0 gs
            nodes (combine_flags-AllValid token (is_remote t) fs gs combined v) made;
    })
