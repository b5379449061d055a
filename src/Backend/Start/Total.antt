-- ===== src/Backend/Start/Total.antt =====
-- startCluster (backend/backend.go) never indexes past the agent endpoints, and starts every local
-- cluster.
use etcd_play.Base.{
  ℕ, zero, suc, ◌+◌, ◌≤◌, ◌<◌, ◌≡◌, refl, true, false, List, [], ◌∷◌, some, ltb, length, get_elem?,
  arith, Bool-cases, ==_iff, inl, inr,
}
use etcd_play.Base.Text.{Text, codes, split, first_piece, trim_space}
use etcd_play.Base.Time.{pos}
use etcd_play.Base.Outcome.{Returns}
use etcd_play.Proc.Error.{Result}
use etcd_play.Proc.Flags.{Flags, generate_flags}
use etcd_play.Proc.Cluster.Create.{NodeType, web_local, web_remote, is_remote}
use etcd_play.Backend.State.{App, GlobalFlags}
use etcd_play.Backend.Start.{
  sizes_agree, node_type, host_of, node_name, cluster_flags, start_cluster,
}

get_elem_total :
    (eps : List Text) (i : ℕ) → i < length eps → (ep : Text) × (get_elem? eps i ≡ some ep)
get_elem_total [] i h = absurd (omega (arith, h))
get_elem_total (ep ∷ eps) zero h = (ep, refl)
get_elem_total (ep ∷ eps) (suc i) h = get_elem_total eps i (ground (arith, h))

host_of_total :
    (t : NodeType) (eps : List Text) (i : ℕ)
    → (is_remote t ≡ true → i < length eps)
    → (host : Text) × (host_of t eps i ≡ some host)
unfolding host_of
host_of_total web_local eps i h = (codes "localhost", ground arith)
host_of_total web_remote eps i h =
    let (ep, found) = get_elem_total eps i (h refl) in
    elim (Bool-cases (ltb 1 (length eps))) [
      | inl many ↦ (trim_space (first_piece (split ep (codes ":"))), rw (many, found) refl)
      | inr one ↦ (codes "localhost", rw one refl)
    ]

pub cluster_flags_total :
    (t : NodeType) (eps : List Text) (n i prefix : ℕ)
    → (is_remote t ≡ true → i + n ≤ length eps)
    → (fs : List Flags) × (last : ℕ) × (cluster_flags t eps n i prefix ≡ some (fs, last))
unfolding cluster_flags
cluster_flags_total t eps zero i prefix h = ([], prefix, refl)
cluster_flags_total t eps (suc n) i prefix h =
    let (host, eh) = host_of_total t eps i (λ e. omega (arith, h e)) in
    let prefix' : ℕ = (generate_flags (node_name i) host (is_remote t) prefix).1 in
    let (fs, last, el) = cluster_flags_total t eps n (i + 1) prefix' (λ e. omega (arith, h e)) in
    let f : Flags = (generate_flags (node_name i) host (is_remote t) prefix).0 in
    (f ∷ fs, last, ground (arith, eh, el))

sizes_agree-le :
    (g : GlobalFlags) (n : ℕ)
    → g.cluster_size ≡ pos n
    → sizes_agree g ≡ true
    → is_remote (node_type g) ≡ true
    → 0 + n ≤ length g.agent_endpoints
unfolding sizes_agree
sizes_agree-le g n size agree e = elim (Bool-cases g.is_remote) [
  | inl r ↦
      let eq : n ≡ length g.agent_endpoints =
        (==_iff n (length g.agent_endpoints)).0 (rw (r, size) at agree) in
      omega (arith, eq)
  | inr l ↦ ground (arith, l, e)
]

-- With an agent for each node of a remote cluster, startCluster of a size that is not
-- negative returns and gives the mutex back.
pub start_cluster_returns :
    (new_agent : Text → Result Text) (token : Text) (a : App) (n : ℕ)
    → a.locked ≡ false
    → a.flags.cluster_size ≡ pos n
    → sizes_agree a.flags ≡ true
    → Returns (start_cluster new_agent token a) (λ e b. b.locked ≡ false)
unfolding start_cluster
start_cluster_returns new_agent token a n free size agree =
    let g : GlobalFlags = a.flags in
    let (fs, last, e) =
      cluster_flags_total (node_type g) g.agent_endpoints n 0 a.port_prefix
        (sizes_agree-le g n size agree) in
    ground (arith, size, e, free)
