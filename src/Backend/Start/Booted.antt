-- ===== src/Backend/Start/Booted.antt =====
-- From the request to a running cluster: startCluster (backend/backend.go) makes a local cluster, and
-- its Bootstrap (proc/proc_cluster.go) starts every node.
use etcd_play.Base.{
  ℕ, zero, suc, ◌+◌, ◌^◌, ◌<◌, ◌≤◌, ◌≡◌, ◌≢◌, refl, ap, ◌∙◌, subst, false, List, [], ◌∷◌, none,
  some, length, All, All-weaken, arith,
}
use etcd_play.Base.Text.{Text}
use etcd_play.Base.Map.{Map, lookup, keys}
use etcd_play.Base.Map.Values.{Values-lookup}
use etcd_play.Base.Map.Keys.{keys-found, All-found}
use etcd_play.Base.Time.{pos}
use etcd_play.Base.Outcome.{blocked, Returns}
use etcd_play.Proc.Error.{Result}
use etcd_play.Proc.Flags.{Flags}
use etcd_play.Proc.Node.Local.{stream_cap, command_args}
use etcd_play.Proc.Node.Refines.{failure, string-ok}
use etcd_play.Proc.Cluster
use etcd_play.Proc.Cluster.{Cluster, Node, local, remote}
use etcd_play.Proc.Cluster.Create.{NodeType, web_local}
use etcd_play.Proc.Cluster.Control.{bootstrap}
use etcd_play.Proc.Cluster.Rounds.{HasIn, IsUp}
use etcd_play.Proc.Cluster.Boot.{Startable, bootstrap-runs}
use etcd_play.Proc.Cluster.Fit.Fresh.{IsFresh, AllFresh, new_cluster-AllFresh}
use etcd_play.Backend.Sound.Start.{cluster_flags-AllValid}
use etcd_play.Backend.State.{App, GlobalFlags}
use etcd_play.Backend.Start.{node_name, cluster_flags, options, start_cluster}
use etcd_play.Backend.Start.Generated.{cluster_flags-step, made}
use etcd_play.Backend.Start.Total.{cluster_flags_total}
use etcd_play.Backend.Start.Named.{HasNode, new_cluster-HasNode, start_cluster-made, local_type}

cluster_flags-length :
    (t : NodeType) (eps : List Text) (n i prefix : ℕ) (fs : List Flags) (last : ℕ)
    → cluster_flags t eps n i prefix ≡ some (fs, last)
    → length fs ≡ n
cluster_flags-length t eps zero i prefix [] last e = refl
cluster_flags-length t eps zero i prefix (f ∷ fs) last e =
    absurd (unfold cluster_flags in (ground (arith, e)))
cluster_flags-length t eps (suc n) i prefix gs last e =
    let (host, fs, eg, el) = cluster_flags-step t eps n i prefix gs last e in
    ap length eg ∙ ap suc (cluster_flags-length t eps n (i + 1) (made t i prefix host).1 fs last el)

-- The shell starts every process.
abbrev pub ShellWorks : Cluster.Outside → Type 0
ShellWorks o = (name : Text) (args : List Text) → failure ((o.of_local name).exec_start args) ≡ none

fresh-Startable :
    (o : Cluster.Outside) (name : Text) (nd : Node)
    → ShellWorks o
    → IsFresh nd
    → Startable o name nd
fresh-Startable o name (local nd) works (down, valid) =
    let (s, e) = string-ok nd.flags valid in
    (down, valid, ground (arith, e, works name (command_args (o.of_local name) nd s)))
fresh-Startable o name (remote nd) works fresh = absurd fresh

AllFresh-Startable :
    (o : Cluster.Outside) (n : ℕ) (c : Cluster)
    → ShellWorks o
    → AllFresh n c
    → All (HasIn (Startable o) c) (keys c.name_to_node)
AllFresh-Startable o n c works fresh =
    All-weaken _ _
      (λ k (nd, found). (
        nd,
        found,
        fresh-Startable o k nd works (Values-lookup IsFresh k nd c.name_to_node fresh.nodes found),
      ))
      (keys c.name_to_node) (keys-found c.name_to_node)

-- The cluster's nodes from the first name on run.
abbrev pub AllUp : ℕ → Cluster → Type 0
AllUp n c = (j : ℕ) → j < n → HasIn IsUp c (node_name j)

-- Once Bootstrap has started every node it waits, whatever it waits for.
abbrev pub Boots : Cluster.Outside → ℕ → Cluster → Type 0
Boots o n c = (c' : Cluster) × (bootstrap o o false c ≡ blocked c') × AllUp n c'

named-nonempty : (m : Map Node) (name : Text) → HasNode m name → m ≢ []
named-nonempty [] name (nd, found) = absurd (unfold lookup in cc)
named-nonempty (kv ∷ m) name h = λ e. cc

AllFresh-Boots :
    (o : Cluster.Outside) (n : ℕ) (c : Cluster)
    → ShellWorks o
    → AllFresh (suc n) c
    → suc n ≤ stream_cap
    → ((j : ℕ) → j < suc n → HasNode c.name_to_node (node_name j))
    → Boots o (suc n) c
AllFresh-Boots o n c works fresh small named =
    let room : length c.shared.stream + length (keys c.name_to_node) ≤ stream_cap =
      rw fresh.quiet (omega (arith, fresh.few, small)) in
    let (c', up, waits, _) =
      bootstrap-runs o o c (named-nonempty c.name_to_node (node_name 0) (named 0 (omega arith)))
        fresh.free fresh.apart room (AllFresh-Startable o (suc n) c works fresh) in
    (
      c',
      waits,
      (λ j lt.
          let (nd, found) = named j lt in
          All-found (HasIn IsUp c') (node_name j) nd c.name_to_node up found),
    )

-- When the mutex is free, there is no cluster, the nodes are local, between one and 5000 of them are
-- asked for, the port counter stays a uint32 and the shell starts every process, startCluster returns
-- without an error, and the Bootstrap of the cluster that it stores waits with a running node under
-- each name from etcd1 to the cluster's size.
pub start_cluster-Boots :
    (new_agent : Text → Result Text) (token : Text) (o : Cluster.Outside) (a : App) (n : ℕ)
    → a.locked ≡ false
    → a.cluster ≡ none
    → a.flags.is_remote ≡ false
    → a.flags.cluster_size ≡ pos (suc n)
    → suc n ≤ stream_cap
    → a.port_prefix + suc n < 2 ^ 32
    → ShellWorks o
    → Returns
        (start_cluster new_agent token a)
        (λ e b. (e ≡ none) × ((c : Cluster) × (b.cluster ≡ some c) × Boots o (suc n) c))
start_cluster-Boots new_agent token o a n free no_cluster local_nodes size small bound works =
    let g : GlobalFlags = a.flags in
    let t = local_type g local_nodes in
    let (fs, last, e) =
      cluster_flags_total web_local g.agent_endpoints (suc n) 0 a.port_prefix (λ r. absurd cc) in
    let (c, made_ok, named) =
      new_cluster-HasNode new_agent token g.etcd_binary (options g) g.agent_endpoints n
        a.port_prefix fs last e bound in
    let fresh : AllFresh (suc n) c =
      subst (λ k. AllFresh k c)
        (cluster_flags-length web_local g.agent_endpoints (suc n) 0 a.port_prefix fs last e)
        (new_cluster-AllFresh new_agent token g.etcd_binary fs (options g) c
          (cluster_flags-AllValid web_local g.agent_endpoints (suc n) 0 a.port_prefix fs last e)
          made_ok) in
    let run =
      start_cluster-made new_agent token a fs last c (rw (t, size) e) (rw t made_ok) free
        no_cluster in
    rw run (refl, (c, refl, AllFresh-Boots o n c works fresh small named))
