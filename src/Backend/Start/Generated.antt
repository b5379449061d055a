-- ===== src/Backend/Start/Generated.antt =====
-- The flags that startCluster (backend/backend.go) makes are always accepted by CombineFlags.
use etcd_play.Base.{
  ℕ, zero, suc, ◌+◌, ◌^◌, ◌≤◌, ◌<◌, ◌≡◌, ◌≢◌, ◌⊎◌, inl, inr, refl, sym, ap, ◌∙◌, Bool, true, false,
  List, [], ◌∷◌, Option, none, some, All, arith, Option-cases,
}
use etcd_play.Base.Text.{Text}
use etcd_play.Base.Decimal.{decimal, decimal_injective}
use etcd_play.Proc.Error.{ok}
use etcd_play.Proc.Flags.{Flags, generate_flags, combine_flags, port_key}
use etcd_play.Proc.Flags.Generate.{port_key_injective, port_key-ne_nil}
use etcd_play.Proc.Flags.Combine.{Distinct, PortsDiffer, combine_flags_iff}
use etcd_play.Proc.Cluster.Create.{NodeType, web_local, web_remote, is_remote}
use etcd_play.Backend.Start.{node_name, host_of, cluster_flags}

tail_eq : {x y : ℕ} {xs ys : Text} → x ∷ xs ≡ y ∷ ys → xs ≡ ys
tail_eq e = ground (arith, e)

node_name_injective : (i j : ℕ) → node_name i ≡ node_name j → i ≡ j
node_name_injective i j e =
    let digits : decimal (i + 1) ≡ decimal (j + 1) = tail_eq (tail_eq (tail_eq (tail_eq e))) in
    omega (arith, decimal_injective (i + 1) (j + 1) digits)

-- Every flags of the list was generated for one of the nodes from `i` on, with a prefix from
-- `prefix` on.
abbrev Made : NodeType → ℕ → ℕ → Flags → Type 0
Made t i prefix f =
    (j : ℕ) × (p : ℕ) × (host : Text) × (i ≤ j)
    × (prefix ≤ p)
    × (f ≡ (generate_flags (node_name j) host (is_remote t) p).0)

Made-weaken :
    (t : NodeType) (i i' prefix prefix' : ℕ) (fs : List Flags)
    → i ≤ i'
    → prefix ≤ prefix'
    → All (Made t i' prefix') fs
    → All (Made t i prefix) fs
Made-weaken t i i' prefix prefix' [] h k a = tt
Made-weaken t i i' prefix prefix' (f ∷ fs) h k ((j, p, host, hj, hp, e), rest) =
    ((j, p, host, omega arith, omega arith, e), Made-weaken t i i' prefix prefix' fs h k rest)

pub generate_flags-name :
    (name host : Text) (remote : Bool) (p : ℕ) → (generate_flags name host remote p).0.name ≡ name
unfolding generate_flags
generate_flags-name name host remote p = refl

Made-name :
    (t : NodeType) (i prefix : ℕ) (fs : List Flags)
    → All (Made t (i + 1) prefix) fs
    → All (λ g. g.name ≢ node_name i) fs
Made-name t i prefix [] a = tt
Made-name t i prefix (f ∷ fs) ((j, p, host, hj, hp, e), rest) = (
  (λ same_name. omega (
    arith,
    node_name_injective j i (
        sym (ap (λ (g : Flags). g.name) e ∙ generate_flags-name (node_name j) host (is_remote t) p)
        ∙ same_name),
  )),
  Made-name t i prefix fs rest,
)

Made-ports :
    (i prefix : ℕ) (host : Text) (fs : List Flags)
    → All (Made web_local (i + 1) (prefix + 1)) fs
    → All (λ g. port_key g ≢ port_key (generate_flags (node_name i) host false prefix).0) fs
Made-ports i prefix host [] a = tt
Made-ports i prefix host (f ∷ fs) ((j, p, host', hj, hp, e), rest) = (
  (λ same_ports. omega (
    arith,
    port_key_injective (node_name j) (node_name i) host' host p prefix
        (sym (ap port_key e) ∙ same_ports),
  )),
  Made-ports i prefix host fs rest,
)

generate_flags-next :
    (name host : Text) (remote : Bool) (prefix : ℕ)
    → prefix + 1 < 2 ^ 32
    → (prefix ≤ (generate_flags name host remote prefix).1)
      × ((generate_flags name host remote prefix).1 ≤ prefix + 1)
      × ((remote ≡ true) ⊎ ((generate_flags name host remote prefix).1 ≡ prefix + 1))
unfolding generate_flags
generate_flags-next name host true prefix h = ground arith
generate_flags-next name host false prefix h = ground arith

abbrev pub made : NodeType → ℕ → ℕ → Text → Flags × ℕ
made t i prefix host = generate_flags (node_name i) host (is_remote t) prefix

pub cluster_flags-step :
    (t : NodeType) (eps : List Text) (n i prefix : ℕ) (gs : List Flags) (last : ℕ)
    → cluster_flags t eps (suc n) i prefix ≡ some (gs, last)
    → (host : Text) × (fs : List Flags) × (gs ≡ (made t i prefix host).0 ∷ fs)
      × (cluster_flags t eps n (i + 1) (made t i prefix host).1 ≡ some (fs, last))
cluster_flags-step t eps n i prefix gs last e = with_host (host_of t eps i) refl
  where
    with_host :
        (h : Option Text)
        → host_of t eps i ≡ h
        → (host : Text) × (fs : List Flags) × (gs ≡ (made t i prefix host).0 ∷ fs)
          × (cluster_flags t eps n (i + 1) (made t i prefix host).1 ≡ some (fs, last))
    with_host none eh = absurd (unfold cluster_flags in (ground (arith, e, eh)))
    with_host (some host) eh =
        elim (Option-cases (cluster_flags t eps n (i + 1) (made t i prefix host).1)) [
          | inl el ↦ absurd (unfold cluster_flags in (ground (arith, e, eh, el)))
          | inr (later, el) ↦ (
            host,
            later.0,
            unfold cluster_flags in (ground (arith, e, eh, el)),
            unfold cluster_flags in (ground (arith, e, eh, el)),
          )
        ]

pub cluster_flags-Made :
    (t : NodeType) (eps : List Text) (n i prefix : ℕ) (fs : List Flags) (last : ℕ)
    → cluster_flags t eps n i prefix ≡ some (fs, last)
    → prefix + n < 2 ^ 32
    → All (Made t i prefix) fs × Distinct fs
cluster_flags-Made t eps zero i prefix [] last e h = (tt, tt)
cluster_flags-Made t eps zero i prefix (f ∷ fs) last e h =
    absurd (unfold cluster_flags in (ground (arith, e)))
cluster_flags-Made t eps (suc n) i prefix gs last e h =
    let (host, fs, eg, el) = cluster_flags-step t eps n i prefix gs last e in
    let (lo, hi, _) = generate_flags-next (node_name i) host (is_remote t) prefix (omega arith) in
    let (all, distinct) =
      cluster_flags-Made t eps n (i + 1) (made t i prefix host).1 fs last el (omega arith) in
    let weak =
      Made-weaken t (i + 1) (i + 1) prefix (made t i prefix host).1 fs (omega arith) lo all in
    rw eg (
      (
        (i, prefix, host, omega arith, omega arith, refl),
        Made-weaken t i (i + 1) prefix prefix fs (omega arith) (omega arith) weak,
      ),
      (
        rw (generate_flags-name (node_name i) host (is_remote t) prefix)
            (Made-name t i prefix fs weak),
        distinct,
      ),
    )

Made-PortsDiffer :
    (t : NodeType) (i prefix : ℕ) (host : Text) (fs : List Flags)
    → prefix + 1 < 2 ^ 32
    → All (Made t (i + 1) (made t i prefix host).1) fs
    → PortsDiffer (is_remote t) (port_key (made t i prefix host).0) fs
Made-PortsDiffer web_remote i prefix host fs h a = inl refl
Made-PortsDiffer web_local i prefix host fs h a = inr (
    Made-ports i prefix host fs (
      Made-weaken web_local (i + 1) (i + 1) (prefix + 1) (made web_local i prefix host).1 fs
        (omega arith) (ground (arith, generate_flags-next (node_name i) host false prefix)) a))

-- As long as the port prefix does not pass the end of a uint32, CombineFlags accepts the flags that
-- startCluster generates for a cluster of one node or more, local or remote.
pub combine_flags-cluster_flags :
    (t : NodeType) (eps : List Text) (n prefix : ℕ) (fs : List Flags) (last : ℕ) (token : Text)
    → cluster_flags t eps (suc n) 0 prefix ≡ some (fs, last)
    → prefix + suc n < 2 ^ 32
    → (gs : List Flags) × (combine_flags token (is_remote t) fs ≡ ok gs)
combine_flags-cluster_flags t eps n prefix gs last token e h =
    let (host, fs, eg, el) = cluster_flags-step t eps n 0 prefix gs last e in
    let (_, distinct) = cluster_flags-Made t eps (suc n) 0 prefix gs last e h in
    let (lo, hi, _) = generate_flags-next (node_name 0) host (is_remote t) prefix (omega arith) in
    let (later, _) =
      cluster_flags-Made t eps n (0 + 1) (made t 0 prefix host).1 fs last el (omega arith) in
    rw eg (
      (combine_flags_iff token (is_remote t) (made t 0 prefix host).0 fs
          (port_key-ne_nil (node_name 0) host (is_remote t) prefix)).1
        (rw eg at distinct, Made-PortsDiffer t 0 prefix host fs (omega arith) later))
