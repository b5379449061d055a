-- ===== src/Proc/Flags/Combine.antt =====
-- When CombineFlags (proc/flags.go) accepts the flags of a cluster, and what every node then holds.
use etcd_play.Base.{
  ◌≡◌, ◌≢◌, refl, sym, ◌∙◌, ◌↔◌, ◌⊎◌, inl, inr, Bool, true, false, List, [], ◌∷◌, Option, none,
  some, All, arith, map, subst, if◌then◌else◌,
}
use etcd_play.Base.Text.{Text, same}
use etcd_play.Base.Text.Laws.{same_iff}
use etcd_play.Base.Map.{Map, lookup, insert, lookup-insert, lookup-insert_self, lookup-insert_ne}
use etcd_play.Proc.Error.{ok, >>=-eq-ok}
use etcd_play.Proc.Flags.{
  Flags, check_flags, combine_flags, set_cluster, port_key, map_to_comma_string,
}

abbrev pub peer_url : Flags → Text
peer_url f = map_to_comma_string f.advertise_peer_urls

-- No two nodes share a name.
abbrev pub Distinct : List Flags → Type 0
Distinct [] = Unit
Distinct (f ∷ fs) = All (λ g. g.name ≢ f.name) fs × Distinct fs

abbrev Fresh : Map Text → List Flags → Type 0
Fresh m fs = All (λ f. lookup f.name m ≡ none) fs

abbrev pub PortsDiffer : Bool → Text → List Flags → Type 0
PortsDiffer remote p fs = (remote ≡ true) ⊎ All (λ g. port_key g ≢ p) fs

-- What `port_check` is after a node.
abbrev next_check : Text → Flags → Text
next_check p f = if same p [] then port_key f else p

-- A loop that succeeds passes its next node...
check_flags-step :
    (remote : Bool) (m n : Map Text) (p : Text) (f : Flags) (fs : List Flags)
    → check_flags remote m p (f ∷ fs) ≡ ok n
    → (lookup f.name m ≡ none)
      × (PortsDiffer remote p (f ∷ []) ⊎ (p ≡ []))
      × (check_flags remote (insert f.name (peer_url f) m) (next_check p f) fs ≡ ok n)
unfolding check_flags
check_flags-step remote m n p f fs h = ground (arith, same_iff p [], same_iff p (port_key f))

-- ...and a node that passes leaves it to the rest.
check_flags-pass :
    (remote : Bool) (m : Map Text) (p : Text) (f : Flags) (fs : List Flags)
    → lookup f.name m ≡ none
    → PortsDiffer remote p (f ∷ []) ⊎ (p ≡ [])
    → check_flags remote m p (f ∷ fs)
      ≡ check_flags remote (insert f.name (peer_url f) m) (next_check p f) fs
unfolding check_flags
check_flags-pass remote m p f fs h k = ground (arith, same_iff p [], same_iff p (port_key f))

some-ne-none : {A : Type 0} {a : A} {o : Option A} → o ≡ some a → o ≡ none → ⊥
some-ne-none h k = cc

check_flags-keeps :
    (remote : Bool) (m n : Map Text) (p : Text) (fs : List Flags) (k v : Text)
    → check_flags remote m p fs ≡ ok n
    → lookup k m ≡ some v
    → lookup k n ≡ some v
unfolding check_flags
check_flags-keeps remote m n p [] k v h e = cc
check_flags-keeps remote m n p (f ∷ fs) k v h e =
    let (fresh, _, rest) = check_flags-step remote m n p f fs h in
    check_flags-keeps remote (insert f.name (peer_url f) m) n (next_check p f) fs k v rest
      (ground (arith, lookup-insert f.name k (peer_url f) m, same_iff f.name k, fresh))

-- The map of peer URLs has every node under its name.
check_flags-covers :
    (remote : Bool) (m n : Map Text) (p : Text) (fs : List Flags)
    → check_flags remote m p fs ≡ ok n
    → All (λ f. lookup f.name n ≡ some (peer_url f)) fs
check_flags-covers remote m n p [] h = tt
check_flags-covers remote m n p (f ∷ fs) h =
    let (fresh, _, rest) = check_flags-step remote m n p f fs h in
    (
      check_flags-keeps remote (insert f.name (peer_url f) m) n (next_check p f) fs f.name
          (peer_url f) rest (lookup-insert_self f.name (peer_url f) m),
      check_flags-covers remote (insert f.name (peer_url f) m) n (next_check p f) fs rest,
    )

-- Names that the map has are not met again.
check_flags-fresh :
    (remote : Bool) (m n : Map Text) (p : Text) (fs : List Flags) (k v : Text)
    → check_flags remote m p fs ≡ ok n
    → lookup k m ≡ some v
    → All (λ g. g.name ≢ k) fs
check_flags-fresh remote m n p [] k v h e = tt
check_flags-fresh remote m n p (f ∷ fs) k v h e =
    let (fresh, _, rest) = check_flags-step remote m n p f fs h in
    (
      λ eq. some-ne-none e (subst (λ j. lookup j m ≡ none) eq fresh),
      check_flags-fresh remote (insert f.name (peer_url f) m) n (next_check p f) fs k v rest
          (ground (arith, lookup-insert f.name k (peer_url f) m, same_iff f.name k, fresh)),
    )

check_flags-Distinct :
    (remote : Bool) (m n : Map Text) (p : Text) (fs : List Flags)
    → check_flags remote m p fs ≡ ok n
    → Distinct fs
check_flags-Distinct remote m n p [] h = tt
check_flags-Distinct remote m n p (f ∷ fs) h =
    let (fresh, _, rest) = check_flags-step remote m n p f fs h in
    (
      check_flags-fresh remote (insert f.name (peer_url f) m) n (next_check p f) fs f.name
          (peer_url f) rest (lookup-insert_self f.name (peer_url f) m),
      check_flags-Distinct remote (insert f.name (peer_url f) m) n (next_check p f) fs rest,
    )

check_flags-PortsDiffer :
    (m n : Map Text) (p : Text) (fs : List Flags)
    → p ≢ []
    → check_flags false m p fs ≡ ok n
    → All (λ g. port_key g ≢ p) fs
check_flags-PortsDiffer m n p [] ne h = tt
check_flags-PortsDiffer m n p (f ∷ fs) ne h =
    let (fresh, ports, rest) = check_flags-step false m n p f fs h in
    (
      ground (arith, ports),
      check_flags-PortsDiffer (insert f.name (peer_url f) m) n p fs ne (
          subst (λ q. check_flags false (insert f.name (peer_url f) m) q fs ≡ ok n)
            (ground (arith, same_iff p [])) rest),
    )

lookup-nil : (k : Text) → lookup {V = Text} k [] ≡ none
unfolding lookup
lookup-nil k = refl

Fresh-nil : (fs : List Flags) → Fresh [] fs
Fresh-nil [] = tt
Fresh-nil (f ∷ fs) = (lookup-nil f.name, Fresh-nil fs)

Fresh-insert :
    (m : Map Text) (k v : Text) (fs : List Flags)
    → Fresh m fs
    → All (λ g. g.name ≢ k) fs
    → Fresh (insert k v m) fs
Fresh-insert m k v [] h ne = tt
Fresh-insert m k v (f ∷ fs) h ne =
    (lookup-insert_ne k f.name v m (λ e. ne.0 (sym e)) ∙ h.0, Fresh-insert m k v fs h.1 ne.1)

-- With names that are new and ports that differ the loop succeeds.
check_flags-total :
    (remote : Bool) (m : Map Text) (p : Text) (fs : List Flags)
    → p ≢ []
    → Fresh m fs
    → Distinct fs
    → PortsDiffer remote p fs
    → (n : Map Text) × (check_flags remote m p fs ≡ ok n)
unfolding check_flags
check_flags-total remote m p [] ne fresh d ports = (m, refl)
check_flags-total remote m p (f ∷ fs) ne fresh d ports =
    let (n, e) =
      check_flags-total remote (insert f.name (peer_url f) m) p fs ne
        (Fresh-insert m f.name (peer_url f) fs fresh.1 d.0) d.1 (later ports) in
    (
      n,
      check_flags-pass remote m p f fs fresh.0 (inl (first ports))
          ∙ (subst (λ q. check_flags remote (insert f.name (peer_url f) m) q fs ≡ ok n)
              (ground (arith, same_iff p [])) e),
    )
  where
    later : PortsDiffer remote p (f ∷ fs) → PortsDiffer remote p fs
    later (inl r) = inl r
    later (inr a) = inr a.1

    first : PortsDiffer remote p (f ∷ fs) → PortsDiffer remote p (f ∷ [])
    first (inl r) = inl r
    first (inr a) = inr (a.0, tt)

pub combine_flags-parts :
    (token : Text) (remote : Bool) (fs gs : List Flags)
    → combine_flags token remote fs ≡ ok gs
    → (n : Map Text) × (check_flags remote [] [] fs ≡ ok n) × (gs ≡ set_cluster token n fs)
unfolding combine_flags
combine_flags-parts token remote fs gs h =
    let (n, e, k) = >>=-eq-ok (check_flags remote [] [] fs) _ h in (n, e, cc k)

check_all-PortsDiffer :
    (remote : Bool) (n : Map Text) (f : Flags) (fs : List Flags)
    → port_key f ≢ []
    → check_flags remote [] [] (f ∷ fs) ≡ ok n
    → PortsDiffer remote (port_key f) fs
unfolding same
check_all-PortsDiffer true n f fs ne h = inl refl
check_all-PortsDiffer false n f fs ne h =
    inr (check_flags-PortsDiffer _ n (port_key f) fs ne (check_flags-step false [] n [] f fs h).2)

-- CombineFlags accepts a cluster whose first node has ports exactly when no two names are equal and,
-- unless the nodes are remote, no later node has the ports of the first.
pub combine_flags_iff :
    (token : Text) (remote : Bool) (f : Flags) (fs : List Flags)
    → port_key f ≢ []
    → ((gs : List Flags) × (combine_flags token remote (f ∷ fs) ≡ ok gs))
      ↔ (Distinct (f ∷ fs) × PortsDiffer remote (port_key f) fs)
unfolding combine_flags same
combine_flags_iff token remote f fs ne = (sound, complete)
  where
    sound :
        ((gs : List Flags) × (combine_flags token remote (f ∷ fs) ≡ ok gs))
        → Distinct (f ∷ fs) × PortsDiffer remote (port_key f) fs
    sound (gs, h) =
        let (n, e, _) = combine_flags-parts token remote (f ∷ fs) gs h in
        (check_flags-Distinct remote [] n [] (f ∷ fs) e, check_all-PortsDiffer remote n f fs ne e)

    complete :
        Distinct (f ∷ fs) × PortsDiffer remote (port_key f) fs
        → (gs : List Flags) × (combine_flags token remote (f ∷ fs) ≡ ok gs)
    complete (d, ports) =
        let (n, e) =
          check_flags-total remote (insert f.name (peer_url f) []) (port_key f) fs ne
            (Fresh-insert [] f.name (peer_url f) fs (Fresh-nil fs) d.0) d.1 ports in
        (
          set_cluster token n (f ∷ fs),
          rw (check_flags-pass remote [] [] f fs (lookup-nil f.name) (inr refl) ∙ e),
        )

-- The flags of a node that was given a token and a map.
abbrev pub shared : Text → Map Text → Flags → Flags
shared token n f = record f { initial_cluster_token = token; initial_cluster = n }

-- When CombineFlags succeeds every node is given the same token and the same map, in which each
-- node's peer URLs stand under its name, and nothing else of the flags changes.
pub combine_flags-shares :
    (token : Text) (remote : Bool) (fs gs : List Flags)
    → combine_flags token remote fs ≡ ok gs
    → (n : Map Text) × (gs ≡ map (shared token n) fs)
      × All (λ f. lookup f.name n ≡ some (peer_url f)) fs
unfolding set_cluster
combine_flags-shares token remote fs gs h =
    let (n, e, k) = combine_flags-parts token remote fs gs h in
    (n, k, check_flags-covers remote [] n [] fs e)
