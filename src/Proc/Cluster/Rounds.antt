-- ===== src/Proc/Cluster/Rounds.antt =====
-- The loops of Revive and Bootstrap (proc/proc_cluster.go) over all nodes: a method that succeeds on
-- each node leaves every node running.
use etcd_play.Base.{
  ℕ, ◌+◌, ◌≤◌, ◌≡◌, ◌≢◌, refl, sym, ap, ◌∙◌, subst, true, false, List, [], ◌∷◌, Option, none, some,
  length, All, Apart, arith,
}
use etcd_play.Base.Text.{Text}
use etcd_play.Base.Map.{lookup}
use etcd_play.Base.Outcome.{Outcome, done, blocked, panicked, M, Keeps, Returns, state_of}
use etcd_play.Proc.Error.{Error}
use etcd_play.Proc.Node.Local.{stream_cap}
use etcd_play.Proc.Cluster.{Cluster, Node}
use etcd_play.Proc.Cluster.Control.{each, found_one}
use etcd_play.Proc.Cluster.Lookup.{Holds}
use etcd_play.Proc.Cluster.Revive.{runs}

-- A call that returns does so with a value and a state.
pub returned :
    {S A : Type 0} (r : Outcome S A) {P : A → S → Type 0}
    → Returns r P
    → (a : A) × (s : S) × (r ≡ done a s) × P a s
returned (done a s) h = (a, s, refl, h)
returned (blocked s) h = absurd h
returned (panicked s) h = absurd h

-- There is a node of the name, and it satisfies `P`.
abbrev pub HasIn : (Text → Node → Type 0) → Cluster → Text → Type 0
HasIn P c name = (nd : Node) × Holds name (some nd) c × P name nd

abbrev pub IsUp : Text → Node → Type 0
IsUp name nd = runs nd ≡ true

pub found_one-Keeps :
    (P : Cluster → Type 0) (method : Text → Node → M Cluster (Option Error)) (n : Text)
    → ((nd : Node) → Keeps P (method n nd))
    → (v : Option Node) → Keeps P (found_one method n v)
found_one-Keeps P method n k none c p = p
found_one-Keeps P method n k (some nd) c p = k nd c p

abbrev pub Method : Type 0
Method = Text → Node → M Cluster (Option Error)

-- Each node's part of a loop: with room for `k` lines it returns `fine`, and the node of the name
-- satisfies `Q` then.
abbrev pub Succeeds :
    {A : Type 0} → (Text → Node → Type 0) → ℕ → M Cluster A → A → Text → Cluster → Type 0
Succeeds Q k one fine name c =
    (c' : Cluster) × (one c ≡ done fine c')
    × (c'.shared.locked ≡ false)
    × (length c'.shared.stream ≤ length c.shared.stream + k)
    × HasIn Q c' name

abbrev pub Part : (Text → Node → Type 0) → Text → Cluster → ℕ → Type 0
Part P name c k =
    (c.shared.locked ≡ false) × (length c.shared.stream + k ≤ stream_cap) × HasIn P c name

-- A method that succeeds on the node of the name.
pub each-Succeeds :
    (Q : Text → Node → Type 0) (k : ℕ) (method : Method) (name : Text) (nd : Node) (c : Cluster)
    → Holds name (some nd) c
    → Succeeds Q k (method name nd) none name c
    → Succeeds Q k (each method name) none name c
each-Succeeds Q k method name nd c holds (c', ran, free, grown, has) =
    (c', ap (λ v. found_one method name v c) holds ∙ ran, free, grown, has)

pub each-Keeps :
    (method : Method) (name j : Text) (v : Option Node)
    → ((nd : Node) → Keeps (Holds j v) (method name nd))
    → Keeps (Holds j v) (each method name)
each-Keeps method name j v keeps c h =
    found_one-Keeps (Holds j v) method name keeps (lookup name c.name_to_node) c h

-- How many lines a loop writes at most.
abbrev pub room_for : ℕ → List Text → ℕ
room_for k [] = 0
room_for k (name ∷ names) = k + room_for k names

pub room_for-one : (names : List Text) → room_for 1 names ≡ length names
room_for-one [] = refl
room_for-one (name ∷ names) = omega (arith, room_for-one names)

pub room_for-two : (names : List Text) → room_for 2 names ≡ length names + length names
room_for-two [] = omega arith
room_for-two (name ∷ names) = omega (arith, room_for-two names)

module _ {A : Type 0} (P Q : Text → Node → Type 0) (k : ℕ) (one : Text → M Cluster A) (fine : A)
    (loop : List Text → M Cluster A)
    (keeps : (name j : Text) (v : Option Node) → name ≢ j → Keeps (Holds j v) (one name))
    (succeeds : (name : Text) (c : Cluster) → Part P name c k → Succeeds Q k (one name) fine name c)
    (loop-nil : (c : Cluster) → loop [] c ≡ done fine c)
    (loop-cons : (name : Text) (names : List Text) (c c' : Cluster)
      → one name c ≡ done fine c'
      → loop (name ∷ names) c ≡ loop names c') where
  -- What a part leaves under another name.
  others_kept :
      (name j : Text) (v : Option Node) (c c' : Cluster)
      → name ≢ j
      → one name c ≡ done fine c'
      → Holds j v c
      → Holds j v c'
  others_kept name j v c c' ne ran h =
      subst (λ r. Holds j v (state_of r)) ran (keeps name j v ne c h)

  waiting_kept :
      (name : Text) (c c' : Cluster) (names : List Text)
      → one name c ≡ done fine c'
      → All (λ m. name ≢ m) names
      → All (HasIn P c) names
      → All (HasIn P c') names
  waiting_kept name c c' [] ran ne h = tt
  waiting_kept name c c' (j ∷ names) ran ne ((nd, holds, waits), rest) = (
    (nd, others_kept name j (some nd) c c' ne.0 ran holds, waits),
    waiting_kept name c c' names ran ne.1 rest,
  )

  pub loop-runs :
      (names : List Text) (c : Cluster)
      → Apart names
      → c.shared.locked ≡ false
      → length c.shared.stream + room_for k names ≤ stream_cap
      → All (HasIn P c) names
      → (c' : Cluster) × (loop names c ≡ done fine c')
        × All (HasIn Q c') names
        × ((j : Text) (v : Option Node) → All (λ m. j ≢ m) names → Holds j v c → Holds j v c')
  loop-runs [] c apart free room h = (c, loop-nil c, tt, (λ j v ne h. h))
  loop-runs (name ∷ names) c (apart, aparts) free room (here, rest) =
      let (c', ran, free', grown, (nd, holds, done_so)) =
        succeeds name c (free, omega (arith, room), here) in
      let (c'', all_ran, all_done, kept) =
        loop-runs names c' aparts free' (omega (arith, room, grown))
          (waiting_kept name c c' names ran apart rest) in
      (
        c'',
        loop-cons name names c c' ran ∙ all_ran,
        ((nd, kept name (some nd) apart holds, done_so), all_done),
        (λ j v ne h. kept j v ne.1 (others_kept name j v c c' (λ e. ne.0 (sym e)) ran h)),
      )
