-- ===== src/Backend/Start/Turns/Granted.antt =====
-- startCluster (backend/backend.go) in any interleaving: a start that was granted leaves a cluster.
use etcd_play.Base.{
  ℕ, zero, suc, ◌≡◌, ◌≢◌, refl, sym, ◌∙◌, subst, List, ◌∷◌, Option, none, some, Bool, true, false,
  arith, Bool-cases, ◌⊎◌, ◌==◌, ==_iff, if◌then◌else◌, Option-cases, inl, inr,
}
use etcd_play.Base.Text.{Text}
use etcd_play.Base.Time.{ℤ, pos, negsuc}
use etcd_play.Base.Family.{update, update-cases}
use etcd_play.Base.Outcome.{
  Outcome, done, blocked, panicked, M, ◌>>=◌, pure, continue, IfReturns, returned_as,
}
use etcd_play.Proc.Error.{Result, ok, Result-cases}
use etcd_play.Proc.Flags.{Flags}
use etcd_play.Proc.Cluster.{Cluster, send_stream}
use etcd_play.Proc.Cluster
use etcd_play.Proc.Cluster.Control.{shutdown}
use etcd_play.Proc.Cluster.Create.{NodeType, OpOption, new_cluster}
use etcd_play.Backend.State.{App, GlobalFlags, on_cluster, after_cluster}
use etcd_play.Backend.Start.{node_type, make_flags, options, Ending, ending_message}
use etcd_play.Backend.Start.Generated.{cluster_flags-step}
use etcd_play.Backend.Start.Turns.{
  Pc, prepares, checks, stores, answered, turn, Rest, not_begun, selects, shuts, clears, cleared,
  left, rest_turn, begun, System, Step, pick, goes_on, Reach, here, later,
}

abbrev pub IsThere : Option Cluster → Type 0
IsThere c = c ≢ none

-- There is a cluster, or a goroutine has come to the end at which it takes the cluster away.
abbrev pub ThereUnlessEnded : App → (ℕ → Rest) → Type 0
ThereUnlessEnded a rest =
    IsThere a.cluster ⊎ ((a.flags.keep_alive ≡ false) × ((j : ℕ) × (rest j ≡ cleared)))

abbrev Holds : App → (ℕ → Rest) → Pc → Type 0
Holds a rest prepares = Unit
Holds a rest (checks c) = IsThere c
Holds a rest (stores c) = IsThere c
Holds a rest (answered none) = ThereUnlessEnded a rest
Holds a rest (answered (some e)) = Unit

-- The deferred function takes the cluster away only when `keepAlive` is off.
abbrev Mortal : GlobalFlags → Rest → Type 0
Mortal g not_begun = Unit
Mortal g selects = Unit
Mortal g left = Unit
Mortal g _ = g.keep_alive ≡ false

-- What no section of a start touches.
pub record Untouched (a b : App) : Type 0 where
  pub users : b.users ≡ a.users
  pub written : b.written ≡ a.written
  pub flags : b.flags ≡ a.flags
  pub unlocked : b.locked ≡ false

module _ (new_agent : Text → Result Text) (token : Text) (t : NodeType) (path : Text) where
  new_cluster-IsThere :
      (f : Flags) (fs : List Flags) (opts : List OpOption) (c : Option Cluster)
      → new_cluster new_agent token t path (f ∷ fs) opts ≡ ok c
      → IsThere c
  unfolding new_cluster
  new_cluster-IsThere f fs opts c e = ground arith

  made-IsThere :
      (eps : List Text) (size : ℤ) (prefix : ℕ) (opts : List OpOption) (fs : List Flags) (last : ℕ)
      (c : Option Cluster)
      → size ≢ pos 0
      → make_flags t eps size prefix ≡ some (fs, last)
      → new_cluster new_agent token t path fs opts ≡ ok c
      → IsThere c
  made-IsThere eps (negsuc n) prefix opts fs last c some_size e made = absurd cc
  made-IsThere eps (pos zero) prefix opts fs last c some_size e made = absurd (some_size refl)
  made-IsThere eps (pos (suc n)) prefix opts fs last c some_size e made =
      let (host, rest, eg, el) = cluster_flags-step t eps n 0 prefix fs last e in
      new_cluster-IsThere _ rest opts c
        (subst (λ gs. new_cluster new_agent token t path gs opts ≡ ok c) eg made)

-- What a section answers is good: a granted start leaves a cluster.
abbrev Granted : App → Pc → Type 0
Granted a prepares = Unit
Granted a (checks c) = IsThere c
Granted a (stores c) = IsThere c
Granted a (answered none) = IsThere a.cluster
Granted a (answered (some e)) = Unit

-- What the section is given: of an answer nothing.
abbrev Given : Pc → Type 0
Given (checks c) = IsThere c
Given (stores c) = IsThere c
Given _ = Unit

-- A section leaves `b` of `a` and comes to `p'`.
abbrev Moves : App → Pc → Pc → App → Type 0
Moves a p p' b = ((p' ≡ p) ⊎ Granted b p') × Untouched a b × (IsThere a.cluster → IsThere b.cluster)

turn-Moves :
    (new_agent : Text → Result Text) (token : Text) (p : Pc) (a : App)
    → a.locked ≡ false
    → a.flags.cluster_size ≢ pos 0
    → Given p
    → IfReturns (turn new_agent token p a) (Moves a p)
unfolding turn
turn-Moves new_agent token prepares a free some_nodes h =
    elim (Option-cases (make_flags t g.agent_endpoints g.cluster_size a.port_prefix)) [
      | inl e ↦ ground (arith, e)
      | inr ((fs, last), e) ↦
          elim (Result-cases (new_cluster new_agent token t g.etcd_binary fs (options g))) [
            | inl (x, e') ↦ ground (arith, e, e')
            | inr (c, e') ↦
                let there : IsThere c =
                  made-IsThere new_agent token t g.etcd_binary g.agent_endpoints g.cluster_size
                    a.port_prefix (options g) fs last c some_nodes e e' in
                ground (arith, e, e', there)
          ]
    ]
  where
    g : GlobalFlags
    g = a.flags

    t : NodeType
    t = node_type g
turn-Moves new_agent token (checks c) a free some_nodes h = ground arith
turn-Moves new_agent token (stores c) a free some_nodes h = ground arith
turn-Moves new_agent token (answered r) a free some_nodes h = (
  inl refl,
  record { users = refl; written = refl; flags = refl; unlocked = free },
  λ there. there,
)

-- A call of the cluster's methods leaves a cluster where there was one.
abbrev Calls : App → App → Type 0
Calls a b = Untouched a b × (IsThere a.cluster → IsThere b.cluster)

on_cluster-Calls :
    {A : Type 0} (m : M Cluster A) (a : App)
    → a.locked ≡ false
    → IfReturns (on_cluster m a) (λ x b. Calls a b)
unfolding on_cluster
on_cluster-Calls {A} m a free = called a.cluster
  where
    after : (r : Outcome Cluster A) → IfReturns (after_cluster a r) (λ x b. Calls a b)
    after (done x c') = (
      record { users = refl; written = refl; flags = refl; unlocked = free },
      λ h e. ground (arith, e),
    )
    after (blocked c') = tt
    after (panicked c') = tt

    called :
        (v : Option Cluster)
        → IfReturns
            (elim v as (λ _. Outcome App A) [ none ↦ panicked a | some c ↦ after_cluster a (m c) ])
            (λ x b. Calls a b)
    called none = tt
    called (some c) = after (m c)

-- A section after the answer leaves `b` of `a`, from the place `r` to the place `r'`.
abbrev GoesOn : App → Rest → Rest → App → Type 0
GoesOn a r r' b =
    Mortal b.flags r'
    × Untouched a b
    × (r ≡ cleared → r' ≡ cleared)
    × (IsThere a.cluster → IsThere b.cluster ⊎ (r' ≡ cleared))

called-GoesOn :
    {A : Type 0} (m : M Cluster A) (a : App) (r r' : Rest)
    → a.locked ≡ false
    → (r ≡ cleared → r' ≡ cleared)
    → Mortal a.flags r'
    → IfReturns ((do x ← on_cluster m; pure r') a) (GoesOn a r)
called-GoesOn {A} m a r r' free ends mortal = go (on_cluster m a) (on_cluster-Calls m a free)
  where
    go :
        (x : Outcome App A)
        → IfReturns x (λ y b. Calls a b)
        → IfReturns (continue x (λ y. pure r')) (GoesOn a r)
    go (done y b) (same, there) =
        (subst (λ g. Mortal g r') (sym same.flags) mortal, same, ends, (λ h. inl (there h)))
    go (blocked b) h = tt
    go (panicked b) h = tt

stays :
    (a : App) (r r' : Rest)
    → a.locked ≡ false
    → (r ≡ cleared → r' ≡ cleared)
    → Mortal a.flags r'
    → GoesOn a r r' a
stays a r r' free ends mortal = (
  mortal,
  record { users = refl; written = refl; flags = refl; unlocked = free },
  ends,
  (λ h. inl h),
)

after_select-Mortal : (g : GlobalFlags) → Mortal g (if g.keep_alive then left else shuts)
after_select-Mortal g = elim (Bool-cases g.keep_alive) [
  | inl kept ↦ rw kept tt
  | inr mortal ↦ rw mortal (ground (arith, mortal))
]

rest_turn-GoesOn :
    (o : Cluster.Outside) (id : Text) (ending : Ending) (held : Bool) (r : Rest) (a : App)
    → a.locked ≡ false
    → Mortal a.flags r
    → IfReturns (rest_turn o id ending held r a) (GoesOn a r)
unfolding rest_turn
rest_turn-GoesOn o id ending held not_begun a free h = stays a not_begun not_begun free (λ e. e) tt
rest_turn-GoesOn o id ending false selects a free h =
    stays a selects _ free (λ e. cc) (after_select-Mortal a.flags)
rest_turn-GoesOn o id ending true selects a free h =
    elim (Option-cases (ending_message a.flags ending)) [
      | inl silent ↦ rw silent (stays a selects _ free (λ e. cc) (after_select-Mortal a.flags))
      | inr (m, says) ↦ rw says (
          called-GoesOn (send_stream id m) a selects _ free (λ e. cc) (after_select-Mortal a.flags))
    ]
rest_turn-GoesOn o id ending false shuts a free h = stays a shuts clears free (λ e. cc) h
rest_turn-GoesOn o id ending true shuts a free h =
    called-GoesOn (shutdown o) a shuts clears free (λ e. cc) h
rest_turn-GoesOn o id ending held clears a free h = ground (arith, h, free)
rest_turn-GoesOn o id ending held cleared a free h = stays a cleared cleared free (λ e. e) h
rest_turn-GoesOn o id ending held left a free h = stays a left left free (λ e. e) tt

-- One member of a family changes: what has come to its end stays there.
kept-cleared :
    (f : ℕ → Rest) (i : ℕ) (r : Rest) (j : ℕ)
    → (f i ≡ cleared → r ≡ cleared)
    → f j ≡ cleared
    → update f i r j ≡ cleared
kept-cleared f i r j h e = elim (Bool-cases (i == j)) [
  | inl eq ↦ let q : j ≡ i = sym ((==_iff i j).0 eq) in rw eq (h (subst (λ k. f k ≡ cleared) q e))
  | inr ne ↦ rw ne e
]

update_self : (f : ℕ → Rest) (i : ℕ) (r : Rest) → update f i r i ≡ r
update_self f i r = rw ((==_iff i i).1 refl) refl

begun-cleared : (p p' : Pc) (r : Rest) → r ≡ cleared → begun p p' r ≡ cleared
begun-cleared p p' r e = subst (λ x. begun p p' x ≡ cleared) (sym e) (go p p')
  where
    go : (p p' : Pc) → begun p p' cleared ≡ cleared
    go (stores c) (answered none) = refl
    go (stores c) (answered (some e)) = refl
    go (stores c) prepares = refl
    go (stores c) (checks d) = refl
    go (stores c) (stores d) = refl
    go prepares p' = refl
    go (checks c) p' = refl
    go (answered r) p' = refl

begun-Mortal : (g : GlobalFlags) (p p' : Pc) (r : Rest) → Mortal g r → Mortal g (begun p p' r)
begun-Mortal g (stores c) (answered none) not_begun h = tt
begun-Mortal g (stores c) (answered none) selects h = h
begun-Mortal g (stores c) (answered none) shuts h = h
begun-Mortal g (stores c) (answered none) clears h = h
begun-Mortal g (stores c) (answered none) cleared h = h
begun-Mortal g (stores c) (answered none) left h = h
begun-Mortal g (stores c) (answered (some e)) r h = h
begun-Mortal g (stores c) prepares r h = h
begun-Mortal g (stores c) (checks d) r h = h
begun-Mortal g (stores c) (stores d) r h = h
begun-Mortal g prepares p' r h = h
begun-Mortal g (checks c) p' r h = h
begun-Mortal g (answered x) p' r h = h

-- What holds in every reachable state.
record Sound (s t : System) : Type 0 where
  untouched : Untouched s.app t.app
  places : (i : ℕ) → Holds t.app t.rest (t.pc i)
  mortals : (i : ℕ) → Mortal t.app.flags (t.rest i)

Untouched-trans : {a b c : App} → Untouched a b → Untouched b c → Untouched a c
Untouched-trans u v = record {
  users = v.users ∙ u.users;
  written = v.written ∙ u.written;
  flags = v.flags ∙ u.flags;
  unlocked = v.unlocked;
}

-- A place's fact outlasts the sections of others.
Holds-later :
    (a b : App) (rest rest' : ℕ → Rest) (q : Pc)
    → (ThereUnlessEnded a rest → ThereUnlessEnded b rest')
    → Holds a rest q
    → Holds b rest' q
Holds-later a b rest rest' prepares f h = tt
Holds-later a b rest rest' (checks c) f h = h
Holds-later a b rest rest' (stores c) f h = h
Holds-later a b rest rest' (answered none) f h = f h
Holds-later a b rest rest' (answered (some e)) f h = tt

Granted-Holds : (a : App) (rest : ℕ → Rest) (p : Pc) → Granted a p → Holds a rest p
Granted-Holds a rest prepares h = tt
Granted-Holds a rest (checks c) h = h
Granted-Holds a rest (stores c) h = h
Granted-Holds a rest (answered none) h = inl h
Granted-Holds a rest (answered (some e)) h = tt

Holds-Given : (a : App) (rest : ℕ → Rest) (p : Pc) → Holds a rest p → Given p
Holds-Given a rest prepares h = tt
Holds-Given a rest (checks c) h = h
Holds-Given a rest (stores c) h = h
Holds-Given a rest (answered r) h = tt

module _ {s : System} (some_nodes : s.app.flags.cluster_size ≢ pos 0) where
  pick-Sound :
      {t : System} (i : ℕ) (p : Pc) (a : App)
      → Sound s t
      → Moves t.app (t.pc i) p a
      → Sound s (record {
        app = a;
        pc = update t.pc i p;
        rest = update t.rest i (begun (t.pc i) p (t.rest i));
      })
  pick-Sound {t} i p a h (moved, same, there) = record {
    untouched = Untouched-trans h.untouched same;
    places = λ j.
        update-cases (Holds a rest') t.pc i p j (mine moved)
          (Holds-later t.app a t.rest rest' (t.pc j) still (h.places j));
    mortals = λ j.
        subst (λ g. Mortal g (rest' j)) (sym same.flags)
          (update-cases (Mortal t.app.flags) t.rest i (begun (t.pc i) p (t.rest i)) j
            (begun-Mortal t.app.flags (t.pc i) p (t.rest i) (h.mortals i)) (h.mortals j));
  }
    where
      rest' : ℕ → Rest
      rest' = update t.rest i (begun (t.pc i) p (t.rest i))

      still : ThereUnlessEnded t.app t.rest → ThereUnlessEnded a rest'
      still (inl c) = inl (there c)
      still (inr (mortal, (j, e))) = inr (
        subst (λ g. g.keep_alive ≡ false) (sym same.flags) mortal,
        (
          j,
          kept-cleared t.rest i (begun (t.pc i) p (t.rest i)) j
              (begun-cleared (t.pc i) p (t.rest i)) e,
        ),
      )

      mine : (p ≡ t.pc i) ⊎ Granted a p → Holds a rest' p
      mine (inl stayed) =
          subst (Holds a rest') (sym stayed)
            (Holds-later t.app a t.rest rest' (t.pc i) still (h.places i))
      mine (inr granted) = Granted-Holds a rest' p granted

  goes_on-Sound :
      {t : System} (i : ℕ) (r : Rest) (a : App)
      → Sound s t
      → GoesOn t.app (t.rest i) r a
      → Sound s (record { app = a; pc = t.pc; rest = update t.rest i r })
  goes_on-Sound {t} i r a h (mortal, same, ends, there) = record {
    untouched = Untouched-trans h.untouched same;
    places = λ j. Holds-later t.app a t.rest rest' (t.pc j) still (h.places j);
    mortals = λ j.
        update-cases (Mortal a.flags) t.rest i r j mortal
          (subst (λ g. Mortal g (t.rest j)) (sym same.flags) (h.mortals j));
  }
    where
      rest' : ℕ → Rest
      rest' = update t.rest i r

      now : IsThere a.cluster ⊎ (r ≡ cleared) → ThereUnlessEnded a rest'
      now (inl c) = inl c
      now (inr e) = inr (subst (Mortal a.flags) e mortal, (i, update_self t.rest i r ∙ e))

      still : ThereUnlessEnded t.app t.rest → ThereUnlessEnded a rest'
      still (inl c) = now (there c)
      still (inr (mortal', (j, e))) = inr (
        subst (λ g. g.keep_alive ≡ false) (sym same.flags) mortal',
        (j, kept-cleared t.rest i r j ends e),
      )

  Step-Sound : {t u : System} → Sound s t → Step t u → Sound s u
  Step-Sound {t} h (pick i new_agent token p a e) = pick-Sound i p a h (
      returned_as (Moves t.app (t.pc i))
        (turn-Moves new_agent token (t.pc i) t.app h.untouched.unlocked
          (subst (λ g. g.cluster_size ≢ pos 0) (sym h.untouched.flags) some_nodes)
          (Holds-Given t.app t.rest (t.pc i) (h.places i)))
        e)
  Step-Sound {t} h (goes_on i o id ending held r a e) = goes_on-Sound i r a h (
      returned_as (GoesOn t.app (t.rest i))
        (rest_turn-GoesOn o id ending held (t.rest i) t.app h.untouched.unlocked (h.mortals i)) e)

  Reach-Sound : {t : System} → Sound s s → Reach s t → Sound s t
  Reach-Sound h here = h
  Reach-Sound h (later r st) = Step-Sound (Reach-Sound h r) st

-- Requests that have not begun, with the mutex free.
pub record Begins (s : System) : Type 0 where
  pub free : s.app.locked ≡ false
  pub requested : (i : ℕ) → s.pc i ≡ prepares
  pub resting : (i : ℕ) → s.rest i ≡ not_begun

first : (s : System) → Begins s → Sound s s
first s b = record {
  untouched = record { users = refl; written = refl; flags = refl; unlocked = b.free };
  places = λ j. subst (Holds s.app s.rest) (sym (b.requested j)) tt;
  mortals = λ j. subst (Mortal s.app.flags) (sym (b.resting j)) tt;
}

-- In every state that requests to start a cluster of a size other than 0 reach, in any order of the
-- critical sections of startCluster, up to the answer and after it, from a free mutex: once a request is
-- answered without an error there is a cluster, unless `keepAlive` is off and a startCluster has come
-- to the end at which it takes the cluster away; the mutex is free, and the users, the written answers
-- and the flags are as they were.
pub starts-Granted :
    {s t : System}
    → Begins s
    → s.app.flags.cluster_size ≢ pos 0
    → Reach s t
    → (i : ℕ) → t.pc i ≡ answered none
    → ThereUnlessEnded t.app t.rest × Untouched s.app t.app
starts-Granted {s} {t} b some_nodes r i e =
    let sound : Sound s t = Reach-Sound some_nodes (first s b) r in
    (subst (Holds t.app t.rest) e (sound.places i), sound.untouched)
