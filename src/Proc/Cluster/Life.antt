-- ===== src/Proc/Cluster/Life.antt =====
-- Shutdown (proc/proc_cluster.go) and the rate limit of the nodes.
use etcd_play.Base.{
  ℕ, ◌+◌, ◌<◌, ◌≤◌, ◌≡◌, ◌≢◌, sym, ◌∙◌, true, false, List, [], ◌∷◌, Option, some, arith, subst,
  Bool-cases, inl, inr,
}
use etcd_play.Base.Text.{Text, same}
use etcd_play.Base.Text.Laws.{same_iff}
use etcd_play.Base.Time.{pos, max_duration, since_lt_iff}
use etcd_play.Base.Map.{lookup, lookup-insert_self, keys}
use etcd_play.Base.Outcome.{Outcome, done, blocked, panicked, M, state_of, Keeps, >>=-Keeps}
use etcd_play.Proc.Error.{Error}
use etcd_play.Proc.Node.Local.{NodeWebLocal, World}
use etcd_play.Proc.Node.Local
use etcd_play.Proc.Cluster.{Cluster, Node, local, Outside, after_local, node_terminate, node_clean}
use etcd_play.Proc.Cluster.Control.{found_one, each, shutdown_all, shutdown}
use etcd_play.Proc.Cluster.Rounds.{found_one-Keeps}
use etcd_play.Proc.Cluster.Lookup.{Holds, node_terminate-Keeps, node_clean-Keeps}

-- A node that runs and was restarted at `t`.
abbrev RunsSince : ℕ → ℕ → NodeWebLocal → Type 0
RunsSince limit t nd =
    (nd.active ≡ true) × (nd.last_restarted ≡ t) × (nd.limit_interval ≡ pos limit)

terminate-RunsSince :
    (o : Local.Outside) (limit t : ℕ) (w : World)
    → limit ≤ max_duration
    → o.now.second < t + limit
    → RunsSince limit t w.node
    → RunsSince limit t (state_of (Local.terminate o w)).node
unfolding Local.terminate
terminate-RunsSince o limit t w fits soon r =
    ground (arith, (since_lt_iff o.now.second t limit fits).1)

clean-RunsSince :
    (o : Local.Outside) (limit t : ℕ) (w : World)
    → RunsSince limit t w.node
    → RunsSince limit t (state_of (Local.clean o w)).node
unfolding Local.clean
clean-RunsSince o limit t w r = ground arith

-- A cluster whose node of that name does so.
abbrev pub Runs : Text → ℕ → ℕ → Cluster → Type 0
Runs name limit t c = (nd : NodeWebLocal) × Holds name (some (local nd)) c × RunsSince limit t nd

after_local-Runs :
    {A : Type 0} (name : Text) (limit t : ℕ) (c : Cluster) (r : Outcome World A)
    → RunsSince limit t (state_of r).node
    → Runs name limit t (state_of (after_local name c r))
after_local-Runs name limit t c (done a w) h = (w.node, lookup-insert_self name _ _, h)
after_local-Runs name limit t c (blocked w) h = (w.node, lookup-insert_self name _ _, h)
after_local-Runs name limit t c (panicked w) h = (w.node, lookup-insert_self name _ _, h)

each-Runs-found :
    (method : Text → Node → M Cluster (Option Error)) (name n : Text) (limit t : ℕ) (c : Cluster)
    → (n ≢ name → (nd : Node) (v : Option Node) → Keeps (Holds name v) (method n nd))
    → ((nd : NodeWebLocal) (c : Cluster)
        → RunsSince limit t nd
        → Runs name limit t (state_of (method name (local nd) c)))
    → Runs name limit t c
    → Runs name limit t (state_of (found_one method n (lookup n c.name_to_node) c))
each-Runs-found method name n limit t c others own (nd, e, r) = elim (Bool-cases (same n name)) [
  | inl eq ↦
      subst (λ k. Runs name limit t (state_of (found_one method k (lookup k c.name_to_node) c)))
        (sym ((same_iff n name).0 eq)) (rw e (own nd c r))
  | inr ne ↦ (
    nd,
    found_one-Keeps (Holds name (some (local nd))) method n
        (λ nd'. others (λ q. no (sym ((same_iff n name).1 q) ∙ ne)) nd' (some (local nd)))
        (lookup n c.name_to_node) c e,
    r,
  )
]
  where
    no : true ≡ false → ⊥
    no q = cc

each-Runs :
    (method : Text → Node → M Cluster (Option Error)) (name n : Text) (limit t : ℕ)
    → (n ≢ name → (nd : Node) (v : Option Node) → Keeps (Holds name v) (method n nd))
    → ((nd : NodeWebLocal) (c : Cluster)
        → RunsSince limit t nd
        → Runs name limit t (state_of (method name (local nd) c)))
    → Keeps (Runs name limit t) (each method n)
each-Runs method name n limit t others own c h =
    each-Runs-found method name n limit t c others own h

module _ (o : Outside) (name : Text) (limit t : ℕ) (fits : limit ≤ max_duration)
    (soon : (o.of_local name).now.second < t + limit) where
  terminate_all-Runs : (n : Text) → Keeps (Runs name limit t) (each (node_terminate o) n)
  unfolding node_terminate
  terminate_all-Runs n =
      each-Runs (node_terminate o) name n limit t (λ ne nd v. node_terminate-Keeps o n name v ne nd)
        (λ nd c r. after_local-Runs name limit t c _ (
          terminate-RunsSince (o.of_local name) limit t (record { node = nd; shared = c.shared })
            fits soon r))

  clean_all-Runs : (n : Text) → Keeps (Runs name limit t) (each (node_clean o) n)
  unfolding node_clean
  clean_all-Runs n =
      each-Runs (node_clean o) name n limit t (λ ne nd v. node_clean-Keeps o n name v ne nd)
        (λ nd c r.
          after_local-Runs name limit t c _
            (clean-RunsSince (o.of_local name) limit t (record { node = nd; shared = c.shared }) r))

  shutdown_all-Runs : (names : List Text) → Keeps (Runs name limit t) (shutdown_all o names)
  unfolding shutdown_all
  shutdown_all-Runs [] c h = h
  shutdown_all-Runs (n ∷ ns) c h =
      >>=-Keeps (Runs name limit t) (each (node_terminate o) n) _ (terminate_all-Runs n)
        (λ e.
          >>=-Keeps (Runs name limit t) (each (node_clean o) n) _ (clean_all-Runs n)
            (λ e'. shutdown_all-Runs ns))
        c h

-- A local node that was restarted less than the limit ago still runs after Shutdown, however that
-- ends: its Terminate is refused.
pub shutdown_spares_restarted :
    (o : Outside) (name : Text) (limit t : ℕ) (c : Cluster)
    → limit ≤ max_duration
    → (o.of_local name).now.second < t + limit
    → Runs name limit t c
    → Runs name limit t (state_of (shutdown o c))
unfolding shutdown
shutdown_spares_restarted o name limit t c fits soon h =
    >>=-Keeps (Runs name limit t) (shutdown_all o (keys c.name_to_node)) _
      (shutdown_all-Runs o name limit t fits soon (keys c.name_to_node)) (λ e c' h'. h') c h
