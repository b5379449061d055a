-- ===== src/Backend/Router/Buttons.antt =====
-- The buttons of the web page (backend/backend.go): what killing or restarting the node of a path does
-- to the cluster.
use etcd_play.Base.{ℕ, ◌+◌, ◌<◌, ◌≡◌, ◌≢◌, ◌∙◌, subst, sym, ◌++◌, true, false, Option, some, arith}
use etcd_play.Base.Text.{Text, codes}
use etcd_play.Base.Text.Laws.{same_iff}
use etcd_play.Base.Decimal.{decimal}
use etcd_play.Base.Map.{lookup, lookup-insert_self, lookup-insert_ne}
use etcd_play.Base.Outcome.{Outcome, done, blocked, panicked, Returns}
use etcd_play.Proc.Error.{Error}
use etcd_play.Proc.Node.{Life, Readings, spec_restart, spec_terminate}
use etcd_play.Proc.Node.Local
use etcd_play.Proc.Node.Local.{NodeWebLocal, World, existing}
use etcd_play.Proc.Node.Refines.{Ready, LocalDoes, launch, local_life, local_node_refines}
use etcd_play.Proc.Cluster
use etcd_play.Proc.Cluster.{
  Cluster, local, after_local, put_world, node_terminate, node_restart, on_local,
}
use etcd_play.Proc.Cluster.Control
use etcd_play.Proc.Cluster.Rounds.{returned}
use etcd_play.Backend.State.{App, Request, UserData, on_cluster}
use etcd_play.Backend.Cache.{count_request}
use etcd_play.Backend.UserId.{url_to_name}
use etcd_play.Backend.Start.{node_name}
use etcd_play.Backend.Handlers.Control.{kill_handler, restart_handler}
use etcd_play.Backend.Router.{Outside, handle, route, to_kill, to_restart}
use etcd_play.Backend.Router.Named.{route-node_name}

-- A GET of a user who may ask, with the mutex free and a cluster there.
pub record Admitted (id : Text) (now : Readings) (r : Request) (c : Cluster) (a : App)
    : Type 0 where
  pub free : a.locked ≡ false
  pub there : a.cluster ≡ some c
  pub get : r.method ≡ codes "GET"
  pub user : UserData
  pub known : lookup id a.users ≡ some user
  pub allowed : (count_request now user).1 ≡ true

-- The handler ends with the method's error, and leaves its cluster, with the mutex free.
abbrev Passes : Option Error → Cluster → Option Error → App → Type 0
Passes e c e' b = (e' ≡ e) × (b.cluster ≡ some c) × (b.locked ≡ false)

module _ (o : Cluster.Outside) (id : Text) (now : Readings) (r : Request) (c : Cluster) (a : App)
    (h : Admitted id now r c a) (e : Option Error) (c' : Cluster) where
  kill_handler-Passes :
      Control.terminate o (url_to_name r.url) c ≡ done e c'
      → Returns (kill_handler o id now r a) (Passes e c')
  unfolding kill_handler on_cluster
  kill_handler-Passes ran =
      ground
        (arith, same_iff r.method (codes "GET"), h.free, h.there, h.get, h.known, h.allowed, ran)

  restart_handler-Passes :
      Control.restart o (url_to_name r.url) c ≡ done e c'
      → Returns (restart_handler o id now r a) (Passes e c')
  unfolding restart_handler on_cluster
  restart_handler-Passes ran =
      ground
        (arith, same_iff r.method (codes "GET"), h.free, h.there, h.get, h.known, h.allowed, ran)

module _ (o : Cluster.Outside) (name : Text) (nd : NodeWebLocal) (c : Cluster)
    (free : c.shared.locked ≡ false) (found : lookup name c.name_to_node ≡ some (local nd))
    (e : Option Error) (w : World) where
  abbrev before : World
  before = record { node = nd; shared = c.shared }

  terminate-local :
      Local.terminate (o.of_local name) before ≡ done e w
      → Control.terminate o name c ≡ done e (put_world name w c)
  unfolding Control.terminate node_terminate on_local
  terminate-local ran = ground (arith, free, found, ran)

  restart-local :
      Local.restart (o.of_local name) before ≡ done e w
      → Control.restart o name c ≡ done e (put_world name w c)
  unfolding Control.restart node_restart on_local
  restart-local ran = ground (arith, free, found, ran)

-- The request ends with the error of `spec`; the node of the name is left with the life of `spec`, the
-- other nodes as they were, and the mutexes are free.
abbrev pub Pressed : Text → Cluster → Option Error × Life → Option Error → App → Type 0
Pressed name c spec e b =
    (e ≡ spec.0)
    × (b.locked ≡ false)
    × ((c' : Cluster) × (b.cluster ≡ some c')
        × (c'.shared.locked ≡ false)
        × ((nd : NodeWebLocal) × (lookup name c'.name_to_node ≡ some (local nd))
            × (local_life nd ≡ spec.1))
        × ((k : Text) → name ≢ k → lookup k c'.name_to_node ≡ lookup k c.name_to_node))

-- A cluster with such a node, in which nothing waits.
pub record Stands (name : Text) (nd : NodeWebLocal) (c : Cluster) : Type 0 where
  pub found : lookup name c.name_to_node ≡ some (local nd)
  pub ready : Ready (record { node = nd; shared = c.shared })

Passes-Pressed :
    (name : Text) (c : Cluster) (spec : Option Error × Life) (e : Option Error) (w : World)
    (e' : Option Error) (b : App)
    → LocalDoes spec e w
    → Passes e (put_world name w c) e' b
    → Pressed name c spec e' b
Passes-Pressed name c spec e w e' b (eq, life, free) (same_error, left, unlocked) = (
  same_error ∙ eq,
  unlocked,
  (
    put_world name w c,
    left,
    free,
    (w.node, lookup-insert_self name (local w.node) c.name_to_node, life),
    (λ k other. lookup-insert_ne name k (local w.node) c.name_to_node other),
  ),
)

Returns-map :
    {S A : Type 0} {P Q : A → S → Type 0} (r : Outcome S A)
    → ((x : A) (s : S) → P x s → Q x s)
    → Returns r P
    → Returns r Q
Returns-map (done x s) f h = f x s h
Returns-map (blocked s) f h = h
Returns-map (panicked s) f h = h

module _ (o : Outside) (id : Text) (r : Request) (c : Cluster) (a : App) (nd : NodeWebLocal) where
  kill-Pressed :
      (name : Text)
      → url_to_name r.url ≡ name
      → Admitted id o.now r c a
      → Stands name nd c
      → let l : Local.Outside = o.nodes.of_local name in
        Returns (handle o id r to_kill a) (
          Pressed name c
            (spec_terminate nd.flags.name nd.limit_interval l.now (l.kill nd.pid) (local_life nd)))
  unfolding handle
  kill-Pressed name url h s =
      let l : Local.Outside = o.nodes.of_local name in
      let w : World = record { node = nd; shared = c.shared } in
      let (e, w', ran, does) = returned (Local.terminate l w) (local_node_refines l w s.ready).2 in
      let passes = kill_handler-Passes o.nodes id o.now r c a h e (put_world name w' c) (
        subst (λ n. Control.terminate o.nodes n c ≡ done e (put_world name w' c)) (sym url)
          (terminate-local o.nodes name nd c s.ready.free s.found e w' ran)) in
      Returns-map (kill_handler o.nodes id o.now r a)
        (λ e' b. Passes-Pressed name c _ e w' e' b does) passes

  restart-Pressed :
      (name : Text)
      → url_to_name r.url ≡ name
      → Admitted id o.now r c a
      → Stands name nd c
      → let l : Local.Outside = o.nodes.of_local name in
        Returns (handle o id r to_restart a) (
          Pressed name c (
            spec_restart nd.flags.name nd.limit_interval l.now
              (launch l (existing nd))
              (local_life nd)))
  unfolding handle
  restart-Pressed name url h s =
      let l : Local.Outside = o.nodes.of_local name in
      let w : World = record { node = nd; shared = c.shared } in
      let (e, w', ran, does) = returned (Local.restart l w) (local_node_refines l w s.ready).1 in
      let passes = restart_handler-Passes o.nodes id o.now r c a h e (put_world name w' c) (
        subst (λ n. Control.restart o.nodes n c ≡ done e (put_world name w' c)) (sym url)
          (restart-local o.nodes name nd c s.ready.free s.found e w' ran)) in
      Returns-map (restart_handler o.nodes id o.now r a)
        (λ e' b. Passes-Pressed name c _ e w' e' b does) passes

abbrev pub at_path : Text → Request → Request
at_path p r = record r { url = p }

Admitted-at :
    {id : Text} {now : Readings} {r : Request} {c : Cluster} {a : App} (p : Text)
    → Admitted id now r c a
    → Admitted id now (at_path p r) c a
Admitted-at p h = record {
  free = h.free;
  there = h.there;
  get = h.get;
  user = h.user;
  known = h.known;
  allowed = h.allowed;
}

abbrev pub kill_path : ℕ → Text
kill_path j = codes "/kill_" ++ decimal (j + 1)

abbrev pub restart_path : ℕ → Text
restart_path j = codes "/restart_" ++ decimal (j + 1)

-- A GET of /kill_1 to /kill_5 or /restart_1 to /restart_5 by a user who may ask, when the mutex is free
-- and the node of that number, etcd1 to etcd5, is a local one that is ready, is handled by killHandler
-- or restartHandler. It ends with the error and leaves the node with the life that spec_terminate or
-- spec_restart gives for the answer of the kill or of the shell; the nodes of other names stay as they
-- are, and the mutexes are free again.
pub buttons-Pressed :
    (o : Outside) (id : Text) (r : Request) (c : Cluster) (a : App) (nd : NodeWebLocal) (j : ℕ)
    → j < 5
    → Admitted id o.now r c a
    → Stands (node_name j) nd c
    → let name : Text = node_name j in
      let l : Local.Outside = o.nodes.of_local name in
      (route (kill_path j) ≡ some to_kill)
      × Returns (handle o id (at_path (kill_path j) r) to_kill a) (
          Pressed name c
            (spec_terminate nd.flags.name nd.limit_interval l.now (l.kill nd.pid) (local_life nd)))
      × (route (restart_path j) ≡ some to_restart)
      × Returns (handle o id (at_path (restart_path j) r) to_restart a) (
          Pressed name c (
            spec_restart nd.flags.name nd.limit_interval l.now
              (launch l (existing nd))
              (local_life nd)))
buttons-Pressed o id r c a nd j small h s =
    let (to_k, to_r, k_name, r_name) = route-node_name j small in
    (
      to_k,
      kill-Pressed o id (at_path (kill_path j) r) c a nd (node_name j) k_name
          (Admitted-at (kill_path j) h) s,
      to_r,
      restart-Pressed o id (at_path (restart_path j) r) c a nd (node_name j) r_name
          (Admitted-at (restart_path j) h) s,
    )
