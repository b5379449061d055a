-- ===== src/Backend/Start/Turns.antt =====
-- backend/backend.go: startCluster one critical section at a time. clusterActive gives the mutex back
-- before the cluster is stored, so starts that several users request take turns there.
pub mod Sequential
pub mod Granted
pub mod Overlap
use etcd_play.Base.{ℕ, ◌≡◌, Bool, true, false, Option, none, some, if◌then◌else◌}
use etcd_play.Base.Text.{Text}
use etcd_play.Base.Family.{update}
use etcd_play.Base.Outcome.{done, panicked, M, ◌>>=◌, ◌>>◌, pure, get, modify}
use etcd_play.Proc.Error.{Error, Result, ok, err}
use etcd_play.Proc.Cluster.{Cluster, send_stream}
use etcd_play.Proc.Cluster
use etcd_play.Proc.Cluster.Control.{shutdown}
use etcd_play.Proc.Cluster.Create.{new_cluster}
use etcd_play.Backend.State.{App, lock, unlock, cluster_active, on_cluster}
use etcd_play.Backend.Start.{node_type, make_flags, cluster_flags, options, Ending, ending_message}

-- Where a goroutine stands in startCluster until it has answered, with the cluster that it has made;
-- where it stands afterwards is a `Rest`.
pub data Pc : Type 0 where
  prepares : Pc
  checks : (c : Option Cluster) → Pc
  stores : (c : Option Cluster) → Pc
  answered : (r : Option Error) → Pc

unfoldable pub turn : (Text → Result Text) → Text → Pc → M App Pc
unfolding cluster_flags new_cluster cluster_active lock unlock
turn new_agent token prepares = do
  a ← get
  let g = a.flags
  elim (make_flags (node_type g) g.agent_endpoints g.cluster_size a.port_prefix) [
    | none ↦ panicked
    | some (fs, prefix) ↦ do
      modify (λ a. record a { port_prefix = prefix })
      elim (new_cluster new_agent token (node_type g) g.etcd_binary fs (options g)) [
        | err e ↦ pure (answered (some e))
        | ok c ↦ pure (checks c)
      ]
  ]
turn new_agent token (checks c) = do
  active ← cluster_active
  pure (if active then answered none else stores c)
turn new_agent token (stores c) = do
  lock
  modify (λ a. record a { cluster = c })
  unlock
  pure (answered none)
turn new_agent token (answered r) = pure (answered r)

-- Where the goroutine that has stored its cluster stands after the answer: in the select, in the
-- deferred function, or at its end, `left` when the cluster is kept alive and `cleared` when it is not.
pub data Rest : Type 0 where
  not_begun : Rest
  selects : Rest
  shuts : Rest
  clears : Rest
  cleared : Rest
  left : Rest

-- The select with its end, and the sections of the deferred function. `held` says whether globalCache
-- still holds this goroutine's cluster: if not, the message and Shutdown are those of a cluster which
-- is not in the state any more.
unfoldable pub rest_turn : Cluster.Outside → Text → Ending → Bool → Rest → M App Rest
unfolding ending_message on_cluster send_stream shutdown lock unlock
rest_turn o id ending held not_begun = pure not_begun
rest_turn o id ending held selects = do
  a ← get
  elim held [
    | true ↦ elim (ending_message a.flags ending) [
      | none ↦ pure tt
      | some m ↦ on_cluster (send_stream id m)
    ]
    | false ↦ pure tt
  ]
  pure (if a.flags.keep_alive then left else shuts)
rest_turn o id ending held shuts = elim held [
  | true ↦ do on_cluster (shutdown o); pure clears
  | false ↦ pure clears
]
rest_turn o id ending held clears = do
  lock
  modify (λ a. record a { cluster = none })
  unlock
  pure cleared
rest_turn o id ending held cleared = pure cleared
rest_turn o id ending held left = pure left

-- Requests to start a cluster, any of which takes its next section.
pub record System : Type 0 where
  pub app : App
  pub pc : ℕ → Pc
  pub rest : ℕ → Rest

-- The goroutine that has stored its cluster goes on to the select.
abbrev pub begun : Pc → Pc → Rest → Rest
begun (stores c) (answered none) not_begun = selects
begun p p' r = r

pub data Step (s : System) : System → Type 0 where
  pick :
      (i : ℕ) (new_agent : Text → Result Text) (token : Text) (p : Pc) (a : App)
      → turn new_agent token (s.pc i) s.app ≡ done p a
      → Step s (record {
        app = a;
        pc = update s.pc i p;
        rest = update s.rest i (begun (s.pc i) p (s.rest i));
      })
  goes_on :
      (i : ℕ) (o : Cluster.Outside) (id : Text) (ending : Ending) (held : Bool) (r : Rest) (a : App)
      → rest_turn o id ending held (s.rest i) s.app ≡ done r a
      → Step s (record { app = a; pc = s.pc; rest = update s.rest i r })

pub data Reach (s : System) : System → Type 0 where
  here : Reach s s
  later : {t u : System} → Reach s t → Step t u → Reach s u
