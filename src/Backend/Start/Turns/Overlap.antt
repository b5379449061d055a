-- ===== src/Backend/Start/Turns/Overlap.antt =====
-- What interleaving costs: two starts (backend/backend.go), and the end of a cluster within a round of
-- the loop that revives it (backend/cache.go).
use etcd_play.Base.{◌≡◌, true, false, Option, none, some, arith}
use etcd_play.Base.Text.{Text}
use etcd_play.Base.Outcome.{Panics, done, M, ◌>>=◌, ◌>>◌, pure, state_of, IfReturns, returned_as}
use etcd_play.Proc.Error.{Result}
use etcd_play.Proc.Cluster.{Cluster}
use etcd_play.Proc.Cluster
use etcd_play.Proc.Cluster.Control.{revive}
use etcd_play.Backend.State.{App, lock, unlock, cluster_active, on_cluster}
use etcd_play.Backend.Loops.{revive_cluster}
use etcd_play.Backend.Start.{Ending, finish_cluster}
use etcd_play.Backend.Start.Turns.{Pc, checks, answered, turn}

module _ (new_agent : Text → Result Text) (token : Text) where
  abbrev section : Pc → M App Pc
  section = turn new_agent token

  -- The second start begins when the first one has ended.
  abbrev pub one_after_other : Option Cluster → Option Cluster → M App (Pc × Pc)
  one_after_other c d = do
    p ← section (checks c)
    p' ← section p
    q ← section (checks d)
    q' ← section q
    pure (p', q')

  -- Both look for a cluster before either stores its own.
  abbrev pub overlapping : Option Cluster → Option Cluster → M App (Pc × Pc)
  overlapping c d = do
    p ← section (checks c)
    q ← section (checks d)
    p' ← section p
    q' ← section q
    pure (p', q')

  -- When the mutex is free and there is no cluster, two starts that have made the clusters `c` and `d`
  -- are both answered without an error: one after the other they leave `c`; when both check before
  -- either stores they leave `d`, which the second has put in the place of `c`.
  pub overlapping_starts :
      (c d : Cluster) (a : App)
      → a.locked ≡ false
      → a.cluster ≡ none
      → (one_after_other (some c) (some d) a
          ≡ done (answered none, answered none) (record a { cluster = some c; locked = false }))
        × (overlapping (some c) (some d) a
            ≡ done (answered none, answered none) (record a { cluster = some d; locked = false }))
  unfolding turn
  overlapping_starts c d a free empty = ground (arith, free, empty)

-- What a round of the loop does when it has found a cluster.
abbrev pub revive_found : Cluster.Outside → M App (Unit {0})
revive_found o = do lock; on_cluster (revive o); unlock

revive_cluster-goes :
    (o : Cluster.Outside) (c : Cluster) (a : App)
    → a.locked ≡ false
    → a.cluster ≡ some c
    → revive_cluster o a ≡ revive_found o a
unfolding revive_cluster cluster_active
revive_cluster-goes o c a free there = ground (arith, free, there)

-- Once startCluster has come to its end with `keepAlive` off, there is no cluster and the mutex is free.
finish_cluster-clears :
    (o : Cluster.Outside) (id : Text) (ending : Ending) (a : App)
    → a.flags.keep_alive ≡ false
    → IfReturns (finish_cluster o id ending a) (λ _ b. (b.cluster ≡ none) × (b.locked ≡ false))
unfolding finish_cluster
finish_cluster-clears o id ending a mortal = ground arith

revive_found-Panics :
    (o : Cluster.Outside) (a : App)
    → a.cluster ≡ none
    → a.locked ≡ false
    → Panics (revive_found o a) × ((state_of (revive_found o a)).locked ≡ true)
unfolding on_cluster lock
revive_found-Panics o a empty free = ground arith

-- When the mutex is free and there is a cluster, a round of the loop that revives it goes on to lock
-- the mutex; when startCluster, with `keepAlive` off, comes to its end in between, the round panics
-- with the mutex held.
pub revive_meets_end :
    (o o' : Cluster.Outside) (id : Text) (ending : Ending) (c : Cluster) (a b : App)
    → a.locked ≡ false
    → a.cluster ≡ some c
    → a.flags.keep_alive ≡ false
    → finish_cluster o id ending a ≡ done tt b
    → (revive_cluster o' a ≡ revive_found o' a)
      × Panics (revive_found o' b)
      × ((state_of (revive_found o' b)).locked ≡ true)
revive_meets_end o o' id ending c a b free there mortal ended =
    let clear : (b.cluster ≡ none) × (b.locked ≡ false) =
      returned_as (λ _ b. (b.cluster ≡ none) × (b.locked ≡ false))
        (finish_cluster-clears o id ending a mortal) ended in
    let panics = revive_found-Panics o' b clear.0 clear.1 in
    (revive_cluster-goes o' c a free there, panics.0, panics.1)
