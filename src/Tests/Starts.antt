-- ===== src/Tests/Starts.antt =====
-- Interleaved starts of a cluster, and the theorems on them.
use etcd_play.Base.{ℕ, ◌≡◌, refl, List, [], ◌∷◌, true, none, some, arith}
use etcd_play.Base.Text.{same, codes, join}
use etcd_play.Base.Map.{lookup}
use etcd_play.Base.Decimal.{decimal}
use etcd_play.Base.Sort.{sort}
use etcd_play.Base.{◌≢◌}
use etcd_play.Base.Time.{ℤ, pos}
use etcd_play.Base.Outcome.{Outcome, done, blocked, panicked, Panics, state_of}
use etcd_play.Proc.Flags.{get_all_ports, node_url}
use etcd_play.Backend.State.{App}
use etcd_play.Backend.Loops.{revive_cluster}
use etcd_play.Backend.Start.{bootstrap_done, finish_cluster}
use etcd_play.Backend.Start.Turns.{
  Pc, prepares, answered, turn, not_begun, System, pick, Reach, here, later,
}
use etcd_play.Backend.Start.Turns.Granted.{Untouched, ThereUnlessEnded, starts-Granted}
use etcd_play.Backend.Start.Turns.Overlap.{
  one_after_other, overlapping, overlapping_starts, revive_found, revive_meets_end,
}
use etcd_play.Tests.{no_agent, one_node, no_nodes, outside_at, app_of}

record Run (s : System) : Type 0 where
  last : System
  reach : Reach s last

advance :
    {s : System} (r : Run s) (i : ℕ) (x : Outcome App Pc)
    → turn no_agent (codes "token") (r.last.pc i) r.last.app ≡ x
    → Run s
advance r i (done p a) e = record {
  last = _;
  reach = later r.reach (pick i no_agent (codes "token") p a e);
}
advance r i (blocked a) e = r
advance r i (panicked a) e = r

-- The requests take turns as listed; one that waits is passed over.
unfoldable run : {s : System} → Run s → List ℕ → Run s
unfolding advance
run r [] = r
run r (i ∷ rest) =
    run (advance r i (turn no_agent (codes "token") (r.last.pc i) r.last.app) refl) rest

abbrev requested : System
requested = record { app = app_of []; pc = λ i. prepares; rest = λ i. not_begun }

-- Two requests: both check before either stores.
abbrev interleaved : Run requested
interleaved = run (record { last = requested; reach = here }) (0 ∷ 1 ∷ 0 ∷ 1 ∷ 0 ∷ 1 ∷ [])

both_answered : (interleaved.last.pc 0 ≡ answered none) × (interleaved.last.pc 1 ≡ answered none)
unfolding run turn lookup decimal join get_all_ports sort node_url
both_answered = (refl, refl)

some_size : ◌≢◌ {A = ℤ} (pos 5) (pos 0)
some_size e = ground (arith, e)

starts-Granted_example :
    ThereUnlessEnded interleaved.last.app interleaved.last.rest
    × Untouched (app_of []) interleaved.last.app
starts-Granted_example =
    starts-Granted (record { free = refl; requested = λ i. refl; resting = λ i. refl }) some_size
      interleaved.reach 0 both_answered.0

overlapping_starts_example :
    (one_after_other no_agent (codes "token") (some one_node) (some no_nodes) (app_of [])
      ≡ done (answered none, answered none) (record (app_of []) { cluster = some one_node }))
    × (overlapping no_agent (codes "token") (some one_node) (some no_nodes) (app_of [])
        ≡ done (answered none, answered none) (record (app_of []) { cluster = some no_nodes }))
overlapping_starts_example =
    overlapping_starts no_agent (codes "token") one_node no_nodes (app_of []) refl refl

abbrev serving : App
serving = record (app_of []) { cluster = some no_nodes }

-- startCluster has come to its end.
abbrev ended : App
ended = state_of (finish_cluster (outside_at 30) [] bootstrap_done serving)

revive_meets_end_example :
    (revive_cluster (outside_at 30) serving ≡ revive_found (outside_at 30) serving)
    × Panics (revive_found (outside_at 30) ended)
    × ((state_of (revive_found (outside_at 30) ended)).locked ≡ true)
unfolding finish_cluster lookup same
revive_meets_end_example =
    revive_meets_end (outside_at 30) (outside_at 30) [] bootstrap_done no_nodes serving ended refl
      refl refl refl
