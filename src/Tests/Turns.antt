-- ===== src/Tests/Turns.antt =====
-- Runs of the interleaved methods of one node, and the theorems on them.
use etcd_play.Base.{ℕ, zero, suc, ◌≤◌, ◌++◌, ◌≡◌, inl, refl, true, false, List, [], ◌∷◌, none}
use etcd_play.Base.Text.{same}
use etcd_play.Base.Time.{since}
use etcd_play.Base.Outcome.{Outcome, done, blocked, panicked, Returns}
use etcd_play.Proc.Error.{ok}
use etcd_play.Proc.Flags.{is_valid}
use etcd_play.Proc.Node.Local.{World, Outside}
use etcd_play.Proc.Node.Turns.{
  Pc, start_checks, restart_checks, terminate_checks, clean_checks, clean_removes, answered, turn,
  turns, sections,
}
use etcd_play.Proc.Node.Turns.System.{System, pick, Reach, here, later}
use etcd_play.Proc.Node.Turns.Sequential.{Answers, sections_refine}
use etcd_play.Proc.Node.Turns.Progress.{left, Free, Advances, sections-Advance}
use etcd_play.Base.{arith}
use etcd_play.Base.Text.{codes, same}
use etcd_play.Base.Time.{pos}
use etcd_play.Proc.Flags.{is_valid}
use etcd_play.Proc.Node.{spec_start, spec_restart, spec_terminate}
use etcd_play.Proc.Node.Local.{existing}
use etcd_play.Proc.Node.Refines.{Ready, launch, local_life}
use etcd_play.Tests.{at, local_outside, local_world}

-- A reachable state, with the run to it.
record Run (s : System) : Type 0 where
  last : System
  reach : Reach s last

advance :
    {s : System} (r : Run s) (i : ℕ) (o : Outside) (x : Outcome World Pc)
    → turn o (r.last.pc i) r.last.world ≡ x
    → Run s
advance r i o (done p w) e = record { last = _; reach = later r.reach (pick i o p w e) }
advance r i o (blocked w) e = r
advance r i o (panicked w) e = r

-- The goroutines take turns as listed, with the outside of each turn; one that waits is passed over.
unfoldable run : {s : System} → Run s → List (ℕ × Outside) → Run s
unfolding advance
run r [] = r
run r ((i, o) ∷ rest) = run (advance r i o (turn o (r.last.pc i) r.last.world) refl) rest

-- The shell answers with the process `pid`, at second 30.
abbrev answers_with : ℕ → Outside
answers_with pid = record (local_outside 30) { exec_start = λ args. ok pid }

abbrev calls : Pc → Pc → ℕ → Pc
calls p q zero = p
calls p q (suc i) = q

abbrev two_calls : Pc → Pc → System
two_calls p q = record { world = local_world false; pc = calls p q; spawned = []; signalled = [] }

of-Free : (p q : Pc) → Free (two_calls p q).world
unfolding is_valid same
of-Free p q = record { unlocked = refl; valid = refl }

abbrev turns_of : ℕ → ℕ → Outside → List (ℕ × Outside)
turns_of zero i o = []
turns_of (suc n) i o = (i, o) ∷ turns_of n i o

abbrev begin : (s : System) → Run s
begin s = record { last = s; reach = here }

-- Start runs to its end, then Terminate.
abbrev one_life : Run (two_calls start_checks terminate_checks)
one_life =
    run (begin (two_calls start_checks terminate_checks))
      (turns_of 6 0 (answers_with 77) ++ turns_of 5 1 (answers_with 77))

-- Two Starts take turns, and each finds the node inactive.
abbrev two_starts : Run (two_calls start_checks restart_checks)
two_starts = run (begin (two_calls start_checks restart_checks)) (
    (0, answers_with 77) ∷ (1, answers_with 78) ∷ turns_of 5 0 (answers_with 77)
    ++ turns_of 5 1 (answers_with 78))

-- Start and Restart of one node both succeed: two processes run, and the node knows the second only.
two_processes :
    (two_starts.last.pc 0 ≡ answered none)
    × (two_starts.last.pc 1 ≡ answered none)
    × (two_starts.last.spawned ≡ 78 ∷ 77 ∷ [])
    × (two_starts.last.world.node.pid ≡ 78)
unfolding run turn same since
two_processes = (refl, refl, refl, refl)

-- Clean finds the node inactive, then Start runs it, and then the directory is removed.
abbrev cleaned : Run (two_calls start_checks clean_checks)
cleaned =
    run (begin (two_calls start_checks clean_checks))
      (turns_of 3 1 (answers_with 77) ++ turns_of 6 0 (answers_with 77))

cleans_running : (cleaned.last.pc 1 ≡ clean_removes) × (cleaned.last.world.node.active ≡ true)
unfolding run turn same since
cleans_running = (refl, refl)

one_life_ends : (one_life.last.pc 1 ≡ answered none) × (one_life.last.signalled ≡ 77 ∷ [])
unfolding run turn same since
one_life_ends = (refl, refl)

sections-Advance_example :
    Returns
      (turn (answers_with 77) (two_starts.last.pc 1) two_starts.last.world)
      (Advances (two_starts.last.pc 1))
    × (left (two_starts.last.pc 1) ≤ sections)
unfolding run turn same since
sections-Advance_example =
    sections-Advance (of-Free start_checks restart_checks) two_starts.reach 1 (answers_with 77)
      (inl refl)

ready : Ready (local_world true)
unfolding is_valid same
ready = record { free = refl; room = omega arith; valid = refl }

sections_refine_example :
    let o = local_outside 30 in
    let w = local_world true in
    Returns
      (turns sections o start_checks w)
      (Answers (spec_start (codes "etcd1") (launch o w.node) (local_life w.node)))
    × Returns (turns sections o restart_checks w) (
        Answers (
          spec_restart
            (codes "etcd1")
            (pos 7)
            (at 30)
            (launch o (existing w.node))
            (local_life w.node)))
    × Returns
        (turns sections o terminate_checks w)
        (Answers (spec_terminate (codes "etcd1") (pos 7) (at 30) none (local_life w.node)))
sections_refine_example = sections_refine (local_outside 30) (local_world true) ready
