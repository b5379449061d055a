-- ===== src/Proc/Node/Turns/Sequential.antt =====
-- A method of proc/node_web_local.go that no other goroutine interrupts: its sections in a row.
use etcd_play.Base.{◌≡◌, refl, Option, arith}
use etcd_play.Base.Text.{Text}
use etcd_play.Base.Time.{ℤ}
use etcd_play.Base.Outcome.{Outcome, done, blocked, panicked, M, ◌>>=◌, pure, continue, Returns}
use etcd_play.Proc.Error.{Error}
use etcd_play.Proc.Node.{Life, spec_start, spec_restart, spec_terminate}
use etcd_play.Proc.Node.Refines.{Ready, LocalDoes, launch, local_life, local_node_refines}
use etcd_play.Proc.Node.Local.{World, Outside, existing, start, restart, terminate}
use etcd_play.Proc.Node.Turns.{
  Pc, start_checks, restart_checks, terminate_checks, answered, turns, sections,
}

abbrev answer : M World (Option Error) → M World Pc
answer m = do r ← m; pure (answered r)

turns-start : (o : Outside) (w : World) → turns sections o start_checks w ≡ answer (start o) w
unfolding turns start
turns-start o w = ground arith

turns-restart : (o : Outside) (w : World) → turns sections o restart_checks w ≡ answer (restart o) w
unfolding turns restart
turns-restart o w = ground arith

turns-terminate :
    (o : Outside) (w : World) → turns sections o terminate_checks w ≡ answer (terminate o) w
unfolding turns terminate
turns-terminate o w = ground arith

-- A goroutine has answered, and the answer and the node are what a specification gives.
abbrev pub Answers : (Option Error × Life) → Pc → World → Type 0
Answers r p w = (e : Option Error) × (p ≡ answered e) × LocalDoes r e w

answer-Answers :
    (r : Option Error × Life) (x : Outcome World (Option Error))
    → Returns x (LocalDoes r)
    → Returns (continue x (λ e. pure (answered e))) (Answers r)
answer-Answers r (done e w) h = (e, refl, h)
answer-Answers r (blocked w) h = h
answer-Answers r (panicked w) h = h

-- When a local node is ready, the critical sections of Start, Restart and Terminate, taken in a row, come
-- to an answer: with the error and the state of life that spec_start, spec_restart and spec_terminate
-- give for the answer of the shell or of the kill, and with the mutex free.
pub sections_refine :
    (o : Outside) (w : World)
    → Ready w
    → let name : Text = w.node.flags.name in
      let limit : ℤ = w.node.limit_interval in
      let life : Life = local_life w.node in
      Returns (turns sections o start_checks w) (Answers (spec_start name (launch o w.node) life))
      × Returns
          (turns sections o restart_checks w)
          (Answers (spec_restart name limit o.now (launch o (existing w.node)) life))
      × Returns
          (turns sections o terminate_checks w)
          (Answers (spec_terminate name limit o.now (o.kill w.node.pid) life))
sections_refine o w h =
    let (starts, restarts, terminates) = local_node_refines o w h in
    (
      rw (turns-start o w) (answer-Answers _ (start o w) starts),
      rw (turns-restart o w) (answer-Answers _ (restart o w) restarts),
      rw (turns-terminate o w) (answer-Answers _ (terminate o w) terminates),
    )
