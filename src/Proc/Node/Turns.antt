-- ===== src/Proc/Node/Turns.antt =====
-- proc/node_web_local.go, one critical section at a time. The mutex is free between the guards of a
-- method and its effect, so goroutines that call the methods of one node take turns there. A place
-- in a method is a `Pc` with the local variables that are live there.
pub mod System
pub mod Sequential
pub mod Signals
pub mod Progress
use etcd_play.Base.{
  ℕ, Bool, true, false, List, [], ◌∷◌, ◌++◌, Option, none, some, if◌then◌else◌, ◌==◌,
}
use etcd_play.Base.{zero, suc, ◌≡◌}
use etcd_play.Base.Text.{Text}
use etcd_play.Base.Time.{ltb_ℤ, since}
use etcd_play.Base.Family.{update}
use etcd_play.Base.Outcome.{done, M, ◌>>=◌, ◌>>◌, pure, get, modify}
use etcd_play.Proc.Error.{
  Error, ok, err, already_running, already_terminated, same_node_restarted, node_terminated,
  same_node_terminated, node_restarted,
}
use etcd_play.Proc.Message.{start_node, restart_node, terminate_node, clean_node}
use etcd_play.Proc.Flags.{string}
use etcd_play.Proc.Node.{Life}
use etcd_play.Proc.Node.Local.{
  World, Outside, lock, unlock, send, is_active, put_node, command_args, existing,
}

-- Where a goroutine stands in a call of one of the four methods.
pub data Pc : Type 0 where
  start_checks : Pc
  start_decides : (active : Bool) → Pc
  start_renders : Pc
  start_sends : (args : List Text) → Pc
  start_execs : (args : List Text) → Pc
  start_stores : (args : List Text) (pid : ℕ) → Pc
  restart_checks : Pc
  restart_decides : (seen : Life) → Pc
  restart_renders : Pc
  restart_sends : (args : List Text) → Pc
  restart_execs : (args : List Text) → Pc
  restart_stores : (args : List Text) (pid : ℕ) → Pc
  terminate_checks : Pc
  terminate_decides : (seen : Life) → Pc
  terminate_sends : Pc
  terminate_kills : Pc
  terminate_stores : Pc
  clean_checks : Pc
  clean_decides : (active : Bool) → Pc
  clean_sends : Pc
  clean_removes : Pc
  answered : (r : Option Error) → Pc

-- The local copies that Restart and Terminate take under the mutex.
unfoldable pub copy_life : M World Life
unfolding lock unlock
copy_life = do
  lock
  w ← get
  unlock
  pure (record {
    active = w.node.active;
    last_terminated = w.node.last_terminated;
    last_restarted = w.node.last_restarted;
  })

unfoldable pub start_turn : Outside → Pc → M World Pc
unfolding is_active lock unlock send string
start_turn o start_checks = do active ← is_active; pure (start_decides active)
start_turn o (start_decides active) = do
  w ← get
  pure (if active then answered (some (already_running w.node.flags.name)) else start_renders)
start_turn o start_renders = do
  lock
  w ← get
  elim (string w.node.flags) [
    | err e ↦ pure (answered (some e))
    | ok s ↦ do unlock; pure (start_sends (command_args o w.node s))
  ]
start_turn o (start_sends args) = do
  w ← get
  send (start_node w.node.flags.name)
  pure (start_execs args)
start_turn o (start_execs args) = elim (o.exec_start args) [
  | err e ↦ pure (answered (some e))
  | ok pid ↦ pure (start_stores args pid)
]
start_turn o (start_stores args pid) = do
  lock
  modify (
      put_node (λ nd. record nd {
        cmd = some (record { args = args; to_stream = nd.live_log });
        pid = pid;
        active = true;
      }))
  unlock
  pure (answered none)
start_turn o p = pure p

unfoldable pub restart_turn : Outside → Pc → M World Pc
unfolding copy_life lock unlock send string
restart_turn o restart_checks = do seen ← copy_life; pure (restart_decides seen)
restart_turn o (restart_decides seen) = do
  w ← get
  let restarted = since o.now.first seen.last_restarted
  let terminated = since o.now.second seen.last_terminated
  let limit = w.node.limit_interval
  pure (
      if seen.active
      then answered (some (already_running w.node.flags.name))
      else if ltb_ℤ restarted limit
      then answered (some (same_node_restarted restarted limit))
      else if ltb_ℤ terminated limit
      then answered (some (node_terminated terminated limit))
      else restart_renders)
restart_turn o restart_renders = do
  lock
  modify (put_node existing)
  w ← get
  elim (string w.node.flags) [
    | err e ↦ pure (answered (some e))
    | ok s ↦ do unlock; pure (restart_sends (command_args o w.node s))
  ]
restart_turn o (restart_sends args) = do
  w ← get
  send (restart_node w.node.flags.name)
  pure (restart_execs args)
restart_turn o (restart_execs args) = elim (o.exec_start args) [
  | err e ↦ pure (answered (some e))
  | ok pid ↦ pure (restart_stores args pid)
]
restart_turn o (restart_stores args pid) = do
  lock
  modify (
      put_node (λ nd. record nd {
        cmd = some (record { args = args; to_stream = true });
        pid = pid;
        last_restarted = o.now.third;
        active = true;
      }))
  unlock
  pure (answered none)
restart_turn o p = pure p

-- The process is named by nd.PID, which Terminate reads with the mutex free.
unfoldable pub terminate_turn : Outside → Pc → M World Pc
unfolding copy_life lock unlock send
terminate_turn o terminate_checks = do seen ← copy_life; pure (terminate_decides seen)
terminate_turn o (terminate_decides seen) = do
  w ← get
  let terminated = since o.now.first seen.last_terminated
  let restarted = since o.now.second seen.last_restarted
  let limit = w.node.limit_interval
  pure (
      if seen.active
      then (if ltb_ℤ terminated limit
          then answered (some (same_node_terminated terminated limit))
          else if ltb_ℤ restarted limit
          then answered (some (node_restarted restarted limit))
          else terminate_sends)
      else answered (some (already_terminated w.node.flags.name)))
terminate_turn o terminate_sends = do
  w ← get
  send (terminate_node w.node.flags.name w.node.pid)
  pure terminate_kills
terminate_turn o terminate_kills = do
  w ← get
  elim (o.kill w.node.pid) [ some e ↦ pure (answered (some e)) | none ↦ pure terminate_stores ]
terminate_turn o terminate_stores = do
  lock
  modify (put_node (λ nd. record nd { last_terminated = o.now.third; active = false }))
  unlock
  pure (answered none)
terminate_turn o p = pure p

unfoldable pub clean_turn : Outside → Pc → M World Pc
unfolding lock unlock send
clean_turn o clean_checks = do
  lock
  modify (put_node (λ nd. record nd { last_terminated = o.now.first }))
  w ← get
  unlock
  pure (clean_decides w.node.active)
clean_turn o (clean_decides active) = do
  w ← get
  pure (if active then answered (some (already_running w.node.flags.name)) else clean_sends)
clean_turn o clean_sends = do
  w ← get
  send (clean_node w.node.flags.name w.node.flags.data_dir)
  pure clean_removes
clean_turn o clean_removes = do w ← get; pure (answered (o.remove_all w.node.flags.data_dir))
clean_turn o p = pure p

-- One section of a call; a call that has answered stays.
unfoldable pub turn : Outside → Pc → M World Pc
unfolding start_turn restart_turn terminate_turn clean_turn
turn o start_checks = start_turn o start_checks
turn o (start_decides a) = start_turn o (start_decides a)
turn o start_renders = start_turn o start_renders
turn o (start_sends args) = start_turn o (start_sends args)
turn o (start_execs args) = start_turn o (start_execs args)
turn o (start_stores args pid) = start_turn o (start_stores args pid)
turn o restart_checks = restart_turn o restart_checks
turn o (restart_decides l) = restart_turn o (restart_decides l)
turn o restart_renders = restart_turn o restart_renders
turn o (restart_sends args) = restart_turn o (restart_sends args)
turn o (restart_execs args) = restart_turn o (restart_execs args)
turn o (restart_stores args pid) = restart_turn o (restart_stores args pid)
turn o terminate_checks = terminate_turn o terminate_checks
turn o (terminate_decides l) = terminate_turn o (terminate_decides l)
turn o terminate_sends = terminate_turn o terminate_sends
turn o terminate_kills = terminate_turn o terminate_kills
turn o terminate_stores = terminate_turn o terminate_stores
turn o clean_checks = clean_turn o clean_checks
turn o (clean_decides a) = clean_turn o (clean_decides a)
turn o clean_sends = clean_turn o clean_sends
turn o clean_removes = clean_turn o clean_removes
turn o (answered r) = pure (answered r)

-- A call on its own: at most `n` sections, with one answer of the outside for all of them.
unfoldable pub turns : ℕ → Outside → Pc → M World Pc
unfolding turn
turns zero o p = pure p
turns (suc n) o p = do p' ← turn o p; turns n o p'

-- No call takes more than six sections.
abbrev pub sections : ℕ
sections = 6
