-- ===== src/Proc/Node/Local.antt =====
-- proc/node_web_local.go. A node works on itself and on what it shares with its cluster, the mutex
-- `pmu` and `sharedStream`. The process, the file system and the clock answer through `Outside`.
-- No statement of these methods panics, so their `recover` handlers have nothing to do.
use etcd_play.Base.{
  ℕ, Bool, true, false, ◌++◌, List, [], ◌∷◌, Option, none, some, ltb, length, if◌then◌else◌,
}
use etcd_play.Base.Text.{Text, codes, same}
use etcd_play.Base.Time.{ℤ, ltb_ℤ, since}
use etcd_play.Base.Outcome.{done, blocked, panicked, M, ◌>>=◌, ◌>>◌, pure, get, modify}
use etcd_play.Proc.Error.{
  Error, Result, ok, err, already_running, already_terminated, same_node_restarted, node_terminated,
  same_node_terminated, node_restarted,
}
use etcd_play.Proc.Message.{
  Message, start_node, restart_node, terminate_node, clean_node, start_wait_returned,
  restart_wait_returned, exiting,
}
use etcd_play.Proc.Flags.{Flags, string}
use etcd_play.Proc.Node.{Readings}

-- The cluster's mutex and its buffered channel.
pub record Shared : Type 0 where
  pub locked : Bool
  pub stream : List Message

abbrev pub stream_cap : ℕ
stream_cap = 5000

-- The command that runs, and whether its output goes to the node's Write.
pub record Command : Type 0 where
  pub args : List Text
  pub to_stream : Bool

pub record NodeWebLocal : Type 0 where
  pub max_proc_name_length : ℕ
  pub color_idx : ℕ
  pub live_log : Bool
  pub program_path : Text
  pub flags : Flags
  pub cmd : Option Command
  pub pid : ℕ
  pub active : Bool
  pub limit_interval : ℤ
  pub last_terminated : ℕ
  pub last_restarted : ℕ

pub record World : Type 0 where
  pub node : NodeWebLocal
  pub shared : Shared

pub record Outside : Type 0 where
  pub shell_env : Text
  pub exec_start : List Text → Result ℕ
  pub kill : ℕ → Option Error
  pub remove_all : Text → Option Error
  pub now : Readings

abbrev pub put_locked : Bool → World → World
put_locked b w = record w { shared = record (w.shared) { locked = b } }

abbrev pub put_stream : List Message → World → World
put_stream ms w = record w { shared = record (w.shared) { stream = ms } }

abbrev pub put_node : (NodeWebLocal → NodeWebLocal) → World → World
put_node f w = record w { node = f w.node }

-- nd.pmu.Lock() waits while the mutex is held; an Unlock of a free mutex is fatal.
unfoldable pub lock : M World (Unit {0})
lock w = elim w.shared.locked [ true ↦ blocked w | false ↦ done tt (put_locked true w) ]

unfoldable pub unlock : M World (Unit {0})
unlock w = elim w.shared.locked [ true ↦ done tt (put_locked false w) | false ↦ panicked w ]

-- nd.sharedStream <- m waits while the channel's buffer is full.
unfoldable pub send : Message → M World (Unit {0})
send m w = elim (ltb (length w.shared.stream) stream_cap) [
  | true ↦ done tt (put_stream (w.shared.stream ++ m ∷ []) w)
  | false ↦ blocked w
]

-- IsActive
unfoldable pub is_active : M World Bool
unfolding lock unlock
is_active = do lock; w ← get; unlock; pure w.node.active

abbrev pub shell : Outside → Text
shell o = if same o.shell_env [] then codes "sh" else o.shell_env

abbrev pub command_args : Outside → NodeWebLocal → Text → List Text
command_args o nd flag_string =
    shell o ∷ codes "-c" ∷ (nd.program_path ++ (codes " " ++ flag_string)) ∷ []

-- What follows the flag string in Start.
unfoldable pub start_command : Outside → Text → M World (Option Error)
unfolding lock unlock send
start_command o flag_string = do
  w ← get
  let args = command_args o w.node flag_string
  unlock
  send (start_node w.node.flags.name)
  elim (o.exec_start args) [
    | err e ↦ pure (some e)
    | ok pid ↦ do
      lock
      modify (
          put_node (λ nd. record nd {
            cmd = some (record { args = args; to_stream = nd.live_log });
            pid = pid;
            active = true;
          }))
      unlock
      pure none
  ]

-- Start. When the flags are not valid it returns with the mutex held.
unfoldable pub start : Outside → M World (Option Error)
unfolding is_active start_command string
start o = do
  active ← is_active
  w ← get
  if active then pure (some (already_running w.node.flags.name)) else do
    lock
    elim (string w.node.flags) [
      | err e ↦ pure (some e)
      | ok flag_string ↦ start_command o flag_string
    ]

-- What follows the flag string in Restart. The output goes to Write whatever `liveLog` says.
unfoldable pub restart_command : Outside → Text → M World (Option Error)
unfolding lock unlock send
restart_command o flag_string = do
  w ← get
  let args = command_args o w.node flag_string
  unlock
  send (restart_node w.node.flags.name)
  elim (o.exec_start args) [
    | err e ↦ pure (some e)
    | ok pid ↦ do
      lock
      modify (
          put_node (λ nd. record nd {
            cmd = some (record { args = args; to_stream = true });
            pid = pid;
            last_restarted = o.now.third;
            active = true;
          }))
      unlock
      pure none
  ]

abbrev pub existing : NodeWebLocal → NodeWebLocal
existing nd = record nd { flags = record (nd.flags) { initial_cluster_state = codes "existing" } }

-- Restart
unfoldable pub restart : Outside → M World (Option Error)
unfolding lock unlock restart_command string
restart o = do
  lock
  w ← get
  unlock
  if w.node.active
      then pure (some (already_running w.node.flags.name))
      else if ltb_ℤ (since o.now.first w.node.last_restarted) w.node.limit_interval
      then pure (
          some
            (same_node_restarted (since o.now.first w.node.last_restarted) w.node.limit_interval))
      else if ltb_ℤ (since o.now.second w.node.last_terminated) w.node.limit_interval
      then pure
          (some (node_terminated (since o.now.second w.node.last_terminated) w.node.limit_interval))
      else do
        lock
        modify (put_node existing)
        w' ← get
        elim (string w'.node.flags) [
          | err e ↦ pure (some e)
          | ok flag_string ↦ restart_command o flag_string
        ]

-- What follows the guards of Terminate.
unfoldable pub terminate_process : Outside → M World (Option Error)
unfolding lock unlock send
terminate_process o = do
  w ← get
  send (terminate_node w.node.flags.name w.node.pid)
  elim (o.kill w.node.pid) [
    | some e ↦ pure (some e)
    | none ↦ do
      lock
      modify (put_node (λ nd. record nd { last_terminated = o.now.third; active = false }))
      unlock
      pure none
  ]

-- Terminate
unfoldable pub terminate : Outside → M World (Option Error)
unfolding lock unlock terminate_process
terminate o = do
  lock
  w ← get
  unlock
  if w.node.active
      then (if ltb_ℤ (since o.now.first w.node.last_terminated) w.node.limit_interval
          then pure (
              some (
                same_node_terminated (since o.now.first w.node.last_terminated)
                  w.node.limit_interval))
          else if ltb_ℤ (since o.now.second w.node.last_restarted) w.node.limit_interval
          then pure (
              some
                (node_restarted (since o.now.second w.node.last_restarted) w.node.limit_interval))
          else terminate_process o)
      else pure (some (already_terminated w.node.flags.name))

-- Clean stamps `lastTerminated` before it looks whether the node is active.
unfoldable pub clean : Outside → M World (Option Error)
unfolding lock unlock send
clean o = do
  lock
  modify (put_node (λ nd. record nd { last_terminated = o.now.first }))
  w ← get
  unlock
  if w.node.active then pure (some (already_running w.node.flags.name)) else do
    send (clean_node w.node.flags.name w.node.flags.data_dir)
    pure (o.remove_all w.node.flags.data_dir)

-- The goroutine that Start or Restart leaves behind, when cmd.Wait returns.
unfoldable pub start_waited : Option Error → M World (Unit {0})
unfolding send
start_waited r w = elim r [
  | some e ↦ send (start_wait_returned w.node.flags.name e) w
  | none ↦ send (exiting w.node.flags.name) w
]

unfoldable pub restart_waited : Option Error → M World (Unit {0})
unfolding send
restart_waited r w = elim r [
  | some e ↦ send (restart_wait_returned w.node.flags.name e) w
  | none ↦ send (exiting w.node.flags.name) w
]
