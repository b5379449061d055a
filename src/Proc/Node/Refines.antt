-- ===== src/Proc/Node/Refines.antt =====
-- Both kinds of node implement the life of a process that Proc/Node.antt specifies, errors included.
use etcd_play.Base.{ℕ, ◌<◌, ◌≡◌, refl, false, List, Option, none, some, length, arith}
use etcd_play.Base.Text.{Text, same}
use etcd_play.Base.Time.{ℤ}
use etcd_play.Base.Outcome.{Returns}
use etcd_play.Proc.Error.{Error, Result, ok, err, is_ok→ok}
use etcd_play.Proc.Flags.{Flags, is_valid, pairs, string, string_slice}
use etcd_play.Proc.Node.{Life, spec_start, spec_restart, spec_terminate}
use etcd_play.Proc.Node.Local
use etcd_play.Proc.Node.Local.{NodeWebLocal, World, Shared, stream_cap, command_args, existing}
use etcd_play.Proc.Node.Remote
use etcd_play.Proc.Node.Remote.{NodeWebRemoteClient}

-- Valid flags have a command line.
pub string-ok : (f : Flags) → is_valid f ≡ ok tt → (s : Text) × (string f ≡ ok s)
string-ok f h = is_ok→ok (string f) (unfold string in (rw (h, pairs) refl))

string_slice-ok : (f : Flags) → is_valid f ≡ ok tt → (s : List Text) × (string_slice f ≡ ok s)
string_slice-ok f h = is_ok→ok (string_slice f) (unfold string_slice in (rw (h, pairs) refl))

-- Restart's own setting of the state keeps valid flags valid.
pub existing-valid :
    (nd : NodeWebLocal) → is_valid nd.flags ≡ ok tt → is_valid (existing nd).flags ≡ ok tt
unfolding is_valid same
existing-valid nd h = ground arith

abbrev pub local_life : NodeWebLocal → Life
local_life nd = record {
  active = nd.active;
  last_terminated = nd.last_terminated;
  last_restarted = nd.last_restarted;
}

abbrev pub remote_life : NodeWebRemoteClient → Life
remote_life nd = record {
  active = nd.active;
  last_terminated = nd.last_terminated;
  last_restarted = nd.last_restarted;
}

-- No other goroutine is in a critical section, the log channel has room, and the flags are valid.
pub record Ready (w : World) : Type 0 where
  pub free : w.shared.locked ≡ false
  pub room : length w.shared.stream < stream_cap
  pub valid : is_valid w.node.flags ≡ ok tt

-- Whether the process was started.
abbrev pub failure : Result ℕ → Option Error
failure (ok pid) = none
failure (err e) = some e

abbrev pub launch : Local.Outside → NodeWebLocal → Option Error
launch o nd = elim (string nd.flags) [
  | ok s ↦ failure (o.exec_start (command_args o nd s))
  | err e ↦ some e
]

-- The node ended as the specification says, with the mutex free again.
abbrev pub LocalDoes : Option Error × Life → Option Error → World → Type 0
LocalDoes r e w = (e ≡ r.0) × (local_life w.node ≡ r.1) × (w.shared.locked ≡ false)

-- Start of a local node that is ready returns, with the error and the state of life that spec_start
-- gives for the answer of the shell, and the mutex is free again.
local_start_refines :
    (o : Local.Outside) (w : World)
    → Ready w
    → Returns
        (Local.start o w)
        (LocalDoes (spec_start w.node.flags.name (launch o w.node) (local_life w.node)))
unfolding Local.start spec_start
local_start_refines o w h = let (s, e) = string-ok w.node.flags h.valid in ground (arith, e)

-- Restart of a local node that is ready returns, with the error and the state of life that
-- spec_restart gives for the answer of the shell, and the mutex is free again.
local_restart_refines :
    (o : Local.Outside) (w : World)
    → Ready w
    → Returns (Local.restart o w) (
        LocalDoes (
          spec_restart w.node.flags.name w.node.limit_interval o.now
            (launch o (existing w.node))
            (local_life w.node)))
unfolding Local.restart spec_restart
local_restart_refines o w h =
    let (s, e) = string-ok (existing w.node).flags (existing-valid w.node h.valid) in
    ground (arith, e)

-- Terminate of a local node that is ready returns, with the error and the state of life that
-- spec_terminate gives for the answer of the kill, and the mutex is free again.
local_terminate_refines :
    (o : Local.Outside) (w : World)
    → Ready w
    → Returns (Local.terminate o w) (
        LocalDoes (
          spec_terminate w.node.flags.name w.node.limit_interval o.now
            (o.kill w.node.pid)
            (local_life w.node)))
unfolding Local.terminate spec_terminate
local_terminate_refines o w h = ground arith

-- Start, Restart and Terminate of a local node that is ready return, with the error and the state of
-- life that spec_start, spec_restart and spec_terminate give for the answer of the shell or of the
-- kill, and the mutex is free again.
pub local_node_refines :
    (o : Local.Outside) (w : World)
    → Ready w
    → let name : Text = w.node.flags.name in
      let limit : ℤ = w.node.limit_interval in
      let life : Life = local_life w.node in
      Returns (Local.start o w) (LocalDoes (spec_start name (launch o w.node) life))
      × Returns
          (Local.restart o w)
          (LocalDoes (spec_restart name limit o.now (launch o (existing w.node)) life))
      × Returns
          (Local.terminate o w)
          (LocalDoes (spec_terminate name limit o.now (o.kill w.node.pid) life))
local_node_refines o w h =
    (local_start_refines o w h, local_restart_refines o w h, local_terminate_refines o w h)

abbrev pub ask_agent : Remote.Outside → NodeWebRemoteClient → Option Error
ask_agent o nd = elim (string_slice nd.flags) [ ok s ↦ o.agent_start s | err e ↦ some e ]

abbrev pub RemoteDoes : Option Error × Life → Option Error → NodeWebRemoteClient → Type 0
RemoteDoes r e nd = (e ≡ r.0) × (remote_life nd ≡ r.1) × (nd.locked ≡ false)

module _ (o : Remote.Outside) (nd : NodeWebRemoteClient) (free : nd.locked ≡ false) where
  -- Start of a remote node whose mutex is free returns, with the error and the state of life that
  -- spec_start gives for the answer of the agent, and the mutex is free again.
  remote_start_refines :
      Returns
        (Remote.start o nd)
        (RemoteDoes (spec_start nd.flags.name (ask_agent o nd) (remote_life nd)))
  unfolding Remote.start spec_start
  remote_start_refines = ground arith

  -- Restart of a remote node whose mutex is free returns, with the error and the state of life that
  -- spec_restart gives for the answer of the agent, and the mutex is free again.
  remote_restart_refines : Returns (Remote.restart o nd) (
      RemoteDoes
        (spec_restart nd.flags.name nd.limit_interval o.now o.agent_restart (remote_life nd)))
  unfolding Remote.restart spec_restart
  remote_restart_refines = ground arith

  -- Terminate of a remote node whose mutex is free returns, with the error and the state of life that
  -- spec_terminate gives for the answer of the agent, and the mutex is free again.
  remote_terminate_refines : Returns (Remote.terminate o nd) (
      RemoteDoes
        (spec_terminate nd.flags.name nd.limit_interval o.now o.agent_stop (remote_life nd)))
  unfolding Remote.terminate spec_terminate
  remote_terminate_refines = ground arith

  -- Start, Restart and Terminate of a remote node whose mutex is free return, with the error and the
  -- state of life that spec_start, spec_restart and spec_terminate give for the answer of the agent,
  -- and the mutex is free again.
  pub remote_node_refines :
      let name : Text = nd.flags.name in
      let limit : ℤ = nd.limit_interval in
      let life : Life = remote_life nd in
      Returns (Remote.start o nd) (RemoteDoes (spec_start name (ask_agent o nd) life))
      × Returns
          (Remote.restart o nd)
          (RemoteDoes (spec_restart name limit o.now o.agent_restart life))
      × Returns
          (Remote.terminate o nd)
          (RemoteDoes (spec_terminate name limit o.now o.agent_stop life))
  remote_node_refines = (remote_start_refines, remote_restart_refines, remote_terminate_refines)
