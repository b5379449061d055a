-- ===== src/Proc/Node/Locks.antt =====
-- What the local node's methods (proc/node_web_local.go) leave behind besides its life: the mutex
-- that it shares with the cluster, the output of the process, and the stamp of Clean.
use etcd_play.Base.{ℕ, ◌+◌, ◌<◌, ◌≤◌, ◌≡◌, ◌⊎◌, Bool, true, false, Option, none, some, arith}
use etcd_play.Base.Time.{pos, since, max_duration, since_lt_iff}
use etcd_play.Base.Outcome.{Returns, Blocks}
use etcd_play.Proc.Error.{Error, err, already_running, same_node_terminated}
use etcd_play.Proc.Flags.{is_valid, pairs, string}
use etcd_play.Proc.Node.Refines.{Ready, string-ok, existing-valid}
use etcd_play.Proc.Node.Local.{
  NodeWebLocal, World, Outside, Command, is_active, start, restart, terminate, clean, existing,
}

string-err : (w : World) (e : Error) → is_valid w.node.flags ≡ err e → string w.node.flags ≡ err e
unfolding string
string-err w e h = rw (h, pairs)

-- Start on an inactive node whose flags are not valid, when the mutex is free, returns the error with
-- the mutex held; then IsActive, Start, Restart, Terminate and Clean of each local node that shares
-- the mutex wait for good.
pub start_keeps_lock :
    (o o' : Outside) (w : World) (nd : NodeWebLocal) (e : Error)
    → w.shared.locked ≡ false
    → w.node.active ≡ false
    → is_valid w.node.flags ≡ err e
    → Returns (start o w) (λ r w'.
      (r ≡ some e)
      × (let w'' : World = record w' { node = nd } in
          Blocks (is_active w'')
          × Blocks (start o' w'')
          × Blocks (restart o' w'')
          × Blocks (terminate o' w'')
          × Blocks (clean o' w'')))
unfolding start restart terminate clean is_active
start_keeps_lock o o' w nd e free idle bad = ground (arith, string-err w e bad)

-- Whether the process that was started last writes to the log stream.
abbrev pub attached : Option Command → Option Bool
attached none = none
attached (some c) = some c.to_stream

-- When the node is ready, a Start that succeeds runs the process with its output going to the log
-- stream just if `liveLog` is on; a Restart that succeeds sends it there also when it is off.
pub output_of_command :
    (o : Outside) (w : World)
    → Ready w
    → Returns
        (start o w)
        (λ r w'. ((e : Error) × (r ≡ some e)) ⊎ (attached w'.node.cmd ≡ some w.node.live_log))
      × Returns
          (restart o w)
          (λ r w'. ((e : Error) × (r ≡ some e)) ⊎ (attached w'.node.cmd ≡ some true))
unfolding start restart
output_of_command o w h =
    let (s, e) = string-ok w.node.flags h.valid in
    let (s', e') = string-ok (existing w.node).flags (existing-valid w.node h.valid) in
    (ground (arith, e), ground (arith, e'))

-- Clean of an active node fails, but it stamps the node as just terminated: a Terminate that comes
-- within the limit is refused and the node stays active.
pub clean_delays_terminate :
    (o o' : Outside) (w : World) (limit : ℕ)
    → Ready w
    → w.node.active ≡ true
    → w.node.limit_interval ≡ pos limit
    → limit ≤ max_duration
    → o'.now.first < o.now.first + limit
    → Returns (clean o w) (λ r w'.
      (r ≡ some (already_running w.node.flags.name))
      × Returns (terminate o' w') (λ r' w''.
        (r' ≡ some (same_node_terminated (since o'.now.first o.now.first) (pos limit)))
        × (w''.node.active ≡ true)))
unfolding clean terminate
clean_delays_terminate o o' w limit h act lim fits soon =
    ground (arith, (since_lt_iff o'.now.first o.now.first limit fits).1)
