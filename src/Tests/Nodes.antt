-- ===== src/Tests/Nodes.antt =====
-- The theorems on nodes and flags, on concrete ones.
use mathlib.Core.List.Perm
use etcd_play.Base.{
  ℕ, ◌≡◌, ◌↔◌, refl, Bool, true, false, List, [], ◌∷◌, none, some, arith, map, All,
}
use etcd_play.Base.{◌+◌, length, ◌≤◌}
use etcd_play.Base.Text.{Text, codes, same}
use etcd_play.Base.Map.{lookup, insert}
use etcd_play.Base.Time.{pos}
use etcd_play.Base.Outcome.{Returns, Blocks}
use etcd_play.Proc.Error.{ok, err, name_unspecified}
use etcd_play.Proc.Flags.{
  Flags, is_valid, generate_flags, combine_flags, port_key, string, string_slice, set_cluster,
  check_flags,
}
use etcd_play.Proc.Flags.Render.{SameFlags, command_line-perm}
use etcd_play.Proc.Flags.Generate.{port_key-ne_nil}
use etcd_play.Proc.Flags.Combine.{
  Distinct, PortsDiffer, peer_url, shared, combine_flags_iff, combine_flags-shares,
}
use etcd_play.Proc.Node.{spec_start, spec_restart, spec_terminate}
use etcd_play.Proc.Node.Local
use etcd_play.Proc.Node.Local.{World, existing}
use etcd_play.Proc.Node.Remote
use etcd_play.Proc.Node.Refines.{
  Ready, LocalDoes, RemoteDoes, launch, ask_agent, local_life, remote_life, local_node_refines,
  remote_node_refines,
}
use etcd_play.Proc.Node.Spacing.{Call, Spaced, moments, restarting, terminating, restarts-Spaced}
use etcd_play.Proc.Node.Lines.{Cuts, lines-Cuts}
use etcd_play.Proc.Node.Output.{lines, shown, write, write-shown}
use etcd_play.Proc.Node.Local.{put_stream}
use etcd_play.Proc.Node.Locks.{start_keeps_lock}
use etcd_play.Tests.{
  flags_named, flags_etcd1, at, local_outside, local_node, local_world, remote_outside, remote_node,
}

flags_etcd1-valid : is_valid flags_etcd1 ≡ ok tt
unfolding is_valid same
flags_etcd1-valid = refl

ready : (active : Bool) → Ready (local_world active)
ready active = record { free = refl; room = omega arith; valid = flags_etcd1-valid }

abbrev calls : List Call
calls =
    (terminating, remote_outside 30)
    ∷ (restarting, remote_outside 40)
    ∷ (terminating, remote_outside 46)
    ∷ []

restarts-Spaced_example : Spaced 7 0 (moments (remote_node true) calls)
restarts-Spaced_example = restarts-Spaced 7 0 calls (remote_node true) (omega arith) refl refl (
  omega arith,
  omega arith,
  omega arith,
  (omega arith, omega arith, omega arith, (omega arith, omega arith, omega arith, tt)),
)

abbrev before : World
before = local_world false

abbrev running : World
running = local_world true

local_node_refines_example :
    let life = local_life running.node in
    Returns
      (Local.start (local_outside 30) running)
      (LocalDoes (spec_start (codes "etcd1") (launch (local_outside 30) running.node) life))
    × Returns (Local.restart (local_outside 30) running) (
        LocalDoes (
          spec_restart
            (codes "etcd1")
            (pos 7)
            (at 30)
            (launch (local_outside 30) (existing running.node))
            life))
    × Returns
        (Local.terminate (local_outside 30) running)
        (LocalDoes (spec_terminate (codes "etcd1") (pos 7) (at 30) none life))
local_node_refines_example = local_node_refines (local_outside 30) running (ready true)

remote_node_refines_example :
    let nd = remote_node false in
    let life = remote_life nd in
    Returns
      (Remote.start (remote_outside 30) nd)
      (RemoteDoes (spec_start (codes "etcd1") (ask_agent (remote_outside 30) nd) life))
    × Returns
        (Remote.restart (remote_outside 30) nd)
        (RemoteDoes (spec_restart (codes "etcd1") (pos 7) (at 30) none life))
    × Returns
        (Remote.terminate (remote_outside 30) nd)
        (RemoteDoes (spec_terminate (codes "etcd1") (pos 7) (at 30) none life))
remote_node_refines_example = remote_node_refines (remote_outside 30) (remote_node false) refl

-- A node without a name.
abbrev unnamed : World
unnamed = record before { node = record (local_node false) { flags = flags_named [] [] } }

unnamed-invalid : is_valid unnamed.node.flags ≡ err name_unspecified
unfolding is_valid same
unnamed-invalid = refl

start_keeps_lock_example : Returns (Local.start (local_outside 30) unnamed) (λ r w'.
    (r ≡ some name_unspecified)
    × (let w'' = record w' { node = local_node true } in
        Blocks (Local.is_active w'')
        × Blocks (Local.start (local_outside 40) w'')
        × Blocks (Local.restart (local_outside 40) w'')
        × Blocks (Local.terminate (local_outside 40) w'')
        × Blocks (Local.clean (local_outside 40) w'')))
start_keeps_lock_example =
    start_keeps_lock (local_outside 30) (local_outside 40) unnamed (local_node true)
      name_unspecified refl refl unnamed-invalid

abbrev generated : Text → ℕ → Flags
generated name prefix = (generate_flags name [] false prefix).0

abbrev two : List Flags
two = generated (codes "etcd2") 13 ∷ []

combine_flags_iff_example :
    ((gs : List Flags) × (combine_flags (codes "token") false (generated (codes "etcd1") 12 ∷ two)
        ≡ ok gs))
    ↔ (Distinct (generated (codes "etcd1") 12 ∷ two)
        × PortsDiffer false (port_key (generated (codes "etcd1") 12)) two)
combine_flags_iff_example =
    combine_flags_iff (codes "token") false (generated (codes "etcd1") 12) two
      (port_key-ne_nil (codes "etcd1") [] false 12)

abbrev lone : List Flags
lone =
    set_cluster (codes "token") (insert (codes "etcd1") (peer_url flags_etcd1) [])
      (flags_etcd1 ∷ [])

combined : combine_flags (codes "token") false (flags_etcd1 ∷ []) ≡ ok lone
unfolding combine_flags check_flags lookup same
combined = refl

combine_flags-shares_example :
    (n : _) × (lone ≡ map (shared (codes "token") n) (flags_etcd1 ∷ []))
    × All (λ f. lookup f.name n ≡ some (peer_url f)) (flags_etcd1 ∷ [])
combine_flags-shares_example =
    combine_flags-shares (codes "token") false (flags_etcd1 ∷ []) lone combined

abbrev url_a : Text
url_a = codes "http://localhost:1280"

abbrev url_b : Text
url_b = codes "http://localhost:1380"

abbrev flags_ab : Flags
flags_ab = flags_named (codes "etcd1") (url_a ∷ url_b ∷ [])

abbrev flags_ba : Flags
flags_ba = flags_named (codes "etcd1") (url_b ∷ url_a ∷ [])

flags_ab-SameFlags : SameFlags flags_ab flags_ba
flags_ab-SameFlags = record {
  name_eq = refl;
  data_dir_eq = refl;
  listen_client = Perm.refl _;
  advertise_client = Perm.refl _;
  listen_peer = Perm.swap _ _ _;
  advertise_peer = Perm.swap _ _ _;
  cluster = Perm.refl _;
  token_eq = refl;
  state_eq = refl;
  client_tls_eq = refl;
  peer_tls_eq = refl;
}

command_line-perm_example :
    (string flags_ab ≡ string flags_ba) × (string_slice flags_ab ≡ string_slice flags_ba)
command_line-perm_example = command_line-perm flags_ab flags_ba flags_ab-SameFlags

-- Two lines, the second one without a line break.
abbrev printed : Text
printed = 97 ∷ 98 ∷ 10 ∷ 99 ∷ []

printed-fits : 0 + length (lines [] printed) ≤ Local.stream_cap
unfolding lines
printed-fits = omega arith

write-shown_example : Returns (write printed running) (λ n w'.
    (n ≡ length printed) × (w' ≡ put_stream (shown running.node (lines [] printed)) running))
write-shown_example = write-shown printed running printed-fits

lines-Cuts_example : Cuts printed (lines [] printed)
lines-Cuts_example = lines-Cuts printed
