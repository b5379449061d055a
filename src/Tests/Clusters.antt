-- ===== src/Tests/Clusters.antt =====
-- The theorems on clusters, on a cluster of one node.
use etcd_play.Base.{suc, ◌<◌, length, ◌≡◌, ◌≢◌, refl, true, [], ◌∷◌, none, some, arith, All}
use etcd_play.Base.Text.{Text, codes, same}
use etcd_play.Base.Map.{Map, lookup, insert, lookup-insert_self}
use etcd_play.Base.Time.{since, pos}
use etcd_play.Base.Outcome.{Returns, state_of}
use etcd_play.Proc.Error.{ok, err, external}
use etcd_play.Proc.Cluster.{Cluster, local}
use etcd_play.Proc.Cluster.Control
use etcd_play.Proc.Cluster.Control.{shutdown}
use etcd_play.Proc.Cluster.Lookup.{Holds, other_nodes_untouched}
use etcd_play.Proc.Cluster.Life.{Runs, shutdown_spares_restarted}
use etcd_play.Proc.Cluster.Report.{Answers, answered, late}
use etcd_play.Proc.Cluster.Report.{leader_go}
use etcd_play.Proc.Cluster.Leading.{LeadsAs, leader_go-LeadsAs}
use etcd_play.Base.{false}
use etcd_play.Proc.Flags.{is_valid, string}
use etcd_play.Proc.Node.Local.{existing, stream_cap}
use etcd_play.Proc.Node.Refines.{launch}
use etcd_play.Proc.Cluster.Control.{revive, restart_all}
use etcd_play.Proc.Cluster.Fit.{IsFit}
use etcd_play.Proc.Cluster.Rounds.{HasIn, IsUp}
use etcd_play.Proc.Cluster.Idle.{Waits, revive-runs}
use etcd_play.Proc.Cluster.Kv.{put, delete_key}
use etcd_play.Proc.Node.{endpoint, address}
use etcd_play.Proc.Message.{put_started, put_done, delete_started, delete_done}
use etcd_play.Proc.Cluster.Reached.{waiting, Answered, requests-Answered}
use etcd_play.Proc.Cluster.Named.{AllParse}
use etcd_play.Tests.{after_slashes, answers, flags_etcd1, local_outside}
use etcd_play.Tests.{outside_at, one_node, local_node}

names_differ : codes "etcd2" ≢ codes "etcd1"
names_differ e = ground (arith, e)

other_nodes_untouched_example :
    let name : Text = codes "etcd2" in
    let before = lookup (codes "etcd1") one_node.name_to_node in
    Holds (codes "etcd1") before (state_of (Control.start (outside_at 30) name one_node))
    × Holds (codes "etcd1") before (state_of (Control.restart (outside_at 30) name one_node))
    × Holds (codes "etcd1") before (state_of (Control.terminate (outside_at 30) name one_node))
    × Holds (codes "etcd1") before (state_of (Control.clean (outside_at 30) name one_node))
other_nodes_untouched_example =
    other_nodes_untouched (outside_at 30) (codes "etcd2") (codes "etcd1") one_node names_differ

one_node-Runs : Runs (codes "etcd1") 7 20 one_node
one_node-Runs = (
  local_node true,
  lookup-insert_self (codes "etcd1") (local (local_node true)) [],
  (refl, refl, refl),
)

shutdown_spares_restarted_example :
    Runs (codes "etcd1") 7 20 (state_of (shutdown (outside_at 25) one_node))
shutdown_spares_restarted_example =
    shutdown_spares_restarted (outside_at 25) (codes "etcd1") 7 20 one_node (omega arith)
      (omega arith) one_node-Runs

-- One endpoint cannot be dialled, the other one answers nothing in time.
abbrev pub status_answers : Answers
status_answers = record {
  host = after_slashes;
  client_new = λ ep. none;
  maintenance_status = λ ep. err (external (codes "refused"));
  dial = λ ep. none;
  status = λ ep. late;
  hash = λ ep. answered 7;
}

abbrev two_endpoints : Map Text
two_endpoints =
    (codes "etcd1", codes "localhost:1279") ∷ (codes "etcd2", codes "localhost:1379") ∷ []

-- Every member says that it leads.
abbrev leading : Answers
leading = record status_answers {
  maintenance_status = λ ep. ok (record { member_id = 3; leader = 3; db_size = 10 });
}

abbrev names : Map Text
names = (codes "localhost:1279", codes "etcd1") ∷ []

found : leader_go leading names none (codes "localhost:1279" ∷ []) ≡ ok (codes "etcd1")
unfolding leader_go lookup same
found = refl

leader_go-LeadsAs_example : LeadsAs leading names (codes "etcd1") (codes "localhost:1279" ∷ [])
leader_go-LeadsAs_example =
    leader_go-LeadsAs leading names none (codes "localhost:1279" ∷ []) (codes "etcd1") found

-- A cluster whose only node is down.
abbrev pub idle : Cluster
idle = record {
  shared = record { locked = false; stream = [] };
  id_to_stream = [];
  name_to_node = (codes "etcd1", local (local_node false)) ∷ [];
}

pub etcd1-valid : is_valid flags_etcd1 ≡ ok tt
unfolding is_valid same
etcd1-valid = refl

idle-IsFit : IsFit idle
idle-IsFit = record { free = refl; nodes = (etcd1-valid, tt) }

pub idle-Holds : Holds (codes "etcd1") (some (local (local_node false))) idle
unfolding lookup same
idle-Holds = refl

starts_again : launch (local_outside 30) (existing (local_node false)) ≡ none
unfolding string
starts_again = refl

idle-Waits : HasIn (Waits (outside_at 30)) idle (codes "etcd1")
unfolding since
idle-Waits = (local (local_node false), idle-Holds, (refl, (refl, refl), etcd1-valid, starts_again))

revive-runs_example :
    Returns
      (revive (outside_at 30) idle)
      (λ e c'. (e ≡ none) × All (HasIn IsUp c') (codes "etcd1" ∷ []))
revive-runs_example =
    revive-runs (outside_at 30) idle idle-IsFit (tt, tt) (omega arith) (idle-Waits, tt)

pub one_node-IsFit : IsFit one_node
unfolding insert
one_node-IsFit = record { free = refl; nodes = (etcd1-valid, tt) }

pub no_name : codes "etcd1" ≢ []
no_name e = ground (arith, e)

quiet : suc (length (waiting (codes "me") one_node)) < stream_cap
unfolding lookup
quiet = omega arith

pub all_parse : AllParse after_slashes one_node
unfolding lookup insert endpoint
all_parse name nd e = ground (arith, e)

requests-Answered_example :
    let ep : Text = address after_slashes flags_etcd1 in
    Returns (put answers (codes "etcd1") (codes "k") (codes "v") (codes "me" ∷ []) one_node) (
      Answered
        (codes "me")
        (put_started (ep ∷ []))
        (put_done (codes "k") (codes "v") (pos 3) (ep ∷ []))
        (ok (pos 3))
        one_node)
    × Returns (delete_key answers (codes "etcd1") (codes "k") true (codes "me" ∷ []) one_node) (
        Answered
          (codes "me")
          (delete_started (ep ∷ []))
          (delete_done 0 (pos 3) (ep ∷ []))
          (ok (0, pos 3))
          one_node)
requests-Answered_example =
    requests-Answered answers (codes "etcd1") (codes "me") (local (local_node true)) one_node
      (codes "k") (codes "v") true one_node-IsFit all_parse no_name
      (lookup-insert_self (codes "etcd1") (local (local_node true)) []) quiet refl
