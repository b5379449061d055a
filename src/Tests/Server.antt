-- ===== src/Tests/Server.antt =====
-- The theorems on the running server, on a concrete run.
use etcd_play.Base.{◌≡◌, refl, false, [], ◌∷◌, none, some}
use etcd_play.Base.Text.{codes}
use etcd_play.Base.Time.{pos}
use etcd_play.Base.Outcome.{state_of}
use etcd_play.Proc.Error.{external}
use etcd_play.Proc.Cluster.Kv.{StressRun}
use etcd_play.Backend.State.{App, GlobalFlags}
use etcd_play.Backend.Loops.{clean_up_users}
use etcd_play.Backend.Router.{Outside, Visit, serve, command_func, init_global_data}
use etcd_play.Base.Text.{same}
use etcd_play.Base.Map.{lookup, insert}
use etcd_play.Base.{true}
use etcd_play.Proc.Flags.{is_valid}
use etcd_play.Proc.Node.{spec_restart, spec_terminate}
use etcd_play.Proc.Node.Local.{existing}
use etcd_play.Proc.Node.Refines.{launch, local_life}
use etcd_play.Backend.Router.{handle, route, to_kill, to_restart}
use etcd_play.Backend.Cache.{count_request}
use etcd_play.Base.Decimal.{decimal}
use etcd_play.Backend.Start.{node_name, boot_cluster}
use etcd_play.Base.{arith}
use etcd_play.Base.Outcome.{Returns}
use etcd_play.Backend.Router.Buttons.{
  Admitted, Stands, Pressed, at_path, kill_path, restart_path, buttons-Pressed,
}
use etcd_play.Tests.{app_of, one_node, local_node, local_outside, visitor, user_id}
use etcd_play.Base.Text.{Text}
use etcd_play.Base.Map.{Map}
use etcd_play.Proc.Error.{Error}
use etcd_play.Backend.Server.{Reach, Step, Reach-IsSound}
use etcd_play.Backend.Sound.{IsSound}
use etcd_play.Tests.{after_slashes, digest, answers, no_agent, at, outside_at, request}

abbrev stress_run : StressRun
stress_run = record {
  host = after_slashes;
  starts_at = 0;
  client_new = λ eps. none;
  put = λ eps k v. none;
  keys = codes "a" ∷ [];
  vals = codes "b" ∷ [];
  schedule = 0 ∷ [];
  total = pos 9;
  took = pos 9;
  out_of_time = false;
}

abbrev outside : Outside
outside = record {
  nodes = outside_at 30;
  answers = answers;
  stress_run = stress_run;
  new_agent = no_agent;
  token = codes "token";
  picks = [];
  arrival = 20;
  now = at 30;
  upgrade_error = none;
  last_error = external (codes "closed");
}

-- A visitor who presses the button that starts the cluster.
abbrev visit : Visit
visit = record {
  origin = record {
    header = [];
    remote_addr = codes "127.0.0.1:4321";
    user_agent = codes "Mozilla/5.0 (X11; Linux x86_64)";
  };
  path = codes "/start_cluster";
  request = request (codes "GET");
}

abbrev flags : GlobalFlags
flags = record {
  etcd_binary = codes "bin/etcd";
  cluster_size = pos 5;
  live_log = false;
  keep_alive = false;
  cluster_timeout = pos 300;
  limit_interval = pos 7;
  revive_interval = pos 900;
  stress_number = pos 3;
  play_web_port = codes ":8000";
  is_remote = false;
  agent_endpoints = codes "localhost:9027" ∷ [];
}

begun : command_func flags ≡ some (init_global_data flags)
unfolding command_func
begun = refl

-- The server after the visit, and the goroutine of startCluster and a round of the loop that drops old users.
abbrev visited : App
visited = state_of (serve digest outside visit (init_global_data flags))

reached : Reach digest flags visited
reached = Reach.later (Reach.starts begun) (Step.serves outside visit)

-- The goroutine of startCluster has called Bootstrap, which waits for the signal.
abbrev booted : App
booted = state_of (boot_cluster (outside_at 31) (outside_at 32) user_id false visited)

reached_boot : Reach digest flags booted
reached_boot = Reach.later reached (Step.boots (outside_at 31) (outside_at 32) user_id false)

Reach-IsSound_example : IsSound (state_of (clean_up_users 50 booted))
Reach-IsSound_example = Reach-IsSound digest (Reach.later reached_boot (Step.cleans 50))

-- The server with one node that runs, when its visitor presses the node's buttons.
abbrev pressed : App
pressed = record (app_of ((user_id, visitor) ∷ [])) { cluster = some one_node }

pressed-Admitted : Admitted user_id (at 30) (request (codes "GET")) one_node pressed
unfolding lookup same count_request
pressed-Admitted = record {
  free = refl;
  there = refl;
  get = refl;
  user = visitor;
  known = refl;
  allowed = refl;
}

one_node-Stands : Stands (node_name 0) (local_node true) one_node
unfolding lookup insert same decimal is_valid
one_node-Stands = record {
  found = refl;
  ready = record { free = refl; room = omega arith; valid = refl };
}

buttons-Pressed_example :
    let l = local_outside 30 in
    let nd = local_node true in
    let r = request (codes "GET") in
    (route (kill_path 0) ≡ some to_kill)
    × Returns (handle outside user_id (at_path (kill_path 0) r) to_kill pressed) (
        Pressed
          (node_name 0)
          one_node
          (spec_terminate (codes "etcd1") (pos 7) (at 30) none (local_life nd)))
    × (route (restart_path 0) ≡ some to_restart)
    × Returns (handle outside user_id (at_path (restart_path 0) r) to_restart pressed) (
        Pressed
          (node_name 0)
          one_node
          (spec_restart (codes "etcd1") (pos 7) (at 30) (launch l (existing nd)) (local_life nd)))
buttons-Pressed_example =
    buttons-Pressed outside user_id (request (codes "GET")) one_node pressed (local_node true) 0
      (omega arith) pressed-Admitted one_node-Stands
