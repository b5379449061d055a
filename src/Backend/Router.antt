-- ===== src/Backend/Router.antt =====
-- backend/backend.go: the flags of the web command, the routes of CommandFunc, and how ContextAdapter
-- serves a request.
pub mod Named
pub mod Buttons
use etcd_play.Base.{ℕ, ◌*◌, Bool, true, false, List, [], ◌∷◌, Option, none, some}
use etcd_play.Base.Text.{Text, codes}
use etcd_play.Base.Time.{ℤ, pos, second}
use etcd_play.Base.Map.{Map, lookup}
use etcd_play.Base.Outcome.{M, ◌>>=◌, ◌>>◌, pure}
use etcd_play.Proc.Error.{Error, Result}
use etcd_play.Proc.Node.{Readings}
use etcd_play.Proc.Cluster
use etcd_play.Proc.Cluster.Kv.{Answers, StressRun}
use etcd_play.Backend.State.{App, GlobalFlags, Request}
use etcd_play.Backend.UserId.{Origin, get_user_id}
use etcd_play.Backend.Cache.{with_cache}
use etcd_play.Backend.Start.{sizes_agree}
use etcd_play.Backend.Handlers.Control.{kill_handler, restart_handler, stress_handler, ws_handler}
use etcd_play.Backend.Handlers.Values.{key_value_handler, key_history_handler}
use etcd_play.Backend.Handlers.Pages.{start_cluster_handler, server_status_handler, stream_handler}

-- The values of the flags that a command line leaves out; `bin_etcd` is bin/etcd under GOPATH.
unfoldable pub default_flags : Text → GlobalFlags
default_flags bin_etcd = record {
  etcd_binary = bin_etcd;
  cluster_size = pos 5;
  live_log = false;
  keep_alive = false;
  cluster_timeout = pos (5 * (60 * second));
  limit_interval = pos (7 * second);
  revive_interval = pos (15 * (60 * second));
  stress_number = pos 3;
  play_web_port = codes ":8000";
  is_remote = false;
  agent_endpoints = codes "localhost:9027" ∷ [];
}

-- The global variables after initGlobalData.
abbrev pub init_global_data : GlobalFlags → App
init_global_data g = record {
  locked = false;
  cluster = none;
  users = [];
  active_user_list = [];
  name_to_status = [];
  port_prefix = 12;
  flags = g;
  written = [];
}

-- CommandFunc until it serves: `none` where it exits.
unfoldable pub command_func : GlobalFlags → Option App
unfolding sizes_agree
command_func g = elim (sizes_agree g) [ false ↦ none | true ↦ some (init_global_data g) ]

-- The handlers that the mux knows.
pub data Route : Type 0 where
  to_ws to_stream to_server_status to_start_cluster to_stress to_key_history to_key_value : Route
  to_kill to_restart : Route

abbrev pub routes : Map Route
routes =
    (codes "/ws", to_ws)
    ∷ (codes "/stream", to_stream)
    ∷ (codes "/server_status", to_server_status)
    ∷ (codes "/start_cluster", to_start_cluster)
    ∷ (codes "/stress", to_stress)
    ∷ (codes "/key_history", to_key_history)
    ∷ (codes "/key_value", to_key_value)
    ∷ (codes "/kill_1", to_kill)
    ∷ (codes "/kill_2", to_kill)
    ∷ (codes "/kill_3", to_kill)
    ∷ (codes "/kill_4", to_kill)
    ∷ (codes "/kill_5", to_kill)
    ∷ (codes "/restart_1", to_restart)
    ∷ (codes "/restart_2", to_restart)
    ∷ (codes "/restart_3", to_restart)
    ∷ (codes "/restart_4", to_restart)
    ∷ (codes "/restart_5", to_restart)
    ∷ []

-- The handler of a path, which ends in no slash and so is matched as a whole; `none` is the file
-- server at "/".
unfoldable pub route : Text → Option Route
unfolding lookup
route path = lookup path routes

-- What the world does while one request is served: what the nodes' processes or agents answer, what
-- the etcd servers answer, the readings of the clock, and what the web socket does.
pub record Outside : Type 0 where
  pub nodes : Cluster.Outside
  pub answers : Answers
  pub stress_run : StressRun
  pub new_agent : Text → Result Text
  pub token : Text
  pub picks : List Bool
  pub arrival : ℕ
  pub now : Readings
  pub upgrade_error : Option Error
  pub last_error : Error

-- A request: who sends it, its URL.Path, and what the handlers read.
pub record Visit : Type 0 where
  pub origin : Origin
  pub path : Text
  pub request : Request

unfoldable pub handle : Outside → Text → Request → Route → M App (Option Error)
unfolding ws_handler stream_handler server_status_handler start_cluster_handler stress_handler
    key_history_handler key_value_handler kill_handler restart_handler
handle o id r to_ws = ws_handler o.upgrade_error o.last_error id
handle o id r to_stream = stream_handler o.picks id r
handle o id r to_server_status = server_status_handler r
handle o id r to_start_cluster = start_cluster_handler o.new_agent o.token r
handle o id r to_stress = stress_handler o.stress_run id o.now r
handle o id r to_key_history = key_history_handler id r
handle o id r to_key_value = key_value_handler o.answers id o.now r
handle o id r to_kill = kill_handler o.nodes id o.now r
handle o id r to_restart = restart_handler o.nodes id o.now r

-- ServeHTTP of the mux and of ContextAdapter, which logs the handler's error.
unfoldable pub serve : (Text → Text) → Outside → Visit → M App (Unit {0})
unfolding route handle with_cache get_user_id
serve sha512 o v = elim (route v.path) [
  | none ↦ pure tt
  | some to ↦ do
    with_cache (get_user_id sha512 v.origin) o.arrival
        (handle o (get_user_id sha512 v.origin) v.request to)
    pure tt
]
