-- ===== src/Tests.antt =====
-- Concrete data for the examples: one node of each kind, a cluster, and the web server's state.
mod Nodes
mod Turns
mod Clusters
mod Web
mod Server
mod Starts
mod Requests
mod Bytes
use etcd_play.Base.{
  ℕ, ◌+◌, Bool, true, false, List, [], ◌∷◌, Option, none, some, ◌==◌, if◌then◌else◌,
}
use etcd_play.Base.Text.{Text, codes}
use etcd_play.Base.Time.{pos}
use etcd_play.Base.Map.{Map, insert}
use etcd_play.Proc.Error.{Error, Result, ok, external}
use etcd_play.Proc.Flags.{Flags}
use etcd_play.Proc.Node.{Readings}
use etcd_play.Proc.Node.Local
use etcd_play.Proc.Node.Local.{NodeWebLocal, World, Shared}
use etcd_play.Proc.Node.Remote
use etcd_play.Proc.Node.Remote.{NodeWebRemoteClient}
use etcd_play.Proc.Cluster
use etcd_play.Proc.Cluster.{Cluster, Node, local}
use etcd_play.Proc.Cluster.Kv.{Answers}
use etcd_play.Backend.State.{App, GlobalFlags, UserData, Request}

abbrev pub flags_named : Text → List Text → Flags
flags_named name peers = record {
  name = name;
  data_dir = codes "etcd1.etcd";
  listen_client_urls = codes "http://localhost:1279" ∷ [];
  advertise_client_urls = codes "http://localhost:1279" ∷ [];
  listen_peer_urls = peers;
  advertise_peer_urls = peers;
  initial_cluster = [];
  initial_cluster_token = codes "token";
  initial_cluster_state = codes "new";
  client_auto_tls = false;
  peer_auto_tls = false;
}

abbrev pub flags_etcd1 : Flags
flags_etcd1 = flags_named (codes "etcd1") (codes "http://localhost:1280" ∷ [])

-- Stands for url.Parse: what follows the two slashes; an opening bracket there is refused.
abbrev pub after_slashes : Text → Option Text
after_slashes (_ ∷ _ ∷ _ ∷ _ ∷ _ ∷ _ ∷ _ ∷ c ∷ cs) = if c == 91 then none else some (c ∷ cs)
after_slashes u = some []

abbrev pub at : ℕ → Readings
at t = record { first = t; second = t + 1; third = t + 2 }

abbrev pub local_outside : ℕ → Local.Outside
local_outside t = record {
  shell_env = codes "bash";
  exec_start = λ args. ok 77;
  kill = λ pid. none;
  remove_all = λ dir. none;
  now = at t;
}

abbrev pub local_node : Bool → NodeWebLocal
local_node active = record {
  max_proc_name_length = 5;
  color_idx = 0;
  live_log = false;
  program_path = codes "/bin/etcd";
  flags = flags_etcd1;
  cmd = none;
  pid = 77;
  active = active;
  limit_interval = pos 7;
  last_terminated = 0;
  last_restarted = 20;
}

abbrev pub local_world : Bool → World
local_world active = record {
  node = local_node active;
  shared = record { locked = false; stream = [] };
}

abbrev pub remote_outside : ℕ → Remote.Outside
remote_outside t = record {
  agent_start = λ args. none;
  agent_restart = none;
  agent_stop = none;
  agent_cleanup = none;
  now = at t;
}

abbrev pub remote_node : Bool → NodeWebRemoteClient
remote_node active = record {
  locked = false;
  flags = flags_etcd1;
  agent = codes "10.0.0.1:9027";
  active = active;
  limit_interval = pos 7;
  last_terminated = 0;
  last_restarted = 0;
}

abbrev pub outside_at : ℕ → Cluster.Outside
outside_at t = record { of_local = λ name. local_outside t; of_remote = λ name. remote_outside t }

abbrev pub one_node : Cluster
one_node = record {
  shared = record { locked = false; stream = [] };
  id_to_stream = [];
  name_to_node = insert (codes "etcd1") (local (local_node true)) [];
}

abbrev pub no_nodes : Cluster
no_nodes = record {
  shared = record { locked = false; stream = [] };
  id_to_stream = [];
  name_to_node = [];
}

abbrev pub visitor : UserData
visitor = record {
  start_time = 0;
  last_request_time = 0;
  request_count = 0;
  selected_node_name = codes "etcd1";
  selected_operation = codes "PUT";
  last_key = codes "k";
  last_value = codes "v";
  key_history = codes "k" ∷ [];
}

abbrev pub user_id : Text
user_id = codes "127.0.0.1linuxchrome"

abbrev pub app_of : Map UserData → App
app_of users = record {
  locked = false;
  cluster = none;
  users = users;
  active_user_list = [];
  name_to_status = [];
  port_prefix = 12;
  flags = record {
    etcd_binary = codes "bin/etcd";
    cluster_size = pos 5;
    live_log = false;
    keep_alive = false;
    cluster_timeout = pos 5;
    limit_interval = pos 7;
    revive_interval = pos 900;
    stress_number = pos 10;
    play_web_port = codes ":8000";
    is_remote = false;
    agent_endpoints = [];
  };
  written = [];
}

abbrev pub request : Text → Request
request method = record {
  method = method;
  url = codes "/key_value";
  form_error = none;
  form = (codes "key_input", codes "<foo>" ∷ []) ∷ [];
  encode = none;
}

abbrev pub digest : Text → Text
digest s = codes "0123456789012345678901234567890123456789012345678901234567890123"

abbrev pub answers : Answers
answers = record {
  host = after_slashes;
  starts_at = 1;
  client_new = λ eps. none;
  put = λ ep k v. none;
  get = λ ep k range. ok [];
  delete = λ ep k range. ok 0;
  took = pos 3;
}

abbrev pub no_agent : Text → Result Text
no_agent ep = ok ep
