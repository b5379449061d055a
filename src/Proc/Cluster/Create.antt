-- ===== src/Proc/Cluster/Create.antt =====
-- proc/proc_cluster.go: the options and NewCluster. `new_agent` is the agent client's constructor,
-- which lies outside the repository's own code, and the token is a fresh uuid. The paths of TLS
-- certificates, which nothing reads, are left out of the nodes.
use etcd_play.Base.{
  ℕ, ◌+◌, Bool, true, false, ◌&&◌, not, List, [], ◌∷◌, Option, none, some, length, leb, ltb, ◌==◌,
  get_elem?, if◌then◌else◌,
}
use etcd_play.Base.Text.{Text, codes}
use etcd_play.Base.Time.{ℤ, pos}
use etcd_play.Base.Map.{Map, insert}
use etcd_play.Proc.Error.{
  Result, ok, err, ◌>>=◌, ◌>>◌, agent_endpoints_size, no_agent_endpoints, external,
}
use etcd_play.Proc.Flags.{Flags, combine_flags}
use etcd_play.Proc.Node.Local.{NodeWebLocal}
use etcd_play.Proc.Node.Remote.{NodeWebRemoteClient}
use etcd_play.Proc.Cluster.{Cluster, Node, local, remote}

pub data NodeType : Type 0 where
  web_local web_remote : NodeType

abbrev pub is_remote : NodeType → Bool
is_remote web_local = false
is_remote web_remote = true

pub record Op : Type 0 where
  pub live_log : Bool
  pub limit_interval : ℤ
  pub agent_endpoints : List Text

abbrev pub OpOption : Type 0
OpOption = Op → Op

abbrev pub with_live_log : OpOption
with_live_log o = record o { live_log = true }

abbrev pub with_limit_interval : ℤ → OpOption
with_limit_interval d o = record o { limit_interval = d }

abbrev pub with_agent_endpoints : List Text → OpOption
with_agent_endpoints eps o = record o { agent_endpoints = eps }

-- apply, from the zero value of op
unfoldable pub apply : List OpOption → Op → Op
apply [] o = o
apply (opt ∷ opts) o = apply opts (opt o)

abbrev pub zero_op : Op
zero_op = record { live_log = false; limit_interval = pos 0; agent_endpoints = [] }

-- len(colorsToHTML)
abbrev pub colors_len : ℕ
colors_len = 5

abbrev pub next_color : ℕ → ℕ
next_color i = if leb colors_len i then 0 else i

-- maxProcNameLength is shared by pointer: every node sees the value after the loop.
unfoldable pub max_name_length : ℕ → List Flags → ℕ
max_name_length n [] = n
max_name_length n (f ∷ fs) = max_name_length (if ltb n (length f.name) then length f.name else n) fs

abbrev pub new_local : Text → Op → ℕ → ℕ → Flags → NodeWebLocal
new_local program_path o max_length color_idx f = record {
  max_proc_name_length = max_length;
  color_idx = color_idx;
  live_log = o.live_log;
  program_path = program_path;
  flags = f;
  cmd = none;
  pid = 0;
  active = false;
  limit_interval = o.limit_interval;
  last_terminated = 0;
  last_restarted = 0;
}

abbrev pub new_remote : Op → Text → Flags → NodeWebRemoteClient
new_remote o agent f = record {
  locked = false;
  flags = f;
  agent = agent;
  active = false;
  limit_interval = o.limit_interval;
  last_terminated = 0;
  last_restarted = 0;
}

-- The loop over the flags; `i` and `color_idx` are the loop's counters. An index past the agent
-- endpoints, which the size check rules out, would panic: here it is an error of its own.
unfoldable pub make_nodes :
    (Text → Result Text)
    → NodeType
    → Text
    → Op
    → ℕ
    → ℕ
    → ℕ
    → List Flags
    → Map Node
    → Result (Map Node)
unfolding insert
make_nodes new_agent t path o max_length i color_idx [] m = ok m
make_nodes new_agent web_local path o max_length i color_idx (f ∷ fs) m =
    make_nodes new_agent web_local path o max_length (i + 1) (next_color color_idx + 1) fs
      (insert f.name (local (new_local path o max_length (next_color color_idx) f)) m)
make_nodes new_agent web_remote path o max_length i color_idx (f ∷ fs) m = elim o.agent_endpoints [
  | [] ↦ err no_agent_endpoints
  | ep ∷ eps ↦ elim (get_elem? (ep ∷ eps) i) [
    | none ↦ err (external (codes "index out of range"))
    | some ep' ↦ do
      agent ← new_agent ep'
      make_nodes new_agent web_remote path o max_length (i + 1) (next_color color_idx + 1) fs
          (insert f.name (remote (new_remote o agent f)) m)
  ]
]

-- `agent endpoints must be the same size of flags`
unfoldable pub check_sizes : NodeType → Op → List Flags → Result (Unit {0})
check_sizes t o fs =
    if (ltb 0 (length o.agent_endpoints) && is_remote t)
      && not (length o.agent_endpoints == length fs)
    then err (agent_endpoints_size (length o.agent_endpoints) (length fs))
    else ok tt

-- NewCluster; no flags give a nil cluster and no error.
unfoldable pub new_cluster :
    (Text → Result Text)
    → Text
    → NodeType
    → Text
    → List Flags
    → List OpOption
    → Result (Option Cluster)
unfolding apply check_sizes combine_flags max_name_length make_nodes
new_cluster new_agent token t path [] opts = ok none
new_cluster new_agent token t path (f ∷ fs) opts = do
  let o = apply opts zero_op
  check_sizes t o (f ∷ fs)
  gs ← combine_flags token (is_remote t) (f ∷ fs)
  nodes ← make_nodes new_agent t path o (max_name_length 0 gs) 0 0 gs []
  ok (
      some (record {
        shared = record { locked = false; stream = [] };
        id_to_stream = [];
        name_to_node = nodes;
      }))
