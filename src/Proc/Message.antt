-- ===== src/Proc/Message.antt =====
-- What is written to the log streams, one constructor for each format string, with the values that
-- it shows; `text` is a string that is spelled out.
use etcd_play.Base.{ℕ, List}
use etcd_play.Base.Text.{Text}
use etcd_play.Base.Time.{ℤ}
use etcd_play.Proc.Error.{Error}

pub data Message : Type 0 where
  text : Text → Message
  -- node_web_local.go
  start_node : Text → Message
  restart_node : Text → Message
  terminate_node : Text → ℕ → Message
  clean_node : Text → Text → Message
  start_wait_returned : Text → Error → Message
  restart_wait_returned : Text → Error → Message
  exiting : Text → Message
  -- the width of names, the index of the colour, the node, and a line of its output
  output : ℕ → ℕ → Text → Text → Message
  -- proc_cluster.go
  put_started : List Text → Message
  put_done : Text → Text → ℤ → List Text → Message
  get_started : List Text → Message
  get_value : Text → Text → Message
  get_missing : Text → Message
  get_done : ℤ → List Text → Message
  delete_started : List Text → Message
  delete_done : ℕ → ℤ → List Text → Message
  stress_put : ℕ → Text → Text → Message
  stress_done : ℤ → ℕ → ℕ → List Text → Message
  -- backend.go
  starting_nodes : ℤ → Message
  cluster_error : Error → Message
  unexpected_interruption : Message
  cluster_time_out : ℤ → Message
