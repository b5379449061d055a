-- ===== src/Proc/Cluster/Behind.antt =====
-- What goes on in a local node after its method has returned (proc/node_web_local.go): the process
-- writes, and the goroutine that waits for it sends a last line.
use etcd_play.Base.{Option, none, some}
use etcd_play.Base.Text.{Text}
use etcd_play.Base.Map.{lookup}
use etcd_play.Base.Outcome.{M, ◌>>=◌, pure}
use etcd_play.Proc.Error.{Error}
use etcd_play.Proc.Node.Local.{World, start_waited, restart_waited}
use etcd_play.Proc.Node.Output.{write}
use etcd_play.Proc.Cluster.{Cluster, Node, local, remote, on_local}

pub data Job : Type 0 where
  start_waits : Option Error → Job
  restart_waits : Option Error → Job
  prints : Text → Job

unfoldable pub run_job : Job → M World (Unit {0})
unfolding start_waited restart_waited write
run_job (start_waits r) = start_waited r
run_job (restart_waits r) = restart_waited r
run_job (prints p) = do n ← write p; pure tt

-- A remote node has no such goroutine in this program.
abbrev pub job_at : Job → Text → Option Node → M Cluster (Unit {0})
job_at job name none = pure tt
job_at job name (some (local nd)) = on_local name nd (run_job job)
job_at job name (some (remote nd)) = pure tt

unfoldable pub behind : Job → Text → M Cluster (Unit {0})
unfolding run_job
behind job name c = job_at job name (lookup name c.name_to_node) c
