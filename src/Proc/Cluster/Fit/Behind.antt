-- ===== src/Proc/Cluster/Fit/Behind.antt =====
-- What goes on in a node after its method has returned (proc/node_web_local.go) keeps a cluster fit.
use etcd_play.Base.{List, [], ◌∷◌, Option, none, some, arith, ltb, length}
use etcd_play.Base.Text.{Text}
use etcd_play.Base.Map.{lookup}
use etcd_play.Base.Outcome.{state_of}
use etcd_play.Base.Outcome.Preserves.{
  Preserves, Preserves-pure, Preserves-get, Preserves-bind, Preserves-Bool,
}
use etcd_play.Proc.Message.{Message}
use etcd_play.Proc.Node.Local.{World, send}
use etcd_play.Proc.Node.Output.{lines, output_of, send_lines, write}
use etcd_play.Proc.Cluster.{Node, local, remote}
use etcd_play.Proc.Cluster.Behind.{Job, start_waits, restart_waits, prints, run_job, job_at, behind}
use etcd_play.Proc.Cluster.Fit.{IsFit, WorldFits, FoundFits, found-FoundFits, on_local-Preserves}

send-Preserves : (m : Message) → Preserves WorldFits (send m)
unfolding send
send-Preserves m = record { kept = λ w f. (ground (arith, f.0), ground (arith, f.1)) }

send_lines-Preserves : (ls : List Text) → Preserves WorldFits (send_lines ls)
unfolding send_lines
send_lines-Preserves [] = Preserves-pure tt
send_lines-Preserves (l ∷ ls) = Preserves-bind Preserves-get (λ w.
    Preserves-bind
      (Preserves-Bool (ltb 1 (length l)) (send-Preserves (output_of w.node l)) (Preserves-pure tt))
      (λ u. send_lines-Preserves ls))

write-Preserves : (p : Text) → Preserves WorldFits (write p)
unfolding write
write-Preserves p = Preserves-bind (send_lines-Preserves (lines [] p)) (λ u. Preserves-pure _)

run_job-WorldFits : (job : Job) (w : World) → WorldFits w → WorldFits (state_of (run_job job w))
unfolding run_job
run_job-WorldFits (start_waits r) w h = ground arith
run_job-WorldFits (restart_waits r) w h = ground arith
run_job-WorldFits (prints p) w h =
    (Preserves-bind (write-Preserves p) (λ n. Preserves-pure tt)).kept w h

job_at-Preserves :
    (job : Job) (name : Text) (v : Option Node) → FoundFits v → Preserves IsFit (job_at job name v)
job_at-Preserves job name none h = Preserves-pure tt
job_at-Preserves job name (some (local nd)) h =
    on_local-Preserves name nd (run_job job) (run_job-WorldFits job) h
job_at-Preserves job name (some (remote nd)) h = Preserves-pure tt

pub behind-Preserves : (job : Job) (name : Text) → Preserves IsFit (behind job name)
unfolding behind
behind-Preserves job name = record {
  kept = λ c f.
      (job_at-Preserves job name (lookup name c.name_to_node) (found-FoundFits name c f)).kept c f;
}
