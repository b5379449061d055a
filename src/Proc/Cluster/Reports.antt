-- ===== src/Proc/Cluster/Reports.antt =====
-- Status (proc/proc_cluster.go): what it reports under each name.
use etcd_play.Base.{ℕ, Option, none, some}
use etcd_play.Base.Text.{Text}
use etcd_play.Base.Map.{Map}
use etcd_play.Proc.Error.{Error, Result, ok, err}
use etcd_play.Proc.Cluster.{Cluster}
use etcd_play.Proc.Cluster.Report.{Answers, ServerStatus, empty_stat, get_status}

-- What is reported of a node that was asked: its answer, or that it cannot be reached.
abbrev pub report : (ℕ → Text) → Answers → Text → Text → ServerStatus
report bytes_text w name ep = elim (get_status bytes_text w name ep) [
  | ok s ↦ s
  | err e ↦ record empty_stat { name = name; endpoint = ep }
]

abbrev answer_of : Result ServerStatus → Option ServerStatus → Option ServerStatus
answer_of (ok s) other = some s
answer_of (err e) other = other

-- What the loop over the answers leaves under a name.
abbrev collected :
    (ℕ → Text) → Answers → Text → Option Text → Option ServerStatus → Option ServerStatus
collected bytes_text w name none other = other
collected bytes_text w name (some ep) other = answer_of (get_status bytes_text w name ep) other

-- What Status reports under a name, for the endpoint of the node that has it.
abbrev pub reported : (ℕ → Text) → Answers → Text → Option Text → Option ServerStatus
reported bytes_text w name none = none
reported bytes_text w name (some ep) = some (report bytes_text w name ep)
