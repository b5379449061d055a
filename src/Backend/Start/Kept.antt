-- ===== src/Backend/Start/Kept.antt =====
-- startCluster (backend/backend.go) when there is a cluster already.
use etcd_play.Base.{◌≡◌, false, some, arith}
use etcd_play.Base.Text.{Text}
use etcd_play.Base.Outcome.{state_of}
use etcd_play.Proc.Error.{Result}
use etcd_play.Proc.Cluster.{Cluster}
use etcd_play.Backend.State.{App}
use etcd_play.Backend.Start.{start_cluster}

-- When the mutex is free, a cluster that is there is kept, with the users and the answers, and the
-- mutex is free again, however the second start ends.
pub start_cluster_keeps :
    (new_agent : Text → Result Text) (token : Text) (a : App) (c : Cluster)
    → a.locked ≡ false
    → a.cluster ≡ some c
    → let a' : App = state_of (start_cluster new_agent token a) in
      (a'.cluster ≡ some c) × (a'.users ≡ a.users) × (a'.written ≡ a.written) × (a'.locked ≡ false)
unfolding start_cluster
start_cluster_keeps new_agent token a c free there = ground arith
