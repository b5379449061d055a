-- ===== src/Backend/Start/Turns/Sequential.antt =====
-- startCluster (backend/backend.go) that no other goroutine interrupts is its sections in a row.
use etcd_play.Base.{◌≡◌, arith}
use etcd_play.Base.Text.{Text}
use etcd_play.Base.Outcome.{◌>>=◌, pure}
use etcd_play.Proc.Error.{Result}
use etcd_play.Backend.State.{App}
use etcd_play.Backend.Start.{start_cluster}
use etcd_play.Backend.Start.Turns.{prepares, answered, turn}

-- startCluster that no other goroutine interrupts is its three sections in a row, whatever the state:
-- it leaves the same, gives the same answer, and waits or panics where they do.
pub turns-start_cluster :
    (new_agent : Text → Result Text) (token : Text) (a : App)
    → (do p ← turn new_agent token prepares; q ← turn new_agent token p; turn new_agent token q) a
      ≡ (do r ← start_cluster new_agent token; pure (answered r)) a
unfolding turn start_cluster
turns-start_cluster new_agent token a = ground arith
