-- ===== src/Backend/Router/Named.antt =====
-- The routes of CommandFunc (backend/backend.go) against the names of the nodes in startCluster.
use etcd_play.Base.{ℕ, zero, suc, ◌+◌, ◌<◌, ◌≡◌, refl, ◌++◌, some, arith}
use etcd_play.Base.Text.{codes}
use etcd_play.Base.Decimal.{decimal}
use etcd_play.Backend.UserId.{url_to_name}
use etcd_play.Backend.Start.{node_name}
use etcd_play.Backend.Router.{route, to_kill, to_restart}

-- The buttons of the j-th node, for the five nodes of the page: its two paths lead to killHandler and
-- restartHandler, which read from them the name that startCluster gave to the node.
pub route-node_name :
    (j : ℕ)
    → j < 5
    → (route (codes "/kill_" ++ decimal (j + 1)) ≡ some to_kill)
      × (route (codes "/restart_" ++ decimal (j + 1)) ≡ some to_restart)
      × (url_to_name (codes "/kill_" ++ decimal (j + 1)) ≡ node_name j)
      × (url_to_name (codes "/restart_" ++ decimal (j + 1)) ≡ node_name j)
unfolding route url_to_name decimal
route-node_name zero h = (refl, refl, refl, refl)
route-node_name (suc zero) h = (refl, refl, refl, refl)
route-node_name (suc (suc zero)) h = (refl, refl, refl, refl)
route-node_name (suc (suc (suc zero))) h = (refl, refl, refl, refl)
route-node_name (suc (suc (suc (suc zero)))) h = (refl, refl, refl, refl)
route-node_name (suc (suc (suc (suc (suc j))))) h = absurd (omega (arith, h))
