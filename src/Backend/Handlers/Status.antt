-- ===== src/Backend/Handlers/Status.antt =====
-- The status page (backend/backend.go) after a round of the loop that pulls the cluster's status
-- (backend/cache.go).
use etcd_play.Base.{ℕ, ◌≡◌, false, [], ◌∷◌, ◌++◌, Option, none, some, length}
use etcd_play.Base.Text.{Text}
use etcd_play.Base.Map.{Map, lookup}
use etcd_play.Proc.Error.{Error}
use etcd_play.Proc.Cluster.{Cluster}
use etcd_play.Proc.Cluster.Named.{endpoint_of}
use etcd_play.Proc.Cluster.Report.{Answers, ServerStatus}
use etcd_play.Proc.Cluster.Reports.{reported}
use etcd_play.Backend.State.{App, server_status}
use etcd_play.Backend.Handlers.Pages.{rows}

-- What a GET of /server_status shows: one answer with the number of users, and the rows of statuses
-- which hold, under each name, what the node of that name was reported as.
abbrev pub Shows : (ℕ → Text) → Answers → App → Cluster → Option Error → App → Type 0
Shows bytes_text w a c e b =
    (e ≡ none)
    × ((text : Text) × (m : Map ServerStatus) × (b.written
          ≡ a.written ++ server_status (length a.users) text (rows m) ∷ [])
        × ((name : Text)
            → lookup name m
              ≡ reported bytes_text w name (endpoint_of w.host (lookup name c.name_to_node))))
    × (b.cluster ≡ some c)
    × (b.locked ≡ false)
