-- ===== src/Backend/Handlers/Control.antt =====
-- backend/backend.go: killHandler, restartHandler, stressHandler, wsHandler.
use etcd_play.Base.{[], ◌∷◌, Option, none, some, if◌then◌else◌}
use etcd_play.Base.Text.{Text, codes, same}
use etcd_play.Base.Map.{lookup, delete}
use etcd_play.Base.Outcome.{M, ◌>>=◌, ◌>>◌, pure, get, modify}
use etcd_play.Proc.Error.{Error, ok, err}
use etcd_play.Proc.Node.{Readings}
use etcd_play.Proc.Cluster
use etcd_play.Proc.Cluster.Control
use etcd_play.Proc.Cluster.Kv.{StressRun, stress}
use etcd_play.Backend.UserId.{url_to_name}
use etcd_play.Backend.State.{
  App, Body, Request, lock, unlock, with_lock, respond, encode, user, update_user, on_cluster,
  method_not_allowed, error_text, stress_success, kill_requested, restart_requested,
}
use etcd_play.Backend.Cache.{say, when_active, when_allowed}

-- req.Form[k][0], or the empty text
unfoldable pub form_value : Request → Text → Text
form_value r k = elim (lookup k r.form) [ none ↦ [] | some [] ↦ [] | some (v ∷ vs) ↦ v ]

-- What follows the guards of killHandler and restartHandler, under a deferred Unlock.
abbrev pub command : M App (Option Error) → Body → M App (Option Error)
command act requested = with_lock (do
  e ← act
  elim e [ some x ↦ do respond (error_text x); pure (some x) | none ↦ say requested ])

-- killHandler
unfoldable pub kill_handler : Cluster.Outside → Text → Readings → Request → M App (Option Error)
unfolding when_active when_allowed with_lock respond
kill_handler o id now r =
    if same r.method (codes "GET")
    then when_active (
        when_allowed id now (
          command (on_cluster (Control.terminate o (url_to_name r.url)))
            (kill_requested (url_to_name r.url))))
    else say method_not_allowed

-- restartHandler
unfoldable pub restart_handler : Cluster.Outside → Text → Readings → Request → M App (Option Error)
unfolding when_active when_allowed with_lock respond
restart_handler o id now r =
    if same r.method (codes "GET")
    then when_active (
        when_allowed id now (
          command (on_cluster (Control.restart o (url_to_name r.url)))
            (restart_requested (url_to_name r.url))))
    else say method_not_allowed

unfoldable pub stress_post : Request → Text → M App (Option Error)
stress_post r id = elim r.form_error [
  | some e ↦ do respond (error_text e); pure (some e)
  | none ↦ do
    lock
    update_user id
        (λ u. record u { selected_node_name = form_value r (codes "selected_node_name") })
    unlock
    pure none
]

unfoldable pub stress_get : StressRun → Request → Text → M App (Option Error)
stress_get w r id = do
  lock
  u ← user id
  unlock
  a ← get
  res ← on_cluster (stress w u.selected_node_name a.flags.stress_number (id ∷ []))
  elim res [
    | err e ↦ do respond (error_text e); pure (some e)
    | ok took ↦ encode r (stress_success a.flags.stress_number u.selected_node_name took)
  ]

-- stressHandler
unfoldable pub stress_handler : StressRun → Text → Readings → Request → M App (Option Error)
unfolding when_active when_allowed stress_post stress_get respond encode user update_user
stress_handler w id now r =
    if same r.method (codes "POST")
    then when_allowed id now (stress_post r id)
    else if same r.method (codes "GET")
    then when_active (when_allowed id now (stress_get w r id))
    else say method_not_allowed

-- The web socket of wsHandler: the upgrade's error, or the echoes until one fails.
unfoldable pub ws_handler : Option Error → Error → Text → M App (Option Error)
unfolding lock unlock user
ws_handler upgrade_error last_error id = do
  lock
  u ← user id
  unlock
  elim upgrade_error [
    | some e ↦ do lock; modify (λ a. record a { users = delete id a.users }); unlock; pure (some e)
    | none ↦ do
      lock
      modify (λ a. record a { users = delete id a.users })
      unlock
      pure (some last_error)
  ]
