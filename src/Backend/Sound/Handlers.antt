-- ===== src/Backend/Sound/Handlers.antt =====
-- killHandler, restartHandler, stressHandler and wsHandler (backend/backend.go) keep the server's state
-- sound.
use etcd_play.Base.{[], ◌∷◌, Option, none, some}
use etcd_play.Base.Text.{Text, codes, same}
use etcd_play.Base.Map.{delete}
use etcd_play.Base.Map.Values.{Values-delete}
use etcd_play.Base.Outcome.{M, ◌>>=◌, ◌>>◌, pure, modify}
use etcd_play.Base.Outcome.Preserves.{
  Preserves, Preserves-pure, Preserves-get, Preserves-bind, Preserves-if, Preserves-Option,
  Preserves-modify,
}
use etcd_play.Proc.Error.{Error, Result, ok, err}
use etcd_play.Proc.Node.{Readings}
use etcd_play.Proc.Cluster
use etcd_play.Proc.Cluster.Kv.{StressRun}
use etcd_play.Proc.Cluster.Fit.Control.{terminate-Preserves, restart-Preserves}
use etcd_play.Proc.Cluster.Fit.Kv.{stress-Preserves}
use etcd_play.Backend.UserId.{url_to_name}
use etcd_play.Backend.State.{
  App, UserData, Body, Request, user, lock, unlock, error_text, method_not_allowed, kill_requested,
  restart_requested,
}
use etcd_play.Backend.Handlers.Control.{
  command, kill_handler, restart_handler, stress_post, stress_get, stress_handler, ws_handler,
}
use etcd_play.Backend.Handlers.History.{IsClean}
use etcd_play.Backend.Sound.{
  IsSound, lock-Preserves, unlock-Preserves, respond-Preserves, say-Preserves, encode-Preserves,
  user-Preserves, update_user-Preserves, on_cluster-Preserves, when_active-Preserves,
  when_allowed-Preserves, with_lock-Preserves,
}

command-Preserves :
    {act : M App (Option Error)} (requested : Body)
    → Preserves IsSound act
    → Preserves IsSound (command act requested)
command-Preserves requested k = with_lock-Preserves (
    Preserves-bind k (λ e.
      Preserves-Option e (say-Preserves requested)
        (λ x. Preserves-bind (respond-Preserves (error_text x)) (λ u. Preserves-pure (some x)))))

pub kill_handler-Preserves :
    (o : Cluster.Outside) (id : Text) (now : Readings) (r : Request)
    → Preserves IsSound (kill_handler o id now r)
unfolding kill_handler
kill_handler-Preserves o id now r =
    let name : Text = url_to_name r.url in
    Preserves-if (same r.method (codes "GET"))
      (when_active-Preserves (
        when_allowed-Preserves id now (
          command-Preserves (kill_requested name)
            (on_cluster-Preserves (terminate-Preserves o name)))))
      (say-Preserves method_not_allowed)

pub restart_handler-Preserves :
    (o : Cluster.Outside) (id : Text) (now : Readings) (r : Request)
    → Preserves IsSound (restart_handler o id now r)
unfolding restart_handler
restart_handler-Preserves o id now r =
    let name : Text = url_to_name r.url in
    Preserves-if (same r.method (codes "GET"))
      (when_active-Preserves (
        when_allowed-Preserves id now (
          command-Preserves (restart_requested name)
            (on_cluster-Preserves (restart-Preserves o name)))))
      (say-Preserves method_not_allowed)

-- A choice of the node or the operation does not touch what IsClean is about.
pub renamed-IsClean :
    (name : Text) (u : UserData) → IsClean u → IsClean (record u { selected_node_name = name })
renamed-IsClean name u c = record {
  few = c.few;
  unrepeated = c.unrepeated;
  plain = c.plain;
  key_short = c.key_short;
  key_plain = c.key_plain;
  value_short = c.value_short;
  value_plain = c.value_plain;
}

stress_post-Preserves : (r : Request) (id : Text) → Preserves IsSound (stress_post r id)
unfolding stress_post
stress_post-Preserves r id =
    Preserves-Option r.form_error
      (Preserves-bind lock-Preserves (λ u.
        Preserves-bind (update_user-Preserves id _ (λ v c. renamed-IsClean _ v c))
          (λ t. Preserves-bind unlock-Preserves (λ w. Preserves-pure none))))
      (λ e. Preserves-bind (respond-Preserves (error_text e)) (λ u. Preserves-pure (some e)))

-- The user's data as the handlers read them, between Lock and Unlock.
pub read_user-Preserves :
    {A : Type 0} (id : Text) {body : UserData → M App A}
    → ((u : UserData) → Preserves IsSound (body u))
    → Preserves IsSound (do lock; u ← user id; unlock; body u)
read_user-Preserves id {body} k =
    Preserves-bind lock-Preserves
      (λ t. Preserves-bind (user-Preserves id) (λ u. Preserves-bind unlock-Preserves (λ v. k u)))

pub answer-Preserves :
    {A B : Type 0} (r : Result B) {m : Error → M App A} {f : B → M App A}
    → ((e : Error) → Preserves IsSound (m e))
    → ((b : B) → Preserves IsSound (f b))
    → Preserves IsSound (elim r [ err e ↦ m e | ok b ↦ f b ])
answer-Preserves (err e) km kf = km e
answer-Preserves (ok b) km kf = kf b

stress_get-Preserves :
    (w : StressRun) (r : Request) (id : Text) → Preserves IsSound (stress_get w r id)
unfolding stress_get
stress_get-Preserves w r id = read_user-Preserves id (λ u. Preserves-bind Preserves-get (λ a.
    Preserves-bind
      (on_cluster-Preserves
        (stress-Preserves w u.selected_node_name a.flags.stress_number (id ∷ [])))
      (λ res.
        answer-Preserves res
          (λ e. Preserves-bind (respond-Preserves (error_text e)) (λ t. Preserves-pure (some e)))
          (λ took. encode-Preserves r _))))

pub stress_handler-Preserves :
    (w : StressRun) (id : Text) (now : Readings) (r : Request)
    → Preserves IsSound (stress_handler w id now r)
unfolding stress_handler
stress_handler-Preserves w id now r =
    Preserves-if (same r.method (codes "POST"))
      (when_allowed-Preserves id now (stress_post-Preserves r id))
      (Preserves-if (same r.method (codes "GET"))
        (when_active-Preserves (when_allowed-Preserves id now (stress_get-Preserves w r id)))
        (say-Preserves method_not_allowed))

leave-Preserves :
    (id : Text) (e : Error)
    → Preserves IsSound
        (do lock; modify (λ a. record a { users = delete id a.users }); unlock; pure (some e))
leave-Preserves id e = Preserves-bind lock-Preserves (λ u.
    Preserves-bind
      (Preserves-modify (λ a s. record {
        users = Values-delete IsClean id a.users s.users;
        cluster = s.cluster;
        agree = s.agree;
      }))
      (λ t. Preserves-bind unlock-Preserves (λ v. Preserves-pure (some e))))

pub ws_handler-Preserves :
    (upgrade_error : Option Error) (last_error : Error) (id : Text)
    → Preserves IsSound (ws_handler upgrade_error last_error id)
unfolding ws_handler
ws_handler-Preserves upgrade_error last_error id = read_user-Preserves id (λ u.
    Preserves-Option upgrade_error (leave-Preserves id last_error) (λ e. leave-Preserves id e))
