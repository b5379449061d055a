-- ===== src/Backend/Sound/KeyValue.antt =====
-- keyValueHandler and keyHistoryHandler (backend/backend.go) keep the server's state sound.
use etcd_play.Base.{Bool, [], ◌∷◌, none, some}
use etcd_play.Base.Text.{Text, codes, same}
use etcd_play.Base.Outcome.Preserves.{
  Preserves, Preserves-pure, Preserves-bind, Preserves-if, Preserves-Option,
}
use etcd_play.Proc.Node.{Readings}
use etcd_play.Proc.Cluster.Kv.{Answers}
use etcd_play.Proc.Cluster.Fit.Kv.{put-Preserves, get_key-Preserves, delete_key-Preserves}
use etcd_play.Backend.State.{UserData, Request, method_not_allowed}
use etcd_play.Backend.Handlers.Values.{
  store_input, key_value_post, put_command, get_command, delete_command, parse_key, run_operation,
  key_value_handler, key_history_handler,
}
use etcd_play.Backend.Handlers.History.{store_input-IsClean}
use etcd_play.Backend.Sound.{
  IsSound, lock-Preserves, unlock-Preserves, say-Preserves, encode-Preserves, update_user-Preserves,
  on_cluster-Preserves, when_allowed-Preserves,
}
use etcd_play.Backend.Sound.Handlers.{read_user-Preserves, answer-Preserves}

key_value_post-Preserves : (r : Request) (id : Text) → Preserves IsSound (key_value_post r id)
unfolding key_value_post
key_value_post-Preserves r id =
    Preserves-Option r.form_error
      (Preserves-bind lock-Preserves (λ u.
        Preserves-bind (update_user-Preserves id (store_input r) (λ v c. store_input-IsClean r v c))
          (λ t. Preserves-bind unlock-Preserves (λ w. Preserves-pure none))))
      (λ e. Preserves-pure (some e))

put_command-Preserves :
    (w : Answers) (id : Text) (r : Request) (name key value : Text)
    → Preserves IsSound (put_command w id r name key value)
unfolding put_command
put_command-Preserves w id r name key value =
    Preserves-bind (on_cluster-Preserves (put-Preserves w name key value (id ∷ [])))
      (λ res. answer-Preserves res (λ e. encode-Preserves r _) (λ took. encode-Preserves r _))

get_command-Preserves :
    (w : Answers) (id : Text) (r : Request) (name : Text) (parsed : Text × Bool)
    → Preserves IsSound (get_command w id r name parsed)
unfolding get_command
get_command-Preserves w id r name (key, prefix) =
    Preserves-bind (on_cluster-Preserves (get_key-Preserves w name key prefix (id ∷ [])))
      (λ res. answer-Preserves res (λ e. encode-Preserves r _) (λ found. encode-Preserves r _))

delete_command-Preserves :
    (w : Answers) (id : Text) (r : Request) (name : Text) (parsed : Text × Bool)
    → Preserves IsSound (delete_command w id r name parsed)
unfolding delete_command
delete_command-Preserves w id r name (key, prefix) =
    Preserves-bind (on_cluster-Preserves (delete_key-Preserves w name key prefix (id ∷ [])))
      (λ res. answer-Preserves res (λ e. encode-Preserves r _) (λ found. encode-Preserves r _))

run_operation-Preserves :
    (w : Answers) (id : Text) (r : Request) (u : UserData)
    → Preserves IsSound (run_operation w id r u)
unfolding run_operation
run_operation-Preserves w id r u =
    Preserves-if (same u.selected_operation (codes "PUT"))
      (put_command-Preserves w id r u.selected_node_name u.last_key u.last_value)
      (Preserves-if (same u.selected_operation (codes "GET"))
        (get_command-Preserves w id r u.selected_node_name (parse_key u.last_key))
        (Preserves-if (same u.selected_operation (codes "DELETE"))
          (delete_command-Preserves w id r u.selected_node_name (parse_key u.last_key))
          (Preserves-pure none)))

pub key_value_handler-Preserves :
    (w : Answers) (id : Text) (now : Readings) (r : Request)
    → Preserves IsSound (key_value_handler w id now r)
unfolding key_value_handler
key_value_handler-Preserves w id now r =
    Preserves-if (same r.method (codes "POST"))
      (when_allowed-Preserves id now (key_value_post-Preserves r id))
      (Preserves-if (same r.method (codes "GET"))
        (when_allowed-Preserves id now
          (read_user-Preserves id (λ u. run_operation-Preserves w id r u)))
        (say-Preserves method_not_allowed))

pub key_history_handler-Preserves :
    (id : Text) (r : Request) → Preserves IsSound (key_history_handler id r)
unfolding key_history_handler
key_history_handler-Preserves id r =
    Preserves-if (same r.method (codes "GET")) (read_user-Preserves id (λ u. encode-Preserves r _))
      (say-Preserves method_not_allowed)
