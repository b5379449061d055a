-- ===== src/Backend/Handlers/Guards.antt =====
-- How the handlers (backend/backend.go) treat the mutex, the guards and a missing cluster.
use etcd_play.Base.{◌≡◌, true, false, none, some, arith, ◌⊎◌}
use etcd_play.Base.Text.{Text, codes}
use etcd_play.Base.Text.Laws.{same_iff}
use etcd_play.Base.Map.{lookup, insert, lookup-insert_self}
use etcd_play.Base.Outcome.{Panics, Returns, Blocks, state_of}
use etcd_play.Proc.Node.{Readings}
use etcd_play.Proc.Cluster.Kv.{Answers}
use etcd_play.Backend.State.{App, UserData, Request, cluster_active, on_cluster}
use etcd_play.Backend.Cache.{count_request}
use etcd_play.Backend.Handlers.Values.{
  key_value_handler, key_history_handler, run_operation, store_input,
}

abbrev get_method : Text
get_method = codes "GET"

abbrev post_method : Text
post_method = codes "POST"

-- The operations that keyValueHandler carries out.
abbrev pub IsOperation : Text → Type 0
IsOperation op = (op ≡ codes "PUT") ⊎ ((op ≡ codes "GET") ⊎ (op ≡ codes "DELETE"))

-- With no cluster, a GET of /key_value that is allowed and whose operation is PUT, GET or DELETE
-- calls a method of a nil interface: the handler panics.
pub key_value-Panics :
    (w : Answers) (id : Text) (now : Readings) (r : Request) (a : App) (u : UserData)
    → a.locked ≡ false
    → a.cluster ≡ none
    → r.method ≡ get_method
    → lookup id a.users ≡ some u
    → (count_request now u).1 ≡ true
    → IsOperation (count_request now u).0.selected_operation
    → Panics (key_value_handler w id now r a)
unfolding key_value_handler run_operation on_cluster
key_value-Panics w id now r a u free missing get_r known allowed op =
    let v : UserData = (count_request now u).0 in
    ground (
      arith,
      same_iff r.method get_method,
      same_iff r.method post_method,
      lookup-insert_self id v a.users,
      same_iff v.selected_operation (codes "PUT"),
      same_iff v.selected_operation (codes "GET"),
      same_iff v.selected_operation (codes "DELETE"),
    )

-- A history that is asked for after the user's data were deleted panics with the mutex held, so that
-- the next request waits for good.
pub key_history_keeps_lock :
    (id : Text) (r : Request) (a : App)
    → a.locked ≡ false
    → r.method ≡ get_method
    → lookup id a.users ≡ none
    → Panics (key_history_handler id r a)
      × Blocks (cluster_active (state_of (key_history_handler id r a)))
unfolding key_history_handler cluster_active
key_history_keeps_lock id r a free get_r gone = ground (arith, same_iff r.method get_method)

-- A POST of /key_value that is allowed stores the input in the user's data and nothing else: the
-- cluster is as it was, nothing is answered, and the mutex is free.
pub key_value_stores :
    (w : Answers) (id : Text) (now : Readings) (r : Request) (a : App) (u : UserData)
    → a.locked ≡ false
    → r.method ≡ post_method
    → lookup id a.users ≡ some u
    → (count_request now u).1 ≡ true
    → r.form_error ≡ none
    → Returns (key_value_handler w id now r a) (λ e a'.
      (e ≡ none)
      × (lookup id a'.users ≡ some (store_input r (count_request now u).0))
      × (a'.cluster ≡ a.cluster)
      × (a'.written ≡ a.written)
      × (a'.locked ≡ false))
unfolding key_value_handler
key_value_stores w id now r a u free post_r known allowed parsed =
    let v : UserData = (count_request now u).0 in
    ground (
      arith,
      same_iff r.method post_method,
      lookup-insert_self id v a.users,
      lookup-insert_self id (store_input r v) (insert id v a.users),
    )
