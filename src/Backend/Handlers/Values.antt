-- ===== src/Backend/Handlers/Values.antt =====
-- backend/backend.go: keyValueHandler and keyHistoryHandler.
use etcd_play.Base.{
  ℕ, zero, suc, ◌+◌, ◌%◌, Bool, true, false, ◌&&◌, List, [], ◌∷◌, ◌++◌, Option, none, some, ltb,
  ◌==◌, length, take, drop, if◌then◌else◌,
}
use etcd_play.Base.Text.{Text, codes, same, contains, replace, trim_space, html_escape}
use etcd_play.Base.Time.{ℤ}
use etcd_play.Base.Outcome.{M, ◌>>=◌, ◌>>◌, pure}
use etcd_play.Proc.Error.{Error, ok, err}
use etcd_play.Proc.Node.{Readings}
use etcd_play.Proc.Cluster.Kv.{Answers, put, get_key, delete_key}
use etcd_play.Backend.State.{
  App, UserData, Body, Request, Piece, quoted, comma, line_break, see_below, lock, unlock, respond,
  encode, user, update_user, on_cluster, method_not_allowed, key_history_values, put_error,
  put_success, get_error, get_success, get_not_exist, delete_error, delete_success,
}
use etcd_play.Backend.Cache.{say, when_allowed}
use etcd_play.Backend.Handlers.Control.{form_value}

-- template.HTMLEscapeString of a form value, cut to its limit
unfoldable pub key_input : Request → Text
key_input r = take 100 (html_escape (form_value r (codes "key_input")))

unfoldable pub value_input : Request → Text
value_input r = take 200 (html_escape (form_value r (codes "value_input")))

-- The set `hm` of the history
unfoldable pub has_key : Text → List Text → Bool
unfolding same
has_key k [] = false
has_key k (v ∷ vs) = if same v k then true else has_key k vs

-- append, unless the key is empty or known
unfoldable pub append_key : Text → List Text → List Text
append_key k history =
    if same k [] then history else if has_key k history then history else history ++ k ∷ []

-- `copied := make([]string, 7); copy(copied, history[1:])`: seven elements, the first left out.
abbrev pub pad : ℕ → List Text → List Text
pad zero xs = []
pad (suc n) [] = [] ∷ pad n []
pad (suc n) (x ∷ xs) = x ∷ pad n xs

unfoldable pub trim_history : List Text → List Text
trim_history history = if ltb 7 (length history) then pad 7 (drop 1 history) else history

-- What POST /key_value writes to the user's data.
unfoldable pub store_input : Request → UserData → UserData
store_input r u = record u {
  selected_node_name = form_value r (codes "selected_node_name");
  selected_operation = form_value r (codes "selected_operation");
  last_key = key_input r;
  last_value = value_input r;
  key_history = trim_history (append_key (key_input r) u.key_history);
}

unfoldable pub key_value_post : Request → Text → M App (Option Error)
key_value_post r id = elim r.form_error [
  | some e ↦ pure (some e)
  | none ↦ do lock; update_user id (store_input r); unlock; pure none
]

-- keyT, valT
abbrev pub shortened : Text → Text
shortened t = if ltb 3 (length t) then take 3 t ++ codes "..." else t

-- keyTxt and prefix
unfoldable pub parse_key : Text → Text × Bool
unfolding trim_space contains replace
parse_key key =
    let t = trim_space key in
    if contains t (codes "--prefix")
    then (trim_space (replace t (codes "--prefix") [] (some 1)), true)
    else (t, false)

-- ks: the empty key is shown as a NUL.
abbrev pub shown_key : Text → Text
shown_key [] = 0 ∷ []
shown_key (x ∷ xs) = x ∷ xs

abbrev pub opt_piece : Bool → Piece → List Piece
opt_piece true p = p ∷ []
opt_piece false p = []

-- The loop that shows the values of a GET, from index i on.
unfoldable pub show_values : ℕ → List Text → List Piece
show_values i [] = []
show_values i (rv ∷ vs) =
    quoted rv
    ∷ (opt_piece (ltb 0 (length vs)) comma
        ++ (opt_piece (ltb 0 i && (i % 5 == 0)) line_break
            ++ elim (ltb 25 i) [ true ↦ see_below ∷ [] | false ↦ show_values (i + 1) vs ]))

unfoldable pub put_command : Answers → Text → Request → Text → Text → Text → M App (Option Error)
put_command w id r name key value = do
  res ← on_cluster (put w name key value (id ∷ []))
  elim res [
    | err e ↦ encode r (put_error e key value)
    | ok took ↦ encode r (put_success (shortened key) (shortened value) took)
  ]

unfoldable pub get_body : Text → List Text → ℤ → Body
get_body key [] took = get_not_exist (shown_key key) took
get_body key (v ∷ vs) took = get_success (show_values 0 (v ∷ vs)) (shown_key key) took

unfoldable pub get_command : Answers → Text → Request → Text → Text × Bool → M App (Option Error)
get_command w id r name (key, prefix) = do
  res ← on_cluster (get_key w name key prefix (id ∷ []))
  elim res [
    | err e ↦ encode r (get_error e key)
    | ok found ↦ encode r (get_body key found.0 found.1)
  ]

unfoldable pub delete_command : Answers → Text → Request → Text → Text × Bool → M App (Option Error)
delete_command w id r name (key, prefix) = do
  res ← on_cluster (delete_key w name key prefix (id ∷ []))
  elim res [
    | err e ↦ encode r (delete_error e (shown_key key))
    | ok deleted ↦ encode r (delete_success (shown_key key) deleted.0 deleted.1)
  ]

-- The switch over the operation; an unknown one answers nothing.
unfoldable pub run_operation : Answers → Text → Request → UserData → M App (Option Error)
unfolding put_command get_command delete_command get_body encode
run_operation w id r u =
    if same u.selected_operation (codes "PUT")
    then put_command w id r u.selected_node_name u.last_key u.last_value
    else if same u.selected_operation (codes "GET")
    then get_command w id r u.selected_node_name (parse_key u.last_key)
    else if same u.selected_operation (codes "DELETE")
    then delete_command w id r u.selected_node_name (parse_key u.last_key)
    else pure none

-- The GET of keyValueHandler does not ask whether the cluster is active.
unfoldable pub key_value_get : Answers → Request → Text → M App (Option Error)
key_value_get w r id = do lock; u ← user id; unlock; run_operation w id r u

-- keyValueHandler
unfoldable pub key_value_handler : Answers → Text → Readings → Request → M App (Option Error)
unfolding when_allowed key_value_post key_value_get lock unlock user update_user respond
key_value_handler w id now r =
    if same r.method (codes "POST")
    then when_allowed id now (key_value_post r id)
    else if same r.method (codes "GET")
    then when_allowed id now (key_value_get w r id)
    else say method_not_allowed

-- keyHistoryHandler
unfoldable pub key_history_handler : Text → Request → M App (Option Error)
unfolding lock unlock user encode respond
key_history_handler id r =
    if same r.method (codes "GET")
    then (do lock; u ← user id; unlock; encode r (key_history_values u.key_history))
    else say method_not_allowed
