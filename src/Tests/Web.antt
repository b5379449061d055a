-- ===== src/Tests/Web.antt =====
-- The theorems on the web server, on one user's requests.
use etcd_play.Base.{ℕ, ◌+◌, ◌≤◌, ◌≡◌, ◌≢◌, refl, inl, true, false, List, [], ◌∷◌, none, some, arith}
use etcd_play.Base.Text.{codes, same, html_escape}
use etcd_play.Base.Map.{Map, lookup}
use etcd_play.Base.Outcome.{Panics}
use etcd_play.Proc.Error.{ok}
use etcd_play.Proc.Flags.{Flags, generate_flags, combine_flags}
use etcd_play.Proc.Cluster.Create.{web_local}
use etcd_play.Backend.State.{App, UserData}
use etcd_play.Backend.UserId.{Origin}
use etcd_play.Backend.Cache.{new_user, count_request}
use etcd_play.Backend.Cache.RateLimit.{allowed, allowed-le-eight, allowed-new_user}
use etcd_play.Backend.Handlers.Pages.{drain}
use etcd_play.Backend.Handlers.Streams.{Interleaves, drain-Interleaves}
use etcd_play.Proc.Message.{text}
use etcd_play.Backend.Start.{cluster_flags, node_name}
use etcd_play.Backend.Start.Generated.{combine_flags-cluster_flags}
use etcd_play.Backend.Handlers.Control.{form_value}
use etcd_play.Backend.Handlers.Values.{key_input, store_input, key_value_handler}
use etcd_play.Backend.Handlers.History.{IsClean, new_user-IsClean, store_input-IsClean}
use etcd_play.Backend.Handlers.Guards.{key_value-Panics}
use etcd_play.Tests.{answers, one_node, at, visitor, user_id, app_of, request}

abbrev app : App
app = app_of ((user_id, visitor) ∷ [])

known : lookup user_id app.users ≡ some visitor
unfolding lookup same
known = refl

visitor-allowed : (count_request (at 5) visitor).1 ≡ true
unfolding count_request
visitor-allowed = refl

store_input-IsClean_example : IsClean (store_input (request (codes "POST")) (new_user 5))
store_input-IsClean_example =
    store_input-IsClean (request (codes "POST")) (new_user 5) (new_user-IsClean 5)

posted : key_input (request (codes "POST")) ≢ []
unfolding key_input form_value html_escape lookup same
posted e = ground (arith, e)

allowed-le-eight_example : allowed visitor (at 5 ∷ at 6 ∷ []) ≤ 8
allowed-le-eight_example = allowed-le-eight 5 visitor (at 5 ∷ at 6 ∷ []) (omega arith) (
  (omega arith, omega arith, omega arith, omega arith),
  ((omega arith, omega arith, omega arith, omega arith), tt),
)

allowed-new_user_example : allowed (new_user 5) (at 5 ∷ at 6 ∷ []) ≤ 4
allowed-new_user_example = allowed-new_user 5 5 (at 5 ∷ at 6 ∷ []) (omega arith) (
  (omega arith, omega arith, omega arith, omega arith),
  ((omega arith, omega arith, omega arith, omega arith), tt),
)

abbrev generated : ℕ → Flags
generated i = (generate_flags (node_name i) (codes "localhost") false (12 + i)).0

two_generated : cluster_flags web_local [] 2 0 12 ≡ some (generated 0 ∷ generated 1 ∷ [], 14)
unfolding cluster_flags
two_generated = refl

combine_flags-cluster_flags_example :
    (gs : List Flags) × (combine_flags (codes "token") false (generated 0 ∷ generated 1 ∷ [])
      ≡ ok gs)
combine_flags-cluster_flags_example =
    combine_flags-cluster_flags web_local [] 1 12 (generated 0 ∷ generated 1 ∷ []) 14
      (codes "token") two_generated (omega arith)

put_selected : (count_request (at 5) visitor).0.selected_operation ≡ codes "PUT"
unfolding count_request
put_selected = refl

key_value-Panics_example :
    Panics (key_value_handler answers user_id (at 5) (request (codes "GET")) app)
key_value-Panics_example =
    key_value-Panics answers user_id (at 5) (request (codes "GET")) app visitor refl refl refl known
      visitor-allowed (inl put_selected)

abbrev no_users : Map UserData
no_users = []

gone : lookup user_id no_users ≡ none
unfolding lookup
gone = refl

abbrev origin : Origin
origin = record {
  header = [];
  remote_addr = codes "127.0.0.1:4321";
  user_agent = codes "Mozilla/5.0 (X11; Linux x86_64)";
}

drain-Interleaves_example :
    Interleaves
      (text (codes "a") ∷ [])
      (text (codes "b") ∷ [])
      (drain (false ∷ []) (text (codes "a") ∷ []) (text (codes "b") ∷ []))
drain-Interleaves_example =
    drain-Interleaves (false ∷ []) (text (codes "a") ∷ []) (text (codes "b") ∷ [])

abbrev started : App
started = record app { cluster = some one_node }
