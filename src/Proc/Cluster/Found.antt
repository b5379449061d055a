-- ===== src/Proc/Cluster/Found.antt =====
-- Get of a named node (proc/proc_cluster.go), and Put, Get and Delete when there is nobody to ask.
use etcd_play.Base.{
  ℕ, suc, ◌+◌, ◌≤◌, ◌≡◌, ◌≢◌, refl, sym, ap, ◌∙◌, Bool, false, List, [], ◌∷◌, ◌++◌, Option, none,
  some, map, length, length-append, length-map, arith, append-nil,
}
use etcd_play.Base.Text.{Text}
use etcd_play.Base.Time.{ℤ}
use etcd_play.Base.Sort.{sort}
use etcd_play.Base.Map.{lookup}
use etcd_play.Base.Outcome.{done, M, ◌>>◌, pure, Returns, continue}
use etcd_play.Proc.Error.{Error, Result, ok, err}
use etcd_play.Proc.Message.{Message, get_started, get_value, get_missing, get_done}
use etcd_play.Proc.Node.{address}
use etcd_play.Proc.Node.Local.{stream_cap}
use etcd_play.Proc.Cluster.{Cluster, Node, flags_of, write}
use etcd_play.Proc.Cluster.Kv.{
  Range, Answers, connect, key_range, put, get_at, get_key, write_values, write_found, delete_key,
}
use etcd_play.Proc.Cluster.Fit.{IsFit}
use etcd_play.Proc.Cluster.Named.{AllParse, connect-target, target}
use etcd_play.Proc.Cluster.Reached.{waiting, Logged, Logged-append, write-Logged}

-- The lines between the first and the last one of a Get.
abbrev pub found_lines : Text → List (Text × Text) → List Message
found_lines key [] = get_missing key ∷ []
found_lines key (kv ∷ kvs) = map (λ x. get_value x.0 x.1) (kv ∷ kvs)

module _ (name id : Text) (nd : Node) where
  write_values-Logged :
      (kvs : List (Text × Text)) (c : Cluster)
      → c.shared.locked ≡ false
      → lookup name c.name_to_node ≡ some nd
      → length (waiting id c) + length kvs ≤ stream_cap
      → (c' : Cluster) × (write_values name kvs (id ∷ []) c ≡ done tt c')
        × Logged id (map (λ x. get_value x.0 x.1) kvs) c c'
  unfolding write_values
  write_values-Logged [] c free found room =
      (c, refl, (sym (append-nil (waiting id c)), refl, free))
  write_values-Logged ((k, v) ∷ kvs) c free found room =
      let (c', ran, logged) =
        write-Logged name id (get_value k v) nd c free found (omega (arith, room)) in
      let grown : length (waiting id c') ≡ suc (length (waiting id c)) =
        ap length logged.0 ∙ omega (arith, length-append (waiting id c) (get_value k v ∷ [])) in
      let (c'', ran', logged') =
        write_values-Logged kvs c' logged.2 (ap (lookup name) logged.1 ∙ found)
          (omega (arith, room, grown)) in
      (
        c'',
        ap (λ r. continue r (λ e. write_values name kvs (id ∷ []))) ran ∙ ran',
        Logged-append id (get_value k v ∷ []) (map (λ x. get_value x.0 x.1) kvs) c c' c'' logged
            logged',
      )

  write_found-Logged :
      (key : Text) (kvs : List (Text × Text)) (c : Cluster)
      → c.shared.locked ≡ false
      → lookup name c.name_to_node ≡ some nd
      → length (waiting id c) + length (found_lines key kvs) ≤ stream_cap
      → (c' : Cluster) × (write_found name key kvs (id ∷ []) c ≡ done tt c')
        × Logged id (found_lines key kvs) c c'
  unfolding write_found
  write_found-Logged key [] c free found room =
      let (c', ran, logged) =
        write-Logged name id (get_missing key) nd c free found (omega (arith, room)) in
      (c', ap (λ r. continue r (λ e. pure tt)) ran, logged)
  write_found-Logged key (kv ∷ kvs) c free found room =
      write_values-Logged (kv ∷ kvs) c free found
        (omega (arith, room, length-map (λ x. get_value x.0 x.1) kvs))

-- A Get that is answered `r`: its first line, and unless `r` is an error the lines of what was found,
-- its last line, and the values in order.
abbrev pub Got :
    Answers
    → Text
    → Text
    → Text
    → Result (List (Text × Text))
    → Cluster
    → Result (List Text × ℤ)
    → Cluster
    → Type 0
Got w id ep key (err e) c r c' = (r ≡ err e) × Logged id (get_started (ep ∷ []) ∷ []) c c'
Got w id ep key (ok kvs) c r c' =
    (r ≡ ok (sort (map (λ kv. kv.1) kvs), w.took))
    × Logged id ((get_started (ep ∷ []) ∷ found_lines key kvs) ++ get_done w.took (ep ∷ []) ∷ []) c
        c'

-- How many lines an answer takes.
abbrev pub lines_of : Text → Result (List (Text × Text)) → ℕ
lines_of key (err e) = 1
lines_of key (ok kvs) = length (found_lines key kvs) + 2

module _ (w : Answers) (name id : Text) (nd : Node) (c : Cluster) (free : c.shared.locked ≡ false)
    (found : lookup name c.name_to_node ≡ some nd) where
  abbrev ep : Text
  ep = address w.host (flags_of nd)

  -- What get_at does with the answer.
  abbrev get_request : Text → Result (List (Text × Text)) → M Cluster (Result (List Text × ℤ))
  get_request key r = do
    write name (get_started (ep ∷ [])) (id ∷ [])
    elim r [
      | err e ↦ pure (err e)
      | ok kvs ↦ do
        write_found name key kvs (id ∷ [])
        write name (get_done w.took (ep ∷ [])) (id ∷ [])
        pure (ok (sort (map (λ kv. kv.1) kvs), w.took))
    ]

  get_request-Got :
      (key : Text) (r : Result (List (Text × Text)))
      → length (waiting id c) + lines_of key r ≤ stream_cap
      → Returns (get_request key r c) (Got w id ep key r c)
  get_request-Got key (err e) room =
      let (c', ran, logged) =
        write-Logged name id (get_started (ep ∷ [])) nd c free found (omega (arith, room)) in
      let last : Option Error → M Cluster (Result (List Text × ℤ)) = λ x. pure (err e) in
      let run : get_request key (err e) c ≡ done (err e) c' = ap (λ r. continue r last) ran in
      rw run (refl, logged)
  get_request-Got key (ok kvs) room =
      let first : Message = get_started (ep ∷ []) in
      let third : Message = get_done w.took (ep ∷ []) in
      let (c1, ran1, logged1) = write-Logged name id first nd c free found (omega (arith, room)) in
      let grown1 : length (waiting id c1) ≡ suc (length (waiting id c)) =
        ap length logged1.0 ∙ omega (arith, length-append (waiting id c) (first ∷ [])) in
      let (c2, ran2, logged2) =
        write_found-Logged name id nd key kvs c1 logged1.2 (ap (lookup name) logged1.1 ∙ found)
          (omega (arith, room, grown1)) in
      let both = Logged-append id (first ∷ []) (found_lines key kvs) c c1 c2 logged1 logged2 in
      let grown2 : length (waiting id c2)
          ≡ length (waiting id c) + suc (length (found_lines key kvs)) =
        ap length both.0 ∙ length-append (waiting id c) (first ∷ found_lines key kvs) in
      let (c3, ran3, logged3) =
        write-Logged name id third nd c2 logged2.2 (ap (lookup name) both.1 ∙ found)
          (omega (arith, room, grown2)) in
      let answer : Result (List Text × ℤ) = ok (sort (map (λ kv. kv.1) kvs), w.took) in
      let last : Option Error → M Cluster (Result (List Text × ℤ)) = λ e. pure answer in
      let after : Unit {0} → M Cluster (Result (List Text × ℤ)) =
        λ u d. continue (write name third (id ∷ []) d) last in
      let run : get_request key (ok kvs) c ≡ done answer c3 =
        ap (λ r. continue r (λ e d. continue (write_found name key kvs (id ∷ []) d) after)) ran1
        ∙ ap (λ r. continue r after) ran2
        ∙ ap (λ r. continue r last) ran3 in
      rw run
        (refl, Logged-append id (first ∷ found_lines key kvs) (third ∷ []) c c2 c3 both logged3)

  pub get_at-Got :
      (key : Text) (range : Range)
      → length (waiting id c) + lines_of key (w.get ep key range) ≤ stream_cap
      → Returns
          (get_at w (key, range) (id ∷ []) (name, ep) c)
          (Got w id ep key (w.get ep key range) c)
  unfolding get_at
  get_at-Got key range room = get_request-Got key (w.get ep key range) room

-- In a cluster whose mutexes are free and whose nodes have valid flags and URLs that
-- url.Parse takes, Get of a name that is not
-- empty and is a node's, by a user whose stream has room for its lines, once the client is made,
-- returns the error that the etcd server at that node's endpoint answers, or the values of its answer
-- in order. The user's stream gains the line of the request and, unless the answer is an error, a line
-- for each pair of the answer in its order, or one which says that there is none, and a last line; the
-- nodes stay as they are.
pub get-Answered :
    (w : Answers) (name id : Text) (nd : Node) (c : Cluster) (key : Text) (prefix : Bool)
    → IsFit c
    → AllParse w.host c
    → name ≢ []
    → lookup name c.name_to_node ≡ some nd
    → w.client_new (address w.host (flags_of nd) ∷ []) ≡ none
    → let ep : Text = address w.host (flags_of nd) in
      let k : Text × Range = key_range key prefix in
      length (waiting id c) + lines_of k.0 (w.get ep k.0 k.1) ≤ stream_cap
      → Returns (get_key w name key prefix (id ∷ []) c) (Got w id ep k.0 (w.get ep k.0 k.1) c)
unfolding get_key
get-Answered w name id nd c key prefix fit parse ne found made room =
    let t : connect w name c ≡ done (ok (name, address w.host (flags_of nd))) c =
      connect-target w name c fit parse ne ∙ ap (λ r. done r c) (ground (arith, found, made)) in
    let k : Text × Range = key_range key prefix in
    rw (t, Returns) (get_at-Got w name id nd c fit.free found k.0 k.1 room)

-- In a cluster whose mutexes are free and whose nodes have valid flags and URLs that
-- url.Parse takes, when a name that is not empty
-- is no node's, or no client can be made for that node's endpoint, Put, Get and Delete of the name
-- return that error, write no line and change nothing.
pub requests-Refused :
    (w : Answers) (name : Text) (c : Cluster) (key value : Text) (prefix : Bool) (ids : List Text)
    (e : Error)
    → IsFit c
    → AllParse w.host c
    → name ≢ []
    → target w name (lookup name c.name_to_node) ≡ err e
    → (put w name key value ids c ≡ done (err e) c)
      × (get_key w name key prefix ids c ≡ done (err e) c)
      × (delete_key w name key prefix ids c ≡ done (err e) c)
unfolding put get_key delete_key
requests-Refused w name c key value prefix ids e fit parse ne refused =
    let t : connect w name c ≡ done (err e) c =
      connect-target w name c fit parse ne ∙ ap (λ r. done r c) refused in
    (ground (arith, t), ground (arith, t), ground (arith, t))
