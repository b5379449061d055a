-- ===== src/Proc/Cluster/Reached.antt =====
-- Put and Delete of a named node (proc/proc_cluster.go): the request, its answer and its log lines.
use etcd_play.Base.{
  ℕ, suc, ◌<◌, ◌≡◌, ◌≢◌, refl, ap, ◌∙◌, Bool, false, List, [], ◌∷◌, ◌++◌, Option, none, some,
  length, length-append, arith, Option-cases, inl, inr, append_assoc,
}
use etcd_play.Base.Text.{Text}
use etcd_play.Base.Time.{ℤ}
use etcd_play.Base.Map.{lookup, insert, lookup-insert_self}
use etcd_play.Base.Outcome.{done, M, ◌>>◌, pure, Returns, continue}
use etcd_play.Proc.Error.{Error, Result, ok, err}
use etcd_play.Proc.Message.{Message, put_started, put_done, delete_started, delete_done}
use etcd_play.Proc.Node.{address}
use etcd_play.Proc.Node.Local.{stream_cap}
use etcd_play.Proc.Cluster.{Cluster, Node, local, remote, flags_of, send_stream, node_of, write}
use etcd_play.Proc.Cluster.Kv.{
  Range, Answers, connect, key_range, put_at, put, delete_at, delete_key,
}
use etcd_play.Proc.Cluster.Fit.{IsFit}
use etcd_play.Proc.Cluster.Rounds.{returned}
use etcd_play.Proc.Cluster.Named.{AllParse, connect-target}

-- The messages that wait in the stream of an id.
abbrev pub waiting : Text → Cluster → List Message
waiting id c = elim (lookup id c.id_to_stream) [ none ↦ [] | some ms ↦ ms ]

-- The same cluster with more messages in the stream of an id.
abbrev pub Logged : Text → List Message → Cluster → Cluster → Type 0
Logged id ms c c' =
    (waiting id c' ≡ waiting id c ++ ms)
    × (c'.name_to_node ≡ c.name_to_node)
    × (c'.shared.locked ≡ false)

send_stream-Logged :
    (id : Text) (m : Message) (c : Cluster)
    → c.shared.locked ≡ false
    → length (waiting id c) < stream_cap
    → Returns (send_stream id m c) (λ u c'. Logged id (m ∷ []) c c')
unfolding send_stream
send_stream-Logged id m c free room = elim (Option-cases (lookup id c.id_to_stream)) [
  | inl new ↦ ground (arith, new, lookup-insert_self id (m ∷ []) (insert id [] c.id_to_stream))
  | inr (ms, old) ↦ ground (arith, old, lookup-insert_self id (ms ++ m ∷ []) c.id_to_stream)
]

node_of-free :
    (name : Text) (c : Cluster)
    → c.shared.locked ≡ false
    → node_of name c ≡ done (lookup name c.name_to_node) c
unfolding node_of
node_of-free name c free = ground (arith, free)

-- A line for one stream is written if the node exists and the stream has room.
pub write-Logged :
    (name id : Text) (m : Message) (nd : Node) (c : Cluster)
    → c.shared.locked ≡ false
    → lookup name c.name_to_node ≡ some nd
    → length (waiting id c) < stream_cap
    → (c' : Cluster) × (write name m (id ∷ []) c ≡ done none c') × Logged id (m ∷ []) c c'
unfolding write
write-Logged name id m nd c free found room =
    let (u, c', ran, logged) =
      returned (send_stream id m c) (send_stream-Logged id m c free room) in
    (c', written nd found ran, logged)
  where
    written :
        {u : Unit {0}} {c' : Cluster} (nd : Node)
        → lookup name c.name_to_node ≡ some nd
        → send_stream id m c ≡ done u c'
        → write name m (id ∷ []) c ≡ done none c'
    written (local nd) found ran = ground (arith, node_of-free name c free, found, ran)
    written (remote nd) found ran = ground (arith, node_of-free name c free, found, ran)

-- Lines after lines.
pub Logged-append :
    (id : Text) (ms ns : List Message) (c c' c'' : Cluster)
    → Logged id ms c c'
    → Logged id ns c' c''
    → Logged id (ms ++ ns) c c''
Logged-append id ms ns c c' c'' (w, e, _) (w', e', free) =
    (w' ∙ ap (λ t. t ++ ns) w ∙ append_assoc (waiting id c) ms ns, e' ∙ e, free)

-- A request that writes a line, is answered, and writes another if the answer is no error.
abbrev pub Answered :
    {A : Type 0} → Text → Message → Message → Result A → Cluster → Result A → Cluster → Type 0
Answered id started finished (err e) c r c' = (r ≡ err e) × Logged id (started ∷ []) c c'
Answered id started finished (ok x) c r c' = (r ≡ ok x) × Logged id (started ∷ finished ∷ []) c c'

abbrev pub put_answer : Answers → Text → Text → Text → Result ℤ
put_answer w ep key value = elim (w.put ep key value) [ some e ↦ err e | none ↦ ok w.took ]

abbrev pub delete_answer : Answers → Text → Text × Range → Result (ℕ × ℤ)
delete_answer w ep (key, range) = elim (w.delete ep key range) [
  | err e ↦ err e
  | ok n ↦ ok (n, w.took)
]

-- How many messages a delete's second line counts.
abbrev pub deleted : Answers → Text → Text × Range → ℕ
deleted w ep (key, range) = elim (w.delete ep key range) [ err e ↦ 0 | ok n ↦ n ]

module _ (w : Answers) (name id : Text) (nd : Node) (c : Cluster) (free : c.shared.locked ≡ false)
    (found : lookup name c.name_to_node ≡ some nd)
    (room : suc (length (waiting id c)) < stream_cap) where
  abbrev ep : Text
  ep = address w.host (flags_of nd)

  -- What put_at and delete_at do with the answer.
  abbrev request : {A : Type 0} → Message → Message → Result A → M Cluster (Result A)
  request started finished r = do
    write name started (id ∷ [])
    elim r [ err e ↦ pure (err e) | ok x ↦ do write name finished (id ∷ []); pure (ok x) ]

  request-Answered :
      {A : Type 0} (started finished : Message) (r : Result A)
      → Returns (request started finished r c) (Answered id started finished r c)
  request-Answered {A} started finished (err e) =
      let (c', ran, logged) = write-Logged name id started nd c free found (omega (arith, room)) in
      let last : Option Error → M Cluster (Result A) = λ none_left. pure (err e) in
      let run : request started finished (err e) c ≡ done (err e) c' =
        ap (λ r. continue r last) ran in
      rw run (refl, logged)
  request-Answered {A} started finished (ok x) =
      let (c', ran, logged) = write-Logged name id started nd c free found (omega (arith, room)) in
      let grown : length (waiting id c') ≡ suc (length (waiting id c)) =
        ap length logged.0 ∙ omega (arith, length-append (waiting id c) (started ∷ [])) in
      let (c'', ran', logged') =
        write-Logged name id finished nd c' logged.2 (ap (lookup name) logged.1 ∙ found)
          (omega (arith, room, grown)) in
      let last : Option Error → M Cluster (Result A) = λ e. pure (ok x) in
      let run : request started finished (ok x) c ≡ done (ok x) c'' =
        ap (λ r. continue r (λ e d. continue (write name finished (id ∷ []) d) last)) ran
        ∙ ap (λ r. continue r last) ran' in
      rw run (refl, Logged-append id (started ∷ []) (finished ∷ []) c c' c'' logged logged')

  put_at-Answered :
      (key value : Text)
      → Returns (put_at w key value (id ∷ []) (name, ep) c) (
          Answered id
            (put_started (ep ∷ []))
            (put_done key value w.took (ep ∷ []))
            (put_answer w ep key value)
            c)
  unfolding put_at
  put_at-Answered key value = go (w.put ep key value)
    where
      started : Message
      started = put_started (ep ∷ [])

      finished : Message
      finished = put_done key value w.took (ep ∷ [])

      go :
          (v : Option Error)
          → Returns
              ((do
                write name started (id ∷ [])
                elim v [
                  | some e ↦ pure (err e)
                  | none ↦ do write name finished (id ∷ []); pure (ok w.took)
                ])
                c)
              (Answered id started finished
                (elim v as (λ _. Result ℤ) [ some e ↦ err e | none ↦ ok w.took ])
                c)
      go (some e) = request-Answered started finished (err e)
      go none = request-Answered started finished (ok w.took)

  delete_at-Answered :
      (key : Text) (range : Range)
      → Returns (delete_at w (key, range) (id ∷ []) (name, ep) c) (
          Answered id
            (delete_started (ep ∷ []))
            (delete_done (deleted w ep (key, range)) w.took (ep ∷ []))
            (delete_answer w ep (key, range))
            c)
  unfolding delete_at
  delete_at-Answered key range = go (w.delete ep key range)
    where
      started : Message
      started = delete_started (ep ∷ [])

      finished : ℕ → Message
      finished n = delete_done n w.took (ep ∷ [])

      go :
          (v : Result ℕ)
          → Returns
              ((do
                write name started (id ∷ [])
                elim v [
                  | err e ↦ pure (err e)
                  | ok n ↦ do write name (finished n) (id ∷ []); pure (ok (n, w.took))
                ])
                c)
              (Answered id started
                (finished (elim v as (λ _. ℕ) [ err e ↦ 0 | ok n ↦ n ]))
                (elim v as (λ _. Result (ℕ × ℤ)) [ err e ↦ err e | ok n ↦ ok (n, w.took) ])
                c)
      go (err e) = request-Answered started (finished 0) (err e)
      go (ok n) = request-Answered started (finished n) (ok (n, w.took))

-- In a cluster whose mutexes are free and whose nodes have valid flags and URLs that
-- url.Parse takes, Put and Delete of a name that
-- is not empty and is a node's, by a user whose stream has room for two lines, once the client is
-- made, return what the etcd server at that node's endpoint answers. The user's stream gains the line
-- of the request, and the line of its result unless that is an error, and the nodes stay as they are.
pub requests-Answered :
    (w : Answers) (name id : Text) (nd : Node) (c : Cluster) (key value : Text) (prefix : Bool)
    → IsFit c
    → AllParse w.host c
    → name ≢ []
    → lookup name c.name_to_node ≡ some nd
    → suc (length (waiting id c)) < stream_cap
    → w.client_new (address w.host (flags_of nd) ∷ []) ≡ none
    → let ep : Text = address w.host (flags_of nd) in
      let k : Text × Range = key_range key prefix in
      Returns (put w name key value (id ∷ []) c) (
        Answered id
          (put_started (ep ∷ []))
          (put_done key value w.took (ep ∷ []))
          (put_answer w ep key value)
          c)
      × Returns (delete_key w name key prefix (id ∷ []) c) (
          Answered id
            (delete_started (ep ∷ []))
            (delete_done (deleted w ep k) w.took (ep ∷ []))
            (delete_answer w ep k)
            c)
unfolding put delete_key
requests-Answered w name id nd c key value prefix fit parse ne found room made =
    let t : connect w name c ≡ done (ok (name, address w.host (flags_of nd))) c =
      connect-target w name c fit parse ne ∙ ap (λ r. done r c) (ground (arith, found, made)) in
    let k : Text × Range = key_range key prefix in
    (
      rw (t, Returns) (put_at-Answered w name id nd c fit.free found room key value),
      rw (t, Returns) (delete_at-Answered w name id nd c fit.free found room k.0 k.1),
    )
