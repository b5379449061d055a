-- ===== src/Proc/Cluster/Fit/Requests.antt =====
-- The streams, the reports and the key-value requests of the cluster (proc/proc_cluster.go) keep it
-- fit: they change neither a node's flags nor leave a mutex held.
use etcd_play.Base.{
  ℕ, Bool, true, false, List, [], ◌∷◌, ◌++◌, Option, none, some, arith, ltb, length,
}
use etcd_play.Base.Text.{Text, same}
use etcd_play.Base.Map.{lookup, keys}
use etcd_play.Base.Outcome.{blocked, M, ◌>>=◌, ◌>>◌, pure, modify}
use etcd_play.Base.Outcome.Preserves.{
  Preserves, Preserves-pure, Preserves-get, Preserves-bind, Preserves-if, Preserves-Option,
}
use etcd_play.Proc.Error.{Error, does_not_exist}
use etcd_play.Proc.Message.{Message}
use etcd_play.Proc.Cluster.{
  Cluster, Node, local, remote, flags_of, put_stream, stream, send_stream, send_streams,
  send_shared, node_of, write,
}
use etcd_play.Proc.Cluster.Report.{
  Endpoints, add_endpoint, shows, endpoints_go, endpoints, status, Answers,
}
use etcd_play.Proc.Node.{UrlHost, endpoint}
use etcd_play.Proc.Node.Local.{stream_cap}
use etcd_play.Proc.Cluster.Fit.{
  NodeFits, IsFit, FoundFits, found-FoundFits, node_is_active-Preserves,
}

pub stream-Preserves : (id : Text) → Preserves IsFit (stream id)
unfolding stream
stream-Preserves id = record {
  kept = λ c f. record { free = ground (arith, f.free); nodes = ground (arith, f.free, f.nodes) };
}

put_stream-Preserves : (id : Text) (ms : List Message) → Preserves IsFit (modify (put_stream id ms))
put_stream-Preserves id ms = record { kept = λ c f. record { free = f.free; nodes = f.nodes } }

send_stream-fits :
    (b : Bool) (id : Text) (ms : List Message)
    → Preserves IsFit (elim b [ true ↦ modify (put_stream id ms) | false ↦ blocked ])
send_stream-fits true id ms = put_stream-Preserves id ms
send_stream-fits false id ms = record { kept = λ c f. f }

pub send_stream-Preserves : (id : Text) (m : Message) → Preserves IsFit (send_stream id m)
unfolding send_stream
send_stream-Preserves id m =
    Preserves-bind (stream-Preserves id)
      (λ ch. send_stream-fits (ltb (length ch) stream_cap) id (ch ++ m ∷ []))

send_streams-Preserves : (ids : List Text) (m : Message) → Preserves IsFit (send_streams ids m)
unfolding send_streams
send_streams-Preserves [] m = Preserves-pure tt
send_streams-Preserves (id ∷ ids) m =
    Preserves-bind (send_stream-Preserves id m) (λ a. send_streams-Preserves ids m)

send_shared-Preserves : (m : Message) → Preserves IsFit (send_shared m)
unfolding send_shared
send_shared-Preserves m = record {
  kept = λ c f. record { free = ground (arith, f.free); nodes = ground (arith, f.nodes) };
}

node_of-Preserves : (name : Text) → Preserves IsFit (node_of name)
unfolding node_of
node_of-Preserves name = record {
  kept = λ c f. record { free = ground (arith, f.free); nodes = ground (arith, f.free, f.nodes) };
}

write_to-Preserves :
    (found : Option Node) (m : Message) (ids : List Text) (e : Error)
    → Preserves IsFit (elim found [
      | none ↦ pure (some e)
      | some (local nd) ↦ elim ids [
        | [] ↦ do send_shared m; pure none
        | id ∷ rest ↦ do send_streams (id ∷ rest) m; pure none
      ]
      | some (remote nd) ↦ do send_streams ids m; pure none
    ])
write_to-Preserves none m ids e = Preserves-pure (some e)
write_to-Preserves (some (local nd)) m [] e =
    Preserves-bind (send_shared-Preserves m) (λ a. Preserves-pure none)
write_to-Preserves (some (local nd)) m (id ∷ rest) e =
    Preserves-bind (send_streams-Preserves (id ∷ rest) m) (λ a. Preserves-pure none)
write_to-Preserves (some (remote nd)) m ids e =
    Preserves-bind (send_streams-Preserves ids m) (λ a. Preserves-pure none)

pub write-Preserves :
    (name : Text) (m : Message) (ids : List Text) → Preserves IsFit (write name m ids)
unfolding write
write-Preserves name m ids =
    Preserves-bind (node_of-Preserves name)
      (λ found. write_to-Preserves found m ids (does_not_exist name))

shows-Preserves :
    (host : UrlHost) (name : Text) (nd : Node) → NodeFits nd → Preserves IsFit (shows host name nd)
unfolding shows
shows-Preserves host name nd h =
    Preserves-Option (endpoint host (flags_of nd)) (record { kept = λ c f. f })
      (λ ep.
        Preserves-bind
          (Preserves-if (same ep []) (Preserves-pure false) (node_is_active-Preserves name nd h))
          (λ b. Preserves-pure (ep, b)))

-- One round of the loop of Endpoints, on what was found.
abbrev round : UrlHost → Text → List Text → Endpoints → Option Node → M Cluster Endpoints
round host n ns r none = endpoints_go host ns r
round host n ns r (some nd) = do
  seen ← shows host n nd
  endpoints_go host ns (add_endpoint n seen.0 seen.1 r)

round-Preserves :
    (host : UrlHost) (n : Text) (ns : List Text) (r : Endpoints) (v : Option Node)
    → FoundFits v
    → ((r' : Endpoints) → Preserves IsFit (endpoints_go host ns r'))
    → Preserves IsFit (round host n ns r v)
round-Preserves host n ns r none h later = later r
round-Preserves host n ns r (some nd) h later =
    Preserves-bind (shows-Preserves host n nd h) (λ b. later _)

endpoints_go-Preserves :
    (host : UrlHost) (ns : List Text) (r : Endpoints) → Preserves IsFit (endpoints_go host ns r)
unfolding endpoints_go
endpoints_go-Preserves host [] r = Preserves-pure r
endpoints_go-Preserves host (n ∷ ns) r = record {
  kept = λ c f.
      (round-Preserves host n ns r (lookup n c.name_to_node) (found-FoundFits n c f)
          (λ r'. endpoints_go-Preserves host ns r')).kept
        c f;
}

pub endpoints-Preserves : (host : UrlHost) → Preserves IsFit (endpoints host)
unfolding endpoints
endpoints-Preserves host = Preserves-bind Preserves-get (λ c.
    Preserves-bind (endpoints_go-Preserves host (keys c.name_to_node) _) (λ r. Preserves-pure _))

pub status-Preserves : (bytes_text : ℕ → Text) (w : Answers) → Preserves IsFit (status bytes_text w)
unfolding status
status-Preserves bytes_text w = Preserves-bind (endpoints-Preserves w.host) (λ r. Preserves-pure _)
