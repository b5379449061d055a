-- ===== src/Proc/Cluster.antt =====
-- proc/proc_cluster.go: the cluster's state, its log streams, and a call of a node by its name. The
-- methods stand in Create, Control, Report and Kv. The mutex `mu` and `sharedStream` are those that
-- the local nodes point to.
pub mod Create
pub mod Control
pub mod Report
pub mod Kv
pub mod Lookup
pub mod Life
pub mod Survey
pub mod Reports
pub mod Leading
pub mod Fit
pub mod Revive
pub mod Rounds
pub mod Idle
pub mod Boot
pub mod Halt
pub mod Named
pub mod Reached
pub mod Found
pub mod Unnamed
pub mod Behind
use etcd_play.Base.{
  ℕ, Bool, true, false, ◌++◌, List, [], ◌∷◌, Option, none, some, ltb, length, if◌then◌else◌,
}
use etcd_play.Base.Text.{Text}
use etcd_play.Base.Map.{Map, lookup, insert}
use etcd_play.Base.Outcome.{Outcome, done, blocked, panicked, M, ◌>>=◌, ◌>>◌, pure, get, modify}
use etcd_play.Proc.Error.{Error, does_not_exist}
use etcd_play.Proc.Message.{Message}
use etcd_play.Proc.Flags.{Flags}
use etcd_play.Proc.Node.{endpoint, status_endpoint}
use etcd_play.Proc.Node.Local
use etcd_play.Proc.Node.Local.{NodeWebLocal, World, Shared, stream_cap}
use etcd_play.Proc.Node.Remote
use etcd_play.Proc.Node.Remote.{NodeWebRemoteClient}

-- The implementations of the interface Node.
pub data Node : Type 0 where
  local : NodeWebLocal → Node
  remote : NodeWebRemoteClient → Node

abbrev pub flags_of : Node → Flags
flags_of (local nd) = nd.flags
flags_of (remote nd) = nd.flags

pub record Cluster : Type 0 where
  pub shared : Shared
  pub id_to_stream : Map (List Message)
  pub name_to_node : Map Node

-- What the world answers to the node of each name.
pub record Outside : Type 0 where
  pub of_local : Text → Local.Outside
  pub of_remote : Text → Remote.Outside

abbrev pub put_locked : Bool → Cluster → Cluster
put_locked b c = record c { shared = record (c.shared) { locked = b } }

unfoldable pub lock : M Cluster (Unit {0})
lock c = elim c.shared.locked [ true ↦ blocked c | false ↦ done tt (put_locked true c) ]

unfoldable pub unlock : M Cluster (Unit {0})
unlock c = elim c.shared.locked [ true ↦ done tt (put_locked false c) | false ↦ panicked c ]

-- vt.sharedStream <- msg
unfoldable pub send_shared : Message → M Cluster (Unit {0})
send_shared m c = elim (ltb (length c.shared.stream) stream_cap) [
  | true ↦ done tt (record c { shared = record (c.shared) { stream = c.shared.stream ++ m ∷ [] } })
  | false ↦ blocked c
]

abbrev pub put_stream : Text → List Message → Cluster → Cluster
put_stream id ms c = record c { id_to_stream = insert id ms c.id_to_stream }

-- Stream: the channel of an id, made on first use. A channel is named by its id.
unfoldable pub stream : Text → M Cluster (List Message)
unfolding lock unlock
stream id = do
  lock
  c ← get
  elim (lookup id c.id_to_stream) [
    | some ch ↦ do unlock; pure ch
    | none ↦ do modify (put_stream id []); unlock; pure []
  ]

-- SharedStream of a cluster that is not nil
unfoldable pub shared_stream : M Cluster (List Message)
shared_stream c = done c.shared.stream c

-- c.Stream(streamID) <- msg
unfoldable pub send_stream : Text → Message → M Cluster (Unit {0})
unfolding stream
send_stream id m = do
  ch ← stream id
  elim (ltb (length ch) stream_cap) [
    | true ↦ modify (put_stream id (ch ++ m ∷ []))
    | false ↦ blocked
  ]

unfoldable pub send_streams : List Text → Message → M Cluster (Unit {0})
unfolding send_stream
send_streams [] m = pure tt
send_streams (id ∷ ids) m = do send_stream id m; send_streams ids m

-- nd, ok := c.nameToNode[name], under the mutex
unfoldable pub node_of : Text → M Cluster (Option Node)
unfolding lock unlock
node_of name = do lock; c ← get; unlock; pure (lookup name c.name_to_node)

-- Write
unfoldable pub write : Text → Message → List Text → M Cluster (Option Error)
unfolding node_of send_shared send_streams
write name msg stream_ids = do
  found ← node_of name
  elim found [
    | none ↦ pure (some (does_not_exist name))
    | some (local nd) ↦ elim stream_ids [
      | [] ↦ do send_shared msg; pure none
      | id ∷ ids ↦ do send_streams (id ∷ ids) msg; pure none
    ]
    | some (remote nd) ↦ do send_streams stream_ids msg; pure none
  ]

-- A method of the node that stands under a name, with what it shares with the cluster.
abbrev pub put_world : Text → World → Cluster → Cluster
put_world name w c = record c {
  shared = w.shared;
  name_to_node = insert name (local w.node) c.name_to_node;
}

abbrev pub after_local : {A : Type 0} → Text → Cluster → Outcome World A → Outcome Cluster A
after_local name c (done a w) = done a (put_world name w c)
after_local name c (blocked w) = blocked (put_world name w c)
after_local name c (panicked w) = panicked (put_world name w c)

unfoldable pub on_local : {A : Type 0} → Text → NodeWebLocal → M World A → M Cluster A
on_local name nd m c = after_local name c (m (record { node = nd; shared = c.shared }))

abbrev pub put_remote : Text → NodeWebRemoteClient → Cluster → Cluster
put_remote name nd c = record c { name_to_node = insert name (remote nd) c.name_to_node }

abbrev pub after_remote :
    {A : Type 0} → Text → Cluster → Outcome NodeWebRemoteClient A → Outcome Cluster A
after_remote name c (done a nd) = done a (put_remote name nd c)
after_remote name c (blocked nd) = blocked (put_remote name nd c)
after_remote name c (panicked nd) = panicked (put_remote name nd c)

unfoldable pub on_remote :
    {A : Type 0} → Text → NodeWebRemoteClient → M NodeWebRemoteClient A → M Cluster A
on_remote name nd m c = after_remote name c (m nd)

unfoldable pub node_start : Outside → Text → Node → M Cluster (Option Error)
unfolding on_local on_remote
node_start o name (local nd) = on_local name nd (Local.start (o.of_local name))
node_start o name (remote nd) = on_remote name nd (Remote.start (o.of_remote name))

unfoldable pub node_restart : Outside → Text → Node → M Cluster (Option Error)
unfolding on_local on_remote
node_restart o name (local nd) = on_local name nd (Local.restart (o.of_local name))
node_restart o name (remote nd) = on_remote name nd (Remote.restart (o.of_remote name))

unfoldable pub node_terminate : Outside → Text → Node → M Cluster (Option Error)
unfolding on_local on_remote
node_terminate o name (local nd) = on_local name nd (Local.terminate (o.of_local name))
node_terminate o name (remote nd) = on_remote name nd (Remote.terminate (o.of_remote name))

unfoldable pub node_clean : Outside → Text → Node → M Cluster (Option Error)
unfolding on_local on_remote
node_clean o name (local nd) = on_local name nd (Local.clean (o.of_local name))
node_clean o name (remote nd) = on_remote name nd (Remote.clean (o.of_remote name))

unfoldable pub node_is_active : Text → Node → M Cluster Bool
unfolding on_local on_remote
node_is_active name (local nd) = on_local name nd Local.is_active
node_is_active name (remote nd) = on_remote name nd Remote.is_active
