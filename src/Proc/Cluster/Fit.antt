-- ===== src/Proc/Cluster/Fit.antt =====
-- What the methods of the cluster (proc/proc_cluster.go) keep: no mutex is held once a method has
-- ended or waits for a stream, and the flags of every node are valid.
pub mod Control
pub mod Requests
pub mod Kv
pub mod Create
pub mod Fresh
pub mod Behind
use etcd_play.Base.{ℕ, ◌≡◌, refl, Bool, true, false, List, [], ◌∷◌, Option, none, some, All, arith}
use etcd_play.Base.Text.{Text}
use etcd_play.Base.Map.{Map, lookup, insert, keys}
use etcd_play.Base.Map.Values.{Values, Values-insert, Values-lookup}
use etcd_play.Base.Outcome.{Outcome, done, blocked, panicked, M, pure, state_of}
use etcd_play.Base.Outcome.Preserves.{
  Preserves, Preserves-pure, Preserves-get, Preserves-bind, Preserves-Bool, Preserves-if,
  Preserves-Option,
}
use etcd_play.Proc.Error.{Error, ok}
use etcd_play.Proc.Flags.{Flags, is_valid}
use etcd_play.Proc.Node.Local
use etcd_play.Proc.Node.Local.{NodeWebLocal, World, existing}
use etcd_play.Proc.Node.Remote
use etcd_play.Proc.Node.Remote.{NodeWebRemoteClient}
use etcd_play.Proc.Node.Refines.{string-ok, existing-valid}
use etcd_play.Proc.Cluster.{
  Cluster, Node, local, remote, Outside, after_local, after_remote, on_local, on_remote, node_start,
  node_restart, node_terminate, node_clean, node_is_active,
}

-- The node's own mutex is free, and its flags are valid.
abbrev pub NodeFits : Node → Type 0
NodeFits (local nd) = is_valid nd.flags ≡ ok tt
NodeFits (remote nd) = (is_valid nd.flags ≡ ok tt) × (nd.locked ≡ false)

pub record IsFit (c : Cluster) : Type 0 where
  pub free : c.shared.locked ≡ false
  pub nodes : Values NodeFits c.name_to_node

-- The same of a local node with what it shares.
abbrev pub WorldFits : World → Type 0
WorldFits w = (w.shared.locked ≡ false) × (is_valid w.node.flags ≡ ok tt)

local_start-WorldFits :
    (o : Local.Outside) (w : World) → WorldFits w → WorldFits (state_of (Local.start o w))
unfolding Local.start
local_start-WorldFits o w h = let (s, e) = string-ok w.node.flags h.1 in ground (arith, e)

local_restart-WorldFits :
    (o : Local.Outside) (w : World) → WorldFits w → WorldFits (state_of (Local.restart o w))
unfolding Local.restart
local_restart-WorldFits o w h =
    let v = existing-valid w.node h.1 in
    let (s, e) = string-ok (existing w.node).flags v in ground (arith, e, v)

local_terminate-WorldFits :
    (o : Local.Outside) (w : World) → WorldFits w → WorldFits (state_of (Local.terminate o w))
unfolding Local.terminate
local_terminate-WorldFits o w h = ground arith

local_clean-WorldFits :
    (o : Local.Outside) (w : World) → WorldFits w → WorldFits (state_of (Local.clean o w))
unfolding Local.clean
local_clean-WorldFits o w h = ground arith

local_is_active-WorldFits : (w : World) → WorldFits w → WorldFits (state_of (Local.is_active w))
unfolding Local.is_active
local_is_active-WorldFits w h = ground arith

after_local-IsFit :
    {A : Type 0} (name : Text) (c : Cluster) (r : Outcome World A)
    → IsFit c
    → WorldFits (state_of r)
    → IsFit (state_of (after_local name c r))
after_local-IsFit name c (done a w) f h = record {
  free = h.0;
  nodes = Values-insert NodeFits name (local w.node) c.name_to_node f.nodes h.1;
}
after_local-IsFit name c (blocked w) f h = record {
  free = h.0;
  nodes = Values-insert NodeFits name (local w.node) c.name_to_node f.nodes h.1;
}
after_local-IsFit name c (panicked w) f h = record {
  free = h.0;
  nodes = Values-insert NodeFits name (local w.node) c.name_to_node f.nodes h.1;
}

after_remote-IsFit :
    {A : Type 0} (name : Text) (c : Cluster) (r : Outcome NodeWebRemoteClient A)
    → IsFit c
    → NodeFits (remote (state_of r))
    → IsFit (state_of (after_remote name c r))
after_remote-IsFit name c (done a nd) f h = record {
  free = f.free;
  nodes = Values-insert NodeFits name (remote nd) c.name_to_node f.nodes h;
}
after_remote-IsFit name c (blocked nd) f h = record {
  free = f.free;
  nodes = Values-insert NodeFits name (remote nd) c.name_to_node f.nodes h;
}
after_remote-IsFit name c (panicked nd) f h = record {
  free = f.free;
  nodes = Values-insert NodeFits name (remote nd) c.name_to_node f.nodes h;
}

remote_start-NodeFits :
    (o : Remote.Outside) (nd : NodeWebRemoteClient)
    → NodeFits (remote nd)
    → NodeFits (remote (state_of (Remote.start o nd)))
unfolding Remote.start
remote_start-NodeFits o nd h = ground arith

remote_restart-NodeFits :
    (o : Remote.Outside) (nd : NodeWebRemoteClient)
    → NodeFits (remote nd)
    → NodeFits (remote (state_of (Remote.restart o nd)))
unfolding Remote.restart
remote_restart-NodeFits o nd h = ground arith

remote_terminate-NodeFits :
    (o : Remote.Outside) (nd : NodeWebRemoteClient)
    → NodeFits (remote nd)
    → NodeFits (remote (state_of (Remote.terminate o nd)))
unfolding Remote.terminate
remote_terminate-NodeFits o nd h = ground arith

remote_clean-NodeFits :
    (o : Remote.Outside) (nd : NodeWebRemoteClient)
    → NodeFits (remote nd)
    → NodeFits (remote (state_of (Remote.clean o nd)))
unfolding Remote.clean
remote_clean-NodeFits o nd h = ground arith

remote_is_active-NodeFits :
    (nd : NodeWebRemoteClient)
    → NodeFits (remote nd)
    → NodeFits (remote (state_of (Remote.is_active nd)))
unfolding Remote.is_active
remote_is_active-NodeFits nd h = ground arith

-- What `lookup` hands on of the nodes.
abbrev pub FoundFits : Option Node → Type 0
FoundFits none = Unit
FoundFits (some nd) = NodeFits nd

pub found-FoundFits : (name : Text) (c : Cluster) → IsFit c → FoundFits (lookup name c.name_to_node)
found-FoundFits name c f = go (lookup name c.name_to_node) refl
  where
    go : (v : Option Node) → lookup name c.name_to_node ≡ v → FoundFits v
    go none e = tt
    go (some nd) e = Values-lookup NodeFits name nd c.name_to_node f.nodes e

pub on_local-Preserves :
    {A : Type 0} (name : Text) (nd : NodeWebLocal) (m : M World A)
    → ((w : World) → WorldFits w → WorldFits (state_of (m w)))
    → NodeFits (local nd)
    → Preserves IsFit (on_local name nd m)
unfolding on_local
on_local-Preserves name nd m keeps h = record {
  kept = λ c f.
      after_local-IsFit name c (m (record { node = nd; shared = c.shared })) f
        (keeps (record { node = nd; shared = c.shared }) (f.free, h));
}

on_remote-Preserves :
    {A : Type 0} (name : Text) (nd : NodeWebRemoteClient) (m : M NodeWebRemoteClient A)
    → ((n : NodeWebRemoteClient) → NodeFits (remote n) → NodeFits (remote (state_of (m n))))
    → NodeFits (remote nd)
    → Preserves IsFit (on_remote name nd m)
unfolding on_remote
on_remote-Preserves name nd m keeps h = record {
  kept = λ c f. after_remote-IsFit name c (m nd) f (keeps nd h);
}

module _ (o : Outside) (name : Text) where
  pub node_start-Preserves : (nd : Node) → NodeFits nd → Preserves IsFit (node_start o name nd)
  unfolding node_start
  node_start-Preserves (local nd) h =
      on_local-Preserves name nd (Local.start (o.of_local name))
        (local_start-WorldFits (o.of_local name)) h
  node_start-Preserves (remote nd) h =
      on_remote-Preserves name nd (Remote.start (o.of_remote name))
        (remote_start-NodeFits (o.of_remote name)) h

  pub node_restart-Preserves : (nd : Node) → NodeFits nd → Preserves IsFit (node_restart o name nd)
  unfolding node_restart
  node_restart-Preserves (local nd) h =
      on_local-Preserves name nd (Local.restart (o.of_local name))
        (local_restart-WorldFits (o.of_local name)) h
  node_restart-Preserves (remote nd) h =
      on_remote-Preserves name nd (Remote.restart (o.of_remote name))
        (remote_restart-NodeFits (o.of_remote name)) h

  pub node_terminate-Preserves :
      (nd : Node) → NodeFits nd → Preserves IsFit (node_terminate o name nd)
  unfolding node_terminate
  node_terminate-Preserves (local nd) h =
      on_local-Preserves name nd (Local.terminate (o.of_local name))
        (local_terminate-WorldFits (o.of_local name)) h
  node_terminate-Preserves (remote nd) h =
      on_remote-Preserves name nd (Remote.terminate (o.of_remote name))
        (remote_terminate-NodeFits (o.of_remote name)) h

  pub node_clean-Preserves : (nd : Node) → NodeFits nd → Preserves IsFit (node_clean o name nd)
  unfolding node_clean
  node_clean-Preserves (local nd) h =
      on_local-Preserves name nd (Local.clean (o.of_local name))
        (local_clean-WorldFits (o.of_local name)) h
  node_clean-Preserves (remote nd) h =
      on_remote-Preserves name nd (Remote.clean (o.of_remote name))
        (remote_clean-NodeFits (o.of_remote name)) h

pub node_is_active-Preserves :
    (name : Text) (nd : Node) → NodeFits nd → Preserves IsFit (node_is_active name nd)
unfolding node_is_active
node_is_active-Preserves name (local nd) h =
    on_local-Preserves name nd Local.is_active local_is_active-WorldFits h
node_is_active-Preserves name (remote nd) h =
    on_remote-Preserves name nd Remote.is_active remote_is_active-NodeFits h
