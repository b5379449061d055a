-- ===== src/Proc/Node/Remote.antt =====
-- proc/node_web_remote_client.go. The etcd agent's answers and the clock come through `Outside`.
-- Every method but Clean holds the node's own mutex until it returns.
use etcd_play.Base.{ℕ, Bool, true, false, List, Option, none, some, if◌then◌else◌}
use etcd_play.Base.Text.{Text}
use etcd_play.Base.Time.{ℤ, ltb_ℤ, since}
use etcd_play.Base.Outcome.{blocked, M, ◌>>=◌, ◌>>◌, pure, get, modify}
use etcd_play.Proc.Error.{
  Error, ok, err, already_running, already_terminated, same_node_restarted, node_terminated,
  same_node_terminated, node_restarted,
}
use etcd_play.Proc.Flags.{Flags, string_slice}
use etcd_play.Proc.Node.{Readings, UrlHost, first_key}

pub record NodeWebRemoteClient : Type 0 where
  pub locked : Bool
  pub flags : Flags
  pub agent : Text
  pub active : Bool
  pub limit_interval : ℤ
  pub last_terminated : ℕ
  pub last_restarted : ℕ

pub record Outside : Type 0 where
  pub agent_start : List Text → Option Error
  pub agent_restart : Option Error
  pub agent_stop : Option Error
  pub agent_cleanup : Option Error
  pub now : Readings

abbrev put_locked : Bool → NodeWebRemoteClient → NodeWebRemoteClient
put_locked b nd = record nd { locked = b }

-- nd.mu.Lock() and, when the method returns, nd.mu.Unlock()
unfoldable pub with_lock : {A : Type 0} → M NodeWebRemoteClient A → M NodeWebRemoteClient A
with_lock body nd = elim nd.locked [
  | true ↦ blocked nd
  | false ↦ (body >>= λ r. modify (put_locked false) >> pure r) (put_locked true nd)
]

-- Endpoint; `none` is the panic of a URL that url.Parse refuses.
unfoldable pub endpoint : UrlHost → NodeWebRemoteClient → Option Text
endpoint host nd = host (first_key nd.flags.listen_client_urls)

-- StatusEndpoint
unfoldable pub status_endpoint : NodeWebRemoteClient → Text
status_endpoint nd = first_key nd.flags.listen_client_urls

-- IsActive
unfoldable pub is_active : M NodeWebRemoteClient Bool
unfolding with_lock
is_active = with_lock (do nd ← get; pure nd.active)

start_body : Outside → M NodeWebRemoteClient (Option Error)
start_body o = do
  nd ← get
  if nd.active then pure (some (already_running nd.flags.name)) else elim (string_slice nd.flags) [
    | err e ↦ pure (some e)
    | ok flag_slice ↦ elim (o.agent_start flag_slice) [
      | some e ↦ pure (some e)
      | none ↦ do modify (λ nd. record nd { active = true }); pure none
    ]
  ]

unfoldable pub start : Outside → M NodeWebRemoteClient (Option Error)
unfolding with_lock start_body string_slice
start o = with_lock (start_body o)

restart_body : Outside → M NodeWebRemoteClient (Option Error)
restart_body o = do
  nd ← get
  if nd.active
      then pure (some (already_running nd.flags.name))
      else if ltb_ℤ (since o.now.first nd.last_restarted) nd.limit_interval
      then pure (some (same_node_restarted (since o.now.first nd.last_restarted) nd.limit_interval))
      else if ltb_ℤ (since o.now.second nd.last_terminated) nd.limit_interval
      then pure (some (node_terminated (since o.now.second nd.last_terminated) nd.limit_interval))
      else elim o.agent_restart [
        | some e ↦ pure (some e)
        | none ↦ do
          modify (λ nd. record nd { last_restarted = o.now.third; active = true })
          pure none
      ]

unfoldable pub restart : Outside → M NodeWebRemoteClient (Option Error)
unfolding with_lock restart_body
restart o = with_lock (restart_body o)

terminate_body : Outside → M NodeWebRemoteClient (Option Error)
terminate_body o = do
  nd ← get
  if nd.active
      then (if ltb_ℤ (since o.now.first nd.last_terminated) nd.limit_interval
          then pure
              (some (same_node_terminated (since o.now.first nd.last_terminated) nd.limit_interval))
          else if ltb_ℤ (since o.now.second nd.last_restarted) nd.limit_interval
          then pure (some (node_restarted (since o.now.second nd.last_restarted) nd.limit_interval))
          else elim o.agent_stop [
            | some e ↦ pure (some e)
            | none ↦ do
              modify (λ nd. record nd { last_terminated = o.now.third; active = false })
              pure none
          ])
      else pure (some (already_terminated nd.flags.name))

unfoldable pub terminate : Outside → M NodeWebRemoteClient (Option Error)
unfolding with_lock terminate_body
terminate o = with_lock (terminate_body o)

-- Clean takes no lock.
unfoldable pub clean : Outside → M NodeWebRemoteClient (Option Error)
clean o = pure o.agent_cleanup
