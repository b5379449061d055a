-- ===== src/Backend/Server.antt =====
-- The running server (backend/backend.go, backend/cache.go): requests, the rounds of the
-- background loops and what startCluster leaves running, in any order, from the state in which CommandFunc begins to serve.
use etcd_play.Base.{ℕ, ◌≡◌, subst, refl, Bool, true, false, Option, none, some}
use etcd_play.Base.Text.{Text}
use etcd_play.Base.Time.{pos}
use etcd_play.Base.Outcome.{state_of, Returns}
use etcd_play.Base.Outcome.Preserves.{Preserves, Preserves-pure, Preserves-bind, Preserves-Option}
use etcd_play.Proc.Error.{Result}
use etcd_play.Proc.Cluster
use etcd_play.Proc.Cluster.{node_start}
use etcd_play.Proc.Cluster.Control.{each, shutdown}
use etcd_play.Proc.Cluster.Behind.{Job, behind}
use etcd_play.Proc.Cluster.Fit.Behind.{behind-Preserves}
use etcd_play.Proc.Cluster.Fit.Control.{start_each-Preserves, shutdown-Preserves}
use etcd_play.Proc.Cluster.Report
use etcd_play.Backend.State.{App, GlobalFlags, Request, on_cluster}
use etcd_play.Backend.UserId.{get_user_id}
use etcd_play.Backend.Loops.{pull_status, clean_up_users, revive_cluster}
use etcd_play.Backend.Start.{Ending, boot_cluster, finish_cluster, sizes_agree, start_cluster}
use etcd_play.Backend.Start.Total.{start_cluster_returns}
use etcd_play.Backend.Router.{
  Outside, Visit, Route, to_ws, to_stream, to_server_status, to_start_cluster, to_stress,
  to_key_history, to_key_value, to_kill, to_restart, route, handle, serve, command_func,
  init_global_data,
}
use etcd_play.Backend.Sound.{IsSound, with_cache-Preserves, on_cluster-Preserves}
use etcd_play.Backend.Sound.Start.{
  boot_cluster-Preserves, finish_cluster-Preserves, clean_up_users-Preserves,
  revive_cluster-Preserves, pull_status-Preserves,
}
use etcd_play.Backend.Sound.Handlers.{
  kill_handler-Preserves, restart_handler-Preserves, stress_handler-Preserves, ws_handler-Preserves,
}
use etcd_play.Backend.Sound.KeyValue.{key_value_handler-Preserves, key_history_handler-Preserves}
use etcd_play.Backend.Sound.Pages.{
  start_cluster_handler-Preserves, server_status_handler-Preserves, stream_handler-Preserves,
}

handle-Preserves :
    (o : Outside) (id : Text) (r : Request) (to : Route) → Preserves IsSound (handle o id r to)
unfolding handle
handle-Preserves o id r to_ws = ws_handler-Preserves o.upgrade_error o.last_error id
handle-Preserves o id r to_stream = stream_handler-Preserves o.picks id r
handle-Preserves o id r to_server_status = server_status_handler-Preserves r
handle-Preserves o id r to_start_cluster = start_cluster_handler-Preserves o.new_agent o.token r
handle-Preserves o id r to_stress = stress_handler-Preserves o.stress_run id o.now r
handle-Preserves o id r to_key_history = key_history_handler-Preserves id r
handle-Preserves o id r to_key_value = key_value_handler-Preserves o.answers id o.now r
handle-Preserves o id r to_kill = kill_handler-Preserves o.nodes id o.now r
handle-Preserves o id r to_restart = restart_handler-Preserves o.nodes id o.now r

started-IsSound :
    (g : GlobalFlags) (a : App) (b : Bool)
    → sizes_agree g ≡ b
    → elim b as (λ _. Option App) [ false ↦ none | true ↦ some (init_global_data g) ] ≡ some a
    → IsSound a
started-IsSound g a false agree e = cc
started-IsSound g a true agree e =
    let eq : init_global_data g ≡ a = cc in
    subst IsSound eq (record { users = tt; cluster = tt; agree = agree })

command_func-IsSound : (g : GlobalFlags) (a : App) → command_func g ≡ some a → IsSound a
unfolding command_func
command_func-IsSound g a e = started-IsSound g a (sizes_agree g) refl e

module _ (sha512 : Text → Text) where
  serve-Preserves : (o : Outside) (v : Visit) → Preserves IsSound (serve sha512 o v)
  unfolding serve
  serve-Preserves o v =
      let id : Text = get_user_id sha512 v.origin in
      Preserves-Option (route v.path) (Preserves-pure tt) (λ to.
        Preserves-bind (with_cache-Preserves id o.arrival (handle-Preserves o id v.request to))
          (λ e. Preserves-pure tt))

  -- What happens to the server: a request, a round of a background loop, the goroutine of startCluster
  -- that calls Bootstrap, a goroutine of Bootstrap that ends after Bootstrap has returned, the signal
  -- that Bootstrap waits for, what a local node's process and the goroutine that waits for it send, or
  -- the end of the select in startCluster. A call that waits or panics leaves the state it has reached.
  pub data Step (a : App) : App → Type 0 where
    serves : (o : Outside) (v : Visit) → Step a (state_of (serve sha512 o v a))
    pulls :
        (bytes_text : ℕ → Text) (w : Report.Answers)
        → Step a (state_of (pull_status bytes_text w a))
    cleans : (now : ℕ) → Step a (state_of (clean_up_users now a))
    revives : (o : Cluster.Outside) → Step a (state_of (revive_cluster o a))
    finishes :
        (o : Cluster.Outside) (id : Text) (ending : Ending)
        → Step a (state_of (finish_cluster o id ending a))
    boots :
        (o o' : Cluster.Outside) (id : Text) (signalled : Bool)
        → Step a (state_of (boot_cluster o o' id signalled a))
    starts_late :
        (o : Cluster.Outside) (name : Text)
        → Step a (state_of (on_cluster (each (node_start o) name) a))
    interrupts : (o : Cluster.Outside) → Step a (state_of (on_cluster (shutdown o) a))
    goes_on : (job : Job) (name : Text) → Step a (state_of (on_cluster (behind job name) a))

  pub data Reach (g : GlobalFlags) : App → Type 0 where
    starts : {a : App} → command_func g ≡ some a → Reach g a
    later : {a b : App} → Reach g a → Step a b → Reach g b

  Step-IsSound : {a b : App} → Step a b → IsSound a → IsSound b
  Step-IsSound {a} (serves o v) s = (serve-Preserves o v).kept a s
  Step-IsSound {a} (pulls bytes_text w) s = (pull_status-Preserves bytes_text w).kept a s
  Step-IsSound {a} (cleans now) s = (clean_up_users-Preserves now).kept a s
  Step-IsSound {a} (revives o) s = (revive_cluster-Preserves o).kept a s
  Step-IsSound {a} (boots o o' id signalled) s = (boot_cluster-Preserves o o' id signalled).kept a s
  Step-IsSound {a} (starts_late o name) s =
      (on_cluster-Preserves (start_each-Preserves o name)).kept a s
  Step-IsSound {a} (interrupts o) s = (on_cluster-Preserves (shutdown-Preserves o)).kept a s
  Step-IsSound {a} (goes_on job name) s =
      (on_cluster-Preserves (behind-Preserves job name)).kept a s
  Step-IsSound {a} (finishes o id ending) s = (finish_cluster-Preserves o id ending).kept a s

  -- In every state that the server reaches, from any values of the flags with which CommandFunc serves,
  -- by any requests, rounds of the background loops, calls of Bootstrap for the stored cluster and of
  -- what it and the nodes leave running, and ends of startCluster, each as a whole and in any order: the
  -- data of every user are clean
  -- (at most seven keys, none of them twice, and only short, escaped inputs), the mutexes of the
  -- cluster, if there is one, are free and its nodes' flags are valid, and a remote cluster has an agent
  -- endpoint for each node.
  pub Reach-IsSound : {g : GlobalFlags} {a : App} → Reach g a → IsSound a
  Reach-IsSound {g} {a} (starts e) = command_func-IsSound g a e
  Reach-IsSound (later r s) = Step-IsSound s (Reach-IsSound r)

  -- In every state that the server reaches in which the mutex is free, with a size of the cluster that
  -- is not negative, startCluster returns and gives
  -- the mutex back: it never indexes past the agent endpoints.
  pub Reach-start_cluster :
      {g : GlobalFlags} {a : App} (new_agent : Text → Result Text) (token : Text) (n : ℕ)
      → Reach g a
      → a.flags.cluster_size ≡ pos n
      → a.locked ≡ false
      → Returns (start_cluster new_agent token a) (λ e b. b.locked ≡ false)
  Reach-start_cluster {a} new_agent token n r size free =
      start_cluster_returns new_agent token a n free size (Reach-IsSound r).agree
