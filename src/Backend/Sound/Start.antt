-- ===== src/Backend/Sound/Start.antt =====
-- startCluster and the loops (backend/backend.go, backend/cache.go) keep the server's state sound.
use etcd_play.Base.{
  ℕ, zero, suc, ◌+◌, ◌≡◌, refl, Bool, List, [], ◌∷◌, Option, none, some, arith, Bool-cases, inl,
  inr, if◌then◌else◌,
}
use etcd_play.Base.Text.{Text, same}
use etcd_play.Base.Map.{Map, keys}
use etcd_play.Base.Map.Values.{Values}
use etcd_play.Base.Time.{ℤ, pos, negsuc, since, ltb_ℤ, hour}
use etcd_play.Base.Outcome.{panicked, M, ◌>>=◌, ◌>>◌, pure, modify}
use etcd_play.Base.Outcome.Preserves.{
  Preserves, Preserves-pure, Preserves-get, Preserves-bind, Preserves-Bool, Preserves-if,
  Preserves-Option, Preserves-List, Preserves-modify,
}
use etcd_play.Proc.Error.{Error, Result, ok, err}
use etcd_play.Proc.Message.{Message}
use etcd_play.Proc.Flags.{Flags, generate_flags, is_valid}
use etcd_play.Proc.Cluster
use etcd_play.Proc.Cluster.{send_stream}
use etcd_play.Proc.Cluster.Create.{NodeType, is_remote, new_cluster, OpOption}
use etcd_play.Proc.Cluster.Report.{Answers}
use etcd_play.Proc.Cluster.Fit.Create.{AllValid, new_cluster-IsFit}
use etcd_play.Proc.Cluster.Fit.Control.{revive-Preserves, shutdown-Preserves, bootstrap-Preserves}
use etcd_play.Proc.Cluster.Fit.Requests.{send_stream-Preserves, status-Preserves}
use etcd_play.Backend.State.{App, UserData, GlobalFlags, lock, unlock, cluster_active, on_cluster}
use etcd_play.Backend.Loops.{
  list_users, mask_users, user_text, pull_status, drop_old, clean_up_users, revive_cluster,
}
use etcd_play.Backend.Start.{
  make_flags, cluster_flags, node_name, node_type, options, start_cluster, boot_cluster, Ending,
  ending_message, finish_cluster,
}
use etcd_play.Backend.Start.Generated.{cluster_flags-step, made}
use etcd_play.Backend.Handlers.History.{IsClean}
use etcd_play.Backend.Sound.{
  IsSound, ClusterFits, lock-Preserves, unlock-Preserves, cluster_active-Preserves,
  on_cluster-Preserves,
}

generate_flags-valid :
    (i : ℕ) (host : Text) (remote : Bool) (prefix : ℕ)
    → is_valid (generate_flags (node_name i) host remote prefix).0 ≡ ok tt
unfolding generate_flags is_valid same
generate_flags-valid i host remote prefix = refl

pub cluster_flags-AllValid :
    (t : NodeType) (eps : List Text) (n i prefix : ℕ) (fs : List Flags) (last : ℕ)
    → cluster_flags t eps n i prefix ≡ some (fs, last)
    → AllValid fs
cluster_flags-AllValid t eps zero i prefix [] last e = tt
cluster_flags-AllValid t eps zero i prefix (f ∷ fs) last e =
    absurd (unfold cluster_flags in (ground (arith, e)))
cluster_flags-AllValid t eps (suc n) i prefix gs last e =
    let (host, fs, eg, el) = cluster_flags-step t eps n i prefix gs last e in
    rw eg (
      generate_flags-valid i host (is_remote t) prefix,
      cluster_flags-AllValid t eps n (i + 1) (made t i prefix host).1 fs last el,
    )

make_flags-AllValid :
    (t : NodeType) (eps : List Text) (size : ℤ) (prefix : ℕ) (fs : List Flags) (last : ℕ)
    → make_flags t eps size prefix ≡ some (fs, last)
    → AllValid fs
make_flags-AllValid t eps (pos n) prefix fs last e =
    cluster_flags-AllValid t eps n 0 prefix fs last e
make_flags-AllValid t eps (negsuc n) prefix fs last e = absurd cc

-- The end of startCluster, with the cluster that it made.
put_cluster-Preserves :
    (made_cluster : Option Cluster.Cluster)
    → ClusterFits made_cluster
    → Preserves IsSound (do
      active ← cluster_active
      if active
          then pure {A = Option Error} none
          else do lock; modify (λ a. record a { cluster = made_cluster }); unlock; pure none)
put_cluster-Preserves c fits = Preserves-bind cluster_active-Preserves (λ active.
    Preserves-if active (Preserves-pure none) (
      Preserves-bind lock-Preserves (λ u.
        Preserves-bind
          (Preserves-modify (λ a s. record { users = s.users; cluster = fits; agree = s.agree }))
          (λ t. Preserves-bind unlock-Preserves (λ v. Preserves-pure none)))))

abbrev install : Option Cluster.Cluster → M App (Option Error)
install c = do
  active ← cluster_active
  if active then pure none else do lock; modify (λ a. record a { cluster = c }); unlock; pure none

-- What NewCluster returned, if it fits.
abbrev ResultFits : Result (Option Cluster.Cluster) → Type 0
ResultFits (err e) = Unit
ResultFits (ok c) = ClusterFits c

made-ResultFits :
    (new_agent : Text → Result Text) (token : Text) (t : NodeType) (path : Text) (fs : List Flags)
    (opts : List OpOption) (r : Result (Option Cluster.Cluster))
    → AllValid fs
    → new_cluster new_agent token t path fs opts ≡ r
    → ResultFits r
made-ResultFits new_agent token t path fs opts (err e) v q = tt
made-ResultFits new_agent token t path fs opts (ok none) v q = tt
made-ResultFits new_agent token t path fs opts (ok (some c)) v q =
    new_cluster-IsFit new_agent token t path fs opts c v q

installed-Preserves :
    (r : Result (Option Cluster.Cluster))
    → ResultFits r
    → Preserves IsSound (elim r [ err e ↦ pure (some e) | ok c ↦ install c ])
installed-Preserves (err e) fits = Preserves-pure (some e)
installed-Preserves (ok c) fits = put_cluster-Preserves c fits

abbrev with_flags :
    (new_agent : Text → Result Text) (token : Text) (g : GlobalFlags)
    → Option (List Flags × ℕ)
    → M App (Option Error)
with_flags new_agent token g none = panicked
with_flags new_agent token g (some (fs, prefix)) = do
  modify (λ a. record a { port_prefix = prefix })
  elim (new_cluster new_agent token (node_type g) g.etcd_binary fs (options g)) [
    | err e ↦ pure (some e)
    | ok c ↦ install c
  ]

with_flags-Preserves :
    (new_agent : Text → Result Text) (token : Text) (g : GlobalFlags) (prefix : ℕ)
    (v : Option (List Flags × ℕ))
    → make_flags (node_type g) g.agent_endpoints g.cluster_size prefix ≡ v
    → Preserves IsSound (with_flags new_agent token g v)
with_flags-Preserves new_agent token g prefix none e = record { kept = λ a s. s }
with_flags-Preserves new_agent token g prefix (some (fs, last)) e =
    let t : NodeType = node_type g in
    let r : Result (Option Cluster.Cluster) =
      new_cluster new_agent token t g.etcd_binary fs (options g) in
    Preserves-bind
      (Preserves-modify (λ a s. record { users = s.users; cluster = s.cluster; agree = s.agree }))
      (λ u. installed-Preserves r (
        made-ResultFits new_agent token t g.etcd_binary fs (options g) r
          (make_flags-AllValid t g.agent_endpoints g.cluster_size prefix fs last e) refl))

pub start_cluster-Preserves :
    (new_agent : Text → Result Text) (token : Text)
    → Preserves IsSound (start_cluster new_agent token)
unfolding start_cluster
start_cluster-Preserves new_agent token = Preserves-bind Preserves-get (λ a.
    with_flags-Preserves new_agent token a.flags a.port_prefix
      (make_flags (node_type a.flags) a.flags.agent_endpoints a.flags.cluster_size a.port_prefix)
      refl)

pub boot_cluster-Preserves :
    (o o' : Cluster.Outside) (id : Text) (signalled : Bool)
    → Preserves IsSound (boot_cluster o o' id signalled)
unfolding boot_cluster
boot_cluster-Preserves o o' id signalled = Preserves-bind Preserves-get (λ a.
    Preserves-bind (on_cluster-Preserves (send_stream-Preserves id _))
      (λ u. on_cluster-Preserves (bootstrap-Preserves o o' signalled)))

-- The message to the user's stream.
tell-Preserves :
    (id : Text) (m : Option Message)
    → Preserves IsSound (elim m [ none ↦ pure tt | some x ↦ on_cluster (send_stream id x) ])
tell-Preserves id m =
    Preserves-Option m (Preserves-pure tt) (λ x. on_cluster-Preserves (send_stream-Preserves id x))

pub finish_cluster-Preserves :
    (o : Cluster.Outside) (id : Text) (ending : Ending)
    → Preserves IsSound (finish_cluster o id ending)
unfolding finish_cluster
finish_cluster-Preserves o id ending = Preserves-bind Preserves-get (λ a.
    Preserves-bind (tell-Preserves id (ending_message a.flags ending)) (λ u.
      Preserves-if a.flags.keep_alive (Preserves-pure tt) (
        Preserves-bind (on_cluster-Preserves (shutdown-Preserves o)) (λ e.
          Preserves-bind lock-Preserves (λ v.
            Preserves-bind
              (Preserves-modify (λ a s. record { users = s.users; cluster = tt; agree = s.agree }))
              (λ t. unlock-Preserves))))))

drop_old-Values :
    (now : ℕ) (us : Map UserData) → Values IsClean us → Values IsClean (drop_old now us)
unfolding drop_old
drop_old-Values now [] h = tt
drop_old-Values now ((id, u) ∷ us) h =
    elim (Bool-cases (ltb_ℤ (pos hour) (since now u.start_time))) [
      | inl old ↦ rw old (drop_old-Values now us h.1)
      | inr recent ↦ rw recent (h.0, drop_old-Values now us h.1)
    ]

pub clean_up_users-Preserves : (now : ℕ) → Preserves IsSound (clean_up_users now)
unfolding clean_up_users
clean_up_users-Preserves now = Preserves-bind lock-Preserves (λ u.
    Preserves-bind
      (Preserves-modify (λ a s. record {
        users = drop_old-Values now a.users s.users;
        cluster = s.cluster;
        agree = s.agree;
      }))
      (λ t. unlock-Preserves))

pub revive_cluster-Preserves : (o : Cluster.Outside) → Preserves IsSound (revive_cluster o)
unfolding revive_cluster
revive_cluster-Preserves o = Preserves-bind cluster_active-Preserves (λ active.
    Preserves-Bool active
      (Preserves-bind lock-Preserves
        (λ u. Preserves-bind (on_cluster-Preserves (revive-Preserves o)) (λ e. unlock-Preserves)))
      (Preserves-pure tt))

list_users-Preserves : Preserves IsSound list_users
unfolding list_users
list_users-Preserves = Preserves-bind lock-Preserves (λ u. Preserves-bind Preserves-get (λ a.
    Preserves-Option (mask_users 21 (keys a.users)) (record { kept = λ b s. s })
      (λ us. Preserves-bind unlock-Preserves (λ t. Preserves-pure (user_text us)))))

pub pull_status-Preserves :
    (bytes_text : ℕ → Text) (w : Answers) → Preserves IsSound (pull_status bytes_text w)
unfolding pull_status
pull_status-Preserves bytes_text w = Preserves-bind cluster_active-Preserves (λ active.
    Preserves-Bool active
      (Preserves-bind lock-Preserves (λ u. Preserves-bind Preserves-get (λ a.
        Preserves-bind unlock-Preserves (λ v. Preserves-List a.users (Preserves-pure tt) (λ x xs.
          Preserves-bind list_users-Preserves (λ text.
            Preserves-bind (on_cluster-Preserves (status-Preserves bytes_text w)) (λ st.
              Preserves-modify
                (λ a s. record { users = s.users; cluster = s.cluster; agree = s.agree }))))))))
      (Preserves-pure tt))
