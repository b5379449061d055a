-- ===== src/Backend/Sound.antt =====
-- What the web server keeps of its state (backend/cache.go, backend/backend.go): every user's data
-- are clean, the cluster, if there is one, is fit, and a remote cluster has an agent for each node.
pub mod Start
pub mod Handlers
pub mod KeyValue
pub mod Pages
use etcd_play.Base.{
  ℕ, ◌≡◌, refl, Bool, true, false, List, [], ◌∷◌, ◌++◌, Option, none, some, arith, Option-cases,
  inl, inr,
}
use etcd_play.Base.Text.{Text}
use etcd_play.Base.Map.{Map, lookup, insert}
use etcd_play.Base.Map.Values.{Values, Values-insert, Values-lookup}
use etcd_play.Base.Outcome.{
  Outcome, done, blocked, panicked, M, ◌>>=◌, ◌>>◌, pure, get, modify, state_of,
}
use etcd_play.Base.Outcome.Preserves.{
  Preserves, Preserves-pure, Preserves-bind, Preserves-Bool, Preserves-Option, Preserves-modify,
}
use etcd_play.Proc.Error.{Error}
use etcd_play.Proc.Node.{Readings}
use etcd_play.Proc.Cluster.{Cluster}
use etcd_play.Proc.Cluster.Fit.{IsFit}
use etcd_play.Backend.State.{
  App, UserData, Request, Body, lock, unlock, respond, encode, user, update_user, on_cluster,
  cluster_active, with_lock, released, after_cluster, not_active, rate_limited,
}
use etcd_play.Backend.Cache.{
  new_user, add_user, with_cache, count_request, ok_to_request, say, when_active, when_allowed,
}
use etcd_play.Backend.Start.{sizes_agree}
use etcd_play.Backend.Handlers.History.{IsClean, new_user-IsClean}

abbrev pub ClusterFits : Option Cluster → Type 0
ClusterFits none = Unit
ClusterFits (some c) = IsFit c

pub record IsSound (a : App) : Type 0 where
  pub users : Values IsClean a.users
  pub cluster : ClusterFits a.cluster
  pub agree : sizes_agree a.flags ≡ true

pub lock-Preserves : Preserves IsSound lock
unfolding lock
lock-Preserves = record {
  kept = λ a s. record {
    users = ground (arith, s.users);
    cluster = ground (arith, s.cluster);
    agree = ground (arith, s.agree);
  };
}

pub unlock-Preserves : Preserves IsSound unlock
unfolding unlock
unlock-Preserves = record {
  kept = λ a s. record {
    users = ground (arith, s.users);
    cluster = ground (arith, s.cluster);
    agree = ground (arith, s.agree);
  };
}

pub respond-Preserves : (b : Body) → Preserves IsSound (respond b)
unfolding respond
respond-Preserves b = record {
  kept = λ a s. record { users = s.users; cluster = s.cluster; agree = s.agree };
}

pub say-Preserves : (b : Body) → Preserves IsSound (say b)
say-Preserves b = Preserves-bind (respond-Preserves b) (λ u. Preserves-pure none)

pub encode-Preserves : (r : Request) (b : Body) → Preserves IsSound (encode r b)
unfolding encode
encode-Preserves r b = Preserves-Option r.encode (say-Preserves b) (λ e. Preserves-pure (some e))

pub user-Preserves : (id : Text) → Preserves IsSound (user id)
unfolding user
user-Preserves id = record {
  kept = λ a s. record {
    users = ground (arith, s.users);
    cluster = ground (arith, s.cluster);
    agree = ground (arith, s.agree);
  };
}

-- A write to the user's data that keeps them clean.
updated-IsSound :
    (id : Text) (f : UserData → UserData) (a : App) (v : Option UserData)
    → lookup id a.users ≡ v
    → ((u : UserData) → IsClean u → IsClean (f u))
    → IsSound a
    → IsSound (
        state_of (elim v as (λ _. Outcome App (Unit {0})) [
          | none ↦ panicked a
          | some u ↦ done tt (record a { users = insert id (f u) a.users })
        ]))
updated-IsSound id f a none e keeps s = s
updated-IsSound id f a (some u) e keeps s = record {
  users =
      Values-insert IsClean id (f u) a.users s.users
        (keeps u (Values-lookup IsClean id u a.users s.users e));
  cluster = s.cluster;
  agree = s.agree;
}

pub update_user-Preserves :
    (id : Text) (f : UserData → UserData)
    → ((u : UserData) → IsClean u → IsClean (f u))
    → Preserves IsSound (update_user id f)
unfolding update_user
update_user-Preserves id f keeps = record {
  kept = λ a s. updated-IsSound id f a (lookup id a.users) refl keeps s;
}

called-IsSound :
    {A : Type 0} (m : M Cluster A) (a : App) (v : Option Cluster)
    → a.cluster ≡ v
    → Preserves IsFit m
    → IsSound a
    → ClusterFits v
    → IsSound (
        state_of
          (elim v as (λ _. Outcome App A) [ none ↦ panicked a | some c ↦ after_cluster a (m c) ]))
called-IsSound {A} m a none e keeps s f = s
called-IsSound {A} m a (some c) e keeps s f = after (m c) (keeps.kept c f)
  where
    after : (r : Outcome Cluster A) → IsFit (state_of r) → IsSound (state_of (after_cluster a r))
    after (done x c') f' = record { users = s.users; cluster = f'; agree = s.agree }
    after (blocked c') f' = record { users = s.users; cluster = f'; agree = s.agree }
    after (panicked c') f' = record { users = s.users; cluster = f'; agree = s.agree }

-- A call of a method of the cluster that keeps it fit.
pub on_cluster-Preserves :
    {A : Type 0} {m : M Cluster A} → Preserves IsFit m → Preserves IsSound (on_cluster m)
unfolding on_cluster
on_cluster-Preserves {m} keeps = record {
  kept = λ a s. called-IsSound m a a.cluster refl keeps s s.cluster;
}

pub cluster_active-Preserves : Preserves IsSound cluster_active
unfolding cluster_active
cluster_active-Preserves = record {
  kept = λ a s. record {
    users = ground (arith, s.users);
    cluster = ground (arith, s.cluster);
    agree = ground (arith, s.agree);
  };
}

counted-IsClean : (now : Readings) (u : UserData) → IsClean u → IsClean (count_request now u).0
unfolding count_request
counted-IsClean now u c =
    ground
      (arith, c.few, c.unrepeated, c.plain, c.key_short, c.key_plain, c.value_short, c.value_plain)

-- okToRequest under the lock, on what it found.
abbrev count_found : Text → Readings → Option UserData → M App Bool
count_found id now none = do unlock; pure false
count_found id now (some u) = do
  modify (λ a. record a { users = insert id (count_request now u).0 a.users })
  unlock
  pure (count_request now u).1

count_found-IsSound :
    (id : Text) (now : Readings) (a : App) (v : Option UserData)
    → lookup id a.users ≡ v
    → IsSound a
    → IsSound (state_of (count_found id now v a))
count_found-IsSound id now a none e s =
    (Preserves-bind unlock-Preserves (λ u. Preserves-pure false)).kept a s
count_found-IsSound id now a (some u) e s =
    (Preserves-bind unlock-Preserves (λ t. Preserves-pure (count_request now u).1)).kept
      (record a { users = insert id (count_request now u).0 a.users })
      (record {
        users =
            Values-insert IsClean id (count_request now u).0 a.users s.users
              (counted-IsClean now u (Values-lookup IsClean id u a.users s.users e));
        cluster = s.cluster;
        agree = s.agree;
      })

pub ok_to_request-Preserves :
    (id : Text) (now : Readings) → Preserves IsSound (ok_to_request id now)
unfolding ok_to_request
ok_to_request-Preserves id now =
    Preserves-bind lock-Preserves
      (λ u. record { kept = λ a s. count_found-IsSound id now a (lookup id a.users) refl s })

pub when_active-Preserves :
    {body : M App (Option Error)} → Preserves IsSound body → Preserves IsSound (when_active body)
unfolding when_active
when_active-Preserves {body} k =
    Preserves-bind cluster_active-Preserves
      (λ active. Preserves-Bool active k (say-Preserves not_active))

pub when_allowed-Preserves :
    (id : Text) (now : Readings) {body : M App (Option Error)}
    → Preserves IsSound body
    → Preserves IsSound (when_allowed id now body)
unfolding when_allowed
when_allowed-Preserves id now {body} k =
    Preserves-bind (ok_to_request-Preserves id now)
      (λ allowed. Preserves-Bool allowed k (say-Preserves rate_limited))

released-IsSound :
    {A : Type 0} (r : Outcome App A) → IsSound (state_of r) → IsSound (state_of (released r))
released-IsSound (done x a) s = record { users = s.users; cluster = s.cluster; agree = s.agree }
released-IsSound (blocked a) s = s
released-IsSound (panicked a) s = record { users = s.users; cluster = s.cluster; agree = s.agree }

locked-IsSound :
    {A : Type 0} (body : M App A) (r : Outcome App (Unit {0}))
    → Preserves IsSound body
    → IsSound (state_of r)
    → IsSound (
        state_of (elim r as (λ _. Outcome App A) [
          | done _ a' ↦ released (body a')
          | blocked a' ↦ blocked a'
          | panicked a' ↦ panicked a'
        ]))
locked-IsSound body (done u a) k s = released-IsSound (body a) (k.kept a s)
locked-IsSound body (blocked a) k s = s
locked-IsSound body (panicked a) k s = s

pub with_lock-Preserves :
    {A : Type 0} {body : M App A} → Preserves IsSound body → Preserves IsSound (with_lock body)
unfolding with_lock
with_lock-Preserves {body} k = record {
  kept = λ a s. locked-IsSound body (lock a) k (lock-Preserves.kept a s);
}

add_user-IsSound : (id : Text) (now : ℕ) (a : App) → IsSound a → IsSound (add_user id now a)
add_user-IsSound id now a s = go (lookup id a.users)
  where
    go :
        (v : Option UserData)
        → IsSound (elim v as (λ _. App) [
          | some u ↦ a
          | none ↦ record a { users = insert id (new_user now) a.users }
        ])
    go (some u) = s
    go none = record {
      users = Values-insert IsClean id (new_user now) a.users s.users (new_user-IsClean now);
      cluster = s.cluster;
      agree = s.agree;
    }

pub with_cache-Preserves :
    (id : Text) (now : ℕ) {handler : M App (Option Error)}
    → Preserves IsSound handler
    → Preserves IsSound (with_cache id now handler)
unfolding with_cache
with_cache-Preserves id now {handler} k = Preserves-bind lock-Preserves (λ u.
    Preserves-bind (Preserves-modify (λ a s. add_user-IsSound id now a s))
      (λ t. Preserves-bind unlock-Preserves (λ v. k)))
