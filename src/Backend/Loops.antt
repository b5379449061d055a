-- ===== src/Backend/Loops.antt =====
-- backend/cache.go: one round of each loop that initGlobalData starts. Users are handed out in the
-- order of the map, which is any order. Status is called without the lock, as in the source.
pub mod Masks
pub mod Cleanup
use etcd_play.Base.{
  ℕ, zero, suc, ◌+◌, Bool, true, false, List, [], ◌∷◌, ◌++◌, Option, none, some, ltb, length, take,
  if◌then◌else◌,
}
use etcd_play.Base.Text.{Text, codes, join}
use etcd_play.Base.Time.{ℤ, pos, ltb_ℤ, since, hour}
use etcd_play.Base.Sort.{sort}
use etcd_play.Base.Map.{Map, keys}
use etcd_play.Base.Outcome.{Outcome, done, blocked, panicked, M, ◌>>=◌, ◌>>◌, pure, get, modify}
use etcd_play.Proc.Error.{Error}
use etcd_play.Proc.Cluster
use etcd_play.Proc.Cluster.Control.{revive}
use etcd_play.Proc.Cluster.Report.{Answers, ServerStatus, status}
use etcd_play.Backend.State.{App, UserData, lock, unlock, cluster_active, on_cluster}

-- bts[2] to bts[8] = 'x': a shorter id is an index out of range.
unfoldable pub mask : Text → Option Text
mask (a ∷ b ∷ _ ∷ _ ∷ _ ∷ _ ∷ _ ∷ _ ∷ _ ∷ rest) = some (a ∷ b ∷ (codes "xxxxxxx" ++ rest))
mask _ = none

abbrev pub shorten : Text → Text
shorten bs = if ltb 23 (length bs) then take 23 bs ++ codes "..." else bs

-- The loop over the users, of whom at most 21 are taken.
unfoldable pub mask_users : ℕ → List Text → Option (List Text)
unfolding mask
mask_users zero us = some []
mask_users (suc n) [] = some []
mask_users (suc n) (u ∷ us) = elim (mask u) [
  | none ↦ none
  | some bs ↦ elim (mask_users n us) [ none ↦ none | some rest ↦ some (shorten bs ∷ rest) ]
]

abbrev pub add_more : List Text → List Text
add_more us = if ltb 20 (length us) then us ++ codes "...more" ∷ [] else us

abbrev pub user_text : List Text → Text
user_text us = join (add_more (sort us)) (codes "<br>")

-- The text of the active users, taken under the lock.
unfoldable pub list_users : M App Text
unfolding lock unlock mask_users
list_users = do
  lock
  a ← get
  elim (mask_users 21 (keys a.users)) [ none ↦ panicked | some us ↦ do unlock; pure (user_text us) ]

-- A round of "keep pulling cluster status"; the error of Status is logged only.
unfoldable pub pull_status : (ℕ → Text) → Answers → M App (Unit {0})
unfolding cluster_active list_users on_cluster status
pull_status bytes_text w = do
  active ← cluster_active
  elim active [
    | false ↦ pure tt
    | true ↦ do
      lock
      a ← get
      unlock
      elim a.users [
        | [] ↦ pure tt
        | u ∷ us ↦ do
          text ← list_users
          st ← on_cluster (status bytes_text w)
          modify (λ a. record a { active_user_list = text; name_to_status = st.0 })
      ]
  ]

-- `delete` for each user whose session began more than an hour ago.
unfoldable pub drop_old : ℕ → Map UserData → Map UserData
drop_old now [] = []
drop_old now ((id, u) ∷ us) =
    if ltb_ℤ (pos hour) (since now u.start_time) then drop_old now us else (id, u) ∷ drop_old now us

-- A round of "clean up users that started more than 1-hour ago"
unfoldable pub clean_up_users : ℕ → M App (Unit {0})
unfolding lock unlock drop_old
clean_up_users now = do lock; modify (λ a. record a { users = drop_old now a.users }); unlock

-- A round of "revive cluster in case somebody killed all"; the error is logged only.
unfoldable pub revive_cluster : Cluster.Outside → M App (Unit {0})
unfolding cluster_active lock unlock on_cluster revive
revive_cluster o = do
  active ← cluster_active
  elim active [ false ↦ pure tt | true ↦ do lock; on_cluster (revive o); unlock ]
