-- ===== src/Proc/Cluster/Survey.antt =====
-- Status (proc/proc_cluster.go): what it reports of the nodes.
use etcd_play.Base.{◌≡◌, refl, [], ◌∷◌, none, some, All, arith, subst, Option-cases, inl, inr, ℕ}
use etcd_play.Base.Text.{Text}
use etcd_play.Base.Text.Laws.{same_iff}
use etcd_play.Base.Map.{Map, lookup, insert, lookup-insert, lookup-insert_self}
use etcd_play.Proc.Cluster.Report.{Answers, ServerStatus, collect, fill, survey, empty_stat}

-- The entry that a node without an answer is given.
abbrev unreachable : Text → Text → ServerStatus
unreachable name ep = record empty_stat { name = name; endpoint = ep }

-- The loop leaves what is there...
fill-keeps :
    (eps : Map Text) (m : Map ServerStatus) (k : Text) (s : ServerStatus)
    → lookup k m ≡ some s
    → lookup k (fill eps m) ≡ some s
unfolding fill
fill-keeps [] m k s e = e
fill-keeps ((name, ep) ∷ eps) m k s e = elim (Option-cases (lookup name m)) [
  | inl missing ↦ rw missing (
      fill-keeps eps (insert name (unreachable name ep) m) k s
        (ground (arith, lookup-insert name k (unreachable name ep) m, same_iff name k, e, missing)))
  | inr (s', found) ↦ rw found (fill-keeps eps m k s e)
]

-- ...and adds the rest.
fill-covers :
    (eps : Map Text) (m n : Map ServerStatus)
    → fill eps m ≡ n
    → All (λ kv. (s : ServerStatus) × (lookup kv.0 n ≡ some s)) eps
unfolding fill
fill-covers [] m n e = tt
fill-covers ((name, ep) ∷ eps) m n e = elim (Option-cases (lookup name m)) [
  | inl missing ↦
      let m' : Map ServerStatus = insert name (unreachable name ep) m in
      let e' : fill eps m' ≡ n = rw missing at e in
      (
        (
          unreachable name ep,
          subst (λ l. lookup name l ≡ some (unreachable name ep)) e'
              (fill-keeps eps m' name _ (lookup-insert_self name (unreachable name ep) m)),
        ),
        fill-covers eps m' n e',
      )
  | inr (s', found) ↦
      let e' : fill eps m ≡ n = rw found at e in
      (
        (s', subst (λ l. lookup name l ≡ some s') e' (fill-keeps eps m name s' found)),
        fill-covers eps m n e',
      )
]

-- Status reports on every node that has an endpoint, whatever the nodes answer.
pub survey-covers :
    (bytes_text : ℕ → Text) (w : Answers) (eps : Map Text)
    → All (λ kv. (s : ServerStatus) × (lookup kv.0 (survey bytes_text w eps).0 ≡ some s)) eps
survey-covers bytes_text w eps = fill-covers eps (collect bytes_text w eps [] none).0 _ refl
