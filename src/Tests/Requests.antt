-- ===== src/Tests/Requests.antt =====
-- Key-value requests to one node, and the start and the end of all nodes.
use etcd_play.Base.{
  ℕ, ◌+◌, ◌≤◌, ◌≡◌, ◌≢◌, refl, true, false, length, [], ◌∷◌, none, some, arith, All,
}
use etcd_play.Base.Text.{codes, same}
use etcd_play.Base.Map.{lookup, insert, lookup-insert_self}
use etcd_play.Base.Outcome.{Returns, blocked, done}
use etcd_play.Proc.Error.{ok, err, does_not_exist}
use etcd_play.Proc.Flags.{string}
use etcd_play.Proc.Node.{address}
use etcd_play.Proc.Node.Local.{stream_cap}
use etcd_play.Proc.Node.Refines.{launch}
use etcd_play.Proc.Cluster.{Cluster, local}
use etcd_play.Proc.Cluster.Unnamed.{GoesToNode, requests-Unnamed}
use etcd_play.Proc.Cluster.Control.{bootstrap, shutdown}
use etcd_play.Proc.Cluster.Kv.{Answers, put, get_key, delete_key}
use etcd_play.Proc.Cluster.Named.{target}
use etcd_play.Proc.Cluster.Reached.{waiting}
use etcd_play.Proc.Cluster.Found.{Got, get-Answered, requests-Refused}
use etcd_play.Proc.Cluster.Rounds.{HasIn, IsUp}
use etcd_play.Proc.Cluster.Boot.{bootstrap-runs}
use etcd_play.Proc.Cluster.Halt.{Stoppable, IsDown, shutdown-stops}
use etcd_play.Base.Time.{since}
use etcd_play.Base.{inr}
use etcd_play.Backend.Start.{start_cluster}
use etcd_play.Backend.Start.Booted.{Boots, start_cluster-Boots}
use etcd_play.Tests.{
  after_slashes, answers, flags_etcd1, local_outside, outside_at, one_node, local_node, no_agent,
  app_of,
}
use etcd_play.Tests.Clusters.{idle, one_node-IsFit, all_parse, no_name, etcd1-valid, idle-Holds}

-- The server has two keys.
abbrev two_keys : Answers
two_keys = record answers {
  get = λ ep k range. ok ((codes "a", codes "2") ∷ (codes "b", codes "1") ∷ []);
}

quiet : length (waiting (codes "me") one_node) + 4 ≤ stream_cap
unfolding lookup
quiet = omega arith

get-Answered_example :
    Returns (get_key two_keys (codes "etcd1") (codes "") false (codes "me" ∷ []) one_node) (
      Got two_keys
        (codes "me")
        (address after_slashes flags_etcd1)
        (0 ∷ [])
        (ok ((codes "a", codes "2") ∷ (codes "b", codes "1") ∷ []))
        one_node)
get-Answered_example =
    get-Answered two_keys (codes "etcd1") (codes "me") (local (local_node true)) one_node (codes "")
      false one_node-IsFit all_parse no_name
      (lookup-insert_self (codes "etcd1") (local (local_node true)) []) refl quiet

no_second_name : codes "etcd2" ≢ []
no_second_name e = ground (arith, e)

missing :
    target answers (codes "etcd2") (lookup (codes "etcd2") one_node.name_to_node)
    ≡ err (does_not_exist (codes "etcd2"))
unfolding lookup insert same
missing = refl

requests-Refused_example :
    let gone = does_not_exist (codes "etcd2") in
    (put answers (codes "etcd2") (codes "k") (codes "v") [] one_node ≡ done (err gone) one_node)
    × (get_key answers (codes "etcd2") (codes "k") true [] one_node ≡ done (err gone) one_node)
    × (delete_key answers (codes "etcd2") (codes "k") true [] one_node ≡ done (err gone) one_node)
requests-Refused_example =
    requests-Refused answers (codes "etcd2") one_node (codes "k") (codes "v") true []
      (does_not_exist (codes "etcd2")) one_node-IsFit all_parse no_second_name missing

starts : launch (local_outside 30) (local_node false) ≡ none
unfolding string
starts = refl

some_node : idle.name_to_node ≢ []
some_node e = ground (arith, e)

bootstrap-runs_example :
    (c' : Cluster) × All (HasIn IsUp c') (codes "etcd1" ∷ [])
    × (bootstrap (outside_at 30) (outside_at 40) false idle ≡ blocked c')
    × (bootstrap (outside_at 30) (outside_at 40) true idle ≡ shutdown (outside_at 40) c')
bootstrap-runs_example =
    bootstrap-runs (outside_at 30) (outside_at 40) idle some_node refl (tt, tt) (omega arith)
      ((local (local_node false), idle-Holds, (refl, etcd1-valid, starts)), tt)

start_cluster-Boots_example :
    Returns
      (start_cluster no_agent (codes "token") (app_of []))
      (λ e b. (e ≡ none) × ((c : Cluster) × (b.cluster ≡ some c) × Boots (outside_at 30) 5 c))
start_cluster-Boots_example =
    start_cluster-Boots no_agent (codes "token") (outside_at 30) (app_of []) 4 refl refl refl refl
      (omega arith) (omega arith) (λ name args. refl)

stoppable : HasIn (Stoppable (outside_at 30)) one_node (codes "etcd1")
unfolding since
stoppable = (
  local (local_node true),
  lookup-insert_self (codes "etcd1") (local (local_node true)) [],
  inr ((refl, refl), refl),
)

shutdown-stops_example :
    Returns
      (shutdown (outside_at 30) one_node)
      (λ e c'. (e ≡ none) × All (HasIn IsDown c') (codes "etcd1" ∷ []))
unfolding insert
shutdown-stops_example =
    shutdown-stops (outside_at 30) one_node refl (tt, tt) (omega arith) (stoppable, tt)

requests-Unnamed_example :
    GoesToNode one_node (λ n. put answers n (codes "k") (codes "v") [])
    × GoesToNode one_node (λ n. get_key answers n (codes "k") true [])
    × GoesToNode one_node (λ n. delete_key answers n (codes "k") true [])
    × ((i : ℕ) × (let w' = record answers { starts_at = i } in
          let name = codes "etcd1" in
          (put w' [] (codes "k") (codes "v") [] one_node
            ≡ put w' name (codes "k") (codes "v") [] one_node)
          × (get_key w' [] (codes "k") true [] one_node
              ≡ get_key w' name (codes "k") true [] one_node)
          × (delete_key w' [] (codes "k") true [] one_node
              ≡ delete_key w' name (codes "k") true [] one_node)))
requests-Unnamed_example =
    requests-Unnamed answers one_node (codes "etcd1") (local (local_node true)) (codes "k")
      (codes "v") true [] one_node-IsFit all_parse
      (lookup-insert_self (codes "etcd1") (local (local_node true)) [])
