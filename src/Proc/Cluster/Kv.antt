-- ===== src/Proc/Cluster/Kv.antt =====
-- proc/proc_cluster.go: Put, Get, Delete and Stress. The etcd client answers through `Answers`, with
-- the clock and the place where Go's random order over a map starts in that call.
use etcd_play.Base.{
  ℕ, zero, suc, Bool, true, false, List, [], ◌∷◌, ◌++◌, Option, none, some, map, get_elem?,
  if◌then◌else◌,
}
use etcd_play.Base.Text.{Text, codes}
use etcd_play.Base.Time.{ℤ, pos, negsuc}
use etcd_play.Base.Decimal.{decimal}
use etcd_play.Base.Sort.{sort}
use etcd_play.Base.Map.{Map, lookup}
use etcd_play.Base.Outcome.{panicked, M, ◌>>=◌, ◌>>◌, pure}
use etcd_play.Proc.Error.{Error, Result, ok, err, does_not_exist, stress_timed_out}
use etcd_play.Proc.Message.{
  put_started, put_done, get_started, get_value, get_missing, get_done, delete_started, delete_done,
  stress_put, stress_done,
}
use etcd_play.Proc.Node.{UrlHost}
use etcd_play.Proc.Cluster.{Cluster, write}
use etcd_play.Proc.Cluster.Report.{Endpoints, endpoints}

-- clientv3.WithFromKey(), clientv3.WithPrefix(), or no option
pub data Range : Type 0 where
  exact from_key with_prefix : Range

pub record Answers : Type 0 where
  pub host : UrlHost
  pub starts_at : ℕ
  pub client_new : List Text → Option Error
  pub put : Text → Text → Text → Option Error
  pub get : Text → Text → Range → Result (List (Text × Text))
  pub delete : Text → Text → Range → Result ℕ
  pub took : ℤ

-- The name at an index, and the last one past the end: each index is a node, and each node has one.
abbrev pub name_at : Text → Map Text → ℕ → Text
name_at n [] i = n
name_at n ((n', ep) ∷ m) zero = n
name_at n ((n', ep) ∷ m) (suc i) = name_at n' m i

-- `for n := range nameToEndpoint { name = n; break }` if there is no name: the range of this call starts
-- at the index `i`.
abbrev pub pick : ℕ → Text → Map Text → Text
pick i [] [] = []
pick i [] ((n, ep) ∷ m) = name_at n m i
pick i (x ∷ xs) m = x ∷ xs

-- The key that is asked for, and the option: the empty key stands for all keys.
abbrev pub key_range : Text → Bool → Text × Range
key_range [] prefix = (0 ∷ [], from_key)
key_range (x ∷ xs) true = (x ∷ xs, with_prefix)
key_range (x ∷ xs) false = (x ∷ xs, exact)

-- The node and its endpoint, and a client for it, which Put, Get and Delete begin with.
unfoldable pub connect : Answers → Text → M Cluster (Result (Text × Text))
connect w name = do
  r ← endpoints w.host
  let chosen = pick w.starts_at name r.name_to_endpoint
  elim (lookup chosen r.name_to_endpoint) [
    | none ↦ pure (err (does_not_exist chosen))
    | some ep ↦ elim (w.client_new (ep ∷ [])) [
      | some e ↦ pure (err e)
      | none ↦ pure (ok (chosen, ep))
    ]
  ]

unfoldable pub put_at : Answers → Text → Text → List Text → Text × Text → M Cluster (Result ℤ)
put_at w key value stream_ids (name, ep) = do
  write name (put_started (ep ∷ [])) stream_ids
  elim (w.put ep key value) [
    | some e ↦ pure (err e)
    | none ↦ do write name (put_done key value w.took (ep ∷ [])) stream_ids; pure (ok w.took)
  ]

-- Put
unfoldable pub put : Answers → Text → Text → Text → List Text → M Cluster (Result ℤ)
unfolding put_at
put w name key value stream_ids = do
  r ← connect w name
  elim r [ err e ↦ pure (err e) | ok target ↦ put_at w key value stream_ids target ]

unfoldable pub write_values : Text → List (Text × Text) → List Text → M Cluster (Unit {0})
write_values name [] stream_ids = pure tt
write_values name ((k, v) ∷ kvs) stream_ids = do
  write name (get_value k v) stream_ids
  write_values name kvs stream_ids

-- The log lines of the values, or the one that says that there is none.
unfoldable pub write_found : Text → Text → List (Text × Text) → List Text → M Cluster (Unit {0})
write_found name key [] stream_ids = do write name (get_missing key) stream_ids; pure tt
write_found name key (kv ∷ kvs) stream_ids = write_values name (kv ∷ kvs) stream_ids

unfoldable pub get_at :
    Answers → Text × Range → List Text → Text × Text → M Cluster (Result (List Text × ℤ))
get_at w (key, range) stream_ids (name, ep) = do
  write name (get_started (ep ∷ [])) stream_ids
  elim (w.get ep key range) [
    | err e ↦ pure (err e)
    | ok kvs ↦ do
      write_found name key kvs stream_ids
      write name (get_done w.took (ep ∷ [])) stream_ids
      pure (ok (sort (map (λ kv. kv.1) kvs), w.took))
  ]

-- Get
unfoldable pub get_key :
    Answers → Text → Text → Bool → List Text → M Cluster (Result (List Text × ℤ))
unfolding get_at write_found
get_key w name key prefix stream_ids = do
  r ← connect w name
  elim r [ err e ↦ pure (err e) | ok target ↦ get_at w (key_range key prefix) stream_ids target ]

unfoldable pub delete_at :
    Answers → Text × Range → List Text → Text × Text → M Cluster (Result (ℕ × ℤ))
delete_at w (key, range) stream_ids (name, ep) = do
  write name (delete_started (ep ∷ [])) stream_ids
  elim (w.delete ep key range) [
    | err e ↦ pure (err e)
    | ok n ↦ do write name (delete_done n w.took (ep ∷ [])) stream_ids; pure (ok (n, w.took))
  ]

-- Delete
unfoldable pub delete_key : Answers → Text → Text → Bool → List Text → M Cluster (Result (ℕ × ℤ))
unfolding delete_at
delete_key w name key prefix stream_ids = do
  r ← connect w name
  elim r [ err e ↦ pure (err e) | ok target ↦ delete_at w (key_range key prefix) stream_ids target ]

-- What the stress writers use: the random keys and values, the order in which the goroutines run,
-- the answer to each write through a client of these endpoints, and whether the five seconds of
-- Stress pass first.
pub record StressRun : Type 0 where
  pub host : UrlHost
  pub starts_at : ℕ
  pub client_new : List Text → Option Error
  pub put : List Text → Text → Text → Option Error
  pub keys : List Text
  pub vals : List Text
  pub schedule : List ℕ
  pub total : ℤ
  pub took : ℤ
  pub out_of_time : Bool

abbrev pub nth : List Text → ℕ → Text
nth xs i = elim (get_elem? xs i) [ none ↦ [] | some x ↦ x ]

-- fmt.Sprintf("foo_%d_%s", i, keys[i])
abbrev pub stress_key : StressRun → ℕ → Text
stress_key w i = codes "foo_" ++ (decimal i ++ (codes "_" ++ nth w.keys i))

-- The goroutines in their order; the first error ends the wait.
unfoldable pub stress_all :
    StressRun → Text → List Text → List Text → List ℕ → M Cluster (Option Error)
stress_all w name eps stream_ids [] = pure none
stress_all w name eps stream_ids (i ∷ is) = elim (w.put eps (stress_key w i) (nth w.vals i)) [
  | some e ↦ pure (some e)
  | none ↦ do
    write name (stress_put i (stress_key w i) (nth w.vals i)) stream_ids
    stress_all w name eps stream_ids is
]

-- The endpoints of stress: the named node's, or those of all active nodes for an unknown name.
abbrev pub stress_endpoints : Text → Endpoints → List Text
stress_endpoints name r = elim (lookup name r.name_to_endpoint) [
  | some ep ↦ ep ∷ []
  | none ↦ r.active
]

-- How the goroutine of stress ends, if it does.
pub data Stressed : Type 0 where
  ended : Option Error → Stressed
  endless : Stressed

-- stress: for a negative number of keys multiRandBytes never has enough of them, and the time for each
-- write, which divides by that number, panics for none.
unfoldable pub stress_run : StressRun → Text → ℤ → List Text → M Cluster Stressed
unfolding stress_all
stress_run w name stress_n stream_ids = do
  r ← endpoints w.host
  let chosen = pick w.starts_at name r.name_to_endpoint
  let eps = stress_endpoints chosen r
  elim (w.client_new eps) [
    | some e ↦ pure (ended (some e))
    | none ↦ elim stress_n [
      | negsuc m ↦ pure endless
      | pos k ↦ do
        failed ← stress_all w chosen eps stream_ids w.schedule
        elim failed [
          | some e ↦ pure (ended (some e))
          | none ↦ elim k [
            | zero ↦ panicked
            | suc n ↦ do
              write chosen (stress_done w.total (suc n) 10 eps) stream_ids
              pure (ended none)
          ]
        ]
    ]
  ]

-- Stress
unfoldable pub stress : StressRun → Text → ℤ → List Text → M Cluster (Result ℤ)
unfolding stress_run
stress w name stress_n stream_ids = do
  stressed ← stress_run w name stress_n stream_ids
  elim stressed [
    | endless ↦ pure (err stress_timed_out)
    | ended failed ↦
        if w.out_of_time
        then pure (err stress_timed_out)
        else elim failed [ some e ↦ pure (err e) | none ↦ pure (ok w.took) ]
  ]
