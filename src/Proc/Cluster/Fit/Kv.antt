-- ===== src/Proc/Cluster/Fit/Kv.antt =====
-- Put, Get, Delete and Stress (proc/proc_cluster.go) keep a cluster fit.
use etcd_play.Base.{ℕ, zero, suc, Bool, List, [], ◌∷◌, none, some, if◌then◌else◌}
use etcd_play.Base.Text.{Text}
use etcd_play.Base.Time.{ℤ, pos, negsuc}
use etcd_play.Base.Map.{lookup}
use etcd_play.Base.Outcome.{panicked, M, ◌>>◌, ◌>>=◌, pure}
use etcd_play.Base.Outcome.Preserves.{
  Preserves, Preserves-pure, Preserves-bind, Preserves-if, Preserves-Option,
}
use etcd_play.Proc.Error.{Error, Result, ok, err, stress_timed_out}
use etcd_play.Proc.Message.{stress_done}
use etcd_play.Proc.Cluster.{Cluster, write}
use etcd_play.Proc.Cluster.Kv
use etcd_play.Proc.Cluster.Kv.{
  pick, key_range, connect, put_at, put, write_found, get_at, get_key, delete_at, delete_key,
  write_values, stress_endpoints, stress_all, stress_run, stress, StressRun, Stressed, ended,
  endless,
}
use etcd_play.Proc.Cluster.Fit.{IsFit}
use etcd_play.Proc.Cluster.Fit.Requests.{write-Preserves, endpoints-Preserves}

Preserves-Result :
    {A B : Type 0} (r : Result B) {m : Error → M Cluster A} {f : B → M Cluster A}
    → ((e : Error) → Preserves IsFit (m e))
    → ((b : B) → Preserves IsFit (f b))
    → Preserves IsFit (elim r [ err e ↦ m e | ok b ↦ f b ])
Preserves-Result (err e) km kf = km e
Preserves-Result (ok b) km kf = kf b

connect-Preserves : (w : Kv.Answers) (name : Text) → Preserves IsFit (connect w name)
unfolding connect
connect-Preserves w name = Preserves-bind (endpoints-Preserves w.host) (λ r.
    Preserves-Option (lookup (pick w.starts_at name r.name_to_endpoint) r.name_to_endpoint)
      (Preserves-pure _)
      (λ ep. Preserves-Option (w.client_new (ep ∷ [])) (Preserves-pure _) (λ e. Preserves-pure _)))

put_at-Preserves :
    (w : Kv.Answers) (key value : Text) (ids : List Text) (target : Text × Text)
    → Preserves IsFit (put_at w key value ids target)
unfolding put_at
put_at-Preserves w key value ids (name, ep) = Preserves-bind (write-Preserves name _ ids) (λ e.
    Preserves-Option (w.put ep key value)
      (Preserves-bind (write-Preserves name _ ids) (λ e'. Preserves-pure _))
      (λ x. Preserves-pure _))

write_values-Preserves :
    (name : Text) (kvs : List (Text × Text)) (ids : List Text)
    → Preserves IsFit (write_values name kvs ids)
unfolding write_values
write_values-Preserves name [] ids = Preserves-pure tt
write_values-Preserves name ((k, v) ∷ kvs) ids =
    Preserves-bind (write-Preserves name _ ids) (λ e. write_values-Preserves name kvs ids)

write_found-Preserves :
    (name key : Text) (kvs : List (Text × Text)) (ids : List Text)
    → Preserves IsFit (write_found name key kvs ids)
unfolding write_found
write_found-Preserves name key [] ids =
    Preserves-bind (write-Preserves name _ ids) (λ e. Preserves-pure tt)
write_found-Preserves name key (kv ∷ kvs) ids = write_values-Preserves name (kv ∷ kvs) ids

get_at-Preserves :
    (w : Kv.Answers) (kr : Text × Kv.Range) (ids : List Text) (target : Text × Text)
    → Preserves IsFit (get_at w kr ids target)
unfolding get_at
get_at-Preserves w (key, range) ids (name, ep) = Preserves-bind (write-Preserves name _ ids) (λ e.
    Preserves-Result (w.get ep key range) (λ x. Preserves-pure _)
      (λ kvs.
        Preserves-bind (write_found-Preserves name key kvs ids)
          (λ a. Preserves-bind (write-Preserves name _ ids) (λ e'. Preserves-pure _))))

delete_at-Preserves :
    (w : Kv.Answers) (kr : Text × Kv.Range) (ids : List Text) (target : Text × Text)
    → Preserves IsFit (delete_at w kr ids target)
unfolding delete_at
delete_at-Preserves w (key, range) ids (name, ep) =
    Preserves-bind (write-Preserves name _ ids) (λ e.
      Preserves-Result (w.delete ep key range) (λ x. Preserves-pure _)
        (λ n. Preserves-bind (write-Preserves name _ ids) (λ e'. Preserves-pure _)))

pub put-Preserves :
    (w : Kv.Answers) (name key value : Text) (ids : List Text)
    → Preserves IsFit (put w name key value ids)
unfolding put
put-Preserves w name key value ids =
    Preserves-bind (connect-Preserves w name)
      (λ r. Preserves-Result r (λ e. Preserves-pure _) (put_at-Preserves w key value ids))

pub get_key-Preserves :
    (w : Kv.Answers) (name key : Text) (prefix : Bool) (ids : List Text)
    → Preserves IsFit (get_key w name key prefix ids)
unfolding get_key
get_key-Preserves w name key prefix ids = Preserves-bind (connect-Preserves w name) (λ r.
    Preserves-Result r (λ e. Preserves-pure _) (get_at-Preserves w (key_range key prefix) ids))

pub delete_key-Preserves :
    (w : Kv.Answers) (name key : Text) (prefix : Bool) (ids : List Text)
    → Preserves IsFit (delete_key w name key prefix ids)
unfolding delete_key
delete_key-Preserves w name key prefix ids = Preserves-bind (connect-Preserves w name) (λ r.
    Preserves-Result r (λ e. Preserves-pure _) (delete_at-Preserves w (key_range key prefix) ids))

stress_all-Preserves :
    (w : StressRun) (name : Text) (eps ids : List Text) (schedule : List ℕ)
    → Preserves IsFit (stress_all w name eps ids schedule)
unfolding stress_all
stress_all-Preserves w name eps ids [] = Preserves-pure none
stress_all-Preserves w name eps ids (i ∷ is) =
    Preserves-Option _
      (Preserves-bind (write-Preserves name _ ids) (λ e. stress_all-Preserves w name eps ids is))
      (λ e. Preserves-pure (some e))

-- The end of stress: the time for each write, and the last message.
stress_end-Preserves :
    (w : StressRun) (name : Text) (eps ids : List Text) (n : ℕ)
    → Preserves {A = Stressed} IsFit (elim n [
      | zero ↦ panicked
      | suc k ↦ do write name (stress_done w.total (suc k) 10 eps) ids; pure (ended none)
    ])
stress_end-Preserves w name eps ids zero = record { kept = λ c f. f }
stress_end-Preserves w name eps ids (suc k) =
    Preserves-bind (write-Preserves name _ ids) (λ e. Preserves-pure (ended none))

-- stress, once a client is made.
stressed-Preserves :
    (w : StressRun) (name : Text) (eps ids : List Text) (n : ℤ)
    → Preserves {A = Stressed} IsFit (elim n [
      | negsuc m ↦ pure endless
      | pos k ↦ do
        failed ← stress_all w name eps ids w.schedule
        elim failed [
          | some e ↦ pure (ended (some e))
          | none ↦ elim k [
            | zero ↦ panicked
            | suc n ↦ do write name (stress_done w.total (suc n) 10 eps) ids; pure (ended none)
          ]
        ]
    ])
stressed-Preserves w name eps ids (negsuc m) = Preserves-pure endless
stressed-Preserves w name eps ids (pos k) =
    Preserves-bind (stress_all-Preserves w name eps ids w.schedule) (λ failed.
      Preserves-Option failed (stress_end-Preserves w name eps ids k)
        (λ e. Preserves-pure (ended (some e))))

stress_run-Preserves :
    (w : StressRun) (name : Text) (n : ℤ) (ids : List Text)
    → Preserves IsFit (stress_run w name n ids)
unfolding stress_run
stress_run-Preserves w name n ids = Preserves-bind (endpoints-Preserves w.host) (λ r.
    let chosen : Text = pick w.starts_at name r.name_to_endpoint in
    let eps : List Text = stress_endpoints chosen r in
    Preserves-Option (w.client_new eps) (stressed-Preserves w chosen eps ids n)
      (λ e. Preserves-pure (ended (some e))))

-- What Stress answers when its goroutine has come to its end, or never does.
answered-Preserves :
    (w : StressRun) (r : Stressed)
    → Preserves {A = Result ℤ} IsFit (elim r [
      | endless ↦ pure (err stress_timed_out)
      | ended failed ↦
          if w.out_of_time
          then pure (err stress_timed_out)
          else elim failed [ some e ↦ pure (err e) | none ↦ pure (ok w.took) ]
    ])
answered-Preserves w endless = Preserves-pure _
answered-Preserves w (ended failed) =
    Preserves-if w.out_of_time (Preserves-pure _)
      (Preserves-Option failed (Preserves-pure _) (λ e. Preserves-pure _))

pub stress-Preserves :
    (w : StressRun) (name : Text) (n : ℤ) (ids : List Text) → Preserves IsFit (stress w name n ids)
unfolding stress
stress-Preserves w name n ids =
    Preserves-bind (stress_run-Preserves w name n ids) (λ r. answered-Preserves w r)
