-- ===== src/Proc/Node/Turns/System.antt =====
-- Goroutines that call methods of one local node (proc/node_web_local.go) and take turns, section by
-- section.
use etcd_play.Base.{ℕ, ◌≡◌, false, List, [], ◌∷◌, ◌++◌, some}
use etcd_play.Base.Family.{update}
use etcd_play.Base.Outcome.{Outcome, done}
use etcd_play.Proc.Error.{external}
use etcd_play.Proc.Node.Local.{World, Outside}
use etcd_play.Proc.Node.Turns.{
  Pc, start_checks, start_execs, start_stores, restart_checks, restart_execs, restart_stores,
  terminate_checks, terminate_decides, terminate_sends, terminate_kills, terminate_stores,
  clean_checks, answered, turn,
}

-- The goroutines that call methods of one node, and what has happened outside: the processes that
-- were started and the processes that kill was
-- called for.
pub record System : Type 0 where
  pub world : World
  pub pc : ℕ → Pc
  pub spawned : List ℕ
  pub signalled : List ℕ

-- exec's Start has returned this process.
abbrev pub spawns : Pc → Pc → List ℕ
spawns (start_execs _) (start_stores _ pid) = pid ∷ []
spawns (restart_execs _) (restart_stores _ pid) = pid ∷ []
spawns _ _ = []

-- A kill that refuses every process, with an error that holds the argument of the call.
abbrev refusing : Outside → Outside
refusing o = record o { kill = λ pid. some (external (pid ∷ [])) }

-- The argument of the call of kill that was refused, if there was one.
abbrev refused : Outcome World Pc → List ℕ
refused (done (answered (some (external pids))) w) = pids
refused r = []

-- The processes that a section of Terminate asks kill to signal: the arguments that its code passes.
abbrev pub signals : Outside → Pc → World → List ℕ
signals o terminate_checks w = refused (turn (refusing o) terminate_checks w)
signals o (terminate_decides seen) w = refused (turn (refusing o) (terminate_decides seen) w)
signals o terminate_sends w = refused (turn (refusing o) terminate_sends w)
signals o terminate_kills w = refused (turn (refusing o) terminate_kills w)
signals o terminate_stores w = refused (turn (refusing o) terminate_stores w)
signals o _ w = []

-- Any goroutine takes its next section when that section can run; the outside answers anew.
pub data Step (s : System) : System → Type 0 where
  pick :
      (i : ℕ) (o : Outside) (p : Pc) (w : World)
      → turn o (s.pc i) s.world ≡ done p w
      → Step s (record {
        world = w;
        pc = update s.pc i p;
        spawned = spawns (s.pc i) p ++ s.spawned;
        signalled = signals o (s.pc i) s.world ++ s.signalled;
      })

pub data Entry : Pc → Type 0 where
  starting : Entry start_checks
  restarting : Entry restart_checks
  terminating : Entry terminate_checks
  cleaning : Entry clean_checks

-- Each goroutine begins at the head of a method, of a node that has not been started.
pub record Begins (s : System) : Type 0 where
  pub idle : s.world.node.active ≡ false
  pub entry : (i : ℕ) → Entry (s.pc i)
  pub none_spawned : s.spawned ≡ []
  pub none_signalled : s.signalled ≡ []

pub data Reach (s : System) : System → Type 0 where
  here : Reach s s
  later : {t u : System} → Reach s t → Step t u → Reach s u
