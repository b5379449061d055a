-- ===== src/Proc/Node/Turns/Signals.antt =====
-- Whatever the order of the sections in proc/node_web_local.go, Terminate signals processes of its
-- own node only.
use etcd_play.Base.{ℕ, ◌≡◌, true, List, ◌++◌, All, Elem}
use etcd_play.Proc.Node.Local.{World, Outside}
use etcd_play.Proc.Node.Turns.{
  Pc, start_stores, restart_stores, terminate_decides, terminate_sends, terminate_kills,
}
use etcd_play.Proc.Node.Turns.System.{System, spawns, signals}

-- What a goroutine's place says of the processes.
abbrev Knows : Pc → ℕ → List ℕ → Type 0
Knows (start_stores _ pid) _ spawned = Elem pid spawned
Knows (restart_stores _ pid) _ spawned = Elem pid spawned
Knows (terminate_decides seen) pid spawned = seen.active ≡ true → Elem pid spawned
Knows terminate_sends pid spawned = Elem pid spawned
Knows terminate_kills pid spawned = Elem pid spawned
Knows _ _ _ = Unit

-- `w'` is what a section leaves of `w`, with what the section has started.
abbrev Known : Outside → World → List ℕ → Pc → Pc → World → Type 0
Known o w spawned p p' w' =
    All (λ q. Elem q spawned) (signals o p w)
    × (w'.node.active ≡ true → Elem w'.node.pid (spawns p p' ++ spawned))
    × Knows p' w'.node.pid (spawns p p' ++ spawned)
    × (Elem w.node.pid spawned → Elem w'.node.pid (spawns p p' ++ spawned))

-- What holds in every reachable state.
record Accounted (s : System) : Type 0 where
  recorded : s.world.node.active ≡ true → Elem s.world.node.pid s.spawned
  places : (i : ℕ) → Knows (s.pc i) s.world.node.pid s.spawned
  sent : All (λ q. Elem q s.spawned) s.signalled
