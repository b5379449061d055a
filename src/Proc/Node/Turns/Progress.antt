-- ===== src/Proc/Node/Turns/Progress.antt =====
-- The methods of proc/node_web_local.go never wait for each other for good: with valid flags the
-- mutex is free between two sections.
use etcd_play.Base.{ℕ, ◌-◌, ◌<◌, ◌≤◌, ◌≡◌, ◌⊎◌, Bool, true, false, length, arith}
use etcd_play.Base.Outcome.{Outcome, done, blocked, panicked, Returns, IfReturns, returned_as}
use etcd_play.Proc.Error.{ok}
use etcd_play.Proc.Flags.{is_valid}
use etcd_play.Proc.Node.Refines.{string-ok, existing-valid}
use etcd_play.Proc.Node.Local.{World, Outside, stream_cap, existing}
use etcd_play.Proc.Node.Turns.{
  Pc, start_checks, start_decides, start_renders, start_sends, start_execs, start_stores,
  restart_checks, restart_decides, restart_renders, restart_sends, restart_execs, restart_stores,
  terminate_checks, terminate_decides, terminate_sends, terminate_kills, terminate_stores,
  clean_checks, clean_decides, clean_sends, clean_removes, answered, turn, sections,
}
use etcd_play.Proc.Node.Turns.System.{System, pick, Reach, here, later}

-- The sections that a call has left at most.
abbrev pub left : Pc → ℕ
left start_checks = 6
left (start_decides a) = 5
left start_renders = 4
left (start_sends args) = 3
left (start_execs args) = 2
left (start_stores args pid) = 1
left restart_checks = 6
left (restart_decides l) = 5
left restart_renders = 4
left (restart_sends args) = 3
left (restart_execs args) = 2
left (restart_stores args pid) = 1
left terminate_checks = 6
left (terminate_decides l) = 5
left terminate_sends = 3
left terminate_kills = 2
left terminate_stores = 1
left clean_checks = 6
left (clean_decides a) = 5
left clean_sends = 3
left clean_removes = 1
left (answered r) = 0

left-le : (p : Pc) → left p ≤ sections
left-le start_checks = omega arith
left-le (start_decides a) = omega arith
left-le start_renders = omega arith
left-le (start_sends args) = omega arith
left-le (start_execs args) = omega arith
left-le (start_stores args pid) = omega arith
left-le restart_checks = omega arith
left-le (restart_decides l) = omega arith
left-le restart_renders = omega arith
left-le (restart_sends args) = omega arith
left-le (restart_execs args) = omega arith
left-le (restart_stores args pid) = omega arith
left-le terminate_checks = omega arith
left-le (terminate_decides l) = omega arith
left-le terminate_sends = omega arith
left-le terminate_kills = omega arith
left-le terminate_stores = omega arith
left-le clean_checks = omega arith
left-le (clean_decides a) = omega arith
left-le clean_sends = omega arith
left-le clean_removes = omega arith
left-le (answered r) = omega arith

abbrev pub sends : Pc → Bool
sends (start_sends args) = true
sends (restart_sends args) = true
sends terminate_sends = true
sends clean_sends = true
sends _ = false

-- Nobody is in a critical section, and the flags are valid.
pub record Free (w : World) : Type 0 where
  pub unlocked : w.shared.locked ≡ false
  pub valid : is_valid w.node.flags ≡ ok tt

abbrev pub Advances : Pc → Pc → World → Type 0
Advances p p' w' = Free w' × (left p' ≤ left p - 1)

-- A section returns or waits for room in the log channel.
abbrev Fares : Outcome World Pc → Pc → World → Type 0
Fares (done p' w') p w = Advances p p' w'
Fares (blocked w') p w = (sends p ≡ true) × (stream_cap ≤ length w.shared.stream)
Fares (panicked w') p w = ⊥

turn-Fares : (o : Outside) (p : Pc) (w : World) → Free w → Fares (turn o p w) p w
unfolding turn
turn-Fares o start_checks w f = ground arith
turn-Fares o (start_decides a) w f = ground arith
turn-Fares o start_renders w f = let (s, e) = string-ok w.node.flags f.valid in ground (arith, e)
turn-Fares o (start_sends args) w f = ground arith
turn-Fares o (start_execs args) w f = ground arith
turn-Fares o (start_stores args pid) w f = ground arith
turn-Fares o restart_checks w f = ground arith
turn-Fares o (restart_decides l) w f = ground arith
turn-Fares o restart_renders w f =
    let still = existing-valid w.node f.valid in
    let (s, e) = string-ok (existing w.node).flags still in ground (arith, e, still)
turn-Fares o (restart_sends args) w f = ground arith
turn-Fares o (restart_execs args) w f = ground arith
turn-Fares o (restart_stores args pid) w f = ground arith
turn-Fares o terminate_checks w f = ground arith
turn-Fares o (terminate_decides l) w f = ground arith
turn-Fares o terminate_sends w f = ground arith
turn-Fares o terminate_kills w f = ground arith
turn-Fares o terminate_stores w f = ground arith
turn-Fares o clean_checks w f = ground arith
turn-Fares o (clean_decides a) w f = ground arith
turn-Fares o clean_sends w f = ground arith
turn-Fares o clean_removes w f = ground arith
turn-Fares o (answered r) w f = ground arith

Fares-IfReturns :
    (r : Outcome World Pc) (p : Pc) (w : World) → Fares r p w → IfReturns r (Advances p)
Fares-IfReturns (done p' w') p w h = h
Fares-IfReturns (blocked w') p w h = tt
Fares-IfReturns (panicked w') p w h = tt

Fares-Returns :
    (r : Outcome World Pc) (p : Pc) (w : World)
    → Fares r p w
    → ((sends p ≡ false) ⊎ (length w.shared.stream < stream_cap))
    → Returns r (Advances p)
Fares-Returns (done p' w') p w h room = h
Fares-Returns (blocked w') p w h room = ground arith
Fares-Returns (panicked w') p w h room = h

Reach-Free : {s t : System} → Free s.world → Reach s t → Free t.world
Reach-Free f here = f
Reach-Free f (later {t} r (pick i o p w e)) =
    (returned_as (Advances (t.pc i))
      (Fares-IfReturns (turn o (t.pc i) t.world) (t.pc i) t.world
        (turn-Fares o (t.pc i) t.world (Reach-Free f r)))
      e).0

-- In every state that goroutines which call Start, Restart, Terminate and Clean of one node reach, in
-- any order of their critical sections, from a free mutex and valid flags, the next section of each of
-- them returns unless it sends to a full log channel; the mutex is free again, the flags are valid,
-- and the call has fewer sections to go, of six at most, unless it had none left.
pub sections-Advance :
    {s t : System}
    → Free s.world
    → Reach s t
    → (i : ℕ) (o : Outside)
    → ((sends (t.pc i) ≡ false) ⊎ (length t.world.shared.stream < stream_cap))
    → Returns (turn o (t.pc i) t.world) (Advances (t.pc i)) × (left (t.pc i) ≤ sections)
sections-Advance {t} f r i o room = (
  Fares-Returns (turn o (t.pc i) t.world) (t.pc i) t.world
      (turn-Fares o (t.pc i) t.world (Reach-Free f r)) room,
  left-le (t.pc i),
)
