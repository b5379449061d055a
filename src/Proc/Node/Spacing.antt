-- ===== src/Proc/Node/Spacing.antt =====
-- The rate limit of restarting and terminating over a whole history of calls on a node.
use etcd_play.Base.{
  ℕ, ◌+◌, ◌≤◌, ◌≡◌, refl, ◌++◌, ◌⊎◌, inl, inr, false, List, [], ◌∷◌, Option, none, some, arith,
}
use etcd_play.Base.Time.{pos, max_duration, le_of_since}
use etcd_play.Base.Outcome.{Outcome, done, blocked, panicked, Returns}
use etcd_play.Proc.Error.{Error}
use etcd_play.Proc.Node.Remote.{NodeWebRemoteClient, Outside}
use etcd_play.Proc.Node.Remote

pub data Method : Type 0 where
  starting restarting terminating cleaning : Method

abbrev pub Call : Type 0
Call = Method × Outside

pub call : Call → NodeWebRemoteClient → Outcome NodeWebRemoteClient (Option Error)
unfolding Remote.start Remote.restart Remote.terminate Remote.clean
call (starting, o) nd = Remote.start o nd
call (restarting, o) nd = Remote.restart o nd
call (terminating, o) nd = Remote.terminate o nd
call (cleaning, o) nd = Remote.clean o nd

-- The moment of a restart or a termination that took place.
abbrev moment : Call → Option Error → List ℕ → List ℕ
moment (restarting, o) none ts = o.now.third ∷ ts
moment (terminating, o) none ts = o.now.third ∷ ts
moment _ _ ts = ts

-- The moments at which the process was restarted or terminated, oldest first; a call that waits
-- or panics ends the history.
pub moments : NodeWebRemoteClient → List Call → List ℕ
moments nd [] = []
moments nd (c ∷ cs) = elim (call c nd) [
  | done e nd' ↦ moment c e (moments nd' cs)
  | blocked nd' ↦ []
  | panicked nd' ↦ []
]

-- The clock does not go back.
abbrev pub Clocked : ℕ → List Call → Type 0
Clocked t [] = Unit
Clocked t ((m, o) ∷ cs) =
    (t ≤ o.now.first)
    × (o.now.first ≤ o.now.second)
    × (o.now.second ≤ o.now.third)
    × Clocked o.now.third cs

abbrev pub Spaced : ℕ → ℕ → List ℕ → Type 0
Spaced limit last [] = Unit
Spaced limit last (t ∷ ts) = (last + limit ≤ t) × Spaced limit t ts

-- `last` is not after the node's latest restart or termination.
abbrev Since : ℕ → NodeWebRemoteClient → Type 0
Since last nd = (last ≤ nd.last_terminated) ⊎ (last ≤ nd.last_restarted)

-- What one call does to the moments.
abbrev StepSpaced : ℕ → ℕ → Call → Option Error → NodeWebRemoteClient → Type 0
StepSpaced limit last c e nd =
    (nd.limit_interval ≡ pos limit)
    × (((moment c e [] ≡ []) × Since last nd)
        ⊎ ((moment c e [] ≡ c.1.now.third ∷ [])
            × (last + limit ≤ c.1.now.third)
            × Since c.1.now.third nd))

call-Spaced :
    (limit last : ℕ) (c : Call) (nd : NodeWebRemoteClient)
    → limit ≤ max_duration
    → nd.locked ≡ false
    → nd.limit_interval ≡ pos limit
    → c.1.now.first ≤ c.1.now.second
    → c.1.now.second ≤ c.1.now.third
    → Since last nd
    → Returns (call c nd) (λ e nd'. (nd'.locked ≡ false) × StepSpaced limit last c e nd')
unfolding call
call-Spaced limit last (starting, o) nd fits free lim c1 c2 s = ground arith
call-Spaced limit last (restarting, o) nd fits free lim c1 c2 s = ground (
  arith,
  le_of_since o.now.first nd.last_restarted limit fits,
  le_of_since o.now.second nd.last_terminated limit fits,
)
call-Spaced limit last (terminating, o) nd fits free lim c1 c2 s = ground (
  arith,
  le_of_since o.now.first nd.last_terminated limit fits,
  le_of_since o.now.second nd.last_restarted limit fits,
)
call-Spaced limit last (cleaning, o) nd fits free lim c1 c2 s = ground arith

moment-append : (c : Call) (e : Option Error) (ts : List ℕ) → moment c e ts ≡ moment c e [] ++ ts
moment-append (starting, o) e ts = refl
moment-append (restarting, o) none ts = refl
moment-append (restarting, o) (some x) ts = refl
moment-append (terminating, o) none ts = refl
moment-append (terminating, o) (some x) ts = refl
moment-append (cleaning, o) e ts = refl

abbrev rest_of : Call → List Call → Outcome NodeWebRemoteClient (Option Error) → List ℕ
rest_of c cs r = elim r [
  | done e nd' ↦ moment c e (moments nd' cs)
  | blocked nd' ↦ []
  | panicked nd' ↦ []
]

rest_of-Spaced :
    (limit last : ℕ) (c : Call) (cs : List Call) (r : Outcome NodeWebRemoteClient (Option Error))
    → ((nd : NodeWebRemoteClient) (t : ℕ)
        → nd.locked ≡ false
        → nd.limit_interval ≡ pos limit
        → Since t nd
        → Spaced limit t (moments nd cs))
    → Returns r (λ e nd'. (nd'.locked ≡ false) × StepSpaced limit last c e nd')
    → Spaced limit last (rest_of c cs r)
rest_of-Spaced limit last c cs (done e nd) later (free, (lim, inl (none_taken, s))) =
    rw (moment-append c e (moments nd cs), none_taken) (later nd last free lim s)
rest_of-Spaced limit last c cs (done e nd) later (free, (lim, inr (taken, apart, s))) =
    rw (moment-append c e (moments nd cs), taken) (apart, later nd c.1.now.third free lim s)
rest_of-Spaced limit last c cs (blocked nd) later h = absurd h
rest_of-Spaced limit last c cs (panicked nd) later h = absurd h

moments-Spaced :
    (limit last now : ℕ) (cs : List Call) (nd : NodeWebRemoteClient)
    → limit ≤ max_duration
    → nd.locked ≡ false
    → nd.limit_interval ≡ pos limit
    → Clocked now cs
    → Since last nd
    → Spaced limit last (moments nd cs)
unfolding moments
moments-Spaced limit last now [] nd fits free lim clock s = tt
moments-Spaced limit last now (c ∷ cs) nd fits free lim clock s =
    rest_of-Spaced limit last c cs (call c nd)
      (λ nd' t free' lim' s'.
        moments-Spaced limit t c.1.now.third cs nd' fits free' lim' clock.3 s')
      (call-Spaced limit last c nd fits free lim clock.1 clock.2 s)

-- Whatever is called on a remote node that nobody else uses, with a clock that does not go back,
-- any two of its successful restarts and terminations are at least the limit apart, and the first
-- is as far from its last restart before, if the limit is one that a Duration holds.
pub restarts-Spaced :
    (limit now : ℕ) (cs : List Call) (nd : NodeWebRemoteClient)
    → limit ≤ max_duration
    → nd.locked ≡ false
    → nd.limit_interval ≡ pos limit
    → Clocked now cs
    → Spaced limit nd.last_restarted (moments nd cs)
restarts-Spaced limit now cs nd fits free lim clock =
    moments-Spaced limit nd.last_restarted now cs nd fits free lim clock (inr (omega arith))
