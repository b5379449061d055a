-- ===== src/Proc/Cluster/Leading.antt =====
-- Leader (proc/proc_cluster.go): what the loop over the endpoints finds.
use etcd_play.Base.{
  ◌≡◌, ◌⊎◌, refl, List, [], ◌∷◌, Option, none, some, ◌==◌, arith, Option-cases, Bool-cases, inl,
  inr, ==_iff,
}
use etcd_play.Base.Text.{Text}
use etcd_play.Base.Map.{Map, lookup}
use etcd_play.Proc.Error.{Error, Result, ok, err}
use etcd_play.Proc.Cluster.Report.{Answers, StatusResponse, leader_go, name_or_empty}

-- The member behind an endpoint answers that it is the leader.
abbrev pub Leads : Answers → Text → Type 0
Leads w ep =
    (w.client_new ep ≡ none)
    × ((r : StatusResponse) × (w.maintenance_status ep ≡ ok r) × (r.member_id ≡ r.leader))

-- One of the endpoints leads, and has that name.
abbrev pub LeadsAs : Answers → Map Text → Text → List Text → Type 0
LeadsAs w names n [] = ⊥
LeadsAs w names n (ep ∷ eps) =
    (Leads w ep × (name_or_empty (lookup ep names) ≡ n)) ⊎ LeadsAs w names n eps

-- The member that leads ends the loop; any other leaves it to the rest.
leader_go-answered :
    (w : Answers) (names : Map Text) (lerr : Option Error) (ep : Text) (eps : List Text) (n : Text)
    (r : Result StatusResponse)
    → w.client_new ep ≡ none
    → w.maintenance_status ep ≡ r
    → ((l : Option Error) → leader_go w names l eps ≡ ok n → LeadsAs w names n eps)
    → leader_go w names lerr (ep ∷ eps) ≡ ok n
    → LeadsAs w names n (ep ∷ eps)
unfolding leader_go
leader_go-answered w names lerr ep eps n (err e) free answer later h =
    inr (later (some e) (ground (arith, free, answer, h)))
leader_go-answered w names lerr ep eps n (ok resp) free answer later h =
    elim (Bool-cases (resp.member_id == resp.leader)) [
      | inl leads ↦ inl (
        (free, (resp, answer, (==_iff resp.member_id resp.leader).0 leads)),
        ground (arith, free, answer, leads, h),
      )
      | inr follows ↦ inr (later none (ground (arith, free, answer, follows, h)))
    ]

-- The name that the loop of Leader returns is that of an endpoint whose member says that it leads.
pub leader_go-LeadsAs :
    (w : Answers) (names : Map Text) (lerr : Option Error) (eps : List Text) (n : Text)
    → leader_go w names lerr eps ≡ ok n
    → LeadsAs w names n eps
unfolding leader_go
leader_go-LeadsAs w names lerr [] n h = cc
leader_go-LeadsAs w names lerr (ep ∷ eps) n h = elim (Option-cases (w.client_new ep)) [
  | inl free ↦
      leader_go-answered w names lerr ep eps n (w.maintenance_status ep) free refl
        (λ l k. leader_go-LeadsAs w names l eps n k) h
  | inr (e, failed) ↦ inr (leader_go-LeadsAs w names (some e) eps n (ground (arith, failed, h)))
]
