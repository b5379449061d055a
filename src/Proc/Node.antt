-- ===== src/Proc/Node.antt =====
-- What the two kinds of node share: their addresses, and the life of an etcd process as a
-- specification that both kinds implement (proc/node_web_local.go, proc/node_web_remote_client.go).
pub mod Local
pub mod Remote
pub mod Refines
pub mod Spacing
pub mod Locks
pub mod Output
pub mod Lines
pub mod Turns
use etcd_play.Base.{ℕ, Bool, true, false, List, [], ◌∷◌, Option, none, some, if◌then◌else◌}
use etcd_play.Base.Text.{Text}
use etcd_play.Base.Time.{ℤ, ltb_ℤ, since}
use etcd_play.Proc.Flags.{Flags}
use etcd_play.Proc.Error.{
  Error, already_running, already_terminated, same_node_restarted, node_terminated,
  same_node_terminated, node_restarted,
}

-- `for k := range m { es = k; break }`: the key that comes first
abbrev pub first_key : List Text → Text
first_key [] = []
first_key (k ∷ ks) = k

-- What url.Parse of net/url finds as the host of a URL; `none` is an error of url.Parse.
abbrev pub UrlHost : Type 0
UrlHost = Text → Option Text

-- Endpoint and StatusEndpoint, which the two kinds of node spell alike. Endpoint drops the error of
-- url.Parse and reads the host of a nil URL: `none` is that panic.
unfoldable pub endpoint : UrlHost → Flags → Option Text
endpoint host f = host (first_key f.listen_client_urls)

-- The endpoint of a node whose URL parses.
unfoldable pub address : UrlHost → Flags → Text
unfolding endpoint
address host f = elim (endpoint host f) [ none ↦ [] | some ep ↦ ep ]

unfoldable pub status_endpoint : Flags → Text
status_endpoint f = first_key f.listen_client_urls

-- What the rules of restarting and terminating are about.
pub record Life : Type 0 where
  pub active : Bool
  pub last_terminated : ℕ
  pub last_restarted : ℕ

-- The clock's successive answers within one call.
pub record Readings : Type 0 where
  pub first : ℕ
  pub second : ℕ
  pub third : ℕ

-- The specification: `outside` is the answer of the process or agent that carries the request out.
unfoldable pub spec_start : Text → Option Error → Life → Option Error × Life
spec_start name outside l =
    if l.active
    then (some (already_running name), l)
    else elim outside [ some e ↦ (some e, l) | none ↦ (none, record l { active = true }) ]

unfoldable pub spec_restart : Text → ℤ → Readings → Option Error → Life → Option Error × Life
spec_restart name limit now outside l =
    if l.active
    then (some (already_running name), l)
    else if ltb_ℤ (since now.first l.last_restarted) limit
    then (some (same_node_restarted (since now.first l.last_restarted) limit), l)
    else if ltb_ℤ (since now.second l.last_terminated) limit
    then (some (node_terminated (since now.second l.last_terminated) limit), l)
    else elim outside [
      | some e ↦ (some e, l)
      | none ↦ (none, record l { active = true; last_restarted = now.third })
    ]

unfoldable pub spec_terminate : Text → ℤ → Readings → Option Error → Life → Option Error × Life
spec_terminate name limit now outside l =
    if l.active
    then (if ltb_ℤ (since now.first l.last_terminated) limit
        then (some (same_node_terminated (since now.first l.last_terminated) limit), l)
        else if ltb_ℤ (since now.second l.last_restarted) limit
        then (some (node_restarted (since now.second l.last_restarted) limit), l)
        else elim outside [
          | some e ↦ (some e, l)
          | none ↦ (none, record l { active = false; last_terminated = now.third })
        ])
    else (some (already_terminated name), l)
