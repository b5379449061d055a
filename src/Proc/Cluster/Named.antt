-- ===== src/Proc/Cluster/Named.antt =====
-- Endpoints, and how Put, Get and Delete find the node of a name (proc/proc_cluster.go).
use etcd_play.Base.{
  ◌≡◌, ◌≢◌, refl, sym, subst, Apart, ap, ◌∙◌, Bool, true, false, ◌||◌, List, [], ◌∷◌, Option, none,
  some, ◌⊎◌, arith, Bool-cases, Option-cases, inl, inr,
}
use etcd_play.Base.Text.{Text, same}
use etcd_play.Base.Text.Laws.{same_iff}
use etcd_play.Base.Sort.{sort}
use etcd_play.Base.Map.{Map, lookup, insert, keys, lookup-insert}
use etcd_play.Base.Map.Keys.{insert-Apart}
use etcd_play.Base.Outcome.{done}
use etcd_play.Proc.Error.{Result, ok, err, does_not_exist}
use etcd_play.Proc.Flags.{Flags}
use etcd_play.Proc.Node.{UrlHost, address, endpoint}
use etcd_play.Proc.Cluster.{Cluster, Node, flags_of}
use etcd_play.Proc.Cluster.Report.{
  Endpoints, no_endpoints, add_endpoint, shows, endpoints_go, endpoints,
}
use etcd_play.Proc.Cluster.Kv.{Answers, connect}
use etcd_play.Proc.Cluster.Fit.{IsFit}
use etcd_play.Proc.Cluster.Revive.{runs, node_is_active-free}

-- The endpoint of the node that a map holds.
abbrev pub endpoint_of : UrlHost → Option Node → Option Text
endpoint_of host none = none
endpoint_of host (some nd) = some (address host (flags_of nd))

-- url.Parse takes the URL of every node.
abbrev pub AllParse : UrlHost → Cluster → Type 0
AllParse host c =
    (name : Text) (nd : Node)
    → lookup name c.name_to_node ≡ some nd
    → endpoint host (flags_of nd) ≢ none

address-some :
    (host : UrlHost) (f : Flags) → endpoint host f ≢ none → endpoint host f ≡ some (address host f)
unfolding address
address-some host f h = elim (Option-cases (endpoint host f)) [
  | inl e ↦ absurd (h e)
  | inr (ep, e) ↦ ground (arith, e)
]

-- A name is among the names.
abbrev among : Text → List Text → Bool
among name [] = false
among name (n ∷ ns) = same n name || among name ns

shows-free :
    (host : UrlHost) (n : Text) (nd : Node) (c : Cluster)
    → IsFit c
    → AllParse host c
    → lookup n c.name_to_node ≡ some nd
    → (b : Bool) × (shows host n nd c ≡ done (address host (flags_of nd), b) c)
unfolding shows
shows-free host n nd c fit parse e =
    let ep : Text = address host (flags_of nd) in
    let parsed = address-some host (flags_of nd) (parse n nd e) in
    elim (Bool-cases (same ep [])) [
      | inl no_url ↦ (false, ground (arith, parsed, no_url))
      | inr url ↦ (runs nd, ground (arith, parsed, url, node_is_active-free n nd c fit e))
    ]

-- The endpoints by name that the loop of Endpoints leaves.
abbrev named : UrlHost → List Text → Map Node → Map Text → Map Text
named host [] m acc = acc
named host (n ∷ names) m acc = elim (lookup n m) [
  | none ↦ named host names m acc
  | some nd ↦ named host names m (insert n (address host (flags_of nd)) acc)
]

endpoints_go-free :
    (host : UrlHost) (names : List Text) (r : Endpoints) (c : Cluster)
    → IsFit c
    → AllParse host c
    → (r' : Endpoints) × (endpoints_go host names r c ≡ done r' c)
      × (r'.name_to_endpoint ≡ named host names c.name_to_node r.name_to_endpoint)
unfolding endpoints_go
endpoints_go-free host [] r c fit parse = (r, refl, refl)
endpoints_go-free host (n ∷ names) r c fit parse = elim (Option-cases (lookup n c.name_to_node)) [
  | inl missing ↦
      let (r', ran, held) = endpoints_go-free host names r c fit parse in
      (r', ground (arith, missing, ran), ground (arith, missing, held))
  | inr (nd, found) ↦
      let ep : Text = address host (flags_of nd) in
      let (b, shown) = shows-free host n nd c fit parse found in
      let (r', ran, held) = endpoints_go-free host names (add_endpoint n ep b r) c fit parse in
      (r', ground (arith, found, shown, ran), ground (arith, found, held))
]

named-Apart :
    (host : UrlHost) (names : List Text) (m : Map Node) (acc : Map Text)
    → Apart (keys acc)
    → Apart (keys (named host names m acc))
named-Apart host [] m acc h = h
named-Apart host (n ∷ names) m acc h = elim (Option-cases (lookup n m)) [
  | inl missing ↦ rw (missing, named) (named-Apart host names m acc h)
  | inr (nd, found) ↦
      rw (found, named)
        (named-Apart host names m (insert n (address host (flags_of nd)) acc)
          (insert-Apart n (address host (flags_of nd)) acc h))
]

-- Of a name that no node has, the loop leaves nothing.
named-missing :
    (host : UrlHost) (name : Text) (names : List Text) (m : Map Node) (acc : Map Text)
    → lookup name m ≡ none
    → lookup name acc ≡ none
    → lookup name (named host names m acc) ≡ none
named-missing host name [] m acc gone e = e
named-missing host name (n ∷ names) m acc gone e = elim (Option-cases (lookup n m)) [
  | inl missing ↦ rw (missing, named) (named-missing host name names m acc gone e)
  | inr (nd, found) ↦
      let apart : same n name ≡ false = ground (arith, same_iff n name, gone, found) in
      rw (found, named)
        (named-missing host name names m (insert n (address host (flags_of nd)) acc) gone
          (ground (arith, lookup-insert n name (address host (flags_of nd)) acc, apart, e)))
]

-- Of a node among the names, or found before, the loop leaves the endpoint.
named-found :
    (host : UrlHost) (name : Text) (nd : Node) (names : List Text) (m : Map Node) (acc : Map Text)
    → lookup name m ≡ some nd
    → (lookup name acc ≡ some (address host (flags_of nd))) ⊎ (among name names ≡ true)
    → lookup name (named host names m acc) ≡ some (address host (flags_of nd))
named-found host name nd [] m acc held (inl e) = e
named-found host name nd [] m acc held (inr e) = cc
named-found host name nd (n ∷ names) m acc held h = elim (Option-cases (lookup n m)) [
  | inl missing ↦
      let apart : same n name ≡ false = ground (arith, same_iff n name, missing, held) in
      rw (missing, named) (named-found host name nd names m acc held (passed n apart h))
  | inr (nd', found) ↦
      let acc' : Map Text = insert n (address host (flags_of nd')) acc in
      elim (Bool-cases (same n name)) [
        | inl eq ↦
            rw (found, named)
              (named-found host name nd names m acc' held (
                inl (
                  ground (
                    arith,
                    lookup-insert n name (address host (flags_of nd')) acc,
                    eq,
                    same_iff n name,
                    found,
                    held,
                  ))))
        | inr apart ↦
            rw (found, named)
              (named-found host name nd names m acc' held (kept nd' apart (passed n apart h)))
      ]
]
  where
    passed :
        (n : Text)
        → same n name ≡ false
        → (lookup name acc ≡ some (address host (flags_of nd))) ⊎ (among name (n ∷ names) ≡ true)
        → (lookup name acc ≡ some (address host (flags_of nd))) ⊎ (among name names ≡ true)
    passed n apart (inl e) = inl e
    passed n apart (inr e) = inr (rw apart at e)

    kept :
        (nd' : Node)
        → same n name ≡ false
        → (lookup name acc ≡ some (address host (flags_of nd))) ⊎ (among name names ≡ true)
        → (lookup name (insert n (address host (flags_of nd')) acc)
            ≡ some (address host (flags_of nd)))
          ⊎ (among name names ≡ true)
    kept nd' apart (inl e) =
        inl (ground (arith, lookup-insert n name (address host (flags_of nd')) acc, apart, e))
    kept nd' apart (inr e) = inr e

keys-among :
    (name : Text) (nd : Node) (m : Map Node) → lookup name m ≡ some nd → among name (keys m) ≡ true
unfolding lookup
keys-among name nd [] e = cc
keys-among name nd ((j, x) ∷ m) e = elim (Bool-cases (same j name)) [
  | inl eq ↦ rw eq refl
  | inr ne ↦ rw ne (keys-among name nd m (rw ne at e))
]

-- In a cluster whose mutexes are free and whose URLs parse, Endpoints returns, changes nothing, and gives the endpoint of
-- every node once, under its name.
pub endpoints-named :
    (host : UrlHost) (c : Cluster)
    → IsFit c
    → AllParse host c
    → (r : Endpoints) × (endpoints host c ≡ done r c)
      × ((name : Text)
          → lookup name r.name_to_endpoint ≡ endpoint_of host (lookup name c.name_to_node))
      × Apart (keys r.name_to_endpoint)
unfolding endpoints
endpoints-named host c fit parse =
    let (r, ran, held) = endpoints_go-free host (keys c.name_to_node) no_endpoints c fit parse in
    (
      record r { active = sort r.active },
      ground (arith, ran),
      (λ name. ap (lookup name) held ∙ under name (lookup name c.name_to_node) refl),
      subst (λ m. Apart (keys m)) (sym held)
          (named-Apart host (keys c.name_to_node) c.name_to_node _ tt),
    )
  where
    nothing : (name : Text) → lookup name no_endpoints.name_to_endpoint ≡ none
    nothing name = unfold lookup in refl

    under :
        (name : Text) (v : Option Node)
        → lookup name c.name_to_node ≡ v
        → lookup name
            (named host (keys c.name_to_node) c.name_to_node no_endpoints.name_to_endpoint)
          ≡ endpoint_of host v
    under name none e =
        named-missing host name (keys c.name_to_node) c.name_to_node _ e (nothing name)
    under name (some nd) e =
        named-found host name nd (keys c.name_to_node) c.name_to_node _ e
          (inr (keys-among name nd c.name_to_node e))

-- Whom Put, Get and Delete ask under a name.
abbrev pub target : Answers → Text → Option Node → Result (Text × Text)
target w name none = err (does_not_exist name)
target w name (some nd) = elim (w.client_new (address w.host (flags_of nd) ∷ [])) [
  | some e ↦ err e
  | none ↦ ok (name, address w.host (flags_of nd))
]

pub connect-target :
    (w : Answers) (name : Text) (c : Cluster)
    → IsFit c
    → AllParse w.host c
    → name ≢ []
    → connect w name c ≡ done (target w name (lookup name c.name_to_node)) c
unfolding connect
connect-target w [] c fit parse ne = absurd (ne refl)
connect-target w (x ∷ xs) c fit parse ne =
    let name : Text = x ∷ xs in
    let (r, ran, held, _) = endpoints-named w.host c fit parse in
    elim (Option-cases (lookup name c.name_to_node)) [
      | inl missing ↦ ground (arith, ran, held name, missing)
      | inr (nd, found) ↦ ground (arith, ran, held name, found)
    ]
