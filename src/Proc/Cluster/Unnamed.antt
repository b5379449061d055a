-- ===== src/Proc/Cluster/Unnamed.antt =====
-- Put, Get and Delete without a name (proc/proc_cluster.go) go to one of the nodes.
use etcd_play.Base.{
  ℕ, zero, suc, ◌≡◌, refl, sym, ap, ◌∙◌, Bool, List, [], ◌∷◌, Option, none, some, arith, Bool-cases,
  inl, inr,
}
use etcd_play.Base.Text.{Text, same}
use etcd_play.Base.Text.Laws.{same_iff}
use etcd_play.Base.Map.{Map, lookup}
use etcd_play.Base.Outcome.{done, M, pure, continue}
use etcd_play.Proc.Error.{Result, ok, err}
use etcd_play.Proc.Node.{UrlHost}
use etcd_play.Proc.Cluster.{Cluster, Node}
use etcd_play.Proc.Cluster.Report.{Endpoints, endpoints}
use etcd_play.Proc.Cluster.Kv.{
  Answers, name_at, pick, key_range, connect, put_at, get_at, delete_at, put, get_key, delete_key,
}
use etcd_play.Proc.Cluster.Fit.{IsFit}
use etcd_play.Proc.Cluster.Named.{AllParse, endpoint_of, endpoints-named}

head_found : (n x : Text) (rest : Map Text) → lookup n ((n, x) ∷ rest) ≡ some x
unfolding lookup
head_found n x rest = ground (arith, same_iff n n)

-- In what a longer map holds, a name of the shorter one is there.
still_found :
    (n k x y : Text) (rest : Map Text)
    → lookup k rest ≡ some y
    → (z : Text) × (lookup k ((n, x) ∷ rest) ≡ some z)
unfolding lookup
still_found n k x y rest e = elim (Bool-cases (same n k)) [
  | inl eq ↦ (x, ground (arith, eq))
  | inr ne ↦ (y, ground (arith, ne, e))
]

name_at-found :
    (n x : Text) (rest : Map Text) (i : ℕ)
    → (y : Text) × (lookup (name_at n rest i) ((n, x) ∷ rest) ≡ some y)
name_at-found n x [] i = (x, head_found n x [])
name_at-found n x ((n', x') ∷ rest) zero = (x, head_found n x ((n', x') ∷ rest))
name_at-found n x ((n', x') ∷ rest) (suc i) =
    let (y, e) = name_at-found n' x' rest i in
    still_found n (name_at n' rest i) x y ((n', x') ∷ rest) e

-- Without a name, a name of the map is picked, if there is one.
pick-found :
    (i : ℕ) (m : Map Text) (k ep : Text)
    → lookup k m ≡ some ep
    → (y : Text) × (lookup (pick i [] m) m ≡ some y)
unfolding lookup
pick-found i [] k ep e = cc
pick-found i ((n, x) ∷ rest) k ep e = name_at-found n x rest i

-- Each name of the map is picked for some start of the range.
name_at-reaches :
    (n x k y : Text) (rest : Map Text)
    → lookup k ((n, x) ∷ rest) ≡ some y
    → (i : ℕ) × (name_at n rest i ≡ k)
unfolding lookup
name_at-reaches n x k y [] e = (0, ground (arith, e, same_iff n k))
name_at-reaches n x k y ((n', x') ∷ rest) e = elim (Bool-cases (same n k)) [
  | inl eq ↦ (0, (same_iff n k).0 eq)
  | inr ne ↦ let (i, reached) = name_at-reaches n' x' k y rest (rw ne at e) in (suc i, reached)
]

pick-reaches : (m : Map Text) (k y : Text) → lookup k m ≡ some y → (i : ℕ) × (pick i [] m ≡ k)
pick-reaches [] k y e = absurd (unfold lookup in (ground (arith, e)))
pick-reaches ((n, x) ∷ rest) k y e = name_at-reaches n x k y rest e

node_there :
    (host : UrlHost) (v : Option Node) (x : Text)
    → endpoint_of host v ≡ some x
    → (nd : Node) × (v ≡ some nd)
node_there host none x e = cc
node_there host (some nd) x e = (nd, refl)

pick_again : (i : ℕ) (n : Text) (m : Map Text) → pick i [] m ≡ n → pick i [] m ≡ pick i n m
pick_again i [] m e = refl
pick_again i (b ∷ bs) m e = e

-- A request without a name goes to the name that is picked.
connect-picked :
    (w : Answers) (c : Cluster) (n : Text) (r : Endpoints)
    → endpoints w.host c ≡ done r c
    → pick w.starts_at [] r.name_to_endpoint ≡ n
    → connect w [] c ≡ connect w n c
unfolding connect
connect-picked w c n r ran picked =
    let chosen = pick_again w.starts_at n r.name_to_endpoint picked in ground (arith, ran, chosen)

-- The node that a request without a name goes to.
connect-unnamed :
    (w : Answers) (c : Cluster) (k : Text) (nd : Node)
    → IsFit c
    → AllParse w.host c
    → lookup k c.name_to_node ≡ some nd
    → (n : Text) × ((nd' : Node) × (lookup n c.name_to_node ≡ some nd'))
      × (connect w [] c ≡ connect w n c)
connect-unnamed w c k nd fit parse found =
    let (r, ran, held, _) = endpoints-named w.host c fit parse in
    let n : Text = pick w.starts_at [] r.name_to_endpoint in
    let (x, at) =
      pick-found w.starts_at r.name_to_endpoint k _ (held k ∙ ap (endpoint_of w.host) found) in
    (
      n,
      node_there w.host (lookup n c.name_to_node) x (sym (held n) ∙ at),
      connect-picked w c n r ran refl,
    )

-- The start of the range with which a request without a name goes to a node.
connect-reaches :
    (w : Answers) (c : Cluster) (k : Text) (nd : Node)
    → IsFit c
    → AllParse w.host c
    → lookup k c.name_to_node ≡ some nd
    → (i : ℕ) × (connect (record w { starts_at = i }) [] c
        ≡ connect (record w { starts_at = i }) k c)
connect-reaches w c k nd fit parse found =
    let (r, ran, held, _) = endpoints-named w.host c fit parse in
    let (i, picked) =
      pick-reaches r.name_to_endpoint k _ (held k ∙ ap (endpoint_of w.host) found) in
    (i, connect-picked (record w { starts_at = i }) c k r ran picked)

-- What follows the choice of the node.
abbrev asks :
    {A : Type 0}
    → (Text × Text → M Cluster (Result A))
    → Result (Text × Text)
    → M Cluster (Result A)
asks at r = elim r [ err e ↦ pure (err e) | ok target ↦ at target ]

-- The request without a name does what it does under the name of some node.
abbrev pub GoesToNode : {A : Type 0} → Cluster → (Text → M Cluster (Result A)) → Type 0
GoesToNode c request =
    (n : Text) × ((nd : Node) × (lookup n c.name_to_node ≡ some nd)) × (request [] c ≡ request n c)

-- In a cluster whose mutexes are free and whose nodes have valid flags and URLs that url.Parse takes,
-- and which has a node, a Put, a Get and a Delete without a name each do what they do under the name of
-- one of the nodes; and for each node there is a start of the range over the map for which they do what
-- they do under that node's name.
pub requests-Unnamed :
    (w : Answers) (c : Cluster) (k : Text) (nd : Node) (key value : Text) (prefix : Bool)
    (ids : List Text)
    → IsFit c
    → AllParse w.host c
    → lookup k c.name_to_node ≡ some nd
    → GoesToNode c (λ n. put w n key value ids)
      × GoesToNode c (λ n. get_key w n key prefix ids)
      × GoesToNode c (λ n. delete_key w n key prefix ids)
      × ((i : ℕ) × (let w' : Answers = record w { starts_at = i } in
            (put w' [] key value ids c ≡ put w' k key value ids c)
            × (get_key w' [] key prefix ids c ≡ get_key w' k key prefix ids c)
            × (delete_key w' [] key prefix ids c ≡ delete_key w' k key prefix ids c)))
unfolding put get_key delete_key
requests-Unnamed w c k nd key value prefix ids fit parse found =
    let (n, there, same) = connect-unnamed w c k nd fit parse found in
    let (i, same_i) = connect-reaches w c k nd fit parse found in
    let w' : Answers = record w { starts_at = i } in
    (
      (n, there, ap (λ r. continue r (asks (λ t. put_at w key value ids t))) same),
      (n, there, ap (λ r. continue r (asks (λ t. get_at w (key_range key prefix) ids t))) same),
      (n, there, ap (λ r. continue r (asks (λ t. delete_at w (key_range key prefix) ids t))) same),
      (
        i,
        (
          ap (λ r. continue r (asks (λ t. put_at w' key value ids t))) same_i,
          ap (λ r. continue r (asks (λ t. get_at w' (key_range key prefix) ids t))) same_i,
          ap (λ r. continue r (asks (λ t. delete_at w' (key_range key prefix) ids t))) same_i,
        ),
      ),
    )
