-- ===== src/Proc/Flags/Tags.antt =====
-- The tags of the struct Flags (proc/flags.go), by which getPairValueByName finds a pair.
use etcd_play.Base.{
  ◌≡◌, refl, subst, ◌∙◌, Bool, true, false, ◌&&◌, not, List, [], ◌∷◌, ◌++◌, Option, none, some, All,
  All-append, arith, if◌then◌else◌,
}
use etcd_play.Base.Text.{Text, codes, same, contains, starts_with, trim_space}
use etcd_play.Base.Map.{lookup}
use etcd_play.Base.Map.Values.{Values, Values-lookup}
use etcd_play.Base.Text.Quoted.{Unquoted}
use etcd_play.Proc.Error.{Result, ok, err, field_not_found, >>=-eq-ok}
use etcd_play.Proc.Flags.{
  Flags, is_valid, tags, map_to_comma_string, map_to_map_string, get_tag, pairs, true_pair,
}

-- A tag of the struct: no quote, and no "--" in it, at its begin or before its "=".
abbrev pub IsTag : Text → Type 0
IsTag t = Unquoted t × (contains (45 ∷ (t ++ 61 ∷ [])) (codes "--") ≡ false)

abbrev pub Tagged : List (Text × Text) → Type 0
Tagged = All (λ p. IsTag p.0)

unquoted : (t : Text) → contains t (codes "'") ≡ false → Unquoted t
unfolding contains starts_with
unquoted [] e = tt
unquoted (x ∷ t) e = (ground (arith, e), unquoted t (ground (arith, e)))

tag_lem :
    (t : Text)
    → contains t (codes "'") ≡ false
    → contains (45 ∷ (t ++ 61 ∷ [])) (codes "--") ≡ false
    → IsTag t
tag_lem t e e' = (unquoted t e, e')

abbrev tag_test : Text → Bool
tag_test t =
    if contains t (codes "'") then false else not (contains (45 ∷ (t ++ 61 ∷ [])) (codes "--"))

tag_test-IsTag : (t : Text) → tag_test t ≡ true → IsTag t
tag_test-IsTag t e = tag_lem t (ground (arith, e)) (ground (arith, e))

abbrev all_true : {A : Type 0} → (A → Bool) → List A → Bool
all_true f [] = true
all_true f (x ∷ xs) = f x && all_true f xs

All-true :
    {A : Type 0} (f : A → Bool) (P : A → Type 0) (xs : List A)
    → ((x : A) → f x ≡ true → P x)
    → all_true f xs ≡ true
    → All P xs
All-true f P [] h e = tt
All-true f P (x ∷ xs) h e = (h x (ground (arith, e)), All-true f P xs h (ground (arith, e)))

tested : (ps : List (Text × Text)) → all_true (λ p. tag_test p.0) ps ≡ true → Tagged ps
tested ps = All-true (λ p. tag_test p.0) (λ p. IsTag p.0) ps (λ p. tag_test-IsTag p.0)

abbrev tls_pairs : Bool → Bool → List (Text × Text)
tls_pairs b c = true_pair b (codes "auto-tls") ++ true_pair c (codes "peer-auto-tls")

tls-Tagged : (b c : Bool) → Tagged (tls_pairs b c)
unfolding contains starts_with
tls-Tagged true true = tested (tls_pairs true true) refl
tls-Tagged true false = tested (tls_pairs true false) refl
tls-Tagged false true = tested (tls_pairs false true) refl
tls-Tagged false false = tt

ok-Tagged : (qs ps : List (Text × Text)) → ok qs ≡ ok ps → Tagged qs → Tagged ps
ok-Tagged qs ps e h = let same_pairs : qs ≡ ps = cc in subst Tagged same_pairs h

-- The pairs that are always there.
abbrev first_pairs : Flags → List (Text × Text)
first_pairs f =
    (codes "name", trim_space f.name)
    ∷ (codes "listen-client-urls", map_to_comma_string f.listen_client_urls)
    ∷ (codes "advertise-client-urls", map_to_comma_string f.advertise_client_urls)
    ∷ (codes "listen-peer-urls", map_to_comma_string f.listen_peer_urls)
    ∷ (codes "initial-advertise-peer-urls", map_to_comma_string f.advertise_peer_urls)
    ∷ (codes "initial-cluster", map_to_map_string f.initial_cluster)
    ∷ (codes "initial-cluster-token", f.initial_cluster_token)
    ∷ (
      codes "initial-cluster-state",
      if same f.initial_cluster_state (codes "new") then codes "new" else codes "existing",
    )
    ∷ (codes "data-dir", trim_space f.data_dir)
    ∷ []

pub pairs-Tagged : (f : Flags) (ps : List (Text × Text)) → pairs f ≡ ok ps → Tagged ps
unfolding pairs contains lookup same starts_with
pairs-Tagged f ps e =
    let (_, _, k) = >>=-eq-ok (is_valid f) _ e in
    let tls : List (Text × Text) = tls_pairs f.client_auto_tls f.peer_auto_tls in
    ok-Tagged (first_pairs f ++ tls) ps k (
      All-append (λ p. IsTag p.0) (first_pairs f) tls (tested (first_pairs f) refl)
        (tls-Tagged f.client_auto_tls f.peer_auto_tls))

-- The field's tag is one of the struct.
pub get_tag-Unquoted : (fn tag : Text) → get_tag fn ≡ ok tag → Unquoted tag
unfolding get_tag contains starts_with
get_tag-Unquoted fn tag e = go (lookup fn tags) refl e
  where
    all : Values Unquoted tags
    all =
        All-true (λ p. tag_test p.1) (λ p. Unquoted p.1) tags (λ p h. (tag_test-IsTag p.1 h).0) refl

    go :
        (v : Option Text)
        → lookup fn tags ≡ v
        → elim v as (λ _. Result Text) [ some t ↦ ok t | none ↦ err (field_not_found fn) ] ≡ ok tag
        → Unquoted tag
    go none e h = cc
    go (some t) e h = Values-lookup Unquoted fn tag tags all (e ∙ ground (arith, h))
