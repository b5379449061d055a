-- ===== src/Proc/Flags/Render.antt =====
-- The command line of the flags (proc/flags.go, proc/utils_map.go): it does not depend on the order
-- in which Go hands out the entries of a map.
use mathlib.Core.List.{Perm}
use mathlib.Core.List.Perm
use etcd_play.Base.{◌≡◌, refl, sym, ap, ◌∙◌, List, [], ◌∷◌, map}
use etcd_play.Base.Text.{Text, codes, trim_space, join}
use etcd_play.Base.Sort.{sort, sort-perm}
use etcd_play.Base.Map.{Map}
use etcd_play.Proc.Flags.{
  Flags, map_to_comma_string, map_to_map_string, equation, pairs, string, string_slice,
}

joined-perm :
    (ks ls : List Text)
    → Perm ks ls
    → trim_space (join (sort ks) (codes ",")) ≡ trim_space (join (sort ls) (codes ","))
joined-perm ks ls p = ap (λ l. trim_space (join l (codes ","))) (sort-perm p)

-- The branch for an empty map gives what the general branch would.
comma_lem : (ks : List Text) → map_to_comma_string ks ≡ trim_space (join (sort ks) (codes ","))
unfolding map_to_comma_string trim_space join sort
comma_lem [] = refl
comma_lem (k ∷ ks) = refl

map_lem :
    (m : Map Text) → map_to_map_string m ≡ trim_space (join (sort (map equation m)) (codes ","))
unfolding map_to_map_string trim_space join sort
map_lem [] = refl
map_lem (kv ∷ m) = refl

comma-perm : (ks ls : List Text) → Perm ks ls → map_to_comma_string ks ≡ map_to_comma_string ls
comma-perm ks ls p = comma_lem ks ∙ joined-perm ks ls p ∙ sym (comma_lem ls)

map-perm : (m n : Map Text) → Perm m n → map_to_map_string m ≡ map_to_map_string n
map-perm m n p = map_lem m ∙ joined-perm _ _ (Perm.map equation p) ∙ sym (map_lem n)

-- Two flags whose maps hold the same entries, in whatever order.
pub record SameFlags (f g : Flags) : Type 0 where
  pub name_eq : f.name ≡ g.name
  pub data_dir_eq : f.data_dir ≡ g.data_dir
  pub listen_client : Perm f.listen_client_urls g.listen_client_urls
  pub advertise_client : Perm f.advertise_client_urls g.advertise_client_urls
  pub listen_peer : Perm f.listen_peer_urls g.listen_peer_urls
  pub advertise_peer : Perm f.advertise_peer_urls g.advertise_peer_urls
  pub cluster : Perm f.initial_cluster g.initial_cluster
  pub token_eq : f.initial_cluster_token ≡ g.initial_cluster_token
  pub state_eq : f.initial_cluster_state ≡ g.initial_cluster_state
  pub client_tls_eq : f.client_auto_tls ≡ g.client_auto_tls
  pub peer_tls_eq : f.peer_auto_tls ≡ g.peer_auto_tls

pairs-perm : (f g : Flags) → SameFlags f g → pairs f ≡ pairs g
unfolding pairs
pairs-perm f g h = rw (
  h.name_eq,
  h.data_dir_eq,
  h.token_eq,
  h.state_eq,
  h.client_tls_eq,
  h.peer_tls_eq,
  comma-perm _ _ h.listen_client,
  comma-perm _ _ h.advertise_client,
  comma-perm _ _ h.listen_peer,
  comma-perm _ _ h.advertise_peer,
  map-perm _ _ h.cluster,
)

-- Flags that hold the same entries give the same command line, as one string and as arguments: the
-- random order of Go's maps does not show.
pub command_line-perm :
    (f g : Flags) → SameFlags f g → (string f ≡ string g) × (string_slice f ≡ string_slice g)
unfolding string string_slice
command_line-perm f g h = rw (pairs-perm f g h) (refl, refl)
