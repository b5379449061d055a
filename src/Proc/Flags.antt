-- ===== src/Proc/Flags.antt =====
-- proc/flags.go and proc/utils_map.go. A `map[string]struct{}` is the list of its keys, in any order.
-- The global port counter is passed in and out; the uuid is an argument.
pub mod ReadBack
pub mod Tags
pub mod Render
pub mod Generate
pub mod Combine
use etcd_play.Base.{
  ℕ, ◌+◌, ◌^◌, ◌%◌, Bool, true, false, ◌&&◌, ◌||◌, not, List, [], ◌∷◌, ◌++◌, map, Option, none,
  some, if◌then◌else◌,
}
use etcd_play.Base.Text.{
  Text, codes, same, split, last_piece, first_piece, trim_space, join, contains, after_first,
  replace,
}
use etcd_play.Base.Sort.{sort}
use etcd_play.Base.Decimal.{decimal}
use etcd_play.Base.Map.{Map, lookup, insert}
use etcd_play.Proc.Error.{
  Error, Result, ok, err, ◌>>=◌, ◌>>◌, duplicate_name, duplicate_ports, name_unspecified,
  bad_cluster_state, field_not_found,
}

pub record Flags : Type 0 where
  pub name : Text
  pub data_dir : Text
  pub listen_client_urls : List Text
  pub advertise_client_urls : List Text
  pub listen_peer_urls : List Text
  pub advertise_peer_urls : List Text
  pub initial_cluster : Map Text
  pub initial_cluster_token : Text
  pub initial_cluster_state : Text
  pub client_auto_tls : Bool
  pub peer_auto_tls : Bool

unfoldable pub default_flags : Flags
default_flags = record {
  name = [];
  data_dir = codes "data.etcd";
  listen_client_urls = codes "http://localhost:2379" ∷ [];
  advertise_client_urls = codes "http://localhost:2379" ∷ [];
  listen_peer_urls = codes "http://localhost:2380" ∷ [];
  advertise_peer_urls = codes "http://localhost:2380" ∷ [];
  initial_cluster = [];
  initial_cluster_token = [];
  initial_cluster_state = codes "new";
  client_auto_tls = false;
  peer_auto_tls = false;
}

-- `globalPortPrefix` as the program starts
abbrev pub global_port_prefix : ℕ
global_port_prefix = 12

-- atomic.AddUint32(&globalPortPrefix, 1), for a local node only
unfoldable pub next_prefix : Bool → ℕ → ℕ
next_prefix remote prefix = if remote then prefix else (prefix + 1) % 2 ^ 32

-- "http://" + hs + fmt.Sprintf(":%d79", portPrefix)
unfoldable pub node_url : Text → ℕ → Text → Text
node_url hs prefix suffix = codes "http://" ++ (hs ++ (codes ":" ++ (decimal prefix ++ suffix)))

unfoldable pub generate_flags : Text → Text → Bool → ℕ → Flags × ℕ
unfolding default_flags next_prefix
generate_flags name host remote prefix = (
  record default_flags {
    name = name;
    data_dir = name ++ codes ".etcd";
    listen_client_urls = client' ∷ [];
    advertise_client_urls = client' ∷ [];
    listen_peer_urls = peer' ∷ [];
    advertise_peer_urls = peer' ∷ [];
  },
  next_prefix remote prefix,
)
  where
    port_prefix : ℕ
    port_prefix = if remote then 23 else prefix

    hs : Text
    hs = if same host [] then codes "localhost" else host

    client : Text
    client = node_url hs port_prefix (codes "79")

    peer : Text
    peer = node_url hs port_prefix (codes "80")

    client' : Text
    client' =
        if default_flags.client_auto_tls
        then replace client (codes "http://") (codes "https://") none
        else client

    peer' : Text
    peer' =
        if default_flags.peer_auto_tls
        then replace peer (codes "http://") (codes "https://") none
        else peer

-- utils_map.go
unfoldable pub map_to_comma_string : List Text → Text
map_to_comma_string [] = []
map_to_comma_string (k ∷ ks) = trim_space (join (sort (k ∷ ks)) (codes ","))

abbrev pub equation : Text × Text → Text
equation (k, v) = k ++ (codes "=" ++ v)

unfoldable pub map_to_map_string : Map Text → Text
map_to_map_string [] = []
map_to_map_string (kv ∷ m) = trim_space (join (sort (map equation (kv ∷ m))) (codes ","))

-- getAllPorts: the set `tm` of ports, then the sorted slice
abbrev pub port_of : Text → Text
port_of url = trim_space (last_piece (split url (codes ":")))

unfoldable pub add_key : Text → List Text → List Text
add_key k [] = k ∷ []
add_key k (j ∷ ks) = if same j k then j ∷ ks else j ∷ add_key k ks

unfoldable pub add_ports : List Text → List Text → List Text
unfolding add_key
add_ports tm [] = tm
add_ports tm (url ∷ urls) = add_ports (add_key (port_of url) tm) urls

unfoldable pub get_all_ports : Flags → List Text
unfolding add_ports
get_all_ports f =
    let tm = add_ports [] f.listen_client_urls in
    let tm = add_ports tm f.advertise_client_urls in
    let tm = add_ports tm f.listen_peer_urls in sort (add_ports tm f.advertise_peer_urls)

abbrev pub port_key : Flags → Text
port_key f = join (get_all_ports f) (codes "___")

-- The first loop of CombineFlags: `m` is nameToPeerURL, `port_check` the ports of the first node.
unfoldable pub check_flags : Bool → Map Text → Text → List Flags → Result (Map Text)
check_flags remote m port_check [] = ok m
check_flags remote m port_check (f ∷ fs) = elim (lookup f.name m) [
  | some _ ↦ err (duplicate_name f.name)
  | none ↦ elim (not (same port_check []) && (same port_check (port_key f) && not remote)) [
    | true ↦ err (duplicate_ports (get_all_ports f))
    | false ↦
        check_flags remote (insert f.name (map_to_comma_string f.advertise_peer_urls) m)
          (if same port_check [] then port_key f else port_check) fs
  ]
]

-- The second loop writes one token and one shared map into every node's flags.
abbrev pub in_cluster : Text → Map Text → Flags → Flags
in_cluster token m f = record f { initial_cluster = m; initial_cluster_token = token }

unfoldable pub set_cluster : Text → Map Text → List Flags → List Flags
set_cluster token m = map (in_cluster token m)

-- CombineFlags; an error leaves the flags as they were. `token` is uuid.NewV4().String().
unfoldable pub combine_flags : Text → Bool → List Flags → Result (List Flags)
unfolding check_flags set_cluster
combine_flags token remote fs = do m ← check_flags remote [] [] fs; ok (set_cluster token m fs)

-- IsValid; the Boolean is false just when there is an error.
unfoldable pub is_valid : Flags → Result (Unit {0})
is_valid f =
    if same f.name []
    then err name_unspecified
    else if not (same f.initial_cluster_state (codes "new"))
        && not (same f.initial_cluster_state (codes "existing"))
    then err bad_cluster_state
    else ok tt

-- The `flag:"…"` tags of the struct, by field name.
abbrev pub tags : Map Text
tags =
    (codes "Name", codes "name")
    ∷ (codes "DataDir", codes "data-dir")
    ∷ (codes "ListenClientURLs", codes "listen-client-urls")
    ∷ (codes "AdvertiseClientURLs", codes "advertise-client-urls")
    ∷ (codes "ListenPeerURLs", codes "listen-peer-urls")
    ∷ (codes "AdvertisePeerURLs", codes "initial-advertise-peer-urls")
    ∷ (codes "InitialCluster", codes "initial-cluster")
    ∷ (codes "InitialClusterToken", codes "initial-cluster-token")
    ∷ (codes "InitialClusterState", codes "initial-cluster-state")
    ∷ (codes "ClientAutoTLS", codes "auto-tls")
    ∷ (codes "PeerAutoTLS", codes "peer-auto-tls")
    ∷ []

unfoldable pub get_tag : Text → Result Text
unfolding lookup
get_tag fn = elim (lookup fn tags) [ some tag ↦ ok tag | none ↦ err (field_not_found fn) ]

abbrev pub true_pair : Bool → Text → List (Text × Text)
true_pair true tag = (tag, codes "true") ∷ []
true_pair false tag = []

unfoldable pub pairs : Flags → Result (List (Text × Text))
unfolding get_tag is_valid
pairs f = do
  is_valid f
  name_tag ← get_tag (codes "Name")
  listen_client_urls_tag ← get_tag (codes "ListenClientURLs")
  advertise_client_urls_tag ← get_tag (codes "AdvertiseClientURLs")
  listen_peer_urls_tag ← get_tag (codes "ListenPeerURLs")
  advertise_peer_urls_tag ← get_tag (codes "AdvertisePeerURLs")
  initial_cluster_tag ← get_tag (codes "InitialCluster")
  initial_cluster_token_tag ← get_tag (codes "InitialClusterToken")
  initial_cluster_state_tag ← get_tag (codes "InitialClusterState")
  data_dir_tag ← get_tag (codes "DataDir")
  client_auto_tls_tag ← get_tag (codes "ClientAutoTLS")
  peer_auto_tls_tag ← get_tag (codes "PeerAutoTLS")
  ok (
      (name_tag, trim_space f.name)
      ∷ (listen_client_urls_tag, map_to_comma_string f.listen_client_urls)
      ∷ (advertise_client_urls_tag, map_to_comma_string f.advertise_client_urls)
      ∷ (listen_peer_urls_tag, map_to_comma_string f.listen_peer_urls)
      ∷ (advertise_peer_urls_tag, map_to_comma_string f.advertise_peer_urls)
      ∷ (initial_cluster_tag, map_to_map_string f.initial_cluster)
      ∷ (initial_cluster_token_tag, f.initial_cluster_token)
      ∷ (
        initial_cluster_state_tag,
        if same f.initial_cluster_state (codes "new") then codes "new" else codes "existing",
      )
      ∷ (data_dir_tag, trim_space f.data_dir)
      ∷ (true_pair f.client_auto_tls client_auto_tls_tag
          ++ true_pair f.peer_auto_tls peer_auto_tls_tag))

abbrev pub slice_of : List (Text × Text) → List Text
slice_of [] = []
slice_of ((tag, value) ∷ rest) =
    (if same value (codes "true")
      then (codes "--" ++ tag) ∷ []
      else (codes "--" ++ tag) ∷ value ∷ [])
    ++ slice_of rest

-- StringSlice
unfoldable pub string_slice : Flags → Result (List Text)
unfolding pairs
string_slice f = do ps ← pairs f; ok (slice_of ps)

-- fmt.Sprintf("--%s='%s'", pair[0], pair[1]) and a space, for each pair
abbrev pub buffer_of : List (Text × Text) → Text
buffer_of [] = []
buffer_of ((tag, value) ∷ rest) =
    codes "--" ++ (tag ++ (codes "='" ++ (value ++ (codes "' " ++ buffer_of rest))))

-- String
unfoldable pub string : Flags → Result Text
unfolding pairs
string f = do ps ← pairs f; ok (trim_space (buffer_of ps))

-- getPairValueByName; an unknown field has the empty tag.
unfoldable pub get_pair_value_by_name : Text → Text → Text
unfolding get_tag
get_pair_value_by_name fn flags = elim (after_first flags prefix) [
  | none ↦ []
  | some rest ↦ trim_space (first_piece (split rest (codes "' ")))
]
  where
    tag : Text
    tag = elim (get_tag fn) [ ok t ↦ t | err _ ↦ [] ]

    prefix : Text
    prefix = codes "--" ++ (tag ++ codes "='")
