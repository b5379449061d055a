-- ===== src/Tests/Bytes.antt =====
-- The theorems on the command line that is read back and on random bytes, on concrete texts.
use etcd_play.Base.{
  ℕ, ◌+◌, ◌*◌, ◌^◌, ◌≡◌, refl, List, [], ◌∷◌, ◌++◌, none, some, arith, length, leb, All,
  if◌then◌else◌,
}
use etcd_play.Base.Text.{Text, codes, trim_space, join}
use etcd_play.Base.Sort.{sort}
use etcd_play.Proc.Error.{ok}
use etcd_play.Proc.Flags.{
  pairs, string, get_tag, get_pair_value_by_name, map_to_comma_string, map_to_map_string,
}
use etcd_play.Proc.Flags.ReadBack.{PlainPairs, shown, get_pair_value_by_name-string}
use etcd_play.Proc.RandomBytes.{rand_bytes, multi_rand_bytes}
use etcd_play.Proc.RandomBytes.Filled.{letters, taken, rand_bytes-taken}
use etcd_play.Proc.RandomBytes.Distinct.{Unrepeated, IsSlice, multi_rand_bytes-Unrepeated}
use etcd_play.Tests.{flags_etcd1}

-- The pairs of the flags of the tests.
abbrev etcd1_pairs : List (Text × Text)
etcd1_pairs =
    (codes "name", codes "etcd1")
    ∷ (codes "listen-client-urls", codes "http://localhost:1279")
    ∷ (codes "advertise-client-urls", codes "http://localhost:1279")
    ∷ (codes "listen-peer-urls", codes "http://localhost:1280")
    ∷ (codes "initial-advertise-peer-urls", codes "http://localhost:1280")
    ∷ (codes "initial-cluster", [])
    ∷ (codes "initial-cluster-token", codes "token")
    ∷ (codes "initial-cluster-state", codes "new")
    ∷ (codes "data-dir", codes "etcd1.etcd")
    ∷ []

abbrev line : Text
line =
    codes "--name='etcd1' --listen-client-urls='http://localhost:1279' "
    ++ (codes "--advertise-client-urls='http://localhost:1279' "
        ++ (codes "--listen-peer-urls='http://localhost:1280' "
            ++ (codes "--initial-advertise-peer-urls='http://localhost:1280' "
                ++ (codes "--initial-cluster='' --initial-cluster-token='token' "
                    ++ codes "--initial-cluster-state='new' --data-dir='etcd1.etcd'"))))

etcd1-pairs : pairs flags_etcd1 ≡ ok etcd1_pairs
unfolding pairs trim_space map_to_comma_string map_to_map_string join sort
etcd1-pairs = refl

etcd1-line : string flags_etcd1 ≡ ok line
unfolding string trim_space map_to_comma_string map_to_map_string join sort
etcd1-line = refl

data_dir-tag : get_tag (codes "DataDir") ≡ ok (codes "data-dir")
unfolding get_tag
data_dir-tag = refl

etcd1-plain : PlainPairs etcd1_pairs
etcd1-plain = ground arith

get_pair_value_by_name-string_example :
    get_pair_value_by_name (codes "DataDir") line ≡ shown (codes "data-dir") etcd1_pairs
get_pair_value_by_name-string_example =
    get_pair_value_by_name-string flags_etcd1 (codes "DataDir") (codes "data-dir") line etcd1_pairs
      etcd1-pairs etcd1-line data_dir-tag etcd1-plain

-- Groups of 6 bits: 1, 63, 2 and zeros.
abbrev word : ℕ
word = 1 + (63 * 2 ^ 6 + 2 * 2 ^ 12)

rand_bytes-taken_example :
    rand_bytes (word ∷ []) 2
    ≡ (if leb 2 (length (letters (word ∷ []))) then some (taken 2 (letters (word ∷ []))) else none)
rand_bytes-taken_example = rand_bytes-taken (word ∷ []) 2

-- The first two sources give the same bytes.
abbrev sources : List (List ℕ)
sources = (word ∷ []) ∷ (word ∷ []) ∷ (0 ∷ []) ∷ []

abbrev slices : List Text
slices = codes "cb" ∷ codes "aa" ∷ []

two_slices : multi_rand_bytes sources 2 2 ≡ some slices
unfolding multi_rand_bytes
two_slices = refl

multi_rand_bytes-Unrepeated_example :
    (length slices ≡ 2) × Unrepeated slices × All (IsSlice 2) slices
multi_rand_bytes-Unrepeated_example = multi_rand_bytes-Unrepeated sources 2 2 slices two_slices
