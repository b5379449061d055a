-- ===== src/Proc/RandomBytes.antt =====
-- proc/utils_random_bytes.go: randBytes and multiRandBytes. What the source's Int63 returns, call by
-- call, is the list of words; a run that needs more words than the list has is `none`.
pub mod Filled
pub mod Distinct
use etcd_play.Base.{
  ℕ, zero, suc, ◌*◌, ◌/◌, ◌%◌, ◌^◌, Bool, true, false, ◌||◌, List, [], ◌∷◌, ◌++◌, Option, none,
  some, ◌==◌, length, get_elem?, if◌then◌else◌,
}
use etcd_play.Base.Text.{Text, codes, same}

abbrev pub letter_bytes : Text
letter_bytes = codes "abcdefghijklmnopqrstuvwxyzABCDEFGHIJKLMNOPQRSTUVWXYZ"

-- letterIdxMax
abbrev pub letter_idx_max : ℕ
letter_idx_max = 63 / 6

-- The letter at `cache & letterIdxMask`; `none` is an index past the letters.
unfoldable pub letter_at : ℕ → Option ℕ
letter_at cache = get_elem? letter_bytes (cache % 2 ^ 6)

-- The loop of randBytes while `remain` groups of one word are left: `i + 1` is the number of bytes to
-- fill, from the last to the first, and `b` the bytes behind them.
unfoldable pub fill_word : ℕ → ℕ → ℕ → Text → ℕ × Text
unfolding letter_at
fill_word zero cache i b = (i, b)
fill_word (suc remain) cache zero b = (zero, b)
fill_word (suc remain) cache (suc i) b = elim (letter_at cache) [
  | some c ↦ fill_word remain (cache / 2 ^ 6) i (c ∷ b)
  | none ↦ fill_word remain (cache / 2 ^ 6) (suc i) b
]

-- The loop of randBytes, a word at a time.
unfoldable pub fill : List ℕ → ℕ → Text → Option Text
unfolding fill_word
fill words zero b = some b
fill [] (suc i) b = none
fill (w ∷ words) (suc i) b =
    let (left, bytes) = fill_word letter_idx_max w (suc i) b in fill words left bytes

-- randBytes
unfoldable pub rand_bytes : List ℕ → ℕ → Option Text
unfolding fill
rand_bytes words bytes_n = fill words bytes_n []

-- _, ok := m[string(b)], where m has the slices that stand in `rs`
unfoldable pub has_bytes : Text → List Text → Bool
unfolding same
has_bytes b [] = false
has_bytes b (r ∷ rs) = same r b || has_bytes b rs

-- The loop of multiRandBytes; each call of randBytes has a source of its own.
unfoldable pub collect : List (List ℕ) → ℕ → ℕ → List Text → Option (List Text)
unfolding rand_bytes has_bytes
collect [] bytes_n slice_n rs = if length rs == slice_n then some rs else none
collect (words ∷ sources) bytes_n slice_n rs = elim (length rs == slice_n) [
  | true ↦ some rs
  | false ↦ elim (rand_bytes words bytes_n) [
    | none ↦ none
    | some b ↦ elim (has_bytes b rs) [
      | true ↦ collect sources bytes_n slice_n rs
      | false ↦ collect sources bytes_n slice_n (rs ++ b ∷ [])
    ]
  ]
]

-- multiRandBytes
unfoldable pub multi_rand_bytes : List (List ℕ) → ℕ → ℕ → Option (List Text)
unfolding collect
multi_rand_bytes sources bytes_n slice_n = collect sources bytes_n slice_n []
