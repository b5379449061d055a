-- ===== src/Proc/RandomBytes/Filled.antt =====
-- What randBytes (proc/utils_random_bytes.go) returns, and when it returns.
use mathlib.Core.List.{reverse, reverse-append, reverse-cons}
use etcd_play.Base.{
  ℕ, zero, suc, ◌+◌, ◌-◌, ◌/◌, ◌^◌, ◌≡◌, refl, sym, ap, ◌∙◌, List, [], ◌∷◌, ◌++◌, none, some, leb,
  length, take, arith, Option-cases, inl, inr, if◌then◌else◌, append_assoc, append-nil,
  length-append,
}
use etcd_play.Base.Text.{Text}
use etcd_play.Proc.RandomBytes.{letter_idx_max, letter_at, fill_word, fill, rand_bytes}

-- The letters that `n` groups of a word stand for.
unfoldable pub word_letters : ℕ → ℕ → Text
word_letters zero w = []
word_letters (suc n) w =
    let rest = word_letters n (w / 2 ^ 6) in elim (letter_at w) [ some c ↦ c ∷ rest | none ↦ rest ]

-- The letters of all words, in order.
unfoldable pub letters : List ℕ → Text
unfolding word_letters
letters [] = []
letters (w ∷ words) = word_letters letter_idx_max w ++ letters words

-- The first letters, as many as are wanted, back to front.
abbrev pub taken : ℕ → Text → Text
taken n ls = reverse (take n ls)

taken-cons : (i c : ℕ) (ls b : Text) → taken (suc i) (c ∷ ls) ++ b ≡ taken i ls ++ (c ∷ b)
taken-cons i c ls b =
    ap (λ t. t ++ b) (reverse-cons c (take i ls)) ∙ append_assoc (taken i ls) (c ∷ []) b

take-append : (n : ℕ) (xs ys : Text) → take n (xs ++ ys) ≡ take n xs ++ take (n - length xs) ys
take-append zero xs ys = ap (λ n. take n ys) (zero_sub (length xs))
  where
    zero_sub : (n : ℕ) → 0 ≡ 0 - n
    zero_sub n = omega arith
take-append (suc n) [] ys = ap (λ n. take n ys) (sub_zero (suc n))
  where
    sub_zero : (n : ℕ) → n ≡ n - 0
    sub_zero n = omega arith
take-append (suc n) (x ∷ xs) ys =
    ap (◌∷◌ x) (take-append n xs ys ∙ ap (λ k. take n xs ++ take k ys) (less (length xs)))
  where
    less : (k : ℕ) → n - k ≡ suc n - suc k
    less k = omega arith

taken-append : (n : ℕ) (xs ys : Text) → taken n (xs ++ ys) ≡ taken (n - length xs) ys ++ taken n xs
taken-append n xs ys =
    ap reverse (take-append n xs ys) ∙ reverse-append (take n xs) (take (n - length xs) ys)

-- One word fills bytes from the back with its letters, as long as there are both.
fill_word-taken :
    (n w i : ℕ) (b : Text)
    → ((fill_word n w i b).0 ≡ i - length (word_letters n w))
      × ((fill_word n w i b).1 ≡ taken i (word_letters n w) ++ b)
unfolding fill_word word_letters
fill_word-taken zero w zero b = (omega arith, refl)
fill_word-taken zero w (suc i) b = (omega arith, refl)
fill_word-taken (suc n) w zero b = (omega arith, refl)
fill_word-taken (suc n) w (suc i) b = elim (Option-cases (letter_at w)) [
  | inl none_there ↦
      rw (none_there, fill_word, word_letters) (fill_word-taken n (w / 2 ^ 6) (suc i) b)
  | inr (c, found) ↦
      let (left, bytes) = fill_word-taken n (w / 2 ^ 6) i (c ∷ b) in
      rw (found, fill_word, word_letters)
        (omega (arith, left), bytes ∙ sym (taken-cons i c (word_letters n (w / 2 ^ 6)) b))
]

fill-step :
    (w : ℕ) (words : List ℕ) (i : ℕ) (b : Text)
    → fill (w ∷ words) (suc i) b
      ≡ fill words (fill_word letter_idx_max w (suc i) b).0 (fill_word letter_idx_max w (suc i) b).1
unfolding fill
fill-step w words i b = refl

leb_shift : (n k l : ℕ) → leb (n - k) l ≡ leb n (k + l)
leb_shift n k l = ground arith

joined :
    (n : ℕ) (ws ls b : Text)
    → (if leb (n - length ws) (length ls)
        then some (taken (n - length ws) ls ++ (taken n ws ++ b))
        else none)
      ≡ (if leb n (length (ws ++ ls)) then some (taken n (ws ++ ls) ++ b) else none)
joined n ws ls b =
    rw
      (
        leb_shift n (length ws) (length ls),
        length-append ws ls,
        taken-append n ws ls,
        append_assoc (taken (n - length ws) ls) (taken n ws) b,
      )
      refl

fill-taken :
    (words : List ℕ) (i : ℕ) (b : Text)
    → fill words i b
      ≡ (if leb i (length (letters words)) then some (taken i (letters words) ++ b) else none)
unfolding letters
fill-taken words zero b = unfold fill in (ground arith)
fill-taken [] (suc i) b = unfold fill in (ground arith)
fill-taken (w ∷ words) (suc i) b =
    let ws : Text = word_letters letter_idx_max w in
    let (left, bytes) = fill_word-taken letter_idx_max w (suc i) b in
    fill-step w words i b
    ∙ ap (λ k. fill words k (fill_word letter_idx_max w (suc i) b).1) left
    ∙ ap (fill words (suc i - length ws)) bytes
    ∙ fill-taken words (suc i - length ws) (taken (suc i) ws ++ b)
    ∙ joined (suc i) ws (letters words) b

-- randBytes returns just when the groups of 6 bits of the words, ten to a word from the lowest bits
-- on, hold as many indices of letters as bytes are wanted. It returns that many of the letters, back
-- to front.
pub rand_bytes-taken :
    (words : List ℕ) (n : ℕ)
    → rand_bytes words n
      ≡ (if leb n (length (letters words)) then some (taken n (letters words)) else none)
unfolding rand_bytes
rand_bytes-taken words n = fill-taken words n [] ∙ rw (append-nil (taken n (letters words))) refl
