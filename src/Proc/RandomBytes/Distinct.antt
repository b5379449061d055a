-- ===== src/Proc/RandomBytes/Distinct.antt =====
-- What multiRandBytes (proc/utils_random_bytes.go) returns.
use mathlib.Core.List.{reverse, reverse-cons}
use etcd_play.Base.{
  ℕ, zero, suc, ◌/◌, ◌%◌, ◌^◌, ◌≤◌, ◌≡◌, ◌⊎◌, refl, ap, ◌∙◌, subst, Bool, true, false, ◌||◌, ◌&&◌,
  List, [], ◌∷◌, ◌++◌, Option, none, some, leb, ◌==◌, length, take, get_elem?, All, All-append,
  All-take, length-append, length-take-eq, arith, Bool-cases, Option-cases, inl, inr, ==_iff,
}
use etcd_play.Base.Text.{Text, same}
use etcd_play.Base.Text.Laws.{same_iff, All-reverse}
use etcd_play.Proc.RandomBytes.{
  letter_bytes, letter_idx_max, letter_at, rand_bytes, has_bytes, collect, multi_rand_bytes,
}
use etcd_play.Proc.RandomBytes.Filled.{word_letters, letters, taken, rand_bytes-taken}

-- An ASCII letter.
abbrev pub IsLetter : ℕ → Type 0
IsLetter c = ((65 ≤ c) × (c ≤ 90)) ⊎ ((97 ≤ c) × (c ≤ 122))

abbrev letter_test : ℕ → Bool
letter_test c = (leb 65 c && leb c 90) || (leb 97 c && leb c 122)

letter_test-IsLetter : (c : ℕ) → letter_test c ≡ true → IsLetter c
letter_test-IsLetter c e = elim (Bool-cases (leb 65 c && leb c 90)) [
  | inl upper ↦ inl (ground (arith, upper), ground (arith, upper))
  | inr no_upper ↦ inr (ground (arith, no_upper, e), ground (arith, no_upper, e))
]

and_left : (a b : Bool) → (a && b) ≡ true → a ≡ true
and_left true b h = refl
and_left false b h = h

and_right : (a b : Bool) → (a && b) ≡ true → b ≡ true
and_right true b h = h
and_right false b h = absurd (cc h)

abbrev all_letters : Text → Bool
all_letters [] = true
all_letters (x ∷ xs) = letter_test x && all_letters xs

elem-letter_test :
    (xs : Text) (i c : ℕ) → all_letters xs ≡ true → get_elem? xs i ≡ some c → letter_test c ≡ true
elem-letter_test [] i c h e = cc
elem-letter_test (x ∷ xs) zero c h e =
    let eq : x ≡ c = cc in
    subst (λ y. letter_test y ≡ true) eq (and_left (letter_test x) (all_letters xs) h)
elem-letter_test (x ∷ xs) (suc i) c h e =
    elem-letter_test xs i c (and_right (letter_test x) (all_letters xs) h) e

letter_at-IsLetter : (w c : ℕ) → letter_at w ≡ some c → IsLetter c
unfolding letter_at
letter_at-IsLetter w c e =
    letter_test-IsLetter c (elem-letter_test letter_bytes (w % 2 ^ 6) c refl e)

word_letters-IsLetter : (n w : ℕ) → All IsLetter (word_letters n w)
unfolding word_letters
word_letters-IsLetter zero w = tt
word_letters-IsLetter (suc n) w =
    go (word_letters n (w / 2 ^ 6)) (word_letters-IsLetter n (w / 2 ^ 6)) (letter_at w) refl
  where
    go :
        (rest : Text)
        → All IsLetter rest
        → (v : Option ℕ) → letter_at w ≡ v
        → All IsLetter (elim v as (λ _. Text) [ some c ↦ c ∷ rest | none ↦ rest ])
    go rest h none e = h
    go rest h (some c) e = (letter_at-IsLetter w c e, h)

letters-IsLetter : (words : List ℕ) → All IsLetter (letters words)
unfolding letters
letters-IsLetter [] = tt
letters-IsLetter (w ∷ words) =
    All-append IsLetter (word_letters letter_idx_max w) (letters words)
      (word_letters-IsLetter letter_idx_max w) (letters-IsLetter words)

-- Every slice differs from those behind it.
abbrev pub Unrepeated : List Text → Type 0
Unrepeated [] = Unit
Unrepeated (r ∷ rs) = (has_bytes r rs ≡ false) × Unrepeated rs

-- A slice of `n` letters.
abbrev pub IsSlice : ℕ → Text → Type 0
IsSlice n b = (length b ≡ n) × All IsLetter b

length-reverse : (t : Text) → length (reverse t) ≡ length t
length-reverse [] = refl
length-reverse (x ∷ t) =
    ap length (reverse-cons x t)
    ∙ length-append (reverse t) (x ∷ [])
    ∙ omega (arith, length-reverse t)

rand_bytes-IsSlice : (words : List ℕ) (n : ℕ) (b : Text) → rand_bytes words n ≡ some b → IsSlice n b
rand_bytes-IsSlice words n b e =
    let ls : Text = letters words in
    elim (Bool-cases (leb n (length ls))) [
      | inl enough ↦
          let eq : taken n ls ≡ b = ground (arith, rand_bytes-taken words n, e, enough) in
          subst (IsSlice n) eq (
            length-reverse (take n ls) ∙ length-take-eq n ls (ground (arith, enough)),
            All-reverse IsLetter (take n ls) (All-take IsLetter n ls (letters-IsLetter words)),
          )
      | inr short ↦ absurd (ground (arith, rand_bytes-taken words n, e, short))
    ]

has_bytes-append :
    (r b : Text) (rs : List Text)
    → has_bytes r rs ≡ false
    → same b r ≡ false
    → has_bytes r (rs ++ b ∷ []) ≡ false
unfolding has_bytes
has_bytes-append r b [] h e = ground (arith, e)
has_bytes-append r b (s ∷ rs) h e = ground (arith, h, has_bytes-append r b rs, e)

Unrepeated-append :
    (b : Text) (rs : List Text) → has_bytes b rs ≡ false → Unrepeated rs → Unrepeated (rs ++ b ∷ [])
unfolding has_bytes
Unrepeated-append b [] h u = (refl, tt)
Unrepeated-append b (r ∷ rs) h u = (
  has_bytes-append r b rs u.0 (ground (arith, h, same_iff b r, same_iff r b)),
  Unrepeated-append b rs (ground (arith, h)) u.1,
)

module _ (n k : ℕ) where
  ended :
      (rs out : List Text)
      → Unrepeated rs
      → All (IsSlice n) rs
      → (length rs == k) ≡ true
      → some rs ≡ some out
      → (length out ≡ k) × Unrepeated out × All (IsSlice n) out
  ended rs out u s full e =
      let eq : rs ≡ out = cc in
      subst (λ (r : List Text). (length r ≡ k) × Unrepeated r × All (IsSlice n) r) eq
        ((==_iff (length rs) k).0 full, u, s)

  collect-Unrepeated :
      (sources : List (List ℕ)) (rs out : List Text)
      → Unrepeated rs
      → All (IsSlice n) rs
      → collect sources n k rs ≡ some out
      → (length out ≡ k) × Unrepeated out × All (IsSlice n) out
  unfolding collect
  collect-Unrepeated [] rs out u s e = elim (Bool-cases (length rs == k)) [
    | inl full ↦ ended rs out u s full (ground (arith, e, full))
    | inr more ↦ absurd (ground (arith, e, more))
  ]
  collect-Unrepeated (words ∷ sources) rs out u s e = elim (Bool-cases (length rs == k)) [
    | inl full ↦ ended rs out u s full (ground (arith, e, full))
    | inr more ↦ elim (Option-cases (rand_bytes words n)) [
      | inl endless ↦ absurd (ground (arith, e, more, endless))
      | inr (b, made) ↦ elim (Bool-cases (has_bytes b rs)) [
        | inl known ↦ collect-Unrepeated sources rs out u s (ground (arith, e, more, made, known))
        | inr new ↦
            collect-Unrepeated sources (rs ++ b ∷ []) out (Unrepeated-append b rs new u)
              (All-append (IsSlice n) rs (b ∷ []) s (rand_bytes-IsSlice words n b made, tt))
              (ground (arith, e, more, made, new))
      ]
    ]
  ]

-- When multiRandBytes returns, it returns as many slices as were wanted, no two of them equal, each
-- of as many letters as were wanted.
pub multi_rand_bytes-Unrepeated :
    (sources : List (List ℕ)) (n k : ℕ) (out : List Text)
    → multi_rand_bytes sources n k ≡ some out
    → (length out ≡ k) × Unrepeated out × All (IsSlice n) out
unfolding multi_rand_bytes
multi_rand_bytes-Unrepeated sources n k out e = collect-Unrepeated n k sources [] out tt tt e
