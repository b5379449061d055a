-- ===== src/Backend/Handlers/History.antt =====
-- What keyValueHandler (backend/backend.go) keeps of a user's input: its length, that it holds no
-- HTML markup, and the history of keys.
use etcd_play.Base.{
  ℕ, zero, suc, ◌≤◌, ◌<◌, ◌≡◌, ◌≢◌, refl, sym, ap, true, false, List, [], ◌∷◌, ◌++◌, All,
  All-append, All-take, length, length-append, length-take-le, drop, ltb, arith, Bool-cases, inl,
  inr, if◌then◌else◌,
}
use etcd_play.Base.Text.{Text, codes, same, html_escape, escape_byte}
use etcd_play.Base.Text.Laws.{same_iff}
use etcd_play.Backend.State.{UserData, Request}
use etcd_play.Backend.Cache.{new_user}
use etcd_play.Backend.Handlers.Control.{form_value}
use etcd_play.Backend.Handlers.Values.{
  key_input, value_input, has_key, append_key, pad, trim_history, store_input,
}

-- A byte that neither opens nor closes a tag or an attribute's value.
abbrev pub NotMarkup : ℕ → Type 0
NotMarkup c = (c ≢ 34) × (c ≢ 39) × (c ≢ 60) × (c ≢ 62)

abbrev pub IsPlain : Text → Type 0
IsPlain t = All NotMarkup t

escape_byte-IsPlain : (c : ℕ) → IsPlain (escape_byte c)
unfolding escape_byte
escape_byte-IsPlain c = ground arith

html_escape-IsPlain : (t : Text) → IsPlain (html_escape t)
unfolding html_escape
html_escape-IsPlain [] = tt
html_escape-IsPlain (c ∷ cs) =
    All-append NotMarkup (escape_byte c) (html_escape cs) (escape_byte-IsPlain c)
      (html_escape-IsPlain cs)

-- No key stands twice.
abbrev pub Unrepeated : List Text → Type 0
Unrepeated [] = Unit
Unrepeated (k ∷ ks) = All (λ j. j ≢ k) ks × Unrepeated ks

-- What holds of a user's data between requests.
pub record IsClean (u : UserData) : Type 0 where
  pub few : length u.key_history ≤ 7
  pub unrepeated : Unrepeated u.key_history
  pub plain : All IsPlain u.key_history
  pub key_short : length u.last_key ≤ 100
  pub key_plain : IsPlain u.last_key
  pub value_short : length u.last_value ≤ 200
  pub value_plain : IsPlain u.last_value

has_key-no : (k : Text) (hs : List Text) → has_key k hs ≡ false → All (λ j. j ≢ k) hs
unfolding has_key
has_key-no k [] h = tt
has_key-no k (v ∷ vs) h =
    (ground (arith, same_iff v k), has_key-no k vs (ground (arith, same_iff v k)))

All-ne-end :
    (k j : Text) (ks : List Text) → All (λ i. i ≢ j) ks → k ≢ j → All (λ i. i ≢ j) (ks ++ k ∷ [])
All-ne-end k j ks a h = All-append (λ i. i ≢ j) ks (k ∷ []) a (h, tt)

Unrepeated-end :
    (k : Text) (ks : List Text) → Unrepeated ks → All (λ j. j ≢ k) ks → Unrepeated (ks ++ k ∷ [])
Unrepeated-end k [] u a = (tt, tt)
Unrepeated-end k (j ∷ ks) u a =
    (All-ne-end k j ks u.0 (λ e. a.0 (sym e)), Unrepeated-end k ks u.1 a.1)

-- What the history is before it is cut.
append_key-keeps :
    (k : Text) (hs : List Text)
    → length hs ≤ 7
    → Unrepeated hs
    → All IsPlain hs
    → IsPlain k
    → (length (append_key k hs) ≤ 8) × Unrepeated (append_key k hs) × All IsPlain (append_key k hs)
append_key-keeps k hs few u p pk = elim (Bool-cases (same k [])) [
  | inl e ↦ unfold append_key in (rw e (omega arith, u, p))
  | inr e ↦ elim (Bool-cases (has_key k hs)) [
    | inl known ↦ unfold append_key in (rw (e, known) (omega arith, u, p))
    | inr new ↦
        unfold append_key in
        (rw (e, new)
          (
            omega (arith, length-append hs (k ∷ [])),
            Unrepeated-end k hs u (has_key-no k hs new),
            All-append IsPlain hs (k ∷ []) p (pk, tt),
          ))
  ]
]

pad-exact : (n : ℕ) (xs : List Text) → length xs ≡ n → pad n xs ≡ xs
pad-exact zero [] h = refl
pad-exact zero (x ∷ xs) h = absurd (omega arith)
pad-exact (suc n) [] h = absurd (omega arith)
pad-exact (suc n) (x ∷ xs) h = ap (◌∷◌ x) (pad-exact n xs (omega arith))

-- Eight keys lose the oldest, fewer none.
trim_history-eight :
    (hs : List Text)
    → length hs ≤ 8
    → (trim_history hs ≡ (if ltb 7 (length hs) then drop 1 hs else hs))
trim_history-eight hs h = elim (Bool-cases (ltb 7 (length hs))) [
  | inl long ↦ unfold trim_history in (rw long (pad-exact 7 (drop 1 hs) (seven hs h long)))
  | inr short ↦ unfold trim_history in (rw short)
]
  where
    seven : (hs : List Text) → length hs ≤ 8 → ltb 7 (length hs) ≡ true → length (drop 1 hs) ≡ 7
    seven [] h l = ground arith
    seven (x ∷ xs) h l = ground arith

dropped-keeps :
    (hs : List Text)
    → length hs ≤ 8
    → Unrepeated hs
    → All IsPlain hs
    → (length (trim_history hs) ≤ 7) × Unrepeated (trim_history hs) × All IsPlain (trim_history hs)
dropped-keeps [] h u p = rw (trim_history-eight [] h) (omega arith, tt, tt)
dropped-keeps (x ∷ xs) h u p = elim (Bool-cases (ltb 7 (length (x ∷ xs)))) [
  | inl long ↦ rw (trim_history-eight (x ∷ xs) h, long) (omega arith, u.1, p.1)
  | inr short ↦ rw (trim_history-eight (x ∷ xs) h, short) (ground arith, u, p)
]

key_input-clean : (r : Request) → (length (key_input r) ≤ 100) × IsPlain (key_input r)
unfolding key_input
key_input-clean r =
    let raw : Text = form_value r (codes "key_input") in
    (
      length-take-le 100 (html_escape raw),
      All-take NotMarkup 100 (html_escape raw) (html_escape-IsPlain raw),
    )

value_input-clean : (r : Request) → (length (value_input r) ≤ 200) × IsPlain (value_input r)
unfolding value_input
value_input-clean r =
    let raw : Text = form_value r (codes "value_input") in
    (
      length-take-le 200 (html_escape raw),
      All-take NotMarkup 200 (html_escape raw) (html_escape-IsPlain raw),
    )

pub new_user-IsClean : (now : ℕ) → IsClean (new_user now)
new_user-IsClean now = record {
  few = omega arith;
  unrepeated = (tt, tt);
  plain = omega arith;
  key_short = omega arith;
  key_plain = tt;
  value_short = omega arith;
  value_plain = tt;
}

-- Whatever a user posts, if the stored data were clean they are so again: the stored key has at
-- most 100 bytes, the value at most 200, the history at most seven different keys, and none of them
-- holds a quote or an angle bracket.
pub store_input-IsClean : (r : Request) (u : UserData) → IsClean u → IsClean (store_input r u)
unfolding store_input
store_input-IsClean r u c =
    let (ks, kp) = key_input-clean r in
    let (vs, vp) = value_input-clean r in
    let (l, d, p) = append_key-keeps (key_input r) u.key_history c.few c.unrepeated c.plain kp in
    let (l', d', p') = dropped-keeps (append_key (key_input r) u.key_history) l d p in
    record {
      few = l';
      unrepeated = d';
      plain = p';
      key_short = ks;
      key_plain = kp;
      value_short = vs;
      value_plain = vp;
    }

has_key-end : (k : Text) (ks : List Text) → has_key k (ks ++ k ∷ []) ≡ true
unfolding has_key
has_key-end k [] = ground (arith, same_iff k k)
has_key-end k (j ∷ ks) = ground (arith, has_key-end k ks)

has_key-drop :
    (k : Text) (ks : List Text) → 0 < length ks → has_key k (drop 1 (ks ++ k ∷ [])) ≡ true
has_key-drop k [] h = absurd (omega arith)
has_key-drop k (j ∷ ks) h = has_key-end k ks

trim_history-has_key :
    (k : Text) (hs : List Text) → length hs ≤ 7 → has_key k (trim_history (hs ++ k ∷ [])) ≡ true
trim_history-has_key k hs few =
    let n = length-append hs (k ∷ []) in
    elim (Bool-cases (ltb 7 (length (hs ++ k ∷ [])))) [
      | inl long ↦
          rw (trim_history-eight (hs ++ k ∷ []) (omega arith), long)
            (has_key-drop k hs (ground (arith, n)))
      | inr short ↦ rw (trim_history-eight (hs ++ k ∷ []) (omega arith), short) (has_key-end k hs)
    ]

trim_history-few : (hs : List Text) → length hs ≤ 7 → trim_history hs ≡ hs
unfolding trim_history
trim_history-few hs few = ground arith

-- A key that is not empty is in the history once it has been posted.
pub store_input-has_key :
    (r : Request) (u : UserData)
    → length u.key_history ≤ 7
    → key_input r ≢ []
    → has_key (key_input r) (store_input r u).key_history ≡ true
unfolding store_input append_key
store_input-has_key r u few ne =
    let k : Text = key_input r in
    let hs : List Text = u.key_history in
    elim (Bool-cases (has_key k hs)) [
      | inl known ↦ ground (arith, same_iff k [], known, trim_history-few hs few)
      | inr new ↦ ground (arith, same_iff k [], new, trim_history-has_key k hs few)
    ]
