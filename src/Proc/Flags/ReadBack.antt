-- ===== src/Proc/Flags/ReadBack.antt =====
-- getPairValueByName (proc/flags.go) reads what String has written.
use mathlib.Core.List.{append_assoc}
use etcd_play.Base.{
  ℕ, ◌≡◌, ◌≢◌, refl, sym, ap, ◌∙◌, Bool, true, false, List, [], ◌∷◌, ◌++◌, Option, none, some, All,
  All-append, arith, if◌then◌else◌,
}
use etcd_play.Base.Lists.{last_or}
use etcd_play.Base.Text.{
  Text, codes, same, starts_with, split, first_piece, after_first, trim_space,
}
use etcd_play.Base.Text.Quoted.{
  Unquoted, ends_in, after_first-quote, first_piece-quote, first_piece-last, ends_in-dashes,
  ends_in-equals, trim_space-command,
}
use etcd_play.Proc.Error.{Result, ok, err}
use etcd_play.Proc.Flags.Tags.{IsTag, Tagged, pairs-Tagged, get_tag-Unquoted}
use etcd_play.Proc.Flags.{Flags, get_tag, pairs, buffer_of, string, get_pair_value_by_name}

-- A value that String can show: no quote, and no "=" at its end.
abbrev pub IsPlain : Text → Type 0
IsPlain v = Unquoted v × (last_or 0 v ≢ 61)

abbrev pub PlainPairs : List (Text × Text) → Type 0
PlainPairs = All (λ p. IsPlain p.1)

-- What a reader finds: a pair's value, to which the last pair's quote clings.
abbrev pub shown : Text → List (Text × Text) → Text
shown tag [] = []
shown tag ((t, v) ∷ []) = if same tag t then trim_space (v ++ 39 ∷ []) else []
shown tag ((t, v) ∷ p ∷ rest) = if same tag t then trim_space v else shown tag (p ∷ rest)

-- String without its last blank.
abbrev command_line : List (Text × Text) → Text
command_line [] = []
command_line ((t, v) ∷ []) = 45 ∷ 45 ∷ (t ++ 61 ∷ 39 ∷ (v ++ 39 ∷ []))
command_line ((t, v) ∷ p ∷ rest) =
    45 ∷ 45 ∷ (t ++ 61 ∷ 39 ∷ (v ++ 39 ∷ 32 ∷ command_line (p ∷ rest)))

abbrev key : Text → Text
key tag = 45 ∷ 45 ∷ (tag ++ 61 ∷ [])

-- A pair, its key put together.
key-append : (t rest : Text) → 45 ∷ 45 ∷ (t ++ 61 ∷ rest) ≡ key t ++ rest
key-append t rest = ap (λ u. 45 ∷ 45 ∷ u) (sym (append_assoc t (61 ∷ []) rest))

key-Unquoted : (t : Text) → Unquoted t → Unquoted (key t)
key-Unquoted t h = (
  λ e. omega (arith, e),
  (λ e. omega (arith, e), All-append (λ x. x ≢ 39) t (61 ∷ []) h (λ e. omega (arith, e), tt)),
)

same-nil-end : (t : Text) (c : ℕ) → same [] (t ++ c ∷ []) ≡ false
unfolding same
same-nil-end [] c = refl
same-nil-end (x ∷ t) c = refl

same-end_nil : (t : Text) (c : ℕ) → same (t ++ c ∷ []) [] ≡ false
unfolding same
same-end_nil [] c = refl
same-end_nil (x ∷ t) c = refl

same-end : (s t : Text) (c : ℕ) → same (s ++ c ∷ []) (t ++ c ∷ []) ≡ same s t
unfolding same
same-end [] [] c = ground arith
same-end [] (y ∷ t) c = ground (arith, same-nil-end t c)
same-end (x ∷ s) [] c = ground (arith, same-end_nil s c)
same-end (x ∷ s) (y ∷ t) c = ground (arith, same-end s t c)

-- A pair's key ends in the key that is looked for just when the tags agree.
ends_in-key : (tag t : Text) → IsTag t → ends_in (key tag) (key t) ≡ same tag t
unfolding ends_in same
ends_in-key tag t h =
    ground (arith, same-end tag t 61, ends_in-dashes (tag ++ 61 ∷ []) (45 ∷ (t ++ 61 ∷ [])) h.1)

ends_in-value : (tag v : Text) → IsPlain v → ends_in (key tag) v ≡ false
ends_in-value tag v h = ends_in-equals (45 ∷ 45 ∷ tag) v 0 h.1

-- What is read behind the separator.
abbrev read : Option Text → Text
read none = []
read (some rest) = trim_space (first_piece (split rest (codes "' ")))

-- The search passes one pair: it stops behind the key, or goes on behind the value.
search-pair :
    (tag t v rest : Text)
    → Unquoted tag
    → IsTag t
    → IsPlain v
    → after_first (45 ∷ 45 ∷ (t ++ 61 ∷ 39 ∷ (v ++ 39 ∷ rest))) (key tag ++ 39 ∷ [])
      ≡ (if same tag t then some (v ++ 39 ∷ rest) else after_first rest (key tag ++ 39 ∷ []))
search-pair tag t v rest htag ht hv =
    let sep : Text = key tag ++ 39 ∷ [] in
    let q = key-Unquoted tag htag in
    let first = after_first-quote (key tag) (key t) (v ++ 39 ∷ rest) q (key-Unquoted t ht.0) in
    let second = after_first-quote (key tag) v rest q hv.0 in
    ap (λ u. after_first u sep) (key-append t (39 ∷ (v ++ 39 ∷ rest)))
    ∙ first
    ∙ rw (ends_in-key tag t ht, second, ends_in-value tag v hv) refl

search-nil : (q : Text) → after_first [] (45 ∷ q) ≡ none
unfolding after_first starts_with
search-nil q = refl

search-blank : (q u : Text) → after_first (32 ∷ u) (45 ∷ q) ≡ after_first u (45 ∷ q)
unfolding after_first starts_with
search-blank q u = refl

read-last :
    (b : Bool) (v : Text)
    → Unquoted v
    → read (if b then some (v ++ 39 ∷ []) else none) ≡ (if b then trim_space (v ++ 39 ∷ []) else [])
read-last true v h = ap trim_space (first_piece-last v h)
read-last false v h = refl

read-more :
    (b : Bool) (v line found q : Text)
    → Unquoted v
    → read (after_first line (45 ∷ q)) ≡ found
    → read (if b then some (v ++ 39 ∷ 32 ∷ line) else after_first (32 ∷ line) (45 ∷ q))
      ≡ (if b then trim_space v else found)
read-more true v line found q h e = ap trim_space (first_piece-quote v line h)
read-more false v line found q h e = rw (search-blank q line) e

read-shown :
    (tag : Text) (ps : List (Text × Text))
    → Unquoted tag
    → Tagged ps
    → PlainPairs ps
    → read (after_first (command_line ps) (key tag ++ 39 ∷ [])) ≡ shown tag ps
read-shown tag [] htag ht hv = rw (search-nil _) refl
read-shown tag ((t, v) ∷ []) htag ht hv =
    rw (search-pair tag t v [] htag ht.0 hv.0, search-nil _) (read-last (same tag t) v hv.0.0)
read-shown tag ((t, v) ∷ p ∷ ps) htag ht hv =
    let line : Text = command_line (p ∷ ps) in
    let found : Text = shown tag (p ∷ ps) in
    ap read (search-pair tag t v (32 ∷ line) htag ht.0 hv.0)
    ∙ read-more (same tag t) v line found _ hv.0.0 (read-shown tag (p ∷ ps) htag ht.1 hv.1)

pair-append :
    (t v u w : Text)
    → 45 ∷ 45 ∷ (t ++ 61 ∷ 39 ∷ (v ++ (u ++ w))) ≡ 45 ∷ 45 ∷ ((t ++ 61 ∷ 39 ∷ (v ++ u)) ++ w)
pair-append t v u w =
    ap (λ x. 45 ∷ 45 ∷ (t ++ 61 ∷ 39 ∷ x)) (sym (append_assoc v u w))
    ∙ ap (λ x. 45 ∷ 45 ∷ x) (sym (append_assoc t (61 ∷ 39 ∷ (v ++ u)) w))

-- What String trims.
line-end :
    (p : Text × Text) (ps : List (Text × Text))
    → (c : Text) × (buffer_of (p ∷ ps) ≡ 45 ∷ (c ++ 39 ∷ 32 ∷ []))
      × (command_line (p ∷ ps) ≡ 45 ∷ (c ++ 39 ∷ []))
line-end (t, v) [] = (
  45 ∷ (t ++ 61 ∷ 39 ∷ (v ++ [])),
  pair-append t v [] (39 ∷ 32 ∷ []),
  pair-append t v [] (39 ∷ []),
)
line-end (t, v) (p ∷ ps) =
    let (c, b, l) = line-end p ps in
    let line : Text → Text = λ u. 45 ∷ 45 ∷ (t ++ 61 ∷ 39 ∷ (v ++ 39 ∷ 32 ∷ u)) in
    (
      45 ∷ (t ++ 61 ∷ 39 ∷ (v ++ 39 ∷ 32 ∷ 45 ∷ c)),
      ap line b ∙ pair-append t v (39 ∷ 32 ∷ 45 ∷ c) (39 ∷ 32 ∷ []),
      ap line l ∙ pair-append t v (39 ∷ 32 ∷ 45 ∷ c) (39 ∷ []),
    )

trimmed : (ps : List (Text × Text)) → trim_space (buffer_of ps) ≡ command_line ps
unfolding trim_space
trimmed [] = refl
trimmed (p ∷ ps) = let (c, b, l) = line-end p ps in ap trim_space b ∙ trim_space-command c ∙ sym l

read-elim :
    (o : Option Text)
    → elim o as (λ _. Text) [
      | none ↦ []
      | some rest ↦ trim_space (first_piece (split rest (codes "' ")))
    ]
      ≡ read o
read-elim none = refl
read-elim (some rest) = refl

-- getPairValueByName, from the command line that String gives, of the name of a field of Flags:
-- when no value has a quote in it or "=" at its end, it is the value of the field's pair without the
-- blanks around it, or the empty text if there is no such pair. To the value of the last pair clings
-- the quote behind it, since String has trimmed the blank that the search looks for.
pub get_pair_value_by_name-string :
    (f : Flags) (fn tag text : Text) (ps : List (Text × Text))
    → pairs f ≡ ok ps
    → string f ≡ ok text
    → get_tag fn ≡ ok tag
    → PlainPairs ps
    → get_pair_value_by_name fn text ≡ shown tag ps
unfolding string get_pair_value_by_name
get_pair_value_by_name-string f fn tag text ps e e' found plain =
    let line : text ≡ command_line ps = shown_text ps (rw e at e') in
    let htag = get_tag-Unquoted fn tag found in
    with_tag text (get_tag fn) found
    ∙ rw line (
        ap (λ sep. read (after_first (command_line ps) sep)) (key-append tag (39 ∷ []))
        ∙ read-shown tag ps htag (pairs-Tagged f ps e) plain)
  where
    with_tag :
        (t : Text) (r : Result Text)
        → r ≡ ok tag
        → elim (after_first t
              (45 ∷ 45 ∷ (elim r as (λ _. Text) [ ok t ↦ t | err _ ↦ [] ] ++ 61 ∷ 39 ∷ [])))
            as (λ _. Text) [
              | none ↦ []
              | some rest ↦ trim_space (first_piece (split rest (codes "' ")))
            ]
          ≡ read (after_first t (45 ∷ 45 ∷ (tag ++ 61 ∷ 39 ∷ [])))
    with_tag t (ok u) h = let eq : u ≡ tag = cc in rw eq (read-elim _)
    with_tag t (err x) h = cc

    shown_text :
        (qs : List (Text × Text))
        → ok (trim_space (buffer_of qs)) ≡ ok text
        → text ≡ command_line qs
    shown_text qs h = let eq : trim_space (buffer_of qs) ≡ text = cc in sym eq ∙ trimmed qs
