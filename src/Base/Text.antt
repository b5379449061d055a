-- ===== src/Base/Text.antt =====
-- Go's strings as lists of bytes, and what the program uses of the packages `strings`, `sort` and
-- `text/template`. `trim_space` and `to_lower` act on the ASCII characters.
pub mod Laws
pub mod Quoted
use Prim.Native.Nat.{ℕ, zero, suc, ◌+◌, ◌-◌}
use Prim.Native.Char.{code}
use Prim.Native.String.{String}
use mathlib.Core.Bool.{Bool, true, false, ◌&&◌, ◌||◌, not}
use mathlib.Core.List.{List, [], ◌∷◌, ◌++◌, map, reverse}
use mathlib.Core.Option.{Option, none, some}
use etcd_play.Base.Tests.{leb, ◌==◌, if◌then◌else◌}
use etcd_play.Base.Lists.{length, last_or, drop}

abbrev pub Text : Type 0
Text = List ℕ

-- The bytes of a literal.
abbrev pub codes : String → Text
codes String.[] = []
codes (String.◌∷◌ c s) = code c ∷ codes s

-- s == t
unfoldable pub same : Text → Text → Bool
same [] [] = true
same (x ∷ xs) (y ∷ ys) = (x == y) && same xs ys
same _ _ = false

-- strings.HasPrefix, with the prefix first
unfoldable pub starts_with : Text → Text → Bool
starts_with [] s = true
starts_with (p ∷ ps) [] = false
starts_with (p ∷ ps) (x ∷ xs) = (p == x) && starts_with ps xs

-- strings.Contains
unfoldable pub contains : Text → Text → Bool
unfolding starts_with
contains [] sub = starts_with sub []
contains (x ∷ xs) sub = starts_with sub (x ∷ xs) || contains xs sub

-- The pieces between the separators, with the first apart. `skip` bytes of a separator are left.
pieces : Text → ℕ → Text → Text × List Text
pieces sep skip [] = ([], [])
pieces sep (suc skip) (x ∷ xs) = pieces sep skip xs
pieces sep zero (x ∷ xs) = elim (starts_with sep (x ∷ xs)) [
  | true ↦ let (head, rest) = pieces sep (length sep - 1) xs in ([], head ∷ rest)
  | false ↦ let (head, rest) = pieces sep 0 xs in (x ∷ head, rest)
]

-- strings.Split with a separator that is not empty: never an empty slice.
unfoldable pub split : Text → Text → Text × List Text
unfolding pieces starts_with
split s sep = pieces sep 0 s

-- `ss[0]` and `ss[len(ss)-1]` of such a slice
abbrev pub first_piece : Text × List Text → Text
first_piece (head, rest) = head

abbrev pub last_piece : Text × List Text → Text
last_piece (head, rest) = last_or head rest

-- strings.SplitN(s, sep, 2): what follows the first separator, if there is one
unfoldable pub after_first : Text → Text → Option Text
unfolding starts_with
after_first [] sep = if starts_with sep [] then some [] else none
after_first (x ∷ xs) sep =
    if starts_with sep (x ∷ xs) then some (drop (length sep) (x ∷ xs)) else after_first xs sep

-- strings.Replace(s, old, new, n) with an `old` that is not empty; `none` stands for n = -1.
replace_go : Text → Text → ℕ → Option ℕ → Text → Text
replace_go old new skip n [] = []
replace_go old new (suc skip) n (x ∷ xs) = replace_go old new skip n xs
replace_go old new zero (some zero) (x ∷ xs) = x ∷ xs
replace_go old new zero (some (suc n)) (x ∷ xs) = elim (starts_with old (x ∷ xs)) [
  | true ↦ new ++ replace_go old new (length old - 1) (some n) xs
  | false ↦ x ∷ replace_go old new 0 (some (suc n)) xs
]
replace_go old new zero none (x ∷ xs) = elim (starts_with old (x ∷ xs)) [
  | true ↦ new ++ replace_go old new (length old - 1) none xs
  | false ↦ x ∷ replace_go old new 0 none xs
]

unfoldable pub replace : Text → Text → Text → Option ℕ → Text
unfolding replace_go starts_with
replace s old new n = replace_go old new 0 n s

abbrev pub is_space : ℕ → Bool
is_space c = (leb 9 c && leb c 13) || (c == 32)

unfoldable pub trim_left : Text → Text
trim_left [] = []
trim_left (x ∷ xs) = if is_space x then trim_left xs else x ∷ xs

-- strings.TrimSpace
unfoldable pub trim_space : Text → Text
unfolding trim_left
trim_space s = reverse (trim_left (reverse (trim_left s)))

abbrev pub lower : ℕ → ℕ
lower c = if leb b'A' c && leb c b'Z' then c + 32 else c

-- strings.ToLower
abbrev pub to_lower : Text → Text
to_lower = map lower

-- strings.Join
unfoldable pub join : List Text → Text → Text
join [] sep = []
join (x ∷ []) sep = x
join (x ∷ y ∷ rest) sep = x ++ (sep ++ join (y ∷ rest) sep)

-- template.HTMLEscapeString: the replacement of a byte
unfoldable pub escape_byte : ℕ → Text
escape_byte c =
    if c == 34
    then codes "&#34;"
    else if c == 39
    then codes "&#39;"
    else if c == 38
    then codes "&amp;"
    else if c == 60
    then codes "&lt;"
    else if c == 62
    then codes "&gt;"
    else c ∷ []

unfoldable pub html_escape : Text → Text
unfolding escape_byte
html_escape [] = []
html_escape (c ∷ cs) = escape_byte c ++ html_escape cs
