-- ===== src/Proc/Node/Lines.antt =====
-- How NodeWebLocal.Write (proc/node_web_local.go) cuts the output of a process into lines.
use etcd_play.Base.{
  ℕ, ◌≡◌, ◌≢◌, refl, sym, ap, ◌∙◌, true, false, List, [], ◌∷◌, ◌++◌, ◌==◌, All, All-append, arith,
  append_assoc, append-nil, Bool-cases, inl, inr, ==_iff,
}
use etcd_play.Base.Text.{Text}
use etcd_play.Proc.Node.Output.{lines}

abbrev pub Unbroken : Text → Type 0
Unbroken t = All (λ c. c ≢ 10) t

-- A text without a line break, and one.
abbrev pub IsLine : Text → Type 0
IsLine l = (t : Text) × (l ≡ t ++ 10 ∷ []) × Unbroken t

abbrev pub joined : List Text → Text
joined [] = []
joined (l ∷ ls) = l ++ joined ls

-- The lines and the rest are the text, cut behind each line break.
abbrev pub Cuts : Text → List Text → Type 0
Cuts p ls = (rest : Text) × (joined ls ++ rest ≡ p) × Unbroken rest × All IsLine ls

Cuts-line :
    (line cs : Text) (ls : List Text)
    → Unbroken line
    → Cuts cs ls
    → Cuts (line ++ 10 ∷ cs) ((line ++ 10 ∷ []) ∷ ls)
Cuts-line line cs ls whole (rest, e, unbroken, each) = (
  rest,
  append_assoc (line ++ 10 ∷ []) (joined ls) rest
      ∙ ap (λ t. (line ++ 10 ∷ []) ++ t) e
      ∙ append_assoc line (10 ∷ []) cs,
  unbroken,
  ((line, refl, whole), each),
)

lines-break :
    (line cs : Text) (c : ℕ)
    → (c == 10) ≡ true
    → lines line (c ∷ cs) ≡ (line ++ 10 ∷ []) ∷ lines [] cs
unfolding lines
lines-break line cs c e = ground (arith, e)

lines-go_on :
    (line cs : Text) (c : ℕ) → (c == 10) ≡ false → lines line (c ∷ cs) ≡ lines (line ++ c ∷ []) cs
unfolding lines
lines-go_on line cs c e = ground (arith, e)

lines-nil : (line : Text) → lines line [] ≡ []
unfolding lines
lines-nil line = refl

lines-cut : (line p : Text) → Unbroken line → Cuts (line ++ p) (lines line p)
lines-cut line [] whole = rw (lines-nil line, append-nil line) (line, refl, whole, tt)
lines-cut line (c ∷ cs) whole = elim (Bool-cases (c == 10)) [
  | inl breaks ↦
      rw (lines-break line cs c breaks, (==_iff c 10).0 breaks)
        (Cuts-line line cs (lines [] cs) whole (lines-cut [] cs tt))
  | inr goes_on ↦
      rw (lines-go_on line cs c goes_on, sym (append_assoc line (c ∷ []) cs))
        (lines-cut (line ++ c ∷ []) cs
          (All-append (λ b. b ≢ 10) line (c ∷ []) whole (ground (arith, goes_on), tt)))
]

-- The lines into which Write cuts the text that it is given, among them those that it does not send
-- since they hold nothing but the line break, each end in their only line break; together with the
-- rest, which has no line break, they are the whole text in order.
pub lines-Cuts : (p : Text) → Cuts p (lines [] p)
lines-Cuts p = lines-cut [] p tt
