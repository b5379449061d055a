-- ===== src/Proc/Node/Output.antt =====
-- NodeWebLocal.Write (proc/node_web_local.go): the process writes its output to the node, which
-- sends it to the log stream line by line.
use etcd_play.Base.{
  ℕ, ◌+◌, ◌<◌, ◌≤◌, ◌≡◌, ◌≢◌, refl, sym, ap, subst, ◌∙◌, true, false, List, [], ◌∷◌, ◌++◌, ltb,
  length, ◌==◌, All, arith, append_assoc, append-nil, length-append, lt→ltb, Bool-cases, inl, inr,
  if◌then◌else◌,
}
use etcd_play.Base.Text.{Text}
use etcd_play.Base.Outcome.{
  Outcome, done, blocked, panicked, M, ◌>>=◌, ◌>>◌, pure, get, Returns, state_of,
}
use etcd_play.Proc.Message.{Message, output}
use etcd_play.Proc.Node.Local.{NodeWebLocal, World, send, stream_cap, put_stream}

-- The results of buf.ReadBytes('\n') before io.EOF: `line` is what has been read of one.
unfoldable pub lines : Text → Text → List Text
lines line [] = []
lines line (c ∷ cs) = elim (c == 10) [
  | true ↦ (line ++ 10 ∷ []) ∷ lines [] cs
  | false ↦ lines (line ++ c ∷ []) cs
]

-- fmt.Sprintf(format, nd.Flags.Name, line)
abbrev pub output_of : NodeWebLocal → Text → Message
output_of nd line = output nd.max_proc_name_length nd.color_idx nd.flags.name line

unfoldable pub send_lines : List Text → M World (Unit {0})
unfolding send
send_lines [] = pure tt
send_lines (line ∷ rest) = do
  w ← get
  elim (ltb 1 (length line)) [ true ↦ send (output_of w.node line) | false ↦ pure tt ]
  send_lines rest

-- Write; reading from a buffer gives no error but io.EOF.
unfoldable pub write : Text → M World ℕ
unfolding lines send_lines
write p = do send_lines (lines [] p); pure (length p)

-- The messages of the lines that are more than a line break.
abbrev pub shown : NodeWebLocal → List Text → List Message
shown nd [] = []
shown nd (line ∷ rest) =
    if ltb 1 (length line) then output_of nd line ∷ shown nd rest else shown nd rest

abbrev follow : List Text → Outcome World (Unit {0}) → Outcome World (Unit {0})
follow rest r = elim r [
  | done a w ↦ send_lines rest w
  | blocked w ↦ blocked w
  | panicked w ↦ panicked w
]

send-room :
    (m : Message) (w : World)
    → length w.shared.stream < stream_cap
    → send m w ≡ done tt (put_stream (w.shared.stream ++ m ∷ []) w)
unfolding send
send-room m w free = ground (arith, lt→ltb (length w.shared.stream) stream_cap free)

abbrev bound : ℕ → Outcome World (Unit {0}) → Outcome World ℕ
bound n r = elim r [ done a w ↦ done n w | blocked w ↦ blocked w | panicked w ↦ panicked w ]

send_lines-shown :
    (ls : List Text) (w : World)
    → length w.shared.stream + length ls ≤ stream_cap
    → send_lines ls w ≡ done tt (put_stream (w.shared.stream ++ shown w.node ls) w)
unfolding send_lines
send_lines-shown [] w room = ap (λ ms. done tt (put_stream ms w)) (sym (append-nil w.shared.stream))
send_lines-shown (line ∷ rest) w room = elim (Bool-cases (ltb 1 (length line))) [
  | inl long ↦
      let m : Message = output_of w.node line in
      let ms : List Message = w.shared.stream ++ m ∷ [] in
      let free : length w.shared.stream < stream_cap = omega arith in
      rw long (
        ap (follow rest) (send-room m w free)
        ∙ send_lines-shown rest (put_stream ms w)
            (omega (arith, length-append w.shared.stream (m ∷ [])))
        ∙ ap (λ ns. done tt (put_stream ns w))
            (append_assoc w.shared.stream (m ∷ []) (shown w.node rest)))
  | inr short ↦ rw short (send_lines-shown rest w (omega arith))
]

-- When the log stream has room for every line, Write returns the number of all bytes, and the stream
-- gains the complete lines that are longer than their line break, in order; nothing else changes.
pub write-shown :
    (p : Text) (w : World)
    → length w.shared.stream + length (lines [] p) ≤ stream_cap
    → Returns (write p w) (λ n w'.
      (n ≡ length p) × (w' ≡ put_stream (w.shared.stream ++ shown w.node (lines [] p)) w))
unfolding write
write-shown p w room =
    subst
      (λ r. Returns (bound (length p) r) (λ n w'.
        (n ≡ length p) × (w' ≡ put_stream (w.shared.stream ++ shown w.node (lines [] p)) w)))
      (sym (send_lines-shown (lines [] p) w room)) (refl, refl)

lines-rest : (line rest : Text) → All (λ c. c ≢ 10) rest → lines line rest ≡ []
unfolding lines
lines-rest line [] h = refl
lines-rest line (c ∷ cs) h = ground (arith, h.0, lines-rest (line ++ c ∷ []) cs h.1)

lines-append :
    (line p rest : Text)
    → All (λ c. c ≢ 10) rest
    → lines line (p ++ 10 ∷ rest) ≡ lines line (p ++ 10 ∷ [])
unfolding lines
lines-append line [] rest h = ap (◌∷◌ (line ++ 10 ∷ [])) (lines-rest [] rest h)
lines-append line (c ∷ cs) rest h =
    ground (arith, lines-append [] cs rest h, lines-append (line ++ c ∷ []) cs rest h)

bound-state : (n m : ℕ) (r : Outcome World (Unit {0})) → state_of (bound n r) ≡ state_of (bound m r)
bound-state n m (done a w) = refl
bound-state n m (blocked w) = refl
bound-state n m (panicked w) = refl

-- What stands behind the last line break of a call of Write never reaches the log stream, though
-- Write counts it as written: the call leaves behind what it would without these bytes.
pub write_drops_rest :
    (p rest : Text) (w : World)
    → All (λ c. c ≢ 10) rest
    → state_of (write (p ++ 10 ∷ rest) w) ≡ state_of (write (p ++ 10 ∷ []) w)
unfolding write
write_drops_rest p rest w h =
    bound-state (length (p ++ 10 ∷ rest)) (length (p ++ 10 ∷ []))
      (send_lines (lines [] (p ++ 10 ∷ rest)) w)
    ∙ ap (λ ls. state_of (bound (length (p ++ 10 ∷ [])) (send_lines ls w)))
        (lines-append [] p rest h)
