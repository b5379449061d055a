-- ===== src/Proc/Flags/Generate.antt =====
-- What GenerateFlags gives each node (proc/flags.go): its two ports.
use etcd_play.Base.{
  ℕ, ◌+◌, ◌-◌, ◌*◌, ◌≡◌, ◌≢◌, refl, ap, sym, ◌∙◌, Bool, true, false, [], ◌∷◌, ◌++◌, map,
  append_assoc, All, All-append, length, length-append, if◌then◌else◌, arith,
}
use etcd_play.Base.Text.{Text, codes, same, join, split, first_piece, trim_space}
use etcd_play.Base.Text.Laws.{
  same_iff, same-append, last_piece-split, trim_space-NotSpace, NotSpace, first_piece-split,
}
use etcd_play.Base.Sort.{sort, le_text, le_text-append}
use etcd_play.Base.Decimal.{
  decimal, decimal-digits, IsDigit, value_from, value_from-append, value-decimal,
}
use etcd_play.Proc.Flags.{generate_flags, get_all_ports, port_key, port_of, node_url, add_ports}

-- The port prefix that a call uses.
abbrev pub prefix_of : Bool → ℕ → ℕ
prefix_of remote prefix = if remote then 23 else prefix

abbrev client_port : ℕ → Text
client_port p = decimal p ++ codes "79"

abbrev peer_port : ℕ → Text
peer_port p = decimal p ++ codes "80"

digit-ne_colon : (t : Text) → All IsDigit t → All (λ x. x ≢ 58) t
digit-ne_colon [] h = tt
digit-ne_colon (x ∷ t) h = ((λ e. omega (arith, h.0)), digit-ne_colon t h.1)

digit-NotSpace : (t : Text) → All IsDigit t → All NotSpace t
digit-NotSpace [] h = tt
digit-NotSpace (x ∷ t) h = (ground (arith, h.0), digit-NotSpace t h.1)

port-digits : (p : ℕ) (s : Text) → All IsDigit s → All IsDigit (decimal p ++ s)
port-digits p s h = All-append IsDigit (decimal p) s (decimal-digits p) h

-- The port of a node's URL is what follows the host's colon, whatever the host.
port_of-node_url :
    (hs : Text) (p : ℕ) (s : Text) → All IsDigit s → port_of (node_url hs p s) ≡ decimal p ++ s
unfolding node_url
port_of-node_url hs p s h =
    let digits = port-digits p s h in
    ap port_of (sym (append_assoc (codes "http://") hs (58 ∷ (decimal p ++ s))))
    ∙ (ap trim_space (last_piece-split 58 (codes "http://" ++ hs) _ (digit-ne_colon _ digits))
        ∙ trim_space-NotSpace _ (digit-NotSpace _ digits))

ports_differ : (p : ℕ) → same (client_port p) (peer_port p) ≡ false
ports_differ p = same-append (decimal p) (codes "79") (codes "80") ∙ (unfold same in refl)

ports_sorted : (p : ℕ) → le_text (client_port p) (peer_port p) ≡ true
ports_sorted p = le_text-append (decimal p) (codes "79") (codes "80") ∙ (unfold le_text in refl)

two_ports :
    (c p a b : Text)
    → port_of c ≡ a
    → port_of p ≡ b
    → same a b ≡ false
    → add_ports (add_ports (add_ports (add_ports [] (c ∷ [])) (c ∷ [])) (p ∷ [])) (p ∷ [])
      ≡ a ∷ b ∷ []
unfolding add_ports
two_ports c p a b ea eb ne = rw (ea, eb) (ground (arith, same_iff a a, same_iff b b, ne))

-- `%d79` and `%d80` are the only ports of a node, in this order.
pub get_all_ports-generate_flags :
    (name host : Text) (remote : Bool) (prefix : ℕ)
    → let p = prefix_of remote prefix in
      get_all_ports (generate_flags name host remote prefix).0 ≡ client_port p ∷ peer_port p ∷ []
unfolding get_all_ports generate_flags sort
get_all_ports-generate_flags name host remote prefix =
    let p : ℕ = prefix_of remote prefix in
    let hs : Text = if same host [] then codes "localhost" else host in
    ap sort (
      two_ports (node_url hs p (codes "79")) (node_url hs p (codes "80")) (client_port p)
        (peer_port p) (port_of-node_url hs p (codes "79") (omega arith))
        (port_of-node_url hs p (codes "80") (omega arith)) (ports_differ p))
    ∙ ground (arith, ports_sorted p)

value-two_digits :
    (s : Text) (a b : ℕ)
    → value_from 0 (s ++ a ∷ b ∷ []) ≡ 10 * (10 * value_from 0 s + (a - 48)) + (b - 48)
value-two_digits s a b =
    ap (value_from 0) (sym (append_assoc s (a ∷ []) (b ∷ [])))
    ∙ omega (arith, value_from-append 0 (s ++ a ∷ []) b, value_from-append 0 s a)

client_port-value : (p : ℕ) → value_from 0 (client_port p) ≡ 100 * p + 79
client_port-value p = omega (arith, value-two_digits (decimal p) 55 57, value-decimal p)

peer_port-value : (p : ℕ) → value_from 0 (peer_port p) ≡ 100 * p + 80
peer_port-value p = omega (arith, value-two_digits (decimal p) 56 48, value-decimal p)

-- The ports of generated flags, read as numbers, are 100 times the prefix plus 79 and plus 80, where
-- the prefix is 23 for a remote node and the global counter for a local one.
pub port_numbers :
    (name host : Text) (remote : Bool) (prefix : ℕ)
    → let p = prefix_of remote prefix in
      map (value_from 0) (get_all_ports (generate_flags name host remote prefix).0)
      ≡ (100 * p + 79) ∷ (100 * p + 80) ∷ []
port_numbers name host remote prefix =
    let p : ℕ = prefix_of remote prefix in
    ap (map (value_from 0)) (get_all_ports-generate_flags name host remote prefix)
    ∙ rw (client_port-value p, peer_port-value p)

abbrev key_of : ℕ → Text
key_of p = client_port p ++ (codes "___" ++ peer_port p)

pub port_key-generate_flags :
    (name host : Text) (remote : Bool) (prefix : ℕ)
    → port_key (generate_flags name host remote prefix).0 ≡ key_of (prefix_of remote prefix)
unfolding join
port_key-generate_flags name host remote prefix =
    ap (λ ports. join ports (codes "___")) (get_all_ports-generate_flags name host remote prefix)

digit-ne_bar : (t : Text) → All IsDigit t → All (λ x. x ≢ 95) t
digit-ne_bar [] h = tt
digit-ne_bar (x ∷ t) h = ((λ e. omega (arith, h.0)), digit-ne_bar t h.1)

key_of-first : (p : ℕ) → first_piece (split (key_of p) (codes "_")) ≡ client_port p
key_of-first p =
    first_piece-split 95 (client_port p) _
      (digit-ne_bar _ (port-digits p (codes "79") (omega arith)))

-- Local nodes have the same key only if they were given the same prefix.
pub port_key_injective :
    (name name' host host' : Text) (p p' : ℕ)
    → port_key (generate_flags name host false p).0
      ≡ port_key (generate_flags name' host' false p').0
    → p ≡ p'
port_key_injective name name' host host' p p' e =
    let keys : key_of p ≡ key_of p' =
      sym (port_key-generate_flags name host false p)
      ∙ e
      ∙ port_key-generate_flags name' host' false p' in
    let ports : client_port p ≡ client_port p' =
      sym (key_of-first p) ∙ ap (λ k. first_piece (split k (codes "_"))) keys ∙ key_of-first p' in
    omega (arith, ap (value_from 0) ports, client_port-value p, client_port-value p')

pub port_key-ne_nil :
    (name host : Text) (remote : Bool) (prefix : ℕ)
    → port_key (generate_flags name host remote prefix).0 ≢ []
port_key-ne_nil name host remote prefix e =
    let p : ℕ = prefix_of remote prefix in
    omega (
      arith,
      ap length (sym (port_key-generate_flags name host remote prefix) ∙ e),
      length-append (client_port p) (codes "___" ++ peer_port p),
    )
