-- ===== src/Backend/UserId/Length.antt =====
-- What the rest of the program relies on in a user's id and in the names of nodes
-- (backend/utils_id.go, backend/utils_backend.go).
use etcd_play.Base.{
  ℕ, ◌≤◌, ◌≡◌, ◌≢◌, ap, [], ◌∷◌, ◌++◌, length, length-append, length-take-eq, take, arith, All,
}
use etcd_play.Base.Text.{Text, codes}
use etcd_play.Base.Text.Laws.{last_piece-split}
use etcd_play.Base.Decimal.{decimal, decimal-digits, IsDigit}
use etcd_play.Backend.UserId.{
  Origin, base64, hash_sha512, get_user_id, address, simple_ua, url_to_name,
}

-- Base64 text is not shorter than what it encodes.
base64-length : (s : Text) → length s ≤ length (base64 s)
unfolding base64
base64-length [] = omega arith
base64-length (a ∷ []) = omega arith
base64-length (a ∷ b ∷ []) = omega arith
base64-length (a ∷ b ∷ c ∷ rest) = omega (arith, base64-length rest)

module _ (sha512 : Text → Text) (digest : (s : Text) → length (sha512 s) ≡ 64) where
  -- The slice `[:15]` of the hash is never out of range.
  pub hash_sha512-length : (s : Text) → 15 ≤ length (hash_sha512 sha512 s)
  unfolding hash_sha512
  hash_sha512-length s = omega (arith, digest s, base64-length (sha512 s))

  -- When digests have 64 bytes, the hash of every text is long enough for the slice `[:15]`, and
  -- every user id has at least 15 bytes.
  pub get_user_id-length : (o : Origin) → 15 ≤ length (get_user_id sha512 o)
  unfolding get_user_id
  get_user_id-length o =
      let ip : Text = address o in
      let hash : Text = hash_sha512 sha512 (ip ++ o.user_agent) in
      omega (
        arith,
        length-append ip (simple_ua o.user_agent ++ take 15 hash),
        length-append (simple_ua o.user_agent) (take 15 hash),
        length-take-eq 15 hash (hash_sha512-length (ip ++ o.user_agent)),
      )

digit-ne_bar : (t : Text) → All IsDigit t → All (λ x. x ≢ 95) t
digit-ne_bar [] h = tt
digit-ne_bar (x ∷ t) h = ((λ e. omega (arith, h.0)), digit-ne_bar t h.1)

-- A URL that ends in "_" and a number names the node "etcd" with that number, whatever stands before
-- and whatever bars that holds.
pub url_to_name-number :
    (s : Text) (n : ℕ) → url_to_name (s ++ (codes "_" ++ decimal n)) ≡ codes "etcd" ++ decimal n
unfolding url_to_name
url_to_name-number s n =
    ap (◌++◌ (codes "etcd")) (last_piece-split 95 s (decimal n) (digit-ne_bar _ (decimal-digits n)))
