-- ===== src/Backend/UserId.antt =====
-- backend/utils_id.go, backend/utils_backend.go: the id of a user, and the node that a URL names.
-- SHA-512 is the parameter `sha512`, whose digests have 64 bytes; base64 is spelled out.
pub mod Length
use etcd_play.Base.{
  ℕ, suc, ◌+◌, ◌-◌, ◌*◌, ◌/◌, ◌%◌, Bool, true, false, ◌&&◌, ◌||◌, not, List, [], ◌∷◌, ◌++◌, Option,
  none, some, ltb, ◌==◌, length, take, drop, if◌then◌else◌,
}
use etcd_play.Base.Text.{
  Text, codes, same, split, first_piece, last_piece, replace, contains, to_lower,
}
use etcd_play.Base.Map.{Map, lookup}

-- The parts of a request that tell who sent it. `Header.Get` reads canonical keys, so its argument's
-- case does not matter: the headers are looked up under the canonical name.
pub record Origin : Type 0 where
  pub header : Map Text
  pub remote_addr : Text
  pub user_agent : Text

abbrev pub header_get : Map Text → Text → Text
header_get h k = elim (lookup k h) [ none ↦ [] | some v ↦ v ]

-- The spellings in `ts` are one key.
unfoldable pub get_real_ip : Origin → Text
unfolding lookup
get_real_ip o = header_get o.header (codes "X-Forwarded-For")

-- base64.StdEncoding, a byte of the alphabet
unfoldable pub base64_char : ℕ → ℕ
base64_char i =
    if ltb i 26
    then 65 + i
    else if ltb i 52
    then 97 + (i - 26)
    else if ltb i 62
    then 48 + (i - 52)
    else if i == 62
    then b'+'
    else b'/'

-- EncodeToString: three bytes to four characters, with padding
unfoldable pub base64 : Text → Text
unfolding base64_char
base64 [] = []
base64 (a ∷ []) = base64_char (a / 4) ∷ base64_char (a % 4 * 16) ∷ b'=' ∷ b'=' ∷ []
base64 (a ∷ b ∷ []) =
    base64_char (a / 4) ∷ base64_char (a % 4 * 16 + b / 16) ∷ base64_char (b % 16 * 4) ∷ b'=' ∷ []
base64 (a ∷ b ∷ c ∷ rest) =
    base64_char (a / 4)
    ∷ base64_char (a % 4 * 16 + b / 16)
    ∷ base64_char (b % 16 * 4 + c / 64)
    ∷ base64_char (c % 64)
    ∷ base64 rest

abbrev slice : ℕ → ℕ → Text → Text
slice from to s = take (to - from) (drop from s)

unfoldable pub os_part : Text → Text
unfolding contains
os_part raw =
    if contains raw (codes "linux")
    then codes "linux"
    else if contains raw (codes "macintosh") || contains raw (codes "macos")
    then codes "mac"
    else if contains raw (codes "windows")
    then codes "window"
    else if contains raw (codes "iphone")
    then codes "iphone"
    else if contains raw (codes "android")
    then codes "android"
    else if ltb 7 (length raw)
    then slice 2 7 raw
    else raw

unfoldable pub browser_part : Text → Text
unfolding contains
browser_part raw =
    if contains raw (codes "firefox/") && not (contains raw (codes "seammonkey/"))
    then codes "firefox"
    else if contains raw (codes ";msie")
    then codes "ie"
    else if contains raw (codes "safari/")
        && (not (contains raw (codes "chrome/")) && not (contains raw (codes "chromium/")))
    then codes "safari"
    else if contains raw (codes "chrome/") || contains raw (codes "chromium/")
    then codes "chrome"
    else if ltb 15 (length raw)
    then slice 9 14 raw
    else []

-- simpleUA
unfoldable pub simple_ua : Text → Text
unfolding os_part browser_part replace
simple_ua ua =
    let raw = replace (to_lower ua) (codes " ") [] none in os_part raw ++ browser_part raw

-- urlToName
unfoldable pub url_to_name : Text → Text
unfolding split
url_to_name s = codes "etcd" ++ last_piece (split s (codes "_"))

-- The client's address without its dots
unfoldable pub address : Origin → Text
unfolding get_real_ip split replace same
address o =
    let ip = get_real_ip o in
    replace (if same ip [] then first_piece (split o.remote_addr (codes ":")) else ip) (codes ".")
      [] none

module _ (sha512 : Text → Text) where
  unfoldable pub hash_sha512 : Text → Text
  unfolding base64
  hash_sha512 s = base64 (sha512 s)

  -- getUserID; `[:15]` of a shorter text would panic, which `hash_sha512-length` rules out.
  unfoldable pub get_user_id : Origin → Text
  unfolding address simple_ua hash_sha512
  get_user_id o =
      let ip = address o in
      ip ++ (simple_ua o.user_agent ++ take 15 (hash_sha512 (ip ++ o.user_agent)))
