-- ===== src/Proc/Helpers.antt =====
-- proc/utils_file.go, proc/utils_tls.go and proc/utils_http.go: helpers over the operating system, the
-- certificate maker of tlsutil and the body of an HTTP response, which are parameters.
use etcd_play.Base.{ℕ, List, [], ◌∷◌, Option, none, some}
use etcd_play.Base.Text.{Text}
use etcd_play.Base.Outcome.{M, ◌>>=◌, ◌>>◌, pure}
use etcd_play.Proc.Error.{Error, Result, ok, err}

-- os.O_RDONLY, os.O_RDWR, os.O_APPEND, os.O_TRUNC
pub data OpenFlag : Type 0 where
  read_only read_write append truncate : OpenFlag

-- os.OpenFile and os.Create on the file system `S`, with files `F`.
pub record Os (S F : Type 0) : Type 0 where
  pub open_file : Text → List OpenFlag → ℕ → M S (Result F)
  pub create : Text → M S (Result F)

-- A file that cannot be opened is created.
unfoldable pub open_or_create : {S F : Type 0} → Os S F → Text → List OpenFlag → M S (Result F)
open_or_create os path flags = do
  r ← os.open_file path flags 0o777
  elim r [ ok f ↦ pure (ok f) | err e ↦ os.create path ]

-- openToAppend
unfoldable pub open_to_append : {S F : Type 0} → Os S F → Text → M S (Result F)
unfolding open_or_create
open_to_append os path = open_or_create os path (read_write ∷ append ∷ [])

-- The fields of tls.Config that are set; `root_cas` is nil.
pub record TlsConfig (Cert Pool : Type 0) : Type 0 where
  pub min_version : ℕ
  pub root_cas : Option Pool
  pub certificates : List Cert

-- tls.VersionTLS10
abbrev pub version_tls10 : ℕ
version_tls10 = 0x0301

-- autoSelfCert, over tlsutil.NewCert
unfoldable pub auto_self_cert :
    {Cert Pool : Type 0}
    → (Text → Text → Result (Option Cert))
    → Text
    → Text
    → Result (TlsConfig Cert Pool)
auto_self_cert new_cert cert_path key_path = elim (new_cert cert_path key_path) [
  | err e ↦ err e
  | ok none ↦ ok (record { min_version = version_tls10; root_cas = none; certificates = [] })
  | ok (some cert) ↦
      ok (record { min_version = version_tls10; root_cas = none; certificates = cert ∷ [] })
]

-- gracefulClose: the body is read to its end and then closed; neither error is looked at.
unfoldable pub graceful_close :
    {S : Type 0} → M S (Option Error) → M S (Option Error) → M S (Unit {0})
graceful_close drain close = do drain; close; pure tt
