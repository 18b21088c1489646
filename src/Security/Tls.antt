-- ===== src/Security/Tls.antt =====
-- The TLS commands of src/security.rs, on the two files of the directory tls.
use cachee_cli.Base.{
  Bytes, Bool, true, false, Option, none, some, ◌≡◌, refl, ascii, ◌++◌, [], ◌∷◌, Result, ok, err,
  ◌&&◌,
}
use cachee_cli.Config.{CacheeConfig, ConfigError}

pub record TlsDir : Type 0 where
  pub cert : Option Bytes
  pub key : Option Bytes

pub data TlsError : Type 0 where
  cert_not_found key_not_found : TlsError
  config_failed : ConfigError → TlsError

abbrev pub placeholder_cert : Bytes
placeholder_cert =
    ascii "# Self-signed certificate placeholder"
    ++ 10
      ∷ (ascii "# Replace with real cert: cachee tls import --cert /path/to/cert.pem --key "
          ++ (ascii "/path/to/key.pem" ++ 10 ∷ []))

abbrev pub placeholder_key : Bytes
placeholder_key = ascii "# Private key placeholder" ++ 10 ∷ []

-- The placeholders are written before the configuration is loaded, which is written back as it is.
unfoldable pub tls_enable :
    Result ConfigError CacheeConfig → TlsDir → TlsDir × Result TlsError CacheeConfig
tls_enable config dir =
    let written : TlsDir = record { cert = some placeholder_cert; key = some placeholder_key } in
    elim config [ err e ↦ (written, err (config_failed e)) | ok cfg ↦ (written, ok cfg) ]

-- The texts at the two paths, `none` where there is no file.
unfoldable pub tls_import :
    Option Bytes → Option Bytes → TlsDir → TlsDir × Result TlsError (Unit {0})
tls_import none key dir = (dir, err cert_not_found)
tls_import (some cert) none dir = (dir, err key_not_found)
tls_import (some cert) (some key) dir = (record { cert = some cert; key = some key }, ok tt)

-- It prints that TLS is disabled.
unfoldable pub tls_disable : TlsDir → TlsDir
tls_disable dir = dir

abbrev has_file : Option Bytes → Bool
has_file none = false
has_file (some b) = true

-- Whether the two files are there, and whether TLS is ready.
unfoldable pub tls_status : TlsDir → Bool × Bool × Bool
tls_status dir = (has_file dir.cert, has_file dir.key, has_file dir.cert && has_file dir.key)

-- Enabling TLS puts the placeholders in the place of an imported certificate and its key, also when
-- the configuration cannot be loaded; TLS then counts as ready, and still does after it is disabled.
pub tls_enable-tls_import :
    (config : Result ConfigError CacheeConfig) (cert key : Bytes) (dir : TlsDir)
    → (let imported = (tls_import (some cert) (some key) dir).0 in
        let enabled = (tls_enable config imported).0 in
        (enabled.cert ≡ some placeholder_cert)
        × (enabled.key ≡ some placeholder_key)
        × (tls_status (tls_disable enabled) ≡ (true, true, true)))
unfolding tls_enable tls_import tls_disable tls_status
tls_enable-tls_import (ok cfg) cert key dir = (refl, refl, refl)
tls_enable-tls_import (err e) cert key dir = (refl, refl, refl)
