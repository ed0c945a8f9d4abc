-- ===== src/Tls.antt =====
-- What the TLS sockets of src/circle-mbedtls use of mbed TLS, of the file system and of Circle, and what
-- they return.
pub mod Certificates
pub mod Socket
pub mod Client
mod Loading
mod Verifying
mod Handshakes
mod Entropy
mod Examples
use circle_stdlib.Common.{ℕ, List, Option}
use circle_stdlib.Common.Int.{ℤ}
use circle_stdlib.Net.{NetError, NetSubSystem}
use circle_stdlib.Net.Adapter.{Net}

-- The calls that configure a connection, in their order; CTLSConfig only passes them on.
pub data Setting (Chain : Type 0) : Type 0 where
  defaults auth_none auth_required cert_profile rng debug_callback : Setting Chain
  ca_chain : Chain → Setting Chain

-- What `mbedtls_ssl_handshake` returns: 0, a call for more data or room, or another error code.
pub data Shaken : Type 0 where
  finished wants_more : Shaken
  broken : ℕ → Shaken

-- What `mbedtls_ssl_read` returns.
pub data Reply : Type 0 where
  nothing_yet : Reply
  got : List ℕ → Reply
  broken_off : ℕ → Reply

-- The results of the TLS sockets.
pub data TlsResult : Type 0 where
  success alloc_failed verify_failed : TlsResult
  net_error : NetError → TlsResult
  tls_error : ℕ → TlsResult

-- The calls get the pointer to the CAdaptedSocket that `mbedtls_ssl_set_bio` has set, and may use it.
pub record TlsLibrary (C : NetSubSystem) : Type 1 where
  pub Chain : Type 0
  pub Ssl : Type 0
  -- `mbedtls_x509_crt_parse`: 0, the number of certificates that could not be parsed, or an error
  pub parse_chain : Chain → List ℕ → ℤ × Chain
  -- `fopen` and `fread`, for so many bytes at most
  pub read_file : Net C → List ℕ → ℕ → Option (List ℕ) × Net C
  -- `opendir` and the names that `readdir` gives
  pub read_directory : Net C → List ℕ → Option (List (List ℕ)) × Net C
  -- `mbedtls_ctr_drbg_seed` and `mbedtls_ssl_config_defaults`
  pub seed : Net C → List ℕ → ℤ × Net C
  pub config_defaults : Net C → ℤ × Net C
  pub ssl_init : Ssl
  pub ssl_setup : Ssl → List (Setting Chain) → ℤ × Ssl
  pub ssl_set_hostname : Ssl → List ℕ → ℤ × Ssl
  pub ssl_handshake : ℕ → Ssl → Net C → Shaken × Ssl × Net C
  pub ssl_verify_result : Ssl → ℕ
  pub ssl_read : ℕ → ℕ → Ssl → Net C → Reply × Ssl × Net C
  pub ssl_write : ℕ → List ℕ → Ssl → Net C → ℤ × Ssl × Net C
  pub ssl_close_notify : Option ℕ → Ssl → Net C → Ssl × Net C
