-- ===== src/Tls/Client.antt =====
-- CTLSSimpleClientSocket: src/circle-mbedtls/tlssimpleclientsocket.cpp and its header.
use circle_stdlib.Common.{
  ℕ, Bool, true, false, not, List, [], ◌∷◌, ◌++◌, Option, some, if◌then◌else◌, ◌>>=◌,
}
use circle_stdlib.Common.Int.{ℤ, pos, negsuc, eq_ℕ}
use circle_stdlib.Net.{NetSubSystem}
use circle_stdlib.Net.Adapter.{Net}
use circle_stdlib.Tls.{
  Setting, defaults, auth_none, auth_required, cert_profile, rng, debug_callback, ca_chain,
  TlsLibrary,
}
use circle_stdlib.Tls.Certificates.{
  Added, returned, file_io_error, buffer_too_small, add_certificate, add_certificate_file,
  add_certificate_path,
}
use circle_stdlib.Tls.Socket.{TlsSocket, setup_tls_socket, set_hostname}

-- The object, with the settings of its configuration.
pub record TlsClient (Ssl Chain : Type 0) : Type 0 where
  pub tls : TlsSocket Ssl
  pub chain : Chain
  pub settings : List (Setting Chain)
  pub cert_added : Bool

-- `nResult != 0` and `nResult <= 0`: no certificate counts as added.
abbrev pub all_parsed : Added → Bool
all_parsed (returned r) = eq_ℕ r 0
all_parsed file_io_error = false
all_parsed buffer_too_small = false

abbrev pub is_positive : ℤ → Bool
is_positive (pos n) = if eq_ℕ (pos n) 0 then false else true
is_positive (negsuc n) = false

abbrev pub some_files : Added → Bool
some_files (returned r) = is_positive r
some_files file_io_error = false
some_files buffer_too_small = false

-- A result of 0 or, if it is not 0, the error.
abbrev pub is_zero : ℤ → Bool
is_zero r = eq_ℕ r 0

module _ (C : NetSubSystem) (L : TlsLibrary C) where
  open L use {Chain, Ssl, seed, config_defaults}

  abbrev pub ClientSocket : Type 0
  ClientSocket = TlsClient Ssl Chain

  -- A certificate has been added, or not.
  abbrev pub noted : Bool → Chain → ClientSocket → ClientSocket
  noted true chain t = record t { chain = chain; cert_added = true }
  noted false chain t = record t { chain = chain }

  -- `AddCertificate`, `AddCertificateFile` and `AddCertificatePath`
  unfoldable pub add_to_client : List ℕ → ClientSocket → Added × ClientSocket
  add_to_client bytes t =
      let (result, chain) = add_certificate C L bytes t.chain in
      (result, noted (all_parsed result) chain t)

  unfoldable pub add_file_to_client :
      List ℕ → ClientSocket → Net C → Option (Added × ClientSocket × Net C)
  add_file_to_client name t n = do
    (result, chain, n') ← add_certificate_file C L name t.chain n
    some (result, noted (all_parsed result) chain t, n')

  unfoldable pub add_path_to_client :
      List ℕ → ClientSocket → Net C → Option (Added × ClientSocket × Net C)
  add_path_to_client path t n = do
    (result, chain, n') ← add_certificate_path C L path t.chain n
    some (result, noted (some_files result) chain t, n')

  -- The settings of `Setup` behind `SetDefaults`.
  unfoldable pub client_settings : ClientSocket → List (Setting Chain)
  client_settings t =
      (if t.cert_added
        then auth_required ∷ cert_profile ∷ ca_chain t.chain ∷ []
        else auth_none ∷ [])
      ++ (rng ∷ debug_callback ∷ [])

  -- `Setup`, with an empty text for no personalization string.
  unfoldable pub setup_client :
      List ℕ → List ℕ → ClientSocket → Net C → Option (ℤ × ClientSocket × Net C)
  setup_client name personalization t n =
      let (seeded, n₁) = seed n personalization in
      if not (is_zero seeded)
      then some (seeded, t, n₁)
      else (let (set, n₂) = config_defaults n₁ in
          let t₁ : ClientSocket = record t { settings = t.settings ++ (defaults ∷ []) } in
          if not (is_zero set)
          then some (set, t₁, n₂)
          else (let t₂ : ClientSocket = record t₁ {
            settings = t₁.settings ++ client_settings t₁;
          } in
              setup_tls_socket C L t₂.settings t₂.tls >>= λ (result, tls).
              let t₃ : ClientSocket = record t₂ { tls = tls } in
              if not (is_zero result)
              then some (result, t₃, n₂)
              else (set_hostname C L name tls >>= λ (result', tls').
                  some (result', record t₃ { tls = tls' }, n₂))))
