-- ===== src/Tls/Certificates.antt =====
-- CX509CertificateChain: src/circle-mbedtls/x509certchain.cpp.
use circle_stdlib.Common.{
  ℕ, suc, ◌-◌, Bool, true, false, ◌&&◌, ◌||◌, List, [], ◌∷◌, ◌++◌, Option, none, some, length, drop,
  ltb, leb, ◌==◌, if◌then◌else◌, ◌>>=◌,
}
use circle_stdlib.Common.Int.{ℤ, pos, is_negative}
use circle_stdlib.Common.Chars.{codes, c_string, equal}
use circle_stdlib.Net.{NetSubSystem}
use circle_stdlib.Net.Adapter.{Net}
use circle_stdlib.Tls.{TlsLibrary}

-- The result of adding certificates.
pub data Added : Type 0 where
  returned : ℤ → Added
  file_io_error buffer_too_small : Added

-- The error codes are negative.
abbrev pub is_failure : Added → Bool
is_failure (returned r) = is_negative r
is_failure file_io_error = true
is_failure buffer_too_small = true

-- `CERTIFICATE_MAX_SIZE`
abbrev pub certificate_max_size : ℕ
certificate_max_size = 5000

-- `strncmp (s, prefix, strlen (prefix)) == 0`
abbrev pub starts_with : List ℕ → List ℕ → Bool
starts_with [] s = true
starts_with (c ∷ cs) [] = false
starts_with (c ∷ cs) (d ∷ s) = (c == d) && starts_with cs s

-- `strstr (s, text) != 0`
abbrev pub occurs : List ℕ → List ℕ → Bool
occurs text [] = starts_with text []
occurs text (c ∷ s) = starts_with text (c ∷ s) || occurs text s

-- The names of the files that are read.
unfoldable pub is_certificate_name : List ℕ → Bool
is_certificate_name name =
    if ltb (length name) 5
    then false
    else (let suffix = drop (length name - 4) name in
        equal suffix (codes ".pem") || (equal suffix (codes ".crt") || equal suffix (codes ".der")))

module _ (C : NetSubSystem) (L : TlsLibrary C) where
  open L use {Chain, parse_chain, read_file, read_directory}

  -- `AddCertificate`
  unfoldable pub add_certificate : List ℕ → Chain → Added × Chain
  add_certificate bytes chain = let (r, chain') = parse_chain chain bytes in (returned r, chain')

  -- The bytes of a file, as they are parsed: a text with the zero behind it.
  unfoldable pub as_parsed : List ℕ → Option (List ℕ)
  as_parsed bytes = do
    text ← c_string (bytes ++ (0 ∷ []))
    some (if occurs (codes "-----BEGIN ") text then bytes ++ (0 ∷ []) else bytes)

  -- `AddCertificateFile`
  unfoldable pub add_certificate_file : List ℕ → Chain → Net C → Option (Added × Chain × Net C)
  add_certificate_file name chain n =
      let (contents, n') = read_file n name certificate_max_size in
      elim contents [
        | none ↦ some (file_io_error, chain, n')
        | some bytes ↦
            if length bytes == 0
            then some (file_io_error, chain, n')
            else if leb certificate_max_size (length bytes)
            then some (buffer_too_small, chain, n')
            else do
              parsed ← as_parsed bytes
              let (result, chain') = add_certificate parsed chain
              some (result, chain', n')
      ]

  -- The loop of `AddCertificatePath`, with the number of files.
  unfoldable pub add_entries : List (List ℕ) → ℕ → Chain → Net C → Option (Added × Chain × Net C)
  add_entries [] files chain n = some (returned (pos files), chain, n)
  add_entries (name ∷ names) files chain n =
      if is_certificate_name name
      then (add_certificate_file name chain n >>= λ (result, chain', n').
          if is_failure result
          then some (result, chain', n')
          else add_entries names (suc files) chain' n')
      else add_entries names files chain n

  -- `AddCertificatePath`
  unfoldable pub add_certificate_path : List ℕ → Chain → Net C → Option (Added × Chain × Net C)
  add_certificate_path path chain n =
      let (entries, n') = read_directory n path in
      elim entries [
        | none ↦ some (file_io_error, chain, n')
        | some names ↦ add_entries names 0 chain n'
      ]
