-- ===== src/Tls/Loading.antt =====
-- The certificates that CX509CertificateChain loads from files.
use circle_stdlib.Common.{
  ℕ, suc, ◌≡◌, refl, true, false, List, [], ◌∷◌, ◌++◌, Option, none, some, length, leb, ◌==◌,
  if◌then◌else◌, Holds, Holds->>=, Holds-if, Holds-elim, Holds-mono, Holds-result, Bool-cases, inl,
  inr,
}
use circle_stdlib.Common.Int.{pos}
use circle_stdlib.Common.Chars.{c_string}
use circle_stdlib.Net.{NetSubSystem}
use circle_stdlib.Net.Adapter.{Net}
use circle_stdlib.Tls.{TlsLibrary}
use circle_stdlib.Tls.Certificates.{
  Added, returned, file_io_error, is_failure, certificate_max_size, is_certificate_name, as_parsed,
  add_certificate_file, add_entries, add_certificate_path,
}

-- The names of the files that are loaded, in their order.
abbrev pub certificate_names : List (List ℕ) → List (List ℕ)
certificate_names [] = []
certificate_names (name ∷ names) =
    if is_certificate_name name then name ∷ certificate_names names else certificate_names names

c_string-Holds : (bytes : List ℕ) → Holds (λ _. Unit {0}) (c_string (bytes ++ (0 ∷ [])))
unfolding c_string
c_string-Holds [] = tt
c_string-Holds (c ∷ cs) =
    Holds-if (λ _. Unit {0}) (c == 0) _ _ tt
      (Holds->>= (λ _. Unit {0}) (λ _. Unit {0}) (c_string (cs ++ (0 ∷ []))) _ (c_string-Holds cs)
        (λ s u. tt))

module _ (C : NetSubSystem) (L : TlsLibrary C) where
  open L use {Chain, read_file, read_directory}

  -- Files are loaded one behind the other, `files` have been before, each into the chain that the one
  -- before has left, and what the last call gives is the end: the number of all files, or the result of
  -- the first file that gives an error.
  pub data Loads : List (List ℕ) → ℕ → Chain → Net C → Added × Chain × Net C → Type 0 where
    all_loaded :
        (files : ℕ) (chain : Chain) (n : Net C)
        → Loads [] files chain n (returned (pos files), chain, n)
    file_failed :
        (name : List ℕ) (names : List (List ℕ)) (files : ℕ) (chain : Chain) (n : Net C)
        (r : Added × Chain × Net C)
        → add_certificate_file C L name chain n ≡ some r
        → is_failure r.0 ≡ true
        → Loads (name ∷ names) files chain n r
    file_loaded :
        (name : List ℕ) (names : List (List ℕ)) (files : ℕ) (chain : Chain) (n : Net C)
        (r q : Added × Chain × Net C)
        → add_certificate_file C L name chain n ≡ some r
        → is_failure r.0 ≡ false
        → Loads names (suc files) r.1 r.2 q
        → Loads (name ∷ names) files chain n q

  -- A directory that cannot be read leaves the chain as it is.
  abbrev pub Scanned : Option (List (List ℕ)) → Chain → Net C → Added × Chain × Net C → Type 0
  Scanned none chain n q = q ≡ (file_io_error, chain, n)
  Scanned (some names) chain n q = Loads (certificate_names names) 0 chain n q

  -- No file is loaded with a fault.
  pub add_certificate_file-Holds :
      (name : List ℕ) (chain : Chain) (n : Net C)
      → Holds (λ _. Unit {0}) (add_certificate_file C L name chain n)
  unfolding add_certificate_file as_parsed
  add_certificate_file-Holds name chain n =
      Holds-elim (λ _. Unit {0}) (read_file n name certificate_max_size).0 _ _ tt
        (λ bytes.
          Holds-if (λ _. Unit {0}) (length bytes == 0) _ _ tt
            (Holds-if (λ _. Unit {0}) (leb certificate_max_size (length bytes)) _ _ tt
              (Holds->>= (λ _. Unit {0}) (λ _. Unit {0}) (as_parsed C L bytes) _
                (Holds->>= (λ _. Unit {0}) (λ _. Unit {0}) (c_string (bytes ++ (0 ∷ []))) _
                  (c_string-Holds bytes) (λ s u. tt))
                (λ s u. tt))))

  add_entries-Loads :
      (names : List (List ℕ)) (files : ℕ) (chain : Chain) (n : Net C)
      → Holds (Loads (certificate_names names) files chain n) (add_entries C L names files chain n)
  unfolding add_entries
  add_entries-Loads [] files chain n = all_loaded files chain n
  add_entries-Loads (name ∷ names) files chain n = elim (Bool-cases (is_certificate_name name)) [
    | inr e ↦ rw e (add_entries-Loads names files chain n)
    | inl e ↦
        let (r, loaded, u) =
          Holds-result (λ _. Unit {0}) (add_certificate_file C L name chain n)
            (add_certificate_file-Holds name chain n) in
        rw (e, loaded)
          (elim (Bool-cases (is_failure r.0)) [
            | inl f ↦ rw f (file_failed name (certificate_names names) files chain n r loaded f)
            | inr f ↦ rw f (
                Holds-mono _ _ (add_entries C L names (suc files) r.1 r.2)
                  (λ q l. file_loaded name (certificate_names names) files chain n r q loaded f l)
                  (add_entries-Loads names (suc files) r.1 r.2))
          ])
  ]

  -- `AddCertificatePath` never faults. A directory that cannot be read is an error, and the chain is as
  -- it was. Otherwise the files that are opened have the names of the entries with the extension of a
  -- certificate, in their order and without the path in front of them; each is loaded into the chain
  -- that the file before has left, up to the first one that gives an error, which is the result then
  -- with the chain at that point. Without an error the result is the number of these files.
  pub add_certificate_path_lem :
      (path : List ℕ) (chain : Chain) (n : Net C)
      → Holds
          (Scanned (read_directory n path).0 chain (read_directory n path).1)
          (add_certificate_path C L path chain n)
  unfolding add_certificate_path
  add_certificate_path_lem path chain n =
      scanned (read_directory n path).0 (read_directory n path).1
    where
      scanned :
          (entries : Option (List (List ℕ))) (n' : Net C)
          → Holds (Scanned entries chain n') (elim entries [
            | none ↦ some (file_io_error, chain, n')
            | some names ↦ add_entries C L names 0 chain n'
          ])
      scanned none n' = refl
      scanned (some names) n' = add_entries-Loads names 0 chain n'

  -- No directory is loaded with a fault.
  pub add_certificate_path-Holds :
      (path : List ℕ) (chain : Chain) (n : Net C)
      → Holds (λ _. Unit {0}) (add_certificate_path C L path chain n)
  add_certificate_path-Holds path chain n =
      Holds-mono _ (λ _. Unit {0}) (add_certificate_path C L path chain n) (λ r h. tt)
        (add_certificate_path_lem path chain n)
