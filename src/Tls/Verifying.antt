-- ===== src/Tls/Verifying.antt =====
-- Whether a CTLSSimpleClientSocket wants the certificate of the server to be verified.
use circle_stdlib.Common.{
  ℕ, zero, suc, ◌≡◌, refl, subst, ap, ◌∙◌, Bool, true, false, ◌||◌, List, [], ◌∷◌, ◌++◌, Option,
  none, some, arith, if◌then◌else◌, ◌>>=◌, Holds, Holds->>=, Holds-mono, Holds-result, Bool-cases,
  ◌⊎◌, inl, inr,
}
use circle_stdlib.Common.Int.{ℤ, pos, negsuc}
use circle_stdlib.Net.{NetSubSystem}
use circle_stdlib.Net.Adapter.{Net}
use circle_stdlib.Tls.{
  Setting, defaults, auth_none, auth_required, cert_profile, rng, debug_callback, ca_chain,
  TlsLibrary,
}
use circle_stdlib.Tls.Certificates.{
  Added, returned, file_io_error, buffer_too_small, add_certificate, add_certificate_file,
  add_certificate_path,
}
use circle_stdlib.Tls.Loading.{add_certificate_file-Holds, add_certificate_path-Holds}
use circle_stdlib.Tls.Socket.{setup_tls_socket, set_hostname}
use circle_stdlib.Tls.Client.{
  ClientSocket, all_parsed, some_files, is_zero, noted, add_to_client, add_file_to_client,
  add_path_to_client, client_settings, setup_client,
}

-- A certificate or a file has been added: the result is 0.
abbrev pub gives_zero : Added → Bool
gives_zero (returned (pos zero)) = true
gives_zero (returned (pos (suc k))) = false
gives_zero (returned (negsuc k)) = false
gives_zero file_io_error = false
gives_zero buffer_too_small = false

-- Files of a directory have been added: the result is greater than 0.
abbrev pub gives_files : Added → Bool
gives_files (returned (pos zero)) = false
gives_files (returned (pos (suc k))) = true
gives_files (returned (negsuc k)) = false
gives_files file_io_error = false
gives_files buffer_too_small = false

all_parsed_lem : (r : Added) → all_parsed r ≡ gives_zero r
all_parsed_lem (returned (pos zero)) = refl
all_parsed_lem (returned (pos (suc k))) = ground arith
all_parsed_lem (returned (negsuc k)) = refl
all_parsed_lem file_io_error = refl
all_parsed_lem buffer_too_small = refl

some_files_lem : (r : Added) → some_files r ≡ gives_files r
some_files_lem (returned (pos zero)) = refl
some_files_lem (returned (pos (suc k))) = ground arith
some_files_lem (returned (negsuc k)) = refl
some_files_lem file_io_error = refl
some_files_lem buffer_too_small = refl

or_false : (b : Bool) → b ≡ b || false
or_false true = refl
or_false false = refl

or_true : (b : Bool) → true ≡ b || true
or_true true = refl
or_true false = refl

or_assoc : (a b c : Bool) → (a || b) || c ≡ a || (b || c)
or_assoc true b c = refl
or_assoc false b c = refl

-- The first result that is not 0, or the last one.
abbrev pub first_error : ℤ → ℤ → ℤ → ℤ → ℤ
first_error a b c d =
    if is_zero a then (if is_zero b then (if is_zero c then d else c) else b) else a

first_error-none :
    (a b c d : ℤ) → is_zero a ≡ true → is_zero b ≡ true → is_zero c ≡ true → d ≡ first_error a b c d
first_error-none a b c d e f g = rw (e, f, g) refl

first_error-third :
    (a b c d : ℤ)
    → is_zero a ≡ true
    → is_zero b ≡ true
    → is_zero c ≡ false
    → c ≡ first_error a b c d
first_error-third a b c d e f g = rw (e, f, g) refl

first_error-second : (a b c d : ℤ) → is_zero a ≡ true → is_zero b ≡ false → b ≡ first_error a b c d
first_error-second a b c d e f = rw (e, f) refl

first_error-first : (a b c d : ℤ) → is_zero a ≡ false → a ≡ first_error a b c d
first_error-first a b c d e = rw e refl

-- Two runs in step with each other.
Holds-both :
    {A A' B B' : Type 0} (R : A → A' → Type 0) (S : B → B' → Type 0) (m : Option A) (m' : Option A')
    (f : A → Option B) (f' : A' → Option B')
    → Holds (λ a. Holds (R a) m') m
    → ((a : A) (a' : A') → R a a' → Holds (λ b. Holds (S b) (f' a')) (f a))
    → Holds (λ b. Holds (S b) (m' >>= f')) (m >>= f)
Holds-both R S none m' f f' h k = h
Holds-both R S (some a) none f f' h k = absurd h
Holds-both R S (some a) (some a') f f' h k = k a a' h

-- A call that adds certificates.
pub data Adding : Type 0 where
  from_memory from_file from_path : List ℕ → Adding

module _ (C : NetSubSystem) (L : TlsLibrary C) where
  open L use {Chain, Ssl, seed, config_defaults, ssl_setup, ssl_set_hostname}

  -- The call on the socket. Its result is not used.
  abbrev pub call_with : Adding → ClientSocket C L → Net C → Option (ClientSocket C L × Net C)
  call_with (from_memory bytes) t n = some ((add_to_client C L bytes t).1, n)
  call_with (from_file name) t n = add_file_to_client C L name t n >>= λ r. some (r.1, r.2)
  call_with (from_path path) t n = add_path_to_client C L path t n >>= λ r. some (r.1, r.2)

  abbrev pub call_all : List Adding → ClientSocket C L → Net C → Option (ClientSocket C L × Net C)
  call_all [] t n = some (t, n)
  call_all (a ∷ rest) t n = call_with a t n >>= λ r. call_all rest r.0 r.1

  -- The same call on a chain of its own, and whether it has added certificates.
  abbrev pub load_with : Adding → Chain → Net C → Option (Bool × Chain × Net C)
  load_with (from_memory bytes) chain n =
      some (gives_zero (add_certificate C L bytes chain).0, (add_certificate C L bytes chain).1, n)
  load_with (from_file name) chain n =
      add_certificate_file C L name chain n >>= λ r. some (gives_zero r.0, r.1, r.2)
  load_with (from_path path) chain n =
      add_certificate_path C L path chain n >>= λ r. some (gives_files r.0, r.1, r.2)

  -- One chain behind all calls, and whether one of them has added certificates.
  abbrev pub load_all : List Adding → Chain → Net C → Option (Bool × Chain × Net C)
  load_all [] chain n = some (false, chain, n)
  load_all (a ∷ rest) chain n =
      load_with a chain n >>= λ l. load_all rest l.1 l.2 >>= λ m. some (l.0 || m.0, m.1, m.2)

  -- What the socket holds behind the calls, and what is left as it was.
  abbrev Follows : ClientSocket C L → Bool × Chain × Net C → ClientSocket C L × Net C → Type 0
  Follows t l r =
      (r.0.cert_added ≡ t.cert_added || l.0)
      × (r.0.chain ≡ l.1)
      × (r.1 ≡ l.2)
      × (r.0.settings ≡ t.settings)
      × (r.0.tls ≡ t.tls)

  noted-Follows :
      (b : Bool) (added : Bool) (chain : Chain) (t : ClientSocket C L) (n : Net C)
      → b ≡ added
      → Follows t (added, chain, n) (noted C L b chain t, n)
  noted-Follows true added chain t n e =
      (or_true t.cert_added ∙ ap (λ x. t.cert_added || x) e, refl, refl, refl, refl)
  noted-Follows false added chain t n e =
      (or_false t.cert_added ∙ ap (λ x. t.cert_added || x) e, refl, refl, refl, refl)

  call_with-Follows :
      (a : Adding) (t : ClientSocket C L) (n : Net C)
      → Holds (λ l. Holds (Follows t l) (call_with a t n)) (load_with a t.chain n)
  unfolding add_to_client add_file_to_client add_path_to_client
  call_with-Follows (from_memory bytes) t n = noted-Follows _ _ _ t n (all_parsed_lem _)
  call_with-Follows (from_file name) t n =
      let (r, e, u) =
        Holds-result (λ _. Unit {0}) (add_certificate_file C L name t.chain n)
          (add_certificate_file-Holds C L name t.chain n) in
      rw e (noted-Follows _ _ r.1 t r.2 (all_parsed_lem r.0))
  call_with-Follows (from_path path) t n =
      let (r, e, u) =
        Holds-result (λ _. Unit {0}) (add_certificate_path C L path t.chain n)
          (add_certificate_path-Holds C L path t.chain n) in
      rw e (noted-Follows _ _ r.1 t r.2 (some_files_lem r.0))

  call_all-Follows :
      (calls : List Adding) (t : ClientSocket C L) (n : Net C)
      → Holds (λ l. Holds (Follows t l) (call_all calls t n)) (load_all calls t.chain n)
  call_all-Follows [] t n = (or_false t.cert_added, refl, refl, refl, refl)
  call_all-Follows (a ∷ rest) t n =
      Holds-both (Follows t) (Follows t) (load_with a t.chain n) (call_with a t n) _ _
        (call_with-Follows a t n)
        (λ l r (added, chain, net, same, tls).
          let onwards : load_all rest r.0.chain r.1 ≡ load_all rest l.1 l.2 =
            ap (λ x. load_all rest x r.1) chain ∙ ap (load_all rest l.1) net in
          Holds->>= _ _ (load_all rest l.1 l.2) _
            (subst (Holds (λ m. Holds (Follows r.0 m) (call_all rest r.0 r.1))) onwards
              (call_all-Follows rest r.0 r.1))
            (λ m.
              Holds-mono (Follows r.0 m) _ (call_all rest r.0 r.1)
                (λ q (added', chain', net', same', tls'). (
                  added' ∙ ap (λ b. b || m.0) added ∙ or_assoc t.cert_added l.0 m.0,
                  chain',
                  net',
                  same' ∙ same,
                  tls' ∙ tls,
                ))))

  -- The settings for a client with certificates, or without.
  abbrev pub wanted_settings : Bool → Chain → List (Setting Chain)
  wanted_settings added chain =
      defaults
      ∷ ((if added then auth_required ∷ cert_profile ∷ ca_chain chain ∷ [] else auth_none ∷ [])
          ++ (rng ∷ debug_callback ∷ []))

  -- The first error of the library, or a context that has been set up with these settings for this
  -- host.
  abbrev pub Configured :
      Bool
      → Chain
      → List ℕ
      → List ℕ
      → ClientSocket C L
      → Net C
      → ℤ × ClientSocket C L × Net C
      → Type 0
  Configured added chain name personalization t n q =
      let seeded = seed n personalization in
      let set_up = ssl_setup t.tls.context (wanted_settings added chain) in
      let named = ssl_set_hostname set_up.1 name in
      (q.0 ≡ first_error seeded.0 (config_defaults seeded.1).0 set_up.0 named.0)
      × ((is_zero q.0 ≡ false) ⊎ (q.1.tls.context ≡ named.1))

  setup_known :
      (name personalization : List ℕ) (added : Bool) (chain : Chain) (t : ClientSocket C L)
      (n : Net C)
      → t.cert_added ≡ added
      → t.chain ≡ chain
      → t.settings ≡ []
      → t.tls.connected ≡ false
      → Holds
          (Configured added chain name personalization t n)
          (setup_client C L name personalization t n)
  unfolding setup_client setup_tls_socket set_hostname client_settings
  setup_known name personalization added chain t n a c s e =
      elim (Bool-cases (is_zero (seed n personalization).0)) [
        | inr f ↦ rw f (
          first_error-first (seed n personalization).0
              (config_defaults (seed n personalization).1).0 set_up.0
              (ssl_set_hostname set_up.1 name).0 f,
          inl f,
        )
        | inl f ↦ rw f (elim (Bool-cases (is_zero (config_defaults (seed n personalization).1).0)) [
          | inr g ↦ rw g (
            first_error-second (seed n personalization).0
                (config_defaults (seed n personalization).1).0 set_up.0
                (ssl_set_hostname set_up.1 name).0 f g,
            inl g,
          )
          | inl g ↦
              rw (g, e, s, a, c)
                (elim (Bool-cases (is_zero set_up.0)) [
                  | inr h ↦ rw h (
                    first_error-third (seed n personalization).0
                        (config_defaults (seed n personalization).1).0 set_up.0
                        (ssl_set_hostname set_up.1 name).0 f g h,
                    inl h,
                  )
                  | inl h ↦ rw h (
                    first_error-none (seed n personalization).0
                        (config_defaults (seed n personalization).1).0 set_up.0
                        (ssl_set_hostname set_up.1 name).0 f g h,
                    inr refl,
                  )
                ])
        ])
      ]
    where
      set_up : ℤ × Ssl
      set_up = ssl_setup t.tls.context (wanted_settings added chain)

  -- Calls that add certificates, in any order, and `Setup` behind them, on a socket that has just been
  -- made: nothing faults. `Setup` gives the first result of the library's calls that is not 0, or 0. If it
  -- is 0, the connection is set up for the host. If one of the calls has added certificates, which a
  -- result of 0 says of a certificate or a file, and a result greater than 0 of a directory, then the
  -- verification is required, with the chain into which the calls have loaded, one behind the other; if
  -- none has, there is no verification.
  pub setup_client-Configured :
      (calls : List Adding) (name personalization : List ℕ) (t : ClientSocket C L) (n : Net C)
      → t.cert_added ≡ false
      → t.settings ≡ []
      → t.tls.connected ≡ false
      → Holds
          (λ l.
            Holds
              (λ r.
                Holds
                  (Configured l.0 l.1 name personalization r.0 l.2)
                  (setup_client C L name personalization r.0 r.1))
              (call_all calls t n))
          (load_all calls t.chain n)
  setup_client-Configured calls name personalization t n a s e =
      Holds-mono _ _ (load_all calls t.chain n)
        (λ l. Holds-mono (Follows t l) _ (call_all calls t n) (λ r (added, chain, net, same, tls).
          subst
            (λ x.
              Holds (Configured l.0 l.1 name personalization r.0 x)
                (setup_client C L name personalization r.0 r.1))
            net
            (setup_known name personalization l.0 l.1 r.0 r.1 (added ∙ ap (λ b. b || l.0) a) chain
              (same ∙ s) (ap (λ x. x.connected) tls ∙ e))))
        (call_all-Follows calls t n)
