-- ===== src/Tls/Examples.antt =====
-- The TLS sockets with a library that counts: examples.
use circle_stdlib.Common.{
  ℕ, zero, suc, refl, false, List, [], ◌∷◌, some, length, take, arith, Holds,
}
use circle_stdlib.Common.Int.{pos}
use circle_stdlib.Common.Chars.{codes}
use circle_stdlib.Net.Adapter.{Net, object}
use circle_stdlib.Net.Examples.{stub, one_socket, one_object}
use circle_stdlib.Tls.{Shaken, finished, wants_more, nothing_yet, TlsLibrary}
use circle_stdlib.Tls.Certificates.{add_certificate_path}
use circle_stdlib.Tls.Loading.{Scanned, add_certificate_path_lem}
use circle_stdlib.Tls.Socket.{connect_tls}
use circle_stdlib.Tls.Client.{TlsClient, setup_client}
use circle_stdlib.Tls.Verifying.{
  Adding, from_file, from_path, call_all, load_all, Configured, setup_client-Configured,
}
use circle_stdlib.Tls.Entropy.{entropy_poll, Filled, entropy_poll-Filled}
use circle_stdlib.Tls.Handshakes.{Secured, unconnected, connect_tls-Secured}

-- As many calls of the handshake as the context says.
abbrev shake : ℕ → Net stub → Shaken × ℕ × Net stub
shake zero n = (finished, zero, n)
shake (suc k) n = (wants_more, k, n)

-- The names of a directory.
abbrev names : List (List ℕ)
names = codes "a.pem" ∷ codes "notes.txt" ∷ codes ".der" ∷ codes "b.der" ∷ []

-- The chain is the number of certificates; the context counts the settings.
abbrev library : TlsLibrary stub
library = record {
  Chain = ℕ;
  Ssl = ℕ;
  parse_chain = λ chain bytes. (pos 0, suc chain);
  read_file = λ n name k. (some (take k (codes "-----BEGIN CERTIFICATE-----")), n);
  read_directory = λ n path. (some names, n);
  seed = λ n text. (pos 0, n);
  config_defaults = λ n. (pos 0, n);
  ssl_init = 0;
  ssl_setup = λ context settings. (pos 0, length settings);
  ssl_set_hostname = λ context name. (pos 0, context);
  ssl_handshake = λ p context n. shake context n;
  ssl_verify_result = λ context. 0;
  ssl_read = λ p size context n. (nothing_yet, context, n);
  ssl_write = λ p bytes context n. (pos (length bytes), context, n);
  ssl_close_notify = λ p context n. (context, n);
}

abbrev client : TlsClient ℕ ℕ
client = record {
  tls = record { context = 0; adapted = some 0; connected = false };
  chain = 0;
  settings = [];
  cert_added = false;
}

abbrev some_calls : List Adding
some_calls = from_path (codes "certs") ∷ from_file (codes "ca.pem") ∷ []

add_certificate_path_lem_example :
    Holds
      (Scanned stub library (some names) 0 (one_socket []))
      (add_certificate_path stub library (codes "certs") 0 (one_socket []))
add_certificate_path_lem_example =
    add_certificate_path_lem stub library (codes "certs") 0 (one_socket [])

setup_client-Configured_example :
    Holds
      (λ l.
        Holds
          (λ r.
            Holds
              (Configured stub library l.0 l.1 (codes "host") [] r.0 l.2)
              (setup_client stub library (codes "host") [] r.0 r.1))
          (call_all stub library some_calls client (one_socket [])))
      (load_all stub library some_calls 0 (one_socket []))
setup_client-Configured_example =
    setup_client-Configured stub library some_calls (codes "host") [] client (one_socket []) refl
      refl refl

connect_tls-Secured_example :
    Holds
      (Secured stub library (unconnected stub library 2 0) (finished, 0, one_socket []))
      (connect_tls stub library 3 42 443 (unconnected stub library 2 0) (one_socket []))
unfolding object
connect_tls-Secured_example =
    connect_tls-Secured stub library 2 3 42 443 0 2 (one_socket []) one_object
      (finished, 0, one_socket []) refl refl refl (refl, (refl, refl)) (omega arith)

-- Seven bytes of a buffer of eight, from a generator that counts.
entropy_poll-Filled_example :
    Holds
      (Filled ℕ (λ w. (w, suc w)) 4 (1 ∷ 2 ∷ 3 ∷ 4 ∷ 5 ∷ 6 ∷ 7 ∷ 8 ∷ []))
      (entropy_poll ℕ (λ w. (w, suc w)) 7 (1 ∷ 2 ∷ 3 ∷ 4 ∷ 5 ∷ 6 ∷ 7 ∷ 8 ∷ []) 305419896)
entropy_poll-Filled_example =
    entropy_poll-Filled ℕ (λ w. (w, suc w)) 7 (1 ∷ 2 ∷ 3 ∷ 4 ∷ 5 ∷ 6 ∷ 7 ∷ 8 ∷ []) 305419896
      (omega arith) (omega arith)
