-- ===== src/Tls/Socket.antt =====
-- CTLSSocket: include/circle-mbedtls/tlssocket.h and src/circle-mbedtls/tlssocket.cpp. A failed assertion
-- is a missing result.
use circle_stdlib.Common.{
  ℕ, zero, suc, Bool, true, false, not, List, [], ◌∷◌, Option, none, some, ◌==◌, if◌then◌else◌,
  ◌>>=◌, ◌>>◌, assert,
}
use circle_stdlib.Common.Int.{ℤ}
use circle_stdlib.Mqtt.ReceivePacket.{Received, failed, stored}
use circle_stdlib.Net.{connect_failed, unknown_host, ok, err, NetSubSystem}
use circle_stdlib.Net.Adapter.{
  Net, create_adapted, delete_adapted, connect_address, set_blocking, parse_port,
}
use circle_stdlib.Tls.{
  Setting, Shaken, finished, wants_more, broken, Reply, nothing_yet, got, broken_off, TlsResult,
  success, alloc_failed, verify_failed, net_error, tls_error, TlsLibrary,
}

-- The object; `m_pSocket` is a pointer that is null if there is no memory.
pub record TlsSocket (Ssl : Type 0) : Type 0 where
  pub context : Ssl
  pub adapted : Option ℕ
  pub connected : Bool

module _ (C : NetSubSystem) (L : TlsLibrary C) where
  open C use {modulus, has_memory, resolve}
  open L use {
    Chain, Ssl, ssl_init, ssl_setup, ssl_set_hostname, ssl_handshake, ssl_verify_result, ssl_read,
    ssl_write, ssl_close_notify,
  }

  -- The constructor
  unfoldable pub create_tls : Net C → TlsSocket Ssl × Net C
  create_tls n =
      let (memory, w) = has_memory n.world in
      let n₁ : Net C = record n { world = w } in
      if memory
      then (let (p, n₂) = create_adapted C n₁ in
          (record { context = ssl_init; adapted = some p; connected = false }, n₂))
      else (record { context = ssl_init; adapted = none; connected = false }, n₁)

  -- The destructor
  unfoldable pub destroy_tls : TlsSocket Ssl → Net C → Option (Net C)
  destroy_tls t n =
      let n' = if t.connected then (ssl_close_notify t.adapted t.context n).1 else n in
      elim t.adapted [ none ↦ some n' | some p ↦ delete_adapted C p n' ]

  -- `Setup` and `SetHostname`
  unfoldable pub setup_tls_socket :
      List (Setting Chain) → TlsSocket Ssl → Option (ℤ × TlsSocket Ssl)
  setup_tls_socket settings t =
      assert (not t.connected)
      >> (let (r, context) = ssl_setup t.context settings in
          some (r, record t { context = context }))

  unfoldable pub set_hostname : List ℕ → TlsSocket Ssl → Option (ℤ × TlsSocket Ssl)
  set_hostname name t =
      assert (not t.connected)
      >> (let (r, context) = ssl_set_hostname t.context name in
          some (r, record t { context = context }))

  -- The loop of `Connect`; a missing result is a loop that has used up its fuel.
  unfoldable pub shake_hands : ℕ → ℕ → Ssl → Net C → Option Shaken × Ssl × Net C
  shake_hands zero p context n = (none, context, n)
  shake_hands (suc fuel) p context n =
      let (r, context', n') = ssl_handshake p context n in
      let rest = shake_hands fuel p context' n' in
      elim r [
        | finished ↦ (some finished, context', n')
        | broken code ↦ (some (broken code), context', n')
        | wants_more ↦ rest
      ]

  -- The end of `Connect`: the certificate of the server is looked at.
  unfoldable pub verify : TlsSocket Ssl → TlsResult × TlsSocket Ssl
  verify t = (
    if ssl_verify_result t.context == 0 then success else verify_failed,
    record t { connected = true },
  )

  -- `Connect` once the TCP connection is there.
  unfoldable pub start_tls :
      ℕ → ℕ → TlsSocket Ssl → Net C → Option TlsResult × TlsSocket Ssl × Net C
  start_tls fuel p t n =
      let (r, context, n') = shake_hands fuel p t.context n in
      let t' : TlsSocket Ssl = record t { context = context } in
      elim r [
        | none ↦ (none, t', n')
        | some wants_more ↦ (none, t', n')
        | some (broken code) ↦ (some (tls_error code), t', n')
        | some finished ↦ let (result, t'') = verify t' in (some result, t'', n')
      ]

  -- `Connect` with an address
  unfoldable pub connect_tls :
      ℕ → ℕ → ℕ → TlsSocket Ssl → Net C → Option (Option TlsResult × TlsSocket Ssl × Net C)
  connect_tls fuel ip port t n = elim t.adapted [
    | none ↦ some (some alloc_failed, t, n)
    | some p ↦ do
      assert (not t.connected)
      (result, n') ← connect_address C p ip port n
      some (elim result [ err e ↦ (some (net_error e), t, n') | ok _ ↦ start_tls fuel p t n' ])
  ]

  -- `Connect` with texts
  unfoldable pub connect_tls_host :
      ℕ
      → List ℕ
      → List ℕ
      → TlsSocket Ssl
      → Net C
      → Option (Option TlsResult × TlsSocket Ssl × Net C)
  connect_tls_host fuel host port t n = elim (parse_port modulus port) [
    | none ↦ some (some (net_error connect_failed), t, n)
    | some number ↦
        let (address, w) = resolve n.world host in
        let n' : Net C = record n { world = w } in
        elim address [
          | none ↦ some (some (net_error unknown_host), t, n')
          | some ip ↦ connect_tls fuel ip number t n'
        ]
  ]

  -- What `Receive` makes of an answer of `mbedtls_ssl_read`: no bytes are the end of the connection, which
  -- is an error, and no data for now is an assertion that the caller does not wait.
  unfoldable pub as_received : Bool → Reply → Option Received
  as_received dont_wait nothing_yet = assert dont_wait >> some (stored [])
  as_received dont_wait (got []) = some failed
  as_received dont_wait (got (b ∷ bs)) = some (stored (b ∷ bs))
  as_received dont_wait (broken_off code) = some failed

  -- `Receive`, with `MSG_DONTWAIT` or without
  unfoldable pub receive_tls :
      ℕ → Bool → TlsSocket Ssl → Net C → Option (Received × TlsSocket Ssl × Net C)
  receive_tls size dont_wait t n = do
    p ← t.adapted
    n₁ ← set_blocking C p (not dont_wait) n
    assert t.connected
    let (reply, context, n₂) = ssl_read p size t.context n₁
    received ← as_received dont_wait reply
    some (received, record t { context = context }, n₂)

  -- `Send`
  unfoldable pub send_tls : List ℕ → TlsSocket Ssl → Net C → Option (ℤ × TlsSocket Ssl × Net C)
  send_tls bytes t n = do
    assert t.connected
    p ← t.adapted
    let (r, context, n') = ssl_write p bytes t.context n
    some (r, record t { context = context }, n')
