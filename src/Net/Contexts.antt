-- ===== src/Net/Contexts.antt =====
-- The network routines of mbed TLS: src/circle-mbedtls/net_sockets.cpp.
use circle_stdlib.Common.{ℕ, Bool, false, not, List, Option, none, some, ltb, if◌then◌else◌, ◌>>=◌}
use circle_stdlib.Common.Int.{ℤ, pos, negsuc}
use circle_stdlib.Net.{
  accept_failed, bind_failed, socket_failed, invalid_context, buffer_too_small, alloc_failed,
  Result, ok, err, NetSubSystem,
}
use circle_stdlib.Net.Adapter.{
  Net, create_adapted, delete_adapted, connect_host, bind_port, accept_connection, receive_bytes,
  receive_timeout, send_bytes, set_blocking, get_handle, get_socket,
}

-- `mbedtls_net_context`
pub record Context : Type 0 where
  pub fd : ℤ

-- `sizeof (IP_ADDRESS_SIZE)`, the size of an `int`
abbrev pub int_size : ℕ
int_size = 4

-- Whether there is a buffer that is too small.
abbrev pub is_too_small : Option ℕ → Bool
is_too_small none = false
is_too_small (some n) = ltb n int_size

-- The address, if there is a buffer for it.
abbrev pub wanted : Option ℕ → ℕ → Option ℕ
wanted none ip = none
wanted (some n) ip = some ip

module _ (C : NetSubSystem) where
  open C use {World, has_memory}

  -- A call with a socket, and its result for a context without a socket.
  unfoldable pub with_socket :
      {A : Type 0} → Context → A → Net C → (ℕ → Option (A × Net C)) → Option (A × Net C)
  with_socket ctx invalid s f =
      get_socket C ctx.fd s >>= λ pointer. elim pointer [ none ↦ some (invalid, s) | some p ↦ f p ]

  -- The new socket for `mbedtls_net_connect` and `mbedtls_net_bind`, and what is done with it.
  unfoldable pub with_new_socket :
      Context
      → Net C
      → (ℕ → Net C → Option (Result (Unit {0}) × Net C))
      → Option (Result (Unit {0}) × Context × Net C)
  with_new_socket ctx s f =
      let (memory, w) = has_memory s.world in
      let s₁ : Net C = record s { world = w } in
      if not memory
      then some (err alloc_failed, ctx, s₁)
      else (let (p, s₂) = create_adapted C s₁ in
          get_handle C p s₂ >>= λ h. f p s₂ >>= λ r. some (r.0, record { fd = pos h }, r.1))

  unfoldable pub net_connect :
      Bool → List ℕ → List ℕ → Context → Net C → Option (Result (Unit {0}) × Context × Net C)
  net_connect tcp host port ctx s =
      if not tcp
      then some (err socket_failed, ctx, s)
      else with_new_socket ctx s (λ p s'. connect_host C p host port s')

  -- `bind_ip` has to be null.
  unfoldable pub net_bind :
      Bool → Bool → List ℕ → Context → Net C → Option (Result (Unit {0}) × Context × Net C)
  net_bind tcp has_ip port ctx s =
      if not tcp
      then some (err socket_failed, ctx, s)
      else if has_ip
      then some (err bind_failed, ctx, s)
      else with_new_socket ctx s (λ p s'. bind_port C p port s')

  -- With a buffer of `size` bytes for the foreign address, or without: the address, if it is wanted, and
  -- the context of the connection.
  unfoldable pub net_accept :
      Context → Context → Option ℕ → Net C → Option (Result (Option ℕ) × Context × Net C)
  net_accept bound client size s =
      if is_too_small size
      then some (err buffer_too_small, client, s)
      else (get_socket C bound.fd s >>= λ pointer. elim pointer [
        | none ↦ some (err invalid_context, client, s)
        | some p ↦ accept_connection C p s >>= λ r. elim r.0 [
          | err e ↦ some (err accept_failed, client, r.1)
          | ok result ↦ some (ok (wanted size result.1), record { fd = pos result.0 }, r.1)
        ]
      ])

  unfoldable pub net_set_block : Bool → Context → Net C → Option (Result (Unit {0}) × Net C)
  net_set_block block ctx s =
      with_socket ctx (err invalid_context) s
        (λ p. set_blocking C p block s >>= λ s'. some (ok tt, s'))

  unfoldable pub net_recv : Context → ℕ → Net C → Option (Result (List ℕ) × Net C)
  net_recv ctx n s = with_socket ctx (err invalid_context) s (λ p. receive_bytes C p n s)

  unfoldable pub net_recv_timeout :
      ℕ → Context → ℕ → ℕ → Net C → Option (Option (Result (List ℕ)) × Net C)
  net_recv_timeout fuel ctx n timeout s =
      with_socket ctx (some (err invalid_context)) s (λ p. receive_timeout C fuel p n timeout s)

  unfoldable pub net_send : Context → List ℕ → Net C → Option (Result ℕ × Net C)
  net_send ctx bytes s = with_socket ctx (err invalid_context) s (λ p. send_bytes C p bytes s)

  unfoldable pub net_free : Context → Net C → Option (Context × Net C)
  net_free ctx s = get_socket C ctx.fd s >>= λ pointer. elim pointer [
    | none ↦ some (record { fd = negsuc 0 }, s)
    | some p ↦ delete_adapted C p s >>= λ s'. some (record { fd = negsuc 0 }, s')
  ]
