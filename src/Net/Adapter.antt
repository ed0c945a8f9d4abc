-- ===== src/Net/Adapter.antt =====
-- CAdaptedSocket: include/circle-mbedtls/adaptedsocket.h and src/circle-mbedtls/adaptedsocket.cpp. A
-- failed assertion and an access to a deleted object or behind the end of an array is a missing result.
use circle_stdlib.Common.{
  ℕ, zero, suc, ◌+◌, ◌-◌, ◌%◌, Bool, true, not, ◌||◌, List, [], ◌∷◌, ◌++◌, Option, none, some,
  length, get_elem?, take, drop, ltb, leb, ◌==◌, if◌then◌else◌, ◌>>=◌, ◌>>◌, assert, copy_in,
}
use circle_stdlib.Common.Int.{ℤ, pos, negsuc, is_negative}
use circle_stdlib.Common.Chars.{strtoul}
use circle_stdlib.Mqtt.{u32_mod}
use circle_stdlib.Mqtt.ReceivePacket.{Received, failed, stored}
use circle_stdlib.Net.{
  connect_failed, unknown_host, bind_failed, accept_failed, send_failed, alloc_failed, want_read,
  timed_out, Result, ok, err, NetSubSystem,
}

-- The object. `rx` is what the last call of `Receive` of the CSocket has stored in `m_RxBuffer`.
pub record AdaptedSocket (S : Type 0) : Type 0 where
  pub socket : S
  pub handle : ℕ
  pub rx : List ℕ
  pub valid : ℕ
  pub used : ℕ
  pub block : Bool

-- `s_SocketArray`, whose elements are pointers or null, and the objects that the pointers stand for, in the
-- order of their creation; a deleted object is `none`.
pub record Sockets (W S : Type 0) : Type 0 where
  pub table : List (Option ℕ)
  pub objects : List (Option (AdaptedSocket S))
  pub world : W

-- `AddSocket`: the first free slot, or a new one.
unfoldable pub add_socket : ℕ → List (Option ℕ) → ℕ × List (Option ℕ)
add_socket p [] = (0, some p ∷ [])
add_socket p (none ∷ t) = (0, some p ∷ t)
add_socket p (some q ∷ t) = let (h, t') = add_socket p t in (suc h, some q ∷ t')

-- `DeleteSocket`
unfoldable pub remove_socket : ℕ → List (Option ℕ) → Option (List (Option ℕ))
remove_socket h t = copy_in t h (none ∷ [])

-- The number of a port, as text: `none` if it is none.
unfoldable pub parse_port : ℕ → List ℕ → Option ℕ
parse_port modulus text =
    let (port, used) = strtoul modulus 10 text in
    if ltb used (length text) || (port == 0 || ltb 65535 port) then none else some port

module _ (C : NetSubSystem) where
  open C use {
    World, Socket, frame_size, modulus, has_memory, is_null, new_socket, delete_socket,
    socket_connect, socket_bind, socket_listen, socket_accept, socket_receive, socket_send, resolve,
    yield_task, get_ticks, msec2hz,
  }

  abbrev pub Net : Type 0
  Net = Sockets World Socket

  abbrev pub flatten : {A : Type 0} → Option (Option A) → Option A
  flatten m = m >>= λ a. a

  -- The object that a pointer stands for.
  unfoldable pub object : ℕ → Net → Option (AdaptedSocket Socket)
  object p n = flatten (get_elem? n.objects p)

  unfoldable pub set_object : ℕ → Option (AdaptedSocket Socket) → Net → Option Net
  set_object p o n =
      copy_in n.objects p (o ∷ []) >>= λ objects. some (record n { objects = objects })

  -- The constructor for a CSocket: the pointer to the new object.
  unfoldable pub adapt : Socket → Net → ℕ × Net
  adapt s n =
      let p = length n.objects in
      let (h, t) = add_socket p n.table in
      let a : AdaptedSocket Socket = record {
        socket = s;
        handle = h;
        rx = [];
        valid = 0;
        used = 0;
        block = true;
      } in
      (p, record n { table = t; objects = n.objects ++ (some a ∷ []) })

  -- The constructor that makes the CSocket itself. It does not look at the pointer, which may be null.
  unfoldable pub create_adapted : Net → ℕ × Net
  create_adapted n = let (s, w) = new_socket n.world in adapt s (record n { world = w })

  -- The destructor
  unfoldable pub delete_adapted : ℕ → Net → Option Net
  delete_adapted p n = do
    a ← object p n
    table ← remove_socket a.handle n.table
    set_object p none (record n { table = table; world = delete_socket n.world a.socket })

  -- `Connect` with an address
  unfoldable pub connect_address : ℕ → ℕ → ℕ → Net → Option (Result (Unit {0}) × Net)
  connect_address p ip port n = do
    a ← object p n
    assert (not (is_null a.socket))
    let (r, w) = socket_connect n.world a.socket ip port
    some (if is_negative r then err connect_failed else ok tt, record n { world = w })

  -- `Connect` with texts
  unfoldable pub connect_host : ℕ → List ℕ → List ℕ → Net → Option (Result (Unit {0}) × Net)
  connect_host p host port n = elim (parse_port modulus port) [
    | none ↦ some (err connect_failed, n)
    | some number ↦
        let (address, w) = resolve n.world host in
        let n' : Net = record n { world = w } in
        elim address [
          | none ↦ some (err unknown_host, n')
          | some ip ↦ connect_address p ip number n'
        ]
  ]

  unfoldable pub bind_port : ℕ → List ℕ → Net → Option (Result (Unit {0}) × Net)
  bind_port p port n = elim (parse_port modulus port) [
    | none ↦ some (err connect_failed, n)
    | some number ↦ do
      a ← object p n
      assert (not (is_null a.socket))
      let (bound, w) = socket_bind n.world a.socket number
      if is_negative bound
          then some (err bind_failed, record n { world = w })
          else (let (listening, w') = socket_listen w a.socket in
              some
                (if is_negative listening then err bind_failed else ok tt, record n { world = w' }))
  ]

  -- The new object for an accepted connection: `AddSocket` is called for it once more.
  unfoldable pub adopt : Socket → Net → ℕ × Net
  adopt s n =
      let (p, n') = adapt s n in let (h, t) = add_socket p n'.table in (h, record n' { table = t })

  -- `Accept`: the handle, and the foreign address that is copied if the caller asks for it.
  unfoldable pub accept_connection : ℕ → Net → Option (Result (ℕ × ℕ) × Net)
  accept_connection p n = do
    a ← object p n
    assert (not (is_null a.socket))
    let (connection, w) = socket_accept n.world a.socket
    elim connection [
      | none ↦ some (err accept_failed, record n { world = w })
      | some (s, ip) ↦
          let (memory, w') = has_memory w in
          if not memory
          then some (err alloc_failed, record n { world = delete_socket w' s })
          else (let (h, n') = adopt s (record n { world = w' }) in some (ok (h, ip), n'))
    ]

  -- The number of bytes that have not been read.
  unfoldable pub available : AdaptedSocket Socket → ℕ
  available a = (a.valid + u32_mod - a.used) % u32_mod

  -- The bytes for a buffer of `n` bytes, and the object behind it.
  unfoldable pub take_bytes : ℕ → AdaptedSocket Socket → Option (List ℕ × AdaptedSocket Socket)
  take_bytes n a =
      let k = if ltb (available a) n then available a else n in
      assert (leb (a.used + k) (length a.rx))
      >> some (take k (drop a.used a.rx), record a { used = (a.used + k) % u32_mod })

  -- What `Receive` of the CSocket has stored.
  unfoldable pub refill : List ℕ → AdaptedSocket Socket → Option (AdaptedSocket Socket)
  refill bytes a =
      assert (leb (length bytes) frame_size)
      >> some (record a { rx = bytes; valid = length bytes; used = 0 })

  -- The end of `Receive` and `ReceiveTimeout`.
  unfoldable pub hand_over : ℕ → ℕ → AdaptedSocket Socket → Net → Option (Result (List ℕ) × Net)
  hand_over p n a s = do
    (bytes, a') ← take_bytes n a
    s' ← set_object p (some a') s
    some (ok bytes, s')

  -- What `Receive` does with the answer of the CSocket. No bytes are the end of the stream.
  unfoldable pub end_receive :
      ℕ → ℕ → AdaptedSocket Socket → Net → Received → World → Option (Result (List ℕ) × Net)
  end_receive p n a s failed w = some (ok [], record s { world = w })
  end_receive p n a s (stored []) w = some (err want_read, record s { world = yield_task w })
  end_receive p n a s (stored (b ∷ bs)) w =
      refill (b ∷ bs) a >>= λ a'. hand_over p n a' (record s { world = w })

  -- `Receive`
  unfoldable pub receive_bytes : ℕ → ℕ → Net → Option (Result (List ℕ) × Net)
  receive_bytes p n s = do
    a ← object p s
    if not (available a == 0)
        then hand_over p n a s
        else (assert (not (is_null a.socket))
            >> (let (r, w) = socket_receive s.world a.socket frame_size (not a.block) in
                end_receive p n a s r w))

  -- What the loop of `ReceiveTimeout` ends with, if not by its fuel.
  pub data Waited : Type 0 where
    arrived : List ℕ → World → Waited
    closed : World → Waited
    late : World → Waited
    waiting : World → Waited

  -- The loop, from the ticks `start` on and for `timeout` of them.
  unfoldable pub wait_bytes : ℕ → Socket → Bool → ℕ → ℕ → World → Waited
  wait_bytes zero socket dont_wait start timeout w = waiting w
  wait_bytes (suc fuel) socket dont_wait start timeout w =
      let (r, w₁) = socket_receive w socket frame_size dont_wait in
      elim r [
        | failed ↦ closed w₁
        | stored (b ∷ bs) ↦ arrived (b ∷ bs) w₁
        | stored [] ↦
            let (now, w₂) = get_ticks (yield_task w₁) in
            let rest = wait_bytes fuel socket dont_wait start timeout w₂ in
            if leb timeout ((now + u32_mod - start) % u32_mod) then late w₂ else rest
      ]

  -- What `ReceiveTimeout` does behind its loop; a missing `Result` is a loop that has used up its fuel.
  unfoldable pub end_wait :
      ℕ → ℕ → AdaptedSocket Socket → Net → Waited → Option (Option (Result (List ℕ)) × Net)
  end_wait p n a s (closed w) = some (some (ok []), record s { world = w })
  end_wait p n a s (late w) = some (some (err timed_out), record s { world = w })
  end_wait p n a s (waiting w) = some (none, record s { world = w })
  end_wait p n a s (arrived bytes w) = do
    (result, s') ← refill bytes a >>= λ a'. hand_over p n a' (record s { world = w })
    some (some result, s')

  -- `ReceiveTimeout`
  unfoldable pub receive_timeout : ℕ → ℕ → ℕ → ℕ → Net → Option (Option (Result (List ℕ)) × Net)
  receive_timeout fuel p n timeout s = do
    a ← object p s
    if not (available a == 0)
        then (hand_over p n a s >>= λ (result, s'). some (some result, s'))
        else (assert (not (is_null a.socket))
            >> (let (start, w) = get_ticks s.world in
                end_wait p n a s
                  (wait_bytes fuel a.socket (not (timeout == 0)) start (msec2hz timeout) w)))

  -- `Send`: the number of bytes that were sent.
  unfoldable pub send_bytes : ℕ → List ℕ → Net → Option (Result ℕ × Net)
  send_bytes p bytes s = do
    a ← object p s
    assert (not (is_null a.socket))
    let (r, w) = socket_send s.world a.socket bytes
    some (elim r [ pos k ↦ ok k | negsuc k ↦ err send_failed ], record s { world = w })

  -- `SetOptionBlocking`
  unfoldable pub set_blocking : ℕ → Bool → Net → Option Net
  set_blocking p block s = object p s >>= λ a. set_object p (some (record a { block = block })) s

  -- `GetHandle`
  unfoldable pub get_handle : ℕ → Net → Option ℕ
  get_handle p s = object p s >>= λ a. some a.handle

  -- `Get`: null for a negative handle.
  unfoldable pub get_socket : ℤ → Net → Option (Option ℕ)
  get_socket (negsuc h) s = some none
  get_socket (pos h) s = get_elem? s.table h
