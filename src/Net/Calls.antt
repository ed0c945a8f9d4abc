-- ===== src/Net/Calls.antt =====
-- Sequences of calls of the network routines of mbed TLS, but for mbedtls_net_accept.
use circle_stdlib.Common.{
  ℕ, zero, suc, ◌≤◌, ◌<◌, ◌≡◌, Bool, true, false, not, List, [], ◌∷◌, Option, none, some, length,
  get_elem?, get_elem?_lem, arith, if◌then◌else◌, ◌>>=◌, Holds, Holds->>=,
}
use circle_stdlib.Common.Int.{ℤ, pos, negsuc}
use circle_stdlib.Mqtt.{u32_mod}
use circle_stdlib.Net.{alloc_failed, Result, err, NetSubSystem}
use circle_stdlib.Net.Adapter.{
  AdaptedSocket, Net, object, create_adapted, delete_adapted, get_handle, get_socket, connect_host,
  bind_port, set_blocking, adapt,
}
use circle_stdlib.Net.Contexts.{
  Context, with_socket, with_new_socket, net_connect, net_bind, net_set_block, net_recv,
  net_recv_timeout, net_send, net_free,
}
use circle_stdlib.Net.Handles.{IsConsistent, record-IsConsistent}
use circle_stdlib.Net.Opening.{
  fresh, adapt-object, adapt-length, adapt-IsConsistent, delete_adapted-IsConsistent,
}
use circle_stdlib.Net.Kept.{
  Kept, AllFit, receive_bytes-Kept, receive_timeout-Kept, send_bytes-Kept, set_blocking-Kept,
  connect_host-Kept, bind_port-Kept,
}

-- A routine, with what it is called with besides its context.
pub data Call : Type 0 where
  call_connect : Bool → List ℕ → List ℕ → Call
  call_bind : Bool → Bool → List ℕ → Call
  call_set_block : Bool → Call
  call_recv : ℕ → Call
  call_recv_timeout : ℕ → ℕ → Call
  call_send : List ℕ → Call
  call_free : Call

module _ (C : NetSubSystem) where
  open C use {World, Socket, frame_size, has_memory, is_null, new_socket}

  -- There is memory for a CSocket.
  abbrev pub HasSockets : Type 0
  HasSockets = (w : World) → is_null (new_socket w).0 ≡ false

  -- The context and the state behind a call.
  abbrev pub run_call : ℕ → Call → Context → Net C → Option (Context × Net C)
  run_call fuel (call_connect tcp host port) ctx s =
      net_connect C tcp host port ctx s >>= λ (result, ctx', s'). some (ctx', s')
  run_call fuel (call_bind tcp has_ip port) ctx s =
      net_bind C tcp has_ip port ctx s >>= λ (result, ctx', s'). some (ctx', s')
  run_call fuel (call_set_block block) ctx s =
      net_set_block C block ctx s >>= λ (result, s'). some (ctx, s')
  run_call fuel (call_recv n) ctx s = net_recv C ctx n s >>= λ (result, s'). some (ctx, s')
  run_call fuel (call_recv_timeout n timeout) ctx s =
      net_recv_timeout C fuel ctx n timeout s >>= λ (result, s'). some (ctx, s')
  run_call fuel (call_send bytes) ctx s = net_send C ctx bytes s >>= λ (result, s'). some (ctx, s')
  run_call fuel call_free ctx s = net_free C ctx s

  -- No handle, or one that has been given out.
  abbrev pub IsGiven : ℤ → Net C → Type 0
  IsGiven (pos h) s = h < length s.table
  IsGiven (negsuc h) s = Unit

  pub IsGiven-mono :
      (fd : ℤ) (s s' : Net C) → length s.table ≤ length s'.table → IsGiven fd s → IsGiven fd s'
  IsGiven-mono (pos h) s s' l k = omega (arith, l, k)
  IsGiven-mono (negsuc h) s s' l k = tt

  abbrev pub After : Net C → Context × Net C → Type 0
  After s r = IsConsistent C r.1 × IsGiven r.0.fd r.1 × (length s.table ≤ length r.1.table)

  -- A handle stands for nothing or for an object.
  get_socket-IsGiven :
      (fd : ℤ) (s : Net C)
      → IsConsistent C s
      → IsGiven fd s
      → Holds
          (λ m. elim m as (λ _. Type 0) [
            | none ↦ Unit
            | some p ↦ (a : AdaptedSocket Socket) × (object C p s ≡ some a)
          ])
          (get_socket C fd s)
  unfolding get_socket
  get_socket-IsGiven (negsuc h) s v k = tt
  get_socket-IsGiven (pos h) s v k =
      let (slot, e) = get_elem?_lem s.table h k in rw e (by_slot slot e)
    where
      by_slot : (slot : Option ℕ) → get_elem? s.table h ≡ some slot → elim slot as (λ _. Type 0) [
        | none ↦ Unit
        | some p ↦ (a : AdaptedSocket Socket) × (object C p s ≡ some a)
      ]
      by_slot none e = tt
      by_slot (some p) e = let (a, f, k) = v.points h p e in (a, f)

  -- A call that uses a socket.
  with_socket-Kept :
      {A : Type 0} (ctx : Context) (invalid : A) (s : Net C) (f : ℕ → Option (A × Net C))
      → IsConsistent C s
      → IsGiven ctx.fd s
      → ((p : ℕ) (a : AdaptedSocket Socket) → object C p s ≡ some a → Holds (Kept C s) (f p))
      → Holds (Kept C s) (with_socket C ctx invalid s f)
  unfolding with_socket
  with_socket-Kept ctx invalid s f v k each =
      Holds->>= _ _ (get_socket C ctx.fd s) _ (get_socket-IsGiven ctx.fd s v k)
        (λ m h. by_pointer m h)
    where
      by_pointer :
          (m : Option ℕ)
          → elim m as (λ _. Type 0) [
            | none ↦ Unit
            | some p ↦ (a : AdaptedSocket Socket) × (object C p s ≡ some a)
          ]
          → Holds (Kept C s) (elim m [ none ↦ some (invalid, s) | some p ↦ f p ])
      by_pointer none h = (v, omega arith)
      by_pointer (some p) h = each p h.0 h.1

  -- Its context stays the same.
  same_context :
      {A : Type 0} (ctx : Context) (s : Net C) (m : Option (A × Net C))
      → IsGiven ctx.fd s
      → Holds (Kept C s) m
      → Holds (After s) (m >>= λ (result, s'). some (ctx, s'))
  same_context ctx s m k h = Holds->>= _ _ m _ h (λ r (v, l). (v, IsGiven-mono ctx.fd s r.1 l k, l))

  pub get_elem?_lt :
      (t : List (Option ℕ)) (h : ℕ) (o : Option ℕ) → get_elem? t h ≡ some o → h < length t
  get_elem?_lt [] h o e = cc
  get_elem?_lt (x ∷ t) zero o e = omega arith
  get_elem?_lt (x ∷ t) (suc h) o e = omega (arith, get_elem?_lt t h o e)

  -- A call that makes a socket.
  with_new_socket-After :
      (ctx : Context) (s : Net C) (f : ℕ → Net C → Option (Result (Unit {0}) × Net C))
      → HasSockets
      → IsConsistent C s
      → IsGiven ctx.fd s
      → ((p : ℕ) (s' : Net C) (a : AdaptedSocket Socket)
          → object C p s' ≡ some a
          → IsConsistent C s'
          → Holds (Kept C s') (f p s'))
      → Holds (λ r. After s (r.1, r.2)) (with_new_socket C ctx s f)
  unfolding with_new_socket create_adapted get_handle adapt
  with_new_socket-After ctx s f sockets v k each = by_memory (has_memory s.world).0
    where
      s₀ : Net C
      s₀ = record s { world = (new_socket (has_memory s.world).1).1 }

      socket : Socket
      socket = (new_socket (has_memory s.world).1).0

      made : Net C
      made = (adapt C socket s₀).1

      made-IsConsistent : IsConsistent C made
      made-IsConsistent = adapt-IsConsistent C socket s₀ (sockets _) (record-IsConsistent C s _ v)

      given : (fresh C socket s₀).handle < length made.table
      given = get_elem?_lt made.table (fresh C socket s₀).handle (some (length s.objects)) (
          made-IsConsistent.in_table (length s.objects) (fresh C socket s₀)
            (adapt-object C socket s₀))

      longer : length s.table ≤ length made.table
      longer = adapt-length C s.table (length s.objects)

      by_memory :
          (memory : Bool)
          → Holds {A = Result (Unit {0}) × Context × Net C}
              (λ r. After s (r.1, r.2))
              (if not memory
                then some (err alloc_failed, ctx, record s { world = (has_memory s.world).1 })
                else ((object C (length s.objects) made >>= λ a. some a.handle) >>= λ h.
                    f (length s.objects) made >>= λ r. some (r.0, record { fd = pos h }, r.1)))
      by_memory false =
          (record-IsConsistent C s _ v, IsGiven-mono ctx.fd s _ (omega arith) k, omega arith)
      by_memory true = rw (adapt-object C socket s₀) (
          Holds->>= _ _ (f (length s.objects) made) _
            (each (length s.objects) made (fresh C socket s₀) (adapt-object C socket s₀)
              made-IsConsistent)
            (λ r (w, l). (w, omega (arith, given, l), omega (arith, longer, l))))

  net_free-After :
      (ctx : Context) (s : Net C)
      → IsConsistent C s
      → IsGiven ctx.fd s
      → Holds (After s) (net_free C ctx s)
  unfolding net_free
  net_free-After ctx s v k =
      Holds->>= _ _ (get_socket C ctx.fd s) _ (get_socket-IsGiven ctx.fd s v k)
        (λ m h. by_pointer m h)
    where
      by_pointer :
          (m : Option ℕ)
          → elim m as (λ _. Type 0) [
            | none ↦ Unit
            | some p ↦ (a : AdaptedSocket Socket) × (object C p s ≡ some a)
          ]
          → Holds (After s) (elim m [
            | none ↦ some (record { fd = negsuc 0 }, s)
            | some p ↦ delete_adapted C p s >>= λ s'. some (record { fd = negsuc 0 }, s')
          ])
      by_pointer none h = (v, tt, omega arith)
      by_pointer (some p) h =
          Holds->>= _ _ (delete_adapted C p s) _ (delete_adapted-IsConsistent C p s h.0 h.1 v)
            (λ s' (w, l). (w, tt, omega (arith, l)))

  -- One call.
  pub run_call-After :
      (fuel : ℕ) (call : Call) (ctx : Context) (s : Net C)
      → AllFit C
      → HasSockets
      → frame_size < u32_mod
      → IsConsistent C s
      → IsGiven ctx.fd s
      → Holds (After s) (run_call fuel call ctx s)
  unfolding net_connect net_bind net_set_block net_recv net_recv_timeout net_send
  run_call-After fuel (call_connect false host port) ctx s fit sockets small v k =
      (v, k, omega arith)
  run_call-After fuel (call_connect true host port) ctx s fit sockets small v k =
      Holds->>= _ _ (with_new_socket C ctx s (λ p s'. connect_host C p host port s')) _
        (with_new_socket-After ctx s (λ p s'. connect_host C p host port s') sockets v k
          (λ p s' a e w. connect_host-Kept C p host port s' a e w))
        (λ r h. h)
  run_call-After fuel (call_bind false has_ip port) ctx s fit sockets small v k =
      (v, k, omega arith)
  run_call-After fuel (call_bind true true port) ctx s fit sockets small v k = (v, k, omega arith)
  run_call-After fuel (call_bind true false port) ctx s fit sockets small v k =
      Holds->>= _ _ (with_new_socket C ctx s (λ p s'. bind_port C p port s')) _
        (with_new_socket-After ctx s (λ p s'. bind_port C p port s') sockets v k
          (λ p s' a e w. bind_port-Kept C p port s' a e w))
        (λ r h. h)
  run_call-After fuel (call_set_block block) ctx s fit sockets small v k = same_context ctx s _ k (
      with_socket-Kept ctx _ s _ v k (λ p a e.
        Holds->>= _ _ (set_blocking C p block s) _ (set_blocking-Kept C p block s a e v)
          (λ s' h. h)))
  run_call-After fuel (call_recv n) ctx s fit sockets small v k =
      same_context ctx s _ k
        (with_socket-Kept ctx _ s _ v k (λ p a e. receive_bytes-Kept C p n s a e fit small v))
  run_call-After fuel (call_recv_timeout n timeout) ctx s fit sockets small v k =
      same_context ctx s _ k (
        with_socket-Kept ctx _ s _ v k
          (λ p a e. receive_timeout-Kept C fuel p n timeout s a e fit small v))
  run_call-After fuel (call_send bytes) ctx s fit sockets small v k =
      same_context ctx s _ k
        (with_socket-Kept ctx _ s _ v k (λ p a e. send_bytes-Kept C p bytes s a e v))
  run_call-After fuel call_free ctx s fit sockets small v k = net_free-After ctx s v k
