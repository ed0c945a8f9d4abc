-- ===== src/Net/Kept.antt =====
-- The methods of CAdaptedSocket for an object that exists: the table of the handles and the objects.
use circle_stdlib.Common.{
  ℕ, zero, suc, ◌+◌, ◌≤◌, ◌<◌, ◌≡◌, refl, sym, ◌∙◌, subst, Bool, true, false, not, List, [], ◌∷◌,
  Option, some, length, take, drop, leb, le→leb, ◌%◌, ◌-◌, ◌==◌, arith, if◌then◌else◌, ◌>>=◌, ◌>>◌,
  assert, Holds, Holds->>=, Holds-mono, Holds-known, Holds-if, Holds-elim, Holds-result,
}
use circle_stdlib.Common.Int.{is_negative}
use circle_stdlib.Mqtt.{u32_mod}
use circle_stdlib.Mqtt.ReceivePacket.{Received, failed, stored}
use circle_stdlib.Net.{NetSubSystem}
use circle_stdlib.Net.Adapter.{
  AdaptedSocket, Net, object, set_object, available, take_bytes, refill, hand_over, end_receive,
  receive_bytes, Waited, arrived, closed, late, waiting, wait_bytes, end_wait, receive_timeout,
  send_bytes, set_blocking, parse_port, connect_address, connect_host, bind_port,
}
use circle_stdlib.Net.Stream.{Pending, Taken, take_bytes_lem}
use circle_stdlib.Net.Waiting.{Fits}
use circle_stdlib.Net.Handles.{IsConsistent, record-IsConsistent, set_object-IsConsistent}

module _ (C : NetSubSystem) where
  open C use {
    World, Socket, frame_size, modulus, socket_connect, socket_bind, socket_listen, socket_receive,
    socket_send, resolve, yield_task, get_ticks, msec2hz,
  }

  -- The state behind a call is consistent, and no slot of the table has gone.
  abbrev pub Kept : Net C → {A : Type 0} → A × Net C → Type 0
  Kept s r = IsConsistent C r.1 × (length s.table ≤ length r.1.table)

  -- What the CSockets deliver is not longer than a frame.
  abbrev pub AllFit : Type 0
  AllFit =
      (w : World) (s : Socket) (dont_wait : Bool)
      → Fits frame_size (socket_receive w s frame_size dont_wait).0

  -- Nor is what has arrived behind the loop.
  abbrev FitsIn : Waited C → Type 0
  FitsIn (arrived bytes w) = length bytes ≤ frame_size
  FitsIn (closed w) = Unit
  FitsIn (late w) = Unit
  FitsIn (waiting w) = Unit

  world_only :
      (s : Net C) (w : World)
      → IsConsistent C s
      → IsConsistent C (record s { world = w }) × (length s.table ≤ length s.table)
  world_only s w v = (record-IsConsistent C s w v, omega arith)

  -- The assertion on the CSocket of an object.
  existing :
      {A : Type 0} (s : Net C) (p : ℕ) (a : AdaptedSocket Socket) (m : Option (A × Net C))
      → object C p s ≡ some a
      → IsConsistent C s
      → Holds (Kept s) m
      → Holds (Kept s) (assert (not (C.is_null a.socket)) >> m)
  existing s p a m e v h = rw (v.sound p a e).exists h

  pub hand_over-Kept :
      (p n : ℕ) (s : Net C) (a a' : AdaptedSocket Socket) (pend : List ℕ)
      → object C p s ≡ some a
      → a'.handle ≡ a.handle
      → Pending C a' pend
      → IsConsistent C s
      → Holds (Kept s) (hand_over C p n a' s)
  unfolding hand_over
  hand_over-Kept p n s a a' pend e same h v =
      let (r, known, t) =
        Holds-result (Taken C a' (take n pend) (drop n pend)) (take_bytes C n a')
          (take_bytes_lem C n a' pend h) in
      rw known (
        Holds->>= _ _ (set_object C p (some r.1) s) _
          (set_object-IsConsistent C p s a r.1 e (t.4 ∙ same)
            (subst (Pending C r.1) (sym t.1.rest) t.1) v)
          (λ s' k. (k.0, omega (arith, k.1))))

  -- The object's buffer is filled.
  refill-Kept :
      (p n : ℕ) (s : Net C) (a : AdaptedSocket Socket) (bytes : List ℕ) (w : World)
      → object C p s ≡ some a
      → length bytes ≤ frame_size
      → frame_size < u32_mod
      → IsConsistent C s
      → Holds (Kept s) (refill C bytes a >>= λ a'. hand_over C p n a' (record s { world = w }))
  unfolding refill object
  refill-Kept p n s a bytes w e l small v = rw (le→leb (length bytes) frame_size l) (
      hand_over-Kept p n (record s { world = w }) a
        (record a { rx = bytes; valid = length bytes; used = 0 }) bytes e refl
        (record {
          rest = refl;
          whole = refl;
          inside = omega arith;
          small = omega (arith, l, small);
          exists = (v.sound p a e).exists;
        })
        (record-IsConsistent C s w v))

  end_receive-Kept :
      (p n : ℕ) (s : Net C) (a : AdaptedSocket Socket) (r : Received) (w : World)
      → object C p s ≡ some a
      → Fits frame_size r
      → frame_size < u32_mod
      → IsConsistent C s
      → Holds (Kept s) (end_receive C p n a s r w)
  unfolding end_receive
  end_receive-Kept p n s a failed w e f small v = world_only s w v
  end_receive-Kept p n s a (stored []) w e f small v = world_only s (yield_task w) v
  end_receive-Kept p n s a (stored (b ∷ bs)) w e f small v =
      refill-Kept p n s a (b ∷ bs) w e f small v

  -- What is in the object's buffer is handed over.
  rest-Kept :
      (p n : ℕ) (s : Net C) (a : AdaptedSocket Socket)
      → object C p s ≡ some a
      → IsConsistent C s
      → Holds (Kept s) (hand_over C p n a s)
  rest-Kept p n s a e v = hand_over-Kept p n s a a (drop a.used a.rx) e refl (v.sound p a e) v

  pub receive_bytes-Kept :
      (p n : ℕ) (s : Net C) (a : AdaptedSocket Socket)
      → object C p s ≡ some a
      → AllFit
      → frame_size < u32_mod
      → IsConsistent C s
      → Holds (Kept s) (receive_bytes C p n s)
  unfolding receive_bytes
  receive_bytes-Kept p n s a e fit small v = Holds-known _ _ a _ e (
      Holds-if (Kept s) (not (available C a == 0)) _ _ (rest-Kept p n s a e v) (
        existing s p a _ e v
          (end_receive-Kept p n s a _ _ e (fit s.world a.socket (not a.block)) small v)))

  -- The result of a call is put into another one.
  in_some-Kept :
      {A B : Type 0} (s : Net C) (f : A → B) (m : Option (A × Net C))
      → Holds (Kept s) m
      → Holds (Kept s) (m >>= λ (a, s'). some (f a, s'))
  in_some-Kept s f m h = Holds->>= _ _ m _ h (λ r k. k)

  end_wait-Kept :
      (p n : ℕ) (s : Net C) (a : AdaptedSocket Socket) (r : Waited C)
      → object C p s ≡ some a
      → FitsIn r
      → frame_size < u32_mod
      → IsConsistent C s
      → Holds (Kept s) (end_wait C p n a s r)
  unfolding end_wait
  end_wait-Kept p n s a (closed w) e f small v = world_only s w v
  end_wait-Kept p n s a (late w) e f small v = world_only s w v
  end_wait-Kept p n s a (waiting w) e f small v = world_only s w v
  end_wait-Kept p n s a (arrived bytes w) e f small v =
      in_some-Kept s some _ (refill-Kept p n s a bytes w e f small v)

  wait_bytes-FitsIn :
      (fuel : ℕ) (socket : Socket) (dont_wait : Bool) (start timeout : ℕ) (w : World)
      → AllFit
      → FitsIn (wait_bytes C fuel socket dont_wait start timeout w)
  unfolding wait_bytes
  wait_bytes-FitsIn zero socket dont_wait start timeout w fit = tt
  wait_bytes-FitsIn (suc fuel) socket dont_wait start timeout w fit =
      by_result (socket_receive w socket frame_size dont_wait).0 _ _ (fit w socket dont_wait) (
        by_test (leb timeout (((get_ticks w₂).0 + u32_mod - start) % u32_mod))
          (late (get_ticks w₂).1) _ tt
          (wait_bytes-FitsIn fuel socket dont_wait start timeout (get_ticks w₂).1 fit))
    where
      w₂ : World
      w₂ = yield_task (socket_receive w socket frame_size dont_wait).1

      by_test : (b : Bool) (x y : Waited C) → FitsIn x → FitsIn y → FitsIn (if b then x else y)
      by_test true x y f g = f
      by_test false x y f g = g

      by_result :
          (r : Received) (w' : World) (z : Waited C)
          → Fits frame_size r
          → FitsIn z
          → FitsIn (elim r as (λ _. Waited C) [
            | failed ↦ closed w'
            | stored (b ∷ bs) ↦ arrived (b ∷ bs) w'
            | stored [] ↦ z
          ])
      by_result failed w' z f g = tt
      by_result (stored (b ∷ bs)) w' z f g = f
      by_result (stored []) w' z f g = g

  pub receive_timeout-Kept :
      (fuel p n timeout : ℕ) (s : Net C) (a : AdaptedSocket Socket)
      → object C p s ≡ some a
      → AllFit
      → frame_size < u32_mod
      → IsConsistent C s
      → Holds (Kept s) (receive_timeout C fuel p n timeout s)
  unfolding receive_timeout
  receive_timeout-Kept fuel p n timeout s a e fit small v = Holds-known _ _ a _ e (
      Holds-if (Kept s) (not (available C a == 0)) _ _
        (in_some-Kept s some _ (rest-Kept p n s a e v))
        (existing s p a _ e v
          (end_wait-Kept p n s a _ e (wait_bytes-FitsIn fuel a.socket _ _ _ _ fit) small v)))

  pub send_bytes-Kept :
      (p : ℕ) (bytes : List ℕ) (s : Net C) (a : AdaptedSocket Socket)
      → object C p s ≡ some a
      → IsConsistent C s
      → Holds (Kept s) (send_bytes C p bytes s)
  unfolding send_bytes
  send_bytes-Kept p bytes s a e v = Holds-known _ _ a _ e (existing s p a _ e v (world_only s _ v))

  pub set_blocking-Kept :
      (p : ℕ) (block : Bool) (s : Net C) (a : AdaptedSocket Socket)
      → object C p s ≡ some a
      → IsConsistent C s
      → Holds
          (λ s'. IsConsistent C s' × (length s.table ≤ length s'.table))
          (set_blocking C p block s)
  unfolding set_blocking
  set_blocking-Kept p block s a e v = Holds-known _ _ a _ e (
      Holds-mono _ _ (set_object C p (some (record a { block = block })) s)
        (λ s' k. (k.0, omega (arith, k.1)))
        (set_object-IsConsistent C p s a (record a { block = block }) e refl
          (record {
            rest = refl;
            whole = h.whole;
            inside = h.inside;
            small = h.small;
            exists = h.exists;
          })
          v))
    where
      h : Pending C a (drop a.used a.rx)
      h = v.sound p a e

  connect_address-Kept :
      (p ip port : ℕ) (s : Net C) (a : AdaptedSocket Socket)
      → object C p s ≡ some a
      → IsConsistent C s
      → Holds (Kept s) (connect_address C p ip port s)
  unfolding connect_address
  connect_address-Kept p ip port s a e v =
      Holds-known _ _ a _ e (existing s p a _ e v (world_only s _ v))

  pub connect_host-Kept :
      (p : ℕ) (host port : List ℕ) (s : Net C) (a : AdaptedSocket Socket)
      → object C p s ≡ some a
      → IsConsistent C s
      → Holds (Kept s) (connect_host C p host port s)
  unfolding connect_host object
  connect_host-Kept p host port s a e v =
      Holds-elim (Kept s) (parse_port modulus port) _ _ (v, omega arith)
        (λ number. Holds-elim (Kept s) (resolve s.world host).0 _ _ (world_only s _ v) (λ ip.
          connect_address-Kept p ip number (record s { world = (resolve s.world host).1 }) a e
            (record-IsConsistent C s _ v)))

  pub bind_port-Kept :
      (p : ℕ) (port : List ℕ) (s : Net C) (a : AdaptedSocket Socket)
      → object C p s ≡ some a
      → IsConsistent C s
      → Holds (Kept s) (bind_port C p port s)
  unfolding bind_port
  bind_port-Kept p port s a e v =
      Holds-elim (Kept s) (parse_port modulus port) _ _ (v, omega arith)
        (λ number. Holds-known _ _ a _ e (
          existing s p a _ e v (
            Holds-if (Kept s) (is_negative (socket_bind s.world a.socket number).0) _ _
              (world_only s _ v) (world_only s _ v))))
