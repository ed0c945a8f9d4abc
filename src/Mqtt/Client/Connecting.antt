-- ===== src/Mqtt/Client/Connecting.antt =====
-- CMQTTClient::Connect on a client that satisfies the invariant.
use circle_stdlib.Common.{
  ℕ, ◌<◌, ◌≡◌, refl, sym, ap, ◌∙◌, inl, inr, Bool, true, false, not, List, Option, none, some,
  length, Holds, Holds->>=, Holds-if, Holds-elim, arith, if◌then◌else◌,
}
use circle_stdlib.Common.Int.{eq_ℕ}
use circle_stdlib.Mqtt.{connect}
use circle_stdlib.Mqtt.ReceivePacket
use circle_stdlib.Mqtt.Client.{
  Client, Circle, send_failed, dns_error, connect_failed, insufficient_resources, ssl_setup_failed,
  is_disconnected,
}
use circle_stdlib.Mqtt.Client.Connection.{is_activity, new_packet, close_connection, send_packet}
use circle_stdlib.Mqtt.Client.Requests.{
  ConnectOptions, build_connect, established, choose_identifier, start_session, abandon, connect_to,
}
use circle_stdlib.Mqtt.Client.Invariant.{IsValid, IsFriendly, close_connection-IsValid}
use circle_stdlib.Mqtt.Client.Sending.{Sent, send_packet-IsValid, world-IsValid}
use circle_stdlib.Mqtt.Client.Retained.{new_packet_lem}
use circle_stdlib.Mqtt.Client.Methods.{Built}
use circle_stdlib.Mqtt.Client.ConnectPacket.{IsWritable, connect-Built, IsShort}

module _ (C : Circle) (F : IsFriendly C) where
  open C use {
    World, resolve, has_memory, setup_tls, open_connection, close_socket, default_identifier,
    on_disconnect,
  }

  -- The client is disconnected, and it has a socket for the session that starts.
  pub established-IsValid :
      (o : ConnectOptions) (c : Client World)
      → IsValid C c
      → is_disconnected c.status ≡ true
      → IsValid C (established C o (record c { socket_open = true }))
  unfolding established ReceivePacket.reset
  established-IsValid o c v e = record {
    socket = refl;
    idle = inl refl;
    timer = inl refl;
    waiting = inl refl;
    size = v.size;
    next_range = omega arith;
    next_nonzero = inr (omega arith);
    queued = v.queued;
    usable = record {
      buf = v.usable.buf;
      memory = v.usable.memory;
      bytes = v.usable.bytes;
      size = v.usable.size;
      received = omega arith;
      room = v.usable.room;
      positive = v.usable.positive;
      range = v.usable.range;
    };
  }

  pub start_session-IsValid :
      (o : ConnectOptions) (c : Client World)
      → IsWritable o
      → ((w : World) → length (default_identifier w).0 < 65536)
      → IsValid C (established C o c)
      → Holds (IsValid C) (start_session C o c)
  unfolding start_session
  start_session-IsValid o c w n v =
      let chosen = choose_identifier C o (established C o c) in
      let (l, v₁) = choice o.client_identifier w.identifier refl in
      Holds->>= _ (IsValid C) (new_packet C connect chosen.1.max_packet_size chosen.1) _
        (new_packet_lem C connect chosen.1.max_packet_size chosen.1 F v₁ v₁.size.0 v₁.size.1)
        (λ (p, d) (s, e, v₂, _, _).
          Holds->>= (Built connect) (IsValid C) (build_connect o chosen.0 p) _
            (connect-Built o chosen.0 p w l (s, e))
            (λ q (s', e').
              Holds->>= (Sent C d q) (IsValid C) (send_packet C q d) _
                (send_packet-IsValid C d q v₂ s' (inl (ap is_activity e')))
                (λ (sent, q', d') (_, _, v₃, _, _). by_sent sent d' v₃)))
    where
      by_sent :
          (sent : Bool) (d : Client World)
          → IsValid C d
          → Holds (IsValid C) (if sent then some d else close_connection C send_failed d)
      by_sent true d u = u
      by_sent false d u = close_connection-IsValid C F send_failed d u

      choice :
          (i : Option (List ℕ))
          → IsShort i
          → o.client_identifier ≡ i
          → (length (choose_identifier C o (established C o c)).0 < 65536)
            × IsValid C (choose_identifier C o (established C o c)).1
      choice none s e =
          rw (choose_identifier, e)
            (n (established C o c).world, world-IsValid C (established C o c) _ v)
      choice (some id) s e = rw (choose_identifier, e) (s, v)

  -- The socket is deleted again, or there was none.
  pub unopened-IsValid :
      (c : Client World) (w : World)
      → IsValid C c
      → is_disconnected c.status ≡ true
      → IsValid C (record c { socket_open = false; world = w })
  unopened-IsValid c w v e = record {
    socket = ap not (sym e);
    idle = v.idle;
    timer = v.timer;
    waiting = v.waiting;
    size = v.size;
    next_range = v.next_range;
    next_nonzero = v.next_nonzero;
    queued = v.queued;
    usable = v.usable;
  }

  -- `Connect` of a disconnected client keeps the invariant and fails no assertion, however the name is
  -- resolved and the connection is opened, for texts of less than 65536 bytes and a quality of service of
  -- the will of at most 2.
  pub connect_to-IsValid :
      (o : ConnectOptions) (c : Client World)
      → IsWritable o
      → ((w : World) → length (default_identifier w).0 < 65536)
      → is_disconnected c.status ≡ true
      → IsValid C c
      → Holds (IsValid C) (connect_to C o c)
  unfolding connect_to abandon
  connect_to-IsValid o c w n e v = rw e (
      Holds-if (IsValid C) c.topic_buffer _ _
        (Holds-elim (IsValid C) (resolve c.world o.host).0 _ _
          (F.disconnects dns_error _ (world-IsValid C c _ v))
          (λ ip.
            let ready = (has_memory (resolve c.world o.host).1).1 in
            let secured : Bool × World =
              if o.use_ssl then setup_tls ready o.host else (true, ready) in
            let opened = open_connection secured.1 ip o.port in
            rw (closed, F.objects (resolve c.world o.host).1)
              (Holds-if (IsValid C) secured.0 _ _
                (Holds-if (IsValid C) (eq_ℕ opened.0 0) _ _
                  (start_session-IsValid o (record c { socket_open = true; world = opened.1 }) w n
                    (established-IsValid o (record c { world = opened.1 })
                      (world-IsValid C c opened.1 v) e))
                  (F.disconnects connect_failed _ (unopened-IsValid c (close_socket opened.1) v e)))
                (F.disconnects ssl_setup_failed _
                  (unopened-IsValid c (close_socket secured.1) v e)))))
        (F.disconnects insufficient_resources c v))
    where
      closed : c.socket_open ≡ false
      closed = v.socket ∙ ap not e
