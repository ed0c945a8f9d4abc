-- ===== src/Mqtt/Client/Creation.antt =====
-- The constructor of CMQTTClient and the first `Connect` of a new client.
use circle_stdlib.Common.{
  ℕ, ◌≤◌, ◌<◌, ◌≡◌, refl, ap, ◌∙◌, ◌⊎◌, Bool, true, false, not, List, some, length, All, Holds,
  Holds-if, Holds-elim, Holds-mono, arith, le→leb, inl, inr, if◌then◌else◌,
}
use circle_stdlib.Common.Int.{eq_ℕ}
use circle_stdlib.Mqtt.SendPacket.Sendable.{size_limit}
use circle_stdlib.Mqtt.ReceivePacket.{init, buffer_bytes}
use circle_stdlib.Mqtt.ReceivePacket.Length.{IsByte}
use circle_stdlib.Mqtt.Client.{
  Client, Circle, DisconnectReason, dns_error, connect_failed, insufficient_resources,
  ssl_setup_failed, is_disconnected,
}
use circle_stdlib.Mqtt.Client.Connection.{Unset, create}
use circle_stdlib.Mqtt.Client.Requests.{ConnectOptions, established, abandon, connect_to}
use circle_stdlib.Mqtt.Client.Invariant.{IsValid, IsFriendly}
use circle_stdlib.Mqtt.Client.Sending.{world-IsValid}
use circle_stdlib.Mqtt.Client.ConnectPacket.{IsWritable}
use circle_stdlib.Mqtt.Client.Connecting.{
  established-IsValid, start_session-IsValid, unopened-IsValid,
}

module _ (C : Circle) where
  open C use {
    World, frame_size, allocate, resolve, has_memory, setup_tls, open_connection, close_socket,
    default_identifier, on_disconnect,
  }

  -- A client that has not been connected yet: what the constructor leaves unset may have any value, so
  -- nothing is known of the timer.
  abbrev pub IsFresh : Client World → Type 0
  IsFresh c = (is_disconnected c.status ≡ true) × IsValid C (record c { timer_running = false })

  -- A client after a call of `Connect`.
  abbrev pub IsUsed : Client World → Type 0
  IsUsed c = IsValid C c ⊎ IsFresh c

  create-IsFresh :
      (unset : Unset) (size queued topic : ℕ) (w : World) (buf : List ℕ)
      → unset.next_packet_identifier < 65536
      → 128 ≤ size
      → size ≤ size_limit
      → 1 ≤ queued
      → 0 < frame_size
      → buffer_bytes frame_size size queued < 4294967296
      → (allocate w (buffer_bytes frame_size size queued)).0 ≡ some buf
      → length buf ≡ buffer_bytes frame_size size queued
      → All IsByte buf
      → Holds IsFresh (create C unset size queued topic w)
  unfolding create init
  create-IsFresh unset size queued topic w buf i h l q f r e n a =
      rw (le→leb 128 size h, le→leb 1 queued q)
        (
          refl,
          record {
            socket = refl;
            idle = inr (refl, refl);
            timer = inl refl;
            waiting = inl refl;
            size = (h, l);
            next_range = i;
            next_nonzero = inl refl;
            queued = tt;
            usable = record {
              buf = buf;
              memory = e;
              bytes = a;
              size = n;
              received = omega arith;
              room = omega arith;
              positive = f;
              range = r;
            };
          },
        )

  module _ (F : IsFriendly C) (o : ConnectOptions) where
    connect_to-IsFresh :
        (c : Client World)
        → IsWritable o
        → ((w : World) → length (default_identifier w).0 < 65536)
        → ((reason : DisconnectReason) (d : Client World)
            → IsFresh d
            → Holds IsUsed (on_disconnect reason d))
        → IsFresh c
        → Holds IsUsed (connect_to C o c)
    unfolding connect_to abandon established
    connect_to-IsFresh c b n t (e, v) = rw e (
        Holds-if IsUsed c.topic_buffer _ _
          (Holds-elim IsUsed (resolve c.world o.host).0 _ _
            (t dns_error _ (e, world-IsValid C (still c) _ v))
            (λ ip.
              let ready = (has_memory (resolve c.world o.host).1).1 in
              let secured : Bool × World =
                if o.use_ssl then setup_tls ready o.host else (true, ready) in
              let opened = open_connection secured.1 ip o.port in
              rw (closed, F.objects (resolve c.world o.host).1)
                (Holds-if IsUsed secured.0 _ _
                  (Holds-if IsUsed (eq_ℕ opened.0 0) _ _
                    (Holds-mono (IsValid C) IsUsed _ (λ d u. inl u)
                      (start_session-IsValid C F o
                        (record c { socket_open = true; world = opened.1 }) b n
                        (established-IsValid C F o (record (still c) { world = opened.1 })
                          (world-IsValid C (still c) opened.1 v) e)))
                    (t connect_failed _
                      (e, unopened-IsValid C F (still c) (close_socket opened.1) v e)))
                  (t ssl_setup_failed _
                    (e, unopened-IsValid C F (still c) (close_socket secured.1) v e)))))
          (t insufficient_resources c (e, v)))
      where
        still : Client World → Client World
        still d = record d { timer_running = false }

        closed : c.socket_open ≡ false
        closed = v.socket ∙ ap not e

    -- A new client, whatever the members that the constructor leaves unset hold, and the first call of
    -- its method `Connect`: no assertion fails, and then either the invariant holds, or the client is
    -- still disconnected and the invariant holds but for the keep alive timer, of which nothing is
    -- known. The conditions: the packet size is between 128 bytes and the limit, at least one packet is
    -- queued, and there is memory for the receive buffer, of less than 2 ^ 32 bytes, and for packet and
    -- socket objects, and `new` returns as many bytes as were asked for; texts have less than 65536
    -- bytes and the quality of service of the will is at most 2; the socket stores bytes, and no more
    -- than it may; and `OnDisconnect` leaves a client that it was given in one of the two states in one
    -- of them, and a valid one valid; the other callbacks and tasks are as the invariant wants them.
    pub connect_to-create :
        (unset : Unset) (size queued topic : ℕ) (w : World) (buf : List ℕ)
        → unset.next_packet_identifier < 65536
        → 128 ≤ size
        → size ≤ size_limit
        → 1 ≤ queued
        → 0 < frame_size
        → buffer_bytes frame_size size queued < 4294967296
        → (allocate w (buffer_bytes frame_size size queued)).0 ≡ some buf
        → length buf ≡ buffer_bytes frame_size size queued
        → All IsByte buf
        → IsWritable o
        → ((v : World) → length (default_identifier v).0 < 65536)
        → ((reason : DisconnectReason) (d : Client World)
            → IsFresh d
            → Holds IsUsed (on_disconnect reason d))
        → Holds (λ c. Holds IsUsed (connect_to C o c)) (create C unset size queued topic w)
    connect_to-create unset size queued topic w buf i h l q f r e n a b k t =
        Holds-mono IsFresh (λ c. Holds IsUsed (connect_to C o c)) _
          (λ c v. connect_to-IsFresh c b k t v)
          (create-IsFresh unset size queued topic w buf i h l q f r e n a)
