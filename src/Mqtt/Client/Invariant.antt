-- ===== src/Mqtt/Client/Invariant.antt =====
-- The invariant of CMQTTClient, and what it relies on in Circle and in the application.
use circle_stdlib.Common.{
  ℕ, ◌≤◌, ◌<◌, ◌≡◌, refl, sym, subst, ◌⊎◌, inl, inr, Bool, true, false, not, List, [], Option, some,
  length, All, Holds, Bool-cases,
}
use circle_stdlib.Mqtt.SendPacket.{SendPacket}
use circle_stdlib.Mqtt.SendPacket.Sendable.{IsSendable, size_limit}
use circle_stdlib.Mqtt.ReceivePacket.Usable.{IsUsable, IsSocket}
use circle_stdlib.Mqtt.Client.{
  Client, Circle, DisconnectReason, disconnected, is_disconnected, is_connected, is_waiting,
}
use circle_stdlib.Mqtt.Client.Queue.{
  cleanup_queue, cleanup_store, cleanup_queue_lem, cleanup_store_lem,
}
use circle_stdlib.Mqtt.Client.Connection.{is_activity, close_connection}

-- A packet in the retransmission queue.
pub record IsQueued (p : SendPacket) : Type 0 where
  pub sendable : IsSendable p
  pub kind : is_activity p.packet_type ≡ true
  pub acknowledged : (p.qos ≡ 1) ⊎ (p.qos ≡ 2)

module _ (C : Circle) where
  open C use {World, frame_size}

  pub record IsValid (c : Client World) : Type 0 where
    -- There is a socket exactly while the client is not disconnected.
    pub socket : c.socket_open ≡ not (is_disconnected c.status)
    -- A disconnected client waits for no acknowledgement.
    pub idle : (is_disconnected c.status ≡ false) ⊎ ((c.queue ≡ []) × (c.store ≡ []))
    -- The keep alive timer runs on a connection with a keep alive period only.
    pub timer :
        (c.timer_running ≡ false) ⊎ ((0 < c.keep_alive_seconds) × (is_connected c.status ≡ true))
    -- While the client waits for a PINGRESP packet, the timer runs.
    pub waiting :
        (is_waiting c.status ≡ false) ⊎ ((0 < c.keep_alive_seconds) × (c.timer_running ≡ true))
    pub size : (128 ≤ c.max_packet_size) × (c.max_packet_size ≤ size_limit)
    -- The next packet identifier is a `u16` and, on a connection, not zero.
    pub next_range : c.next_packet_identifier < 65536
    pub next_nonzero : (is_disconnected c.status ≡ true) ⊎ (0 < c.next_packet_identifier)
    pub queued : All IsQueued c.queue
    pub usable : IsUsable frame_size c.receive_packet

  -- A callback that keeps the invariant and does not touch the packet that is being received.
  abbrev pub Keeps : (Client World → Option (Client World)) → Type 0
  Keeps f =
      (c : Client World)
      → IsValid c
      → Holds (λ d. IsValid d × (d.receive_packet ≡ c.receive_packet)) (f c)

  abbrev pub Preserves : (Client World → Option (Client World)) → Type 0
  Preserves f = (c : Client World) → IsValid c → Holds IsValid (f c)

  -- What the client relies on: the socket stores bytes, and no more than it may; `new` returns as many
  -- bytes as were asked for, and there is memory for packet and socket objects; the callbacks and the other
  -- tasks use the client by methods that keep its invariant, and `OnConnect` and `OnMessage` leave the
  -- received packet as it is, so they do not close the connection and start a new session.
  pub record IsFriendly : Type 0 where
    pub socket : IsSocket World frame_size C.receive_bytes
    pub memory : (w : World) (n : ℕ) (m : List ℕ) → (C.allocate w n).0 ≡ some m → length m ≡ n
    pub objects : (w : World) → (C.has_memory w).0 ≡ true
    pub connects : (present : Bool) → Keeps (C.on_connect present)
    pub messages :
        (topic : List ℕ) (payload : Option (List ℕ)) (n : ℕ) (retain : Bool)
        → Keeps (C.on_message topic payload n retain)
    pub disconnects : (reason : DisconnectReason) → Preserves (C.on_disconnect reason)
    pub loops : Preserves C.on_loop
    pub sleeps : (ms : ℕ) → Preserves (C.ms_sleep ms)

  -- What `CloseConnection` needs of a client that is not disconnected.
  pub record IsOpen (c : Client World) : Type 0 where
    pub up : is_disconnected c.status ≡ false
    pub socket : c.socket_open ≡ true
    pub size : (128 ≤ c.max_packet_size) × (c.max_packet_size ≤ size_limit)
    pub next_range : c.next_packet_identifier < 65536
    pub usable : IsUsable frame_size c.receive_packet

  pub valid_IsOpen : (c : Client World) → IsValid c → is_disconnected c.status ≡ false → IsOpen c
  valid_IsOpen c v e = record {
    up = e;
    socket = rw e at v.socket;
    size = v.size;
    next_range = v.next_range;
    usable = v.usable;
  }

  module _ (F : IsFriendly) (reason : DisconnectReason) where
    -- `CloseConnection` tears an open connection down, whatever the timer and the queue were.
    pub close_open : (c : Client World) → IsOpen c → Holds IsValid (close_connection C reason c)
    unfolding close_connection
    close_open c o =
        simp (o.up, o.socket)
          (F.disconnects reason
            (record c {
              status = disconnected;
              timer_running = false;
              queue = cleanup_queue c.queue;
              store = cleanup_store c.store;
              socket_open = false;
              world = C.close_socket c.world;
            })
            (record {
              socket = refl;
              idle = inr (cleanup_queue_lem c.queue, cleanup_store_lem c.store);
              timer = inl refl;
              waiting = inl refl;
              size = o.size;
              next_range = o.next_range;
              next_nonzero = inl refl;
              queued = subst (All IsQueued) (sym (cleanup_queue_lem c.queue)) tt;
              usable = o.usable;
            }))

    -- `CloseConnection` fails no assertion and keeps the invariant: a connection is torn down, with its
    -- timer, its queue and its identifier store, and a client without one stays as it is.
    pub close_connection-IsValid : Preserves (close_connection C reason)
    unfolding close_connection
    close_connection-IsValid c v = elim (Bool-cases (is_disconnected c.status)) [
      | inl e ↦ simp e v
      | inr e ↦ close_open c (valid_IsOpen c v e)
    ]
