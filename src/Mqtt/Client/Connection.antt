-- ===== src/Mqtt/Client/Connection.antt =====
-- CMQTTClient: `CloseConnection`, `SendPacket` and what the other methods share.
use circle_stdlib.Common.{
  ℕ, ◌+◌, ◌*◌, ◌%◌, Bool, true, false, not, ◌&&◌, [], Option, none, some, ltb, ◌==◌, if◌then◌else◌,
  ◌>>=◌, ◌>>◌, assert,
}
use circle_stdlib.Mqtt.{
  PacketType, connect, publish, pub_ack, pub_rec, pub_rel, pub_comp, subscribe, unsubscribe,
  ping_req, disconnect, u16_mod, u32_mod,
}
use circle_stdlib.Mqtt.Client.Queue.{cleanup_queue, cleanup_store}
use circle_stdlib.Mqtt.SendPacket.{SendPacket, init, send}
use circle_stdlib.Mqtt.ReceivePacket
use circle_stdlib.Mqtt.ReceivePacket.{buffer_bytes}
use circle_stdlib.Mqtt.Client.{
  Client, Circle, disconnected, wait_for_ping_resp, DisconnectReason, is_disconnected, is_ready,
}

-- The packet types for which a successful `SendPacket` starts the keep alive timer again.
abbrev pub is_activity : PacketType → Bool
is_activity connect = true
is_activity publish = true
is_activity pub_ack = true
is_activity pub_rec = true
is_activity pub_rel = true
is_activity pub_comp = true
is_activity subscribe = true
is_activity unsubscribe = true
is_activity _ = false

-- The values of the members that the constructor leaves unset.
pub record Unset : Type 0 where
  pub keep_alive_seconds : ℕ
  pub timer_running : Bool
  pub timer_elapses_at : ℕ
  pub next_packet_identifier : ℕ

module _ (C : Circle) where
  open C use {
    World, hz, frame_size, ticks, allocate, has_memory, send_bytes, close_socket, on_disconnect,
  }

  -- `m_pTimer->GetTicks ()`
  unfoldable pub get_ticks : Client World → ℕ × Client World
  get_ticks c = let (t, w) = ticks c.world in (t, record c { world = w })

  -- The timer runs for `n` ticks from now.
  unfoldable pub start_timer : ℕ → Client World → Client World
  unfolding get_ticks
  start_timer n c =
      let (t, c') = get_ticks c in
      record c' { timer_elapses_at = (t + n) % u32_mod; timer_running = true }

  -- `CMQTTSendPacket Packet (t, size)`
  unfoldable pub new_packet : PacketType → ℕ → Client World → Option (SendPacket × Client World)
  new_packet t size c = do
    let (memory, w) = allocate c.world size
    p ← init t size memory
    some (p, record c { world = w })

  -- The same for an object of its own: `new` and the assertion behind it.
  unfoldable pub heap_packet : PacketType → ℕ → Client World → Option (SendPacket × Client World)
  heap_packet t size c = do
    let (memory, w) = has_memory c.world
    assert memory
    new_packet t size (record c { world = w })

  -- `CloseConnection`. Its logging has no effect on the client.
  unfoldable pub close_connection : DisconnectReason → Client World → Option (Client World)
  close_connection reason c = if is_disconnected c.status then some c else do
    assert c.socket_open
    on_disconnect reason (record c {
      status = disconnected;
      timer_running = false;
      queue = cleanup_queue c.queue;
      store = cleanup_store c.store;
      socket_open = false;
      world = close_socket c.world;
    })

  -- The keep alive handling of `SendPacket`.
  unfoldable pub keep_alive_sent : PacketType → Client World → Option (Client World)
  unfolding start_timer
  keep_alive_sent ping_req c = do
    assert (ltb 0 c.keep_alive_seconds)
    assert (is_ready c.status)
    assert (not c.timer_running)
    some (start_timer (5 * hz) (record c { status = wait_for_ping_resp }))
  keep_alive_sent disconnect c = some c
  keep_alive_sent t c =
      if is_activity t
      then some (
          if is_ready c.status && ltb 0 c.keep_alive_seconds
          then start_timer (c.keep_alive_seconds * hz) c
          else c)
      else none

  -- `SendPacket`
  unfoldable pub send_packet : SendPacket → Client World → Option (Bool × SendPacket × Client World)
  send_packet p c = if is_disconnected c.status then some (false, p, c) else do
    assert c.socket_open
    (sent, p', w) ← send send_bytes p c.world
    let c' : Client World = record c { world = w }
    if sent
        then (keep_alive_sent p'.packet_type c' >>= λ c''. some (true, p', c''))
        else some (false, p', c')

  -- `usPacketIdentifier = m_usNextPacketIdentifier`, and the next one, which is not zero
  unfoldable pub take_identifier : Client World → ℕ × Client World
  take_identifier c =
      let next = (c.next_packet_identifier + 1) % u16_mod in
      (
        c.next_packet_identifier,
        record c { next_packet_identifier = if next == 0 then next + 1 else next },
      )

  -- The constructor. The members that it leaves unset have any values; `Connect` sets them.
  unfoldable pub create : Unset → ℕ → ℕ → ℕ → World → Option (Client World)
  create unset max_packet_size max_packets_queued max_topic_size w = do
    let (buffer, w₁) = allocate w (buffer_bytes frame_size max_packet_size max_packets_queued)
    r ← ReceivePacket.init frame_size max_packet_size max_packets_queued buffer
    let (topic, w₂) = allocate w₁ (max_topic_size + 1)
    some (record {
      max_packet_size = max_packet_size;
      max_topic_size = max_topic_size;
      topic_buffer = elim topic [ none ↦ false | some _ ↦ true ];
      socket_open = false;
      status = disconnected;
      keep_alive_seconds = unset.keep_alive_seconds;
      timer_running = unset.timer_running;
      timer_elapses_at = unset.timer_elapses_at;
      next_packet_identifier = unset.next_packet_identifier;
      receive_packet = r;
      queue = [];
      store = [];
      world = w₂;
    })

  -- The destructor: the two lists are emptied, and the topic buffer is given back.
  unfoldable pub destroy : Client World → Option (Client World)
  destroy c = do
    assert (is_disconnected c.status)
    assert (not c.socket_open)
    some (record c {
      queue = cleanup_queue c.queue;
      store = cleanup_store c.store;
      topic_buffer = false;
    })
