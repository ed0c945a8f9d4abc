-- ===== src/Mqtt/Client/Handlers.antt =====
-- CMQTTClient::Receiver: what it does with a packet of each type.
use circle_stdlib.Common.{
  ℕ, ◌+◌, ◌-◌, ◌*◌, ◌%◌, bit_and, Bool, true, false, not, ◌||◌, List, Option, none, some, ltb, ◌==◌,
  if◌then◌else◌, length, ◌>>=◌, ◌>>◌, assert,
}
use circle_stdlib.Mqtt.{PacketType, pub_ack, pub_rec, pub_rel, pub_comp, u32_mod}
use circle_stdlib.Mqtt.SendPacket.{SendPacket, get_qos, append_word}
use circle_stdlib.Mqtt.ReceivePacket.{
  ReceivePacket, get_flags, get_remaining_length, complete, get_byte, get_word, get_string,
  get_data, qos_of_flags,
}
use circle_stdlib.Mqtt.Client.{
  Client, Circle, ConnectStatus, connect_pending, connected, DisconnectReason, from_application,
  unacceptable_protocol_version, identifier_rejected, server_unavailable, bad_username_or_password,
  not_authorized, invalid_packet, packet_identifier_error, subscribe_error, send_failed,
  not_supported, unknown_reason,
}
use circle_stdlib.Mqtt.Client.Queue.{
  remove_packet, insert_identifier, identifier_in_store, remove_identifier,
}
use circle_stdlib.Mqtt.Client.Connection.{start_timer, new_packet, close_connection, send_packet}
use circle_stdlib.Mqtt.Client.Requests.{await}

abbrev pub is_pending : ConnectStatus → Bool
is_pending connect_pending = true
is_pending _ = false

-- The cast of the return code of a CONNACK packet, which is at most 5 or stands for `Unknown`.
unfoldable pub reason_of_code : ℕ → DisconnectReason
reason_of_code code =
    if ltb 5 code
    then unknown_reason
    else if code == 1
    then unacceptable_protocol_version
    else if code == 2
    then identifier_rejected
    else if code == 3
    then server_unavailable
    else if code == 4
    then bad_username_or_password
    else if code == 5
    then not_authorized
    else from_application

-- `pPacket == 0 || pPacket->GetQoS () != qos`
abbrev pub lacks_qos : Option SendPacket → ℕ → Bool
lacks_qos none qos = true
lacks_qos (some p) qos = not (get_qos p == qos)

module _ (C : Circle) where
  open C use {World, hz, on_connect, on_message}

  -- A read from the received packet, and its completion.
  unfoldable pub read :
      {A : Type 0}
      → (ReceivePacket → Option (A × ReceivePacket))
      → Client World
      → Option (A × Client World)
  read get c = do (a, r) ← get c.receive_packet; some (a, record c { receive_packet = r })

  unfoldable pub finish : Client World → Option (Client World)
  finish c = do r ← complete c.receive_packet; some (record c { receive_packet = r })

  unfoldable pub handle_conn_ack : Client World → Option (Client World)
  unfolding read finish
  handle_conn_ack c = do
    (flags, c₁) ← read get_byte c
    (code, c₂) ← read get_byte c₁
    c₃ ← finish c₂
    if not (is_pending c₃.status)
        then close_connection C invalid_packet c₃
        else if code == 0
        then on_connect (not (bit_and flags 1 == 0)) (record c₃ { status = connected })
        else close_connection C (reason_of_code code) c₃

  -- A packet of two bytes that answers a received one.
  unfoldable pub reply : PacketType → ℕ → Client World → Option (Bool × SendPacket × Client World)
  reply t id c = do (p, c₁) ← new_packet C t 128 c; p' ← append_word p id; send_packet C p' c₁

  -- The same with an object of its own, which is kept.
  unfoldable pub heap_reply :
      PacketType → ℕ → Client World → Option (Bool × SendPacket × Client World)
  heap_reply t id c = do
    let (memory, w) = C.has_memory c.world
    assert memory
    reply t id (record c { world = w })

  -- The end of the handling of a PUBLISH packet, for each quality of service.
  unfoldable pub deliver : ℕ → ℕ → List ℕ → ℕ → Bool → Client World → Option (Client World)
  unfolding read finish reply
  deliver qos id topic n retain c = do
    (payload, c₁) ← read (λ r. get_data r n) c
    if qos == 0
        then (on_message topic payload n retain c₁ >>= finish)
        else if qos == 1
        then (do
          (sent, _, c₂) ← reply pub_ack id c₁
          if sent
              then (on_message topic payload n retain c₂ >>= finish)
              else (finish c₂ >>= close_connection C send_failed))
        else if qos == 2
        then (do
          (sent, _, c₂) ← reply pub_rec id c₁
          if sent
              then ((if identifier_in_store id c₂.store
                    then some c₂
                    else on_message topic payload n retain
                        (record c₂ { store = insert_identifier id c₂.store }))
                  >>= finish)
              else (finish c₂ >>= close_connection C send_failed))
        else some c₁

  unfoldable pub handle_publish : Client World → Option (Client World)
  unfolding read deliver
  handle_publish c = do
    let flags = get_flags c.receive_packet
    let qos = qos_of_flags flags
    let retain = not (bit_and flags 1 == 0)
    (topic, c₁) ← read (λ r. get_string r (c.max_topic_size + 1)) c
    let n =
        (get_remaining_length c₁.receive_packet + u32_mod - (length topic + 2) % u32_mod) % u32_mod
    if length topic == 0
        then close_connection C not_supported c₁
        else if qos == 0
        then deliver 0 0 topic n retain c₁
        else (do
          (id, c₂) ← read get_word c₁
          if (id == 0) || ltb n 2
              then close_connection C invalid_packet c₂
              else deliver qos id topic (n - 2) retain c₂)

  -- The acknowledgement of a packet in the retransmission queue, which leaves the queue. Where it is
  -- not there with the quality of service that the acknowledgement is for, the connection ends.
  unfoldable pub acknowledge : ℕ → ℕ → Client World → Option (Client World)
  acknowledge id qos c = do
    let (found, rest) = remove_packet id c.queue
    let c' : Client World = record c { queue = rest }
    if lacks_qos found qos then close_connection C packet_identifier_error c' else some c'

  -- PUBACK, PUBCOMP and UNSUBACK
  unfoldable pub handle_ack : ℕ → Client World → Option (Client World)
  unfolding read finish acknowledge
  handle_ack qos c = do (id, c₁) ← read get_word c; c₂ ← finish c₁; acknowledge id qos c₂

  unfoldable pub handle_pub_rec : Client World → Option (Client World)
  unfolding read finish reply
  handle_pub_rec c = do
    (id, c₁) ← read get_word c
    c₂ ← finish c₁
    let (found, rest) = remove_packet id c₂.queue
    let c₃ : Client World = record c₂ { queue = rest }
    if lacks_qos found 2 then close_connection C packet_identifier_error c₃ else (do
      (sent, p, c₄) ← heap_reply pub_rel id c₃
      if sent then some (await C p 2 id c₄) else close_connection C send_failed c₄)

  unfoldable pub handle_pub_rel : Client World → Option (Client World)
  unfolding read finish reply
  handle_pub_rel c = do
    (id, c₁) ← read get_word c
    c₂ ← finish c₁
    if id == 0 then close_connection C invalid_packet c₂ else (do
      (sent, _, c₃) ← reply pub_comp id c₂
      if sent
          then some (record c₃ { store = remove_identifier id c₃.store })
          else close_connection C send_failed c₃)

  unfoldable pub handle_sub_ack : Client World → Option (Client World)
  unfolding read finish acknowledge
  handle_sub_ack c = do
    (id, c₁) ← read get_word c
    (code, c₂) ← read get_byte c₁
    c₃ ← finish c₂
    if ltb 2 code then close_connection C subscribe_error c₃ else acknowledge id 1 c₃

  unfoldable pub handle_ping_resp : Client World → Option (Client World)
  unfolding finish
  handle_ping_resp c = do
    c₁ ← finish c
    let c₂ : Client World = record c₁ { status = connected }
    some (if ltb 0 c₂.keep_alive_seconds then start_timer C (c₂.keep_alive_seconds * hz) c₂ else c₂)
