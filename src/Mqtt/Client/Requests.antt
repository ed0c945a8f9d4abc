-- ===== src/Mqtt/Client/Requests.antt =====
-- CMQTTClient: the public methods `Connect`, `Disconnect`, `Subscribe`, `Unsubscribe` and `Publish`.
use circle_stdlib.Common.{
  ℕ, ◌+◌, ◌*◌, ◌%◌, bit_or, Bool, true, false, List, [], ◌∷◌, Option, none, some, leb, ltb, ◌==◌,
  if◌then◌else◌, length, ◌>>=◌, ◌>>◌, assert,
}
use circle_stdlib.Common.Int.{eq_ℕ}
use circle_stdlib.Mqtt.{
  connect, publish, subscribe, unsubscribe, disconnect, protocol_level, flag_retain, u32_mod,
}
use circle_stdlib.Mqtt.SendPacket.{
  set_qos, set_packet_identifier, SendPacket, append_byte, append_word, append_string, append_data,
  set_flags,
}
use circle_stdlib.Mqtt.ReceivePacket
use circle_stdlib.Mqtt.Client.{
  Client, Circle, connect_pending, from_application, dns_error, connect_failed, send_failed,
  insufficient_resources, ssl_setup_failed, is_disconnected, is_connected,
}
use circle_stdlib.Mqtt.Client.Queue.{insert_packet}
use circle_stdlib.Mqtt.Client.Connection.{
  get_ticks, new_packet, heap_packet, close_connection, send_packet, take_identifier,
}

-- The arguments of `Connect`; an option is a pointer that may be null.
pub record ConnectOptions : Type 0 where
  pub use_ssl : Bool
  pub host : List ℕ
  pub port : ℕ
  pub client_identifier : Option (List ℕ)
  pub username : Option (List ℕ)
  pub password : Option (List ℕ)
  pub keep_alive : ℕ
  pub clean_session : Bool
  pub will_topic : Option (List ℕ)
  pub will_qos : ℕ
  pub will_retain : Bool
  pub will_payload : List ℕ

abbrev flag_if : Bool → ℕ → ℕ → ℕ
flag_if true flag flags = bit_or flags flag
flag_if false flag flags = flags

-- `uchConnectFlags`. The assertion on the QoS of the will is `will_qos_ok`.
unfoldable pub connect_flags : ConnectOptions → ℕ
connect_flags o =
    let clean = flag_if o.clean_session 2 0 in
    let will : ℕ = elim o.will_topic [
      | none ↦ clean
      | some _ ↦ flag_if o.will_retain 32 (bit_or (bit_or clean 4) (o.will_qos * 8 % 256))
    ] in
    elim o.username [
      | none ↦ will
      | some _ ↦ elim o.password [ none ↦ bit_or will 128 | some _ ↦ bit_or (bit_or will 128) 64 ]
    ]

unfoldable pub will_qos_ok : ConnectOptions → Bool
will_qos_ok o = elim o.will_topic [ none ↦ true | some _ ↦ leb o.will_qos 2 ]

unfoldable pub append_will : ConnectOptions → SendPacket → Option SendPacket
append_will o p = elim o.will_topic [
  | none ↦ some p
  | some topic ↦ do
    p₁ ← append_string p topic
    assert (ltb (length o.will_payload) 0x10000)
    p₂ ← append_word p₁ (length o.will_payload)
    if length o.will_payload == 0 then some p₂ else append_data p₂ o.will_payload
]

unfoldable pub append_login : ConnectOptions → SendPacket → Option SendPacket
append_login o p = elim o.username [
  | none ↦ some p
  | some user ↦ do
    p₁ ← append_string p user
    elim o.password [ none ↦ some p₁ | some password ↦ append_string p₁ password ]
]

-- The body of the CONNECT packet.
unfoldable pub build_connect : ConnectOptions → List ℕ → SendPacket → Option SendPacket
unfolding append_will append_login will_qos_ok
build_connect o identifier p = do
  assert (will_qos_ok o)
  -- "MQTT"
  p₁ ← append_string p (0x4d ∷ 0x51 ∷ 0x54 ∷ 0x54 ∷ [])
  p₂ ← append_byte p₁ protocol_level
  p₃ ← append_byte p₂ (connect_flags o)
  p₄ ← append_word p₃ o.keep_alive
  p₅ ← append_string p₄ identifier
  p₆ ← append_will o p₅
  append_login o p₆

-- The body of a SUBSCRIBE, an UNSUBSCRIBE and a PUBLISH packet.
unfoldable pub build_subscribe : ℕ → List ℕ → ℕ → SendPacket → Option SendPacket
build_subscribe id topic qos p = do
  p₁ ← append_word p id
  p₂ ← append_string p₁ topic
  append_byte p₂ qos

unfoldable pub build_unsubscribe : ℕ → List ℕ → SendPacket → Option SendPacket
build_unsubscribe id topic p = do p₁ ← append_word p id; append_string p₁ topic

unfoldable pub publish_flags : ℕ → Bool → ℕ
publish_flags qos retain = flag_if retain flag_retain (qos * 2 % 256)

unfoldable pub build_publish : ℕ → List ℕ → List ℕ → ℕ → Bool → SendPacket → Option SendPacket
unfolding publish_flags
build_publish id topic payload qos retain p = do
  p₁ ← set_flags p (publish_flags qos retain)
  p₂ ← append_string p₁ topic
  p₃ ← append_word p₂ id
  if length payload == 0 then some p₃ else append_data p₃ payload

module _ (C : Circle) where
  open C use {
    World, hz, has_memory, resolve, setup_tls, open_connection, close_socket, default_identifier,
    on_disconnect,
  }

  -- A packet that waits for its acknowledgement goes into the retransmission queue.
  unfoldable pub await : SendPacket → ℕ → ℕ → Client World → Client World
  unfolding get_ticks
  await p qos id c =
      let (t, c') = get_ticks C c in
      record c' {
        queue =
            insert_packet (set_packet_identifier (set_qos p qos) id) ((t + 5 * hz) % u32_mod)
              c'.queue;
      }

  -- The end of `Subscribe`, `Unsubscribe` and `Publish`: the packet is sent, and kept if it is
  -- acknowledged.
  unfoldable pub send_request : SendPacket → ℕ → ℕ → Client World → Option (Client World)
  unfolding await
  send_request p qos id c = do
    (sent, p', c') ← send_packet C p c
    if sent
        then some (if qos == 0 then c' else await p' qos id c')
        else close_connection C send_failed c'

  -- `m_pSocket` and the state of a new connection.
  unfoldable pub established : ConnectOptions → Client World → Client World
  established o c = record c {
    keep_alive_seconds = o.keep_alive;
    timer_running = false;
    next_packet_identifier = 1;
    receive_packet = ReceivePacket.reset c.receive_packet;
    status = connect_pending;
  }

  unfoldable pub choose_identifier : ConnectOptions → Client World → List ℕ × Client World
  choose_identifier o c = elim o.client_identifier [
    | some id ↦ (id, c)
    | none ↦ let (id, w) = default_identifier c.world in (id, record c { world = w })
  ]

  -- `Connect` once the TCP connection is there.
  unfoldable pub start_session : ConnectOptions → Client World → Option (Client World)
  unfolding established choose_identifier
  start_session o c = do
    let (identifier, c₁) = choose_identifier o (established o c)
    (p, c₂) ← new_packet C connect c₁.max_packet_size c₁
    p' ← build_connect o identifier p
    (sent, p'', c₃) ← send_packet C p' c₂
    if sent then some c₃ else close_connection C send_failed c₃

  -- The socket is deleted again, and the application is told why.
  unfoldable pub abandon :
      Client World → (Client World → Option (Client World)) → Option (Client World)
  abandon c tell = tell (record c { socket_open = false; world = close_socket c.world })

  -- `Connect`
  unfoldable pub connect_to : ConnectOptions → Client World → Option (Client World)
  unfolding abandon
  connect_to o c = do
    assert (is_disconnected c.status)
    if c.topic_buffer
        then (let (address, w) = resolve c.world o.host in
            let c₁ : Client World = record c { world = w } in
            elim address [
              | none ↦ on_disconnect dns_error c₁
              | some ip ↦ do
                assert (if c.socket_open then false else true)
                let (memory, w₁) = has_memory c₁.world
                assert memory
                let c₂ : Client World = record c₁ { socket_open = true; world = w₁ }
                let (secured, w₂) : Bool × World =
                    if o.use_ssl then setup_tls c₂.world o.host else (true, c₂.world)
                let c₃ : Client World = record c₂ { world = w₂ }
                let (result, w₃) = open_connection c₃.world ip o.port
                let c₄ : Client World = record c₃ { world = w₃ }
                if secured
                    then (if eq_ℕ result 0
                        then start_session o c₄
                        else abandon c₄ (on_disconnect connect_failed))
                    else abandon c₃ (on_disconnect ssl_setup_failed)
            ])
        else on_disconnect insufficient_resources c

  -- `Disconnect`
  unfoldable pub disconnect_from : Bool → Client World → Option (Client World)
  disconnect_from force c = if force then close_connection C from_application c else do
    (p, c₁) ← new_packet C disconnect 128 c
    (_, _, c₂) ← send_packet C p c₁
    close_connection C from_application c₂

  -- `Subscribe`
  unfoldable pub subscribe_to : List ℕ → ℕ → Client World → Option (Client World)
  unfolding send_request take_identifier
  subscribe_to topic qos c = do
    assert (leb qos 2)
    let (id, c₁) = take_identifier C c
    (p, c₂) ← heap_packet C subscribe c₁.max_packet_size c₁
    p' ← build_subscribe id topic qos p
    send_request p' 1 id c₂

  -- `Unsubscribe`
  unfoldable pub unsubscribe_from : List ℕ → Client World → Option (Client World)
  unfolding send_request take_identifier
  unsubscribe_from topic c = do
    let (id, c₁) = take_identifier C c
    (p, c₂) ← heap_packet C unsubscribe c₁.max_packet_size c₁
    p' ← build_unsubscribe id topic p
    send_request p' 1 id c₂

  -- `Publish`
  unfoldable pub publish_message : List ℕ → List ℕ → ℕ → Bool → Client World → Option (Client World)
  unfolding send_request take_identifier
  publish_message topic payload qos retain c = do
    assert (leb qos 2)
    let (id, c₁) = take_identifier C c
    (p, c₂) ← heap_packet C publish c₁.max_packet_size c₁
    p' ← build_publish id topic payload qos retain p
    send_request p' qos id c₂

  -- `IsConnected`
  unfoldable pub connection_up : Client World → Bool
  connection_up c = is_connected c.status
