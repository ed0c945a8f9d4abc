-- ===== src/Mqtt/Client.antt =====
-- CMQTTClient: include/circle-mbedtls/mqttclient.h and src/circle-mbedtls/mqttclient.cpp. This module
-- has the state of the class and what it uses of Circle; the children have the methods.
pub mod Queue
pub mod Connection
pub mod Requests
pub mod Handlers
pub mod Task
pub mod Invariant
pub mod Sending
pub mod Retained
pub mod Methods
pub mod ConnectPacket
pub mod Connecting
pub mod Receiving
pub mod Acknowledging
pub mod Publishing
pub mod Running
pub mod KeepAlive
pub mod Rounds
pub mod Sessions
pub mod Creation
pub mod Examples
use circle_stdlib.Common.{ℕ, ◌≡◌, Bool, true, false, List, Option, none, some, length, Holds}
use circle_stdlib.Common.Int.{ℤ}
use circle_stdlib.Mqtt.SendPacket.{SendPacket}
use circle_stdlib.Mqtt.ReceivePacket.{ReceivePacket, Received}

-- `TMQTTDisconnectReason`
pub data DisconnectReason : Type 0 where
  from_application unacceptable_protocol_version identifier_rejected server_unavailable :
      DisconnectReason
  bad_username_or_password not_authorized dns_error connect_failed from_peer : DisconnectReason
  invalid_packet packet_identifier_error subscribe_error send_failed ping_failed : DisconnectReason
  not_supported insufficient_resources ssl_setup_failed unknown_reason : DisconnectReason

-- `TMQTTConnectStatus`; no code uses `MQTTStatusUnknown`.
pub data ConnectStatus : Type 0 where
  disconnected connect_pending connected wait_for_ping_resp : ConnectStatus

-- The state of the class. `socket_open` is `m_pSocket != 0`, and `topic_buffer` is
-- `m_pTopicBuffer != 0`. The two `CPtrList` members are the lists of what they point to, first element
-- first. `world` is the state of all that the class uses of Circle.
pub record Client (W : Type 0) : Type 0 where
  pub max_packet_size : ℕ
  pub max_topic_size : ℕ
  pub topic_buffer : Bool
  pub socket_open : Bool
  pub status : ConnectStatus
  pub keep_alive_seconds : ℕ
  pub timer_running : Bool
  pub timer_elapses_at : ℕ
  pub next_packet_identifier : ℕ
  pub receive_packet : ReceivePacket
  pub queue : List SendPacket
  pub store : List ℕ
  pub world : W

-- What the class calls. Its own virtual methods, which the application overrides, act on the whole
-- client, since they may call its public methods.
pub record Circle : Type 1 where
  pub World : Type 0
  -- `HZ` and `FRAME_BUFFER_SIZE`
  pub hz : ℕ
  pub frame_size : ℕ
  -- `CTimer::GetTicks`
  pub ticks : World → ℕ × World
  -- `new u8[n]`: a null pointer, or memory with any contents.
  pub allocate : World → ℕ → Option (List ℕ) × World
  -- `new` of a packet or a socket: whether there is memory for the object
  pub has_memory : World → Bool × World
  -- `CDNSClient::Resolve`, with the address as a number
  pub resolve : World → List ℕ → Option ℕ × World
  -- `AddCertificatePath ("/")` and `Setup (pHost)` of a CTLSSimpleClientSocket, `false` on an error
  pub setup_tls : World → List ℕ → Bool × World
  -- `Connect`, `Send`, `Receive` and the destructor of the socket
  pub open_connection : World → ℕ → ℕ → ℤ × World
  pub send_bytes : World → List ℕ → ℤ × World
  pub receive_bytes : World → ℕ → Received × World
  pub close_socket : World → World
  -- "raspi" and the board's serial number, by CBcmPropertyTags and `CString::Format`
  pub default_identifier : World → List ℕ × World
  -- the callbacks
  pub on_connect : Bool → Client World → Option (Client World)
  pub on_disconnect : DisconnectReason → Client World → Option (Client World)
  pub on_message : List ℕ → Option (List ℕ) → ℕ → Bool → Client World → Option (Client World)
  pub on_loop : Client World → Option (Client World)
  -- `CScheduler::MsSleep`, while which the other tasks run
  pub ms_sleep : ℕ → Client World → Option (Client World)

abbrev pub is_disconnected : ConnectStatus → Bool
is_disconnected disconnected = true
is_disconnected _ = false

abbrev pub is_connected : ConnectStatus → Bool
is_connected disconnected = false
is_connected connect_pending = false
is_connected connected = true
is_connected wait_for_ping_resp = true

abbrev pub is_waiting : ConnectStatus → Bool
is_waiting wait_for_ping_resp = true
is_waiting _ = false

-- `status == MQTTStatusConnected`
abbrev pub is_ready : ConnectStatus → Bool
is_ready connected = true
is_ready _ = false
