-- ===== src/Mqtt.antt =====
-- The MQTT client: include/circle-mbedtls/mqtt.h, and the modules for its classes.
pub mod SendPacket
pub mod ReceivePacket
pub mod RoundTrip
pub mod Client
pub mod Examples
use circle_stdlib.Common.{ℕ, Bool, true, false, ◌^◌, ◌<◌, ◌≡◌, refl, ◌==◌, if◌then◌else◌, arith}

-- `TMQTTPacketType`
pub data PacketType : Type 0 where
  connect conn_ack publish pub_ack pub_rec pub_rel pub_comp : PacketType
  subscribe sub_ack unsubscribe unsub_ack ping_req ping_resp disconnect unknown : PacketType

-- The number of the enumerator, which is sent in the control byte.
unfoldable pub type_code : PacketType → ℕ
type_code connect = 1
type_code conn_ack = 2
type_code publish = 3
type_code pub_ack = 4
type_code pub_rec = 5
type_code pub_rel = 6
type_code pub_comp = 7
type_code subscribe = 8
type_code sub_ack = 9
type_code unsubscribe = 10
type_code unsub_ack = 11
type_code ping_req = 12
type_code ping_resp = 13
type_code disconnect = 14
type_code unknown = 15

-- The cast of a number to the enumeration. Zero is no enumerator; it is only ever compared with the
-- others, like `MQTTPacketTypeUnknown`.
unfoldable pub type_of_code : ℕ → PacketType
type_of_code c =
    if c == 1
    then connect
    else if c == 2
    then conn_ack
    else if c == 3
    then publish
    else if c == 4
    then pub_ack
    else if c == 5
    then pub_rec
    else if c == 6
    then pub_rel
    else if c == 7
    then pub_comp
    else if c == 8
    then subscribe
    else if c == 9
    then sub_ack
    else if c == 10
    then unsubscribe
    else if c == 11
    then unsub_ack
    else if c == 12
    then ping_req
    else if c == 13
    then ping_resp
    else if c == 14
    then disconnect
    else unknown

pub type_of_code-type_code : (t : PacketType) → type_of_code (type_code t) ≡ t
unfolding type_code type_of_code
type_of_code-type_code connect = refl
type_of_code-type_code _ = refl

pub type_code-lt : (t : PacketType) → type_code t < 16
unfolding type_code
type_code-lt t = ground arith

-- `MQTT_PROTOCOL_LEVEL`, `MQTT_SEND_TRIES`, and the flags of a PUBLISH packet.
abbrev pub protocol_level : ℕ
protocol_level = 4

abbrev pub max_send_tries : ℕ
max_send_tries = 5

abbrev pub flag_retain : ℕ
flag_retain = 1

abbrev pub flag_dup : ℕ
flag_dup = 8

-- `unsigned`, `size_t` (of the 32-bit targets) and `u16` wrap at these.
abbrev pub u32_mod : ℕ
u32_mod = 2 ^ 32

abbrev pub u16_mod : ℕ
u16_mod = 2 ^ 16
