-- ===== src/Mqtt/SendPacket.antt =====
-- CMQTTSendPacket: include/circle-mbedtls/mqttsendpacket.h and src/circle-mbedtls/mqttsendpacket.cpp.
-- A method that may fail an assertion returns an option, and `none` is that failure.
pub mod Body
pub mod Wire
pub mod Sendable
use circle_stdlib.Common.{
  ℕ, zero, suc, ◌+◌, ◌-◌, ◌*◌, ◌/◌, ◌%◌, bit_or, Bool, true, false, ◌||◌, List, [], ◌∷◌, Option,
  none, some, ltb, leb, ◌==◌, if◌then◌else◌, length, take, drop, ◌>>=◌, ◌>>◌, assert, copy_in,
}
use circle_stdlib.Common.Int.{ℤ, eq_ℕ}
use circle_stdlib.Mqtt.{
  PacketType, publish, pub_rel, subscribe, unsubscribe, type_code, max_send_tries, u32_mod,
}

-- The state of the class. `buffer` is `none` where `new` returned a null pointer.
pub record SendPacket : Type 0 where
  pub packet_type : PacketType
  pub max_packet_size : ℕ
  pub error : Bool
  pub buffer : Option (List ℕ)
  pub buf_ptr : ℕ
  pub flags : ℕ
  pub send_tries : ℕ
  pub scheduled_time : ℕ
  pub qos : ℕ
  pub packet_identifier : ℕ

-- `MAX_LENGTH_FIXED_HEADER`
abbrev pub max_length_fixed_header : ℕ
max_length_fixed_header = 5

abbrev pub initial_flags : PacketType → ℕ
initial_flags pub_rel = 2
initial_flags subscribe = 2
initial_flags unsubscribe = 2
initial_flags _ = 0

-- The constructor; `memory` is what `new u8[m_nMaxPacketSize]` returned, with whatever bytes it holds.
-- The members that the constructor leaves unset are 0 here; they are set before they are read.
pub init : PacketType → ℕ → Option (List ℕ) → Option SendPacket
init t size memory = do
  assert (leb 128 size)
  some (record {
    packet_type = t;
    max_packet_size = size;
    error = elim memory [ none ↦ true | some _ ↦ false ];
    buffer = memory;
    buf_ptr = max_length_fixed_header;
    flags = elim memory [ none ↦ 0 | some _ ↦ initial_flags t ];
    send_tries = max_send_tries;
    scheduled_time = 0;
    qos = 0;
    packet_identifier = 0;
  })

-- The destructor.
abbrev pub destroy : SendPacket → SendPacket
destroy p = record p { buffer = none }

-- What the retransmission queue keeps in a packet.
abbrev pub set_scheduled_time : SendPacket → ℕ → SendPacket
set_scheduled_time p time = record p { scheduled_time = time }

abbrev pub get_scheduled_time : SendPacket → ℕ
get_scheduled_time p = p.scheduled_time

abbrev pub set_qos : SendPacket → ℕ → SendPacket
set_qos p qos = record p { qos = qos }

abbrev pub get_qos : SendPacket → ℕ
get_qos p = p.qos

abbrev pub set_packet_identifier : SendPacket → ℕ → SendPacket
set_packet_identifier p id = record p { packet_identifier = id }

abbrev pub get_packet_identifier : SendPacket → ℕ
get_packet_identifier p = p.packet_identifier

abbrev pub is_publish : PacketType → Bool
is_publish publish = true
is_publish _ = false

pub set_flags : SendPacket → ℕ → Option SendPacket
set_flags p f = do
  assert (is_publish p.packet_type)
  assert (leb f 0x0f)
  some (record p { flags = f })

-- The bytes `bs` at the write pointer, which moves behind them.
unfoldable pub put : SendPacket → List ℕ → Option SendPacket
put p bs = do
  buf ← p.buffer
  buf' ← copy_in buf p.buf_ptr bs
  some (record p { buffer = some buf'; buf_ptr = p.buf_ptr + length bs })

abbrev pub fail : SendPacket → SendPacket
fail p = record p { error = true }

pub append_byte : SendPacket → ℕ → Option SendPacket
append_byte p b =
    if p.error
    then some p
    else if leb p.max_packet_size p.buf_ptr
    then some (fail p)
    else put p (b ∷ [])

-- The two bytes of a `u16`, high byte first.
abbrev pub word_bytes : ℕ → List ℕ
word_bytes w = (w / 256) ∷ (w % 256) ∷ []

pub append_word : SendPacket → ℕ → Option SendPacket
append_word p w =
    if p.error
    then some p
    else if leb p.max_packet_size ((p.buf_ptr + 1) % u32_mod)
    then some (fail p)
    else put p (word_bytes w)

-- `str` is the string without its terminating zero. The two length bytes are `u8`.
abbrev pub string_bytes : List ℕ → List ℕ
string_bytes str = (length str / 256 % 256) ∷ (length str % 256) ∷ str

unfoldable pub append_string : SendPacket → List ℕ → Option SendPacket
append_string p str =
    if p.error
    then some p
    else if ltb p.max_packet_size ((p.buf_ptr + length str + 2) % u32_mod)
    then some (fail p)
    else put p (string_bytes str)

pub append_data : SendPacket → List ℕ → Option SendPacket
append_data p bs =
    if p.error
    then some p
    else if ltb p.max_packet_size ((p.buf_ptr + length bs) % u32_mod)
    then some (fail p)
    else if length bs == 0
    then some p
    else put p bs

-- The loop that encodes the remaining length. The first argument is the room that is left in
-- `EncodedLength`, which the loop asserts before it stores a byte.
unfoldable pub encode_length : ℕ → ℕ → Option (List ℕ)
encode_length zero n = none
encode_length (suc room) n =
    let rest = encode_length room (n / 128) in
    if ltb 0 (n / 128)
    then (rest >>= λ bytes. some (bit_or (n % 128) 0x80 ∷ bytes))
    else some (n % 128 ∷ [])

-- Stores the encoded remaining length, which ends where the body begins, and the control byte
-- before it.
unfoldable pub insert_header : List ℕ → List ℕ → ℕ → Option (List ℕ)
insert_header buf encoded control = do
  buf' ← copy_in buf (max_length_fixed_header - length encoded) encoded
  copy_in buf' (max_length_fixed_header - length encoded - 1) (control ∷ [])

-- The part of `Send` that completes the packet in the buffer: the sending tries, the remaining
-- length and the control byte. It returns the packet and, unless `Send` gives up, the bytes that it
-- hands to the socket.
unfoldable pub prepare : SendPacket → Option (SendPacket × Option (List ℕ))
prepare p = if p.error || (p.send_tries == 0) then some (p, none) else do
  assert (leb max_length_fixed_header p.buf_ptr)
  let remaining = p.buf_ptr - max_length_fixed_header
  encoded ← encode_length 4 remaining
  let n = length encoded
  assert (ltb 0 n)
  assert (ltb n (max_length_fixed_header - 1))
  buf ← p.buffer
  buf' ← insert_header buf encoded (bit_or (type_code p.packet_type * 16 % 256) p.flags)
  some (
    record p { buffer = some buf'; send_tries = p.send_tries - 1 },
    some (take (1 + n + remaining) (drop (max_length_fixed_header - n - 1) buf')),
  )

-- The socket is Circle's: it is given the bytes and answers the number that it took.
transmit {ℓ} :
    {W : Type ℓ} → (W → List ℕ → ℤ × W) → SendPacket → W → Option (List ℕ) → Bool × SendPacket × W
transmit socket p w none = (false, p, w)
transmit socket p w (some bytes) =
    let (taken, w') = socket w bytes in (eq_ℕ taken (length bytes), p, w')

-- `Send`
pub send {ℓ} : {W : Type ℓ} → (W → List ℕ → ℤ × W) → SendPacket → W → Option (Bool × SendPacket × W)
unfolding transmit
send socket p w = do (p', wire) ← prepare p; some (transmit socket p' w wire)
