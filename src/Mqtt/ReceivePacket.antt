-- ===== src/Mqtt/ReceivePacket.antt =====
-- CMQTTReceivePacket: include/circle-mbedtls/mqttreceivepacket.h and
-- src/circle-mbedtls/mqttreceivepacket.cpp. As for the packets that are sent, `none` is a failed
-- assertion or an access outside of the buffer.
pub mod Length
pub mod Frames
pub mod Reads
pub mod Completion
pub mod Usable
pub mod Strings
use circle_stdlib.Common.{
  ℕ, zero, suc, ◌+◌, ◌-◌, ◌*◌, ◌/◌, ◌%◌, ◌^◌, bit_and, Bool, true, false, not, ◌&&◌, ◌||◌, List, [],
  ◌∷◌, Option, none, some, ltb, leb, ◌==◌, if◌then◌else◌, length, get_elem?, take, drop, ◌>>=◌,
  ◌>>◌, assert, copy_in,
}
use circle_stdlib.Mqtt.{
  PacketType, conn_ack, publish, pub_ack, pub_rec, pub_rel, pub_comp, sub_ack, unsub_ack, ping_resp,
  unknown, type_of_code,
}

-- `TMQTTReceiveStatus`
pub data ReceiveStatus : Type 0 where
  continue_later packet_ok packet_invalid peer_disconnect not_enough_memory unknown_status :
      ReceiveStatus

-- The state of the class. `buffer` is `none` where `new` returned a null pointer.
pub record ReceivePacket : Type 0 where
  pub buffer_size : ℕ
  pub buffer : Option (List ℕ)
  pub in_ptr : ℕ
  pub out_ptr : ℕ
  pub packet_type : PacketType
  pub flags : ℕ
  pub remaining_length : ℕ
  pub bytes_consumed : ℕ

-- What a call of the socket's `Receive` does: it fails with a negative result, or stores bytes.
pub data Received : Type 0 where
  failed : Received
  stored : List ℕ → Received

-- The constructor. `frame_size` is Circle's `FRAME_BUFFER_SIZE`, and `memory` is what `new` returned
-- for the size that `buffer_bytes` gives. The members that are left unset are 0 here.
abbrev pub buffer_bytes : ℕ → ℕ → ℕ → ℕ
buffer_bytes frame_size max_size max_queued = max_size * max_queued + frame_size

unfoldable pub init : ℕ → ℕ → ℕ → Option (List ℕ) → Option ReceivePacket
init frame_size max_size max_queued memory = do
  assert (leb 128 max_size)
  assert (leb 1 max_queued)
  some (record {
    buffer_size = buffer_bytes frame_size max_size max_queued;
    buffer = memory;
    in_ptr = 0;
    out_ptr = 0;
    packet_type = unknown;
    flags = 0;
    remaining_length = 0;
    bytes_consumed = 0;
  })

unfoldable pub reset : ReceivePacket → ReceivePacket
reset p = record p { in_ptr = 0 }

-- The destructor.
abbrev pub destroy : ReceivePacket → ReceivePacket
destroy p = record p { buffer = none }

-- The loop of `Complete`, for the number of rounds that `m_nInPtr > m_nOutPtr` allows.
pub move_down : ℕ → List ℕ → ℕ → ℕ → Option (List ℕ)
move_down zero buf i out = some buf
move_down (suc rounds) buf i out = do
  b ← get_elem? buf out
  buf' ← copy_in buf i (b ∷ [])
  move_down rounds buf' (i + 1) (out + 1)

-- If nothing follows the packet, the loop does not run and the buffer is not read.
pub complete : ReceivePacket → Option ReceivePacket
complete p = do
  assert (leb p.out_ptr p.in_ptr)
  buf ← p.buffer
  buf' ← move_down (p.in_ptr - p.out_ptr) buf 0 p.out_ptr
  some (record p { buffer = some buf'; in_ptr = p.in_ptr - p.out_ptr; out_ptr = p.in_ptr })

-- How the loop that decodes the remaining length ends.
pub data Decoded : Type 0 where
  incomplete malformed : Decoded
  length_is : ℕ → Decoded

-- The loop, with `m_nOutPtr`, `nShift` and `nRemainingLength`. It returns at the latest in the fifth
-- round, so fuel 5 is enough; `none` is a read outside of the buffer.
unfoldable pub decode_length : ℕ → List ℕ → ℕ → ℕ → ℕ → ℕ → Option (Decoded × ℕ)
decode_length zero buf in_ptr out shift n = none
decode_length (suc fuel) buf in_ptr out shift n =
    if ltb (7 * 3) shift
    then some (malformed, out)
    else if leb in_ptr out
    then some (incomplete, out)
    else do
      b ← get_elem? buf out
      let n' = n + bit_and b 0x7f * 2 ^ shift
      let rest = decode_length fuel buf in_ptr (out + 1) (shift + 7) n'
      if (b == 0) && ltb 1 out
          then some (malformed, out)
          else if bit_and b 0x80 == 0
          then some (length_is n', out + 1)
          else rest

-- `(flags & MQTT_FLAG_QOS__MASK) >> MQTT_FLAG_QOS__SHIFT`
abbrev pub qos_of_flags : ℕ → ℕ
qos_of_flags flags = bit_and flags 6 / 2

-- The checks on the packet, `true` where it passes them.
unfoldable pub basic_checks : PacketType → ℕ → ℕ → Bool
basic_checks conn_ack flags n = (flags == 0) && (n == 2)
basic_checks publish flags n =
    leb (qos_of_flags flags) 2 && leb (if qos_of_flags flags == 0 then 3 else 5) n
basic_checks pub_ack flags n = (flags == 0) && (n == 2)
basic_checks pub_rec flags n = (flags == 0) && (n == 2)
basic_checks pub_comp flags n = (flags == 0) && (n == 2)
basic_checks unsub_ack flags n = (flags == 0) && (n == 2)
basic_checks pub_rel flags n = (flags == 2) && (n == 2)
basic_checks sub_ack flags n = (flags == 0) && leb 3 n
basic_checks ping_resp flags n = (flags == 0) && (n == 0)
basic_checks _ flags n = false

-- `Receive` once the new bytes are in the buffer.
unfoldable pub parse : ReceivePacket → Option (ReceiveStatus × ReceivePacket)
parse p = do
  buf ← p.buffer
  (decoded, out) ← decode_length 5 buf p.in_ptr 1 0 0
  let q : ReceivePacket = record p { out_ptr = out }
  elim decoded [
    | malformed ↦ some (packet_invalid, q)
    | incomplete ↦ some (continue_later, q)
    | length_is n ↦ if ltb p.in_ptr (out + n) then some (continue_later, q) else do
      b ← get_elem? buf 0
      let r : ReceivePacket = record q {
        packet_type = type_of_code (b / 16);
        flags = bit_and b 0x0f;
        remaining_length = n;
        bytes_consumed = 0;
      }
      some (
        if basic_checks (type_of_code (b / 16)) (bit_and b 0x0f) n
            then packet_ok
            else packet_invalid,
        r,
      )
  ]

-- The bytes that the socket stored are added to the buffer.
unfoldable pub store_received : ReceivePacket → List ℕ → Option ReceivePacket
store_received p bytes = do
  buf ← p.buffer
  buf' ← copy_in buf p.in_ptr bytes
  some (record p { buffer = some buf'; in_ptr = p.in_ptr + length bytes })

-- The test for a null pointer.
abbrev is_null {ℓ} : {A : Type ℓ} → Option A → Bool
is_null none = true
is_null (some a) = false

-- The part of `Receive` behind the call of the socket.
unfoldable pub after_receive {ℓ} :
    {W : Type ℓ} → Received → ReceivePacket → W → Option (ReceiveStatus × ReceivePacket × W)
after_receive failed p w = some (peer_disconnect, p, w)
after_receive (stored bytes) p w = do
  q ← store_received p bytes
  (status, r) ← parse q
  some (status, r, w)

-- `Receive`, with the socket's call as an argument: it gets the most bytes that it may store.
-- `m_nBufferSize` is at least `FRAME_BUFFER_SIZE`, so the subtraction does not wrap.
unfoldable pub receive {ℓ} :
    {W : Type ℓ}
    → ℕ
    → (W → ℕ → Received × W)
    → ReceivePacket
    → W
    → Option (ReceiveStatus × ReceivePacket × W)
unfolding after_receive
receive frame_size socket p w =
    if is_null p.buffer
    then some (not_enough_memory, p, w)
    else if ltb (p.buffer_size - frame_size) p.in_ptr
    then some (not_enough_memory, p, w)
    else let (answer, w') = socket w frame_size in after_receive answer p w'

abbrev pub get_type : ReceivePacket → PacketType
get_type p = p.packet_type

abbrev pub get_flags : ReceivePacket → ℕ
get_flags p = p.flags

abbrev pub get_remaining_length : ReceivePacket → ℕ
get_remaining_length p = p.remaining_length

pub get_byte : ReceivePacket → Option (ℕ × ReceivePacket)
get_byte p = do
  assert (leb (p.bytes_consumed + 1) p.remaining_length)
  buf ← p.buffer
  b ← get_elem? buf p.out_ptr
  some (b, record p { bytes_consumed = p.bytes_consumed + 1; out_ptr = p.out_ptr + 1 })

-- The high byte comes first.
pub get_word : ReceivePacket → Option (ℕ × ReceivePacket)
get_word p = do
  assert (leb (p.bytes_consumed + 2) p.remaining_length)
  buf ← p.buffer
  hi ← get_elem? buf p.out_ptr
  lo ← get_elem? buf (p.out_ptr + 1)
  some (hi * 256 + lo, record p { bytes_consumed = p.bytes_consumed + 2; out_ptr = p.out_ptr + 2 })

-- The loop of `GetString`: the characters that are read, or `none` at one above 0x7F, and the
-- pointer behind the last one that was read. The outer `none` is a read outside of the buffer.
read_chars : ℕ → List ℕ → ℕ → Option (Option (List ℕ) × ℕ)
read_chars zero buf out = some (some [], out)
read_chars (suc count) buf out = do
  c ← get_elem? buf out
  let rest = read_chars count buf (out + 1)
  if leb 0x80 c then some (none, out + 1) else do
    (chars, out') ← rest
    some (elim chars [ none ↦ none | some cs ↦ some (c ∷ cs) ], out')

-- `GetString` into a buffer of `size` bytes. The result is the string; where the method returns 0
-- the string is empty, and what it left in the caller's buffer is not used.
pub get_string : ReceivePacket → ℕ → Option (List ℕ × ReceivePacket)
get_string p size = do
  (len, p₁) ← get_word p
  let p₂ : ReceivePacket = record p₁ { bytes_consumed = p₁.bytes_consumed + len }
  if ltb p₂.remaining_length p₂.bytes_consumed
      then some ([], p₂)
      else if ltb size (len + 1)
      then some ([], p₂)
      else do
        buf ← p₂.buffer
        (chars, out) ← read_chars len buf p₂.out_ptr
        some (elim chars [ none ↦ [] | some cs ↦ cs ], record p₂ { out_ptr = out })

-- `GetData`: the bytes behind the pointer that it returns, or `none` for the null pointer.
pub get_data : ReceivePacket → ℕ → Option (Option (List ℕ) × ReceivePacket)
get_data p n = do
  let q : ReceivePacket = record p { bytes_consumed = p.bytes_consumed + n }
  if ltb q.remaining_length q.bytes_consumed then some (none, q) else do
    buf ← q.buffer
    assert (leb (q.out_ptr + n) (length buf))
    some (some (take n (drop q.out_ptr buf)), record q { out_ptr = q.out_ptr + n })
