-- ===== src/Mqtt/SendPacket/Body.antt =====
-- What the append operations of CMQTTSendPacket do to the body of the packet.
use circle_stdlib.Common.{
  ℕ, suc, ◌+◌, ◌%◌, ◌≤◌, ◌<◌, ◌≡◌, refl, sym, ap, ◌⊎◌, inl, inr, Bool, true, false, List, [], ◌∷◌,
  ◌++◌, Option, some, ltb, leb, if◌then◌else◌, length, length-append, split_at, ◌>>=◌,
  copy_in_middle, le→leb, ne→==, ◌==◌, append_assoc, append-nil, Holds, arith,
}
use circle_stdlib.Mqtt.{PacketType, u32_mod, max_send_tries}
use circle_stdlib.Mqtt.SendPacket.{
  SendPacket, init, put, fail, append_byte, append_word, append_string, append_data, word_bytes,
  string_bytes, initial_flags,
}

-- The packet has met no error and holds the bytes `body` behind the room for the fixed header.
pub record Contains (p : SendPacket) (body : List ℕ) : Type 0 where
  pub front : List ℕ
  pub back : List ℕ
  pub no_error : p.error ≡ false
  pub memory : p.buffer ≡ some (front ++ (body ++ back))
  pub front_size : length front ≡ 5
  pub pointer : p.buf_ptr ≡ 5 + length body
  pub size : p.max_packet_size ≡ 5 + length body + length back
  pub in_range : p.max_packet_size + 1 < u32_mod

-- `q` is `p` with the bytes `bs` appended to its body, or, where they do not fit, with the error
-- flag set and nothing else changed.
abbrev pub Appended : SendPacket → List ℕ → List ℕ → SendPacket → Type 0
Appended p body bs q =
    ((5 + length body + length bs ≤ p.max_packet_size)
      × Contains q (body ++ bs)
      × (q ≡ record p { buffer = q.buffer; buf_ptr = q.buf_ptr }))
    ⊎ ((p.max_packet_size < 5 + length body + length bs) × (q ≡ fail p))

put_lem :
    (p : SendPacket) (body bs : List ℕ)
    → Contains p body
    → 5 + length body + length bs ≤ p.max_packet_size
    → Holds (Appended p body bs) (put p bs)
unfolding put
put_lem p body bs c h =
    let (old, rest, e, f) = split_at (length bs) c.back (omega (arith, c.size)) in
    let whole : c.front ++ (body ++ c.back) ≡ (c.front ++ body) ++ (old ++ rest) =
      rw e (sym (append_assoc c.front body (old ++ rest))) in
    rw
      (
        c.memory,
        ◌>>=◌,
        whole,
        copy_in_middle p.buf_ptr (c.front ++ body) old bs rest
            (omega (arith, c.pointer, c.front_size, length-append c.front body)) (sym f),
      )
      (inl (
        h,
        record {
          front = c.front;
          back = rest;
          no_error = c.no_error;
          memory = simp append_assoc;
          front_size = c.front_size;
          pointer = omega (arith, c.pointer, length-append body bs);
          size =
              omega (arith, c.size, length-append body bs, ap length e, length-append old rest, f);
          in_range = c.in_range;
        },
        refl,
      ))

-- A new packet is empty.
pub init_lem :
    (t : PacketType) (size : ℕ) (memory : List ℕ)
    → 128 ≤ size
    → size + 1 < u32_mod
    → length memory ≡ size
    → Holds
        (λ p.
          Contains p []
          × (p.packet_type ≡ t)
          × (p.max_packet_size ≡ size)
          × (p.flags ≡ initial_flags t)
          × (p.send_tries ≡ max_send_tries))
        (init t size (some memory))
unfolding init
init_lem t size memory h lt e =
    let (front, back, e', f) = split_at 5 memory (omega arith) in
    rw (le→leb 128 size h) (
      record {
        front = front;
        back = back;
        no_error = refl;
        memory = ap some e';
        front_size = f;
        pointer = omega arith;
        size = omega (arith, ap length e', length-append front back);
        in_range = lt;
      },
      refl,
      refl,
      refl,
      refl,
    )

-- The shape of the four operations: the test for a full packet decides.
guarded_lem :
    (p : SendPacket) (body bs : List ℕ) (full : Bool) (act : Option SendPacket)
    → Contains p body
    → (full ≡ true → p.max_packet_size < 5 + length body + length bs)
    → (full ≡ false → 5 + length body + length bs ≤ p.max_packet_size)
    → (5 + length body + length bs ≤ p.max_packet_size → Holds (Appended p body bs) act)
    → Holds (Appended p body bs) (if p.error then some p else if full then some (fail p) else act)
guarded_lem p body bs true act c over fits k = simp c.no_error (inr (over refl, refl))
guarded_lem p body bs false act c over fits k = simp c.no_error (k (fits refl))

guarded_put_lem :
    (p : SendPacket) (body bs : List ℕ) (full : Bool)
    → Contains p body
    → (full ≡ true → p.max_packet_size < 5 + length body + length bs)
    → (full ≡ false → 5 + length body + length bs ≤ p.max_packet_size)
    → Holds
        (Appended p body bs)
        (if p.error then some p else if full then some (fail p) else put p bs)
guarded_put_lem p body bs full c over fits =
    guarded_lem p body bs full (put p bs) c over fits (put_lem p body bs c)

append_byte_lem :
    (p : SendPacket) (body : List ℕ) (b : ℕ)
    → Contains p body
    → Holds (Appended p body (b ∷ [])) (append_byte p b)
unfolding append_byte
append_byte_lem p body b c =
    guarded_put_lem p body (b ∷ []) (leb p.max_packet_size p.buf_ptr) c
      (λ e. ground (arith, c.pointer)) (λ e. ground (arith, c.pointer))

append_word_lem :
    (p : SendPacket) (body : List ℕ) (w : ℕ)
    → Contains p body
    → Holds (Appended p body (word_bytes w)) (append_word p w)
unfolding append_word
append_word_lem p body w c =
    guarded_put_lem p body (word_bytes w) (leb p.max_packet_size ((p.buf_ptr + 1) % u32_mod)) c
      (λ e. ground (arith, c.pointer, c.size, c.in_range))
      (λ e. ground (arith, c.pointer, c.size, c.in_range))

pub append_string_lem :
    (p : SendPacket) (body str : List ℕ)
    → Contains p body
    → p.buf_ptr + length str + 2 < u32_mod
    → Holds (Appended p body (string_bytes str)) (append_string p str)
unfolding append_string
append_string_lem p body str c h =
    guarded_put_lem p body (string_bytes str)
      (ltb p.max_packet_size ((p.buf_ptr + length str + 2) % u32_mod)) c
      (λ e. ground (arith, c.pointer)) (λ e. ground (arith, c.pointer))

unchanged : (p : SendPacket) (body : List ℕ) → Contains p body → Appended p body [] p
unchanged p body c = inl (omega (arith, c.size), rw append-nil c, refl)

put_data_lem :
    (p : SendPacket) (body bs : List ℕ)
    → Contains p body
    → 5 + length body + length bs ≤ p.max_packet_size
    → Holds (Appended p body bs) (if length bs == 0 then some p else put p bs)
put_data_lem p body [] c h = unchanged p body c
put_data_lem p body (b ∷ bs) c h =
    rw (ne→== (suc (length bs)) 0 (omega arith)) (put_lem p body (b ∷ bs) c h)

append_data_lem :
    (p : SendPacket) (body bs : List ℕ)
    → Contains p body
    → p.buf_ptr + length bs < u32_mod
    → Holds (Appended p body bs) (append_data p bs)
unfolding append_data
append_data_lem p body bs c h =
    guarded_lem p body bs (ltb p.max_packet_size ((p.buf_ptr + length bs) % u32_mod))
      (if length bs == 0 then some p else put p bs) c (λ e. ground (arith, c.pointer))
      (λ e. ground (arith, c.pointer)) (put_data_lem p body bs c)

-- A field of a packet, and the operation that appends it.
pub data Field : Type 0 where
  byte word : ℕ → Field
  string bytes : List ℕ → Field

abbrev pub field_bytes : Field → List ℕ
field_bytes (byte b) = b ∷ []
field_bytes (word w) = word_bytes w
field_bytes (string str) = string_bytes str
field_bytes (bytes bs) = bs

unfoldable pub append : SendPacket → Field → Option SendPacket
append p (byte b) = append_byte p b
append p (word w) = append_word p w
append p (string str) = append_string p str
append p (bytes bs) = append_data p bs

-- A field whose end, counted from the start of the buffer, is an address below 2 ^ 32 is appended
-- to the body; if the buffer has no room for it, the error flag is set, and nothing else changes.
-- No operation fails an assertion or writes outside of the buffer.
pub append_lem :
    (p : SendPacket) (body : List ℕ) (f : Field)
    → Contains p body
    → 5 + length body + length (field_bytes f) < u32_mod
    → Holds (Appended p body (field_bytes f)) (append p f)
unfolding append
append_lem p body (byte b) c h = append_byte_lem p body b c
append_lem p body (word w) c h = append_word_lem p body w c
append_lem p body (string str) c h = append_string_lem p body str c (omega (arith, c.pointer))
append_lem p body (bytes bs) c h = append_data_lem p body bs c (omega (arith, c.pointer))

-- Once the error flag is set, no operation changes the packet.
pub append-error : (p : SendPacket) (f : Field) → p.error ≡ true → append p f ≡ some p
unfolding append append_byte append_word append_string append_data
append-error p (byte b) e = simp e
append-error p (word w) e = simp e
append-error p (string str) e = simp e
append-error p (bytes bs) e = simp e
