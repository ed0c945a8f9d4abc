-- ===== src/Mqtt/SendPacket/Wire.antt =====
-- What CMQTTSendPacket::Send hands to the socket.
use circle_stdlib.Common.{
  ℕ, ◌+◌, ◌-◌, ◌*◌, ◌/◌, ◌%◌, ◌≤◌, ◌<◌, ◌≡◌, refl, sym, ap, ◌∙◌, false, List, [], ◌∷◌, ◌++◌, Option,
  none, some, ltb, lt→ltb, ne→==, le→leb, if◌then◌else◌, length, length-append, take, drop,
  take-append, drop-append, split_at, ◌>>=◌, copy_in, copy_in_middle, append_assoc, Holds, arith,
  bit_or,
}
use circle_stdlib.Common.Bits.{set_top_bit, join_nibbles}
use circle_stdlib.Mqtt.{PacketType, type_code, type_code-lt}
use circle_stdlib.Mqtt.SendPacket.{SendPacket, encode_length, insert_header, prepare}
use circle_stdlib.Mqtt.SendPacket.Body.{Contains}

-- The "remaining length" field of the MQTT 3.1.1 standard: seven bits to a byte, lowest first, with
-- the top bit set on all bytes but the last.
abbrev pub length_field : ℕ → List ℕ
length_field n =
    if ltb n 128
    then n ∷ []
    else if ltb n 16384
    then (n % 128 + 128) ∷ n / 128 ∷ []
    else if ltb n 2097152
    then (n % 128 + 128) ∷ (n / 128 % 128 + 128) ∷ n / 16384 ∷ []
    else (n % 128 + 128) ∷ (n / 128 % 128 + 128) ∷ (n / 16384 % 128 + 128) ∷ n / 2097152 ∷ []

-- A control packet on the wire.
abbrev pub frame : PacketType → ℕ → List ℕ → List ℕ
frame t flags body = (type_code t * 16 + flags) ∷ (length_field (length body) ++ body)

-- The encoding loop writes the field of the standard for every length that it can express, and
-- fails its assertion for every other.
pub encode_length_lem :
    (n : ℕ) → encode_length 4 n ≡ (if ltb n 268435456 then some (length_field n) else none)
unfolding encode_length
encode_length_lem n = ground (
  arith,
  set_top_bit (n % 128),
  set_top_bit (n / 128 % 128),
  set_top_bit (n / 128 / 128 % 128),
  set_top_bit (n / 128 / 128 / 128 % 128),
)

length-length_field :
    (n : ℕ) → n < 2097152 → (1 ≤ length (length_field n)) × (length (length_field n) ≤ 3)
length-length_field n h = ground arith

-- Two writes side by side, before `rest`.
two_writes :
    (f₀ f₁ f₂ rest enc : List ℕ) (ctrl i j : ℕ)
    → j ≡ length f₀
    → i ≡ length f₀ + 1
    → length f₁ ≡ 1
    → length enc ≡ length f₂
    → (copy_in (f₀ ++ (f₁ ++ (f₂ ++ rest))) i enc >>= λ b. copy_in b j (ctrl ∷ []))
      ≡ some (f₀ ++ (ctrl ∷ (enc ++ rest)))
two_writes f₀ f₁ f₂ rest enc ctrl i j ej ei l₁ l₂ =
    rw
      (
        ← append_assoc f₀ f₁ (f₂ ++ rest),
        copy_in_middle i (f₀ ++ f₁) f₂ enc rest (omega (arith, length-append f₀ f₁)) l₂,
        ◌>>=◌,
        append_assoc f₀ f₁ (enc ++ rest),
      )
      (copy_in_middle j f₀ f₁ (ctrl ∷ []) (enc ++ rest) ej (sym l₁))

header_parts :
    (front f₀ f₁ f₂ f₃ rest enc : List ℕ) (ctrl : ℕ)
    → length front ≡ 5
    → length enc ≤ 3
    → front ≡ f₀ ++ f₁
    → length f₀ ≡ 4 - length enc
    → f₁ ≡ f₂ ++ f₃
    → length f₂ ≡ 1
    → (before : List ℕ) × (length before ≡ 5 - length enc - 1)
      × (insert_header (front ++ rest) enc ctrl ≡ some (before ++ (ctrl ∷ (enc ++ rest))))
unfolding insert_header
header_parts front f₀ f₁ f₂ f₃ rest enc ctrl f h e l e' l' =
    let parts : front ++ rest ≡ f₀ ++ (f₂ ++ (f₃ ++ rest)) = rw (e, e') (simp append_assoc) in
    (
      f₀,
      omega arith,
      rw parts (
          two_writes f₀ f₂ f₃ rest enc ctrl (5 - length enc) (5 - length enc - 1) (omega arith)
            (omega arith) l'
            (omega (arith, ap length e, length-append f₀ f₁, ap length e', length-append f₂ f₃))),
    )

-- The fixed header goes in front of the body, without a gap.
header_lem :
    (front rest enc : List ℕ) (ctrl : ℕ)
    → length front ≡ 5
    → length enc ≤ 3
    → (before : List ℕ) × (length before ≡ 5 - length enc - 1)
      × (insert_header (front ++ rest) enc ctrl ≡ some (before ++ (ctrl ∷ (enc ++ rest))))
header_lem front rest enc ctrl f h =
    let (f₀, f₁, e, l) = split_at (4 - length enc) front (omega arith) in
    let (f₂, f₃, e', l') = split_at 1 f₁ (omega (arith, ap length e, length-append f₀ f₁)) in
    header_parts front f₀ f₁ f₂ f₃ rest enc ctrl f h e l e' l'

-- Behind the unused bytes stands the frame.
frame_cut :
    (before enc body back : List ℕ) (ctrl n m : ℕ)
    → n ≡ length before
    → m ≡ 1 + length enc + length body
    → take m (drop n (before ++ (ctrl ∷ (enc ++ (body ++ back))))) ≡ ctrl ∷ (enc ++ body)
frame_cut before enc body back ctrl n m e f =
    rw (drop-append n before (ctrl ∷ (enc ++ (body ++ back))) e, ← append_assoc enc body back)
      (take-append m (ctrl ∷ (enc ++ body)) back (omega (arith, length-append enc body)))

-- The state in which `Send` leaves a packet, and what it hands to the socket.
pub record Prepared (p : SendPacket) (body : List ℕ) (q : SendPacket × Option (List ℕ))
    : Type 0 where
  pub wire : q.1 ≡ some (frame p.packet_type p.flags body)
  pub body_kept : Contains q.0 body
  pub tries : q.0.send_tries + 1 ≡ p.send_tries
  pub others : q.0 ≡ record p { buffer = q.0.buffer; send_tries = q.0.send_tries }

-- The steps of `Send` where nothing goes wrong.
prepare_steps :
    (p : SendPacket) (n ctrl : ℕ) (enc buf buf₂ : List ℕ)
    → p.error ≡ false
    → 0 < p.send_tries
    → p.buf_ptr ≡ 5 + n
    → encode_length 4 n ≡ some enc
    → 1 ≤ length enc
    → length enc ≤ 3
    → p.buffer ≡ some buf
    → bit_or (type_code p.packet_type * 16 % 256) p.flags ≡ ctrl
    → insert_header buf enc ctrl ≡ some buf₂
    → prepare p
      ≡ some (
        record p { buffer = some buf₂; send_tries = p.send_tries - 1 },
        some (take (1 + length enc + n) (drop (5 - length enc - 1) buf₂)),
      )
unfolding prepare
prepare_steps p n ctrl enc buf buf₂ e t ptr en l u m ct w =
    let rem : p.buf_ptr - 5 ≡ n = omega arith in
    simp (
      e,
      ne→== p.send_tries 0 (omega arith),
      le→leb 5 p.buf_ptr (omega arith),
      rem,
      en,
      lt→ltb 0 (length enc) l,
      lt→ltb (length enc) 4 (omega arith),
      m,
      ct,
      w,
    )

control :
    (t : PacketType) (f : ℕ) → f < 16 → bit_or (type_code t * 16 % 256) f ≡ type_code t * 16 + f
control t f h =
    let e : type_code t * 16 % 256 ≡ type_code t * 16 = omega (arith, type_code-lt t) in
    rw e (join_nibbles (type_code t) f (type_code-lt t) h)

-- `prepare_lem`, once the steps are known.
prepared :
    (p : SendPacket) (body enc before : List ℕ)
    → (c : Contains p body) → 0 < p.send_tries
    → enc ≡ length_field (length body)
    → prepare p
      ≡ some (
        record p {
          buffer =
              some
                (before ++ ((type_code p.packet_type * 16 + p.flags) ∷ (enc ++ (body ++ c.back))));
          send_tries = p.send_tries - 1;
        },
        some (
            take (1 + length enc + length body) (
              drop (5 - length enc - 1) (
                before ++ ((type_code p.packet_type * 16 + p.flags) ∷ (enc ++ (body ++ c.back)))))),
      )
    → length before ≡ 5 - length enc - 1
    → 1 ≤ length enc
    → length enc ≤ 3
    → Holds (Prepared p body) (prepare p)
prepared p body enc before c tries en e lb l u = rw e (record {
  wire = ap some (
      frame_cut before enc body c.back (type_code p.packet_type * 16 + p.flags) (5 - length enc - 1)
        (1 + length enc + length body) (sym lb) refl
      ∙ rw en);
  body_kept = record {
    front = before ++ ((type_code p.packet_type * 16 + p.flags) ∷ enc);
    back = c.back;
    no_error = c.no_error;
    memory = simp append_assoc;
    front_size =
        omega (arith, length-append before ((type_code p.packet_type * 16 + p.flags) ∷ enc));
    pointer = c.pointer;
    size = c.size;
    in_range = c.in_range;
  };
  tries = omega arith;
  others = refl;
})

-- A packet without an error whose tries are not used up, and whose remaining length takes at most
-- three bytes, is handed to the socket as the frame of the MQTT standard. The body stays as it was
-- for a later try, and one try is used up.
pub prepare_lem :
    (p : SendPacket) (body : List ℕ)
    → Contains p body
    → 0 < p.send_tries
    → p.flags < 16
    → length body < 2097152
    → Holds (Prepared p body) (prepare p)
unfolding prepare
prepare_lem p body c tries fl h =
    let (l, u) = length-length_field (length body) h in
    let (before, lb, w) =
      header_lem c.front (body ++ c.back) (length_field (length body))
        (type_code p.packet_type * 16 + p.flags) c.front_size u in
    prepared p body (length_field (length body)) before c tries refl
      (prepare_steps p (length body) (type_code p.packet_type * 16 + p.flags)
        (length_field (length body)) _ _ c.no_error tries c.pointer
        (encode_length_lem (length body) ∙ rw (lt→ltb (length body) 268435456 (omega arith))) l u
        c.memory (control p.packet_type p.flags fl) w)
      lb l u
