-- ===== src/Mqtt/ReceivePacket/Frames.antt =====
-- CMQTTReceivePacket::Receive against the frames of the MQTT standard.
use circle_stdlib.Common.{
  ℕ, ◌+◌, ◌*◌, ◌/◌, ◌≤◌, ◌<◌, ◌≡◌, refl, sym, ap, ◌∙◌, Bool, true, false, List, [], ◌∷◌, ◌++◌,
  Option, none, some, ltb, lt→ltb, ge→ltb, if◌then◌else◌, length, length-append, drop, split_at,
  append_assoc, Holds, Holds-result, Holds_some, arith, All, bit_and, inl, inr, append_overlap,
  dec_lt,
}
use circle_stdlib.Common.Bits.{low_nibble}
use circle_stdlib.Mqtt.{PacketType, type_code, type_of_code, type_code-lt, type_of_code-type_code}
use circle_stdlib.Mqtt.SendPacket.Wire.{length_field, frame}
use circle_stdlib.Mqtt.ReceivePacket.{
  ReceivePacket, ReceiveStatus, continue_later, packet_ok, packet_invalid, Decoded, incomplete,
  malformed, length_is, decode_length, basic_checks, parse,
}
use circle_stdlib.Mqtt.ReceivePacket.Length.{
  IsByte, IsField, IsInner, value, decode_field, decode_prefix, decode_sound, end_round, Read,
}

length_field-IsField :
    (n : ℕ)
    → n < 268435456
    → IsField 0 (length_field n) × (value (length_field n) ≡ n) × (length (length_field n) ≤ 4)
unfolding value
length_field-IsField n h = ground arith

value-length_field :
    (f : List ℕ) → IsField 0 f → length f ≤ 4 → (length_field (value f) ≡ f) × (value f < 268435456)
unfolding value
value-length_field [] i l = absurd i
value-length_field (a ∷ []) i l = ground arith
value-length_field (a ∷ b ∷ []) i l = ground arith
value-length_field (a ∷ b ∷ c ∷ []) i l = ground arith
value-length_field (a ∷ b ∷ c ∷ d ∷ []) i l = ground arith
value-length_field (a ∷ b ∷ c ∷ d ∷ e ∷ f) i l = absurd (omega arith)

decode-length_field :
    (ctrl n in_ptr : ℕ) (rest : List ℕ)
    → n < 268435456
    → 1 + length (length_field n) ≤ in_ptr
    → decode_length 5 (ctrl ∷ (length_field n ++ rest)) in_ptr 1 0 0
      ≡ some (length_is n, 1 + length (length_field n))
decode-length_field ctrl n in_ptr rest h e =
    let (i, v, l) = length_field-IsField n h in
    decode_field (length_field n) 5 0 in_ptr 1 0 0 (ctrl ∷ []) rest i (inr (omega arith))
      (omega arith) (omega arith) refl e
    ∙ ap (λ (k : ℕ). some (length_is k, 1 + length (length_field n))) (omega (arith, v))

-- The state behind the header of a frame.
abbrev pub at_body : ReceivePacket → PacketType → ℕ → List ℕ → ReceivePacket
at_body p t flags body = record p {
  out_ptr = 1 + length (length_field (length body));
  packet_type = t;
  flags = flags;
  remaining_length = length body;
  bytes_consumed = 0;
}

control_fields :
    (t : PacketType) (flags : ℕ)
    → flags < 16
    → (type_of_code ((type_code t * 16 + flags) / 16) ≡ t)
      × (bit_and (type_code t * 16 + flags) 0x0f ≡ flags)
control_fields t flags h =
    let q : (type_code t * 16 + flags) / 16 ≡ type_code t = omega arith in
    let lt : type_code t * 16 + flags < 256 = omega (arith, type_code-lt t) in
    (rw q (type_of_code-type_code t), low_nibble (type_code t * 16 + flags) lt ∙ omega arith)

-- A complete frame at the start of the buffer is accepted exactly if it passes the basic checks.
-- The type, the flags and the length are those of the frame, and the read pointer stands before the
-- body.
pub parse-frame :
    (p : ReceivePacket) (t : PacketType) (flags : ℕ) (body rest : List ℕ)
    → p.buffer ≡ some (frame t flags body ++ rest)
    → flags < 16
    → length body < 268435456
    → length (frame t flags body) ≤ p.in_ptr
    → parse p
      ≡ some (
        if basic_checks t flags (length body) then packet_ok else packet_invalid,
        at_body p t flags body,
      )
unfolding parse
parse-frame p t flags body rest e h l i =
    let n : ℕ = length body in
    let (et, ef) = control_fields t flags h in
    let d =
      decode-length_field (type_code t * 16 + flags) n p.in_ptr (body ++ rest) l
        (omega (arith, length-append (length_field n) body)) in
    let enough : ltb p.in_ptr (1 + length (length_field n) + n) ≡ false =
      ge→ltb _ _ (omega (arith, length-append (length_field n) body)) in
    simp (e, append_assoc, d, enough, et, ef)

IsInner-part : (low : ℕ) (f g : List ℕ) → IsField low (f ++ g) → 0 < length g → All IsInner f
IsInner-part low [] g i h = tt
IsInner-part low (a ∷ []) [] i h = absurd (omega arith)
IsInner-part low (a ∷ []) (b ∷ g) i h = ((i.0, i.1), tt)
IsInner-part low (a ∷ b ∷ f) g i h = ((i.0, i.1), IsInner-part 1 (b ∷ f) g i.2 h)

-- Where the received bytes end before the frame does: in the length field, or in the body.
decode_cut :
    (p : ReceivePacket) (ctrl n : ℕ) (f more junk body : List ℕ)
    → n < 268435456
    → f ++ more ≡ length_field n ++ body
    → length f < length (length_field n)
    → p.in_ptr ≡ 1 + length f
    → decode_length 5 (ctrl ∷ (f ++ junk)) p.in_ptr 1 0 0 ≡ some (incomplete, p.in_ptr)
decode_cut p ctrl n f more junk body h e lt i =
    let (fi, v, l) = length_field-IsField n h in
    let (w, ew, _) = append_overlap f more (length_field n) body e (omega arith) in
    decode_prefix f 5 p.in_ptr 1 0 0 (ctrl ∷ []) junk
      (IsInner-part 0 f w (rw ew at fi) (omega (arith, ap length ew, length-append f w)))
      (omega arith) (omega arith) refl (sym i)

abbrev pub Waits : ReceivePacket → ReceiveStatus × ReceivePacket → Type 0
Waits p (s, q) = (s ≡ continue_later) × (q ≡ record p { out_ptr = q.out_ptr })

parse_cut :
    (p : ReceivePacket) (buf : List ℕ) (o : ℕ)
    → p.buffer ≡ some buf
    → decode_length 5 buf p.in_ptr 1 0 0 ≡ some (incomplete, o)
    → Holds (Waits p) (parse p)
unfolding parse
parse_cut p buf o e d = simp (e, d) (refl, refl)

parse_short :
    (p : ReceivePacket) (buf : List ℕ) (n o : ℕ)
    → p.buffer ≡ some buf
    → decode_length 5 buf p.in_ptr 1 0 0 ≡ some (length_is n, o)
    → p.in_ptr < o + n
    → Holds (Waits p) (parse p)
unfolding parse
parse_short p buf n o e d h = simp (e, d, lt→ltb p.in_ptr (o + n) h) (refl, refl)

-- While a frame has not arrived completely, the packet is left alone, whatever stands behind the
-- received bytes in the buffer.
pub parse_partial :
    (p : ReceivePacket) (t : PacketType) (flags : ℕ) (body front more junk : List ℕ)
    → p.buffer ≡ some (front ++ junk)
    → length front ≡ p.in_ptr
    → front ++ more ≡ frame t flags body
    → 0 < length more
    → length body < 268435456
    → Holds (Waits p) (parse p)
parse_partial p t flags body [] more junk e i f h l =
    parse_cut p junk 1 e (end_round 4 junk p.in_ptr 1 0 0 0 (omega arith) (omega arith))
parse_partial p t flags body (c ∷ front) more junk e i f h l =
    elim (dec_lt (length front) (length (length_field (length body)))) [
      | yes cut ↦ parse_cut p (c ∷ (front ++ junk)) p.in_ptr e (
          decode_cut p c (length body) front more junk body l (ap (drop 1) f) cut
            (omega (arith, i)))
      | no past ↦
          let (w, ew, eb) =
            append_overlap (length_field (length body)) body front more (sym (ap (drop 1) f))
              (omega arith) in
          parse_short p (c ∷ (front ++ junk)) (length body)
            (1 + length (length_field (length body))) e
            (rw ew (
              rw (append_assoc (length_field (length body)) w junk) (
                decode-length_field c (length body) p.in_ptr (w ++ junk) l
                  (omega (arith, i, ap length ew, length-append (length_field (length body)) w)))))
            (omega (
              arith,
              ap length ew,
              ap length eb,
              length-append (length_field (length body)) w,
              length-append w more,
            ))
    ]

-- What an answer of `parse` tells: an accepted packet is a frame of the standard that stands at the
-- start of the buffer, has arrived completely, and passes the basic checks.
abbrev pub Accepted : List ℕ → ReceivePacket → ReceivePacket → Type 0
Accepted buf p q =
    (body : List ℕ) × (rest : List ℕ) × (buf ≡ frame q.packet_type q.flags body ++ rest)
    × (q ≡ at_body p q.packet_type q.flags body)
    × (q.flags < 16)
    × (q.out_ptr + length body ≤ p.in_ptr)
    × (basic_checks q.packet_type q.flags (length body) ≡ true)

abbrev pub IsAnswer : ReceiveStatus → Type 0
IsAnswer continue_later = Unit {0}
IsAnswer packet_ok = Unit {0}
IsAnswer packet_invalid = Unit {0}
IsAnswer _ = ⊥

abbrev pub SameBuffer : ReceivePacket → ReceivePacket → Type 0
SameBuffer p q = (q.buffer ≡ p.buffer) × (q.in_ptr ≡ p.in_ptr) × (q.buffer_size ≡ p.buffer_size)

abbrev pub Sound : List ℕ → ReceivePacket → ReceiveStatus × ReceivePacket → Type 0
Sound buf p (s, q) = (s ≡ packet_ok → Accepted buf p q) × SameBuffer p q × IsAnswer s

-- Only a number of an enumerator passes the checks.
checked_code :
    (c flags n : ℕ)
    → c < 16
    → basic_checks (type_of_code c) flags n ≡ true
    → type_code (type_of_code c) ≡ c
unfolding basic_checks type_of_code type_code
checked_code c flags n h e = ground arith

control_byte :
    (c n : ℕ)
    → c < 256
    → basic_checks (type_of_code (c / 16)) (bit_and c 0x0f) n ≡ true
    → type_code (type_of_code (c / 16)) * 16 + bit_and c 0x0f ≡ c
control_byte c n h e =
    omega (arith, checked_code (c / 16) (bit_and c 0x0f) n (omega arith) e, low_nibble c h)

header_state : ReceivePacket → PacketType → ℕ → ℕ → ℕ → ReceivePacket
header_state p t flags o n = record p {
  out_ptr = o;
  packet_type = t;
  flags = flags;
  remaining_length = n;
  bytes_consumed = 0;
}

same_state :
    (p : ReceivePacket) (t : PacketType) (flags : ℕ) (body : List ℕ) {o n : ℕ}
    → o ≡ 1 + length (length_field (length body))
    → n ≡ length body
    → header_state p t flags o n ≡ at_body p t flags body
unfolding header_state
same_state p t flags body eo en = λ j. header_state p t flags (eo j) (en j)

accepted :
    (p : ReceivePacket) (ctrl n o : ℕ) (bs f rest : List ℕ)
    → ctrl < 256
    → bs ≡ f ++ rest
    → IsField 0 f
    → n ≡ value f
    → o ≡ 1 + length f
    → length f ≤ 4
    → o + n ≤ p.in_ptr
    → p.in_ptr ≤ 1 + length bs
    → basic_checks (type_of_code (ctrl / 16)) (bit_and ctrl 0x0f) n ≡ true
    → Accepted (ctrl ∷ bs) p (header_state p (type_of_code (ctrl / 16)) (bit_and ctrl 0x0f) o n)
unfolding header_state
accepted p ctrl n o bs f rest cb eb i en eo lf fits room ok =
    let (body, back, er, lb) =
      split_at n rest (omega (arith, ap length eb, length-append f rest)) in
    let field : length_field (length body) ≡ f =
      ap (λ (k : ℕ). length_field k) (lb ∙ en) ∙ (value-length_field f i lf).0 in
    (
      body,
      back,
      rw (control_byte ctrl n cb ok, field, append_assoc f body back, ← er) (ap (◌∷◌ ctrl) eb),
      same_state p (type_of_code (ctrl / 16)) (bit_and ctrl 0x0f) body
          (eo ∙ ap (λ (l : List ℕ). 1 + length l) (sym field)) (sym lb),
      omega (arith, low_nibble ctrl cb),
      omega arith,
      rw lb ok,
    )

verdict_IsAnswer : (b : Bool) → IsAnswer (if b then packet_ok else packet_invalid)
verdict_IsAnswer true = tt
verdict_IsAnswer false = tt

passed : (b : Bool) → (if b then packet_ok else packet_invalid) ≡ packet_ok → b ≡ true
passed true e = refl
passed false e = cc

parse_whole :
    (p : ReceivePacket) (ctrl n o : ℕ) (bs : List ℕ)
    → p.buffer ≡ some (ctrl ∷ bs)
    → decode_length 5 (ctrl ∷ bs) p.in_ptr 1 0 0 ≡ some (length_is n, o)
    → o + n ≤ p.in_ptr
    → parse p
      ≡ some (
        if basic_checks (type_of_code (ctrl / 16)) (bit_and ctrl 0x0f) n
            then packet_ok
            else packet_invalid,
        header_state p (type_of_code (ctrl / 16)) (bit_and ctrl 0x0f) o n,
      )
unfolding parse header_state
parse_whole p ctrl n o bs e d h = simp (e, d, ge→ltb p.in_ptr (o + n) h)

parse-Sound_go :
    (p : ReceivePacket) (ctrl : ℕ) (bs : List ℕ) (r : Option (Decoded × ℕ))
    → p.buffer ≡ some (ctrl ∷ bs)
    → ctrl < 256
    → p.in_ptr ≤ 1 + length bs
    → decode_length 5 (ctrl ∷ bs) p.in_ptr 1 0 0 ≡ r
    → Read 0 p.in_ptr 1 0 0 bs r
    → Holds (Sound (ctrl ∷ bs) p) (parse p)
unfolding parse
parse-Sound_go p ctrl bs none e c h d r = absurd r
parse-Sound_go p ctrl bs (some (incomplete, o)) e c h d r =
    simp (e, d) ((λ s. cc), (refl, refl, refl), tt)
parse-Sound_go p ctrl bs (some (malformed, o)) e c h d r =
    simp (e, d) ((λ s. cc), (refl, refl, refl), tt)
parse-Sound_go p ctrl bs (some (length_is n, o)) e c h d (f, rest, eb, i, en, eo, z, w) =
    elim (dec_lt p.in_ptr (o + n)) [
      | yes short ↦ simp (e, d, lt→ltb p.in_ptr (o + n) short) ((λ s. cc), (refl, refl, refl), tt)
      | no whole ↦ rw (parse_whole p ctrl n o bs e d (omega arith)) (
        (λ s.
            accepted p ctrl n o bs f rest c eb i (omega arith) eo (omega arith) (omega arith) h
              (passed _ s)),
        unfold header_state in (refl, refl, refl),
        verdict_IsAnswer _,
      )
    ]

pub parse-Sound :
    (p : ReceivePacket) (ctrl : ℕ) (bs : List ℕ)
    → p.buffer ≡ some (ctrl ∷ bs)
    → All IsByte (ctrl ∷ bs)
    → p.in_ptr ≤ length (ctrl ∷ bs)
    → Holds (Sound (ctrl ∷ bs) p) (parse p)
parse-Sound p ctrl bs e a h =
    parse-Sound_go p ctrl bs (decode_length 5 (ctrl ∷ bs) p.in_ptr 1 0 0) e a.0 (omega arith) refl (
      decode_sound 5 0 p.in_ptr 1 0 0 (ctrl ∷ []) bs a.1 (omega arith) (omega arith)
        (inl (refl, refl)) refl (omega arith))

-- Whatever bytes have arrived in a buffer, `Receive` reads none outside of it, fails no assertion,
-- and has a result.
pub parse_total :
    (p : ReceivePacket) (ctrl : ℕ) (bs : List ℕ)
    → p.buffer ≡ some (ctrl ∷ bs)
    → All IsByte (ctrl ∷ bs)
    → p.in_ptr ≤ length (ctrl ∷ bs)
    → (s : ReceiveStatus) × (q : ReceivePacket) × (parse p ≡ some (s, q))
parse_total p ctrl bs e a h =
    let ((s, q), r, _) =
      Holds-result (Sound (ctrl ∷ bs) p) (parse p) (parse-Sound p ctrl bs e a h) in
    (s, q, r)

-- `Receive` accepts nothing but a frame of the standard that stands at the start of the buffer, with
-- the shortest form of its length field, has arrived completely and passes the basic checks. The
-- type, the flags and the length that it stores are those of the frame, and the read pointer stands
-- before the body.
pub parse_Accepted :
    (p q : ReceivePacket) (ctrl : ℕ) (bs : List ℕ)
    → p.buffer ≡ some (ctrl ∷ bs)
    → All IsByte (ctrl ∷ bs)
    → p.in_ptr ≤ length (ctrl ∷ bs)
    → parse p ≡ some (packet_ok, q)
    → Accepted (ctrl ∷ bs) p q
parse_Accepted p q ctrl bs e a h r =
    (Holds_some (Sound (ctrl ∷ bs) p) (parse p) (packet_ok, q) r (parse-Sound p ctrl bs e a h)).0
      refl
