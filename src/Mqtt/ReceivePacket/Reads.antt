-- ===== src/Mqtt/ReceivePacket/Reads.antt =====
-- The methods of CMQTTReceivePacket that take a packet's body apart.
use circle_stdlib.Common.{
  ℕ, ◌+◌, ◌*◌, ◌/◌, ◌%◌, ◌≤◌, ◌<◌, ◌≡◌, refl, ap, ◌∙◌, List, [], ◌∷◌, ◌++◌, Option, none, some,
  ge→ltb, gt→leb, le→leb, length, length-append, take, drop, take-append, drop-append, append_assoc,
  arith, All, get_elem?, get_elem?-append,
}
use circle_stdlib.Mqtt.ReceivePacket.{
  ReceivePacket, get_byte, get_word, read_chars, get_string, get_data,
}

-- The bytes `bs` are what is left to read of the packet; `behind` stands behind them in the buffer.
pub record Unread (p : ReceivePacket) (bs behind : List ℕ) : Type 0 where
  pub front : List ℕ
  pub memory : p.buffer ≡ some (front ++ (bs ++ behind))
  pub pointer : p.out_ptr ≡ length front
  pub left : p.bytes_consumed + length bs ≡ p.remaining_length

-- The pointer has moved by `n` bytes, and nothing else has changed.
abbrev pub moved : ReceivePacket → ℕ → ReceivePacket
moved p n = record p { bytes_consumed = p.bytes_consumed + n; out_ptr = p.out_ptr + n }

pub Unread-moved :
    (p : ReceivePacket) (read bs behind : List ℕ)
    → Unread p (read ++ bs) behind
    → Unread (moved p (length read)) bs behind
Unread-moved p read bs behind u = record {
  front = u.front ++ read;
  memory = u.memory ∙ ap some (simp append_assoc);
  pointer = omega (arith, u.pointer, length-append u.front read);
  left = omega (arith, u.left, length-append read bs);
}

pub get_byte_lem :
    (p : ReceivePacket) (b : ℕ) (bs behind : List ℕ)
    → Unread p (b ∷ bs) behind
    → get_byte p ≡ some (b, moved p 1)
unfolding get_byte
get_byte_lem p b bs behind u = simp (
  le→leb (p.bytes_consumed + 1) p.remaining_length (omega (arith, u.left)),
  u.memory,
  get_elem?-append p.out_ptr u.front b (bs ++ behind) u.pointer,
)

pub get_word_lem :
    (p : ReceivePacket) (hi lo : ℕ) (bs behind : List ℕ)
    → Unread p (hi ∷ lo ∷ bs) behind
    → get_word p ≡ some (hi * 256 + lo, moved p 2)
unfolding get_word
get_word_lem p hi lo bs behind u = simp (
  le→leb (p.bytes_consumed + 2) p.remaining_length (omega (arith, u.left)),
  u.memory,
  get_elem?-append p.out_ptr u.front hi (lo ∷ (bs ++ behind)) u.pointer,
  second,
)
  where
    second : get_elem? (u.front ++ (hi ∷ lo ∷ (bs ++ behind))) (p.out_ptr + 1) ≡ some lo
    second = rw (← append_assoc u.front (hi ∷ []) (lo ∷ (bs ++ behind))) (
        get_elem?-append (p.out_ptr + 1) (u.front ++ (hi ∷ [])) lo (bs ++ behind)
          (omega (arith, u.pointer, length-append u.front (hi ∷ []))))

-- A word that is not there fails the assertion.
pub get_word_short :
    (p : ReceivePacket) → p.remaining_length < p.bytes_consumed + 2 → get_word p ≡ none
unfolding get_word
get_word_short p h = simp (gt→leb (p.bytes_consumed + 2) p.remaining_length h)

abbrev pub IsAscii : ℕ → Type 0
IsAscii c = c < 128

read_chars_lem :
    (str front back : List ℕ) (out : ℕ)
    → All IsAscii str
    → out ≡ length front
    → read_chars (length str) (front ++ (str ++ back)) out ≡ some (some str, out + length str)
unfolding read_chars
read_chars_lem [] front back out a o = ap (λ (k : ℕ). some (some [], k)) (omega arith)
read_chars_lem (c ∷ str) front back out a o =
    simp (get_elem?-append out front c (str ++ back) o, gt→leb 128 c a.0)
      (rw
        (
          ← append_assoc front (c ∷ []) (str ++ back),
          read_chars_lem str (front ++ (c ∷ [])) back (out + 1) a.1
              (omega (arith, length-append front (c ∷ []))),
        )
        (ap (λ (k : ℕ). some (some (c ∷ str), k)) (omega arith)))

pub get_data_lem :
    (p : ReceivePacket) (bs rest behind : List ℕ)
    → Unread p (bs ++ rest) behind
    → get_data p (length bs) ≡ some (some bs, moved p (length bs))
unfolding get_data
get_data_lem p bs rest behind u = simp (
  ge→ltb p.remaining_length (p.bytes_consumed + length bs)
      (omega (arith, u.left, length-append bs rest)),
  u.memory,
  le→leb (p.out_ptr + length bs) (length (u.front ++ ((bs ++ rest) ++ behind))) (
      omega (
        arith,
        u.pointer,
        length-append u.front ((bs ++ rest) ++ behind),
        length-append (bs ++ rest) behind,
        length-append bs rest,
      )),
  cut,
)
  where
    cut : take (length bs) (drop p.out_ptr (u.front ++ ((bs ++ rest) ++ behind))) ≡ bs
    cut =
        rw
          (
            drop-append p.out_ptr u.front ((bs ++ rest) ++ behind) u.pointer,
            append_assoc bs rest behind,
          )
          (take-append (length bs) bs (rest ++ behind) refl)

get_string_steps :
    (p q : ReceivePacket) (size len : ℕ) (buf str : List ℕ) (out : ℕ)
    → get_word p ≡ some (len, q)
    → q.bytes_consumed + len ≤ q.remaining_length
    → len < size
    → q.buffer ≡ some buf
    → read_chars len buf q.out_ptr ≡ some (some str, out)
    → get_string p size
      ≡ some (str, record q { bytes_consumed = q.bytes_consumed + len; out_ptr = out })
unfolding get_string
get_string_steps p q size len buf str out e h l m r = simp (
  e,
  ge→ltb q.remaining_length (q.bytes_consumed + len) h,
  ge→ltb size (len + 1) (omega arith),
  m,
  r,
)

moved_twice :
    (p : ReceivePacket) (str : List ℕ) (m n : ℕ)
    → ◌≡◌ {A = Option (List ℕ × ReceivePacket)}
        (some (str, moved (moved p m) n))
        (some (str, moved p (m + n)))
moved_twice p str m n =
    let o : p.out_ptr + m + n ≡ p.out_ptr + (m + n) = omega arith in
    let c : p.bytes_consumed + m + n ≡ p.bytes_consumed + (m + n) = omega arith in
    λ j. some (str, record p { bytes_consumed = c j; out_ptr = o j })

-- `GetString` reads back an ASCII string that `AppendString` wrote, if the caller's buffer has room
-- for it and its terminating zero.
pub get_string_lem :
    (p : ReceivePacket) (size : ℕ) (str rest behind : List ℕ)
    → Unread p ((length str / 256) ∷ (length str % 256) ∷ (str ++ rest)) behind
    → All IsAscii str
    → length str < size
    → get_string p size ≡ some (str, moved p (2 + length str))
get_string_lem p size str rest behind u a h =
    let w : length str / 256 * 256 + length str % 256 ≡ length str = omega arith in
    let v : Unread (moved p 2) (str ++ rest) behind =
      Unread-moved p ((length str / 256) ∷ (length str % 256) ∷ []) (str ++ rest) behind u in
    get_string_steps p (moved p 2) size (length str) (v.front ++ ((str ++ rest) ++ behind)) str
      (p.out_ptr + 2 + length str)
      (get_word_lem p (length str / 256) (length str % 256) (str ++ rest) behind u
        ∙ ap (λ (k : ℕ). some (k, moved p 2)) w)
      (omega (arith, v.left, length-append str rest)) h v.memory
      (rw (append_assoc str rest behind)
        (read_chars_lem str v.front (rest ++ behind) (p.out_ptr + 2) a v.pointer))
    ∙ moved_twice p str 2 (length str)
