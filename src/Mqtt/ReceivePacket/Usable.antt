-- ===== src/Mqtt/ReceivePacket/Usable.antt =====
-- The invariant of CMQTTReceivePacket, and the packets that its methods can take apart.
use circle_stdlib.Common.{
  ℕ, zero, suc, ◌+◌, ◌-◌, ◌*◌, ◌≤◌, ◌<◌, ◌≡◌, refl, sym, ap, ◌∙◌, subst, true, List, [], ◌∷◌, ◌++◌,
  some, ge→ltb, lt→ltb, le→leb, length, length-append, append_assoc, Holds, Holds->>=, Holds-mono,
  Holds-result, arith, All, All-back, All-front, All-get_elem?, get_elem?_lem, copy_in, copy_in-All,
  dec_lt,
}
use circle_stdlib.Mqtt.{type_code}
use circle_stdlib.Mqtt.SendPacket.Wire.{length_field}
use circle_stdlib.Mqtt.ReceivePacket.{
  ReceivePacket, ReceiveStatus, continue_later, packet_ok, packet_invalid, peer_disconnect,
  not_enough_memory, unknown_status, Received, failed, stored, move_down, complete, parse,
  store_received, after_receive, receive, basic_checks,
}
use circle_stdlib.Mqtt.ReceivePacket.Length.{IsByte}
use circle_stdlib.Mqtt.ReceivePacket.Frames.{Accepted, Sound, SameBuffer, parse-Sound}
use circle_stdlib.Mqtt.ReceivePacket.Reads.{Unread, Unread-moved, moved}
use circle_stdlib.Mqtt.ReceivePacket.Completion.{move_step}

-- The buffer has the size that the object states and holds bytes, and the received ones lie in it.
-- `frame` bytes are kept free for one call of the socket.
pub record IsUsable (frame_size : ℕ) (r : ReceivePacket) : Type 0 where
  pub buf : List ℕ
  pub memory : r.buffer ≡ some buf
  pub bytes : All IsByte buf
  pub size : length buf ≡ r.buffer_size
  pub received : r.in_ptr ≤ length buf
  pub room : frame_size ≤ r.buffer_size
  pub positive : 0 < frame_size
  pub range : r.buffer_size < 4294967296

move_down-All :
    (rounds : ℕ) (buf : List ℕ) (i out : ℕ)
    → All IsByte buf
    → i ≤ out
    → out + rounds ≤ length buf
    → Holds (λ buf'. All IsByte buf' × (length buf' ≡ length buf)) (move_down rounds buf i out)
move_down-All zero buf i out a h l = unfold move_down in (a, refl)
move_down-All (suc rounds) buf i out a h l =
    let (b, e) = get_elem?_lem buf out (omega arith) in
    let (buf', f, (a', l')) = Holds-result _ (copy_in buf i (b ∷ [])) (
      copy_in-All IsByte buf (b ∷ []) i a (All-get_elem? IsByte buf out b a e, tt) (omega arith)) in
    rw (move_step rounds b i out buf buf' e f) (
      Holds-mono _ _ (move_down rounds buf' (i + 1) (out + 1)) (λ x (p, q). (p, q ∙ l'))
        (move_down-All rounds buf' (i + 1) (out + 1) a' (omega arith) (omega arith)))

-- `Complete` keeps the invariant wherever the read pointer is not behind the received bytes.
pub complete-IsUsable :
    (n : ℕ) (r : ReceivePacket)
    → IsUsable n r
    → r.out_ptr ≤ r.in_ptr
    → Holds (IsUsable n) (complete r)
unfolding complete
complete-IsUsable n r u h =
    simp (le→leb r.out_ptr r.in_ptr h, u.memory)
      (Holds->>= (λ buf'. All IsByte buf' × (length buf' ≡ length u.buf)) (IsUsable n)
        (move_down (r.in_ptr - r.out_ptr) u.buf 0 r.out_ptr) _
        (move_down-All (r.in_ptr - r.out_ptr) u.buf 0 r.out_ptr u.bytes (omega arith)
          (omega (arith, u.received)))
        (λ buf' (a, l). record {
          buf = buf';
          memory = refl;
          bytes = a;
          size = omega (arith, u.size);
          received = omega (arith, u.received);
          room = u.room;
          positive = u.positive;
          range = u.range;
        }))

-- The object holds an accepted packet, of whose body `body` is still to be read.
pub record Holding (frame_size : ℕ) (r : ReceivePacket) (body : List ℕ) : Type 0 where
  pub behind : List ℕ
  pub unread : Unread r body behind
  pub usable : IsUsable frame_size r
  pub inside : r.out_ptr + length body ≤ r.in_ptr

pub Holding-moved :
    (n : ℕ) (r : ReceivePacket) (read body : List ℕ)
    → Holding n r (read ++ body)
    → Holding n (moved r (length read)) body
Holding-moved n r read body h = record {
  behind = h.behind;
  unread = Unread-moved r read body h.behind h.unread;
  usable = record {
    buf = h.usable.buf;
    memory = h.usable.memory;
    bytes = h.usable.bytes;
    size = h.usable.size;
    received = h.usable.received;
    room = h.usable.room;
    positive = h.usable.positive;
    range = h.usable.range;
  };
  inside = omega (arith, h.inside, length-append read body);
}

-- What `Receive` answers: besides the invariant, an accepted packet whose whole body is unread.
pub record IsReceived (frame_size : ℕ) (q : ReceivePacket) : Type 0 where
  pub body : List ℕ
  pub holding : Holding frame_size q body
  pub checked : basic_checks q.packet_type q.flags (length body) ≡ true
  pub fresh : q.bytes_consumed ≡ 0
  pub flags_fit : q.flags < 16
  pub bytes : All IsByte body

abbrev pub Answer : ℕ → ReceiveStatus → ReceivePacket → Type 0
Answer n continue_later q = IsUsable n q
Answer n packet_ok q = IsReceived n q
Answer n packet_invalid q = IsUsable n q
Answer n peer_disconnect q = IsUsable n q
Answer n not_enough_memory q = IsUsable n q
Answer n unknown_status q = ⊥

same-IsUsable : (n : ℕ) (p q : ReceivePacket) → IsUsable n p → SameBuffer p q → IsUsable n q
same-IsUsable n p q u (b, i, s) = record {
  buf = u.buf;
  memory = b ∙ u.memory;
  bytes = u.bytes;
  size = u.size ∙ sym s;
  received = omega (arith, u.received);
  room = omega (arith, u.room);
  positive = u.positive;
  range = omega (arith, u.range);
}

accepted-IsReceived :
    (n : ℕ) (p q : ReceivePacket) (u : IsUsable n p)
    → SameBuffer p q
    → Accepted u.buf p q
    → IsReceived n q
accepted-IsReceived n p q u same (body, rest, e, st, fl, fits, ok) =
    let header = (type_code q.packet_type * 16 + q.flags) ∷ length_field (length body) in
    let whole : u.buf ≡ header ++ (body ++ rest) =
      e
      ∙ ap (◌∷◌ (type_code q.packet_type * 16 + q.flags))
          (append_assoc (length_field (length body)) body rest) in
    record {
      body = body;
      holding = record {
        behind = rest;
        unread = record {
          front = header;
          memory = same.0 ∙ u.memory ∙ ap some whole;
          pointer = ap (λ r. r.out_ptr) st ∙ omega arith;
          left = omega (arith, ap (λ r. r.bytes_consumed) st, ap (λ r. r.remaining_length) st);
        };
        usable = same-IsUsable n p q u same;
        inside = omega (arith, same.1);
      };
      checked = ok;
      fresh = ap (λ r. r.bytes_consumed) st;
      flags_fit = fl;
      bytes =
          All-front IsByte body rest
            (All-back IsByte header (body ++ rest) (subst (All IsByte) whole u.bytes));
    }

store_received-IsUsable :
    (n : ℕ) (p : ReceivePacket) (bytes : List ℕ)
    → IsUsable n p
    → All IsByte bytes
    → length bytes ≤ n
    → p.in_ptr + n ≤ p.buffer_size
    → Holds (IsUsable n) (store_received p bytes)
unfolding store_received
store_received-IsUsable n p bytes u a l h = simp u.memory (
    Holds->>= (λ b. All IsByte b × (length b ≡ length u.buf)) (IsUsable n)
      (copy_in u.buf p.in_ptr bytes) _
      (copy_in-All IsByte u.buf bytes p.in_ptr u.bytes a (omega (arith, u.size)))
      (λ b (a', l'). record {
        buf = b;
        memory = refl;
        bytes = a';
        size = omega (arith, u.size);
        received = omega (arith, u.size);
        room = u.room;
        positive = u.positive;
        range = u.range;
      }))

Sound-Answer :
    (n : ℕ) (p q : ReceivePacket) (s : ReceiveStatus) (u : IsUsable n p)
    → Sound u.buf p (s, q)
    → Answer n s q
Sound-Answer n p q packet_ok u (ok, same, a) = accepted-IsReceived n p q u same (ok refl)
Sound-Answer n p q continue_later u (ok, same, a) = same-IsUsable n p q u same
Sound-Answer n p q packet_invalid u (ok, same, a) = same-IsUsable n p q u same
Sound-Answer n p q peer_disconnect u (ok, same, a) = absurd a
Sound-Answer n p q not_enough_memory u (ok, same, a) = absurd a
Sound-Answer n p q unknown_status u (ok, same, a) = absurd a

parse-Sound_any :
    (p : ReceivePacket) (buf : List ℕ)
    → p.buffer ≡ some buf
    → All IsByte buf
    → p.in_ptr ≤ length buf
    → 0 < length buf
    → Holds (Sound buf p) (parse p)
parse-Sound_any p [] e a h z = absurd (omega arith)
parse-Sound_any p (ctrl ∷ bs) e a h z = parse-Sound p ctrl bs e a h

parse-Answer : (n : ℕ) (p : ReceivePacket) → IsUsable n p → Holds (λ r. Answer n r.0 r.1) (parse p)
parse-Answer n p u =
    Holds-mono (Sound u.buf p) (λ r. Answer n r.0 r.1) (parse p)
      (λ (s, q) h. Sound-Answer n p q s u h)
      (parse-Sound_any p u.buf u.memory u.bytes u.received
        (omega (arith, u.size, u.room, u.positive)))

-- What the code relies on in the socket: it stores bytes, and no more than it may.
abbrev pub IsSocket : (W : Type 0) → ℕ → (W → ℕ → Received × W) → Type 0
IsSocket W n socket =
    (w : W) (bytes : List ℕ) → (socket w n).0 ≡ stored bytes → All IsByte bytes × (length bytes ≤ n)

after_receive-Answer :
    {W : Type 0} (n : ℕ) (p : ReceivePacket) (w : W) (answer : Received)
    → ((bytes : List ℕ) → answer ≡ stored bytes → All IsByte bytes × (length bytes ≤ n))
    → IsUsable n p
    → p.in_ptr + n ≤ p.buffer_size
    → Holds (λ r. Answer n r.0 r.1) (after_receive answer p w)
unfolding after_receive
after_receive-Answer n p w failed law u h = u
after_receive-Answer n p w (stored bytes) law u h =
    let (a, l) = law bytes refl in
    Holds->>= (IsUsable n) _ (store_received p bytes) _ (store_received-IsUsable n p bytes u a l h)
      (λ q v. Holds->>= (λ r. Answer n r.0 r.1) _ (parse q) _ (parse-Answer n q v) (λ (s, r) x. x))

-- `Receive` keeps the invariant, fails no assertion and stays inside of the buffer, whatever the peer
-- sends, if the socket stores bytes and no more than it may; what it accepts is a packet whose body lies
-- in the buffer and has passed the checks.
pub receive-Answer :
    {W : Type 0} (n : ℕ) (socket : W → ℕ → Received × W) (p : ReceivePacket) (w : W)
    → IsSocket W n socket
    → IsUsable n p
    → Holds (λ r. Answer n r.0 r.1) (receive n socket p w)
unfolding receive
receive-Answer {W} n socket p w law u = elim (dec_lt (p.buffer_size - n) p.in_ptr) [
  | yes full ↦ simp (u.memory, lt→ltb (p.buffer_size - n) p.in_ptr full) u
  | no free ↦
      simp (u.memory, ge→ltb (p.buffer_size - n) p.in_ptr (omega arith))
        (after_receive-Answer n p (socket w n).1 (socket w n).0 (law w) u (omega (arith, u.room)))
]
