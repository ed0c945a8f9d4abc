-- ===== src/Mqtt/SendPacket/Sendable.antt =====
-- The packets that CMQTTSendPacket::Send can handle without a failed assertion.
use circle_stdlib.Common.{
  ℕ, ◌≤◌, ◌<◌, ◌≡◌, refl, sym, ap, subst, ◌⊎◌, inl, inr, Bool, true, List, [], ◌++◌, Option, none,
  some, length, eq→==, le→leb, Holds, Holds-mono, Holds->>=, arith, dec_lt, Bool-cases,
}
use circle_stdlib.Common.Int.{ℤ}
use circle_stdlib.Mqtt.{PacketType, publish}
use circle_stdlib.Mqtt.SendPacket.{
  SendPacket, init, set_flags, prepare, send, transmit, initial_flags,
}
use circle_stdlib.Mqtt.SendPacket.Body.{
  Contains, Appended, Field, field_bytes, append, append_lem, append-error, init_lem,
}
use circle_stdlib.Mqtt.SendPacket.Wire.{Prepared, prepare_lem}

-- The greatest packet size for which no packet has a remaining length of four bytes.
abbrev pub size_limit : ℕ
size_limit = 2097156

-- The packet has met an error, or it has a body.
pub record IsSendable (p : SendPacket) : Type 0 where
  pub flags_fit : p.flags < 16
  pub size_fits : p.max_packet_size ≤ size_limit
  pub state : (p.error ≡ true) ⊎ ((body : List ℕ) × Contains p body)

-- What no operation on a packet changes.
abbrev pub SameKind : SendPacket → SendPacket → Type 0
SameKind p q =
    (q.packet_type ≡ p.packet_type)
    × (q.max_packet_size ≡ p.max_packet_size)
    × (q.flags ≡ p.flags)
    × (q.qos ≡ p.qos)

initial_flags-le : (t : PacketType) → initial_flags t ≤ 2
initial_flags-le t = ground arith

pub init-IsSendable :
    (t : PacketType) (size : ℕ) (memory : Option (List ℕ))
    → 128 ≤ size
    → size ≤ size_limit
    → ((m : List ℕ) → memory ≡ some m → length m ≡ size)
    → Holds
        (λ p. IsSendable p × (p.packet_type ≡ t) × (p.max_packet_size ≡ size))
        (init t size memory)
init-IsSendable t size none h l f =
    unfold init in
    rw (le→leb 128 size h)
      (record { flags_fit = omega arith; size_fits = l; state = inl refl }, refl, refl)
init-IsSendable t size (some m) h l f =
    Holds-mono _ _ (init t size (some m))
      (λ p (c, e, s, g, _). (
        record {
          flags_fit = omega (arith, g, initial_flags-le t);
          size_fits = omega (arith, s);
          state = inr ([], c);
        },
        e,
        s,
      ))
      (init_lem t size m h (omega arith) (f m refl))

Appended-IsSendable :
    (p q : SendPacket) (body bs : List ℕ)
    → IsSendable p
    → Appended p body bs q
    → IsSendable q × SameKind p q
Appended-IsSendable p q body bs s (inl (fits, c, e)) =
    let flags : q.flags ≡ p.flags = ap (λ r. r.flags) e in
    let size : q.max_packet_size ≡ p.max_packet_size = ap (λ r. r.max_packet_size) e in
    (
      record {
        flags_fit = omega (arith, s.flags_fit);
        size_fits = omega (arith, s.size_fits);
        state = inr (body ++ bs, c);
      },
      (ap (λ r. r.packet_type) e, size, flags, ap (λ r. r.qos) e),
    )
Appended-IsSendable p q body bs s (inr (over, e)) = rw e (
  record { flags_fit = s.flags_fit; size_fits = s.size_fits; state = inl refl },
  (refl, refl, refl, refl),
)

-- Every append operation on a packet that can be sent leaves one that can be sent.
pub append-IsSendable :
    (p : SendPacket) (f : Field)
    → IsSendable p
    → length (field_bytes f) < 2147483648
    → Holds (λ q. IsSendable q × SameKind p q) (append p f)
append-IsSendable p f s h = elim s.state [
  | inl e ↦ rw (append-error p f e) (s, (refl, refl, refl, refl))
  | inr (body, c) ↦
      Holds-mono (Appended p body (field_bytes f)) (λ q. IsSendable q × SameKind p q) (append p f)
        (λ q a. Appended-IsSendable p q body (field_bytes f) s a)
        (append_lem p body f c (omega (arith, c.size, s.size_fits)))
]

Prepared-IsSendable :
    (p : SendPacket) (body : List ℕ) (r : SendPacket × Option (List ℕ))
    → IsSendable p
    → Prepared p body r
    → IsSendable r.0 × SameKind p r.0
Prepared-IsSendable p body (q, wire) s h =
    let flags : q.flags ≡ p.flags = ap (λ r. r.flags) h.others in
    let size : q.max_packet_size ≡ p.max_packet_size = ap (λ r. r.max_packet_size) h.others in
    (
      record {
        flags_fit = omega (arith, s.flags_fit);
        size_fits = omega (arith, s.size_fits);
        state = inr (body, h.body_kept);
      },
      (ap (λ r. r.packet_type) h.others, size, flags, ap (λ r. r.qos) h.others),
    )

-- A packet that has met an error, or whose tries are used up, is not sent.
pub prepare-refused :
    (p : SendPacket) → ((p.error ≡ true) ⊎ (p.send_tries ≡ 0)) → prepare p ≡ some (p, none)
unfolding prepare
prepare-refused p (inl e) = simp e
prepare-refused p (inr z) = elim (Bool-cases p.error) [
  | inl e ↦ simp e
  | inr e ↦ simp (e, eq→== p.send_tries 0 z)
]

pub prepare-IsSendable :
    (p : SendPacket) → IsSendable p → Holds (λ r. IsSendable r.0 × SameKind p r.0) (prepare p)
prepare-IsSendable p s = elim s.state [
  | inl e ↦ rw (prepare-refused p (inl e)) (s, (refl, refl, refl, refl))
  | inr (body, c) ↦ elim (dec_lt 0 p.send_tries) [
    | no out ↦ rw (prepare-refused p (inr (omega arith))) (s, (refl, refl, refl, refl))
    | yes more ↦
        Holds-mono (Prepared p body) (λ r. IsSendable r.0 × SameKind p r.0) (prepare p)
          (λ r h. Prepared-IsSendable p body r s h)
          (prepare_lem p body c more s.flags_fit (omega (arith, c.size, s.size_fits)))
  ]
]

transmit_packet :
    {W : Type 0} (socket : W → List ℕ → ℤ × W) (p : SendPacket) (w : W) (wire : Option (List ℕ))
    → (transmit socket p w wire).1 ≡ p
unfolding transmit
transmit_packet socket p w none = refl
transmit_packet socket p w (some bytes) = refl

abbrev pub SendKeeps : (W : Type 0) → SendPacket → Bool × SendPacket × W → Type 0
SendKeeps W p (sent, q, w) = IsSendable q × SameKind p q

-- `Send` of a packet that has met an error, or whose body is in its buffer and whose maximum size is at
-- most the limit, fails no assertion and writes nothing outside of the buffer, whatever the socket
-- answers. Afterwards the packet is one of these again, with its type, size, flags and QoS.
pub send-IsSendable :
    {W : Type 0} (socket : W → List ℕ → ℤ × W) (p : SendPacket) (w : W)
    → IsSendable p
    → Holds (SendKeeps W p) (send socket p w)
unfolding send
send-IsSendable {W} socket p w s =
    Holds->>= (λ r. IsSendable r.0 × SameKind p r.0) (SendKeeps W p) (prepare p) _
      (prepare-IsSendable p s)
      (λ (q, wire) h.
        subst (λ x. IsSendable x × SameKind p x) (sym (transmit_packet socket q w wire)) h)

pub set_flags-IsSendable :
    (p : SendPacket) (f : ℕ)
    → IsSendable p
    → p.packet_type ≡ publish
    → f < 16
    → Holds (λ q. IsSendable q × (q.packet_type ≡ publish) × (q.qos ≡ p.qos)) (set_flags p f)
unfolding set_flags
set_flags-IsSendable p f s e h =
    rw (e, le→leb f 15 (omega arith))
      (record { flags_fit = h; size_fits = s.size_fits; state = flagged s.state }, refl, refl)
  where
    flagged :
        (p.error ≡ true) ⊎ ((body : List ℕ) × Contains p body)
        → (p.error ≡ true)
          ⊎ ((body : List ℕ) × Contains (record p { packet_type = publish; flags = f }) body)
    flagged (inl x) = inl x
    flagged (inr (body, c)) = inr (
      body,
      record {
        front = c.front;
        back = c.back;
        no_error = c.no_error;
        memory = c.memory;
        front_size = c.front_size;
        pointer = c.pointer;
        size = c.size;
        in_range = c.in_range;
      },
    )
