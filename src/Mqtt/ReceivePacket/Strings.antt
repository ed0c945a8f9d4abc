-- ===== src/Mqtt/ReceivePacket/Strings.antt =====
-- CMQTTReceivePacket::GetString on every body.
use circle_stdlib.Common.{
  ℕ, zero, suc, ◌+◌, ◌*◌, ◌≤◌, ◌≡◌, refl, sym, ap, subst, ◌∙◌, ◌⊎◌, inl, inr, List, [], ◌∷◌, Option,
  none, some, leb, lt→ltb, ge→ltb, length, length-append, Holds, Holds->>=, Holds-known, arith,
  get_elem?_lem, dec_lt, Bool-cases, split_at,
}
use circle_stdlib.Mqtt.ReceivePacket.{ReceivePacket, read_chars, get_string}
use circle_stdlib.Mqtt.ReceivePacket.Reads.{moved, get_word_lem}
use circle_stdlib.Mqtt.ReceivePacket.Usable.{IsUsable, Holding, Holding-moved}

-- What the loop leaves: the characters, all of them, or `none` behind one that is not ASCII.
abbrev Read : ℕ → ℕ → Option (List ℕ) × ℕ → Type 0
Read len out (none, out') = out' ≤ out + len
Read len out (some cs, out') = (length cs ≡ len) × (out' ≡ out + len)

read_chars-Read :
    (len : ℕ) (buf : List ℕ) (out : ℕ)
    → out + len ≤ length buf
    → Holds (Read len out) (read_chars len buf out)
unfolding read_chars
read_chars-Read zero buf out h = (refl, omega arith)
read_chars-Read (suc len) buf out h =
    let (b, e) = get_elem?_lem buf out (omega arith) in
    elim (Bool-cases (leb 128 b)) [
      | inl f ↦ simp (e, f) (omega arith)
      | inr f ↦
          simp (e, f)
            (Holds->>= (Read len (out + 1)) (Read (suc len) out) (read_chars len buf (out + 1)) _
              (read_chars-Read len buf (out + 1) (omega arith))
              (λ (chars, out') h. longer b chars out' h))
    ]
  where
    longer :
        (b : ℕ) (chars : Option (List ℕ)) (out' : ℕ)
        → Read len (out + 1) (chars, out')
        → Read (suc len) out (elim chars [ none ↦ none | some cs ↦ some (b ∷ cs) ], out')
    longer b none out' h = omega arith
    longer b (some cs) out' (h, l) = (ap suc h, omega arith)

-- What `GetString` leaves where it takes the string from a body `hi ∷ lo ∷ more`: the rest of the
-- body behind the string.
pub record Taken (n hi lo : ℕ) (more str : List ℕ) (p q : ReceivePacket) : Type 0 where
  pub rest : List ℕ
  pub holding : Holding n q rest
  pub length_is : length str ≡ hi * 256 + lo
  pub rest_is : length str + length rest ≡ length more
  pub remaining : q.remaining_length ≡ p.remaining_length

advanced-IsUsable :
    (n : ℕ) (p : ReceivePacket) (consumed out : ℕ)
    → IsUsable n p
    → IsUsable n (record p { bytes_consumed = consumed; out_ptr = out })
advanced-IsUsable n p consumed out u = record {
  buf = u.buf;
  memory = u.memory;
  bytes = u.bytes;
  size = u.size;
  received = u.received;
  room = u.room;
  positive = u.positive;
  range = u.range;
}

-- Where it does not, the pointers are still in the buffer.
abbrev pub Result : ℕ → ℕ → ℕ → List ℕ → ReceivePacket → List ℕ × ReceivePacket → Type 0
Result n hi lo more p (str, q) = ((str ≡ []) × IsUsable n q) ⊎ Taken n hi lo more str p q

taken_chars :
    (n hi lo len : ℕ) (more : List ℕ) (p p₁ : ReceivePacket) (chars : Option (List ℕ)) (out : ℕ)
    → len ≡ hi * 256 + lo
    → p₁.remaining_length ≡ p.remaining_length
    → Holding n p₁ more
    → len ≤ length more
    → Read len p₁.out_ptr (chars, out)
    → Result n hi lo more p (
      elim chars [ none ↦ [] | some cs ↦ cs ],
      record p₁ { bytes_consumed = p₁.bytes_consumed + len; out_ptr = out },
    )
taken_chars n hi lo len more p p₁ none out e r h l read =
    inl (refl, advanced-IsUsable n p₁ (p₁.bytes_consumed + len) out h.usable)
taken_chars n hi lo len more p p₁ (some cs) out e r h l (lc, eo) =
    let (front, back, em, ef) = split_at len more l in
    let here = Holding-moved n p₁ front back (subst (Holding n p₁) em h) in
    let c : p₁.bytes_consumed + length front ≡ p₁.bytes_consumed + len =
      ap (λ k. p₁.bytes_consumed + k) ef in
    let o : p₁.out_ptr + length front ≡ out = ap (λ k. p₁.out_ptr + k) ef ∙ sym eo in
    inr record {
      rest = back;
      holding =
          subst (λ q. Holding n q back) (λ j. record p₁ { bytes_consumed = c j; out_ptr = o j })
            here;
      length_is = lc ∙ e;
      rest_is = omega (arith, ap length em, length-append front back);
      remaining = r;
    }

-- `GetString` on a body of at least two bytes fails no assertion and stays inside of the received bytes,
-- whatever the length field says: it takes a string of that length and leaves the rest of the body, or
-- it answers the empty string.
pub get_string-Result :
    (n size : ℕ) (p : ReceivePacket) (hi lo : ℕ) (more : List ℕ)
    → Holding n p (hi ∷ lo ∷ more)
    → Holds (Result n hi lo more p) (get_string p size)
unfolding get_string
get_string-Result n size p hi lo more h =
    let len : ℕ = hi * 256 + lo in
    let p₁ : ReceivePacket = moved p 2 in
    let h₁ : Holding n p₁ more = Holding-moved n p (hi ∷ lo ∷ []) more h in
    simp (get_word_lem p hi lo more h.behind h.unread)
      (elim (dec_lt p.remaining_length (p.bytes_consumed + 2 + len)) [
        | yes over ↦ simp (lt→ltb p.remaining_length (p.bytes_consumed + 2 + len) over) (
            inl
              (refl, advanced-IsUsable n p₁ (p.bytes_consumed + 2 + len) (p.out_ptr + 2) h₁.usable))
        | no fits ↦ elim (dec_lt size (len + 1)) [
          | yes long ↦
              simp
                (
                  ge→ltb p.remaining_length (p.bytes_consumed + 2 + len) (omega arith),
                  lt→ltb size (len + 1) long,
                )
                (inl (
                  refl,
                  advanced-IsUsable n p₁ (p.bytes_consumed + 2 + len) (p.out_ptr + 2) h₁.usable,
                ))
          | no short ↦
              let l : len ≤ length more = omega (arith, h₁.unread.left) in
              simp
                (
                  ge→ltb p.remaining_length (p.bytes_consumed + 2 + len) (omega arith),
                  ge→ltb size (len + 1) (omega arith),
                )
                (Holds-known (Result n hi lo more p) p.buffer h.usable.buf _ h.usable.memory (
                  Holds->>= (Read len (p.out_ptr + 2)) (Result n hi lo more p)
                    (read_chars len h.usable.buf (p.out_ptr + 2)) _
                    (read_chars-Read len h.usable.buf (p.out_ptr + 2)
                      (omega (arith, h₁.inside, h.usable.received)))
                    (λ (chars, out) r.
                      taken_chars n hi lo len more p p₁ chars out refl refl h₁ l r)))
        ]
      ])
