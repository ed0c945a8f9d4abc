-- ===== src/Mqtt/ReceivePacket/Completion.antt =====
-- CMQTTReceivePacket::Complete: the loop that moves the bytes behind a packet to the front.
use circle_stdlib.Common.{
  ℕ, suc, ◌+◌, ◌-◌, ◌≤◌, ◌≡◌, refl, ◌∙◌, List, [], ◌∷◌, ◌++◌, some, le→leb, length, length-append,
  append_assoc, Holds, arith, get_elem?, get_elem?-append, copy_in, copy_in_middle,
}
use circle_stdlib.Mqtt.ReceivePacket.{ReceivePacket, move_down, complete}

pub move_step :
    (n b i out : ℕ) (buf buf' : List ℕ)
    → get_elem? buf out ≡ some b
    → copy_in buf i (b ∷ []) ≡ some buf'
    → move_down (suc n) buf i out ≡ move_down n buf' (i + 1) (out + 1)
unfolding move_down
move_step n b i out buf buf' e f = simp (e, f)

-- The bytes behind the moved ones are left over.
Moves : ℕ → List ℕ → List ℕ → ℕ → ℕ → List ℕ → ℕ → Type 0
Moves n start rest i out buf size =
    (over : List ℕ) × (move_down n buf i out ≡ some (start ++ (rest ++ over)))
    × (length over ≡ size)

-- `start` has been moved already, and `gap` lies between it and the bytes that are still to be moved.
move_down_lem :
    (rest start gap back : List ℕ) (i out : ℕ)
    → i ≡ length start
    → out ≡ length start + length gap
    → Moves
        (length rest)
        start
        rest
        i
        out
        (start ++ (gap ++ (rest ++ back)))
        (length gap + length back)
unfolding Moves
move_down_lem [] start gap back i out ei eo =
    (gap ++ back, unfold move_down in refl, length-append gap back)
move_down_lem (r ∷ rest) start [] back i out ei eo =
    let (over, e, l) =
      move_down_lem rest (start ++ (r ∷ [])) [] back (i + 1) (out + 1)
        (omega (arith, length-append start (r ∷ [])))
        (omega (arith, length-append start (r ∷ []))) in
    (
      over,
      move_step (length rest) r i out (start ++ (r ∷ (rest ++ back)))
            (start ++ (r ∷ (rest ++ back)))
            (get_elem?-append out start r (rest ++ back) (omega arith))
            (copy_in_middle i start (r ∷ []) (r ∷ []) (rest ++ back) ei refl)
          ∙ rw
              (
                append_assoc start (r ∷ []) (rest ++ back),
                append_assoc start (r ∷ []) (rest ++ over),
              )
              at e,
      l,
    )
move_down_lem (r ∷ rest) start (g ∷ gap) back i out ei eo =
    let (over, e, l) =
      move_down_lem rest (start ++ (r ∷ [])) (gap ++ (r ∷ [])) back (i + 1) (out + 1)
        (omega (arith, length-append start (r ∷ [])))
        (omega (arith, length-append start (r ∷ []), length-append gap (r ∷ []))) in
    (
      over,
      move_step (length rest) r i out (start ++ (g ∷ (gap ++ (r ∷ (rest ++ back)))))
            (start ++ (r ∷ (gap ++ (r ∷ (rest ++ back)))))
            (rw (← append_assoc start (g ∷ gap) (r ∷ (rest ++ back))) (
              get_elem?-append out (start ++ (g ∷ gap)) r (rest ++ back)
                (omega (arith, length-append start (g ∷ gap)))))
            (copy_in_middle i start (g ∷ []) (r ∷ []) (gap ++ (r ∷ (rest ++ back))) ei refl)
          ∙ rw
              (
                append_assoc start (r ∷ []) ((gap ++ (r ∷ [])) ++ (rest ++ back)),
                append_assoc gap (r ∷ []) (rest ++ back),
                append_assoc start (r ∷ []) (rest ++ over),
              )
              at e,
      omega (arith, l, length-append gap (r ∷ [])),
    )

complete_steps :
    (p : ReceivePacket) (buf buf' : List ℕ)
    → p.buffer ≡ some buf
    → p.out_ptr ≤ p.in_ptr
    → move_down (p.in_ptr - p.out_ptr) buf 0 p.out_ptr ≡ some buf'
    → complete p
      ≡ some (record p { buffer = some buf'; in_ptr = p.in_ptr - p.out_ptr; out_ptr = p.in_ptr })
unfolding complete
complete_steps p buf buf' e h m = simp (le→leb p.out_ptr p.in_ptr h, e, m)

-- The buffer after `Complete`.
pub record Completed (p : ReceivePacket) (rest : List ℕ) (size : ℕ) (q : ReceivePacket)
    : Type 0 where
  pub over : List ℕ
  pub memory : q.buffer ≡ some (rest ++ over)
  pub size_kept : length (rest ++ over) ≡ size
  pub received : q.in_ptr ≡ length rest
  pub others : q ≡ record p { buffer = q.buffer; in_ptr = q.in_ptr; out_ptr = q.out_ptr }

-- `Complete` moves the received bytes `rest` that follow the packet to the start of the buffer, though
-- the loop copies within one array; the size of the buffer stays, and no access leaves it.
pub complete_lem :
    (p : ReceivePacket) (packet rest back : List ℕ)
    → p.buffer ≡ some (packet ++ (rest ++ back))
    → p.out_ptr ≡ length packet
    → p.in_ptr ≡ length packet + length rest
    → Holds (Completed p rest (length (packet ++ (rest ++ back)))) (complete p)
unfolding Moves
complete_lem p packet rest back e o i =
    let (over, m, l) = move_down_lem rest [] packet back 0 p.out_ptr refl (omega arith) in
    let n : p.in_ptr - p.out_ptr ≡ length rest = omega arith in
    rw (complete_steps p (packet ++ (rest ++ back)) (rest ++ over) e (omega arith) (rw n m))
      (record {
        over = over;
        memory = refl;
        size_kept = omega (
          arith,
          l,
          length-append rest over,
          length-append packet (rest ++ back),
          length-append rest back,
        );
        received = n;
        others = refl;
      })
