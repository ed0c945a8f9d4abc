-- ===== src/Http/Segments.antt =====
-- CHTTPClient::Request: the loop over the calls of `Receive`.
use circle_stdlib.Common.{
  ℕ, zero, suc, ◌<◌, ◌≡◌, ◌≢◌, inl, inr, refl, ap, ◌∙◌, Bool, true, false, List, [], ◌∷◌, ◌++◌,
  Option, none, some, arith, Bool-cases, length, ◌>>=◌,
}
use circle_stdlib.Mqtt.ReceivePacket.{Received, stored}
use circle_stdlib.Http.Response.{
  State, header, content, chunk_header, chunk_data, chunk_trailer, finished, Parser, Outcome, going,
  stopped, step_in, feed, is_reading, Loop, ended, returned, unfinished, receive_loop,
}

module _ (modulus capacity : ℕ) where
  abbrev pub continue : List ℕ → Outcome → Option Outcome
  continue cs (going q) = feed modulus capacity q cs
  continue cs (stopped s b) = some (stopped s b)

  continue-append :
      (m : Option Outcome) (xs ys : List ℕ)
      → ((q : Parser)
          → feed modulus capacity q (xs ++ ys) ≡ (feed modulus capacity q xs >>= continue ys))
      → (m >>= continue (xs ++ ys)) ≡ ((m >>= continue xs) >>= continue ys)
  continue-append none xs ys k = refl
  continue-append (some (going q)) xs ys k = k q
  continue-append (some (stopped s b)) xs ys k = refl

  pub feed-append :
      (p : Parser) (xs ys : List ℕ)
      → feed modulus capacity p (xs ++ ys) ≡ (feed modulus capacity p xs >>= continue ys)
  unfolding feed
  feed-append p [] ys = refl
  feed-append p (x ∷ xs) ys =
      continue-append (step_in modulus capacity p.state p x) xs ys (λ q. feed-append q xs ys)

  step_in_finished :
      (s : State) (p : Parser) (c : ℕ)
      → s ≡ finished
      → step_in modulus capacity s p c ≡ some (going p)
  unfolding step_in
  step_in_finished s p c e = rw e refl

  -- Characters behind the last chunk change nothing.
  pub feed-finished :
      (p : Parser) (cs : List ℕ) → p.state ≡ finished → feed modulus capacity p cs ≡ some (going p)
  unfolding feed
  feed-finished p [] e = refl
  feed-finished p (c ∷ cs) e =
      ap (λ m. m >>= continue cs) (step_in_finished p.state p c e) ∙ feed-finished p cs e

abbrev pub concat : List (List ℕ) → List ℕ
concat [] = []
concat (f ∷ fs) = f ++ concat fs

-- From the world `w`, the calls of `Receive` give these frames, and then report that the peer has closed
-- the connection.
module _ {W : Type 0} (receive : W → ℕ → Received × W) (size : ℕ) where
  abbrev pub Delivers : List (List ℕ) → W → Type 0
  Delivers [] w = (receive w size).0 ≡ stored []
  Delivers (f ∷ fs) w = ((receive w size).0 ≡ stored f) × (f ≢ []) × Delivers fs (receive w size).1

-- What the loop leads to, and whether it ended by itself.
abbrev pub result : {W : Type 0} → Loop W → Bool × Outcome
result (ended p w) = (true, going p)
result (returned s b w) = (true, stopped s b)
result (unfinished p w) = (false, going p)

not_reading : (s : State) → is_reading s ≡ false → s ≡ finished
not_reading finished e = refl
not_reading header e = cc
not_reading content e = cc
not_reading chunk_header e = cc
not_reading chunk_data e = cc
not_reading chunk_trailer e = cc

module _ (modulus capacity : ℕ) {W : Type 0} (receive : W → ℕ → Received × W) (size : ℕ) where
  abbrev run : ℕ → Parser → W → Option (Loop W)
  run = receive_loop modulus capacity receive size

  abbrev Segmented : Parser → List (List ℕ) → ℕ → W → Type 0
  Segmented p fs fuel w =
      (run fuel p w >>= λ l. some (result l))
      ≡ (feed modulus capacity p (concat fs) >>= λ o. some (true, o))

  -- What follows the bytes of one call.
  abbrev next : ℕ → W → Outcome → Option (Loop W)
  next fuel w (going q) = run fuel q w
  next fuel w (stopped s b) = some (returned s b w)

  loop-ended :
      (fuel : ℕ) (p : Parser) (w : W)
      → is_reading p.state ≡ false
      → run (suc fuel) p w ≡ some (ended p w)
  unfolding receive_loop
  loop-ended fuel p w e = simp e

  loop-closed :
      (fuel : ℕ) (p : Parser) (w : W)
      → is_reading p.state ≡ true
      → (receive w size).0 ≡ stored []
      → run (suc fuel) p w ≡ some (ended p (receive w size).1)
  unfolding receive_loop
  loop-closed fuel p w e d = simp (e, d)

  loop-round :
      (fuel : ℕ) (p : Parser) (w : W) (f : List ℕ)
      → is_reading p.state ≡ true
      → (receive w size).0 ≡ stored f
      → f ≢ []
      → run (suc fuel) p w ≡ (feed modulus capacity p f >>= next fuel (receive w size).1)
  unfolding receive_loop
  loop-round fuel p w [] e d n = absurd (n refl)
  loop-round fuel p w (c ∷ cs) e d n = simp (e, d)

  round-Segmented :
      (m : Option Outcome) (fs : List (List ℕ)) (fuel : ℕ) (w : W)
      → ((q : Parser) → Segmented q fs fuel w)
      → ((m >>= next fuel w) >>= λ l. some (result l))
        ≡ ((m >>= continue modulus capacity (concat fs)) >>= λ o. some (true, o))
  round-Segmented none fs fuel w k = refl
  round-Segmented (some (going q)) fs fuel w k = k q
  round-Segmented (some (stopped s b)) fs fuel w k = refl

  loop-finished :
      (fuel : ℕ) (p : Parser) (fs : List (List ℕ)) (w : W)
      → is_reading p.state ≡ false
      → Segmented p fs (suc fuel) w
  loop-finished fuel p fs w e =
      rw
        (
          loop-ended fuel p w e,
          feed-finished modulus capacity p (concat fs) (not_reading p.state e),
        )
        refl

  -- However the response is cut into the pieces that `Receive` gives, none of them empty, before the
  -- peer closes the connection: with more rounds than pieces, the loop over the calls of `Receive` ends
  -- by itself, and with the outcome of the parser on the response as one text. It faults if and only if
  -- the parser does.
  pub receive_loop_lem :
      (fs : List (List ℕ)) (fuel : ℕ) (p : Parser) (w : W)
      → Delivers receive size fs w
      → length fs < fuel
      → (receive_loop modulus capacity receive size fuel p w >>= λ l. some (result l))
        ≡ (feed modulus capacity p (concat fs) >>= λ o. some (true, o))
  unfolding feed
  receive_loop_lem fs zero p w d h = absurd (omega arith)
  receive_loop_lem [] (suc fuel) p w d h = elim (Bool-cases (is_reading p.state)) [
    | inr e ↦ loop-finished fuel p [] w e
    | inl e ↦ rw (loop-closed fuel p w e d) refl
  ]
  receive_loop_lem (f ∷ fs) (suc fuel) p w d h = elim (Bool-cases (is_reading p.state)) [
    | inr e ↦ loop-finished fuel p (f ∷ fs) w e
    | inl e ↦
        rw (loop-round fuel p w f e d.0 d.1, feed-append modulus capacity p f (concat fs))
          (round-Segmented (feed modulus capacity p f) fs fuel (receive w size).1
            (λ q. receive_loop_lem fs fuel q (receive w size).1 d.2 (omega arith)))
  ]
