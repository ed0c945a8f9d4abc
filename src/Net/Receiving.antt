-- ===== src/Net/Receiving.antt =====
-- What the calls of CAdaptedSocket::Receive hand over, one after the other.
use circle_stdlib.Common.{
  ℕ, zero, suc, ◌+◌, ◌≤◌, ◌<◌, ◌≡◌, refl, sym, ap, ◌∙◌, Bool, true, false, not, List, [], ◌∷◌, ◌++◌,
  append_assoc, some, length, take, drop, take-append-drop, length-drop, length-take, le→leb, ne→==,
  ◌⊎◌, inl, inr, arith, Holds, Holds-mono,
}
use circle_stdlib.Mqtt.{u32_mod}
use circle_stdlib.Net.{Result, ok, err, NetSubSystem}
use circle_stdlib.Net.Adapter.{
  AdaptedSocket, Net, object, refill, hand_over, end_receive, receive_bytes,
}
use circle_stdlib.Net.Stream.{
  join, bytes_of, Pending, Gives, Reading, HandedOver, available_lem, hand_over_lem,
}

-- The end of the connection, for a buffer that is not empty.
abbrev pub is_end : Result (List ℕ) → Bool
is_end (ok []) = true
is_end (ok (b ∷ bs)) = false
is_end (err e) = false

-- As many calls are enough.
abbrev pub effort : List ℕ → List (List ℕ) → ℕ
effort pend [] = length pend
effort pend (f ∷ fs) = suc (length f) + effort pend fs

effort_nil : (pend : List ℕ) (fs : List (List ℕ)) → effort pend fs ≡ length pend + effort [] fs
effort_nil pend [] = omega arith
effort_nil pend (f ∷ fs) = omega (arith, effort_nil pend fs)

module _ (C : NetSubSystem) where
  open C use {World, Socket, frame_size, socket_receive, yield_task}

  -- A call that has handed over the next bytes, or none for now.
  pub record Going (p n : ℕ) (pend : List ℕ) (fs : List (List ℕ)) (socket : Socket) (block : Bool)
      (r : Result (List ℕ) × Net C) : Type 0 where
    pub left : List ℕ
    pub frames : List (List ℕ)
    pub reading : Reading C p r.1 left frames socket block
    pub same : bytes_of r.0 ++ (left ++ join frames) ≡ pend ++ join fs
    pub fits : length (bytes_of r.0) ≤ n
    pub less : effort left frames < effort pend fs
    pub unended : is_end r.0 ≡ false

  abbrev pub Next :
      ℕ → ℕ → List ℕ → List (List ℕ) → Socket → Bool → Result (List ℕ) × Net C → Type 0
  Next p n pend fs socket block r =
      ((pend ++ join fs ≡ []) × (r.0 ≡ ok [])) ⊎ Going p n pend fs socket block r

  -- Some of the bytes `b ∷ pend` have been handed over.
  handed :
      (p n : ℕ) (b : ℕ) (pend : List ℕ) (fs : List (List ℕ)) (a : AdaptedSocket Socket)
      (r : Result (List ℕ) × Net C)
      → 1 ≤ n
      → HandedOver C p n (b ∷ pend) fs a r
      → Going p n (b ∷ pend) fs a.socket a.block r
  handed p zero b pend fs a r pos (result, reading) = absurd (omega arith)
  handed p (suc n) b pend fs a r pos (result, reading) = record {
    left = drop (suc n) (b ∷ pend);
    frames = fs;
    reading = reading;
    same =
        ap (λ x. bytes_of x ++ (drop (suc n) (b ∷ pend) ++ join fs)) result
        ∙ sym (append_assoc (take (suc n) (b ∷ pend)) (drop (suc n) (b ∷ pend)) (join fs))
        ∙ ap (λ x. x ++ join fs) (take-append-drop (suc n) (b ∷ pend));
    fits = omega (arith, ap (λ x. length (bytes_of x)) result, length-take (suc n) (b ∷ pend));
    less = omega (
      arith,
      effort_nil (drop (suc n) (b ∷ pend)) fs,
      effort_nil (b ∷ pend) fs,
      length-drop (suc n) (b ∷ pend),
    );
    unended = ap is_end result;
  }

  -- A call that finds bytes of an object, `b ∷ pend`.
  taken_from :
      (p n : ℕ) (s : Net C) (a a' : AdaptedSocket Socket) (b : ℕ) (pend : List ℕ)
      (fs : List (List ℕ))
      → 1 ≤ n
      → object C p s ≡ some a
      → Pending C a' (b ∷ pend)
      → Gives C a'.socket (not a'.block) fs s.world
      → Holds (Going p n (b ∷ pend) fs a'.socket a'.block) (hand_over C p n a' s)
  taken_from p n s a a' b pend fs pos e h g =
      Holds-mono (HandedOver C p n (b ∷ pend) fs a') (Going p n (b ∷ pend) fs a'.socket a'.block)
        (hand_over C p n a' s) (λ r t. handed p n b pend fs a' r pos t)
        (hand_over_lem C p n s a a' (b ∷ pend) fs e h g)

  object_world :
      (p : ℕ) (s : Net C) (a : AdaptedSocket Socket) (w : World)
      → object C p s ≡ some a
      → object C p (record s { world = w }) ≡ some a
  unfolding object
  object_world p s a w e = e

  -- `receive_bytes`, once the object is known.
  pub known_receive :
      (p n : ℕ) (s : Net C) (a : AdaptedSocket Socket) (pend : List ℕ) (fs : List (List ℕ))
      → 1 ≤ n
      → object C p s ≡ some a
      → Pending C a pend
      → Gives C a.socket (not a.block) fs s.world
      → frame_size < u32_mod
      → Holds (Next p n pend fs a.socket a.block) (receive_bytes C p n s)
  unfolding receive_bytes end_receive refill
  known_receive p n s a (b ∷ pend) fs pos e h g small =
      rw (e, available_lem C a (b ∷ pend) h, ne→== (length (b ∷ pend)) 0 (omega arith))
        (Holds-mono (Going p n (b ∷ pend) fs a.socket a.block)
          (Next p n (b ∷ pend) fs a.socket a.block) (hand_over C p n a s) (λ r t. inr t)
          (taken_from p n s a a b pend fs pos e h g))
  known_receive p n s a [] [] pos e h g small =
      rw (e, available_lem C a [] h, h.exists, g) (inl (refl, refl))
  known_receive p n s a [] ([] ∷ fs) pos e h (g, gs) small =
      rw (e, available_lem C a [] h, h.exists, g)
        (inr (record {
          left = [];
          frames = fs;
          reading = record {
            adapted = a;
            held = object_world p s a _ e;
            pending = h;
            the_socket = refl;
            the_mode = refl;
            gives = gs;
          };
          same = refl;
          fits = omega arith;
          less = omega arith;
          unended = refl;
        }))
  known_receive p n s a [] ((b ∷ f) ∷ fs) pos e h (g, l, gs) small =
      rw (e, available_lem C a [] h, h.exists, g, le→leb (length (b ∷ f)) frame_size l)
        (Holds-mono (Going p n (b ∷ f) fs a.socket a.block)
          (Next p n [] ((b ∷ f) ∷ fs) a.socket a.block) (hand_over C p n filled s')
          (λ r t. inr (as_frame r t))
          (taken_from p n s' a filled b f fs pos (object_world p s a _ e)
            (record {
              rest = refl;
              whole = refl;
              inside = omega arith;
              small = omega (arith, l, small);
              exists = h.exists;
            })
            gs))
    where
      filled : AdaptedSocket Socket
      filled = record a { rx = b ∷ f; valid = length (b ∷ f); used = 0 }

      s' : Net C
      s' = record s { world = (socket_receive s.world a.socket frame_size (not a.block)).1 }

      as_frame :
          (r : Result (List ℕ) × Net C)
          → Going p n (b ∷ f) fs a.socket a.block r
          → Going p n [] ((b ∷ f) ∷ fs) a.socket a.block r
      as_frame r t = record {
        left = t.left;
        frames = t.frames;
        reading = t.reading;
        same = t.same;
        fits = t.fits;
        less = omega (arith, t.less, effort_nil (b ∷ f) fs);
        unended = t.unended;
      }
