-- ===== src/Net/Reads.antt =====
-- Calls of CAdaptedSocket::Receive, up to the end of the connection.
use circle_stdlib.Common.{
  ℕ, ◌≤◌, ◌<◌, ◌≡◌, refl, sym, ap, ◌∙◌, subst, Bool, true, false, not, List, [], ◌∷◌, ◌++◌,
  append_assoc, Option, some, length, All, ◌⊎◌, inl, inr, if◌then◌else◌, arith, ◌>>=◌, Holds,
  Holds->>=, Holds-then, Holds-else,
}
use circle_stdlib.Mqtt.{u32_mod}
use circle_stdlib.Net.{Result, NetSubSystem}
use circle_stdlib.Net.Adapter.{Net, receive_bytes}
use circle_stdlib.Net.Stream.{join, bytes_of, Gives, Reading}
use circle_stdlib.Net.Receiving.{is_end, effort, Next, known_receive}

module _ (C : NetSubSystem) where
  open C use {World, Socket, frame_size}

  -- Calls of `Receive` with buffers of these lengths, up to the end of the connection: the bytes, and
  -- whether the end has been reached.
  abbrev pub reads : ℕ → List ℕ → Net C → Option (List ℕ × Bool × Net C)
  reads p [] s = some ([], false, s)
  reads p (n ∷ ns) s = receive_bytes C p n s >>= λ (result, s').
      if is_end result
      then some ([], true, s')
      else (reads p ns s' >>= λ (bytes, ended, s''). some (bytes_of result ++ bytes, ended, s''))

  -- A part of the bytes, all of them if there are enough calls.
  abbrev pub Delivered : List ℕ → List (List ℕ) → List ℕ → List ℕ × Bool × Net C → Type 0
  Delivered pend fs ns q =
      (rest : List ℕ) × (q.0 ++ rest ≡ pend ++ join fs)
      × ((length ns ≤ effort pend fs) ⊎ ((rest ≡ []) × (q.1 ≡ true)))

  -- `reads`, once the first call has returned.
  abbrev behind : ℕ → List ℕ → Result (List ℕ) × Net C → Option (List ℕ × Bool × Net C)
  behind p ns q =
      if is_end q.0
      then some ([], true, q.1)
      else (reads p ns q.1 >>= λ (bytes, ended, s''). some (bytes_of q.0 ++ bytes, ended, s''))

  behind-Delivered :
      (p n : ℕ) (ns : List ℕ) (pend : List ℕ) (fs : List (List ℕ)) (socket : Socket) (block : Bool)
      (q : Result (List ℕ) × Net C)
      → ((left : List ℕ) (frames : List (List ℕ))
          → Reading C p q.1 left frames socket block
          → Holds (Delivered left frames ns) (reads p ns q.1))
      → Next C p n pend fs socket block q
      → Holds (Delivered pend fs (n ∷ ns)) (behind p ns q)
  behind-Delivered p n ns pend fs socket block q k (inl (empty, end)) =
      Holds-then (Delivered pend fs (n ∷ ns)) (is_end q.0) _ _ (ap is_end end)
        ([], sym empty, inr (refl, refl))
  behind-Delivered p n ns pend fs socket block q k (inr g) =
      Holds-else (Delivered pend fs (n ∷ ns)) (is_end q.0) _ _ g.unended (
        Holds->>= (Delivered g.left g.frames ns) (Delivered pend fs (n ∷ ns)) (reads p ns q.1) _
          (k g.left g.frames g.reading) (λ r d. with_first r d))
    where
      with_first :
          (r : List ℕ × Bool × Net C)
          → Delivered g.left g.frames ns r
          → Delivered pend fs (n ∷ ns) (bytes_of q.0 ++ r.0, r.1, r.2)
      with_first r (rest, e, enough) = (
        rest,
        append_assoc (bytes_of q.0) r.0 rest ∙ ap (λ x. bytes_of q.0 ++ x) e ∙ g.same,
        elim enough [ inl l ↦ inl (omega (arith, l, g.less)) | inr f ↦ inr f ],
      )

  receive_bytes-Next :
      (p n : ℕ) (s : Net C) (pend : List ℕ) (fs : List (List ℕ)) (socket : Socket) (block : Bool)
      → 1 ≤ n
      → frame_size < u32_mod
      → Reading C p s pend fs socket block
      → Holds (Next C p n pend fs socket block) (receive_bytes C p n s)
  receive_bytes-Next p n s pend fs socket block pos small r =
      subst (λ x. Holds (Next C p n pend fs x block) (receive_bytes C p n s)) r.the_socket
        (subst (λ x. Holds (Next C p n pend fs r.adapted.socket x) (receive_bytes C p n s))
          r.the_mode
          (known_receive C p n s r.adapted pend fs pos r.held r.pending
            (subst (λ x. Gives C x (not r.adapted.block) fs s.world) (sym r.the_socket)
              (subst (λ x. Gives C socket (not x) fs s.world) (sym r.the_mode) r.gives))
            small))

  -- Frames of a connection, any of them empty, are read from an object that has a CSocket by calls with
  -- buffers of any length but 0: no byte of them is lost, changed or moved, no call faults, and the end
  -- is reached by as many calls as there are frames and bytes, and one more.
  pub reads-join :
      (p : ℕ) (ns : List ℕ) (s : Net C) (pend : List ℕ) (fs : List (List ℕ)) (socket : Socket)
      (block : Bool)
      → All (λ n. 1 ≤ n) ns
      → frame_size < u32_mod
      → Reading C p s pend fs socket block
      → Holds (Delivered pend fs ns) (reads p ns s)
  reads-join p [] s pend fs socket block all small r = (pend ++ join fs, refl, inl (omega arith))
  reads-join p (n ∷ ns) s pend fs socket block (pos, all) small r =
      Holds->>= (Next C p n pend fs socket block) (Delivered pend fs (n ∷ ns))
        (receive_bytes C p n s) (behind p ns)
        (receive_bytes-Next p n s pend fs socket block pos small r)
        (λ q t.
          behind-Delivered p n ns pend fs socket block q
            (λ left frames reading. reads-join p ns q.1 left frames socket block all small reading)
            t)
