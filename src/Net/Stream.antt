-- ===== src/Net/Stream.antt =====
-- CAdaptedSocket::Receive against the stream of bytes that the CSocket delivers.
use circle_stdlib.Common.{
  false, drop_more, drop-length, ℕ, ◌+◌, ◌-◌, ◌%◌, ◌≤◌, ◌<◌, ◌≡◌, refl, sym, ap, ◌∙◌, subst, Bool,
  not, List, [], ◌∷◌, ◌++◌, Option, some, length, take, drop, length-drop, take-length, assert,
  ◌>>◌, lt→ltb, ge→ltb, leb, le→leb, dec_lt, arith, ◌>>=◌, Holds, Holds->>=, Holds-known,
}
use native.Mathlib.Nat.{mod-eq_of_lt, add-mod_right}
use circle_stdlib.Mqtt.{u32_mod}
use circle_stdlib.Mqtt.ReceivePacket.{failed, stored}
use circle_stdlib.Net.{Result, ok, err, NetSubSystem}
use circle_stdlib.Net.Adapter.{
  AdaptedSocket, Net, object, set_object, available, take_bytes, hand_over,
}
use circle_stdlib.Net.Store.{set_object_lem}

abbrev pub join : List (List ℕ) → List ℕ
join [] = []
join (f ∷ fs) = f ++ join fs

-- The bytes that a call has handed over.
abbrev pub bytes_of : Result (List ℕ) → List ℕ
bytes_of (ok bs) = bs
bytes_of (err e) = []

module _ (C : NetSubSystem) where
  open C use {World, Socket, frame_size, socket_receive, yield_task}

  -- The object has a CSocket, and it holds these bytes that were received and not yet read.
  pub record Pending (a : AdaptedSocket Socket) (pend : List ℕ) : Type 0 where
    pub rest : drop a.used a.rx ≡ pend
    pub whole : a.valid ≡ length a.rx
    pub inside : a.used ≤ a.valid
    pub small : a.valid < u32_mod
    pub exists : C.is_null a.socket ≡ false

  -- From the world on, the calls of `Receive` of a CSocket give these frames and then the end of the
  -- connection. An empty frame is a call that finds no data, after which the task yields.
  abbrev pub Gives : Socket → Bool → List (List ℕ) → World → Type 0
  Gives socket dont_wait [] w = (socket_receive w socket frame_size dont_wait).0 ≡ failed
  Gives socket dont_wait ([] ∷ fs) w =
      ((socket_receive w socket frame_size dont_wait).0 ≡ stored [])
      × Gives socket dont_wait fs (yield_task (socket_receive w socket frame_size dont_wait).1)
  Gives socket dont_wait ((b ∷ f) ∷ fs) w =
      ((socket_receive w socket frame_size dont_wait).0 ≡ stored (b ∷ f))
      × (length (b ∷ f) ≤ frame_size)
      × Gives socket dont_wait fs (socket_receive w socket frame_size dont_wait).1

  pub available_lem :
      (a : AdaptedSocket Socket) (pend : List ℕ) → Pending a pend → available C a ≡ length pend
  unfolding available
  available_lem a pend h =
      let l : length pend ≡ a.valid - a.used =
        ap length (sym h.rest) ∙ length-drop a.used a.rx ∙ ap (λ k. k - a.used) (sym h.whole) in
      let e : a.valid + 4294967296 - a.used ≡ length pend + 4294967296 =
        omega (arith, l, h.inside) in
      ap (λ k. k % 4294967296) e
      ∙ add-mod_right (length pend) 4294967296
      ∙ mod-eq_of_lt (the_bound l)
    where
      the_bound : length pend ≡ a.valid - a.used → length pend < 4294967296
      the_bound l = omega (arith, l, h.small)

  abbrev pub Taken : AdaptedSocket Socket → List ℕ → List ℕ → List ℕ × AdaptedSocket Socket → Type 0
  Taken a bytes pend r =
      (r.0 ≡ bytes)
      × Pending r.1 pend
      × (r.1.socket ≡ a.socket)
      × (r.1.block ≡ a.block)
      × (r.1.handle ≡ a.handle)

  -- The end of `take_bytes`, for `k` bytes.
  abbrev part : ℕ → AdaptedSocket Socket → Option (List ℕ × AdaptedSocket Socket)
  part k a =
      assert (leb (a.used + k) (length a.rx))
      >> some (take k (drop a.used a.rx), record a { used = (a.used + k) % u32_mod })

  -- As many bytes as there are at most.
  taken :
      (k : ℕ) (a : AdaptedSocket Socket) (pend : List ℕ)
      → Pending a pend
      → k ≤ length pend
      → Holds (Taken a (take k pend) (drop k pend)) (part k a)
  taken k a pend h l =
      let size : length pend ≡ a.valid - a.used =
        ap length (sym h.rest) ∙ length-drop a.used a.rx ∙ ap (λ k. k - a.used) (sym h.whole) in
      let sum : (a.used + k) % u32_mod ≡ a.used + k =
        mod-eq_of_lt (omega (arith, size, l, h.inside, h.small)) in
      Holds-known _ _ tt _
        (ap assert (le→leb (a.used + k) (length a.rx) (omega (arith, size, l, h.inside, h.whole))))
        (
          ap (take k) h.rest,
          record {
            rest = ap (λ u. drop u a.rx) sum ∙ drop_more a.used k a.rx ∙ ap (drop k) h.rest;
            whole = h.whole;
            inside = omega (arith, sum, size, l, h.inside);
            small = h.small;
            exists = h.exists;
          },
          refl,
          refl,
          refl,
        )

  -- All bytes that there are, for a buffer that is larger.
  Taken-all :
      (n : ℕ) (a : AdaptedSocket Socket) (pend : List ℕ)
      → Pending a pend
      → length pend ≤ n
      → Holds (Taken a (take n pend) (drop n pend)) (part (length pend) a)
  Taken-all n a pend h f =
      let front : take (length pend) pend ≡ take n pend =
        take-length (length pend) pend (omega arith) ∙ sym (take-length n pend f) in
      let back : drop (length pend) pend ≡ drop n pend =
        drop-length (length pend) pend (omega arith) ∙ sym (drop-length n pend f) in
      subst (λ x. Holds (Taken a x (drop n pend)) (part (length pend) a)) front
        (subst (λ x. Holds (Taken a (take (length pend) pend) x) (part (length pend) a)) back
          (taken (length pend) a pend h (omega arith)))

  -- At most `n` of the bytes are taken.
  pub take_bytes_lem :
      (n : ℕ) (a : AdaptedSocket Socket) (pend : List ℕ)
      → Pending a pend
      → Holds (Taken a (take n pend) (drop n pend)) (take_bytes C n a)
  unfolding take_bytes
  take_bytes_lem n a pend h = rw (available_lem a pend h) (elim (dec_lt (length pend) n) [
    | no f ↦ rw (ge→ltb (length pend) n (omega (arith, f))) (taken n a pend h (omega (arith, f)))
    | yes f ↦ rw (lt→ltb (length pend) n f) (Taken-all n a pend h (omega (arith, f)))
  ])

  -- The object `p` for a CSocket that is to give the frames `fs`, with `pend` still to be read.
  pub record Reading (p : ℕ) (s : Net C) (pend : List ℕ) (fs : List (List ℕ)) (socket : Socket)
      (block : Bool) : Type 0 where
    pub adapted : AdaptedSocket Socket
    pub held : object C p s ≡ some adapted
    pub pending : Pending adapted pend
    pub the_socket : adapted.socket ≡ socket
    pub the_mode : adapted.block ≡ block
    pub gives : Gives socket (not block) fs s.world

  -- The first `n` of the bytes have been handed over.
  abbrev pub HandedOver :
      ℕ → ℕ → List ℕ → List (List ℕ) → AdaptedSocket Socket → Result (List ℕ) × Net C → Type 0
  HandedOver p n pend fs a r =
      (r.0 ≡ ok (take n pend)) × Reading p r.1 (drop n pend) fs a.socket a.block

  pub hand_over_lem :
      (p n : ℕ) (s : Net C) (a a' : AdaptedSocket Socket) (pend : List ℕ) (fs : List (List ℕ))
      → object C p s ≡ some a
      → Pending a' pend
      → Gives a'.socket (not a'.block) fs s.world
      → Holds (HandedOver p n pend fs a') (hand_over C p n a' s)
  unfolding hand_over
  hand_over_lem p n s a a' pend fs e h g =
      Holds->>= (Taken a' (take n pend) (drop n pend)) (HandedOver p n pend fs a')
        (take_bytes C n a')
        (λ (bytes, a''). set_object C p (some a'') s >>= λ s'. some (ok bytes, s'))
        (take_bytes_lem n a' pend h) (λ r t. stored_back r t)
    where
      stored_back :
          (r : List ℕ × AdaptedSocket Socket)
          → Taken a' (take n pend) (drop n pend) r
          → Holds
              (HandedOver p n pend fs a')
              (set_object C p (some r.1) s >>= λ s'. some (ok r.0, s'))
      stored_back r (bytes, left, same_socket, same_mode, same_handle) =
          Holds->>= (λ s'. (object C p s' ≡ some r.1) × (s'.world ≡ s.world))
            (HandedOver p n pend fs a') (set_object C p (some r.1) s) (λ s'. some (ok r.0, s'))
            (set_object_lem C p s a r.1 e)
            (λ s' q. (
              ap ok bytes,
              record {
                adapted = r.1;
                held = q.0;
                pending = left;
                the_socket = same_socket;
                the_mode = same_mode;
                gives = subst (Gives a'.socket (not a'.block) fs) (sym q.1) g;
              },
            ))
