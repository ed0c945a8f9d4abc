-- ===== src/Http/Robust.antt =====
-- CHTTPClient::Request: the reply to any bytes behind an accepted status line.
use circle_stdlib.Common.{
  ℕ, ◌+◌, ◌≤◌, ◌<◌, ◌≡◌, refl, sym, ap, ◌∙◌, subst, true, false, List, [], ◌∷◌, ◌++◌, Option, none,
  some, length, ◌>>=◌, arith, inl, inr, le→leb, Bool-cases, Holds, Holds-mono, Holds-result,
}
use circle_stdlib.Mqtt.{u32_mod}
use circle_stdlib.Http.{max_request_line, http_ok, http_connection_reset}
use circle_stdlib.Http.Response.{
  header, Parser, initial, Outcome, going, stopped, step_in, feed, conclude, is_cut_off,
}
use circle_stdlib.Http.Request.{Network, HttpClient, Reply, replied, receive_response}
use circle_stdlib.Http.Lines.{is_accepted}
use circle_stdlib.Http.Ends.{Continues, end_line-accepted}
use circle_stdlib.Http.Segments.{concat, Delivers, continue}
use circle_stdlib.Http.Flow.{Goes, line-At}
use circle_stdlib.Http.Header.{crlf, IsLine, plain-IsNonzero, ended_line}
use circle_stdlib.Http.Messages.{initial-At}
use circle_stdlib.Http.Replies.{Ends, IsReply, reply_lem}
use circle_stdlib.Http.Safety.{Safe, SafeEnd, step_in-Safe}

module _ (modulus capacity buffer_size : ℕ) (wide : capacity ≤ buffer_size) where
  followed :
      (cs : List ℕ) (k : ℕ) (m : Option Outcome)
      → Holds (SafeEnd capacity buffer_size k) m
      → ((q : Parser)
          → Safe capacity buffer_size k q
          → Holds (SafeEnd capacity buffer_size 0) (feed modulus capacity q cs))
      → Holds (SafeEnd capacity buffer_size 0) (m >>= continue modulus capacity cs)
  followed cs k none h f = absurd h
  followed cs k (some (going q)) h f = f q h
  followed cs k (some (stopped s b)) h f = h

  -- Any characters.
  feed-Safe :
      (cs : List ℕ) (p : Parser)
      → Safe capacity buffer_size (length cs) p
      → Holds (SafeEnd capacity buffer_size 0) (feed modulus capacity p cs)
  unfolding feed
  feed-Safe [] p a = a
  feed-Safe (c ∷ cs) p a =
      followed cs (length cs) (step_in modulus capacity p.state p c)
        (step_in-Safe modulus capacity buffer_size (length cs) wide p.state p c a) (feed-Safe cs)

  -- The start, with the status line.
  pub start-Safe :
      (status cs line buffer : List ℕ)
      → length line ≡ max_request_line
      → length buffer ≡ buffer_size
      → IsLine status
      → is_accepted status ≡ true
      → length cs + 1 < u32_mod
      → Holds
          (SafeEnd capacity buffer_size 0)
          (feed modulus capacity (initial line buffer) (status ++ crlf cs))
  start-Safe [] cs line buffer size room l e m = absurd (l.0 refl)
  start-Safe (c ∷ t) cs line buffer size room l e m =
      let Q : Outcome → Type 0 = SafeEnd capacity buffer_size 0 in
      let P : Parser → Type 0 = Safe capacity buffer_size (length cs) in
      line-At modulus capacity header 0 false 0 [] buffer Q (c ∷ t) [] (crlf cs)
        (initial line buffer) tt (initial-At modulus capacity line size buffer) l.1
        (omega (arith, l.2))
        (λ q a.
          ended_line modulus capacity 0 [] buffer P Q 0 false c t cs q a
            (Holds-mono (Continues q 1 q.chunked) (Goes P) _
              (λ o h. subst (Goes P) (sym h.1) (record {
                size = h.2 ∙ a.size;
                char_fits = omega arith;
                length_fits = omega (arith, a.is_n_length);
                room = ap length a.is_buffer ∙ room;
                counted = omega arith;
                lines_left = omega (arith, m);
                zero_in_line = h.3;
              }))
              (end_line-accepted modulus capacity q (c ∷ t) a.written.0 a.written.1
                (plain-IsNonzero (c ∷ t) l.1) a.is_n_line e))
            (feed-Safe cs))

-- A reply: `*pLength` is at most what it was, the buffer keeps its size, and the socket is closed.
abbrev pub IsBoundedReply : {W : Type 0} → ℕ → ℕ → Reply × HttpClient W → Type 0
IsBoundedReply capacity size (r, c) =
    (s : ℕ) × (n : ℕ) × (b : List ℕ) × (r ≡ replied s n b)
    × (n ≤ capacity)
    × (length b ≡ size)
    × (c.socket_open ≡ false)

-- What the outcome of the parser leads to.
safe_end :
    (capacity size : ℕ) (o : Outcome)
    → SafeEnd capacity size 0 o
    → (s : ℕ) × (n : ℕ) × (b : List ℕ) × Ends capacity s n b o × (n ≤ capacity) × (length b ≡ size)
unfolding conclude
safe_end capacity size (stopped s b) h = (s, capacity, b, (refl, refl, refl), omega arith, h)
safe_end capacity size (going q) h = elim (Bool-cases (is_cut_off q.state)) [
  | inl e ↦ (http_connection_reset, capacity, q.buffer, (rw e refl, refl), omega arith, h.room)
  | inr e ↦ (
    http_ok,
    q.n_length,
    q.buffer,
    (rw (e, le→leb q.n_length capacity h.length_fits) refl, refl),
    h.length_fits,
    h.room,
  )
]

module _ (N : Network) where
  open N use {frame_size, modulus, World, receive_bytes}

  -- The pieces that `Receive` gives, none of them empty, are together an accepted status line of at most
  -- 2047 characters, none of them zero or a line end, and any bytes behind it, fewer than 2^32 - 1. The
  -- caller's buffer has at least `*pLength` bytes, and the fuel is more than the number of pieces. Then
  -- `Request` reads and writes only inside its arrays
  -- and the buffer, calls the C library with C strings only, and returns; `*pLength` is not larger than
  -- before, and the socket is closed.
  pub receive_response-safe :
      (fuel capacity : ℕ) (line buffer : List ℕ) (c : HttpClient World) (frames : List (List ℕ))
      (status rest : List ℕ)
      → length line ≡ max_request_line
      → capacity ≤ length buffer
      → Delivers receive_bytes frame_size frames c.world
      → length frames < fuel
      → IsLine status
      → is_accepted status ≡ true
      → length rest + 1 < u32_mod
      → concat frames ≡ status ++ crlf rest
      → Holds
          (IsBoundedReply capacity (length buffer))
          (receive_response N fuel line capacity buffer c)
  receive_response-safe fuel capacity line buffer c frames status rest size room d f l a m e =
      let (o, q, h) =
        Holds-result (SafeEnd capacity (length buffer) 0)
          (feed modulus capacity (initial line buffer) (concat frames))
          (subst
            (λ x.
              Holds (SafeEnd capacity (length buffer) 0)
                (feed modulus capacity (initial line buffer) x))
            (sym e)
            (start-Safe modulus capacity (length buffer) room status rest line buffer size refl l a
              m)) in
      let (s, n, b, g, k, z) = safe_end capacity (length buffer) o h in
      Holds-mono (IsReply s n b) (IsBoundedReply capacity (length buffer)) _
        (λ r i. (s, n, b, i.0, k, z, i.1))
        (reply_lem N fuel line capacity s n buffer b c frames d f (rw q g))
