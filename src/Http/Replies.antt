-- ===== src/Http/Replies.antt =====
-- CHTTPClient::Request: the reply to a response that the server sends.
use circle_stdlib.Common.{
  ℕ, ◌<◌, ◌≡◌, refl, sym, ap, ◌∙◌, subst, true, false, List, Option, none, some, length, ◌>>=◌,
  Holds, Holds-result,
}
use circle_stdlib.Http.Response.{
  initial, Outcome, going, stopped, feed, Loop, ended, returned, unfinished, receive_loop, conclude,
}
use circle_stdlib.Http.Request.{Network, HttpClient, Reply, replied, receive_response, close}
use circle_stdlib.Http.Segments.{concat, Delivers, result, receive_loop_lem}

-- The status, `*pLength` and the buffer that an outcome of the parser gives.
abbrev pub Ends : ℕ → ℕ → ℕ → List ℕ → Outcome → Type 0
Ends capacity s n b (going q) = (conclude capacity q ≡ some (s, n)) × (q.buffer ≡ b)
Ends capacity s n b (stopped s' b') = (s' ≡ s) × (capacity ≡ n) × (b' ≡ b)

-- `Request` returns this reply, and the socket is closed.
abbrev pub IsReply : {W : Type 0} → ℕ → ℕ → List ℕ → Reply × HttpClient W → Type 0
IsReply s n b (r, c) = (r ≡ replied s n b) × (c.socket_open ≡ false)

abbrev Loops : {W : Type 0} → ℕ → ℕ → ℕ → List ℕ → Loop W → Type 0
Loops capacity s n b (ended q w) = Ends capacity s n b (going q)
Loops capacity s n b (returned s' b' w) = Ends capacity s n b (stopped s' b')
Loops capacity s n b (unfinished q w) = ⊥

loop-Loops :
    {W : Type 0} (capacity s n : ℕ) (b : List ℕ) (m : Option (Loop W)) (o : Option Outcome)
    → (m >>= λ l. some (result l)) ≡ (o >>= λ o. some (true, o))
    → Holds (Ends capacity s n b) o
    → Holds (Loops capacity s n b) m
loop-Loops capacity s n b m none e h = absurd h
loop-Loops capacity s n b none (some o) e h = absurd cc
loop-Loops capacity s n b (some (ended q w)) (some o) e h =
    subst (λ x. Holds (λ y. Ends capacity s n b y.1) x) (sym e) h
loop-Loops capacity s n b (some (returned s' b' w)) (some o) e h =
    subst (λ x. Holds (λ y. Ends capacity s n b y.1) x) (sym e) h
loop-Loops capacity s n b (some (unfinished q w)) (some o) e h =
    let f : false ≡ true = subst (λ x. Holds (λ y. y.0 ≡ true) x) (sym e) refl in absurd cc

module _ (N : Network) where
  open N use {World, frame_size, modulus, receive_bytes}

  module _ (fuel : ℕ) (line : List ℕ) (capacity s n : ℕ) (buffer b : List ℕ)
      (c : HttpClient World) where
    receive_response-IsReply :
        (l : Loop World)
        → Loops capacity s n b l
        → receive_loop modulus capacity receive_bytes frame_size fuel (initial line buffer) c.world
          ≡ some l
        → Holds (IsReply s n b) (receive_response N fuel line capacity buffer c)
    unfolding receive_response close
    receive_response-IsReply (ended p w) h e = rw e (rw (h.0, h.1) (refl, refl))
    receive_response-IsReply (returned s' b' w) h e = rw e (
      ap (λ x. replied x capacity b') h.0 ∙ ap (λ x. replied s x b') h.1 ∙ ap (replied s n) h.2,
      refl,
    )
    receive_response-IsReply (unfinished p w) h e = absurd h

    -- The reply is the outcome of the parser on the whole response.
    pub reply_lem :
        (fs : List (List ℕ))
        → Delivers receive_bytes frame_size fs c.world
        → length fs < fuel
        → Holds (Ends capacity s n b) (feed modulus capacity (initial line buffer) (concat fs))
        → Holds (IsReply s n b) (receive_response N fuel line capacity buffer c)
    reply_lem fs d f h =
        let (l, e, k) =
          Holds-result (Loops capacity s n b)
            (receive_loop modulus capacity receive_bytes frame_size fuel (initial line buffer)
              c.world)
            (loop-Loops capacity s n b _ _
              (receive_loop_lem modulus capacity receive_bytes frame_size fs fuel
                (initial line buffer) c.world d f)
              h) in
        receive_response-IsReply l k e
