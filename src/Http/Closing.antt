-- ===== src/Http/Closing.antt =====
-- CHTTPClient::Request: the ways in which it returns.
use circle_stdlib.Common.{
  ℕ, ◌<◌, ◌≡◌, ◌≢◌, refl, sym, ap, ◌∙◌, subst, true, false, not, List, [], ◌∷◌, ◌++◌, none, some,
  length, assert, arith, ne→==, Holds, Holds-then, Holds-else, Holds-known,
}
use circle_stdlib.Common.Int.{is_negative}
use circle_stdlib.Common.Chars.{codes}
use circle_stdlib.Http.{max_request_line}
use circle_stdlib.Http.Response.{header, initial, Outcome, stopped, step_in, feed}
use circle_stdlib.Http.Request.{
  Network, HttpClient, Reply, request_text, receive_response, converse, request, get_file,
}
use circle_stdlib.Http.Lines.{is_accepted, status_word}
use circle_stdlib.Http.Ends.{word_status, rejection, end_line-rejected}
use circle_stdlib.Http.Segments.{concat, Delivers}
use circle_stdlib.Http.Flow.{line-At, step-Goes, step-stops}
use circle_stdlib.Http.Header.{crlf, IsLine, plain-IsNonzero}
use circle_stdlib.Http.Messages.{initial-At}
use circle_stdlib.Http.Replies.{Ends, IsReply, reply_lem}

nonempty_rejection :
    (modulus : ℕ) (buffer word : List ℕ)
    → word ≢ []
    → rejection modulus buffer word ≡ some (stopped (word_status modulus word) buffer)
nonempty_rejection modulus buffer [] n = absurd (n refl)
nonempty_rejection modulus buffer (c ∷ word) n = refl

-- The response starts with another line.
rejected-Ends :
    (modulus capacity : ℕ) (line buffer t rest : List ℕ)
    → length line ≡ max_request_line
    → IsLine t
    → is_accepted t ≡ false
    → status_word t ≢ []
    → Holds
        (Ends capacity (word_status modulus (status_word t)) capacity buffer)
        (feed modulus capacity (initial line buffer) (t ++ crlf rest))
unfolding step_in
rejected-Ends modulus capacity line buffer [] rest size l e w = absurd (l.0 refl)
rejected-Ends modulus capacity line buffer (c ∷ t) rest size l e w =
    let status : ℕ = word_status modulus (status_word (c ∷ t)) in
    let Q : Outcome → Type 0 = Ends capacity status capacity buffer in
    line-At modulus capacity header 0 false 0 [] buffer Q (c ∷ t) [] (crlf rest)
      (initial line buffer) tt (initial-At modulus capacity line size buffer) l.1
      (omega (arith, l.2))
      (λ q a.
        step-Goes modulus capacity (λ x. x ≡ q) Q header q b'\r' (b'\n' ∷ rest) a.is_state refl
          (λ x i.
            subst (λ y. Holds Q (feed modulus capacity y (b'\n' ∷ rest))) (sym i)
              (step-stops modulus capacity Q header q b'\n' rest status buffer a.is_state
                (rw (ne→== q.n_char 0 (λ z. omega (arith, z, a.is_n_char))) (
                  end_line-rejected modulus capacity q (c ∷ t) a.written.0 a.written.1
                    (plain-IsNonzero (c ∷ t) l.1) a.is_n_line e
                  ∙ nonempty_rejection modulus q.buffer (status_word (c ∷ t)) w
                  ∙ ap (λ b. some (stopped status b)) a.is_buffer))
                (refl, refl, refl))))

module _ (N : Network) where
  open N use {
    World, frame_size, modulus, setup, add_certificates, open_connection, send_bytes, receive_bytes,
  }

  -- The pieces that `Receive` gives, none of them empty, are together a first line of at most 2047
  -- characters, none of them zero or a line end, that is no status line with the code 200 but has a word in
  -- the place of the code, and any bytes behind it. The fuel is more than the number of pieces. Then
  -- `Request` returns the value that `strtoul` gives for this word, which is the largest `unsigned long`
  -- for a greater number, cut to the 32 bits of the enumeration, or 551 if the word has other characters;
  -- `*pLength` and the buffer are unchanged, and the socket is closed.
  pub receive_response-rejected :
      (fuel capacity : ℕ) (line buffer : List ℕ) (c : HttpClient World) (frames : List (List ℕ))
      (t rest : List ℕ)
      → length line ≡ max_request_line
      → Delivers receive_bytes frame_size frames c.world
      → length frames < fuel
      → IsLine t
      → is_accepted t ≡ false
      → status_word t ≢ []
      → concat frames ≡ t ++ crlf rest
      → Holds
          (IsReply (word_status modulus (status_word t)) capacity buffer)
          (receive_response N fuel line capacity buffer c)
  receive_response-rejected fuel capacity line buffer c frames t rest size d f l a w e =
      let status : ℕ = word_status modulus (status_word t) in
      reply_lem N fuel line capacity status capacity buffer buffer c frames d f (
        subst
          (λ x.
            Holds (Ends capacity status capacity buffer)
              (feed modulus capacity (initial line buffer) x))
          (sym e) (rejected-Ends modulus capacity line buffer t rest size l a w))

  -- The client once the request is sent.
  abbrev pub sent_client : HttpClient World → List ℕ → HttpClient World
  sent_client c path =
      let w = (open_connection c.world c.server_ip c.server_port).1 in
      let c₁ : HttpClient World = record c { socket_open = true; world = w } in
      record c {
        socket_open = true;
        world = (send_bytes w (request_text N c₁ (codes "GET") path none)).1;
      }

  -- `Get` without TLS: the connection is opened and the request is sent.
  pub get_file-Holds :
      (P : Reply × HttpClient World → Type 0) (fuel : ℕ) (line path : List ℕ) (capacity : ℕ)
      (buffer : List ℕ) (c : HttpClient World)
      → c.socket_open ≡ false
      → c.use_ssl ≡ false
      → is_negative (open_connection c.world c.server_ip c.server_port).0 ≡ false
      → is_negative
          (send_bytes (open_connection c.world c.server_ip c.server_port).1 (
            request_text N
              (record c {
                socket_open = true;
                world = (open_connection c.world c.server_ip c.server_port).1;
              })
              (codes "GET")
              path
              none)).0
        ≡ false
      → Holds P (receive_response N fuel line capacity buffer (sent_client c path))
      → Holds P (get_file N fuel line path capacity buffer c)
  unfolding get_file request converse
  get_file-Holds P fuel line path capacity buffer c i j k l h =
      Holds-known P (assert (not c.socket_open)) tt _ (ap (λ b. assert (not b)) i)
        (Holds-then P _ _ _ (ap not j) (Holds-else P _ _ _ k (Holds-else P _ _ _ l h)))
