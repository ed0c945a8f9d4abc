-- ===== src/Http/Delivery.antt =====
-- CHTTPClient::Request: the replies to whole responses, however the network cuts them.
use circle_stdlib.Common.{
  ℕ, ◌≤◌, ◌<◌, ◌≡◌, sym, subst, true, false, List, [], ◌∷◌, ◌++◌, length, take, drop,
  take-append-drop, length-take, arith, Holds,
}
use circle_stdlib.Http.{
  max_request_line, http_ok, http_content_buffer_too_small, http_connection_reset,
}
use circle_stdlib.Http.Response.{initial, feed}
use circle_stdlib.Http.Request.{Network, HttpClient, receive_response}
use circle_stdlib.Http.Segments.{concat, Delivers}
use circle_stdlib.Http.Header.{crlf, any_chunked}
use circle_stdlib.Http.ChunkHeader.{IsSize}
use circle_stdlib.Http.Chunks.{chunks, AreChunks, chunks_data}
use circle_stdlib.Http.Replies.{Ends, IsReply, reply_lem}
use circle_stdlib.Http.Messages.{IsHead, head, content-Ends, full-Ends, chunks-Ends, cut-Ends}

-- A buffer is its first `n` bytes and the rest.
cut_buffer :
    (P : List ℕ → List ℕ → Type 0) (n : ℕ) (buffer : List ℕ)
    → n ≤ length buffer
    → ((old back : List ℕ) → length old ≡ n → P back (old ++ back))
    → P (drop n buffer) buffer
cut_buffer P n buffer h f =
    subst (P (drop n buffer)) (take-append-drop n buffer)
      (f (take n buffer) (drop n buffer) (omega (arith, h, length-take n buffer)))

module _ (N : Network) where
  open N use {frame_size, modulus, World, receive_bytes}

  -- What `Receive` gives, one call after the other, before the peer closes the connection.
  module _ (fuel capacity : ℕ) (line buffer : List ℕ) (c : HttpClient World)
      (frames : List (List ℕ)) (size : length line ≡ max_request_line)
      (room : capacity ≤ length buffer) (d : Delivers receive_bytes frame_size frames c.world)
      (enough : length frames < fuel) where
    abbrev Replies : ℕ → ℕ → List ℕ → Type 0
    Replies s n b = Holds (IsReply s n b) (receive_response N fuel line capacity buffer c)

    replies :
        (s n : ℕ) (b text : List ℕ)
        → concat frames ≡ text
        → Holds (Ends capacity s n b) (feed modulus capacity (initial line buffer) text)
        → Replies s n b
    replies s n b text e h = reply_lem N fuel line capacity s n buffer b c frames d enough (
        subst (λ x. Holds (Ends capacity s n b) (feed modulus capacity (initial line buffer) x))
          (sym e) h)

    -- The pieces that `Receive` gives, none of them empty, are together a header with an accepted status
    -- line and options none of which names the chunked coding, each of at most 2047 characters other than
    -- zero and the line ends, and a content that fits in the caller's buffer. Then `Request` returns 200,
    -- the length of the content and the content in front of the buffer, whose rest is unchanged, and the
    -- socket is closed. The loop over the calls ends by itself.
    pub receive_response-content :
        (status : List ℕ) (options : List (List ℕ)) (body : List ℕ)
        → IsHead status options
        → any_chunked options ≡ false
        → length body ≤ capacity
        → concat frames ≡ head status options body
        → Holds
            (IsReply http_ok (length body) (body ++ drop (length body) buffer))
            (receive_response N fuel line capacity buffer c)
    receive_response-content status options body h e m t = replies http_ok (length body) _ _ t (
        cut_buffer
          (λ back x.
            Holds (Ends capacity http_ok (length body) (body ++ back))
              (feed modulus capacity (initial line x) (head status options body)))
          (length body) buffer (omega (arith, m, room))
          (λ old back l.
            content-Ends modulus capacity line size status options body old back h e l m))

    -- The same with a content that is longer than the caller's buffer: `Request` returns 553, the buffer
    -- holds the first `*pLength` bytes of the content, `*pLength` and the rest of the buffer are
    -- unchanged, and the socket is closed.
    pub receive_response-full :
        (status : List ℕ) (options : List (List ℕ)) (body more : List ℕ) (x : ℕ)
        → IsHead status options
        → any_chunked options ≡ false
        → length body ≡ capacity
        → concat frames ≡ head status options (body ++ (x ∷ more))
        → Holds
            (IsReply http_content_buffer_too_small capacity (body ++ drop (length body) buffer))
            (receive_response N fuel line capacity buffer c)
    receive_response-full status options body more x h e m t =
        replies http_content_buffer_too_small capacity _ _ t (
          cut_buffer
            (λ back b.
              Holds (Ends capacity http_content_buffer_too_small capacity (body ++ back))
                (feed modulus capacity (initial line b) (head status options (body ++ (x ∷ more)))))
            (length body) buffer (omega (arith, m, room))
            (λ old back l.
              full-Ends modulus capacity line size status options body more old back x h e l m))

    -- The pieces that `Receive` gives, none of them empty, are together a header with an accepted status
    -- line and options one of which names the chunked coding, each of at most 2047 characters other than
    -- zero and the line ends and together fewer than 2^32; chunks, each a line that is the number of its
    -- data in hexadecimal digits, the data, not empty and fewer bytes than `unsigned long` has values, and
    -- a line end; a line that is a hexadecimal zero; and anything behind it. The data of all chunks is at
    -- most `*pLength` bytes, as many as the caller's buffer has at least, and the fuel is more than the
    -- number of pieces. Then `Request` returns 200, the length of the data and
    -- the data of all chunks, joined, in front of the buffer, whose rest is unchanged, and the socket is
    -- closed. The loop over the calls ends by itself.
    pub receive_response-chunks :
        (status : List ℕ) (options : List (List ℕ)) (ds : List (List ℕ × List ℕ))
        (last after : List ℕ)
        → IsHead status options
        → any_chunked options ≡ true
        → AreChunks modulus ds
        → IsSize modulus last 0
        → length (chunks_data ds) ≤ capacity
        → concat frames ≡ head status options (chunks ds (last ++ crlf after))
        → Holds
            (IsReply http_ok
              (length (chunks_data ds))
              (chunks_data ds ++ drop (length (chunks_data ds)) buffer))
            (receive_response N fuel line capacity buffer c)
    receive_response-chunks status options ds last after h e i z m t =
        replies http_ok (length (chunks_data ds)) _ _ t (
          cut_buffer
            (λ back x.
              Holds (Ends capacity http_ok (length (chunks_data ds)) (chunks_data ds ++ back)) (
                feed modulus capacity (initial line x)
                  (head status options (chunks ds (last ++ crlf after)))))
            (length (chunks_data ds)) buffer (omega (arith, m, room))
            (λ old back l.
              chunks-Ends modulus capacity line size status options ds last old back after h e i z l
                m))

    -- The same when the peer closes the connection behind a chunk, before the last one: `Request` returns
    -- 550 and leaves `*pLength`, and the socket is closed.
    pub receive_response-cut_off :
        (status : List ℕ) (options : List (List ℕ)) (ds : List (List ℕ × List ℕ))
        → IsHead status options
        → any_chunked options ≡ true
        → AreChunks modulus ds
        → length (chunks_data ds) ≤ capacity
        → concat frames ≡ head status options (chunks ds [])
        → Holds
            (IsReply http_connection_reset capacity
              (chunks_data ds ++ drop (length (chunks_data ds)) buffer))
            (receive_response N fuel line capacity buffer c)
    receive_response-cut_off status options ds h e i m t =
        replies http_connection_reset capacity _ _ t (
          cut_buffer
            (λ back x.
              Holds (Ends capacity http_connection_reset capacity (chunks_data ds ++ back))
                (feed modulus capacity (initial line x) (head status options (chunks ds []))))
            (length (chunks_data ds)) buffer (omega (arith, m, room))
            (λ old back l.
              cut-Ends modulus capacity line size status options ds old back h e i l m))
