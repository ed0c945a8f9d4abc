-- ===== src/Http/Messages.antt =====
-- CHTTPClient::Request: whole responses, from the status line to the end of the content.
use circle_stdlib.Common.{
  ℕ, suc, ◌≤◌, ◌<◌, ◌≡◌, refl, sym, ap, ◌∙◌, subst, Bool, true, false, List, [], ◌∷◌, ◌++◌,
  append-nil, some, length, All, arith, le→leb, Holds, if◌then◌else◌,
}
use circle_stdlib.Mqtt.{u32_mod}
use circle_stdlib.Http.{
  max_request_line, http_ok, http_content_buffer_too_small, http_connection_reset,
}
use circle_stdlib.Http.Response.{
  State, header, content, chunk_header, finished, Parser, initial, Outcome, feed, conclude,
  is_cut_off,
}
use circle_stdlib.Http.Lines.{is_accepted}
use circle_stdlib.Http.Segments.{feed-finished}
use circle_stdlib.Http.Flow.{At}
use circle_stdlib.Http.Header.{
  crlf, IsLine, lines, any_chunked, status_line-At, options-At, blank-At,
}
use circle_stdlib.Http.Content.{content-At, full-At}
use circle_stdlib.Http.ChunkHeader.{IsSize}
use circle_stdlib.Http.Chunks.{chunks, AreChunks, chunks_data, chunks-At, last-At}
use circle_stdlib.Http.Replies.{Ends}

-- The header: a status line that is accepted, and the options. Every line fits in `Line`.
pub record IsHead (status : List ℕ) (options : List (List ℕ)) : Type 0 where
  pub status_fits : IsLine status
  pub is_ok : is_accepted status ≡ true
  pub options_fit : All IsLine options
  pub count : suc (length options) < u32_mod

abbrev pub head : List ℕ → List (List ℕ) → List ℕ → List ℕ
head status options cs = status ++ crlf (lines options (crlf cs))

module _ (modulus capacity : ℕ) (line : List ℕ) (size : length line ≡ max_request_line) where
  pub initial-At : (buffer : List ℕ) → At header 0 false 0 [] [] buffer (initial line buffer)
  unfolding initial
  initial-At buffer = record {
    is_state = refl;
    is_n_line = refl;
    is_chunked = refl;
    is_bytes = refl;
    size = size;
    is_n_char = refl;
    written = tt;
    is_n_length = refl;
    is_buffer = refl;
  }

  -- The state behind the header.
  pub head-At :
      (Q : Outcome → Type 0) (status : List ℕ) (options : List (List ℕ)) (b : Bool)
      (cs buffer : List ℕ)
      → IsHead status options
      → any_chunked options ≡ b
      → ((m : ℕ) (q : Parser)
          → At (if b then chunk_header else content) m b 0 [] [] buffer q
          → Holds Q (feed modulus capacity q cs))
      → Holds Q (feed modulus capacity (initial line buffer) (head status options cs))
  head-At Q status options b cs buffer h e f =
      status_line-At modulus capacity 0 [] buffer Q false status (lines options (crlf cs))
        (initial line buffer) (initial-At buffer) h.status_fits h.is_ok
        (λ q a.
          options-At modulus capacity 0 [] buffer Q options 0 false (crlf cs) q a
            (omega (arith, h.count)) h.options_fit
            (λ q' m a'.
              blank-At modulus capacity 0 [] buffer Q m b cs q'
                (subst (λ x. At header m x 0 [] [] buffer q') e a') (λ q''. f m q'')))

  -- How the loop ends.
  conclude-At :
      (s : State) (m : ℕ) (b : Bool) (text copied back : List ℕ) (q : Parser)
      → is_cut_off s ≡ false
      → length copied ≤ capacity
      → At s m b 0 text copied back q
      → Ends capacity http_ok (length copied) (copied ++ back) (Outcome.going q)
  unfolding conclude
  conclude-At s m b text copied back q e h a = (
    rw (ap is_cut_off a.is_state ∙ e, le→leb q.n_length capacity (omega (arith, h, a.is_n_length)))
        (ap (λ x. some (http_ok, x)) a.is_n_length),
    a.is_buffer,
  )

  pub content-Ends :
      (status : List ℕ) (options : List (List ℕ)) (body old back : List ℕ)
      → IsHead status options
      → any_chunked options ≡ false
      → length old ≡ length body
      → length body ≤ capacity
      → Holds
          (Ends capacity http_ok (length body) (body ++ back))
          (feed modulus capacity (initial line (old ++ back)) (head status options body))
  unfolding feed
  content-Ends status options body old back h e l m =
      let Q : Outcome → Type 0 = Ends capacity http_ok (length body) (body ++ back) in
      head-At Q status options false body (old ++ back) h e (λ n q a.
        subst (λ x. Holds Q (feed modulus capacity q x)) (append-nil body)
          (content-At n false [] modulus capacity Q 0 body old back [] [] q a l (omega (arith, m))
            (λ q' a'. conclude-At content n false [] body back q' refl m a')))

  pub full-Ends :
      (status : List ℕ) (options : List (List ℕ)) (body more old back : List ℕ) (c : ℕ)
      → IsHead status options
      → any_chunked options ≡ false
      → length old ≡ length body
      → length body ≡ capacity
      → Holds (Ends capacity http_content_buffer_too_small capacity (body ++ back)) (
          feed modulus capacity
            (initial line (old ++ back))
            (head status options (body ++ (c ∷ more))))
  full-Ends status options body more old back c h e l m =
      let Q : Outcome → Type 0 =
        Ends capacity http_content_buffer_too_small capacity (body ++ back) in
      head-At Q status options false (body ++ (c ∷ more)) (old ++ back) h e (λ n q a.
        content-At n false [] modulus capacity Q 0 body old back [] (c ∷ more) q a l
          (omega (arith, m))
          (λ q' a'.
            full-At n false [] modulus capacity Q 0 c body more back q' a' m (refl, refl, refl)))

  pub chunks-Ends :
      (status : List ℕ) (options : List (List ℕ)) (ds : List (List ℕ × List ℕ))
      (last old back after : List ℕ)
      → IsHead status options
      → any_chunked options ≡ true
      → AreChunks modulus ds
      → IsSize modulus last 0
      → length old ≡ length (chunks_data ds)
      → length (chunks_data ds) ≤ capacity
      → Holds (Ends capacity http_ok (length (chunks_data ds)) (chunks_data ds ++ back)) (
          feed modulus capacity
            (initial line (old ++ back))
            (head status options (chunks ds (last ++ crlf after))))
  chunks-Ends status options ds last old back after h e i z l m =
      let Q : Outcome → Type 0 =
        Ends capacity http_ok (length (chunks_data ds)) (chunks_data ds ++ back) in
      head-At Q status options true (chunks ds (last ++ crlf after)) (old ++ back) h e (λ n q a.
        chunks-At n true modulus capacity Q ds old back [] (last ++ crlf after) q a i l
          (omega (arith, m))
          (λ q' a'.
            last-At n true modulus capacity Q last (chunks_data ds) back after q' a' z (λ q'' a''.
              subst (Holds Q) (sym (feed-finished modulus capacity q'' after a''.is_state))
                (conclude-At finished n true last (chunks_data ds) back q'' refl m a''))))

  pub cut-Ends :
      (status : List ℕ) (options : List (List ℕ)) (ds : List (List ℕ × List ℕ)) (old back : List ℕ)
      → IsHead status options
      → any_chunked options ≡ true
      → AreChunks modulus ds
      → length old ≡ length (chunks_data ds)
      → length (chunks_data ds) ≤ capacity
      → Holds
          (Ends capacity http_connection_reset capacity (chunks_data ds ++ back))
          (feed modulus capacity (initial line (old ++ back)) (head status options (chunks ds [])))
  unfolding feed conclude
  cut-Ends status options ds old back h e i l m =
      let Q : Outcome → Type 0 =
        Ends capacity http_connection_reset capacity (chunks_data ds ++ back) in
      head-At Q status options true (chunks ds []) (old ++ back) h e (λ n q a.
        chunks-At n true modulus capacity Q ds old back [] [] q a i l (omega (arith, m))
          (λ q' a'. (rw (ap is_cut_off a'.is_state) refl, a'.is_buffer)))
