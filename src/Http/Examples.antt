-- ===== src/Http/Examples.antt =====
-- Responses to `Get`, and how they are parsed.
use circle_stdlib.Common.{
  ℕ, zero, suc, ◌≡◌, ◌≢◌, refl, Bool, true, false, List, [], ◌∷◌, ◌++◌, Option, none, some, not,
  ◌&&◌, ◌==◌, eq→==, length, drop, arith, Holds, ◌>>=◌, All,
}
use circle_stdlib.Common.Int.{pos}
use circle_stdlib.Common.Chars.{codes, equal, equal_nocase, strtoul, read_digits}
use circle_stdlib.Mqtt.ReceivePacket.{Received, stored}
use circle_stdlib.Http.{max_request_line, http_ok}
use circle_stdlib.Http.Response.{Parser, initial, feed, receive_loop, end_line}
use circle_stdlib.Http.Request.{
  Network, HttpClient, replied, pending, create, get_file, receive_response,
}
use circle_stdlib.Http.Segments.{concat, Delivers, result, receive_loop_lem}
use circle_stdlib.Http.Ends.{end_line-rejected, word_status}
use circle_stdlib.Http.Flow.{IsPlain}
use circle_stdlib.Http.Header.{IsLine, crlf, plain-IsNonzero}
use circle_stdlib.Http.Chunks.{AreChunks, chunks}
use circle_stdlib.Http.Messages.{IsHead, head}
use circle_stdlib.Http.Replies.{IsReply}
use circle_stdlib.Http.Delivery.{receive_response-chunks}
use circle_stdlib.Http.Robust.{IsBoundedReply, receive_response-safe}
use circle_stdlib.Http.Closing.{receive_response-rejected}
use circle_stdlib.Http.Download.{get_file-content}

abbrev repeat : ℕ → ℕ → List ℕ
repeat zero c = []
repeat (suc n) c = c ∷ repeat n c

length-repeat : (n c : ℕ) → length (repeat n c) ≡ n
length-repeat zero c = refl
length-repeat (suc n) c = omega (arith, length-repeat n c)

-- A world is the list of the pieces that are still to be received.
abbrev next_piece : List (List ℕ) → ℕ → Received × List (List ℕ)
next_piece [] n = (stored [], [])
next_piece (f ∷ fs) n = (stored f, fs)

abbrev network : Network
network = record {
  World = List (List ℕ);
  frame_size = 1600;
  modulus = 4294967296;
  add_certificates = λ w. (true, w);
  setup = λ w name. (true, w);
  open_connection = λ w ip port. (pos 0, w);
  send_bytes = λ w bs. (pos (length bs), w);
  receive_bytes = next_piece;
  close_socket = λ w. w;
  format_unsigned = λ n. codes "0";
}

abbrev status : List ℕ
status = codes "HTTP/1.1 200 OK"

abbrev buffer : List ℕ
buffer = repeat 8 255

abbrev line : List ℕ
line = repeat 2048 170

line_size : length line ≡ max_request_line
line_size = length-repeat 2048 170

abbrev first : List ℕ
first = codes "HTTP/1.1 200 OK\r\nServer: x\r\n\r"

abbrev second : List ℕ
second = codes "\nhello"

abbrev client : HttpClient (List (List ℕ))
client = create network 1 80 (codes "example.org") false (first ∷ second ∷ [])

test : Option (Bool × ℕ × List ℕ)
test = get_file network 5 line (codes "/") 8 buffer client >>= λ r. elim r.0 [
  | replied s n b ↦ some (r.1.socket_open, n, b)
  | pending ↦ none
]

-- A line that fits, tested.
abbrev is_plain : ℕ → Bool
is_plain c = not (c == 0) && (not (c == b'\r') && not (c == b'\n'))

unlike : (c d : ℕ) → not (c == d) ≡ true → c ≢ d
unlike c d e f = absurd (same (c == d) (eq→== c d f) e)
  where
    same : (b : Bool) → b ≡ true → not b ≡ true → ⊥
    same true e f = cc
    same false e f = cc

both : (a b : Bool) → (a && b) ≡ true → (a ≡ true) × (b ≡ true)
both true b e = (refl, e)
both false b e = cc

abbrev are_plain : List ℕ → Bool
are_plain [] = true
are_plain (c ∷ t) = is_plain c && are_plain t

plain : (t : List ℕ) → are_plain t ≡ true → All IsPlain t
plain [] e = tt
plain (c ∷ t) e =
    let (here, rest) = both (is_plain c) (are_plain t) e in
    let (zero_free, ends) = both (not (c == 0)) (not (c == b'\r') && not (c == b'\n')) here in
    let (cr, lf) = both (not (c == b'\r')) (not (c == b'\n')) ends in
    ((unlike c 0 zero_free, unlike c b'\r' cr, unlike c b'\n' lf), plain t rest)

status-IsLine : IsLine status
status-IsLine = ((λ e. cc), plain status refl, omega arith)

abbrev server : List ℕ
server = codes "Server: x"

abbrev coding : List ℕ
coding = codes "Transfer-Encoding: chunked"

plain-IsHead : IsHead status (server ∷ [])
unfolding equal
plain-IsHead = record {
  status_fits = status-IsLine;
  is_ok = refl;
  options_fit = (((λ e. cc), plain server refl, omega arith), tt);
  count = omega arith;
}

chunked-IsHead : IsHead status (coding ∷ [])
unfolding equal
chunked-IsHead = record {
  status_fits = status-IsLine;
  is_ok = refl;
  options_fit = (((λ e. cc), plain coding refl, omega arith), tt);
  count = omega arith;
}

delivers : Delivers next_piece 1600 (first ∷ second ∷ []) (first ∷ second ∷ [])
delivers = (refl, (λ e. cc), (refl, (λ e. cc), refl))

receive_loop_lem_example :
    (receive_loop 4294967296 8 next_piece 1600 5 (initial line buffer) (first ∷ second ∷ [])
      >>= λ l. some (result l))
    ≡ (feed 4294967296 8 (initial line buffer) (concat (first ∷ second ∷ [])) >>= λ o.
        some (true, o))
receive_loop_lem_example =
    receive_loop_lem 4294967296 8 next_piece 1600 (first ∷ second ∷ []) 5 (initial line buffer)
      (first ∷ second ∷ []) delivers (omega arith)

get_file-content_example :
    Holds
      (IsReply http_ok 5 (codes "hello" ++ drop 5 buffer))
      (get_file network 5 line (codes "/") 8 buffer client)
unfolding create equal_nocase equal
get_file-content_example =
    get_file-content network 5 8 line (codes "/") buffer client (first ∷ second ∷ []) status
      (server ∷ []) (codes "hello") refl refl refl refl line_size (omega arith) delivers
      (omega arith) plain-IsHead refl (omega arith) refl

-- A client whose socket is open, and which receives one piece.
abbrev opened : List ℕ → HttpClient (List (List ℕ))
opened response = record {
  server_ip = 1;
  server_port = 80;
  server_name = [];
  use_ssl = false;
  socket_open = true;
  world = response ∷ [];
}

-- "5", "hello"
abbrev one_chunk : List (List ℕ × List ℕ)
one_chunk = (codes "5", codes "hello") ∷ []

one_chunk-AreChunks : AreChunks 4294967296 one_chunk
unfolding strtoul read_digits
one_chunk-AreChunks = (
  record {
    nonempty = λ e. cc;
    below = omega arith;
    is_size = (((λ e. cc), plain (codes "5") refl, omega arith), refl);
  },
  tt,
)

abbrev in_chunks : List ℕ
in_chunks = head status (coding ∷ []) (chunks one_chunk (codes "0" ++ crlf (crlf [])))

receive_response-chunks_example :
    Holds
      (IsReply http_ok 5 (codes "hello" ++ drop 5 buffer))
      (receive_response network 2 line 8 buffer (opened in_chunks))
unfolding equal_nocase equal strtoul read_digits
receive_response-chunks_example =
    receive_response-chunks network 2 8 line buffer (opened in_chunks) (in_chunks ∷ []) line_size
      (omega arith) (refl, (λ e. cc), refl) (omega arith) status (coding ∷ []) one_chunk (codes "0")
      (crlf []) chunked-IsHead refl one_chunk-AreChunks
      (((λ e. cc), plain (codes "0") refl, omega arith), refl) (omega arith) refl

abbrev not_found : List ℕ
not_found = codes "HTTP/1.1 404 Not Found"

receive_response-rejected_example :
    Holds
      (IsReply (word_status 4294967296 (codes "404")) 8 buffer)
      (receive_response network 2 line 8 buffer (opened (not_found ++ crlf [])))
unfolding equal
receive_response-rejected_example =
    receive_response-rejected network 2 8 line buffer (opened (not_found ++ crlf []))
      ((not_found ++ crlf []) ∷ []) not_found [] line_size (refl, (λ e. cc), refl) (omega arith)
      ((λ e. cc), plain not_found refl, omega arith) refl (λ e. cc) refl

receive_response-safe_example :
    Holds
      (IsBoundedReply 8 8)
      (receive_response network 2 line 8 buffer (opened (status ++ crlf (0 ∷ 10 ∷ 10 ∷ 1 ∷ []))))
unfolding equal
receive_response-safe_example =
    receive_response-safe network 2 8 line buffer (opened (status ++ crlf (0 ∷ 10 ∷ 10 ∷ 1 ∷ [])))
      ((status ++ crlf (0 ∷ 10 ∷ 10 ∷ 1 ∷ [])) ∷ []) status (0 ∷ 10 ∷ 10 ∷ 1 ∷ []) line_size
      (omega arith) (refl, (λ e. cc), refl) (omega arith) status-IsLine refl (omega arith) refl

-- A status line without a code: "HTTP/1.1".
abbrev no_code : Parser
no_code = record (initial (codes "HTTP/1.1" ++ (0 ∷ [])) buffer) { n_char = 8 }

end_line-rejected_example : end_line 4294967296 8 no_code ≡ none
unfolding initial equal
end_line-rejected_example =
    end_line-rejected 4294967296 8 no_code (codes "HTTP/1.1") [] refl
      (plain-IsNonzero (codes "HTTP/1.1") (plain (codes "HTTP/1.1") refl)) refl refl
