-- ===== src/Http/Download.antt =====
-- CHTTPClient::Get without TLS, from the connection to the reply.
use circle_stdlib.Common.{ℕ, ◌≤◌, ◌<◌, ◌≡◌, true, false, List, ◌++◌, none, length, drop, Holds}
use circle_stdlib.Common.Int.{is_negative}
use circle_stdlib.Common.Chars.{codes}
use circle_stdlib.Http.{max_request_line, http_ok}
use circle_stdlib.Http.Request.{Network, HttpClient, request_text, get_file}
use circle_stdlib.Http.Segments.{concat, Delivers}
use circle_stdlib.Http.Header.{any_chunked}
use circle_stdlib.Http.Messages.{IsHead, head}
use circle_stdlib.Http.Replies.{IsReply}
use circle_stdlib.Http.Delivery.{receive_response-content}
use circle_stdlib.Http.Closing.{sent_client, get_file-Holds}

module _ (N : Network) where
  open N use {World, frame_size, open_connection, send_bytes, receive_bytes}

  -- `Get` without TLS on a client that has no socket, where `Connect` succeeds and `Send` takes the text
  -- of the request. The pieces that `Receive` then gives, none of them empty, are together a header with
  -- an accepted status line and options none of which names the chunked coding, each of at most 2047
  -- characters other than zero and the line ends and together fewer than 2^32, and a content of at
  -- most `*pLength` bytes, as many as the caller's buffer has at least. The fuel is more than the number
  -- of pieces. Then the result is 200, the length of the content and the content in front of the buffer, whose rest is
  -- unchanged, and the socket is closed. The loop over the calls of `Receive` ends by itself.
  pub get_file-content :
      (fuel capacity : ℕ) (line path buffer : List ℕ) (c : HttpClient World)
      (frames : List (List ℕ)) (status : List ℕ) (options : List (List ℕ)) (body : List ℕ)
      → c.socket_open ≡ false
      → c.use_ssl ≡ false
      → is_negative (open_connection c.world c.server_ip c.server_port).0 ≡ false
      → is_negative
          (send_bytes (open_connection c.world c.server_ip c.server_port).1 (
            request_text N
              (record c {
                socket_open = true;
                world = (open_connection c.world c.server_ip c.server_port).1;
              })
              (codes "GET")
              path
              none)).0
        ≡ false
      → length line ≡ max_request_line
      → capacity ≤ length buffer
      → Delivers receive_bytes frame_size frames (sent_client N c path).world
      → length frames < fuel
      → IsHead status options
      → any_chunked options ≡ false
      → length body ≤ capacity
      → concat frames ≡ head status options body
      → Holds
          (IsReply http_ok (length body) (body ++ drop (length body) buffer))
          (get_file N fuel line path capacity buffer c)
  get_file-content fuel capacity line path buffer c frames status options body i j k l size room d
        enough h e m t =
      get_file-Holds N (IsReply http_ok (length body) (body ++ drop (length body) buffer)) fuel line
        path capacity buffer c i j k l
        (receive_response-content N fuel capacity line buffer (sent_client N c path) frames size
          room d enough status options body h e m t)
