-- ===== src/Http/Request.antt =====
-- CHTTPClient: its state, `Get`, `Post` and `Request`.
use circle_stdlib.Common.{
  ℕ, Bool, true, false, not, List, [], ◌++◌, Option, none, some, ltb, if◌then◌else◌, length, ◌>>=◌,
  ◌>>◌, assert,
}
use circle_stdlib.Common.Int.{ℤ, is_negative}
use circle_stdlib.Common.Chars.{codes}
use circle_stdlib.Mqtt.ReceivePacket.{Received}
use circle_stdlib.Http.{http_request_timeout, http_connection_reset, http_internal_client_error}
use circle_stdlib.Http.Response.{initial, ended, returned, unfinished, receive_loop, conclude}

-- What the class uses of Circle. A call that reports an error gives `false` or a negative number.
pub record Network : Type 1 where
  pub World : Type 0
  -- `FRAME_BUFFER_SIZE`, and `ULONG_MAX + 1`
  pub frame_size : ℕ
  pub modulus : ℕ
  -- `AddCertificatePath ("/")` and `Setup` of a CTLSSimpleClientSocket
  pub add_certificates : World → Bool × World
  pub setup : World → List ℕ → Bool × World
  -- `Connect`, `Send`, `Receive` and the destructor of the socket
  pub open_connection : World → ℕ → ℕ → ℤ × World
  pub send_bytes : World → List ℕ → ℤ × World
  pub receive_bytes : World → ℕ → Received × World
  pub close_socket : World → World
  -- `%u` of `CString::Format`
  pub format_unsigned : ℕ → List ℕ

-- The state of the class; `socket_open` is `m_pSocket != 0`.
pub record HttpClient (W : Type 0) : Type 0 where
  pub server_ip : ℕ
  pub server_port : ℕ
  pub server_name : List ℕ
  pub use_ssl : Bool
  pub socket_open : Bool
  pub world : W

-- `THTTPRequestMethod`
pub data Method : Type 0 where
  get head post unknown_method : Method

-- `pMethod`; there is none where the code fails an assertion.
abbrev pub method_name : Method → Option (List ℕ)
method_name get = some (codes "GET")
method_name post = some (codes "POST")
method_name _ = none

-- What `Request` returns: the status, `*pLength` and the caller's buffer; or the loop over the received
-- bytes has used up its fuel.
pub data Reply : Type 0 where
  replied : ℕ → ℕ → List ℕ → Reply
  pending : Reply

module _ (N : Network) where
  open N use {
    World, frame_size, modulus, add_certificates, setup, open_connection, send_bytes, receive_bytes,
    close_socket, format_unsigned,
  }

  unfoldable pub create : ℕ → ℕ → List ℕ → Bool → World → HttpClient World
  create ip port name ssl w = record {
    server_ip = ip;
    server_port = port;
    server_name = name;
    use_ssl = ssl;
    socket_open = false;
    world = w;
  }

  -- `delete m_pSocket; m_pSocket = 0`
  unfoldable pub close : HttpClient World → HttpClient World
  close c = record c { socket_open = false; world = close_socket c.world }

  -- The destructor; `delete` of a null pointer does nothing.
  unfoldable pub destroy : HttpClient World → HttpClient World
  destroy c = if c.socket_open then close c else c

  -- The text that is sent.
  unfoldable pub request_text : HttpClient World → List ℕ → List ℕ → Option (List ℕ) → List ℕ
  request_text c name path form =
      name
      ++ codes " "
      ++ path
      ++ codes " HTTP/1.1\r\n"
      ++ (if ltb 0 (length c.server_name)
          then codes "Host: " ++ c.server_name ++ codes "\r\n"
          else [])
      ++ codes "User-Agent: CHTTPClient/0.10 (Circle)\r\n"
      ++ codes "Connection: close\r\n"
      ++ elim form [
        | none ↦ []
        | some text ↦
            codes "Content-Type: application/x-www-form-urlencoded\r\n"
            ++ codes "Content-Length: "
            ++ format_unsigned (length text)
            ++ codes "\r\n"
      ]
      ++ codes "\r\n"
      ++ elim form [ none ↦ [] | some text ↦ text ]

  -- The response, once the request has been sent. `line` is what the array `Line` holds before.
  unfoldable pub receive_response :
      ℕ → List ℕ → ℕ → List ℕ → HttpClient World → Option (Reply × HttpClient World)
  receive_response fuel line capacity buffer c = do
    loop ← receive_loop modulus capacity receive_bytes frame_size fuel (initial line buffer) c.world
    elim loop [
      | ended p w ↦ do
        (status, n) ← conclude capacity p
        some (replied status n p.buffer, close (record c { world = w }))
      | returned status b w ↦ some (replied status capacity b, close (record c { world = w }))
      | unfinished p w ↦ some (pending, record c { world = w })
    ]

  -- `Request` from the call of `Connect` on.
  unfoldable pub converse :
      ℕ
      → List ℕ
      → Method
      → List ℕ
      → Option (List ℕ)
      → ℕ
      → List ℕ
      → HttpClient World
      → Option (Reply × HttpClient World)
  converse fuel line method path form capacity buffer c =
      let (connected, w) = open_connection c.world c.server_ip c.server_port in
      let c₁ : HttpClient World = record c { world = w } in
      if is_negative connected
      then some (replied http_request_timeout capacity buffer, close c₁)
      else (do
        name ← method_name method
        let (sent, w') = send_bytes w (request_text c₁ name path form)
        let c₂ : HttpClient World = record c { world = w' }
        if is_negative sent
            then some (replied http_connection_reset capacity buffer, close c₂)
            else receive_response fuel line capacity buffer c₂)

  -- `Request`
  unfoldable pub request :
      ℕ
      → List ℕ
      → Method
      → List ℕ
      → Option (List ℕ)
      → ℕ
      → List ℕ
      → HttpClient World
      → Option (Reply × HttpClient World)
  request fuel line method path form capacity buffer c = do
    assert (not c.socket_open)
    let c₁ : HttpClient World = record c { socket_open = true }
    if not c.use_ssl then converse fuel line method path form capacity buffer c₁ else (do
      let (certified, w) = add_certificates c₁.world
      let c₂ : HttpClient World = record c₁ { world = w }
      if not certified
          then some (replied http_internal_client_error capacity buffer, close c₂)
          else (do
            assert (ltb 0 (length c.server_name))
            let (ready, w') = setup w c.server_name
            let c₃ : HttpClient World = record c₁ { world = w' }
            if not ready
                then some (replied http_internal_client_error capacity buffer, close c₃)
                else converse fuel line method path form capacity buffer c₃))

  unfoldable pub get_file :
      ℕ → List ℕ → List ℕ → ℕ → List ℕ → HttpClient World → Option (Reply × HttpClient World)
  get_file fuel line path capacity buffer c = request fuel line get path none capacity buffer c

  unfoldable pub post_form :
      ℕ
      → List ℕ
      → List ℕ
      → ℕ
      → List ℕ
      → List ℕ
      → HttpClient World
      → Option (Reply × HttpClient World)
  post_form fuel line path capacity buffer form c =
      request fuel line post path (some form) capacity buffer c
