-- ===== src/Http/Response.antt =====
-- CHTTPClient::Request: the state machine that parses the response.
use circle_stdlib.Common.{
  ℕ, zero, suc, ◌+◌, ◌-◌, ◌%◌, Bool, true, false, ◌||◌, List, [], ◌∷◌, Option, none, some, ltb, leb,
  ◌==◌, if◌then◌else◌, length, drop, ◌>>=◌, ◌>>◌, assert, copy_in,
}
use circle_stdlib.Common.Chars.{codes, c_string, strtok_r, strtoul, equal, equal_nocase}
use circle_stdlib.Mqtt.{u32_mod}
use circle_stdlib.Mqtt.ReceivePacket.{Received, failed, stored}
use circle_stdlib.Http.{
  max_request_line, http_ok, http_connection_reset, http_invalid_response_code,
  http_invalid_chunk_header, http_content_buffer_too_small,
}

-- `nState`, from 0 to 5
pub data State : Type 0 where
  header content chunk_header chunk_data chunk_trailer finished : State

-- The local variables. `buffer` is the caller's buffer, from its start; `pBuffer` always points to its
-- element `n_length`.
pub record Parser : Type 0 where
  pub state : State
  pub n_line : ℕ
  pub n_char : ℕ
  pub n_length : ℕ
  pub chunked : Bool
  pub bytes : ℕ
  pub line : List ℕ
  pub buffer : List ℕ

-- The variables before the first character; the arrays hold whatever they held.
unfoldable pub initial : List ℕ → List ℕ → Parser
initial line buffer = record {
  state = header;
  n_line = 0;
  n_char = 0;
  n_length = 0;
  chunked = false;
  bytes = 0;
  line = line;
  buffer = buffer;
}

-- What a character leads to: the next one is read, or `Request` returns a status and leaves the caller's
-- buffer.
pub data Outcome : Type 0 where
  going : Parser → Outcome
  stopped : ℕ → List ℕ → Outcome

-- `nState < 5`
abbrev pub is_reading : State → Bool
is_reading finished = false
is_reading _ = true

-- What the loop leads to: it ends, or `Request` returns in it, or the fuel is used up.
pub data Loop (W : Type 0) : Type 0 where
  ended : Parser → W → Loop W
  returned : ℕ → List ℕ → W → Loop W
  unfinished : Parser → W → Loop W

-- A character that is accumulated in `Line`, if it has room for it and the zero behind it.
unfoldable pub accumulate : Parser → ℕ → Option Parser
accumulate p c =
    if ltb p.n_char (max_request_line - 1)
    then (copy_in p.line p.n_char (c ∷ 0 ∷ []) >>= λ line.
        some (record p { line = line; n_char = p.n_char + 1 }))
    else some p

-- How the tests of the status line end: all are passed, or one fails and `pToken` is the last token.
pub data StatusLine : Type 0 where
  accepted : List ℕ → StatusLine
  rejected : Option ℕ → List ℕ → StatusLine

-- The third token, behind the saved pointer.
unfoldable pub status_code : List ℕ → ℕ → Option StatusLine
status_code line saved = do
  (token, next, line') ← strtok_r line saved (codes " ")
  elim token [
    | none ↦ some (rejected none line')
    | some a ↦ do
      status ← c_string (drop a line')
      some (if equal status (codes "200") then accepted line' else rejected (some a) line')
  ]

-- The second and the third token.
unfoldable pub status_version : List ℕ → ℕ → Option StatusLine
status_version line saved = do
  (token, next, line') ← strtok_r line saved (codes " ")
  elim token [ none ↦ some (rejected none line') | some a ↦ status_code line' next ]

unfoldable pub status_line : List ℕ → Option StatusLine
status_line line = do
  (token, saved, line') ← strtok_r line 0 (codes "/")
  elim token [
    | none ↦ some (rejected none line')
    | some a ↦ do
      protocol ← c_string (drop a line')
      if equal protocol (codes "HTTP")
          then status_version line' saved
          else some (rejected (some a) line')
  ]

-- The value of the option "Transfer-Encoding", behind the saved pointer: whether it is "chunked", and the
-- array after the call.
unfoldable pub option_value : List ℕ → ℕ → Option (Bool × List ℕ)
option_value line saved = do
  (token, next, line') ← strtok_r line saved (codes " ")
  elim token [
    | none ↦ some (false, line')
    | some a ↦ do
      coding ← c_string (drop a line')
      some (equal_nocase coding (codes "chunked"), line')
  ]

-- Whether the line says that the transfer encoding is "chunked", and the array after the calls.
unfoldable pub option_line : List ℕ → Option (Bool × List ℕ)
option_line line = do
  (token, saved, line') ← strtok_r line 0 (codes ": ")
  elim token [
    | none ↦ some (false, line')
    | some a ↦ do
      name ← c_string (drop a line')
      if equal_nocase name (codes "Transfer-Encoding")
          then option_value line' saved
          else some (false, line')
  ]

-- `*pBuffer++ = chChar; nLength++`, where the buffer of `capacity` bytes has room.
unfoldable pub copy_char : Parser → ℕ → Option Parser
copy_char p c = copy_in p.buffer p.n_length (c ∷ []) >>= λ buffer.
    some (record p { buffer = buffer; n_length = p.n_length + 1 })

module _ (modulus capacity : ℕ) where
  -- The status that a rejected status line leads to, an enumeration of 32 bits. `strtoul` of a null
  -- pointer faults.
  unfoldable pub rejected_status : Option ℕ → List ℕ → Option ℕ
  rejected_status none line = none
  rejected_status (some a) line = do
    text ← c_string (drop a line)
    let (status, used) = strtoul modulus 10 text
    some (if ltb used (length text) then http_invalid_response_code else status % u32_mod)

  -- The end of a line of the header that is not empty.
  unfoldable pub end_line : Parser → Option Outcome
  end_line p =
      if p.n_line == 0
      then (do
        tests ← status_line p.line
        elim tests [
          | accepted line ↦ some (going (record p { line = line; n_line = 1; n_char = 0 }))
          | rejected token line ↦ do
            status ← rejected_status token line
            some (stopped status p.buffer)
        ])
      else (do
        (chunked, line) ← option_line p.line
        some (
            going (record p {
              line = line;
              chunked = p.chunked || chunked;
              n_line = (p.n_line + 1) % u32_mod;
              n_char = 0;
            })))

  -- The end of a chunk header.
  unfoldable pub end_chunk_header : Parser → Option Outcome
  end_chunk_header p = do
    text ← c_string p.line
    let (size, used) = strtoul modulus 16 text
    some (
        if ltb used (length text)
        then stopped http_invalid_chunk_header p.buffer
        else going (record p { bytes = size; state = if size == 0 then finished else chunk_data }))

  -- The body of the inner loop, for each state.
  unfoldable pub step_in : State → Parser → ℕ → Option Outcome
  step_in header p c =
      if c == b'\r'
      then some (going p)
      else if c == b'\n'
      then (if p.n_char == 0
          then some
              (going (record p { state = if p.chunked then chunk_header else content; n_char = 0 }))
          else end_line p)
      else (accumulate p c >>= λ q. some (going q))
  step_in content p c =
      if leb capacity p.n_length
      then some (stopped http_content_buffer_too_small p.buffer)
      else (copy_char p c >>= λ q. some (going q))
  step_in chunk_header p c =
      if c == b'\r'
      then some (going p)
      else if c == b'\n'
      then end_chunk_header p
      else (accumulate p c >>= λ q. some (going q))
  step_in chunk_data p c =
      if leb capacity p.n_length
      then some (stopped http_content_buffer_too_small p.buffer)
      else (copy_char p c >>= λ q.
          let left = (p.bytes + modulus - 1) % modulus in
          some (
            going
              (record q { bytes = left; state = if left == 0 then chunk_trailer else chunk_data })))
  step_in chunk_trailer p c =
      if c == b'\r'
      then some (going p)
      else if c == b'\n'
      then some (going (record p { n_char = 0; state = chunk_header }))
      else some (stopped http_invalid_chunk_header p.buffer)
  step_in finished p c = some (going p)

  -- The inner loop over the characters of one call of `Receive`.
  unfoldable pub feed : Parser → List ℕ → Option Outcome
  feed p [] = some (going p)
  feed p (c ∷ cs) =
      step_in p.state p c >>= λ o. elim o [ going q ↦ feed q cs | stopped s b ↦ some (stopped s b) ]

  -- The outer loop, at most `fuel` rounds of it. It ends when the last chunk was received, when the peer
  -- has closed the connection (no bytes), or on an error.
  unfoldable pub receive_loop :
      {W : Type 0} → (W → ℕ → Received × W) → ℕ → ℕ → Parser → W → Option (Loop W)
  receive_loop receive frame_size zero p w = some (unfinished p w)
  receive_loop receive frame_size (suc fuel) p w =
      if is_reading p.state
      then elim (receive w frame_size).0 [
        | failed ↦ some (ended p (receive w frame_size).1)
        | stored [] ↦ some (ended p (receive w frame_size).1)
        | stored (c ∷ cs) ↦ feed p (c ∷ cs) >>= λ o. elim o [
          | going q ↦ receive_loop receive frame_size fuel q (receive w frame_size).1
          | stopped s b ↦ some (returned s b (receive w frame_size).1)
        ]
      ]
      else some (ended p w)

-- `nState < 5 && nState != 1`
abbrev pub is_cut_off : State → Bool
is_cut_off finished = false
is_cut_off content = false
is_cut_off _ = true

-- The end of `Request`: the status, and the new value of `*pLength`, which was `capacity`.
unfoldable pub conclude : ℕ → Parser → Option (ℕ × ℕ)
conclude capacity p =
    if is_cut_off p.state
    then some (http_connection_reset, capacity)
    else (assert (leb p.n_length capacity) >> some (http_ok, p.n_length))
