-- ===== src/Http.antt =====
-- The HTTP client: include/circle-mbedtls/http.h and httpclient.h, src/circle-mbedtls/httpclient.cpp.
pub mod Response
pub mod Request
mod Segments
mod Lines
mod Ends
mod Flow
mod Header
mod Content
mod ChunkHeader
mod ChunkData
mod Chunks
mod Replies
mod Messages
mod Delivery
mod Safety
mod Robust
mod Closing
mod Download
mod Examples
use circle_stdlib.Common.{ℕ}

-- `HTTP_MAX_REQUEST_LINE`, the size of `Line`
abbrev pub max_request_line : ℕ
max_request_line = 2048

-- `THTTPStatus`. A status is a number here, since `Request` also returns what the server sent.
abbrev pub http_ok : ℕ
http_ok = 200

abbrev pub http_request_timeout : ℕ
http_request_timeout = 408

abbrev pub http_connection_reset : ℕ
http_connection_reset = 550

abbrev pub http_invalid_response_code : ℕ
http_invalid_response_code = 551

abbrev pub http_invalid_chunk_header : ℕ
http_invalid_chunk_header = 552

abbrev pub http_content_buffer_too_small : ℕ
http_content_buffer_too_small = 553

abbrev pub http_internal_client_error : ℕ
http_internal_client_error = 554
