-- ===== src/Net.antt =====
-- What the network code of include/circle-mbedtls and src/circle-mbedtls returns, and what it uses of
-- Circle.
pub mod Adapter
pub mod Contexts
mod Store
mod Stream
mod Receiving
mod Reads
mod Waiting
mod Idling
mod Timeouts
mod Table
mod Handles
mod Opening
mod Kept
mod Calls
mod Runs
mod Accepting
pub mod Examples
use circle_stdlib.Common.{ℕ, Bool, List, Option}
use circle_stdlib.Common.Int.{ℤ}
use circle_stdlib.Mqtt.ReceivePacket.{Received}

-- The error codes of mbed TLS that the code returns itself.
pub data NetError : Type 0 where
  connect_failed unknown_host bind_failed accept_failed send_failed socket_failed : NetError
  invalid_context buffer_too_small alloc_failed want_read timed_out : NetError

-- A result that is not negative, or an error code.
pub data Result (A : Type 0) : Type 0 where
  ok : A → Result A
  err : NetError → Result A

-- A CSocket is known by a pointer. Calls that report an error give a negative number.
pub record NetSubSystem : Type 1 where
  pub World : Type 0
  pub Socket : Type 0
  -- `FRAME_BUFFER_SIZE`, and `ULONG_MAX + 1`
  pub frame_size : ℕ
  pub modulus : ℕ
  -- `new`: whether there is memory for an object
  pub has_memory : World → Bool × World
  -- a null pointer if there is no memory
  pub is_null : Socket → Bool
  pub new_socket : World → Socket × World
  pub delete_socket : World → Socket → World
  pub socket_connect : World → Socket → ℕ → ℕ → ℤ × World
  pub socket_bind : World → Socket → ℕ → ℤ × World
  pub socket_listen : World → Socket → ℤ × World
  -- the connection and its foreign IP address
  pub socket_accept : World → Socket → Option (Socket × ℕ) × World
  -- with `MSG_DONTWAIT` or without; no bytes if no data is available
  pub socket_receive : World → Socket → ℕ → Bool → Received × World
  pub socket_send : World → Socket → List ℕ → ℤ × World
  -- `Resolve` of CDNSClient
  pub resolve : World → List ℕ → Option ℕ × World
  pub yield_task : World → World
  pub get_ticks : World → ℕ × World
  -- `MSEC2HZ`
  pub msec2hz : ℕ → ℕ
