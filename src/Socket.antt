-- ===== src/Socket.antt =====
-- skynet/skynet-src/socket_server.c: one TCP socket from the moment it has its file descriptor on. What the
-- kernel answers is an argument: what `write` and `read` return, and whether `sp_enable` fails. The functions
-- that the socket thread runs are in `Close` and `Send`, those of the worker threads in `Request`.
pub mod Buffers
pub mod Close
pub mod Send
pub mod Request
mod Tests
use skynet_notes.Prelude.{
  ℕ, zero, suc, ◌+◌, ◌-◌, Bool, true, false, ◌&&◌, Option, none, some, List, [], ◌∷◌, length, drop,
}

-- SOCKET_TYPE_*
pub data SocketType : Type 0 where
  invalid : SocketType
  reserve : SocketType
  plisten : SocketType
  listen : SocketType
  connecting : SocketType
  connected : SocketType
  halfclose_read : SocketType
  halfclose_write : SocketType
  paccept : SocketType
  bind : SocketType

-- `struct write_buffer`: the bytes of the packet, and how far `ptr` is behind `buffer`; `sz` is what is left.
pub record WriteBuffer : Type 0 where
  pub buffer : List ℕ
  pub offset : ℕ

abbrev pub unsent : WriteBuffer → List ℕ
unsent wb = drop wb.offset wb.buffer

-- `struct socket`: a `wb_list` is a list, `size` is `p.size`, `sending` the low 16 bits of that field, and
-- `direct` is `dw_buffer` with `dw_offset`. `wire` is what the kernel has taken of the bytes to send.
pub record Socket : Type 0 where
  pub type : SocketType
  pub high : List WriteBuffer
  pub low : List WriteBuffer
  pub wb_size : ℕ
  pub warn_size : ℕ
  pub sending : ℕ
  pub size : ℕ
  pub reading : Bool
  pub writing : Bool
  pub closing : Bool
  pub direct : Option WriteBuffer
  pub wire : List ℕ

-- What a function of the socket thread returns: nothing is -1, SOCKET_RST is reset.
pub data Result : Type 0 where
  nothing : Result
  socket_data : List ℕ → Result
  socket_close : Result
  socket_open : Result
  socket_error : Result
  socket_warning : ℕ → Result
  reset : Result

-- What `write` does: it takes at most so many bytes, is interrupted, would block, or fails.
pub data Answer : Type 0 where
  wrote : ℕ → Answer
  interrupted : Answer
  would_block : Answer
  broken : Answer

abbrev pub is_invalid : SocketType → Bool
is_invalid invalid = true
is_invalid _ = false

abbrev pub is_connected : SocketType → Bool
is_connected connected = true
is_connected _ = false

-- `halfclose_read`
abbrev pub is_halfclose_read : SocketType → Bool
is_halfclose_read halfclose_read = true
is_halfclose_read _ = false

abbrev pub is_halfclose_write : SocketType → Bool
is_halfclose_write halfclose_write = true
is_halfclose_write _ = false

abbrev pub is_empty : {A : Type 0} → List A → Bool
is_empty [] = true
is_empty (x ∷ xs) = false

abbrev pub no_direct : Option WriteBuffer → Bool
no_direct none = true
no_direct (some wb) = false

-- `send_buffer_empty`
abbrev pub send_buffer_empty : Socket → Bool
send_buffer_empty s = is_empty s.high && is_empty s.low
