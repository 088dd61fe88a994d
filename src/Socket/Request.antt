-- ===== src/Socket/Request.antt =====
-- What worker threads do with a socket of socket_server.c, and the requests that they send to the socket thread
-- through a pipe.
pub mod Reach
pub mod State
pub mod Low
pub mod Flush
pub mod Append
pub mod Serve
pub mod Stream
pub mod Order
use skynet_notes.Prelude.{
  ℕ, zero, suc, ◌+◌, ◌-◌, Bool, true, false, ◌&&◌, ◌||◌, not, Option, none, some, List, [], ◌∷◌,
  ◌++◌, length, take, drop, ltb, ◌==◌, if◌then◌else◌,
}
use skynet_notes.Socket.{
  SocketType, WriteBuffer, Socket, Result, nothing, Answer, wrote, is_invalid, is_connected,
}
use skynet_notes.Socket.Close.{nomore_sending_data, close_socket, resume_socket, pause_socket}
use skynet_notes.Socket.Send.{min, send_buffer, send_socket, trigger_write}

-- The requests 'D' and 'P' ('P' is of low priority), 'W', 'K', 'R' and 'S', for one socket
pub data Request : Type 0 where
  send_packet : Bool → List ℕ → Request
  want_write : Request
  want_close : Bool → Request
  want_resume : Request
  want_pause : Request

-- A socket and the pipe.
pub record System : Type 0 where
  pub socket : Socket
  pub pipe : List Request

-- `new_fd`, with the type that its callers store
unfoldable pub new_fd : SocketType → Bool → Socket
new_fd type reading = record {
  type = type;
  high = [];
  low = [];
  wb_size = 0;
  warn_size = 0;
  sending = 0;
  size = 64;
  reading = reading;
  writing = false;
  closing = false;
  direct = none;
  wire = [];
}

-- `inc_sending_ref`; none while it waits for the socket thread.
unfoldable pub inc_sending_ref : Socket → Option Socket
inc_sending_ref s =
    if s.sending == 0xffff then none else some (record s { sending = s.sending + 1 })

-- `dec_sending_ref`; none is the failed assertion.
unfoldable pub dec_sending_ref : Socket → Option Socket
dec_sending_ref s = if s.sending == 0 then none else some (record s { sending = s.sending - 1 })

abbrev pub with_result : Result → Option Socket → Option (Socket × Result)
with_result r none = none
with_result r (some s) = some (s, r)

-- `ctrl_cmd`; `fails` is what `sp_enable` returns.
unfoldable pub ctrl_cmd : Bool → Request → Socket → Option (Socket × Result)
ctrl_cmd fails (send_packet low packet) s =
    let r = send_socket fails low packet s in with_result r.1 (dec_sending_ref r.0)
ctrl_cmd fails want_write s = some (trigger_write fails s)
ctrl_cmd fails (want_close shutdown) s = some (close_socket shutdown s)
ctrl_cmd fails want_resume s = some (resume_socket fails s)
ctrl_cmd fails want_pause s = some (pause_socket fails s)

abbrev pub first_request : Bool → List Request → Socket → Option (Socket × Result)
first_request fails [] s = some (s, nothing)
first_request fails (r ∷ pipe) s = ctrl_cmd fails r s

-- The requests are taken from the pipe in order.
unfoldable pub serve : Bool → System → Option (Socket × Result)
serve fails sys = first_request fails sys.pipe sys.socket

-- `socket_server_poll`, for a socket that can be written to
unfoldable pub poll_write : Bool → Bool → List Answer → Socket → Option (Socket × Result)
poll_write locked fails answers s =
    if is_invalid s.type then some (s, nothing) else send_buffer locked fails answers s

-- `can_direct_write` on a TCP socket
abbrev pub can_direct_write : Socket → Bool
can_direct_write s = nomore_sending_data s && is_connected s.type

-- What became of a packet: it was freed, written as far as possible, or sent through the pipe.
pub data Outcome : Type 0 where
  refused : Outcome
  written : Outcome
  queued : Outcome

-- How much `write` takes; an error counts as nothing.
abbrev pub taken : Answer → ℕ → ℕ
taken (wrote n) size = min n size
taken _ size = 0

abbrev pub push_packet : Bool → List ℕ → List Request → Option Socket → Option (System × Outcome)
push_packet low packet pipe none = none
push_packet low packet pipe (some s) =
    some (record { socket = s; pipe = pipe ++ send_packet low packet ∷ [] }, queued)

-- The direct write of `socket_server_send`.
unfoldable pub direct_write : Answer → List ℕ → System → System
direct_write answer packet sys =
    let s = sys.socket in
    let n = taken answer (length packet) in
    if n == length packet
    then record sys { socket = record s { wire = s.wire ++ packet } }
    else record {
      socket = record s {
        wire = s.wire ++ take n packet;
        direct = some (record { buffer = packet; offset = n });
      };
      pipe = sys.pipe ++ want_write ∷ [];
    }

-- `socket_server_send`; `locked` is a lock that another thread holds.
unfoldable pub socket_server_send : Bool → Answer → List ℕ → System → Option (System × Outcome)
socket_server_send locked answer packet sys =
    let s = sys.socket in
    if is_invalid s.type || s.closing
    then some (sys, refused)
    else if can_direct_write s && not locked
    then some (direct_write answer packet sys, written)
    else push_packet false packet sys.pipe (inc_sending_ref s)

-- `socket_server_send_lowpriority`
unfoldable pub socket_server_send_lowpriority : List ℕ → System → Option (System × Outcome)
socket_server_send_lowpriority packet sys =
    if is_invalid sys.socket.type
    then some (sys, refused)
    else push_packet true packet sys.pipe (inc_sending_ref sys.socket)
