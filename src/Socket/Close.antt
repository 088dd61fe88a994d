-- ===== src/Socket/Close.antt =====
-- How a socket of socket_server.c is closed: by an error of `write`, by a request, or by the other side.
use skynet_notes.Prelude.{
  ℕ, ◌*◌, ◌/◌, Bool, true, false, ◌&&◌, ◌||◌, not, Option, none, some, List, [], ◌∷◌, length, ltb,
  ◌==◌, if◌then◌else◌,
}
use skynet_notes.Socket.{
  SocketType, invalid, connected, halfclose_read, halfclose_write, paccept, plisten, listen, Socket,
  Result, nothing, socket_data, socket_close, socket_open, socket_error, reset, is_invalid,
  is_halfclose_read, is_halfclose_write, no_direct, send_buffer_empty,
}

-- `force_close`, from a type other than SOCKET_TYPE_RESERVE
unfoldable pub force_close : Socket → Socket
force_close s =
    if is_invalid s.type then s else record s { type = invalid; high = []; low = []; direct = none }

-- `close_write`
unfoldable pub close_write : Socket → Socket × Result
close_write s =
    if s.closing
    then (force_close s, reset)
    else if is_halfclose_read s.type
    then (force_close s, reset)
    else if is_halfclose_write s.type
    then (s, reset)
    else (record s { type = halfclose_write; writing = false }, socket_error)

-- `nomore_sending_data`
abbrev pub nomore_sending_data : Socket → Bool
nomore_sending_data s =
    (send_buffer_empty s && no_direct s.direct && (s.sending == 0)) || is_halfclose_write s.type

-- `close_read`
abbrev pub close_read : Socket → Socket
close_read s = record s { type = halfclose_read; reading = false }

-- `close_socket`, the request 'K'
unfoldable pub close_socket : Bool → Socket → Socket × Result
close_socket shutdown s =
    if is_invalid s.type
    then (s, nothing)
    else if shutdown || nomore_sending_data s
    then (force_close s, if is_halfclose_read s.type then nothing else socket_close)
    else (let s' = record s { closing = true } in
        if is_halfclose_read s.type then (s', nothing) else (close_read s', socket_close))

-- What `read` of `size` bytes returns: it fails for good, it would block or is interrupted, or it has bytes;
-- none of them is the end of the stream.
pub data Received : Type 0 where
  read_error : Received
  read_again : Received
  read_bytes : List ℕ → Received

-- The end of `forward_message_tcp`: the size of the next buffer. (The buffer is full: SOCKET_MORE, which
-- socket_server_poll turns into SOCKET_DATA.)
abbrev pub next_size : ℕ → ℕ → ℕ
next_size sz n = if n == sz then sz * 2 else if ltb 64 sz && ltb (n * 2) sz then sz / 2 else sz

-- The case that the other side has closed.
abbrev pub end_of_stream : Socket → Socket × Result
end_of_stream s =
    if s.closing
    then (if nomore_sending_data s then force_close s else s, nothing)
    else if is_halfclose_read s.type
    then (s, nothing)
    else if is_halfclose_write s.type
    then (force_close s, socket_close)
    else (close_read s, socket_close)

-- `forward_message_tcp`
unfoldable pub forward_message_tcp : Received → Socket → Socket × Result
forward_message_tcp read_error s = (s, socket_error)
forward_message_tcp read_again s = (s, nothing)
forward_message_tcp (read_bytes []) s = end_of_stream s
forward_message_tcp (read_bytes (b ∷ bytes)) s =
    if is_halfclose_read s.type
    then (s, nothing)
    else (record s { size = next_size s.size (length (b ∷ bytes)) }, socket_data (b ∷ bytes))

-- The case of `e->eof` in `socket_server_poll`
unfoldable pub poll_eof : Socket → Socket × Result
poll_eof s = (force_close s, if is_halfclose_read s.type then nothing else socket_close)

abbrev pub resumed : SocketType → Option SocketType
resumed paccept = some connected
resumed plisten = some listen
resumed connected = some connected
resumed _ = none

abbrev pub opened : Socket → Option SocketType → Socket × Result
opened s none = (s, nothing)
opened s (some type) = (record s { type = type }, socket_open)

-- `resume_socket`, the request 'R'; `fails` is what `sp_enable` returns.
unfoldable pub resume_socket : Bool → Socket → Socket × Result
resume_socket fails s =
    let s' = record s { reading = true } in
    if is_invalid s.type
    then (s, socket_error)
    else if is_halfclose_read s.type
    then (s, socket_error)
    else if not s.reading && fails
    then (s', socket_error)
    else opened s' (resumed s.type)

-- `pause_socket`, the request 'S'
unfoldable pub pause_socket : Bool → Socket → Socket × Result
pause_socket fails s =
    if is_invalid s.type
    then (s, nothing)
    else (record s { reading = false }, if s.reading && fails then socket_error else nothing)
