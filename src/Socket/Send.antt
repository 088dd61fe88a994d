-- ===== src/Socket/Send.antt =====
-- The write buffers of a socket of socket_server.c: two lists, of which the one of high priority is sent first.
-- none is a failed assertion.
use skynet_notes.Prelude.{
  ℕ, ◌+◌, ◌-◌, ◌*◌, ◌/◌, ◌%◌, Bool, true, false, ◌&&◌, ◌||◌, not, Option, none, some, List, [], ◌∷◌,
  ◌++◌, length, take, ltb, leb, ◌==◌, if◌then◌else◌,
}
use skynet_notes.Socket.{
  paccept, plisten, listen, SocketType, WriteBuffer, unsent, Socket, Result, nothing, socket_error,
  socket_warning, reset, Answer, wrote, interrupted, would_block, broken, is_invalid,
  is_halfclose_write, is_empty, send_buffer_empty,
}
use skynet_notes.Socket.Close.{force_close, close_write}

abbrev pub min : ℕ → ℕ → ℕ
min a b = if ltb a b then a else b

-- What `send_list_tcp` leaves of a list, the bytes that were written, whether a `write` failed, and the answers
-- that are not used.
pub record Sent : Type 0 where
  pub list : List WriteBuffer
  pub written : List ℕ
  pub failed : Bool
  pub answers : List Answer

abbrev pub after : List ℕ → Sent → Sent
after bytes r = record r { written = bytes ++ r.written }

-- `send_list_tcp`; once the answers are used up, `write` would block.
unfoldable pub send_list : List Answer → List WriteBuffer → Sent
send_list [] list = record { list = list; written = []; failed = false; answers = [] }
send_list (a ∷ answers) [] = record {
  list = [];
  written = [];
  failed = false;
  answers = a ∷ answers;
}
send_list (interrupted ∷ answers) (tmp ∷ list) = send_list answers (tmp ∷ list)
send_list (would_block ∷ answers) (tmp ∷ list) = record {
  list = tmp ∷ list;
  written = [];
  failed = false;
  answers = answers;
}
send_list (broken ∷ answers) (tmp ∷ list) = record {
  list = tmp ∷ list;
  written = [];
  failed = true;
  answers = answers;
}
send_list (wrote n ∷ answers) (tmp ∷ list) =
    let sz = min n (length (unsent tmp)) in
    let rest = send_list answers list in
    if sz == length (unsent tmp) then after (unsent tmp) rest else record {
      list = record tmp { offset = tmp.offset + sz } ∷ list;
      written = take sz (unsent tmp);
      failed = false;
      answers = answers;
    }

-- What sending the lists leaves in the socket.
abbrev pub sent_high : Socket → Sent → Socket
sent_high s r = record s {
  high = r.list;
  wb_size = s.wb_size - length r.written;
  wire = s.wire ++ r.written;
}

abbrev pub sent_low : Socket → Sent → Socket
sent_low s r = record s {
  low = r.list;
  wb_size = s.wb_size - length r.written;
  wire = s.wire ++ r.written;
}

-- `list_uncomplete`
abbrev pub list_uncomplete : List WriteBuffer → Bool
list_uncomplete [] = false
list_uncomplete (wb ∷ list) = not (wb.offset == 0)

-- `raise_uncomplete`, with the low list given
abbrev pub raise_uncomplete : List WriteBuffer → Socket → Option Socket
raise_uncomplete [] s = none
raise_uncomplete (tmp ∷ low) s =
    if is_empty s.high then some (record s { low = low; high = tmp ∷ [] }) else none

-- A failed `write`: SOCKET_ERR is returned, SOCKET_RST ignored.
abbrev pub not_reset : Result → Result
not_reset reset = nothing
not_reset r = r

abbrev pub stopped : Socket → Option (Socket × Result)
stopped s = let r = close_write s in some (r.0, not_reset r.1)

-- Step 4 of `send_buffer_`; `fails` is what `sp_enable` returns.
unfoldable pub check_close : Bool → Socket → Option (Socket × Result)
check_close fails s =
    let s' = record s { writing = false } in
    if not (send_buffer_empty s && (s.wb_size == 0))
    then none
    else if s.closing
    then some (force_close s, nothing)
    else if s.writing && fails
    then some (s', socket_error)
    else if ltb 0 s.warn_size
    then some (record s' { warn_size = 0 }, socket_warning 0)
    else some (s', nothing)

abbrev pub with_nothing : Option Socket → Option (Socket × Result)
with_nothing none = none
with_nothing (some s) = some (s, nothing)

-- Steps 2 and 3 of `send_buffer_`, given what sending the low list does
unfoldable pub send_low : Bool → Socket → Sent → Option (Socket × Result)
send_low fails s r =
    let s' = sent_low s r in
    if r.failed
    then stopped s'
    else if list_uncomplete r.list
    then with_nothing (raise_uncomplete r.list s')
    else if is_empty r.list
    then check_close fails s'
    else some (s', nothing)

-- `send_buffer_`, given what sending the high list does
unfoldable pub send_high : Bool → Socket → Sent → Option (Socket × Result)
send_high fails s r =
    let s' = sent_high s r in
    if r.failed
    then stopped s'
    else if is_empty r.list
    then send_low fails s' (send_list r.answers s.low)
    else some (s', nothing)

-- `send_buffer` puts the rest of a direct write, if there is one, in front of the high list.
abbrev pub take_direct : Option WriteBuffer → Socket → Socket
take_direct none s = s
take_direct (some buf) s = record s {
  high = buf ∷ s.high;
  wb_size = s.wb_size + length (unsent buf);
  direct = none;
}

-- `send_buffer`; `locked` is a lock that a worker thread holds.
unfoldable pub send_buffer : Bool → Bool → List Answer → Socket → Option (Socket × Result)
send_buffer locked fails answers s =
    let s' = take_direct s.direct s in
    if locked
    then some (s, nothing)
    else if list_uncomplete s'.low
    then none
    else send_high fails s' (send_list answers s'.high)

abbrev pub warning_size : ℕ
warning_size = 0x100000

-- The end of `send_socket`.
abbrev pub warn : Socket → Socket × Result
warn s =
    let kb = if s.wb_size % 1024 == 0 then s.wb_size / 1024 else s.wb_size / 1024 + 1 in
    if leb warning_size s.wb_size && leb s.warn_size s.wb_size
    then (
      record s { warn_size = if s.warn_size == 0 then warning_size * 2 else s.warn_size * 2 },
      socket_warning kb,
    )
    else (s, nothing)

-- `append_sendbuffer` and `append_sendbuffer_low`
abbrev pub append_high : List ℕ → Socket → Socket
append_high packet s = record s {
  high = s.high ++ record { buffer = packet; offset = 0 } ∷ [];
  wb_size = s.wb_size + length packet;
}

abbrev pub append_low : List ℕ → Socket → Socket
append_low packet s = record s {
  low = s.low ++ record { buffer = packet; offset = 0 } ∷ [];
  wb_size = s.wb_size + length packet;
}

-- The types that `send_socket` does not send to.
abbrev pub not_sending : SocketType → Bool
not_sending paccept = true
not_sending plisten = true
not_sending listen = true
not_sending t = is_invalid t || is_halfclose_write t

-- The rest of `send_socket`, for a packet that is accepted
abbrev pub queue_packet : Bool → Bool → List ℕ → Socket → Socket × Result
queue_packet fails low packet s =
    let s' = record (append_high packet s) { writing = true } in
    if send_buffer_empty s
    then (if not s.writing && fails then (s', socket_error) else warn s')
    else if low
    then warn (append_low packet s)
    else warn (append_high packet s)

-- `send_socket` on a TCP socket, with the priority PRIORITY_LOW or not
unfoldable pub send_socket : Bool → Bool → List ℕ → Socket → Socket × Result
send_socket fails low packet s =
    if not_sending s.type || s.closing then (s, nothing) else queue_packet fails low packet s

-- `trigger_write`, the request 'W'
unfoldable pub trigger_write : Bool → Socket → Socket × Result
trigger_write fails s =
    if is_invalid s.type
    then (s, nothing)
    else (record s { writing = true }, if not s.writing && fails then socket_error else nothing)
