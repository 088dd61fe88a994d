-- ===== src/Netpack.antt =====
-- skynet/lualib-src/lua-netpack.c: the packets with a header of two bytes that the data of sockets is split
-- into. A socket gets its data in chunks, so packets that are not complete wait in a hash table, and
-- complete ones in a ring when one chunk has several.
pub mod Stream
pub mod Waiting
pub mod Filter
pub mod Split
pub mod Queued
pub mod Delivery
mod Tests
use skynet_notes.Prelude.{
  ℕ, zero, suc, ◌+◌, ◌-◌, ◌*◌, ◌/◌, ◌%◌, ◌^◌, Bool, true, false, Option, none, some, List, [], ◌∷◌,
  ◌++◌, length, take, drop, replicate, get_or, set, ltb, leb, ◌==◌, if◌then◌else◌, bit_or,
}
use skynet_notes.Prelude.Ring.{copy}

-- `struct netpack`; `size` is the number of the bytes.
pub record Netpack : Type 0 where
  pub id : ℕ
  pub buffer : List ℕ

-- What `struct uncomplete` has of a packet: one byte of its header (`read` is -1), or the size and the
-- bytes read.
pub data Progress : Type 0 where
  header : ℕ → Progress
  body : ℕ → List ℕ → Progress

pub record Uncomplete : Type 0 where
  pub id : ℕ
  pub progress : Progress

-- `struct queue`; an element of `hash` is a list that `next` links.
pub record Queue : Type 0 where
  pub cap : ℕ
  pub head : ℕ
  pub tail : ℕ
  pub hash : ℕ → List Uncomplete
  pub queue : List (Option Netpack)

abbrev pub queue_size : ℕ
queue_size = 1024

abbrev pub hash_size : ℕ
hash_size = 4096

-- `hash_fd` of an fd, which is not negative
unfoldable pub hash_fd : ℕ → ℕ
hash_fd fd = (fd / 2 ^ 24 + fd / 2 ^ 12 + fd) % 2 ^ 32 % hash_size

abbrev pub set_bucket : (ℕ → List Uncomplete) → ℕ → List Uncomplete → ℕ → List Uncomplete
set_bucket hash h list i = if i == h then list else hash i

abbrev pub keep_first :
    Uncomplete → Option (Progress × List Uncomplete) → Option (Progress × List Uncomplete)
keep_first uc none = none
keep_first uc (some (p, list)) = some (p, uc ∷ list)

-- The first element of a list for an fd, and the list without it.
unfoldable pub take_uncomplete : List Uncomplete → ℕ → Option (Progress × List Uncomplete)
take_uncomplete [] fd = none
take_uncomplete (uc ∷ list) fd =
    let later = take_uncomplete list fd in
    if uc.id == fd then some (uc.progress, list) else keep_first uc later

abbrev pub unlink : Queue → ℕ → Option (Progress × List Uncomplete) → Option (Progress × Queue)
unlink q fd none = none
unlink q fd (some (p, list)) = some (p, record q { hash = set_bucket q.hash (hash_fd fd) list })

-- `find_uncomplete`; the userdata at index 1 is none before `get_queue` has made it.
unfoldable pub find_uncomplete : Option Queue → ℕ → Option (Progress × Queue)
find_uncomplete none fd = none
find_uncomplete (some q) fd = unlink q fd (take_uncomplete (q.hash (hash_fd fd)) fd)

unfoldable pub get_queue : Option Queue → Queue
get_queue none = record {
  cap = queue_size;
  head = 0;
  tail = 0;
  hash = λ _. [];
  queue = replicate queue_size none;
}
get_queue (some q) = q

unfoldable pub expand_queue : Queue → Queue
expand_queue q = record q {
  cap = q.cap + queue_size;
  head = 0;
  tail = q.cap;
  queue = copy q.queue q.cap q.head q.cap ++ replicate queue_size none;
}

unfoldable pub push_data : Option Queue → ℕ → List ℕ → Queue
unfolding expand_queue get_queue
push_data l fd buffer =
    let q = get_queue l in
    let next = if leb q.cap (q.tail + 1) then q.tail + 1 - q.cap else q.tail + 1 in
    let q' = record q {
      queue = set q.queue q.tail (some (record { id = fd; buffer = buffer }));
      tail = next;
    } in
    if q.head == next then expand_queue q' else q'

-- `save_uncomplete`, with what its callers store in the new element
unfoldable pub save_uncomplete : Option Queue → ℕ → Progress → Queue
unfolding get_queue
save_uncomplete l fd progress =
    let q = get_queue l in
    let uc : Uncomplete = record { id = fd; progress = progress } in
    record q { hash = set_bucket q.hash (hash_fd fd) (uc ∷ q.hash (hash_fd fd)) }

abbrev pub read_size : ℕ → ℕ → ℕ
read_size b0 b1 = bit_or (b0 * 2 ^ 8) b1

-- `push_more` with `rounds` calls of itself before its end; none is a read behind the end of the buffer, or
-- no round left.
unfoldable pub push_more : ℕ → Option Queue → ℕ → List ℕ → Option Queue
push_more zero l fd buffer = none
push_more (suc rounds) l fd [] = none
push_more (suc rounds) l fd (b ∷ []) = some (save_uncomplete l fd (header b))
push_more (suc rounds) l fd (b0 ∷ b1 ∷ data') =
    let pack_size = read_size b0 b1 in
    let rest = drop pack_size data' in
    let q = push_data l fd (take pack_size data') in
    let more = push_more rounds (some q) fd rest in
    if ltb (length data') pack_size
    then some (save_uncomplete l fd (body pack_size data'))
    else if ltb 0 (length rest)
    then more
    else some q

-- What `lfilter` returns behind the queue.
pub data Reply : Type 0 where
  nothing : Reply
  packet : ℕ → List ℕ → Reply
  more : Reply
  opened : ℕ → List ℕ → Reply
  closed : ℕ → Reply
  failed : ℕ → List ℕ → Reply
  warned : ℕ → ℕ → Reply

abbrev pub with_more : Option Queue → Option (Option Queue × Reply)
with_more none = none
with_more (some q) = some (some q, more)

-- `push_more` of what follows a packet that was put into the queue, and TYPE_MORE.
abbrev pub push_rest : Queue → ℕ → List ℕ → Option (Option Queue × Reply)
push_rest q fd rest = with_more (push_more (length rest) (some q) fd rest)

-- `filter_data_` with an uncomplete packet whose size is known
unfoldable pub fill : Queue → ℕ → ℕ → List ℕ → List ℕ → Option (Option Queue × Reply)
fill q fd size read buffer =
    let need = size - length read in
    let rest = drop need buffer in
    let whole = read ++ take need buffer in
    if ltb (length buffer) need
    then some (some (save_uncomplete (some q) fd (body size (read ++ buffer))), nothing)
    else if length rest == 0
    then some (some q, packet fd whole)
    else push_rest (push_data (some q) fd whole) fd rest

-- `filter_data_` with an uncomplete packet
unfoldable pub continue_packet : Queue → ℕ → Progress → List ℕ → Option (Option Queue × Reply)
continue_packet q fd (header h) [] = none
continue_packet q fd (header h) (b ∷ buffer) = fill q fd (bit_or b (h * 2 ^ 8)) [] buffer
continue_packet q fd (body size read) buffer = fill q fd size read buffer

-- `filter_data_` without one
unfoldable pub start_packet : Option Queue → ℕ → List ℕ → Option (Option Queue × Reply)
start_packet l fd [] = none
start_packet l fd (b ∷ []) = some (some (save_uncomplete l fd (header b)), nothing)
start_packet l fd (b0 ∷ b1 ∷ data') =
    let pack_size = read_size b0 b1 in
    if ltb (length data') pack_size
    then some (some (save_uncomplete l fd (body pack_size data')), nothing)
    else if length data' == pack_size
    then some (l, packet fd data')
    else push_rest (push_data l fd (take pack_size data')) fd (drop pack_size data')

abbrev pub with_found :
    Option Queue → ℕ → List ℕ → Option (Progress × Queue) → Option (Option Queue × Reply)
with_found l fd buffer none = start_packet l fd buffer
with_found l fd buffer (some (uc, q)) = continue_packet q fd uc buffer

-- `filter_data_`: the queue at index 1 and the reply
unfoldable pub filter_data : Option Queue → ℕ → List ℕ → Option (Option Queue × Reply)
filter_data l fd buffer = with_found l fd buffer (find_uncomplete l fd)

abbrev pub without : Option Queue → Option (Progress × Queue) → Option Queue
without l none = l
without l (some (uc, q)) = some q

unfoldable pub close_uncomplete : Option Queue → ℕ → Option Queue
close_uncomplete l fd = without l (find_uncomplete l fd)

-- The messages of a socket that `lfilter` gets, with the fields that it reads.
pub data SocketMessage : Type 0 where
  socket_data : ℕ → List ℕ → SocketMessage
  socket_connect : SocketMessage
  socket_close : ℕ → SocketMessage
  socket_accept : ℕ → List ℕ → SocketMessage
  socket_error : ℕ → List ℕ → SocketMessage
  socket_warning : ℕ → ℕ → SocketMessage

unfoldable pub lfilter : Option Queue → SocketMessage → Option (Option Queue × Reply)
lfilter l (socket_data id buffer) = filter_data l id buffer
lfilter l socket_connect = some (l, nothing)
lfilter l (socket_close id) = some (close_uncomplete l id, closed id)
lfilter l (socket_accept ud address) = some (l, opened ud address)
lfilter l (socket_error id message) = some (close_uncomplete l id, failed id message)
lfilter l (socket_warning id ud) = some (l, warned id ud)

-- `lpop`; none is an empty queue.
unfoldable pub lpop : Option Queue → Option (Option Netpack × Queue)
lpop none = none
lpop (some q) =
    if q.head == q.tail
    then none
    else some (
      get_or q.queue q.head none,
      record q { head = if leb q.cap (q.head + 1) then 0 else q.head + 1 },
    )

-- `lclear`
unfoldable pub lclear : Option Queue → Option Queue
lclear none = none
lclear (some q) = some (record q { head = 0; tail = 0; hash = λ _. [] })
