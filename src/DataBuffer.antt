-- ===== src/DataBuffer.antt =====
-- skynet/service-src/databuffer.h: the bytes that a connection has received and that are not yet read, as a
-- list of the messages they came in. The nodes of the messages come from a pool; of the pool the model keeps
-- how many blocks it has and how many of their nodes are free.

pub mod Read
pub mod Header
mod Tests
use skynet_notes.Prelude.{
  ℕ, zero, suc, ◌+◌, ◌-◌, ◌*◌, ◌^◌, Bool, true, false, Option, none, some, List, [], ◌∷◌, ◌++◌,
  length, take, drop, ltb, leb, ◌==◌, if◌then◌else◌, bit_or,
}

-- `struct databuffer`; a message is its bytes, and its field `size` is their number.
pub record DataBuffer : Type 0 where
  pub header : ℕ
  pub offset : ℕ
  pub size : ℕ
  pub messages : List (List ℕ)

-- `struct messagepool`: the length of `pool` and of `freelist`
pub record MessagePool : Type 0 where
  pub blocks : ℕ
  pub free : ℕ

abbrev pub message_pool : ℕ
message_pool = 1023

-- What a round of the loop copied, before what the next rounds copy.
abbrev pub joined :
    List ℕ → Option (List ℕ × List (List ℕ) × ℕ × ℕ) → Option (List ℕ × List (List ℕ) × ℕ × ℕ)
joined first none = none
joined first (some (bytes, left, offset, returned)) =
    some (first ++ bytes, left, offset, returned + 1)

-- The loop of `databuffer_read`: the bytes read, the messages left, the offset, and how many nodes
-- `_return_message` gave back; none where the code follows a null pointer.
unfoldable pub read_loop : List (List ℕ) → ℕ → ℕ → Option (List ℕ × List (List ℕ) × ℕ × ℕ)
read_loop [] offset sz = none
read_loop (current ∷ rest) offset sz =
    let bsz = length current - offset in
    let next = read_loop rest 0 (sz - bsz) in
    if ltb sz bsz
    then some (take sz (drop offset current), current ∷ rest, offset + sz, 0)
    else if bsz == sz
    then some (take sz (drop offset current), rest, 0, 1)
    else joined (take bsz (drop offset current)) next

-- What `databuffer_read` leaves in its arguments.
abbrev pub finish :
    DataBuffer
    → MessagePool
    → ℕ
    → Option (List ℕ × List (List ℕ) × ℕ × ℕ)
    → Option (List ℕ × DataBuffer × MessagePool)
finish db mp sz none = none
finish db mp sz (some (bytes, left, offset, returned)) = some (
  bytes,
  record db { size = db.size - sz; messages = left; offset = offset },
  record mp { free = mp.free + returned },
)

-- `databuffer_read`; none where an assertion fails
unfoldable pub databuffer_read :
    DataBuffer → MessagePool → ℕ → Option (List ℕ × DataBuffer × MessagePool)
unfolding read_loop
databuffer_read db mp sz =
    if leb sz db.size then finish db mp sz (read_loop db.messages db.offset sz) else none

-- `databuffer_push`
unfoldable pub databuffer_push : DataBuffer → MessagePool → List ℕ → DataBuffer × MessagePool
databuffer_push db mp bytes = (
  record db { size = db.size + length bytes; messages = db.messages ++ bytes ∷ [] },
  if mp.free == 0
      then record { blocks = mp.blocks + 1; free = message_pool - 1 }
      else record mp { free = mp.free - 1 },
)

-- `databuffer_reset`
unfoldable pub databuffer_reset : DataBuffer → DataBuffer
databuffer_reset db = record db { header = 0 }

-- `databuffer_clear`
unfoldable pub databuffer_clear : DataBuffer → MessagePool → DataBuffer × MessagePool
databuffer_clear db mp = (
  record { header = 0; offset = 0; size = 0; messages = [] },
  record mp { free = mp.free + length db.messages },
)

-- The header of two or four bytes, big endian, as the 32 bits of an `int`. With another number of bytes the
-- code reads bytes of `plen` that it has not written, or writes behind it: none.
abbrev pub big_endian : List ℕ → Option ℕ
big_endian (p0 ∷ p1 ∷ []) = some (bit_or (p0 * 2 ^ 8) p1)
big_endian (p0 ∷ p1 ∷ p2 ∷ p3 ∷ []) =
    some (bit_or (bit_or (bit_or (p0 * 2 ^ 24) (p1 * 2 ^ 16)) (p2 * 2 ^ 8)) p3)
big_endian _ = none

-- -1 as the 32 bits of an `int`
abbrev pub minus_one : ℕ
minus_one = 0xffffffff

-- The end of `databuffer_readheader`; a header of 2 ^ 31 or more is negative.
abbrev pub header_or_wait : DataBuffer → ℕ
header_or_wait db =
    if ltb db.header (2 ^ 31)
    then (if ltb db.size db.header then minus_one else db.header)
    else db.header

abbrev pub set_header : DataBuffer → MessagePool → Option ℕ → Option (ℕ × DataBuffer × MessagePool)
set_header db mp none = none
set_header db mp (some header) =
    let db' = record db { header = header } in some (header_or_wait db', db', mp)

abbrev pub with_header :
    Option (List ℕ × DataBuffer × MessagePool) → Option (ℕ × DataBuffer × MessagePool)
with_header none = none
with_header (some (plen, db, mp)) = set_header db mp (big_endian plen)

-- `databuffer_readheader`; none where `databuffer_read` fails
unfoldable pub databuffer_readheader :
    DataBuffer → MessagePool → ℕ → Option (ℕ × DataBuffer × MessagePool)
databuffer_readheader db mp header_size =
    if db.header == 0
    then (if ltb db.size header_size
        then some (minus_one, db, mp)
        else with_header (databuffer_read db mp header_size))
    else some (header_or_wait db, db, mp)
