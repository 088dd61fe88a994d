-- ===== src/Handle.antt =====
-- skynet/skynet-src/skynet_handle.c: the table of contexts by handle, and the table of their names. The
-- lock is held in each operation. A context is its address; arrays are functions, used below their size.
pub mod Names
pub mod Slots
pub mod Forget
pub mod Register
pub mod Grow
pub mod Enter
mod Tests
use skynet_notes.Prelude.{
  ℕ, zero, suc, ◌+◌, ◌-◌, ◌*◌, ◌/◌, ◌%◌, ◌^◌, Bool, true, false, ◌&&◌, Option, none, some, List, [],
  ◌∷◌, ltb, leb, ◌==◌, if◌then◌else◌, bit_and, bit_or,
}

-- `struct handle_name`, over the type of the strings
pub record HandleName (A : Type 0) : Type 0 where
  pub name : A
  pub handle : ℕ

-- `struct handle_storage`, with the field `handle` of the contexts, which it reads through
-- `skynet_context_handle`.
pub record HandleStorage (A : Type 0) : Type 0 where
  pub harbor : ℕ
  pub handle_index : ℕ
  pub slot_size : ℕ
  pub slot : ℕ → Option ℕ
  pub name_cap : ℕ
  pub name_count : ℕ
  pub name : ℕ → HandleName A
  pub context_handle : ℕ → ℕ

-- HANDLE_MASK
abbrev pub handle_mask : ℕ
handle_mask = 16777215

abbrev pub max_slot_size : ℕ
max_slot_size = 1073741824

infixl 1 ◌>>=◌
abbrev pub is_null : Option ℕ → Bool
is_null none = true
is_null (some c) = false

abbrev pub wrap_handle : ℕ → ℕ
wrap_handle handle = if ltb handle_mask handle then 1 else handle

abbrev pub ◌>>=◌ : {A B : Type 0} → Option A → (A → Option B) → Option B
none >>= f = none
some a >>= f = f a

module _ {A : Type 0} where
  -- `skynet_handle_init`; `blank` is what `skynet_malloc` leaves in the table of names.
  unfoldable pub handle_init : (ℕ → HandleName A) → ℕ → HandleStorage A
  handle_init blank harbor = record {
    harbor = bit_and harbor 255 * 2 ^ 24;
    handle_index = 1;
    slot_size = 4;
    slot = λ i. none;
    name_cap = 2;
    name_count = 0;
    name = blank;
    context_handle = λ c. 0;
  }

  -- The `for` loop of `skynet_handle_register` over the slots, with `n` rounds left: the handle found.
  unfoldable pub scan : ℕ → HandleStorage A → ℕ → Option ℕ
  scan zero s handle = none
  scan (suc n) s handle =
      let h = wrap_handle handle in
      let rest = scan n s (h + 1) in
      if is_null (s.slot (bit_and h (s.slot_size - 1))) then some h else rest

  -- One round of the loop that fills `new_slot`: none for a null context or a slot in use.
  abbrev pub refill : HandleStorage A → (ℕ → Option ℕ) → Option ℕ → Option (ℕ → Option ℕ)
  refill s new_slot none = none
  refill s new_slot (some ctx) =
      let hash = bit_and (s.context_handle ctx) (s.slot_size * 2 - 1) in
      if is_null (new_slot hash)
      then some (λ i. if i == hash then some ctx else new_slot i)
      else none

  -- That loop from `i` on, with `n` rounds left.
  unfoldable pub rehash : ℕ → HandleStorage A → (ℕ → Option ℕ) → ℕ → Option (ℕ → Option ℕ)
  rehash zero s new_slot i = some new_slot
  rehash (suc n) s new_slot i = do
    new_slot' ← refill s new_slot (s.slot i)
    rehash n s new_slot' (i + 1)

  -- The rest of a round of the outer loop: twice the slots; none where an assertion fails.
  unfoldable pub grow : HandleStorage A → Option (HandleStorage A)
  unfolding rehash
  grow s =
      if leb (s.slot_size * 2 - 1) handle_mask
      then (do
        new_slot ← rehash s.slot_size s (λ i. none) 0
        some (record s { slot = new_slot; slot_size = s.slot_size * 2 }))
      else none

  abbrev pub take_slot : HandleStorage A → ℕ → ℕ → ℕ × HandleStorage A
  take_slot s ctx handle =
      let hash = bit_and handle (s.slot_size - 1) in
      (
        bit_or handle s.harbor,
        record s {
          slot = λ i. if i == hash then some ctx else s.slot i;
          handle_index = handle + 1;
        },
      )

  -- `skynet_handle_register`, with fuel for the outer loop: none where an assertion fails
  unfoldable pub register : ℕ → HandleStorage A → ℕ → Option (ℕ × HandleStorage A)
  unfolding scan grow
  register zero s ctx = none
  register (suc fuel) s ctx =
      let again = (do s' ← grow s; register fuel s' ctx) in
      found again (scan s.slot_size s s.handle_index)
    where
      found : Option (ℕ × HandleStorage A) → Option ℕ → Option (ℕ × HandleStorage A)
      found again (some handle) = some (take_slot s ctx handle)
      found again none = again

  -- `skynet_handle_grab`, without the count of references: the context returned
  unfoldable pub grab : HandleStorage A → ℕ → Option ℕ
  grab s handle = check (s.slot (bit_and handle (s.slot_size - 1)))
    where
      check : Option ℕ → Option ℕ
      check none = none
      check (some ctx) = if s.context_handle ctx == handle then some ctx else none

  -- `ctx->handle = h`, as `skynet_context_new` does with the handle that it registered
  abbrev pub set_handle : HandleStorage A → ℕ → ℕ → HandleStorage A
  set_handle s ctx h = record s { context_handle = λ c. if c == ctx then h else s.context_handle c }

  -- One round of the loop of `skynet_handle_retire` over the names: the table and `j`.
  abbrev pub keep_name : (ℕ → HandleName A) → ℕ → ℕ → ℕ → (ℕ → HandleName A) × ℕ
  keep_name name handle i j =
      if (name i).handle == handle
      then (name, j)
      else if i == j
      then (name, j + 1)
      else (λ k. if k == j then name i else name k, j + 1)

  -- That loop from `i` on, with `n` rounds left.
  unfoldable pub keep_names : ℕ → (ℕ → HandleName A) → ℕ → ℕ → ℕ → (ℕ → HandleName A) × ℕ
  keep_names zero name handle i j = (name, j)
  keep_names (suc n) name handle i j =
      let (name', j') = keep_name name handle i j in keep_names n name' handle (i + 1) j'

  -- `skynet_handle_retire` up to the release: the result, and the context to be released
  unfoldable pub retire : HandleStorage A → ℕ → (ℕ × Option ℕ) × HandleStorage A
  unfolding keep_names
  retire s handle =
      let hash = bit_and handle (s.slot_size - 1) in
      let kept = keep_names s.name_count s.name handle 0 0 in
      let found = own (s.slot hash) in
      if found
      then (
        (1, s.slot hash),
        record s {
          slot = λ i. if i == hash then none else s.slot i;
          name = kept.0;
          name_count = kept.1;
        },
      )
      else ((0, none), s)
    where
      own : Option ℕ → Bool
      own none = false
      own (some ctx) = s.context_handle ctx == handle
