-- ===== src/Handle/Names.antt =====
-- The table of names of skynet/skynet-src/skynet_handle.c: `skynet_handle_findname` and
-- `skynet_handle_namehandle`.
pub mod Insert
pub mod Search
pub mod Lookup
pub mod Named
use skynet_notes.Prelude.{
  ℕ, zero, suc, ◌+◌, ◌-◌, ◌*◌, ◌/◌, Bool, true, false, Option, none, some, ltb, leb, ◌==◌,
  if◌then◌else◌,
}
use skynet_notes.Handle.{HandleName, HandleStorage, max_slot_size}

-- The sign of what `strcmp` returns.
pub data Sign : Type 0 where
  negative : Sign
  equal : Sign
  positive : Sign

-- Where the search of `skynet_handle_findname` and `_insert_name` ends: at `mid`, or with `begin`.
pub data Place : Type 0 where
  found_at : ℕ → Place
  missing_at : ℕ → Place

abbrev pub is_equal : Sign → Bool
is_equal negative = false
is_equal equal = true
is_equal positive = false

abbrev pub is_negative : Sign → Bool
is_negative negative = true
is_negative equal = false
is_negative positive = false

module _ {A : Type 0} (strcmp : A → A → Sign) where
  -- The `while` loop on fuel. The code's `end` may be -1: `stop` is `end + 1`.
  unfoldable pub search : ℕ → (ℕ → HandleName A) → A → ℕ → ℕ → Place
  search zero table key begin stop = missing_at begin
  search (suc fuel) table key begin stop =
      let mid = (begin + (stop - 1)) / 2 in
      let c = strcmp (table mid).name key in
      let rest =
        search fuel table key (if is_negative c then mid + 1 else begin)
          (if is_negative c then stop else mid) in
      if ltb begin stop then (if is_equal c then found_at mid else rest) else missing_at begin

  -- `skynet_handle_findname`
  unfoldable pub findname : HandleStorage A → A → ℕ
  unfolding search
  findname s key = answer (search s.name_count s.name key 0 s.name_count)
    where
      answer : Place → ℕ
      answer (found_at mid) = (s.name mid).handle
      answer (missing_at begin) = 0

-- `n[i + d] = s->name[i]` for `k` values of `i`, up from `i`
unfoldable pub copy_names :
    {A : Type 0} → ℕ → (ℕ → HandleName A) → ℕ → (ℕ → HandleName A) → ℕ → ℕ → HandleName A
copy_names zero table d n i = n
copy_names (suc k) table d n i =
    copy_names k table d (λ j. if j == i + d then table i else n j) (i + 1)

-- `s->name[i] = s->name[i-1]` for `k` values of `i`, down from `i`
unfoldable pub shift_names : {A : Type 0} → ℕ → (ℕ → HandleName A) → ℕ → ℕ → HandleName A
shift_names zero table i = table
shift_names (suc k) table i = shift_names k (λ j. if j == i then table (i - 1) else table j) (i - 1)

module _ {A : Type 0} where
  -- The table with a gap at `before`: a new one of twice the size, or the old one with its end shifted.
  unfoldable pub make_gap : HandleStorage A → (ℕ → HandleName A) → ℕ → Option (HandleStorage A)
  unfolding copy_names shift_names
  make_gap s blank before =
      if leb s.name_cap s.name_count
      then (if leb (s.name_cap * 2) max_slot_size
          then some (record s {
            name_cap = s.name_cap * 2;
            name =
                copy_names (s.name_count - before) s.name 1 (copy_names before s.name 0 blank 0)
                  before;
          })
          else none)
      else some (record s { name = shift_names (s.name_count - before) s.name s.name_count })

  -- `_insert_name_before`; `blank` is what `skynet_malloc` leaves; none where the assertion fails.
  unfoldable pub insert_name_before :
      HandleStorage A → (ℕ → HandleName A) → A → ℕ → ℕ → Option (HandleStorage A)
  unfolding make_gap
  insert_name_before s blank key handle before = fill (make_gap s blank before)
    where
      fill : Option (HandleStorage A) → Option (HandleStorage A)
      fill none = none
      fill (some t) = some (record t {
        name = λ i. if i == before then record { name = key; handle = handle } else t.name i;
        name_count = t.name_count + 1;
      })

-- `_insert_name`, which `skynet_handle_namehandle` calls with the lock held: whether it inserted, and the
-- storage.
unfoldable pub insert_name :
    {A : Type 0}
    → (A → A → Sign)
    → HandleStorage A
    → (ℕ → HandleName A)
    → A
    → ℕ
    → Option (Bool × HandleStorage A)
unfolding search insert_name_before
insert_name {A} strcmp s blank key handle =
    answer (search strcmp s.name_count s.name key 0 s.name_count)
  where
    inserted : Option (HandleStorage A) → Option (Bool × HandleStorage A)
    inserted none = none
    inserted (some t) = some (true, t)

    answer : Place → Option (Bool × HandleStorage A)
    answer (found_at mid) = some (false, s)
    answer (missing_at begin) = inserted (insert_name_before s blank key handle begin)
