-- ===== src/Handle/Tests.antt =====
-- The theorems on handles and names at concrete inputs; the names are numbers here.
use mathlib.Core.Option.{some-injective}
use skynet_notes.Prelude.{
  ℕ, ◌+◌, ◌-◌, ◌≡◌, refl, ◌∙◌, inr, none, some, ltb, ◌==◌, if◌then◌else◌, arith,
}
use skynet_notes.Prelude.Bits.{bit_and-low_ones}
use skynet_notes.Handle.{HandleStorage, is_null, grab, grow, rehash, scan, retire, register}
use skynet_notes.Handle.Forget.{entries, without, retire-entries}
use skynet_notes.Handle.Slots.{answer, retire-grab}
use skynet_notes.Handle.Register.{IsSlots}
use skynet_notes.Handle.Enter.{Registered, register_lem}
use skynet_notes.Handle.Names.{Sign, negative, equal, positive, insert_name}
use skynet_notes.Handle.Names.Search.{IsOrder}
use skynet_notes.Handle.Names.Lookup.{IsTable}
use skynet_notes.Handle.Names.Named.{NamesHandle, insert_name_lem}

abbrev number_strcmp : ℕ → ℕ → Sign
number_strcmp a b = if ltb a b then negative else if a == b then equal else positive

number_strcmp-IsOrder : IsOrder number_strcmp
number_strcmp-IsOrder = record {
  same = λ a b h. ground arith;
  reflexive = λ a. ground arith;
  swap = λ a b h. ground arith;
  swap_back = λ a b h. ground arith;
  transitive = λ a b c h k. ground arith;
}

-- Four contexts with the handles 4 to 7, and two names: the slots and the table of names are full.
abbrev crowded : HandleStorage ℕ
crowded = record {
  harbor = 0;
  handle_index = 8;
  slot_size = 4;
  slot = λ i. some (i + 10);
  name_cap = 2;
  name_count = 2;
  name = λ i. if i == 0 then record { name = 30; handle = 4 } else record { name = 50; handle = 5 };
  context_handle = λ c. c - 6;
}

crowded-IsSlots : IsSlots 2 0 crowded
crowded-IsSlots = record {
  size = refl;
  small = omega arith;
  own_harbor = refl;
  index = omega arith;
  home = λ i c p e.
      let this : i + 10 ≡ c = some-injective _ _ e in
      bit_and-low_ones 2 (c - 6) ∙ omega (arith, this);
}

crowded-IsTable : IsTable number_strcmp crowded
crowded-IsTable = record {
  sorted = λ i j p q. ground arith;
  fits = omega arith;
  some_cap = omega arith;
}

register_lem_example : Registered 0 crowded 5 (register 2 crowded 5)
register_lem_example =
    register_lem 5 crowded-IsSlots (λ i e. ground (arith, some-injective _ _ e)) (omega arith)
      (omega arith)

retire-grab_example :
    ((retire crowded 6).0 ≡ answer (grab crowded 6))
    × ((h : ℕ) → grab (retire crowded 6).1 h ≡ (if h == 6 then none else grab crowded h))
retire-grab_example = retire-grab crowded 6

insert_name_lem_example :
    NamesHandle number_strcmp-IsOrder crowded 40 7
      (insert_name number_strcmp crowded (λ i. record { name = 0; handle = 0 }) 40 7)
insert_name_lem_example =
    insert_name_lem number_strcmp-IsOrder crowded (λ i. record { name = 0; handle = 0 }) 40 7
      crowded-IsTable (inr (omega arith))

-- The search passes from the last handle to 1, and so skips the one free slot, that of the handles that
-- are multiples of the size; then a null context is asked for its handle.
abbrev wrapping : HandleStorage ℕ
wrapping = record crowded {
  handle_index = 16777215;
  slot = λ i. if i == 0 then none else some (i + 10);
}

wrapping_fails : register 2 wrapping 5 ≡ none
unfolding register grow rehash scan
wrapping_fails = refl

retire-entries_example :
    let s' = (retire crowded 5).1 in
    let before = entries crowded.name 0 crowded.name_count in
    entries s'.name 0 s'.name_count
    ≡ (if is_null (grab crowded 5) then before else without 5 before)
retire-entries_example = retire-entries crowded 5
