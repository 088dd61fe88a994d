-- ===== src/Handle/Enter.antt =====
-- `skynet_handle_register` of skynet_handle.c as a whole: with a free slot, or after the array has grown.
use mathlib.Core.Option.{some-injective}
use native.Mathlib.Nat.{mod-lt}
use skynet_notes.Prelude.{
  ℕ, suc, ◌+◌, ◌-◌, ◌*◌, ◌%◌, ◌^◌, ◌≤◌, ◌<◌, ◌≡◌, ◌≢◌, refl, sym, ap, ◌∙◌, inl, inr, true, false,
  Option, none, some, leb, ◌==◌, ==_iff, if◌then◌else◌, Bool-cases, arith, bit_and, bit_or,
}
use skynet_notes.Handle.{HandleStorage, grab, grow, handle_mask, scan, register, set_handle}
use skynet_notes.Handle.Slots.{option_cases, grab-null, grab-slot}
use skynet_notes.Handle.Register.{IsSlots, IsNew, Scanned, free, full, scan-Scanned, take_slot-grab}
use skynet_notes.Prelude.Bits.{bit_and-low_ones, two_pow_pos}
use skynet_notes.Handle.Grow.{reach, low, wide, double, low-wide, keep, Rehashed, rehash-Rehashed}

module _ {A : Type 0} {k harbor : ℕ} {s : HandleStorage A} (v : IsSlots k harbor s) where
  -- Without a free slot in the search, every slot is in use.
  all_full :
      (handle : ℕ)
      → ((j : ℕ) → j < s.slot_size → s.slot (bit_and (handle + j) (s.slot_size - 1)) ≢ none)
      → (i : ℕ) → i < s.slot_size
      → s.slot i ≢ none
  all_full handle f i p =
      let (j, q, there) = reach handle i s.slot_size p in
      let here : low v (handle + j) ≡ i =
        ap (λ x. bit_and (handle + j) (x - 1)) v.size
        ∙ bit_and-low_ones k (handle + j)
        ∙ ap (λ x. (handle + j) % x) (sym v.size)
        ∙ there in
      λ e. f j q (ap s.slot here ∙ e)

  module _ (new_slot : ℕ → Option ℕ) (r : Rehashed v s.slot_size new_slot)
      (all : (i : ℕ) → i < s.slot_size → s.slot i ≢ none) where
    abbrev grown : HandleStorage A
    grown = record s { slot = new_slot; slot_size = s.slot_size * 2 }

    low_bound : (x : ℕ) → low v x < s.slot_size
    low_bound x =
        let size = ap (λ y. bit_and x (y - 1)) v.size ∙ bit_and-low_ones k x in
        omega (arith, size, v.size, two_pow_pos k, mod-lt x (two_pow_pos k))

    grown-slot : (x : ℕ) → new_slot x ≡ keep v (s.slot (low v x)) x
    grown-slot x = r.done x (low_bound x)

    -- Every handle finds in the new array what it found in the old one.
    grab-grown : (h : ℕ) → grab grown h ≡ grab s h
    grab-grown h = elim (option_cases (s.slot (low v h))) [
      | inl e ↦ absurd (all (low v h) (low_bound h) e)
      | inr (c, e) ↦
          let old : s.slot (low v (wide v h)) ≡ some c = ap s.slot (low-wide v h) ∙ e in
          elim (Bool-cases (wide v (s.context_handle c) == wide v h)) [
            | inl t ↦
                let new : new_slot (wide v h) ≡ some c = grown-slot (wide v h) ∙ rw (old, t) refl in
                grab-slot grown h c new ∙ sym (grab-slot s h c e)
            | inr t ↦
                let new : new_slot (wide v h) ≡ none = grown-slot (wide v h) ∙ rw (old, t) refl in
                let foreign : (s.context_handle c == h) ≡ false =
                  elim (Bool-cases (s.context_handle c == h)) [
                    | inr u ↦ u
                    | inl u ↦
                        let same = ap (wide v) ((==_iff (s.context_handle c) h).0 u) in
                        cc (t, (==_iff _ _).1 same)
                  ] in
                grab-null grown h new ∙ sym (grab-slot s h c e ∙ rw foreign refl)
          ]
    ]

    -- A context of the new array has the slot of its handle, and stood in the old array.
    from_old :
        (i c : ℕ)
        → new_slot i ≡ some c
        → (s.slot (low v i) ≡ some c) × (wide v (s.context_handle c) ≡ i)
    from_old i c e = elim (option_cases (s.slot (low v i))) [
      | inl o ↦ absurd (all (low v i) (low_bound i) o)
      | inr (d, o) ↦ elim (Bool-cases (wide v (s.context_handle d) == i)) [
        | inl t ↦
            let this : d ≡ c = some-injective _ _ (sym (grown-slot i ∙ rw (o, t) refl) ∙ e) in
            (o ∙ ap some this, ap (λ x. wide v (s.context_handle x)) (sym this) ∙ (==_iff _ _).0 t)
        | inr t ↦
            let nothing : new_slot i ≡ none = grown-slot i ∙ rw (o, t) refl in
            ground (arith, nothing, e)
      ]
    ]

    grown-IsSlots : k < 24 → IsSlots (k + 1) harbor grown
    grown-IsSlots h = record {
      size = double v;
      small = omega arith;
      own_harbor = v.own_harbor;
      index = v.index;
      home = λ i c p e. (from_old i c e).1;
    }

    grown-IsNew : (ctx : ℕ) → IsNew s ctx → IsNew grown ctx
    grown-IsNew ctx new i e = new (low v i) (from_old i ctx e).0

    -- The new array has a free slot: the first slots of its halves hold at most one context.
    grown-free : ¬ ((i : ℕ) → i < grown.slot_size → grown.slot i ≢ none)
    grown-free f =
        let m = s.slot_size in
        let zero_low : low v 0 ≡ 0 =
          ap (λ y. bit_and 0 (y - 1)) v.size
          ∙ bit_and-low_ones k 0
          ∙ grind (arith, two_pow_pos k) in
        let half_low : low v m ≡ 0 =
          ap (λ y. bit_and y (y - 1)) v.size
          ∙ bit_and-low_ones k (2 ^ k)
          ∙ grind (arith, two_pow_pos k) in
        let positive : 0 < m = omega (arith, v.size, two_pow_pos k) in
        elim (option_cases (new_slot 0)) [
          | inl e ↦ f 0 (omega arith) e
          | inr (c, e) ↦ elim (option_cases (new_slot m)) [
            | inl e' ↦ f m (omega arith) e'
            | inr (d, e') ↦
                let (in₀, at₀) = from_old 0 c e in
                let (in₁, at₁) = from_old m d e' in
                let same : c ≡ d =
                  some-injective _ _ (sym in₀ ∙ ap s.slot (zero_low ∙ sym half_low) ∙ in₁) in
                let clash : 0 ≡ m = sym at₀ ∙ ap (λ x. wide v (s.context_handle x)) same ∙ at₁ in
                absurd (omega arith)
          ]
        ]

-- What `skynet_handle_register` achieves for a context that is new to the table, once the caller has
-- stored the handle in it.
pub data Registered {A : Type 0} (harbor : ℕ) (s : HandleStorage A) (ctx : ℕ)
    : Option (ℕ × HandleStorage A) → Type 0 where
  registered :
      (h k : ℕ) (s' : HandleStorage A)
      → grab s h ≡ none
      → ((other : ℕ)
          → grab (set_handle s' ctx h) other ≡ (if other == h then some ctx else grab s other))
      → IsSlots k harbor (set_handle s' ctx h)
      → Registered harbor s ctx (some (h, s'))

module _ {A : Type 0} where
  found_free :
      {k harbor : ℕ} {s : HandleStorage A} (fuel ctx : ℕ)
      → IsSlots k harbor s
      → IsNew s ctx
      → (h : ℕ) → h < 2 ^ 24
      → s.slot (bit_and h (s.slot_size - 1)) ≡ none
      → scan s.slot_size s s.handle_index ≡ some h
      → Registered harbor s ctx (register (suc fuel) s ctx)
  unfolding register
  found_free {k} {harbor} {s} fuel ctx v new h p e found =
      let (fresh, finds, slots) = take_slot-grab ctx h v new p e in
      rw found (registered (bit_or h s.harbor) k _ fresh finds slots)

  same_table :
      {harbor ctx : ℕ} {s t : HandleStorage A} {o : Option (ℕ × HandleStorage A)}
      → ((h : ℕ) → grab t h ≡ grab s h)
      → Registered harbor t ctx o
      → Registered harbor s ctx o
  same_table {ctx = ctx} same (registered h k s' fresh finds slots) =
      registered h k s' (sym (same h) ∙ fresh)
        (λ other. finds other ∙ ap (λ x. if other == h then some ctx else x) (same other)) slots

  module _ {k harbor : ℕ} {s : HandleStorage A} (ctx : ℕ) (v : IsSlots k harbor s)
      (new : IsNew s ctx) (room : k < 24) (near : s.handle_index + s.slot_size * 2 ≤ 2 ^ 24) where
    small_enough : s.slot_size * 2 ≤ 2 ^ 24
    small_enough = omega (arith, near)

    first_round :
        (o : Option ℕ)
        → Scanned s s.slot_size s.handle_index o
        → scan s.slot_size s s.handle_index ≡ o
        → Registered harbor s ctx (register 2 s ctx)
    unfolding register grow
    first_round _ (free h p q e) found = found_free 1 ctx v new h (omega (arith, near)) e found
    first_round _ (full f) found =
        let all = all_full v s.handle_index f in
        let (new_slot, made, r) =
          rehash-Rehashed v s.slot_size (λ i. none) 0 (omega arith) all
            (record { done = λ x p. absurd (omega arith); rest = λ x p. refl }) in
        let t = record s { slot = new_slot; slot_size = s.slot_size * 2 } in
        let v' = grown-IsSlots v new_slot r all room in
        let allowed : leb (s.slot_size * 2 - 1) handle_mask ≡ true = ground (arith, near) in
        rw (found, allowed, made)
          (same_table (grab-grown v new_slot r all) (
            second_round t v' (grown-IsNew v new_slot r all ctx new) near
              (grown-free v new_slot r all) (scan t.slot_size t t.handle_index)
              (scan-Scanned t.slot_size t t.handle_index near) refl))
      where
        second_round :
            (t : HandleStorage A)
            → IsSlots (k + 1) harbor t
            → IsNew t ctx
            → t.handle_index + t.slot_size ≤ 2 ^ 24
            → ¬ ((i : ℕ) → i < t.slot_size → t.slot i ≢ none)
            → (o : Option ℕ) → Scanned t t.slot_size t.handle_index o
            → scan t.slot_size t t.handle_index ≡ o
            → Registered harbor t ctx (register 1 t ctx)
        second_round t v' new' last free_slot _ (free h p q e) found =
            found_free 0 ctx v' new' h (omega (arith, last)) e found
        second_round t v' new' last free_slot _ (full f) found =
            absurd (free_slot (all_full v' t.handle_index f))

    -- Two rounds of the outer loop are enough: if the array can double (k < 24) and the search does not
    -- reach the end of the handles, then a context that is new to the table gets a handle that found no
    -- context before, finds the context from then on, and leaves what every other handle finds; the
    -- array is in order again.
    pub register_lem : Registered harbor s ctx (register 2 s ctx)
    register_lem =
        first_round (scan s.slot_size s s.handle_index)
          (scan-Scanned s.slot_size s s.handle_index (omega (arith, near))) refl
