-- ===== src/Handle/Register.antt =====
-- `skynet_handle_register` of skynet_handle.c: the search for a free slot.
use native.Mathlib.Nat.{pow-suc, add-mul-mod_self_right}
use mathlib.Core.Option.{some-injective}
use skynet_notes.Prelude.{
  ℕ, zero, suc, ◌+◌, ◌-◌, ◌*◌, ◌%◌, ◌^◌, ◌≤◌, ◌<◌, ◌≡◌, ◌≢◌, refl, sym, ap, ◌∙◌, inl, inr, true,
  false, Option, none, some, ltb, ◌==◌, ==_iff, if◌then◌else◌, Bool-cases, arith, bit_and, bit_or,
}
use skynet_notes.Handle.{HandleStorage, grab, handle_mask, scan, take_slot, set_handle}
use skynet_notes.Handle.Slots.{option_cases, grab-null, grab-slot}
use skynet_notes.Prelude.Bits.{bit_and-low_ones, bit_or-disjoint}

-- The array of slots in order: 2 ^ k of them, each context in the slot of its handle's low bits.
pub record IsSlots {A : Type 0} (k harbor : ℕ) (s : HandleStorage A) : Type 0 where
  pub size : s.slot_size ≡ 2 ^ k
  pub small : k ≤ 24
  pub own_harbor : s.harbor ≡ harbor * 2 ^ 24
  pub index : 0 < s.handle_index
  pub home :
      (i c : ℕ)
      → i < s.slot_size
      → s.slot i ≡ some c
      → bit_and (s.context_handle c) (s.slot_size - 1) ≡ i

pub pow_split : (a b : ℕ) → 2 ^ (a + b) ≡ 2 ^ a * 2 ^ b
pow_split a zero = let same : a + 0 ≡ a = omega arith in rw same (omega arith)
pow_split a (suc b) = grind (arith, pow_split a b, pow-suc 2 b, pow-suc 2 (a + b))

low_bits : (k r h : ℕ) → k ≤ 24 → (h + r * 2 ^ 24) % 2 ^ k ≡ h % 2 ^ k
low_bits k r h p =
    let exponent : 24 - k + k ≡ 24 = omega arith in
    let split : 2 ^ 24 ≡ 2 ^ (24 - k) * 2 ^ k =
      ap (λ x. 2 ^ x) (sym exponent) ∙ pow_split (24 - k) k in
    ap (λ x. (h + r * x) % 2 ^ k) split
    ∙ grind (arith, add-mul-mod_self_right h (r * 2 ^ (24 - k)) (2 ^ k))

module _ {A : Type 0} where
  -- What the loop over the slots ends with.
  pub data Scanned (s : HandleStorage A) (n handle : ℕ) : Option ℕ → Type 0 where
    free :
        (h : ℕ)
        → handle ≤ h
        → h < handle + n
        → s.slot (bit_and h (s.slot_size - 1)) ≡ none
        → Scanned s n handle (some h)
    full :
        ((j : ℕ) → j < n → s.slot (bit_and (handle + j) (s.slot_size - 1)) ≢ none)
        → Scanned s n handle none

  pub scan-Scanned :
      (n : ℕ) (s : HandleStorage A) (handle : ℕ)
      → handle + n ≤ 2 ^ 24
      → Scanned s n handle (scan n s handle)
  unfolding scan
  scan-Scanned zero s handle h = full (λ j p. absurd (omega arith))
  scan-Scanned (suc n) s handle h =
      let low : ltb handle_mask handle ≡ false = ground arith in
      rw low (elim (option_cases (s.slot (bit_and handle (s.slot_size - 1)))) [
        | inl e ↦ rw e (free handle (omega arith) (omega arith) e)
        | inr (c, e) ↦
            rw e (later (λ q. ground (arith, e, q)) (scan-Scanned n s (handle + 1) (omega arith)))
      ])
    where
      later :
          {r : Option ℕ}
          → s.slot (bit_and handle (s.slot_size - 1)) ≢ none
          → Scanned s n (handle + 1) r
          → Scanned s (suc n) handle r
      later ne (free h p q e) = free h (omega arith) (omega arith) e
      later ne (full f) = full (λ j p. elim (Bool-cases (j == 0)) [
        | inl q ↦
            let first : handle + j ≡ handle = ground (arith, ==_iff j 0) in
            λ e. ne (ap (λ x. s.slot (bit_and x (s.slot_size - 1))) (sym first) ∙ e)
        | inr q ↦
            let next : handle + 1 + (j - 1) ≡ handle + j = ground (arith, ==_iff j 0) in
            λ e.
              f (j - 1) (ground (arith, ==_iff j 0))
                (ap (λ x. s.slot (bit_and x (s.slot_size - 1))) next ∙ e)
      ])

  -- A handle with the harbor's bits has the slot of the handle itself.
  slot_of :
      {k harbor : ℕ} {s : HandleStorage A} (h : ℕ)
      → IsSlots k harbor s
      → h < 2 ^ 24
      → bit_and (bit_or h s.harbor) (s.slot_size - 1) ≡ bit_and h (s.slot_size - 1)
  slot_of {k} {harbor} {s} h v p =
      rw
        (
          v.size,
          v.own_harbor,
          bit_or-disjoint 24 h harbor p,
          bit_and-low_ones k h,
          bit_and-low_ones k (h + harbor * 2 ^ 24),
        )
        (low_bits k harbor h v.small)

  -- No slot holds the context.
  abbrev pub IsNew : HandleStorage A → ℕ → Type 0
  IsNew s ctx = (i : ℕ) → s.slot i ≢ some ctx

  -- The storage with the context in a free slot, as the handles see it.
  module _ {k harbor : ℕ} {s : HandleStorage A} (ctx h : ℕ) (v : IsSlots k harbor s)
      (new : IsNew s ctx) (p : h < 2 ^ 24) (e : s.slot (bit_and h (s.slot_size - 1)) ≡ none) where
    abbrev entered : HandleStorage A
    entered = set_handle (take_slot s ctx h).1 ctx (bit_or h s.harbor)

    grab-same_slot :
        (other : ℕ)
        → (bit_and other (s.slot_size - 1) == bit_and h (s.slot_size - 1)) ≡ true
        → grab entered other ≡ (if other == bit_or h s.harbor then some ctx else grab s other)
    grab-same_slot other q =
        let slot : entered.slot (bit_and other (s.slot_size - 1)) ≡ some ctx = rw q refl in
        let own : entered.context_handle ctx ≡ bit_or h s.harbor =
          rw ((==_iff ctx ctx).1 refl) refl in
        let before : grab s other ≡ none = grab-null s other (ap s.slot ((==_iff _ _).0 q) ∙ e) in
        grab-slot entered other ctx slot
        ∙ ap (λ x. if x == other then some ctx else none) own
        ∙ elim (Bool-cases (other == bit_or h s.harbor)) [
          | inl t ↦
              rw
                (
                  t,
                  (==_iff (bit_or h s.harbor) other).1
                      (sym ((==_iff other (bit_or h s.harbor)).0 t)),
                )
                refl
          | inr t ↦
              let back : (bit_or h s.harbor == other) ≡ false =
                ground
                  (arith, ==_iff (bit_or h s.harbor) other, ==_iff other (bit_or h s.harbor)) in
              rw (t, back) (sym before)
        ]

    grab-other_slot :
        (other : ℕ)
        → (bit_and other (s.slot_size - 1) == bit_and h (s.slot_size - 1)) ≡ false
        → grab entered other ≡ (if other == bit_or h s.harbor then some ctx else grab s other)
    grab-other_slot other q =
        let foreign : (other == bit_or h s.harbor) ≡ false =
          elim (Bool-cases (other == bit_or h s.harbor)) [
            | inr t ↦ t
            | inl t ↦
                let same =
                  ap (λ x. bit_and x (s.slot_size - 1)) ((==_iff other (bit_or h s.harbor)).0 t)
                  ∙ slot_of h v p in
                cc (q, (==_iff _ _).1 same)
          ] in
        rw foreign (elim (option_cases (s.slot (bit_and other (s.slot_size - 1)))) [
          | inl n ↦ grab-null entered other (rw q n) ∙ sym (grab-null s other n)
          | inr (c, n) ↦
              let old : (c == ctx) ≡ false = elim (Bool-cases (c == ctx)) [
                | inr t ↦ t
                | inl t ↦
                    absurd
                      (new (bit_and other (s.slot_size - 1)) (n ∙ ap some ((==_iff c ctx).0 t)))
              ] in
              grab-slot entered other c (rw q n) ∙ rw old (sym (grab-slot s other c n))
        ])

    entered-home :
        (i c : ℕ)
        → i < s.slot_size
        → entered.slot i ≡ some c
        → bit_and (entered.context_handle c) (s.slot_size - 1) ≡ i
    entered-home i c q = elim (Bool-cases (i == bit_and h (s.slot_size - 1))) [
      | inl t ↦ rw t (λ same.
          let this : ctx ≡ c = some-injective _ _ same in
          rw ((==_iff c ctx).1 (sym this)) (slot_of h v p ∙ sym ((==_iff _ _).0 t)))
      | inr t ↦ rw t (λ same. elim (Bool-cases (c == ctx)) [
        | inl u ↦ absurd (new i (same ∙ ap some ((==_iff c ctx).0 u)))
        | inr u ↦ rw u (v.home i c q same)
      ])
    ]

  -- What the table finds once the context stands in a free slot and has its handle.
  pub take_slot-grab :
      {k harbor : ℕ} {s : HandleStorage A} (ctx h : ℕ)
      → IsSlots k harbor s
      → IsNew s ctx
      → h < 2 ^ 24
      → s.slot (bit_and h (s.slot_size - 1)) ≡ none
      → let r = take_slot s ctx h in
        let s' = set_handle r.1 ctx r.0 in
        (grab s r.0 ≡ none)
        × ((other : ℕ) → grab s' other ≡ (if other == r.0 then some ctx else grab s other))
        × IsSlots k harbor s'
  take_slot-grab {k} {harbor} {s} ctx h v new p e =
      let same = slot_of h v p in
      (
        grab-null s (bit_or h s.harbor) (ap s.slot same ∙ e),
        λ other.
            elim (Bool-cases (bit_and other (s.slot_size - 1) == bit_and h (s.slot_size - 1))) [
              | inl q ↦ grab-same_slot ctx h v new p e other q
              | inr q ↦ grab-other_slot ctx h v new p e other q
            ],
        record {
          size = v.size;
          small = v.small;
          own_harbor = v.own_harbor;
          index = omega arith;
          home = entered-home ctx h v new p e;
        },
      )
