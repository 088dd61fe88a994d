-- ===== src/Timer/Slot.antt =====
-- `timer_add` of skynet_timer.c on the calendar, and the list of the present tick.
use skynet_notes.Prelude.{
  ℕ, ◌+◌, ◌^◌, ◌≤◌, ◌<◌, ◌≡◌, ◌≢◌, refl, sym, ap, ◌∙◌, ◌↔◌, List, [], ◌∷◌, ◌++◌, ◌==◌, ==_iff,
  if◌then◌else◌, Bool-cases, inl, inr, arith, bit_and,
}
use skynet_notes.Prelude.Bits.{bit_and-low_ones}
use skynet_notes.Timer.{
  Node, Place, near_at, Timer, u32, same_place, cell, set_cell, place, timer_add,
}
use skynet_notes.Timer.Division.{left, place-eq-place_div}
use skynet_notes.Timer.Wheel.{
  due, pending, Fits, All, Inv, All-map, due-none, same_place_iff, cell-set_cell, time-add_node,
}
use skynet_notes.Timer.Calendar.{pending-add_node, Inv-add_node}

-- A time that `skynet_timeout` hands on: a positive `int`.
abbrev pub IsPositive : ℕ → Type 0
IsPositive time = (0 < time) × (time < 2 ^ 31)

abbrev pub node_of : ℕ → ℕ → ℕ → ℕ → Node
node_of now handle session time = record {
  expire = u32 (time + now);
  handle = handle;
  session = session;
}

pub left-add : (now time : ℕ) → now < 2 ^ 32 → time < 2 ^ 32 → left now (u32 (time + now)) ≡ time
left-add now time h k = ground arith

-- `timer_add` keeps the wheel in order and puts the node behind those of its expiry time, and behind
-- no others.
pub timer_add_lem :
    {lo : ℕ} {T : Timer} (handle session time : ℕ)
    → Inv lo T
    → lo ≤ 1
    → IsPositive time
    → let T' = timer_add T handle session time in
      Inv lo T'
      × (T'.time ≡ T.time)
      × ((e : ℕ) → pending T' e ≡ pending T e ++ due e (node_of T.time handle session time ∷ []))
unfolding timer_add
timer_add_lem {lo} {T} handle session time inv low pos =
    let node = node_of T.time handle session time in
    let ticks = left-add T.time time inv.clock (omega arith) in
    (
      Inv-add_node node inv
          (record { width = omega arith; early = omega arith; late = omega arith }),
      time-add_node T node,
      λ e. pending-add_node T node e,
    )

abbrev pub slot : Timer → Place
slot T = near_at (bit_and T.time 255)

-- The wheel with the list of the present tick taken out.
abbrev pub cleared : Timer → Timer
cleared T = set_cell T (slot T) []

-- What stands in the slot of the present time is what waits for it.
pub slot_iff : (c e : ℕ) → (place c e ≡ near_at (bit_and c 255)) ↔ (e ≡ c)
slot_iff c e = rw (place-eq-place_div c e, bit_and-low_ones 8 c) (ground arith)

due-All : (e : ℕ) (l : List Node) → All (λ n. n.expire ≡ e) l → due e l ≡ l
due-All e [] a = refl
due-All e (n ∷ l) a = rw ((==_iff n.expire e).1 a.0, due-All e l a.1)

module _ {lo : ℕ} {T : Timer} (inv : Inv lo T) where
  pub slot-pending : cell T (slot T) ≡ pending T T.time
  slot-pending =
      let all_now =
        All-map (Fits lo T.time (slot T)) (λ n. n.expire ≡ T.time) (cell T (slot T))
          (λ n f. (slot_iff T.time n.expire).0 f.home) (inv.placed (slot T)) in
      sym (due-All T.time (cell T (slot T)) all_now)
      ∙ ap (λ (p : Place). due T.time (cell T p)) (sym ((slot_iff T.time T.time).1 refl))

  pub cleared-Inv : Inv 1 (cleared T)
  cleared-Inv = record {
    clock = inv.clock;
    placed = λ q. rw (cell-set_cell T (slot T) q []) (elim (Bool-cases (same_place q (slot T))) [
      | inl h ↦ rw h tt
      | inr h ↦ rw h (
          All-map (Fits lo T.time q) (Fits 1 T.time q) (cell T q)
            (λ n f.
              let later : n.expire ≢ T.time = λ s.
                cc (
                  h,
                  (same_place_iff q (slot T)).1 (sym f.home ∙ (slot_iff T.time n.expire).1 s),
                ) in
              record {
                width = f.width;
                home = f.home;
                early = omega (arith, inv.clock, f.width);
                late = f.late;
              })
            (inv.placed q))
    ]);
  }

  pub pending-cleared : (e : ℕ) → pending (cleared T) e ≡ (if e == T.time then [] else pending T e)
  pending-cleared e =
      let p = place T.time e in
      rw (cell-set_cell T (slot T) p []) (elim (Bool-cases (e == T.time)) [
        | inl s ↦
            let home = (slot_iff T.time e).1 ((==_iff e T.time).0 s) in
            rw (s, (same_place_iff p (slot T)).1 home)
        | inr s ↦ rw s (elim (Bool-cases (same_place p (slot T))) [
          | inl h ↦
              let now = (slot_iff T.time e).0 ((same_place_iff p (slot T)).0 h) in
              cc (s, (==_iff e T.time).1 now)
          | inr h ↦ rw h
        ])
      ])

-- Nothing waits for a time that is not ahead.
pub pending-now : {T : Timer} → Inv 1 T → pending T T.time ≡ []
pending-now {T} inv =
    due-none (Fits 1 T.time (place T.time T.time)) T.time (cell T (place T.time T.time))
      (λ n f s. absurd (omega (arith, f.early, inv.clock))) (inv.placed (place T.time T.time))

pub weaken : {T : Timer} → Inv 1 T → Inv 0 T
weaken {T} inv = record {
  clock = inv.clock;
  placed = λ q.
      All-map (Fits 1 T.time q) (Fits 0 T.time q) (cell T q)
        (λ n f. record { width = f.width; home = f.home; early = omega arith; late = f.late })
        (inv.placed q);
}
