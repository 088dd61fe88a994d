-- ===== src/Timer/Tick.antt =====
-- A tick of skynet_timer.c loses, duplicates and reorders no waiting node.
use mathlib.Core.Path.{subst}
use native.Mathlib.Decide.{dec_lt}
use skynet_notes.Prelude.{
  ℕ, ◌+◌, ◌^◌, ◌<◌, ◌≡◌, ◌≢◌, refl, sym, ap, ◌∙◌, ◌⊎◌, Option, none, some, List, [], ◌++◌,
  append-nil, if◌then◌else◌, Bool-cases, inl, inr, arith,
}
use skynet_notes.Timer.{Node, Place, Timer, u32, same_place, cell, set_cell, place, timer_shift}
use skynet_notes.Timer.Division.{left, IsAhead, moved, place-stable}
use skynet_notes.Timer.Shift.{relink, timer_shift-relink}
use skynet_notes.Timer.Wheel.{
  due, pending, Fits, All, Inv, All-map, due-none, same_place_iff, cell-set_cell, time-set_cell,
  cell-time,
}
use skynet_notes.Timer.Calendar.{IsTimely, time-add_all, pending-add_all, Inv-add_all}

-- A time that a node can wait for.
abbrev Awaited : ℕ → ℕ → Type 0
Awaited c e = (e < 2 ^ 32) × IsAhead c e

Awaited-or_not : (c e : ℕ) → Awaited c e ⊎ ¬ Awaited c e
Awaited-or_not c e = elim (dec_lt e (2 ^ 32)) [
  | no a ↦ inr (λ h. a h.0)
  | yes a ↦ elim (dec_lt 0 (left c e)) [
    | no b ↦ inr (λ h. b h.1.0)
    | yes b ↦ elim (dec_lt (left c e) (2 ^ 31)) [
      | no d ↦ inr (λ h. d h.1.1)
      | yes d ↦ inl (a, (b, d))
    ]
  ]
]

left-tick : (c e : ℕ) → c < 2 ^ 32 → e < 2 ^ 32 → 0 < left c e → left (u32 (c + 1)) e + 1 ≡ left c e
left-tick c e hc he h = ground arith

module _ {T : Timer} (inv : Inv 1 T) where
  due_unawaited : (e : ℕ) (q : Place) → ¬ Awaited T.time e → due e (cell T q) ≡ []
  due_unawaited e q h =
      due-none (Fits 1 T.time q) e (cell T q)
        (λ n f s. h (subst (Awaited T.time) s (f.width, (f.early, f.late)))) (inv.placed q)

  due_elsewhere : (e : ℕ) (q : Place) → q ≢ place T.time e → due e (cell T q) ≡ []
  due_elsewhere e q h =
      due-none (Fits 1 T.time q) e (cell T q) (λ n f s. h (sym f.home ∙ ap (place T.time) s))
        (inv.placed q)

  -- Nodes of a list that is not moved stay where they belong.
  stays :
      (q : Place) → moved (u32 (T.time + 1)) ≢ some q → All (Fits 0 (u32 (T.time + 1)) q) (cell T q)
  stays q h =
      All-map (Fits 1 T.time q) (Fits 0 (u32 (T.time + 1)) q) (cell T q)
        (λ n f.
          let tick = left-tick T.time n.expire inv.clock f.width f.early in
          record {
            width = f.width;
            home =
                place-stable T.time n.expire inv.clock f.width (f.early, f.late)
                  (λ m. h (m ∙ ap some f.home))
                ∙ f.home;
            early = omega arith;
            late = omega (arith, f.late);
          })
        (inv.placed q)

  leaves : (q : Place) → All (IsTimely 0 (u32 (T.time + 1))) (cell T q)
  leaves q =
      All-map (Fits 1 T.time q) (IsTimely 0 (u32 (T.time + 1))) (cell T q)
        (λ n f.
          let tick = left-tick T.time n.expire inv.clock f.width f.early in
          record { width = f.width; early = omega arith; late = omega (arith, f.late) })
        (inv.placed q)

  -- The wheel at the new time with the list `p` taken out.
  abbrev emptied : Place → Timer
  emptied p = set_cell (record T { time = u32 (T.time + 1) }) p []

  cell-emptied : (p q : Place) → cell (emptied p) q ≡ (if same_place q p then [] else cell T q)
  cell-emptied p q =
      let c = u32 (T.time + 1) in
      cell-set_cell (record T { time = c }) p q [] ∙ rw (cell-time T q c)

  time-emptied : (p : Place) → (emptied p).time ≡ u32 (T.time + 1)
  time-emptied p = time-set_cell (record T { time = u32 (T.time + 1) }) p []

  module _ (p : Place) (m : moved (u32 (T.time + 1)) ≡ some p) where
    emptied-Inv : Inv 0 (emptied p)
    emptied-Inv = record {
      clock = rw (time-emptied p) (omega arith);
      placed = λ q.
          rw (time-emptied p, cell-emptied p q)
            (elim (Bool-cases (same_place q p)) [
              | inl h ↦ rw h tt
              | inr h ↦
                  let apart : moved (u32 (T.time + 1)) ≢ some q =
                    λ e. let s : q ≡ p = cc (e, m) in cc (h, (same_place_iff q p).1 s) in
                  rw h (stays q apart)
            ]);
    }

    abbrev kept : Place → List Node
    kept q = if same_place q p then [] else cell T q

    unawaited : (e : ℕ) (q : Place) → ¬ Awaited T.time e → due e (kept q) ≡ []
    unawaited e q h = elim (Bool-cases (same_place q p)) [
      | inl k ↦ rw k
      | inr k ↦ rw k (due_unawaited e q h)
    ]

    taken : (e : ℕ) (q : Place) → place T.time e ≡ p → due e (kept q) ≡ []
    taken e q h = elim (Bool-cases (same_place q p)) [
      | inl k ↦ rw k
      | inr k ↦ rw k (due_elsewhere e q (λ s. cc (k, (same_place_iff q p).1 (s ∙ h))))
    ]

    untouched :
        (e : ℕ)
        → Awaited T.time e
        → place T.time e ≢ p
        → kept (place (u32 (T.time + 1)) e) ≡ cell T (place T.time e)
    untouched e h apart =
        let same =
          place-stable T.time e inv.clock h.0 h.1
            (λ k. apart (let s : p ≡ place T.time e = cc (k, m) in sym s)) in
        rw same (elim (Bool-cases (same_place (place T.time e) p)) [
          | inl k ↦ absurd (apart ((same_place_iff (place T.time e) p).0 k))
          | inr k ↦ rw k
        ])

    -- The nodes left and the nodes moved make up those that waited.
    pending-emptied : (e : ℕ) → pending (emptied p) e ++ due e (cell T p) ≡ pending T e
    pending-emptied e =
        let q = place (u32 (T.time + 1)) e in
        rw (time-emptied p, cell-emptied p q)
          (elim (Awaited-or_not T.time e) [
            | inr no_one ↦ rw (
              unawaited e q no_one,
              due_unawaited e p no_one,
              due_unawaited e (place T.time e) no_one,
            )
            | inl h ↦ elim (Bool-cases (same_place (place T.time e) p)) [
              | inl k ↦ let s = (same_place_iff (place T.time e) p).0 k in rw (taken e q s, s)
              | inr k ↦
                  let apart : place T.time e ≢ p =
                    λ s. cc (k, (same_place_iff (place T.time e) p).1 s) in
                  rw (untouched e h apart, due_elsewhere e p (λ s. apart (sym s)), append-nil)
            ]
          ])

  relink-tick :
      (o : Option Place)
      → moved (u32 (T.time + 1)) ≡ o
      → let T' = relink o T (u32 (T.time + 1)) in
        (T'.time ≡ u32 (T.time + 1)) × Inv 0 T' × ((e : ℕ) → pending T' e ≡ pending T e)
  relink-tick none m =
      let c = u32 (T.time + 1) in
      (
        refl,
        record {
          clock = omega arith;
          placed = λ q. rw (cell-time T q c) (stays q (λ e. cc (e, m)));
        },
        λ e. rw (cell-time T (place c e) c) (elim (Awaited-or_not T.time e) [
          | inr no_one ↦
              rw (due_unawaited e (place c e) no_one, due_unawaited e (place T.time e) no_one)
          | inl h ↦ rw (place-stable T.time e inv.clock h.0 h.1 (λ k. cc (k, m)))
        ]),
      )
  relink-tick (some p) m = (
    time-add_all (emptied p) (cell T p) ∙ time-emptied p,
    Inv-add_all (emptied p) (cell T p) (emptied-Inv p m) (rw (time-emptied p) (leaves p)),
    λ e. pending-add_all (emptied p) (cell T p) e ∙ pending-emptied p m e,
  )

-- From a wheel where every node is at least one tick ahead, `timer_shift` goes to the next tick, keeps
-- every node in the list where it belongs, and keeps for each expiry time the nodes that wait for it,
-- in their order.
pub timer_shift_lem :
    {T : Timer}
    → Inv 1 T
    → let T' = timer_shift T in
      (T'.time ≡ u32 (T.time + 1)) × Inv 0 T' × ((e : ℕ) → pending T' e ≡ pending T e)
timer_shift_lem {T} inv =
    rw (timer_shift-relink T) (relink-tick inv (moved (u32 (T.time + 1))) refl)
