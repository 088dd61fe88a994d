-- ===== src/Timer/Calendar.antt =====
-- What linking a node, linking a list anew, and a tick of skynet_timer.c do to the calendar.
use skynet_notes.Prelude.{
  ℕ, ◌^◌, ◌≤◌, ◌<◌, ◌≡◌, refl, sym, ap, ◌∙◌, List, [], ◌∷◌, ◌++◌, append_assoc, append-nil, ◌==◌,
  ==_iff, Bool-cases, inl, inr,
}
use skynet_notes.Timer.{Node, Timer, same_place, cell, place, add_node, add_all}
use skynet_notes.Timer.Division.{left}
use skynet_notes.Timer.Wheel.{
  due, pending, Fits, All, Inv, due-append, All-append, same_place_iff, time-add_node,
  cell-add_node,
}

-- A node linked to its list waits for its time, behind those that waited for it before.
pub pending-add_node :
    (T : Timer) (n : Node) (e : ℕ) → pending (add_node T n) e ≡ pending T e ++ due e (n ∷ [])
pending-add_node T n e =
    let p = place T.time n.expire in
    let q = place T.time e in
    rw (time-add_node T n, cell-add_node T n q)
      (elim (Bool-cases (n.expire == e)) [
        | inl s ↦
            let same : q ≡ p = ap (place T.time) (sym ((==_iff n.expire e).0 s)) in
            rw ((same_place_iff q p).1 same) (due-append e (cell T q) (n ∷ []))
        | inr s ↦ rw s (elim (Bool-cases (same_place q p)) [
          | inl h ↦ rw h (due-append e (cell T q) (n ∷ []) ∙ rw s)
          | inr h ↦ rw (h, append-nil)
        ])
      ])

-- What a node must satisfy to be linked.
pub record IsTimely (lo time : ℕ) (n : Node) : Type 0 where
  pub width : n.expire < 2 ^ 32
  pub early : lo ≤ left time n.expire
  pub late : left time n.expire < 2 ^ 31

pub Inv-add_node :
    {lo : ℕ} {T : Timer} (n : Node) → Inv lo T → IsTimely lo T.time n → Inv lo (add_node T n)
Inv-add_node {lo} {T} n inv t = record {
  clock = rw (time-add_node T n) inv.clock;
  placed = λ q.
      let p = place T.time n.expire in
      rw (time-add_node T n, cell-add_node T n q)
        (elim (Bool-cases (same_place q p)) [
          | inl h ↦ rw h (
              All-append (Fits lo T.time q) (cell T q) (n ∷ []) (inv.placed q) (
                record {
                  width = t.width;
                  home = sym ((same_place_iff q p).0 h);
                  early = t.early;
                  late = t.late;
                },
                tt,
              ))
          | inr h ↦ rw h (inv.placed q)
        ]);
}

pub time-add_all : (T : Timer) (l : List Node) → (add_all T l).time ≡ T.time
unfolding add_all
time-add_all T [] = refl
time-add_all T (n ∷ l) = time-add_all (add_node T n) l ∙ time-add_node T n

pub pending-add_all :
    (T : Timer) (l : List Node) (e : ℕ) → pending (add_all T l) e ≡ pending T e ++ due e l
unfolding add_all
pending-add_all T [] e = sym (append-nil (pending T e))
pending-add_all T (n ∷ l) e =
    pending-add_all (add_node T n) l e
    ∙ ap (λ (m : List Node). m ++ due e l) (pending-add_node T n e)
    ∙ append_assoc (pending T e) (due e (n ∷ [])) (due e l)
    ∙ ap (λ (m : List Node). pending T e ++ m) (sym (due-append e (n ∷ []) l))

pub Inv-add_all :
    {lo : ℕ} (T : Timer) (l : List Node)
    → Inv lo T
    → All (IsTimely lo T.time) l
    → Inv lo (add_all T l)
unfolding add_all
Inv-add_all T [] inv a = inv
Inv-add_all {lo} T (n ∷ l) inv a =
    Inv-add_all (add_node T n) l (Inv-add_node n inv a.0) (rw (time-add_node T n) (a.1))
