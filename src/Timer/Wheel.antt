-- ===== src/Timer/Wheel.antt =====
-- The timer wheel of skynet_timer.c read as a calendar: for each expiry time, the nodes that wait for
-- it in the order of their arrival.
use skynet_notes.Prelude.{
  ℕ, ◌^◌, ◌≤◌, ◌<◌, ◌≡◌, ◌≢◌, ◌↔◌, refl, ◌∙◌, ◌⊎◌, true, false, List, [], ◌∷◌, ◌++◌, ◌==◌, ==_iff,
  if◌then◌else◌, Bool-cases, inl, inr, arith,
}
use skynet_notes.Timer.{
  Node, Place, near_at, level_at, Timer, same_place, cell, set_cell, place, add_node,
}
use skynet_notes.Timer.Division.{left}

-- The nodes of a list that expire at `e`, in order.
abbrev pub due : ℕ → List Node → List Node
due e [] = []
due e (n ∷ ns) = if n.expire == e then n ∷ due e ns else due e ns

-- The nodes that wait for the time `e`: those in the list where such a node belongs.
abbrev pub pending : Timer → ℕ → List Node
pending T e = due e (cell T (place T.time e))

-- A node that stands where it belongs and is at least `lo` and less than 2 ^ 31 ticks ahead.
pub record Fits (lo time : ℕ) (p : Place) (n : Node) : Type 0 where
  pub width : n.expire < 2 ^ 32
  pub home : place time n.expire ≡ p
  pub early : lo ≤ left time n.expire
  pub late : left time n.expire < 2 ^ 31

abbrev pub All : (Node → Type 0) → List Node → Type 0
All P [] = Unit {0}
All P (n ∷ ns) = P n × All P ns

pub record Inv (lo : ℕ) (T : Timer) : Type 0 where
  pub clock : T.time < 2 ^ 32
  pub placed : (p : Place) → All (Fits lo T.time p) (cell T p)

pub due-append : (e : ℕ) (l m : List Node) → due e (l ++ m) ≡ due e l ++ due e m
due-append e [] m = refl
due-append e (n ∷ l) m = ground (arith, due-append e l m)

pub All-append : (P : Node → Type 0) (l m : List Node) → All P l → All P m → All P (l ++ m)
All-append P [] m a b = b
All-append P (n ∷ l) m a b = (a.0, All-append P l m a.1 b)

pub All-map : (P Q : Node → Type 0) (l : List Node) → ((n : Node) → P n → Q n) → All P l → All Q l
All-map P Q [] f a = tt
All-map P Q (n ∷ l) f a = (f n a.0, All-map P Q l f a.1)

-- No node of a list expires at `e` if each satisfies something that none expiring at `e` does.
pub due-none :
    (P : Node → Type 0) (e : ℕ) (l : List Node)
    → ((n : Node) → P n → n.expire ≢ e)
    → All P l
    → due e l ≡ []
due-none P e [] f a = refl
due-none P e (n ∷ l) f a = elim (Bool-cases (n.expire == e)) [
  | inl s ↦ absurd (f n a.0 ((==_iff n.expire e).0 s))
  | inr s ↦ rw s (due-none P e l f a.1)
]

pub same_place_iff : (p q : Place) → (same_place p q ≡ true) ↔ (p ≡ q)
same_place_iff (near_at i) (near_at j) = ground (arith, ==_iff i j)
same_place_iff (near_at i) (level_at m j) = ground arith
same_place_iff (level_at l i) (near_at j) = ground arith
same_place_iff (level_at l i) (level_at m j) = ground (arith, ==_iff l m, ==_iff i j)

pub cell-set_cell :
    (T : Timer) (p q : Place) (l : List Node)
    → cell (set_cell T p l) q ≡ (if same_place q p then l else cell T q)
cell-set_cell T (near_at i) (near_at j) l = refl
cell-set_cell T (near_at i) (level_at m j) l = refl
cell-set_cell T (level_at k i) (near_at j) l = refl
cell-set_cell T (level_at k i) (level_at m j) l = refl

pub time-set_cell : (T : Timer) (p : Place) (l : List Node) → (set_cell T p l).time ≡ T.time
time-set_cell T (near_at i) l = refl
time-set_cell T (level_at m i) l = refl

pub cell-time : (T : Timer) (p : Place) (c : ℕ) → cell (record T { time = c }) p ≡ cell T p
cell-time T (near_at i) c = refl
cell-time T (level_at m i) c = refl

pub time-add_node : (T : Timer) (n : Node) → (add_node T n).time ≡ T.time
unfolding add_node
time-add_node T n = time-set_cell T (place T.time n.expire) _

pub cell-add_node :
    (T : Timer) (n : Node) (q : Place)
    → cell (add_node T n) q
      ≡ (if same_place q (place T.time n.expire) then cell T q ++ n ∷ [] else cell T q)
unfolding add_node
cell-add_node T n q =
    let p = place T.time n.expire in
    cell-set_cell T p q (cell T p ++ n ∷ []) ∙ here p (Bool-cases (same_place q p))
  where
    here :
        (p : Place)
        → (same_place q p ≡ true) ⊎ (same_place q p ≡ false)
        → (if same_place q p then cell T p ++ n ∷ [] else cell T q)
          ≡ (if same_place q p then cell T q ++ n ∷ [] else cell T q)
    here p (inl e) = let s : q ≡ p = (same_place_iff q p).0 e in rw s
    here p (inr e) = rw e
