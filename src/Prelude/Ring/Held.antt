-- ===== src/Prelude/Ring/Held.antt =====
-- What a ring of C holds: the elements from its head on, with one slot at least left free.
use native.Mathlib.Nat.{mod-lt, mod-eq_of_lt, mod_self, mod-mod, mod-add-mod, zero-add, add-zero}
use Prim.Native.Nat.{ℕ, suc, ◌+◌, ◌%◌, ◌<◌}
use mathlib.Core.Path.{◌≡◌, refl, ap, ◌∙◌, sym}
use mathlib.Core.Logic.{◌≢◌, inl, inr}
use mathlib.Core.Option.{Option, none, some}
use mathlib.Core.List.{List, [], ◌∷◌, ◌++◌, map}
use native.Mathlib.Omega.{arith}
use skynet_notes.Prelude.{
  length, get_or, set, length-append, length-set, length-replicate, replicate, leb, Bool-cases,
  if◌then◌else◌,
}
use skynet_notes.Prelude.Ring.{copy, full_iff, copy-congr, length-copy, copy-set, copy-stored}

-- The slots from `head` on hold the elements `ms`, and `tail` is the slot behind them.
pub record Held {A : Type 0} (slots : List (Option A)) (cap head tail : ℕ) (ms : List A)
    : Type 0 where
  pub sized : length slots ≡ cap
  pub head_in : head < cap
  pub room : length ms < cap
  pub window : copy slots cap head (length ms) ≡ map some ms
  pub tail_at : (head + length ms) % cap ≡ tail

-- `if (++i >= cap) i = 0;`
abbrev pub step : ℕ → ℕ → ℕ
step cap i = if leb cap (i + 1) then 0 else i + 1

pub step_lem : (i c : ℕ) → i < c → step c i ≡ (i + 1) % c
step_lem i c h = elim (Bool-cases (leb c (i + 1))) [
  | inl e ↦ rw e (let same : i + 1 ≡ c = ground arith in rw same (sym (mod_self c)))
  | inr e ↦ rw e (sym (mod-eq_of_lt (ground arith)))
]

module _ {A : Type 0} where
  map-snoc : (ms : List A) (m : A) → map some (ms ++ m ∷ []) ≡ map some ms ++ some m ∷ []
  map-snoc [] m = refl
  map-snoc (x ∷ ms) m = ap (λ (r : List (Option A)). some x ∷ r) (map-snoc ms m)

  pub length-snoc : (ms : List A) (m : A) → length (ms ++ m ∷ []) ≡ suc (length ms)
  length-snoc ms m = omega (arith, length-append ms (m ∷ []))

  pub tail_in : {slots : List (Option A)} {c h t : ℕ} {ms : List A} → Held slots c h t ms → t < c
  tail_in v = rw (← v.tail_at) (mod-lt _ (omega (arith, v.head_in)))

  stored-window :
      {slots : List (Option A)} {c h t : ℕ} {ms : List A} (m : A)
      → Held slots c h t ms
      → copy (set slots t (some m)) c h (length (ms ++ m ∷ [])) ≡ map some (ms ++ m ∷ [])
  stored-window {slots} {c} {h} {t} {ms} m v =
      rw (length-snoc ms m, map-snoc ms m, ← v.window)
        (copy-set slots (some m) c h (length ms) t v.sized v.room v.tail_at)

  stored-tail :
      {slots : List (Option A)} {c h t : ℕ} {ms : List A} (m : A)
      → Held slots c h t ms
      → (h + length (ms ++ m ∷ [])) % c ≡ step c t
  stored-tail {slots} {c} {h} {t} {ms} m v =
      rw (length-snoc ms m, step_lem t c (tail_in v), ← v.tail_at)
        (ap (λ (k : ℕ). k % c) (omega arith) ∙ sym (mod-add-mod (h + length ms) c 1))

  -- The ring is full when the tail comes to the head.
  pub full :
      {slots : List (Option A)} {c h t : ℕ} {ms : List A} (m : A)
      → Held slots c h t ms
      → h ≡ step c t
      → length (ms ++ m ∷ []) ≡ c
  full {slots} {c} {h} {t} {ms} m v e =
      length-snoc ms m
      ∙ (full_iff h (length ms) c v.head_in v.room).0
          (ap (λ (k : ℕ). (h + k) % c) (sym (length-snoc ms m)) ∙ stored-tail m v ∙ sym e)

  pub store-Held :
      {slots : List (Option A)} {c h t : ℕ} {ms : List A} (m : A)
      → Held slots c h t ms
      → h ≢ step c t
      → Held (set slots t (some m)) c h (step c t) (ms ++ m ∷ [])
  store-Held {slots} {c} {h} {t} {ms} m v n =
      let turn : (h + suc (length ms)) % c ≡ step c t =
        ap (λ (k : ℕ). (h + k) % c) (sym (length-snoc ms m)) ∙ stored-tail m v in
      let apart : suc (length ms) ≢ c =
        λ e. n (sym ((full_iff h (length ms) c v.head_in v.room).1 e) ∙ turn) in
      record {
        sized = length-set slots t (some m) ∙ v.sized;
        head_in = v.head_in;
        room = omega (arith, length-snoc ms m, v.room, apart);
        window = stored-window m v;
        tail_at = stored-tail m v;
      }

  -- The copy of a full ring to the start of an array with `more` slots behind it.
  pub grow-Held :
      {slots : List (Option A)} {c h t : ℕ} {ms : List A} (m : A) (more : ℕ)
      → Held slots c h t ms
      → h ≡ step c t
      → 0 < more
      → Held
          (copy (set slots t (some m)) c h c ++ replicate more none)
          (c + more)
          0
          c
          (ms ++ m ∷ [])
  grow-Held {slots} {c} {h} {t} {ms} m more v e k =
      let old = set slots t (some m) in
      let front = copy old c h c in
      let fresh : List (Option A) = replicate more none in
      let all = full m v e in
      let size = length-copy old c h c in
      record {
        sized =
            omega
              (arith, length-append front fresh, size, length-replicate {A = Option A} more none);
        head_in = omega arith;
        room = omega (arith, all);
        window =
            ap (copy (front ++ fresh) (c + more) 0) (all ∙ sym size)
            ∙ copy-stored (front ++ fresh) [] front fresh (c + more) refl (omega (arith, size))
            ∙ ap (copy old c h) (sym all)
            ∙ stored-window m v;
        tail_at =
            ap (λ (n : ℕ). (0 + n) % (c + more)) all ∙ mod-eq_of_lt (omega arith) ∙ zero-add c;
      }

  pub Held-empty : {slots : List (Option A)} {c h t : ℕ} → Held slots c h t [] → h ≡ t
  Held-empty v = sym (mod-eq_of_lt v.head_in) ∙ rw (add-zero) at v.tail_at

  pub Held-some :
      {slots : List (Option A)} {c h t : ℕ} {m : A} {ms : List A}
      → Held slots c h t (m ∷ ms)
      → h ≢ t
  Held-some {slots} {c} {h} {t} {m} {ms} v e = absurd (
      omega (
        arith,
        v.room,
        (full_iff h (length ms) c v.head_in (omega (arith, v.room))).0 (v.tail_at ∙ sym e),
      ))

  oldest :
      {slots : List (Option A)} {c h t : ℕ} {m : A} {ms : List A}
      → Held slots c h t (m ∷ ms)
      → (get_or slots h none ≡ some m) × (copy slots c (h + 1) (length ms) ≡ map some ms)
  unfolding copy
  oldest v = let w = rw (mod-eq_of_lt v.head_in) at v.window in (cc w, cc w)

  pub take-Held :
      {slots : List (Option A)} {c h t : ℕ} {m : A} {ms : List A}
      → Held slots c h t (m ∷ ms)
      → (get_or slots h none ≡ some m) × Held slots c (step c h) t ms
  take-Held {slots} {c} {h} {t} {m} {ms} v =
      let turn = step_lem h c v.head_in in
      (
        (oldest v).0,
        record {
          sized = v.sized;
          head_in = rw turn (mod-lt _ (omega (arith, v.head_in)));
          room = omega (arith, v.room);
          window = rw turn (
              copy-congr slots c ((h + 1) % c) (h + 1) (length ms) (mod-mod (h + 1) c)
              ∙ (oldest v).1);
          tail_at =
              rw turn (
                mod-add-mod (h + 1) c (length ms)
                ∙ ap (λ (k : ℕ). k % c) (omega arith)
                ∙ v.tail_at);
        },
      )
