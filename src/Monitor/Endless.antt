-- ===== src/Monitor/Endless.antt =====
-- What skynet_monitor.c takes for an endless loop.
use skynet_notes.Prelude.{
  ℕ, ◌+◌, ◌%◌, ◌^◌, ◌<◌, ◌≡◌, refl, sym, ap, ap₂, ◌∙◌, inl, inr, Bool, ◌&&◌, not, none, some, List,
  [], ◌∷◌, length, ◌==◌, ==_iff, if◌then◌else◌, Bool-cases, arith,
}
use skynet_notes.Monitor.{Monitor, trigger, check}

-- The starts and ends of messages that a worker signals, each with a source and a destination.
abbrev pub triggers : Monitor → List (ℕ × ℕ) → Monitor
triggers sm [] = sm
triggers sm (t ∷ ts) = triggers (trigger sm t.0 t.1) ts

-- The pair that the monitor holds: the last one signalled, or else the one before.
abbrev pub latest : ℕ × ℕ → List (ℕ × ℕ) → ℕ × ℕ
latest old [] = old
latest old (t ∷ ts) = latest t ts

latest-triggers :
    (sm : Monitor) (ts : List (ℕ × ℕ))
    → let sm' = triggers sm ts in
      (sm'.source, sm'.destination) ≡ latest (sm.source, sm.destination) ts
unfolding trigger
latest-triggers sm [] = refl
latest-triggers sm (t ∷ ts) = latest-triggers (trigger sm t.0 t.1) ts

version-triggers :
    (sm : Monitor) (ts : List (ℕ × ℕ))
    → sm.version < 2 ^ 32
    → (triggers sm ts).version ≡ (sm.version + length ts) % 2 ^ 32
unfolding trigger
version-triggers sm [] h = omega arith
version-triggers sm (t ∷ ts) h =
    version-triggers (trigger sm t.0 t.1) ts (omega arith) ∙ omega arith

check_version-triggers :
    (sm : Monitor) (ts : List (ℕ × ℕ)) → (triggers sm ts).check_version ≡ sm.check_version
unfolding trigger
check_version-triggers sm [] = refl
check_version-triggers sm (t ∷ ts) = check_version-triggers (trigger sm t.0 t.1) ts

-- After a check both versions agree, and what the worker is at is kept.
check-version :
    (sm : Monitor)
    → let sm' = (check sm).1 in
      (sm'.check_version ≡ sm.version)
      × (sm'.version ≡ sm.version)
      × (sm'.source ≡ sm.source)
      × (sm'.destination ≡ sm.destination)
unfolding check
check-version sm = elim (Bool-cases (sm.version == sm.check_version)) [
  | inl e ↦ rw e (sym ((==_iff _ _).0 e), refl, refl, refl)
  | inr e ↦ rw e (refl, refl, refl, refl)
]

check_reports :
    (sm : Monitor)
    → (check sm).0 ≡ (
        if (sm.version == sm.check_version) && not (sm.destination == 0)
        then some (sm.source, sm.destination)
        else none)
unfolding check
check_reports sm = ground arith

same_version :
    (v n : ℕ) {a b : ℕ} → v < 2 ^ 32 → a ≡ (v + n) % 2 ^ 32 → b ≡ v → (a == b) ≡ (n % 2 ^ 32 == 0)
same_version v n {a} {b} h e₁ e₂ = ground (arith, e₁, e₂, ==_iff a b, ==_iff (n % 2 ^ 32) 0)

-- Between two checks of a monitor, let the worker signal any starts and ends of messages. The second check
-- reports the source and destination that were signalled last exactly when there were none of them (or a
-- multiple of 2 ^ 32) since the first check and the destination is not 0.
pub check_twice :
    (sm : Monitor) (ts : List (ℕ × ℕ))
    → sm.version < 2 ^ 32
    → let at = latest (sm.source, sm.destination) ts in
      (check (triggers (check sm).1 ts)).0
      ≡ (if (length ts % 2 ^ 32 == 0) && not (at.1 == 0) then some at else none)
check_twice sm ts h =
    let sm₁ = (check sm).1 in
    let sm₂ = triggers sm₁ ts in
    let (seen, kept, source, destination) = check-version sm in
    let last : (sm₂.source, sm₂.destination) ≡ latest (sm.source, sm.destination) ts =
      latest-triggers sm₁ ts ∙ ap₂ (λ (a b : ℕ). latest (a, b) ts) source destination in
    let moved = version-triggers sm₁ ts (omega (arith, kept)) in
    let checked = check_version-triggers sm₁ ts ∙ seen in
    let same : (sm₂.version == sm₂.check_version) ≡ (length ts % 2 ^ 32 == 0) =
      same_version sm.version (length ts) h (moved ∙ ap (λ x. (x + length ts) % 2 ^ 32) kept)
        checked in
    check_reports sm₂
    ∙ ap₂ (λ (b : Bool) (at : ℕ × ℕ). if b && not (at.1 == 0) then some at else none) same last
