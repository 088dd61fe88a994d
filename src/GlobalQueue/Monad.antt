-- ===== src/GlobalQueue/Monad.antt =====
-- The heap that holds the message queues, with `struct global_queue`, and programs over it. A program
-- stops with `none` where the source fails an assertion or goes through a pointer to no queue.
use skynet_notes.Prelude.{ℕ, Bool, true, false, Option, none, some, ◌==◌, if◌then◌else◌}
use skynet_notes.Mq.{MessageQueue}

-- `cell` says which queue lives at an address; `head` and `tail` are those of `*Q`.
pub record World : Type 0 where
  pub cell : ℕ → Option MessageQueue
  pub head : Option ℕ
  pub tail : Option ℕ

abbrev pub M : Type 0 → Type 0
M A = World → Option (A × World)

infixl 5 ◌>>=◌ ◌>>◌
abbrev pub ◌>>=◌ : {A B : Type 0} → M A → (A → M B) → M B
◌>>=◌ m f w = elim (m w) [ none ↦ none | some (a, w') ↦ f a w' ]

abbrev pub ◌>>◌ : {B : Type 0} → M (Unit {0}) → M B → M B
m >> k = m >>= λ _. k

abbrev pub return : {A : Type 0} → A → M A
return a w = some (a, w)

abbrev pub assert : Bool → M (Unit {0})
assert true w = some (tt, w)
assert false w = none

abbrev pub is_null : Option ℕ → Bool
is_null none = true
is_null (some p) = false

abbrev pub update : (ℕ → Option MessageQueue) → ℕ → Option MessageQueue → ℕ → Option MessageQueue
update f p v j = if j == p then v else f j

abbrev pub load : ℕ → M MessageQueue
load p w = elim (w.cell p) [ none ↦ none | some q ↦ some (q, w) ]

-- a write through a pointer that was read before
abbrev pub write : ℕ → MessageQueue → M (Unit {0})
write p q w = some (tt, record w { cell = update w.cell p (some q) })

-- `skynet_free`
abbrev pub free : ℕ → M (Unit {0})
free p w = some (tt, record w { cell = update w.cell p none })

abbrev pub get_head : M (Option ℕ)
get_head w = some (w.head, w)

abbrev pub get_tail : M (Option ℕ)
get_tail w = some (w.tail, w)

abbrev pub set_head : Option ℕ → M (Unit {0})
set_head p w = some (tt, record w { head = p })

abbrev pub set_tail : Option ℕ → M (Unit {0})
set_tail p w = some (tt, record w { tail = p })
