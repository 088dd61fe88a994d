-- ===== src/HashId.antt =====
-- skynet/service-src/hashid.h: a table of at most `cap` ids, which finds the index of an id through chains of
-- nodes. A node is its index in the array, a null pointer is none, and the id -1 of a free node is none.
pub mod Chain
pub mod Count
pub mod Refine
pub mod Insert
pub mod Clear
pub mod Remove
mod Tests
use skynet_notes.Prelude.{
  ℕ, zero, suc, ◌+◌, ◌-◌, ◌*◌, ◌%◌, Bool, true, false, Option, none, some, ltb, ◌==◌, if◌then◌else◌,
  bit_and,
}

-- `struct hashid_node`
pub record HashIdNode : Type 0 where
  pub id : Option ℕ
  pub next : Option ℕ

-- `struct hashid`
pub record HashId : Type 0 where
  pub hashmod : ℕ
  pub cap : ℕ
  pub count : ℕ
  pub node : ℕ → HashIdNode
  pub hash : ℕ → Option ℕ

abbrev pub has_id : Option ℕ → ℕ → Bool
has_id none id = false
has_id (some x) id = x == id

abbrev pub is_free : Option ℕ → Bool
is_free none = true
is_free (some x) = false

-- The loop of `hashid_init` over `hashcap`, with `fuel` rounds.
unfoldable pub hash_size : ℕ → ℕ → ℕ → ℕ
hash_size zero hashcap max = hashcap
hash_size (suc fuel) hashcap max =
    let rest = hash_size fuel (hashcap * 2) max in if ltb hashcap max then rest else hashcap

-- `hashid_init`
unfoldable pub hashid_init : ℕ → HashId
hashid_init max = record {
  hashmod = hash_size max 16 max - 1;
  cap = max;
  count = 0;
  node = λ i. record { id = none; next = none };
  hash = λ h. none;
}

-- `hashid_clear`; the arrays are freed.
unfoldable pub hashid_clear : HashId → HashId
hashid_clear hi = record {
  hashmod = 1;
  cap = 0;
  count = 0;
  node = λ i. record { id = none; next = none };
  hash = λ h. none;
}

-- The loop of `hashid_lookup`
unfoldable pub lookup_from : ℕ → (ℕ → HashIdNode) → Option ℕ → ℕ → Option ℕ
lookup_from fuel node none id = none
lookup_from zero node (some c) id = none
lookup_from (suc fuel) node (some c) id =
    let rest = lookup_from fuel node (node c).next id in
    if has_id (node c).id id then some c else rest

-- `hashid_lookup`
unfoldable pub hashid_lookup : HashId → ℕ → Option ℕ
hashid_lookup hi id = lookup_from hi.cap hi.node (hi.hash (bit_and id hi.hashmod)) id

abbrev pub set_next : (ℕ → HashIdNode) → ℕ → Option ℕ → ℕ → HashIdNode
set_next node c next i = if i == c then record (node c) { next = next } else node i

-- The loop of `hashid_remove`: it takes the node behind `c` out of the chain.
unfoldable pub remove_from : ℕ → (ℕ → HashIdNode) → ℕ → Option ℕ → ℕ → Option (ℕ × (ℕ → HashIdNode))
remove_from fuel node c none id = none
remove_from zero node c (some t) id = none
remove_from (suc fuel) node c (some t) id =
    let rest = remove_from fuel node t (node t).next id in
    if has_id (node t).id id then some (t, set_next node c (node t).next) else rest

-- `_clear`
abbrev pub clear : HashId → ℕ → HashId × ℕ
clear hi c = (
  record hi {
    node = λ i. if i == c then record { id = none; next = none } else hi.node i;
    count = hi.count - 1;
  },
  c,
)

abbrev pub clear_found : HashId → Option (ℕ × (ℕ → HashIdNode)) → Option (HashId × ℕ)
clear_found hi none = none
clear_found hi (some r) = some (clear (record hi { node = r.1 }) r.0)

abbrev pub remove_at : HashId → ℕ → Option ℕ → Option (HashId × ℕ)
remove_at hi id none = none
remove_at hi id (some c) =
    let h = bit_and id hi.hashmod in
    if has_id (hi.node c).id id
    then some (clear (record hi { hash = λ i. if i == h then (hi.node c).next else hi.hash i }) c)
    else clear_found hi (remove_from hi.cap hi.node c (hi.node c).next id)

-- `hashid_remove`
unfoldable pub hashid_remove : HashId → ℕ → Option (HashId × ℕ)
hashid_remove hi id = remove_at hi id (hi.hash (bit_and id hi.hashmod))

-- The loop of `hashid_insert` over `i`, with `n` rounds left; none if no node is free, or if i + id is not an
-- int.
unfoldable pub find_free : ℕ → HashId → ℕ → ℕ → Option ℕ
find_free zero hi id i = none
find_free (suc n) hi id i =
    let index = (i + id) % hi.cap in
    let rest = find_free n hi id (i + 1) in
    if ltb 0x7fffffff (i + id)
    then none
    else if is_free (hi.node index).id
    then some index
    else rest

-- The node `c` is taken for the id, and put in front of its chain.
abbrev pub linked : HashId → ℕ → ℕ → HashId
linked hi id c =
    let h = bit_and id hi.hashmod in
    record hi {
      count = hi.count + 1;
      node = λ i. if i == c then record { id = some id; next = hi.hash h } else hi.node i;
      hash = λ i. if i == h then some c else hi.hash i;
    }

-- The end of `hashid_insert`: the two assertions, and the node that is linked.
abbrev pub link_node : HashId → ℕ → Option ℕ → Option (HashId × ℕ)
link_node hi id none = none
link_node hi id (some c) = if is_free (hi.node c).next then some (linked hi id c, c) else none

-- `hashid_insert`; none is a failed assertion.
unfoldable pub hashid_insert : HashId → ℕ → Option (HashId × ℕ)
hashid_insert hi id = link_node hi id (find_free hi.cap hi id 0)

-- `hashid_full`
abbrev pub hashid_full : HashId → Bool
hashid_full hi = hi.count == hi.cap
