-- ===== src/HashId/Tests.antt =====
-- Tables of hashid.h with one id, and the theorems at them.
use skynet_notes.Prelude.{refl, none, arith}
use skynet_notes.HashId.{HashId, hashid_init, linked, hashid_insert, hashid_remove}
use skynet_notes.HashId.Refine.{Table, hashid_init_lem}
use skynet_notes.HashId.Insert.{with_entry, linked-Table, Inserted, hashid_insert_lem}
use skynet_notes.HashId.Remove.{Removed, hashid_remove_lem}

hashid_insert_lem_example : Inserted (λ id. none) 20 (hashid_insert (hashid_init 3) 20)
unfolding hashid_init
hashid_insert_lem_example =
    hashid_insert_lem (hashid_init 3) (λ id. none) 20 (hashid_init_lem 3) refl refl (omega arith)

-- The table with the id 20 in its last node.
abbrev twenty : HashId
twenty = linked (hashid_init 3) 20 2

twenty-Table : Table twenty (with_entry 20 2 (λ id. none))
unfolding hashid_init
twenty-Table =
    linked-Table (hashid_init 3) (λ id. none) 20 2 (hashid_init_lem 3) refl (omega arith) refl

hashid_remove_lem_example : Removed (with_entry 20 2 (λ id. none)) 20 (hashid_remove twenty 20)
hashid_remove_lem_example = hashid_remove_lem twenty (with_entry 20 2 (λ id. none)) 20 twenty-Table
