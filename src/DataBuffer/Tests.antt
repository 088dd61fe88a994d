-- ===== src/DataBuffer/Tests.antt =====
-- The data buffer at a concrete input.
use skynet_notes.Prelude.Bytes.{AllBytes}
use skynet_notes.Prelude.{inl, [], ◌∷◌, refl, arith}
use skynet_notes.DataBuffer.{DataBuffer, MessagePool, databuffer_read, databuffer_readheader}
use skynet_notes.DataBuffer.Header.{ReadsHeader, databuffer_readheader_lem}
use skynet_notes.DataBuffer.Read.{unread, ReadsBytes, databuffer_read_lem}

-- Three messages, of the first of which one byte is read.
abbrev received : DataBuffer
received = record {
  header = 0;
  offset = 1;
  size = 5;
  messages = (1 ∷ 2 ∷ []) ∷ (3 ∷ []) ∷ (4 ∷ 5 ∷ 6 ∷ []) ∷ [];
}

abbrev pool : MessagePool
pool = record { blocks = 1; free = 1020 }

databuffer_read_lem_example : ReadsBytes received pool 3 (databuffer_read received pool 3)
databuffer_read_lem_example =
    databuffer_read_lem received pool 3 (record { sized = refl; inside = omega arith })
      (omega arith) (omega arith)

received-AllBytes : AllBytes (unread received.messages received.offset)
received-AllBytes = (omega arith, (omega arith, (omega arith, (omega arith, (omega arith, tt)))))

databuffer_readheader_lem_example :
    ReadsHeader received pool 2 (databuffer_readheader received pool 2)
databuffer_readheader_lem_example =
    databuffer_readheader_lem received pool 2 (record { sized = refl; inside = omega arith })
      received-AllBytes (inl refl)
