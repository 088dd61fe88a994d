-- ===== src/Netpack/Tests.antt =====
-- The splitting of lua-netpack.c at concrete inputs.
use skynet_notes.Prelude.{ℕ, ◌<◌, ◌≡◌, refl, Option, none, some, List, [], ◌∷◌, arith}
use skynet_notes.Prelude.Bytes.{AllBytes}
use skynet_notes.Netpack.{
  Netpack, Queue, lfilter, lpop, filter_data, push_data, socket_close, socket_error, closed, failed,
}
use skynet_notes.Netpack.Stream.{feed}
use skynet_notes.Netpack.Waiting.{Has, set_waiting, push-Has}
use skynet_notes.Netpack.Split.{Filtered, filter_data_lem}
use skynet_notes.Netpack.Delivery.{deliver, AllChunks, stream, packets_of, deliver_lem}
use skynet_notes.Netpack.Queued.{fresh-Has, Popped, lpop_lem, lfilter-close}

-- A packet of three bytes, one of none, and the start of a third one.
abbrev chunk : List ℕ
chunk = 0 ∷ 3 ∷ 97 ∷ 98 ∷ 99 ∷ 0 ∷ 0 ∷ 0 ∷ 2 ∷ 100 ∷ []

low : (0 < 256) × (3 < 256) × (97 < 256) × (98 < 256) × (99 < 256) × (2 < 256) × (100 < 256)
low = (omega arith, omega arith, omega arith, omega arith, omega arith, omega arith, omega arith)

chunk-AllBytes : AllBytes chunk
chunk-AllBytes =
    (low.0, (low.1, (low.2, (low.3, (low.4, (low.0, (low.0, (low.0, (low.5, (low.6, tt))))))))))

chunk_packets : (feed none chunk).1 ≡ (97 ∷ 98 ∷ 99 ∷ []) ∷ [] ∷ []
unfolding feed
chunk_packets = refl

filter_data_lem_example : Filtered (filter_data none 7 chunk) [] (λ _. none) 7 (feed none chunk)
filter_data_lem_example = filter_data_lem 7 chunk fresh-Has chunk-AllBytes (omega arith)

abbrev queued : Netpack
queued = record { id = 7; buffer = 1 ∷ [] }

one-Has : Has (some (push_data none 7 (1 ∷ []))) (queued ∷ []) (λ _. none)
one-Has = push-Has 7 (1 ∷ []) fresh-Has

lpop_lem_example : Popped (λ _. none) (queued ∷ []) (lpop (some (push_data none 7 (1 ∷ []))))
lpop_lem_example = lpop_lem one-Has

lfilter-close_example :
    (l' : Option Queue) × (lfilter (some (push_data none 7 (1 ∷ []))) (socket_close 7)
      ≡ some (l', closed 7))
    × (lfilter (some (push_data none 7 (1 ∷ []))) (socket_error 7 []) ≡ some (l', failed 7 []))
    × Has l' (queued ∷ []) (set_waiting (λ _. none) 7 none)
lfilter-close_example = lfilter-close 7 [] one-Has

-- The chunk from two sockets, cut at different places.
abbrev chunks : List (ℕ × List ℕ)
chunks = (7, chunk) ∷ (8, 0 ∷ []) ∷ (7, 0 ∷ 0 ∷ 0 ∷ []) ∷ (8, 0 ∷ 0 ∷ []) ∷ []

chunks-AllChunks : AllChunks chunks
chunks-AllChunks = (
  omega arith,
  chunk-AllBytes,
  (
    omega arith,
    (low.0, tt),
    (omega arith, (low.0, (low.0, (low.0, tt))), (omega arith, (low.0, (low.0, tt)), tt)),
  ),
)

deliver_lem_example :
    (ms : List Netpack) × (deliver none chunks ≡ some ms)
    × ((g : ℕ) → packets_of g ms ≡ (feed none (stream g chunks)).1)
deliver_lem_example = deliver_lem chunks chunks-AllChunks
