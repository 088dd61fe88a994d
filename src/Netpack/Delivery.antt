-- ===== src/Netpack/Delivery.antt =====
-- A run of lua-netpack.c over the chunks of several sockets, with the loop over `netpack.pop` of
-- skynet/lualib/snax/gateserver.lua (dispatch_queue) behind each TYPE_MORE.
use skynet_notes.Prelude.{
  ℕ, zero, suc, ◌<◌, ◌≡◌, refl, ap, sym, ◌∙◌, true, false, Option, none, some, List, [], ◌∷◌, ◌++◌,
  length, ◌==◌, ==_iff, if◌then◌else◌, Bool-cases, inl, inr, arith,
}
use skynet_notes.Prelude.Bytes.{AllBytes}
use skynet_notes.Netpack.{
  Netpack, Progress, Queue, Reply, nothing, packet, more, opened, closed, failed, warned, get_queue,
  filter_data, lpop,
}
use skynet_notes.Netpack.Stream.{feed, feed-append}
use skynet_notes.Netpack.Waiting.{Has, set_waiting, at_same, at_other}
use skynet_notes.Netpack.Filter.{packs}
use skynet_notes.Netpack.Split.{Outcome, waits, whole, several, filter_data_lem}
use skynet_notes.Netpack.Queued.{Popped, empty, oldest, lpop_lem, fresh-Has}

infixl 5 ◌>>=◌
abbrev ◌>>=◌ : {A B : Type 0} → Option A → (A → Option B) → Option B
none >>= f = none
some a >>= f = f a

abbrev pub Drained : Type 0
Drained = Option (List Netpack × Option Queue)

abbrev pub drained : Option Queue → Option (Option Netpack × Queue) → (Queue → Drained) → Drained
drained l none rest = some ([], l)
drained l (some (none, q)) rest = none
drained l (some (some m, q)) rest = do r ← rest q; some (m ∷ r.0, r.1)

-- The loop over `netpack.pop`, on fuel; none is memory that was not written, or no fuel left.
unfoldable pub drain : ℕ → Option Queue → Drained
drain zero l = none
drain (suc fuel) l = drained l (lpop l) (λ q. drain fuel (some q))

-- The packets that a reply hands over.
unfoldable pub handed : Option Queue × Reply → Drained
unfolding drain
handed (l, nothing) = some ([], l)
handed (l, packet fd b) = some (record { id = fd; buffer = b } ∷ [], l)
handed (l, more) = drain (get_queue l).cap l
handed (l, opened fd a) = some ([], l)
handed (l, closed fd) = some ([], l)
handed (l, failed fd a) = some ([], l)
handed (l, warned fd n) = some ([], l)

-- The packets that come of chunks of data, each with its fd.
unfoldable pub deliver : Option Queue → List (ℕ × List ℕ) → Option (List Netpack)
deliver l [] = some []
deliver l ((fd, bytes) ∷ chunks) = do
  r ← filter_data l fd bytes
  d ← handed r
  rest ← deliver d.1 chunks
  some (d.0 ++ rest)

-- No chunk is empty, and they are bytes.
abbrev pub AllChunks : List (ℕ × List ℕ) → Type 0
AllChunks [] = Unit {0}
AllChunks ((fd, bytes) ∷ chunks) = (0 < length bytes) × AllBytes bytes × AllChunks chunks

-- The stream of a socket, and the packets of a socket.
abbrev pub stream : ℕ → List (ℕ × List ℕ) → List ℕ
stream g [] = []
stream g ((fd, bytes) ∷ chunks) = if fd == g then bytes ++ stream g chunks else stream g chunks

abbrev pub packets_of : ℕ → List Netpack → List (List ℕ)
packets_of g [] = []
packets_of g (m ∷ ms) = if m.id == g then m.buffer ∷ packets_of g ms else packets_of g ms

record Handed (r : Drained) (ms : List Netpack) (P : ℕ → Option Progress) : Type 0 where
  left : Option Queue
  returned : r ≡ some (ms, left)
  has : Has left [] P

drain-Handed :
    (fuel : ℕ) {l : Option Queue} (ms : List Netpack) {P : ℕ → Option Progress}
    → Has l ms P
    → length ms < fuel
    → Handed (drain fuel l) ms P
unfolding drain
drain-Handed zero ms h k = absurd (omega arith)
drain-Handed (suc fuel) {l} ms {P} h k =
    after (lpop l) ms (lpop_lem h) h k (λ q ns h' k'. drain-Handed fuel {l = some q} ns h' k')
  where
    after :
        (r : Option (Option Netpack × Queue)) (ms : List Netpack)
        → Popped P ms r
        → Has l ms P
        → length ms < suc fuel
        → ((q : Queue) (ns : List Netpack)
            → Has (some q) ns P
            → length ns < fuel
            → Handed (drain fuel (some q)) ns P)
        → Handed (drained l r (λ q. drain fuel (some q))) ms P
    after _ _ empty h k rest = record { left = l; returned = refl; has = h }
    after _ _ (oldest m ms q h') h k rest =
        let d = rest q ms h' (omega arith) in
        record { left = d.left; returned = rw (d.returned) refl; has = d.has }

handed-Handed :
    {l : Option Queue} {P : ℕ → Option Progress} {fd : ℕ} (r : Reply) (bs : List (List ℕ))
    → Outcome l [] P fd r bs
    → Handed (handed (l, r)) (packs fd bs) P
unfolding handed
handed-Handed {l} _ _ (waits h) = record { left = l; returned = refl; has = h }
handed-Handed {l} _ _ (whole b h) = record { left = l; returned = refl; has = h }
handed-Handed {l} {fd = fd} _ _ (several bs h) =
    drain-Handed (get_queue l).cap (packs fd bs) h (h.ring.room)

-- What the streams, read byte by byte, complete.
unfoldable serve : (ℕ → Option Progress) → List (ℕ × List ℕ) → List Netpack
serve P [] = []
serve P ((fd, bytes) ∷ chunks) =
    let f = feed (P fd) bytes in packs fd f.1 ++ serve (set_waiting P fd f.0) chunks

deliver-serve :
    (chunks : List (ℕ × List ℕ)) {l : Option Queue} {P : ℕ → Option Progress}
    → Has l [] P
    → AllChunks chunks
    → deliver l chunks ≡ some (serve P chunks)
unfolding deliver serve
deliver-serve [] h a = refl
deliver-serve ((fd, bytes) ∷ chunks) h a =
    let f = filter_data_lem fd bytes h a.1 a.0 in
    let d = handed-Handed f.reply _ f.outcome in
    rw (f.returned, d.returned, deliver-serve chunks d.has a.2) refl

packets_of-append :
    (g : ℕ) (ms ns : List Netpack) → packets_of g (ms ++ ns) ≡ packets_of g ms ++ packets_of g ns
packets_of-append g [] ns = refl
packets_of-append g (m ∷ ms) ns = elim (Bool-cases (m.id == g)) [
  | inl e ↦ rw e (ap (λ (t : List (List ℕ)). m.buffer ∷ t) (packets_of-append g ms ns))
  | inr e ↦ rw e (packets_of-append g ms ns)
]

packets_of-same :
    (fd g : ℕ) (bs : List (List ℕ)) → (fd == g) ≡ true → packets_of g (packs fd bs) ≡ bs
packets_of-same fd g [] e = refl
packets_of-same fd g (b ∷ bs) e =
    rw e (ap (λ (t : List (List ℕ)). b ∷ t) (packets_of-same fd g bs e))

packets_of-other :
    (fd g : ℕ) (bs : List (List ℕ)) → (fd == g) ≡ false → packets_of g (packs fd bs) ≡ []
packets_of-other fd g [] e = refl
packets_of-other fd g (b ∷ bs) e = rw e (packets_of-other fd g bs e)

serve-stream :
    (g : ℕ) (chunks : List (ℕ × List ℕ)) (P : ℕ → Option Progress)
    → packets_of g (serve P chunks) ≡ (feed (P g) (stream g chunks)).1
unfolding serve feed
serve-stream g [] P = refl
serve-stream g ((fd, bytes) ∷ chunks) P =
    let f = feed (P fd) bytes in
    let next = set_waiting P fd f.0 in
    packets_of-append g (packs fd f.1) (serve next chunks)
    ∙ ap (λ (t : List (List ℕ)). packets_of g (packs fd f.1) ++ t) (serve-stream g chunks next)
    ∙ elim (Bool-cases (fd == g)) [
      | inl e ↦
          let same : g ≡ fd = sym ((==_iff fd g).0 e) in
          let waits_now : next g ≡ f.0 = ap next same ∙ at_same P fd f.0 in
          rw (e, packets_of-same fd g f.1 e, waits_now)
            (ap (λ (r : Option Progress × List (List ℕ)). r.1)
              (sym (feed-append (P fd) bytes (stream g chunks))
                ∙ ap (λ (i : ℕ). feed (P i) (bytes ++ stream g chunks)) (sym same)))
      | inr e ↦
          let waits_still : next g ≡ P g = at_other P fd g f.0 (λ s. ground (arith, e, s)) in
          rw (e, packets_of-other fd g f.1 e, waits_still) refl
    ]

-- Whatever chunks of bytes come in from several sockets, none of them empty, and in whatever order: no call
-- fails, and each socket has the packets of its stream, read byte by byte, in their order. How the stream
-- was cut into chunks makes no difference.
pub deliver_lem :
    (chunks : List (ℕ × List ℕ))
    → AllChunks chunks
    → (ms : List Netpack) × (deliver none chunks ≡ some ms)
      × ((g : ℕ) → packets_of g ms ≡ (feed none (stream g chunks)).1)
deliver_lem chunks a = (
  serve (λ _. none) chunks,
  deliver-serve chunks fresh-Has a,
  λ g. serve-stream g chunks (λ _. none),
)
