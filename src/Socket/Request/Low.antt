-- ===== src/Socket/Request/Low.antt =====
-- Sending the low list in socket_server.c: a packet of which only a part is written moves to the high list.
use skynet_notes.Prelude.{
  ℕ, suc, ◌≡◌, refl, ap, sym, ◌∙◌, Bool, true, false, not, Option, none, some, List, [], ◌∷◌, ◌++◌,
  append-nil, append_assoc, drop, length, length-append, ◌==◌, either, arith,
}
use skynet_notes.Prelude.Interleave.{append_second}
use skynet_notes.Socket.{WriteBuffer, Socket, Result, is_empty}
use skynet_notes.Socket.Send.{
  Sent, sent_low, list_uncomplete, raise_uncomplete, with_nothing, send_low,
}
use skynet_notes.Socket.Buffers.{
  concat, packets, bytes, AllWhole, concat-append, packets-append, LowSent, some_whole, some_part,
}
use skynet_notes.Socket.Request.State.{
  Fine, Live, Valid, check_close-Fine, contrary, empty_list, fine, live, not_uncomplete,
  stopped-Fine,
}

-- The low list is sent when the high one is empty.
sent_low-Live :
    (s : Socket) (r : Sent) (done : List WriteBuffer) {hs ls : List (List ℕ)}
    → Live s hs ls
    → s.high ≡ []
    → s.direct ≡ none
    → s.low ≡ done ++ r.list
    → AllWhole r.list
    → r.written ≡ concat (packets done)
    → bytes s.low ≡ r.written ++ bytes r.list
    → Live (sent_low s r) hs ls
sent_low-Live s r done {ls = ls} l h d e a c b =
    let wire_now : s.wire ++ [] ≡ concat l.front = rw (h, d) at (l.stream) in
    record {
      front = l.front ++ packets done;
      early = l.early ++ packets done;
      merged = append_second (packets done) l.merged;
      late =
          l.late
          ∙ ap (λ (t : List WriteBuffer). l.early ++ packets t) e
          ∙ ap (λ (t : List (List ℕ)). l.early ++ t) (packets-append done r.list)
          ∙ sym (append_assoc l.early (packets done) (packets r.list));
      whole = a;
      stream =
          rw (h, d, append-nil (s.wire ++ r.written), concat-append l.front (packets done), c)
            (ap (λ (t : List ℕ). t ++ concat (packets done)) (sym (append-nil s.wire) ∙ wire_now));
      counted = omega (
        arith,
        l.counted,
        ap (λ (t : List WriteBuffer). length (bytes t)) h,
        ap length b,
        length-append r.written (bytes r.list),
      );
    }

raised-Live :
    (s : Socket) (r : Sent) (done : List WriteBuffer) (wb : WriteBuffer) (n : ℕ)
    (rest : List WriteBuffer) {hs ls : List (List ℕ)}
    → Live s hs ls
    → s.high ≡ []
    → s.direct ≡ none
    → s.low ≡ done ++ wb ∷ rest
    → r.list ≡ record { buffer = wb.buffer; offset = suc n } ∷ rest
    → AllWhole rest
    → r.written ++ drop (suc n) wb.buffer ≡ concat (packets done) ++ wb.buffer
    → bytes s.low ≡ r.written ++ bytes r.list
    → Live
        (record (sent_low s r) {
          low = rest;
          high = record { buffer = wb.buffer; offset = suc n } ∷ [];
        })
        hs
        ls
raised-Live s r done wb n rest {ls = ls} l h d e f a c b =
    let wire_now : s.wire ++ [] ≡ concat l.front = rw (h, d) at (l.stream) in
    let sent_now = packets done ++ wb.buffer ∷ [] in
    let left = drop (suc n) wb.buffer in
    let order : packets (done ++ wb ∷ rest) ≡ sent_now ++ packets rest =
      packets-append done (wb ∷ rest)
      ∙ sym (append_assoc (packets done) (wb.buffer ∷ []) (packets rest)) in
    let all : concat sent_now ≡ r.written ++ left =
      concat-append (packets done) (wb.buffer ∷ [])
      ∙ ap (λ (t : List ℕ). concat (packets done) ++ t) (append-nil wb.buffer)
      ∙ sym c in
    record {
      front = l.front ++ sent_now;
      early = l.early ++ sent_now;
      merged = append_second sent_now l.merged;
      late =
          l.late
          ∙ ap (λ (t : List WriteBuffer). l.early ++ packets t) e
          ∙ ap (λ (t : List (List ℕ)). l.early ++ t) order
          ∙ sym (append_assoc l.early sent_now (packets rest));
      whole = a;
      stream =
          rw (d, append-nil left, concat-append l.front sent_now, all)
            (append_assoc s.wire r.written left
              ∙ ap (λ (t : List ℕ). t ++ (r.written ++ left)) (sym (append-nil s.wire) ∙ wire_now));
      counted = omega (
        arith,
        l.counted,
        ap (λ (t : List WriteBuffer). length (bytes t)) h,
        ap length b,
        length-append r.written (bytes r.list),
        ap (λ (t : List WriteBuffer). length (bytes t)) f,
        length-append left (bytes rest),
        length-append left [],
      );
    }

raised :
    (s : Socket) (r : Sent) (part : WriteBuffer) (rest : List WriteBuffer)
    → r.list ≡ part ∷ rest
    → s.high ≡ []
    → raise_uncomplete r.list (sent_low s r)
      ≡ some (record (sent_low s r) { low = rest; high = part ∷ [] })
raised s r part rest f h =
    ap (λ (t : List WriteBuffer). raise_uncomplete t (sent_low s r)) f ∙ rw h refl

pub Fine-eq :
    {k : ℕ} {hs ls : List (List ℕ)} {x y : Option (Socket × Result)}
    → x ≡ y
    → Fine k hs ls x
    → Fine k hs ls y
Fine-eq e p = rw e at p

pub send_low-Fine :
    (fails : Bool) (s : Socket) (r : Sent) {k : ℕ} {hs ls : List (List ℕ)}
    → Valid s k
    → Live s hs ls
    → s.high ≡ []
    → s.direct ≡ none
    → LowSent s.low r
    → bytes s.low ≡ r.written ++ bytes r.list
    → Fine k hs ls (send_low fails s r)
unfolding send_low
send_low-Fine fails s r {k} {hs} {ls} v l h d (some_whole done _ e a c) b =
    let next = sent_low-Live s r done l h d e a c b in
    let P = Fine k hs ls in
    either P r.failed (λ f. stopped-Fine (sent_low s r) v next)
      (λ f.
        either P (list_uncomplete r.list) (λ u. contrary u (not_uncomplete r.list a))
          (λ u.
            either P (is_empty r.list)
              (λ z. check_close-Fine fails (sent_low s r) v next h (empty_list r.list z))
              (λ z. fine _ _ (live v next))))
send_low-Fine fails s r {k} {hs} {ls} v l h d (some_part done wb n rest _ e f a c g) b =
    let next = raised-Live s r done wb n rest l h d e f a c b in
    let part : WriteBuffer = record { buffer = wb.buffer; offset = suc n } in
    let raise : raise_uncomplete r.list (sent_low s r)
        ≡ some (record (sent_low s r) { low = rest; high = part ∷ [] }) =
      raised s r part rest f h in
    let some_sent : (suc n == 0) ≡ false = ground arith in
    let u : list_uncomplete r.list ≡ true = ap list_uncomplete f ∙ ap not some_sent in
    let P = Fine k hs ls in
    either P r.failed (λ t. contrary t g)
      (λ t.
        either P (list_uncomplete r.list)
          (λ y. Fine-eq (ap with_nothing (sym raise)) (fine _ _ (live v next))) (λ y. contrary u y))
