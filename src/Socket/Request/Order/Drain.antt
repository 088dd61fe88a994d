-- ===== src/Socket/Request/Order/Drain.antt =====
-- What `send_buffer` of socket_server.c does when the kernel takes all that it is given.
use skynet_notes.Prelude.{
  ℕ, ◌-◌, ◌≡◌, refl, ap, sym, ◌∙◌, Bool, true, false, Option, none, some, List, [], ◌∷◌, ◌++◌,
  append-nil, append_assoc, length, ltb, ◌==◌, ==_iff, ◌&&◌, not, either, arith,
}
use skynet_notes.Prelude.Interleave.{Interleave}
use skynet_notes.Socket.{
  WriteBuffer, unsent, Socket, Result, Answer, wrote, is_invalid, send_buffer_empty,
}
use skynet_notes.Socket.Close.{force_close}
use skynet_notes.Socket.Send.{
  min, send_list, list_uncomplete, check_close, send_low, send_high, take_direct, send_buffer,
}
use skynet_notes.Socket.Buffers.{concat, packets, bytes}
use skynet_notes.Socket.Request.{Request}
use skynet_notes.Socket.Request.Reach.{Reach}
use skynet_notes.Socket.Request.State.{Live, contrary, not_uncomplete}
use skynet_notes.Socket.Request.Flush.{take_direct-Took}
use skynet_notes.Socket.Request.Order.{Reach-Sound, Live-order, on_open}

-- `write` takes the whole of every buffer.
abbrev pub takes_all : List WriteBuffer → List Answer
takes_all [] = []
takes_all (wb ∷ l) = wrote (length (unsent wb)) ∷ takes_all l

min_same : (n : ℕ) → min n n ≡ n
min_same n = ground arith

send_list-takes_all :
    (l : List WriteBuffer) (more : List Answer)
    → send_list (takes_all l ++ more) l
      ≡ record { list = []; written = bytes l; failed = false; answers = more }
unfolding send_list
send_list-takes_all [] [] = refl
send_list-takes_all [] (a ∷ more) = refl
send_list-takes_all (wb ∷ l) more =
    let n = length (unsent wb) in
    let same : (n == n) ≡ true = (==_iff n n).1 refl in
    rw (min_same n, same, send_list-takes_all l more) refl

-- The answers to all that `send_buffer` writes.
abbrev pub whole_writes : Socket → List Answer
whole_writes s = let s' = take_direct s.direct s in takes_all s'.high ++ takes_all s'.low

-- Every packet that was accepted is written, and the socket is closed if it was to be.
pub data Drained (closing : Bool) (hs ls : List (List ℕ)) : Option (Socket × Result) → Type 0 where
  drained :
      (s : Socket) (r : Result) (order : List (List ℕ))
      → Interleave hs ls order
      → s.wire ≡ concat order
      → is_invalid s.type ≡ closing
      → Drained closing hs ls (some (s, r))

force_close-closed : (s : Socket) → is_invalid (force_close s).type ≡ true
unfolding force_close
force_close-closed s =
    either (λ (t : Socket). is_invalid t.type ≡ true) (is_invalid s.type) (λ e. e) (λ e. refl)

force_close-wire : (s : Socket) → (force_close s).wire ≡ s.wire
unfolding force_close
force_close-wire s =
    either (λ (t : Socket). t.wire ≡ s.wire) (is_invalid s.type) (λ e. refl) (λ e. refl)

check_close-Drained :
    (fails : Bool) (s : Socket) (order : List (List ℕ)) {hs ls : List (List ℕ)}
    → is_invalid s.type ≡ false
    → Interleave hs ls order
    → s.wire ≡ concat order
    → (send_buffer_empty s && (s.wb_size == 0)) ≡ true
    → Drained s.closing hs ls (check_close fails s)
unfolding check_close
check_close-Drained fails s order {hs} {ls} v m w e =
    let P = Drained s.closing hs ls in
    either P (not (send_buffer_empty s && (s.wb_size == 0))) (λ f. absurd (ground (arith, e, f)))
      (λ f.
        either P s.closing
          (λ c. drained _ _ order m (force_close-wire s ∙ w) (force_close-closed s ∙ sym c))
          (λ c.
            let open_still = v ∙ sym c in
            either P (s.writing && fails) (λ g. drained _ _ order m w open_still)
              (λ g.
                either P (ltb 0 s.warn_size) (λ h. drained _ _ order m w open_still)
                  (λ h. drained _ _ order m w open_still))))

-- Both lists are written, without a direct write before.
send_high-Drained :
    (fails : Bool) (s : Socket) {hs ls : List (List ℕ)}
    → is_invalid s.type ≡ false
    → Live s hs ls
    → s.direct ≡ none
    → Drained s.closing hs ls
        (send_high fails s (send_list (takes_all s.high ++ takes_all s.low) s.high))
unfolding send_high send_low
send_high-Drained fails s {hs} {ls} v l d =
    let (m, e) = Live-order s l in
    let low_answers =
      ap (λ (t : List Answer). send_list t s.low) (sym (append-nil (takes_all s.low))) in
    let all : (s.wire ++ bytes s.high) ++ bytes s.low ≡ concat (l.front ++ packets s.low) =
      append_assoc s.wire (bytes s.high) (bytes s.low) ∙ rw d at e in
    let none_left : (s.wb_size - length (bytes s.high) - length (bytes s.low) == 0) ≡ true =
      (==_iff _ 0).1 (omega (arith, l.counted)) in
    rw (send_list-takes_all s.high (takes_all s.low), low_answers, send_list-takes_all s.low [])
      (check_close-Drained fails _ (l.front ++ packets s.low) v m all none_left)

take_direct-closing : (d : Option WriteBuffer) (s : Socket) → (take_direct d s).closing ≡ s.closing
take_direct-closing none s = refl
take_direct-closing (some wb) s = refl

-- If the kernel takes every buffer whole, one call of `send_buffer` writes every byte of every packet that a
-- socket in a state that is reached has accepted, and the socket is closed after it if it was to be closed, and
-- else is not.
pub Reach-Drained :
    (fails : Bool) {s : Socket} {pipe : List Request} {hs ls : List (List ℕ)} {n : ℕ}
    → Reach (record { socket = s; pipe = pipe }) hs ls n
    → is_invalid s.type ≡ false
    → Drained s.closing hs ls (send_buffer false fails (whole_writes s) s)
unfolding send_buffer
Reach-Drained fails {s} {hs = hs} {ls} r v =
    let s' = take_direct s.direct s in
    let (w, l) = on_open v (Reach-Sound r).0 in
    let t = take_direct-Took s.direct s refl w l in
    let P = Drained s.closing hs ls in
    either P (list_uncomplete s'.low) (λ u. contrary u (not_uncomplete s'.low t.lives.whole))
      (λ u.
        let done = send_high-Drained fails s' t.valid.0 t.lives t.none_left in
        rw (take_direct-closing s.direct s) at done)
