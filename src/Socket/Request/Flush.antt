-- ===== src/Socket/Request/Flush.antt =====
-- `send_buffer` of socket_server.c and the other functions that the socket thread runs on a live socket.
use skynet_notes.Prelude.{
  ℕ, ◌≡◌, refl, ap, sym, ◌∙◌, Bool, true, false, ◌&&◌, ◌||◌, not, Option, none, some, List, [], ◌∷◌,
  ◌++◌, append_assoc, length, length-append, either, arith,
}
use skynet_notes.Socket.{
  WriteBuffer, unsent, Socket, SocketType, invalid, reserve, plisten, listen, connecting, connected,
  halfclose_read, halfclose_write, paccept, bind, Result, Answer, is_invalid, is_halfclose_read,
  is_halfclose_write, is_empty,
}
use skynet_notes.Socket.Close.{
  nomore_sending_data, close_socket, Received, read_error, read_again, read_bytes, end_of_stream,
  forward_message_tcp, poll_eof, resumed, opened, resume_socket, pause_socket,
}
use skynet_notes.Socket.Send.{
  Sent, send_list, sent_high, list_uncomplete, send_high, take_direct, send_buffer, trigger_write,
}
use skynet_notes.Socket.Buffers.{bytes, send_list-bytes, send_list-LowSent}
use skynet_notes.Socket.Request.State.{
  Live, Valid, Holds, live, Fine, fine, contrary, empty_list, force_close-Holds, stopped-Fine,
  not_uncomplete,
}
use skynet_notes.Socket.Request.Low.{send_low-Fine}

sent_high-Live :
    (s : Socket) (r : Sent) {hs ls : List (List ℕ)}
    → Live s hs ls
    → s.direct ≡ none
    → bytes s.high ≡ r.written ++ bytes r.list
    → Live (sent_high s r) hs ls
sent_high-Live s r l d b = record {
  front = l.front;
  early = l.early;
  merged = l.merged;
  late = l.late;
  whole = l.whole;
  stream = rw d (
      append_assoc s.wire r.written (bytes r.list)
      ∙ ap (λ (t : List ℕ). s.wire ++ t) (sym b)
      ∙ rw d at (l.stream));
  counted = omega (arith, l.counted, ap length b, length-append r.written (bytes r.list));
}

send_high-Fine :
    (fails : Bool) (s : Socket) (r : Sent) {k : ℕ} {hs ls : List (List ℕ)}
    → Valid s k
    → Live s hs ls
    → s.direct ≡ none
    → bytes s.high ≡ r.written ++ bytes r.list
    → Fine k hs ls (send_high fails s r)
unfolding send_high
send_high-Fine fails s r {k} {hs} {ls} v l d b =
    let next = sent_high-Live s r l d b in
    let P = Fine k hs ls in
    either P r.failed (λ f. stopped-Fine (sent_high s r) v next)
      (λ f.
        either P (is_empty r.list)
          (λ z.
            send_low-Fine fails (sent_high s r) (send_list r.answers s.low) v next
              (empty_list r.list z) d (send_list-LowSent r.answers s.low l.whole)
              (send_list-bytes r.answers s.low))
          (λ z. fine _ _ (live v next)))

-- The socket behind `take_direct`.
pub record Took (s : Socket) (k : ℕ) (hs ls : List (List ℕ)) : Type 0 where
  pub lives : Live s hs ls
  pub valid : Valid s k
  pub none_left : s.direct ≡ none

pub take_direct-Took :
    (d : Option WriteBuffer) (s : Socket) {k : ℕ} {hs ls : List (List ℕ)}
    → s.direct ≡ d
    → Valid s k
    → Live s hs ls
    → Took (take_direct d s) k hs ls
take_direct-Took none s e v l = record { lives = l; valid = v; none_left = e }
take_direct-Took (some buf) s e v l = record {
  lives = record {
    front = l.front;
    early = l.early;
    merged = l.merged;
    late = l.late;
    whole = l.whole;
    stream = rw e at (l.stream);
    counted = omega (arith, l.counted, length-append (unsent buf) (bytes s.high));
  };
  valid = v;
  none_left = refl;
}

pub send_buffer-Fine :
    (locked fails : Bool) (answers : List Answer) (s : Socket) {k : ℕ} {hs ls : List (List ℕ)}
    → Valid s k
    → Live s hs ls
    → Fine k hs ls (send_buffer locked fails answers s)
unfolding send_buffer
send_buffer-Fine locked fails answers s {k} {hs} {ls} v l =
    let s' = take_direct s.direct s in
    let t = take_direct-Took s.direct s refl v l in
    let P = Fine k hs ls in
    either P locked (λ e. fine _ _ (live v l))
      (λ e.
        either P (list_uncomplete s'.low) (λ u. contrary u (not_uncomplete s'.low t.lives.whole))
          (λ u.
            send_high-Fine fails s' (send_list answers s'.high) t.valid t.lives t.none_left
              (send_list-bytes answers s'.high)))

-- A function that returns a result leaves the socket as it should.
abbrev pub Keeps : ℕ → List (List ℕ) → List (List ℕ) → Socket × Result → Type 0
Keeps k hs ls r = Holds r.0 k hs ls

pub close_socket-Keeps :
    (shutdown : Bool) (s : Socket) {k : ℕ} {hs ls : List (List ℕ)}
    → Valid s k
    → Live s hs ls
    → Keeps k hs ls (close_socket shutdown s)
unfolding close_socket
close_socket-Keeps shutdown s {k} {hs} {ls} v l =
    let P = Keeps k hs ls in
    either P (is_invalid s.type) (λ e. live v l)
      (λ e.
        either P (shutdown || nomore_sending_data s) (λ f. force_close-Holds s l v)
          (λ f. either P (is_halfclose_read s.type) (λ g. live v l) (λ g. live (refl, v.1) l)))

pub end_of_stream-Keeps :
    (s : Socket) {k : ℕ} {hs ls : List (List ℕ)}
    → Valid s k
    → Live s hs ls
    → Keeps k hs ls (end_of_stream s)
end_of_stream-Keeps s {k} {hs} {ls} v l =
    let P = Keeps k hs ls in
    let closed = force_close-Holds s l v in
    either P s.closing
      (λ e.
        either (λ (t : Socket). Holds t k hs ls) (nomore_sending_data s) (λ f. closed)
          (λ f. live v l))
      (λ e.
        either P (is_halfclose_read s.type) (λ f. live v l)
          (λ f. either P (is_halfclose_write s.type) (λ g. closed) (λ g. live (refl, v.1) l)))

pub forward-Keeps :
    (r : Received) (s : Socket) {k : ℕ} {hs ls : List (List ℕ)}
    → Valid s k
    → Live s hs ls
    → Keeps k hs ls (forward_message_tcp r s)
unfolding forward_message_tcp
forward-Keeps read_error s v l = live v l
forward-Keeps read_again s v l = live v l
forward-Keeps (read_bytes []) s v l = end_of_stream-Keeps s v l
forward-Keeps (read_bytes (b ∷ more)) s {k} {hs} {ls} v l =
    either (Keeps k hs ls) (is_halfclose_read s.type) (λ e. live v l) (λ e. live v l)

pub poll_eof-Keeps :
    (s : Socket) {k : ℕ} {hs ls : List (List ℕ)}
    → Valid s k
    → Live s hs ls
    → Keeps k hs ls (poll_eof s)
unfolding poll_eof
poll_eof-Keeps s v l = force_close-Holds s l v

valid_resumed : (t u : SocketType) → resumed t ≡ some u → is_invalid u ≡ false
valid_resumed paccept u e = ground (arith, e)
valid_resumed plisten u e = ground (arith, e)
valid_resumed connected u e = ground (arith, e)
valid_resumed invalid u e = absurd (ground (arith, e))
valid_resumed reserve u e = absurd (ground (arith, e))
valid_resumed listen u e = absurd (ground (arith, e))
valid_resumed connecting u e = absurd (ground (arith, e))
valid_resumed halfclose_read u e = absurd (ground (arith, e))
valid_resumed halfclose_write u e = absurd (ground (arith, e))
valid_resumed bind u e = absurd (ground (arith, e))

opened-Keeps :
    (s : Socket) (o : Option SocketType) {k : ℕ} {hs ls : List (List ℕ)}
    → ((u : SocketType) → o ≡ some u → is_invalid u ≡ false)
    → Valid s k
    → Live s hs ls
    → Keeps k hs ls (opened s o)
opened-Keeps s none valid_u v l = live v l
opened-Keeps s (some u) valid_u v l = live (valid_u u refl, v.1) l

pub resume_socket-Keeps :
    (fails : Bool) (s : Socket) {k : ℕ} {hs ls : List (List ℕ)}
    → Valid s k
    → Live s hs ls
    → Keeps k hs ls (resume_socket fails s)
unfolding resume_socket
resume_socket-Keeps fails s {k} {hs} {ls} v l =
    let P = Keeps k hs ls in
    either P (is_invalid s.type) (λ e. live v l)
      (λ e.
        either P (is_halfclose_read s.type) (λ f. live v l)
          (λ f.
            either P (not s.reading && fails) (λ g. live v l)
              (λ g.
                opened-Keeps (record s { reading = true }) (resumed s.type) (valid_resumed s.type) v
                  l)))

pub pause_socket-Keeps :
    (fails : Bool) (s : Socket) {k : ℕ} {hs ls : List (List ℕ)}
    → Valid s k
    → Live s hs ls
    → Keeps k hs ls (pause_socket fails s)
unfolding pause_socket
pause_socket-Keeps fails s {k} {hs} {ls} v l =
    either (Keeps k hs ls) (is_invalid s.type) (λ e. live v l) (λ e. live v l)

pub trigger_write-Keeps :
    (fails : Bool) (s : Socket) {k : ℕ} {hs ls : List (List ℕ)}
    → Valid s k
    → Live s hs ls
    → Keeps k hs ls (trigger_write fails s)
unfolding trigger_write
trigger_write-Keeps fails s {k} {hs} {ls} v l =
    either (Keeps k hs ls) (is_invalid s.type) (λ e. live v l) (λ e. live v l)
