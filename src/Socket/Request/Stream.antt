-- ===== src/Socket/Request/Stream.antt =====
-- What is written to a socket of socket_server.c is the packets that it has accepted, and no assertion fails.
use skynet_notes.Prelude.{
  ℕ, suc, ◌+◌, ◌≤◌, ◌≡◌, refl, ap, sym, ◌∙◌, Bool, true, false, ◌&&◌, ◌||◌, not, Option, none, some,
  List, [], ◌∷◌, ◌++◌, append-nil, append_assoc, length, take, drop, take-append-drop, ◌==◌, ==_iff,
  either, both, arith,
}
use skynet_notes.Prelude.Interleave.{append_first}
use skynet_notes.Socket.{
  WriteBuffer, Socket, SocketType, invalid, reserve, plisten, listen, connecting, connected,
  halfclose_read, halfclose_write, paccept, bind, Answer, is_invalid, is_halfclose_write,
  is_connected, no_direct, send_buffer_empty,
}
use skynet_notes.Socket.Close.{nomore_sending_data}
use skynet_notes.Socket.Buffers.{concat}
use skynet_notes.Socket.Request.{
  Request, send_packet, want_write, System, inc_sending_ref, can_direct_write, Outcome, refused,
  written, queued, taken, push_packet, direct_write, socket_server_send,
  socket_server_send_lowpriority,
}
use skynet_notes.Socket.Request.Reach.{add_written}
use skynet_notes.Socket.Request.State.{Live, Valid, Holds, live, dead, contrary}
use skynet_notes.Socket.Request.Serve.{weight, waiting, Holds-eq}
use skynet_notes.Socket.Request.Append.{concat-snoc, both_empty}

-- What holds of a socket and the pipe; the counter of the packets that wait has 16 bits.
abbrev pub Sound : System → List (List ℕ) → List (List ℕ) → Type 0
Sound sys hs ls = Holds sys.socket (waiting sys.pipe) hs ls × (waiting sys.pipe ≤ 0xffff)

-- A function of a worker thread waits, or it returns.
pub data Accepts (accepted : Outcome → List (List ℕ)) (ls : List (List ℕ))
    : Option (System × Outcome) → Type 0 where
  waits : Accepts accepted ls none
  accepts :
      (sys : System) (o : Outcome) → Sound sys (accepted o) ls → Accepts accepted ls (some (sys, o))

pub waiting-snoc :
    (pipe : List Request) (r : Request) → waiting (pipe ++ r ∷ []) ≡ waiting pipe + weight r
waiting-snoc [] r = omega arith
waiting-snoc (q ∷ pipe) r = omega (arith, waiting-snoc pipe r)

pub Holds-sending : {s : Socket} {k : ℕ} {hs ls : List (List ℕ)} → Holds s k hs ls → s.sending ≡ k
Holds-sending (live v l) = v.1
Holds-sending (dead d c g) = c

inc-Holds :
    {s : Socket} {k : ℕ} {hs ls : List (List ℕ)}
    → Holds s k hs ls
    → Holds (record s { sending = s.sending + 1 }) (suc k) hs ls
inc-Holds (live v l) = live (v.0, omega (arith, v.1)) l
inc-Holds (dead d c g) = dead d (omega (arith, c)) g

push_packet-Accepts :
    (low : Bool) (packet : List ℕ) (pipe : List Request) (s : Socket)
    (accepted : Outcome → List (List ℕ)) {ls : List (List ℕ)}
    → Sound (record { socket = s; pipe = pipe }) (accepted queued) ls
    → Accepts accepted ls (push_packet low packet pipe (inc_sending_ref s))
unfolding inc_sending_ref
push_packet-Accepts low packet pipe s accepted {ls} h =
    let P = λ (o : Option Socket). Accepts accepted ls (push_packet low packet pipe o) in
    let more : waiting (pipe ++ send_packet low packet ∷ []) ≡ suc (waiting pipe) =
      omega (arith, waiting-snoc pipe (send_packet low packet)) in
    let c = Holds-sending h.0 in
    either P (s.sending == 0xffff) (λ e. waits)
      (λ e. accepts _ queued (Holds-eq (sym more) (inc-Holds h.0), ground (arith, more, c, e, h.1)))

pub socket_server_send_lowpriority-Accepts :
    (packet : List ℕ) (sys : System) {hs ls : List (List ℕ)}
    → Sound sys hs ls
    → Accepts (λ o. hs) ls (socket_server_send_lowpriority packet sys)
unfolding socket_server_send_lowpriority
socket_server_send_lowpriority-Accepts packet sys {hs} {ls} h =
    either (Accepts (λ o. hs) ls) (is_invalid sys.socket.type) (λ e. accepts sys refused h)
      (λ e. push_packet-Accepts true packet sys.pipe sys.socket (λ o. hs) h)

-- Nothing is left to send when a worker thread may write to the socket itself.
pub record Idle (s : Socket) : Type 0 where
  pub no_high : s.high ≡ []
  pub no_low : s.low ≡ []
  pub none_left : s.direct ≡ none
  pub none_waits : s.sending ≡ 0

connected_only : (t : SocketType) → is_connected t ≡ true → is_halfclose_write t ≡ false
connected_only connected e = refl
connected_only invalid e = refl
connected_only reserve e = refl
connected_only plisten e = refl
connected_only listen e = refl
connected_only connecting e = refl
connected_only halfclose_read e = refl
connected_only halfclose_write e = absurd (ground (arith, e))
connected_only paccept e = refl
connected_only bind e = refl

no_buffer : (d : Option WriteBuffer) → no_direct d ≡ true → d ≡ none
no_buffer none e = refl
no_buffer (some wb) e = absurd (ground (arith, e))

or_false : (a b : Bool) → (a || b) ≡ true → b ≡ false → a ≡ true
or_false true b e f = refl
or_false false b e f = contrary e f

pub can_direct_write-Idle : (s : Socket) → can_direct_write s ≡ true → Idle s
can_direct_write-Idle s e =
    let (done, open_type) = both (nomore_sending_data s) (is_connected s.type) e in
    let none_more = or_false _ _ done (connected_only s.type open_type) in
    let (rest, zero_sending) =
      both (send_buffer_empty s && no_direct s.direct) (s.sending == 0) none_more in
    let (empty, free) = both (send_buffer_empty s) (no_direct s.direct) rest in
    record {
      no_high = (both_empty s empty).0;
      no_low = (both_empty s empty).1;
      none_left = no_buffer s.direct free;
      none_waits = (==_iff s.sending 0).0 zero_sending;
    }

-- The bytes that a direct write leaves stand in front of those of the high list.
direct_write-Live :
    (n : ℕ) (packet : List ℕ) (s : Socket) {hs ls : List (List ℕ)}
    → Idle s
    → Live s hs ls
    → Live
        (record s {
          wire = s.wire ++ take n packet;
          direct = some (record { buffer = packet; offset = n });
        })
        (hs ++ packet ∷ [])
        ls
direct_write-Live n packet s i l =
    let wire_now : s.wire ++ [] ≡ concat l.front = rw (i.no_high, i.none_left) at (l.stream) in
    record {
      front = l.front ++ packet ∷ [];
      early = l.early;
      merged = append_first (packet ∷ []) l.merged;
      late = l.late;
      whole = l.whole;
      stream =
          rw
            (
              i.no_high,
              append-nil (drop n packet),
              append_assoc s.wire (take n packet) (drop n packet),
              take-append-drop n packet,
              concat-snoc l.front packet,
            )
            (ap (λ (t : List ℕ). t ++ packet) (sym (append-nil s.wire) ∙ wire_now));
      counted = l.counted;
    }

direct_write_all-Live :
    (packet : List ℕ) (s : Socket) {hs ls : List (List ℕ)}
    → Idle s
    → Live s hs ls
    → Live (record s { wire = s.wire ++ packet }) (hs ++ packet ∷ []) ls
direct_write_all-Live packet s i l =
    let wire_now : s.wire ++ [] ≡ concat l.front = rw (i.no_high, i.none_left) at (l.stream) in
    record {
      front = l.front ++ packet ∷ [];
      early = l.early;
      merged = append_first (packet ∷ []) l.merged;
      late = l.late;
      whole = l.whole;
      stream =
          rw (i.no_high, i.none_left, append-nil (s.wire ++ packet), concat-snoc l.front packet)
            (ap (λ (t : List ℕ). t ++ packet) (sym (append-nil s.wire) ∙ wire_now));
      counted = l.counted;
    }

direct_write-Sound :
    (answer : Answer) (packet : List ℕ) (sys : System) {hs ls : List (List ℕ)}
    → Idle sys.socket
    → Valid sys.socket (waiting sys.pipe)
    → Live sys.socket hs ls
    → waiting sys.pipe ≤ 0xffff
    → Sound (direct_write answer packet sys) (hs ++ packet ∷ []) ls
unfolding direct_write
direct_write-Sound answer packet sys {hs} {ls} i v l b =
    let n = taken answer (length packet) in
    let same : waiting sys.pipe ≡ waiting (sys.pipe ++ want_write ∷ []) =
      omega (arith, waiting-snoc sys.pipe want_write) in
    either (λ s. Sound s (hs ++ packet ∷ []) ls) (n == length packet)
      (λ e. (live v (direct_write_all-Live packet sys.socket i l), b))
      (λ e. (
        live (v.0, v.1 ∙ same) (direct_write-Live n packet sys.socket i l),
        omega (arith, same, b),
      ))

pub socket_server_send-Accepts :
    (locked : Bool) (answer : Answer) (packet : List ℕ) (sys : System) {hs ls : List (List ℕ)}
    → Sound sys hs ls
    → Accepts (λ o. add_written o packet hs) ls (socket_server_send locked answer packet sys)
unfolding socket_server_send
socket_server_send-Accepts locked answer packet sys {hs} {ls} h =
    let s = sys.socket in
    let accepted = λ (o : Outcome). add_written o packet hs in
    let P = Accepts accepted ls in
    either P (is_invalid s.type || s.closing) (λ e. accepts sys refused h)
      (λ e.
        either P (can_direct_write s && not locked)
          (λ f. accepts _ written (writes (both (can_direct_write s) (not locked) f).0 e h))
          (λ f. push_packet-Accepts false packet sys.pipe s accepted h))
  where
    writes :
        can_direct_write sys.socket ≡ true
        → (is_invalid sys.socket.type || sys.socket.closing) ≡ false
        → Sound sys hs ls
        → Sound (direct_write answer packet sys) (hs ++ packet ∷ []) ls
    writes e f (live v l, b) =
        direct_write-Sound answer packet sys (can_direct_write-Idle sys.socket e) v l b
    writes e f (dead d c g, b) = contrary (ap (λ (b : Bool). b || sys.socket.closing) d) f
