-- ===== src/Socket/Request/Order.antt =====
-- The order in which socket_server.c writes the packets of a socket, whatever the threads do.
pub mod Closed
pub mod Sending
pub mod Once
pub mod Drain
use skynet_notes.Prelude.{
  ℕ, zero, suc, ◌+◌, ◌-◌, ◌≤◌, ◌≡◌, ◌≢◌, refl, ap, sym, ◌∙◌, Bool, true, false, Option, none, some,
  List, [], ◌∷◌, ◌++◌, append-nil, append_assoc, length, ltb, ◌&&◌, if◌then◌else◌, either,
  Bool-cases, inl, inr, arith,
}
use skynet_notes.Prelude.Interleave.{Interleave, neither, append_second}
use skynet_notes.Socket.{
  SocketType, invalid, reserve, plisten, listen, connecting, connected, halfclose_read,
  halfclose_write, paccept, bind, Socket, Result, Answer, is_invalid,
}
use skynet_notes.Socket.Send.{send_buffer}
use skynet_notes.Socket.Buffers.{concat, packets, bytes, bytes-whole, concat-append}
use skynet_notes.Socket.Request.{
  Request, send_packet, want_write, want_close, want_resume, want_pause, System, new_fd, ctrl_cmd,
  first_request, serve, poll_write, can_direct_write, Outcome,
}
use skynet_notes.Socket.Request.Reach.{
  opens, is_packet, add_written, Reach, start, sends, sends_low, asks, serves, writable, readable,
  eof,
}
use skynet_notes.Socket.Request.State.{
  LiveAt, Live, Valid, Gone, Holds, live, dead, Fine, fine, contrary, direct_bytes,
}
use skynet_notes.Socket.Request.Low.{Fine-eq}
use skynet_notes.Socket.Request.Flush.{Keeps, send_buffer-Fine, forward-Keeps, poll_eof-Keeps}
use skynet_notes.Socket.Request.Serve.{weight, waiting, Holds-eq, ctrl_cmd-Fine}
use skynet_notes.Socket.Request.Stream.{
  Sound, Accepts, accepts, waiting-snoc, Holds-sending, Idle, can_direct_write-Idle,
  socket_server_send-Accepts, socket_server_send_lowpriority-Accepts,
}

opens-valid : (type : SocketType) → opens type ≡ true → is_invalid type ≡ false
opens-valid connected e = refl
opens-valid paccept e = refl
opens-valid bind e = refl
opens-valid invalid e = absurd (ground (arith, e))
opens-valid reserve e = refl
opens-valid plisten e = refl
opens-valid listen e = refl
opens-valid connecting e = refl
opens-valid halfclose_read e = refl
opens-valid halfclose_write e = refl

starts :
    (type : SocketType) (reading : Bool) → opens type ≡ true → Holds (new_fd type reading) 0 [] []
unfolding new_fd
starts type reading e =
    live (opens-valid type e, refl)
      (record {
        front = [];
        early = [];
        merged = neither;
        late = refl;
        whole = tt;
        stream = refl;
        counted = refl;
      })

Accepts-Sound :
    {accepted : Outcome → List (List ℕ)} {ls : List (List ℕ)} {x : Option (System × Outcome)}
    {sys : System} {o : Outcome}
    → x ≡ some (sys, o)
    → Accepts accepted ls x
    → Sound sys (accepted o) ls
Accepts-Sound e p = inner (rw e at p)
  where
    inner :
        {accepted : Outcome → List (List ℕ)} {ls : List (List ℕ)} {sys : System} {o : Outcome}
        → Accepts accepted ls (some (sys, o))
        → Sound sys (accepted o) ls
    inner (accepts _ _ h) = h

Fine-Holds :
    {k : ℕ} {hs ls : List (List ℕ)} {s : Socket} {r : Result}
    → Fine k hs ls (some (s, r))
    → Holds s k hs ls
Fine-Holds (fine _ _ h) = h

pub on_open :
    {s : Socket} {k : ℕ} {hs ls : List (List ℕ)}
    → is_invalid s.type ≡ false
    → Holds s k hs ls
    → Valid s k × Live s hs ls
on_open e (live v l) = (v, l)
on_open e (dead d c g) = contrary d e

no_weight : (r : Request) → is_packet r ≡ false → weight r ≡ 0
no_weight (send_packet low packet) e = absurd (ground (arith, e))
no_weight want_write e = refl
no_weight (want_close shutdown) e = refl
no_weight want_resume e = refl
no_weight want_pause e = refl

pub Reach-Sound :
    {sys : System} {hs ls : List (List ℕ)} {n : ℕ} → Reach sys hs ls n → Sound sys hs ls
Reach-Sound (start type reading e) = (starts type reading e, omega arith)
Reach-Sound (sends locked answer packet {sys} {sys'} {o} {hs} {ls} r e) =
    Accepts-Sound e (socket_server_send-Accepts locked answer packet sys (Reach-Sound r))
Reach-Sound (sends_low packet {sys} {sys'} {o} {hs} {ls} r e) =
    Accepts-Sound e (socket_server_send_lowpriority-Accepts packet sys (Reach-Sound r))
Reach-Sound (asks q {sys} r e) =
    let (h, b) = Reach-Sound r in
    let same : waiting (sys.pipe ++ q ∷ []) ≡ waiting sys.pipe =
      omega (arith, waiting-snoc sys.pipe q, no_weight q e) in
    (Holds-eq (sym same) h, omega (arith, same, b))
Reach-Sound (serves fails q {s} {s'} {pipe} {res} r e) =
    let (h, b) = Reach-Sound r in
    (Fine-Holds (Fine-eq e (ctrl_cmd-Fine fails q pipe s h)), omega (arith, b))
Reach-Sound (writable locked fails answers {s} r v e) =
    let (h, b) = Reach-Sound r in
    let (w, l) = on_open v h in
    (Fine-Holds (Fine-eq e (send_buffer-Fine locked fails answers s w l)), b)
Reach-Sound (readable q {s} r v) =
    let (h, b) = Reach-Sound r in let (w, l) = on_open v h in (forward-Keeps q s w l, b)
Reach-Sound (eof {s} r v) =
    let (h, b) = Reach-Sound r in let (w, l) = on_open v h in (poll_eof-Keeps s w l, b)

-- What is in the buffers of a socket, in the order in which it will be written.
abbrev pub pending : Socket → List ℕ
pending s = (direct_bytes s.direct ++ bytes s.high) ++ bytes s.low

-- The packets of high priority `hs` and of low priority `ls`, merged with each in its order, are the bytes that
-- were written and then those that are left; a socket that is closed has dropped what was left.
pub data Stream (s : Socket) (hs ls : List (List ℕ)) : Type 0 where
  in_buffers :
      (order : List (List ℕ))
      → is_invalid s.type ≡ false
      → Interleave hs ls order
      → s.wire ++ pending s ≡ concat order
      → Stream s hs ls
  dropped :
      (order : List (List ℕ)) (left : List ℕ)
      → is_invalid s.type ≡ true
      → Interleave hs ls order
      → s.wire ++ left ≡ concat order
      → Stream s hs ls

pub Live-order :
    (s : Socket) {hs ls : List (List ℕ)} (l : Live s hs ls)
    → Interleave hs ls (l.front ++ packets s.low)
      × (s.wire ++ pending s ≡ concat (l.front ++ packets s.low))
Live-order s l = (
  rw (l.late) (append_second (packets s.low) l.merged),
  sym (append_assoc s.wire (direct_bytes s.direct ++ bytes s.high) (bytes s.low))
      ∙ ap (λ (t : List ℕ). t ++ bytes s.low) l.stream
      ∙ ap (λ (t : List ℕ). concat l.front ++ t) (bytes-whole s.low l.whole)
      ∙ sym (concat-append l.front (packets s.low)),
)

Holds-Stream : (s : Socket) {k : ℕ} {hs ls : List (List ℕ)} → Holds s k hs ls → Stream s hs ls
Holds-Stream s (live v l) =
    let (m, e) = Live-order s l in in_buffers (l.front ++ packets s.low) v.0 m e
Holds-Stream s (dead d c g) = dropped g.order g.rest d g.merged g.stream

-- Whatever the threads did, the bytes written to a socket and the bytes in its buffers are, one behind the
-- other, packets that were accepted: no byte is lost, doubled or mixed with another packet's, and of the packets
-- of one priority none overtakes another. Of a socket that is closed only the bytes written are the start of
-- such a sequence.
pub Reach-Stream :
    {sys : System} {hs ls : List (List ℕ)} {n : ℕ} → Reach sys hs ls n → Stream sys.socket hs ls
Reach-Stream {sys} r = Holds-Stream sys.socket (Reach-Sound r).0

Fine-total :
    {k : ℕ} {hs ls : List (List ℕ)} {x : Option (Socket × Result)} → Fine k hs ls x → x ≢ none
Fine-total (fine s r h) = λ e. absurd (ground (arith, e))

first_request-total :
    (fails : Bool) (pipe : List Request) (s : Socket) {hs ls : List (List ℕ)}
    → Holds s (waiting pipe) hs ls
    → first_request fails pipe s ≢ none
first_request-total fails [] s h = λ e. absurd (ground (arith, e))
first_request-total fails (r ∷ pipe) s h = Fine-total (ctrl_cmd-Fine fails r pipe s h)

poll_write-total :
    (locked fails : Bool) (answers : List Answer) (s : Socket) {k : ℕ} {hs ls : List (List ℕ)}
    → Holds s k hs ls
    → poll_write locked fails answers s ≢ none
unfolding poll_write
poll_write-total locked fails answers s h =
    either (λ o. o ≢ none) (is_invalid s.type) (λ d e. absurd (ground (arith, e)))
      (λ v. let (w, l) = on_open v h in Fine-total (send_buffer-Fine locked fails answers s w l))

-- In every state that is reached no assertion of the socket thread fails: neither those on the two lists and on
-- their size when it sends what is left, nor the one on the count of packets when it takes a request.
pub Reach-asserts :
    (locked fails : Bool) (answers : List Answer) {sys : System} {hs ls : List (List ℕ)} {n : ℕ}
    → Reach sys hs ls n
    → (poll_write locked fails answers sys.socket ≢ none) × (serve fails sys ≢ none)
unfolding serve
Reach-asserts locked fails answers {sys} r =
    let h = (Reach-Sound r).0 in
    (
      poll_write-total locked fails answers sys.socket h,
      first_request-total fails sys.pipe sys.socket h,
    )

idle_pipe :
    (sys : System)
    → sys.socket.sending ≡ waiting sys.pipe
    → (can_direct_write sys.socket && ltb 0 (waiting sys.pipe)) ≡ false
idle_pipe sys c =
    let s = sys.socket in
    elim (Bool-cases (can_direct_write s)) [
      | inl e ↦ let z = Idle.none_waits (can_direct_write-Idle s e) in ground (arith, c, z, e)
      | inr e ↦ ap (λ (b : Bool). b && ltb 0 (waiting sys.pipe)) e
    ]

-- The count of a socket is that of the packets that wait for it in the pipe, and stays within its 16 bits; a
-- worker thread never writes a packet itself while another waits.
pub Reach-sending :
    {sys : System} {hs ls : List (List ℕ)} {n : ℕ}
    → Reach sys hs ls n
    → (sys.socket.sending ≡ waiting sys.pipe)
      × (waiting sys.pipe ≤ 0xffff)
      × ((can_direct_write sys.socket && ltb 0 (waiting sys.pipe)) ≡ false)
Reach-sending {sys} r =
    let (h, b) = Reach-Sound r in (Holds-sending h, b, idle_pipe sys (Holds-sending h))
