-- ===== src/Socket/Request/Order/Once.antt =====
-- SOCKET_CLOSE of socket_server.c, over all that the threads do.
use skynet_notes.Prelude.{
  ℕ, ◌≡◌, refl, Bool, true, false, Option, none, some, List, length, ◌==◌, ◌&&◌, ◌||◌, not, either,
  arith,
}
use skynet_notes.Socket.{
  SocketType, invalid, reserve, plisten, listen, connecting, connected, halfclose_read,
  halfclose_write, paccept, bind, Socket, Result, Answer, is_invalid,
}
use skynet_notes.Socket.Request.{
  Request, System, new_fd, inc_sending_ref, can_direct_write, Outcome, taken, push_packet,
  direct_write, socket_server_send, socket_server_send_lowpriority,
}
use skynet_notes.Socket.Request.Reach.{
  opens, Reach, start, sends, sends_low, asks, serves, writable, readable, eof,
}
use skynet_notes.Socket.Request.Order.Closed.{shut, Told, forward-Told, poll_eof-Told}
use skynet_notes.Socket.Request.Order.Sending.{TellsIf, ctrl_cmd-TellsIf, send_buffer-TellsIf}

-- A worker thread raises nothing.
abbrev KeepsTold : ℕ → Option (System × Outcome) → Type 0
KeepsTold n none = Unit {0}
KeepsTold n (some r) = Told r.0.socket.type r.0.socket.closing n

push_packet-KeepsTold :
    (low : Bool) (packet : List ℕ) (pipe : List Request) (s : Socket) {n : ℕ}
    → Told s.type s.closing n
    → KeepsTold n (push_packet low packet pipe (inc_sending_ref s))
unfolding inc_sending_ref
push_packet-KeepsTold low packet pipe s {n} t =
    either (λ o. KeepsTold n (push_packet low packet pipe o)) (s.sending == 0xffff) (λ e. tt)
      (λ e. t)

socket_server_send-KeepsTold :
    (locked : Bool) (answer : Answer) (packet : List ℕ) (sys : System) {n : ℕ}
    → Told sys.socket.type sys.socket.closing n
    → KeepsTold n (socket_server_send locked answer packet sys)
unfolding socket_server_send direct_write
socket_server_send-KeepsTold locked answer packet sys {n} t =
    let s = sys.socket in
    let P = KeepsTold n in
    either P (is_invalid s.type || s.closing) (λ e. t)
      (λ e.
        either P (can_direct_write s && not locked)
          (λ f.
            either (λ (r : System). Told r.socket.type r.socket.closing n)
              (taken answer (length packet) == length packet) (λ g. t) (λ g. t))
          (λ f. push_packet-KeepsTold false packet sys.pipe s t))

socket_server_send_lowpriority-KeepsTold :
    (packet : List ℕ) (sys : System) {n : ℕ}
    → Told sys.socket.type sys.socket.closing n
    → KeepsTold n (socket_server_send_lowpriority packet sys)
unfolding socket_server_send_lowpriority
socket_server_send_lowpriority-KeepsTold packet sys {n} t =
    either (KeepsTold n) (is_invalid sys.socket.type) (λ e. t)
      (λ e. push_packet-KeepsTold true packet sys.pipe sys.socket t)

starts_open : (type : SocketType) → opens type ≡ true → shut type ≡ false
starts_open connected e = refl
starts_open paccept e = refl
starts_open bind e = refl
starts_open invalid e = absurd (ground (arith, e))
starts_open reserve e = refl
starts_open plisten e = refl
starts_open listen e = refl
starts_open connecting e = refl
starts_open halfclose_read e = absurd (ground (arith, e))
starts_open halfclose_write e = refl

KeepsTold-eq : (n : ℕ) {x y : Option (System × Outcome)} → x ≡ y → KeepsTold n x → KeepsTold n y
KeepsTold-eq n e t = rw e at t

TellsIf-eq : (n : ℕ) {x y : Option (Socket × Result)} → x ≡ y → TellsIf n x → TellsIf n y
TellsIf-eq n e t = rw e at t

-- Whatever the threads did, SOCKET_CLOSE was raised once if the socket is closed or the other side can send no
-- more, and not at all otherwise; a socket that waits for its last bytes to be sent is one of which it was
-- raised.
pub Reach-Told :
    {sys : System} {hs ls : List (List ℕ)} {n : ℕ}
    → Reach sys hs ls n
    → Told sys.socket.type sys.socket.closing n
unfolding new_fd
Reach-Told (start type reading e) =
    let f = starts_open type e in record { raised = ground (arith, f); is_shut = refl }
Reach-Told (sends locked answer packet {sys} {sys'} {o} {n = n} r e) =
    KeepsTold-eq n e (socket_server_send-KeepsTold locked answer packet sys (Reach-Told r))
Reach-Told (sends_low packet {sys} {sys'} {o} {n = n} r e) =
    KeepsTold-eq n e (socket_server_send_lowpriority-KeepsTold packet sys (Reach-Told r))
Reach-Told (asks q r e) = Reach-Told r
Reach-Told (serves fails q {s} {s'} {pipe} {res} {n = n} r e) =
    TellsIf-eq n e (ctrl_cmd-TellsIf fails q s (Reach-Told r))
Reach-Told (writable locked fails answers {s} {s'} {pipe} {res} {n = n} r v e) =
    TellsIf-eq n e (send_buffer-TellsIf locked fails answers s v (Reach-Told r))
Reach-Told (readable q {s} r v) = forward-Told q s v (Reach-Told r)
Reach-Told (eof {s} r v) = poll_eof-Told s v (Reach-Told r)
