-- ===== src/Socket/Request/Serve.antt =====
-- The requests that the socket thread of socket_server.c takes from the pipe: they keep what holds of a socket.
use skynet_notes.Prelude.{
  ℕ, suc, ◌+◌, ◌≡◌, refl, ap, Bool, true, ◌||◌, some, List, [], ◌∷◌, ◌==◌, either, either_at, arith,
}
use skynet_notes.Socket.{
  Socket, SocketType, invalid, reserve, plisten, listen, connecting, connected, halfclose_read,
  halfclose_write, paccept, bind, Result, is_invalid,
}
use skynet_notes.Socket.Close.{close_socket, resume_socket, pause_socket}
use skynet_notes.Socket.Send.{not_sending, send_socket, trigger_write}
use skynet_notes.Socket.Request.{
  Request, send_packet, want_write, want_close, want_resume, want_pause, dec_sending_ref,
  with_result, ctrl_cmd,
}
use skynet_notes.Socket.Request.Reach.{refuses, add_high, add_low}
use skynet_notes.Socket.Request.State.{Live, Valid, Holds, live, dead, Fine, fine, contrary}
use skynet_notes.Socket.Request.Flush.{
  Keeps, close_socket-Keeps, resume_socket-Keeps, pause_socket-Keeps, trigger_write-Keeps,
}
use skynet_notes.Socket.Request.Append.{accepted, add_high-refused, add_low-refused}

pub invalid_only : (t : SocketType) → is_invalid t ≡ true → t ≡ invalid
invalid_only invalid e = refl
invalid_only reserve e = absurd (ground (arith, e))
invalid_only plisten e = absurd (ground (arith, e))
invalid_only listen e = absurd (ground (arith, e))
invalid_only connecting e = absurd (ground (arith, e))
invalid_only connected e = absurd (ground (arith, e))
invalid_only halfclose_read e = absurd (ground (arith, e))
invalid_only halfclose_write e = absurd (ground (arith, e))
invalid_only paccept e = absurd (ground (arith, e))
invalid_only bind e = absurd (ground (arith, e))

invalid-refuses : (s : Socket) → is_invalid s.type ≡ true → refuses s ≡ true
invalid-refuses s e = ap (λ (t : SocketType). not_sending t || s.closing) (invalid_only s.type e)

send_socket-Keeps :
    (fails low : Bool) (packet : List ℕ) (s : Socket) {k : ℕ} {hs ls : List (List ℕ)}
    → Holds s k hs ls
    → Keeps k
        (add_high (send_packet low packet) (refuses s) hs)
        (add_low (send_packet low packet) (refuses s) ls)
        (send_socket fails low packet s)
unfolding send_socket
send_socket-Keeps fails low packet s {k} {hs} {ls} h =
    let r = send_packet low packet in
    let Q = λ (b : Bool) (p : Socket × Result). Keeps k (add_high r b hs) (add_low r b ls) p in
    either_at Q (refuses s) (λ e. rw (add_high-refused r hs, add_low-refused r ls) h)
      (λ e. elim h [
        | live v l ↦ accepted fails low packet s v l
        | dead d c g ↦ contrary (invalid-refuses s d) e
      ])

dec_sending_ref-Fine :
    (r : Result) (s : Socket) {k : ℕ} {hs ls : List (List ℕ)}
    → Holds s (suc k) hs ls
    → Fine k hs ls (with_result r (dec_sending_ref s))
unfolding dec_sending_ref
dec_sending_ref-Fine r s {k} {hs} {ls} (live v l) =
    either (λ o. Fine k hs ls (with_result r o)) (s.sending == 0)
      (λ e. absurd (ground (arith, e, v.1))) (λ e. fine _ _ (live (v.0, ground (arith, v.1)) l))
dec_sending_ref-Fine r s {k} {hs} {ls} (dead d c g) =
    either (λ o. Fine k hs ls (with_result r o)) (s.sending == 0)
      (λ e. absurd (ground (arith, e, c))) (λ e. fine _ _ (dead d (ground (arith, c)) g))

-- How many packets wait in the pipe.
abbrev pub weight : Request → ℕ
weight (send_packet low packet) = 1
weight _ = 0

abbrev pub waiting : List Request → ℕ
waiting [] = 0
waiting (r ∷ pipe) = weight r + waiting pipe

pub Holds-eq :
    {s : Socket} {k m : ℕ} {hs ls : List (List ℕ)} → k ≡ m → Holds s k hs ls → Holds s m hs ls
Holds-eq {s} {hs = hs} {ls} e h = rw e at h

-- A request that leaves a closed socket alone.
unmoved :
    (f : Socket → Socket × Result) {k : ℕ} {hs ls : List (List ℕ)} (s : Socket)
    → (is_invalid s.type ≡ true → (f s).0 ≡ s)
    → (Valid s k → Live s hs ls → Keeps k hs ls (f s))
    → Holds s k hs ls
    → Fine k hs ls (some (f s))
unmoved f s same keeps (live v l) = fine _ _ (keeps v l)
unmoved f s same keeps (dead d c g) = fine _ _ (rw (same d) (dead d c g))

pub ctrl_cmd-Fine :
    (fails : Bool) (r : Request) (pipe : List Request) (s : Socket) {hs ls : List (List ℕ)}
    → Holds s (waiting (r ∷ pipe)) hs ls
    → Fine
        (waiting pipe)
        (add_high r (refuses s) hs)
        (add_low r (refuses s) ls)
        (ctrl_cmd fails r s)
unfolding ctrl_cmd trigger_write close_socket resume_socket pause_socket
ctrl_cmd-Fine fails (send_packet low packet) pipe s h =
    dec_sending_ref-Fine (send_socket fails low packet s).1 (send_socket fails low packet s).0
      (Holds-eq (omega arith) (send_socket-Keeps fails low packet s h))
ctrl_cmd-Fine fails want_write pipe s h =
    unmoved (trigger_write fails) s (λ e. rw e refl) (trigger_write-Keeps fails s)
      (Holds-eq (omega arith) h)
ctrl_cmd-Fine fails (want_close shutdown) pipe s h =
    unmoved (close_socket shutdown) s (λ e. rw e refl) (close_socket-Keeps shutdown s)
      (Holds-eq (omega arith) h)
ctrl_cmd-Fine fails want_resume pipe s h =
    unmoved (resume_socket fails) s (λ e. rw e refl) (resume_socket-Keeps fails s)
      (Holds-eq (omega arith) h)
ctrl_cmd-Fine fails want_pause pipe s h =
    unmoved (pause_socket fails) s (λ e. rw e refl) (pause_socket-Keeps fails s)
      (Holds-eq (omega arith) h)
