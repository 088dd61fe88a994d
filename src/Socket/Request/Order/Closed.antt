-- ===== src/Socket/Request/Order/Closed.antt =====
-- How often SOCKET_CLOSE is raised for one socket of socket_server.c.
use skynet_notes.Prelude.{
  ℕ, ◌+◌, ◌≡◌, refl, Bool, true, false, [], ◌∷◌, ◌&&◌, ◌||◌, not, if◌then◌else◌, either, arith,
}
use skynet_notes.Socket.{
  SocketType, invalid, reserve, plisten, listen, connecting, connected, halfclose_read,
  halfclose_write, paccept, bind, Socket, Result, is_invalid, is_halfclose_read, is_halfclose_write,
}
use skynet_notes.Socket.Close.{
  force_close, close_write, nomore_sending_data, close_socket, Received, read_error, read_again,
  read_bytes, end_of_stream, forward_message_tcp, poll_eof, resumed, opened, resume_socket,
}
use skynet_notes.Socket.Request.Reach.{closes}

-- The other side can send no more, or the socket is closed.
abbrev pub shut : SocketType → Bool
shut t = is_invalid t || is_halfclose_read t

-- SOCKET_CLOSE was raised `n` times: once if the socket is shut, else not at all. A socket that is to be closed
-- is shut.
pub record Told (type : SocketType) (closing : Bool) (n : ℕ) : Type 0 where
  pub raised : n ≡ (if shut type then 1 else 0)
  pub is_shut : (closing && not (shut type)) ≡ false

abbrev pub Tells : ℕ → Socket × Result → Type 0
Tells n r = Told r.0.type r.0.closing (n + closes r.1)

module _ {type : SocketType} {closing : Bool} {n : ℕ} (t : Told type closing n) where
  pub same : Told type closing (n + 0)
  same = record { raised = omega (arith, t.raised); is_shut = t.is_shut }

  pub closing_shut : closing ≡ true → shut type ≡ true
  closing_shut e = ground (arith, t.is_shut, e)

  stays_open :
      {type' : SocketType} → shut type ≡ false → shut type' ≡ false → Told type' closing (n + 0)
  stays_open e f = record {
    raised = ground (arith, t.raised, e, f);
    is_shut = ground (arith, t.is_shut, e, f);
  }

  pub stays_shut :
      {type' : SocketType} {closing' : Bool}
      → shut type ≡ true
      → shut type' ≡ true
      → Told type' closing' (n + 0)
  stays_shut e f = record { raised = ground (arith, t.raised, e, f); is_shut = ground (arith, f) }

  shuts :
      {type' : SocketType} {closing' : Bool}
      → shut type ≡ false
      → shut type' ≡ true
      → Told type' closing' (n + 1)
  shuts e f = record { raised = ground (arith, t.raised, e, f); is_shut = ground (arith, f) }

pub force_close-shut : (s : Socket) → shut (force_close s).type ≡ true
unfolding force_close
force_close-shut s =
    either (λ (t : Socket). shut t.type ≡ true) (is_invalid s.type) (λ e. ground (arith, e))
      (λ e. refl)

pub close_write-Told :
    (s : Socket) {n : ℕ}
    → is_invalid s.type ≡ false
    → Told s.type s.closing n
    → Tells n (close_write s)
unfolding close_write
close_write-Told s {n} v t =
    let P = Tells n in
    either P s.closing (λ e. stays_shut t (closing_shut t e) (force_close-shut s))
      (λ e.
        either P (is_halfclose_read s.type)
          (λ f. stays_shut t (ground (arith, f, v)) (force_close-shut s))
          (λ f.
            either P (is_halfclose_write s.type) (λ g. same t)
              (λ g. stays_open t (ground (arith, f, v)) refl)))

pub close_socket-Told :
    (shutdown : Bool) (s : Socket) {n : ℕ}
    → Told s.type s.closing n
    → Tells n (close_socket shutdown s)
unfolding close_socket
close_socket-Told shutdown s {n} t =
    let P = Tells n in
    either P (is_invalid s.type) (λ v. same t)
      (λ v.
        either P (shutdown || nomore_sending_data s)
          (λ e.
            either (λ r. Tells n (force_close s, r)) (is_halfclose_read s.type)
              (λ f. stays_shut t (ground (arith, f, v)) (force_close-shut s))
              (λ f. shuts t (ground (arith, f, v)) (force_close-shut s)))
          (λ e.
            either P (is_halfclose_read s.type)
              (λ f. stays_shut t (ground (arith, f, v)) (ground (arith, f, v)))
              (λ f. shuts t (ground (arith, f, v)) refl)))

end_of_stream-Told :
    (s : Socket) {n : ℕ}
    → is_invalid s.type ≡ false
    → Told s.type s.closing n
    → Tells n (end_of_stream s)
end_of_stream-Told s {n} v t =
    let P = Tells n in
    either P s.closing
      (λ e.
        let f = closing_shut t e in
        either (λ (r : Socket). Told r.type r.closing (n + 0)) (nomore_sending_data s)
          (λ g. stays_shut t f (force_close-shut s)) (λ g. same t))
      (λ e.
        either P (is_halfclose_read s.type) (λ f. same t)
          (λ f.
            either P (is_halfclose_write s.type)
              (λ g. shuts t (ground (arith, f, v)) (force_close-shut s))
              (λ g. shuts t (ground (arith, f, v)) refl)))

pub forward-Told :
    (r : Received) (s : Socket) {n : ℕ}
    → is_invalid s.type ≡ false
    → Told s.type s.closing n
    → Tells n (forward_message_tcp r s)
unfolding forward_message_tcp
forward-Told read_error s v t = same t
forward-Told read_again s v t = same t
forward-Told (read_bytes []) s v t = end_of_stream-Told s v t
forward-Told (read_bytes (b ∷ more)) s {n} v t =
    either (Tells n) (is_halfclose_read s.type) (λ e. same t) (λ e. same t)

pub poll_eof-Told :
    (s : Socket) {n : ℕ}
    → is_invalid s.type ≡ false
    → Told s.type s.closing n
    → Tells n (poll_eof s)
unfolding poll_eof
poll_eof-Told s {n} v t =
    either (λ r. Tells n (force_close s, r)) (is_halfclose_read s.type)
      (λ f. stays_shut t (ground (arith, f, v)) (force_close-shut s))
      (λ f. shuts t (ground (arith, f, v)) (force_close-shut s))

opened-Told :
    (s : Socket) (type : SocketType) {n : ℕ}
    → shut s.type ≡ false
    → Told s.type s.closing n
    → Tells n (opened (record s { reading = true }) (resumed type))
opened-Told s invalid e t = same t
opened-Told s reserve e t = same t
opened-Told s plisten e t = stays_open t e refl
opened-Told s listen e t = same t
opened-Told s connecting e t = same t
opened-Told s connected e t = stays_open t e refl
opened-Told s halfclose_read e t = same t
opened-Told s halfclose_write e t = same t
opened-Told s paccept e t = stays_open t e refl
opened-Told s bind e t = same t

pub resume_socket-Told :
    (fails : Bool) (s : Socket) {n : ℕ} → Told s.type s.closing n → Tells n (resume_socket fails s)
unfolding resume_socket
resume_socket-Told fails s {n} t =
    let P = Tells n in
    either P (is_invalid s.type) (λ v. same t)
      (λ v.
        either P (is_halfclose_read s.type) (λ f. same t)
          (λ f.
            either P (not s.reading && fails) (λ g. same t)
              (λ g. opened-Told s s.type (ground (arith, f, v)) t)))
