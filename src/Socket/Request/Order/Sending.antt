-- ===== src/Socket/Request/Order/Sending.antt =====
-- Sending raises no SOCKET_CLOSE of socket_server.c, and the requests raise it as the socket is shut.
use skynet_notes.Prelude.{
  ℕ, ◌+◌, ◌≡◌, refl, Bool, true, false, Option, none, some, List, [], ◌∷◌, ltb, leb, ◌==◌, ◌&&◌,
  ◌||◌, not, either,
}
use skynet_notes.Socket.{
  WriteBuffer, Socket, Result, nothing, socket_error, socket_warning, reset, socket_close,
  socket_data, socket_open, Answer, is_invalid, is_empty, send_buffer_empty,
}
use skynet_notes.Socket.Close.{close_write, pause_socket}
use skynet_notes.Socket.Send.{
  Sent, send_list, sent_high, sent_low, list_uncomplete, raise_uncomplete, not_reset, stopped,
  check_close, with_nothing, send_low, send_high, take_direct, send_buffer, warning_size, warn,
  append_high, append_low, not_sending, queue_packet, send_socket, trigger_write,
}
use skynet_notes.Socket.Request.{
  Request, send_packet, want_write, want_close, want_resume, want_pause, dec_sending_ref,
  with_result, ctrl_cmd,
}
use skynet_notes.Socket.Request.Reach.{closes}
use skynet_notes.Socket.Request.Order.Closed.{
  Told, Tells, same, closing_shut, stays_shut, force_close-shut, close_write-Told,
  close_socket-Told, resume_socket-Told,
}

-- The same of a function that returns a result, if no assertion fails.
abbrev pub TellsIf : ℕ → Option (Socket × Result) → Type 0
TellsIf n none = Unit {0}
TellsIf n (some r) = Tells n r

pub not_reset-closes : (r : Result) → closes (not_reset r) ≡ closes r
not_reset-closes nothing = refl
not_reset-closes (socket_data b) = refl
not_reset-closes socket_close = refl
not_reset-closes socket_open = refl
not_reset-closes socket_error = refl
not_reset-closes (socket_warning n) = refl
not_reset-closes reset = refl

pub stopped-TellsIf :
    (s : Socket) {n : ℕ}
    → is_invalid s.type ≡ false
    → Told s.type s.closing n
    → TellsIf n (stopped s)
stopped-TellsIf s {n} v t =
    let r = close_write s in rw (not_reset-closes r.1) (close_write-Told s v t)

pub check_close-TellsIf :
    (fails : Bool) (s : Socket) {n : ℕ} → Told s.type s.closing n → TellsIf n (check_close fails s)
unfolding check_close
check_close-TellsIf fails s {n} t =
    let P = TellsIf n in
    either P (not (send_buffer_empty s && (s.wb_size == 0))) (λ e. tt)
      (λ e.
        either P s.closing (λ c. stays_shut t (closing_shut t c) (force_close-shut s))
          (λ c.
            either P (s.writing && fails) (λ f. same t)
              (λ f. either P (ltb 0 s.warn_size) (λ g. same t) (λ g. same t))))

pub raise_uncomplete-TellsIf :
    (l : List WriteBuffer) (s : Socket) {n : ℕ}
    → Told s.type s.closing n
    → TellsIf n (with_nothing (raise_uncomplete l s))
raise_uncomplete-TellsIf [] s t = tt
raise_uncomplete-TellsIf (wb ∷ l) s {n} t =
    either (λ o. TellsIf n (with_nothing o)) (is_empty s.high) (λ e. same t) (λ e. tt)

pub send_low-TellsIf :
    (fails : Bool) (s : Socket) (r : Sent) {n : ℕ}
    → is_invalid s.type ≡ false
    → Told s.type s.closing n
    → TellsIf n (send_low fails s r)
unfolding send_low
send_low-TellsIf fails s r {n} v t =
    let P = TellsIf n in
    either P r.failed (λ e. stopped-TellsIf (sent_low s r) v t)
      (λ e.
        either P (list_uncomplete r.list) (λ f. raise_uncomplete-TellsIf r.list (sent_low s r) t)
          (λ f.
            either P (is_empty r.list) (λ g. check_close-TellsIf fails (sent_low s r) t)
              (λ g. same t)))

pub send_high-TellsIf :
    (fails : Bool) (s : Socket) (r : Sent) {n : ℕ}
    → is_invalid s.type ≡ false
    → Told s.type s.closing n
    → TellsIf n (send_high fails s r)
unfolding send_high
send_high-TellsIf fails s r {n} v t =
    let P = TellsIf n in
    either P r.failed (λ e. stopped-TellsIf (sent_high s r) v t)
      (λ e.
        either P (is_empty r.list)
          (λ f. send_low-TellsIf fails (sent_high s r) (send_list r.answers s.low) v t)
          (λ f. same t))

pub take_direct-Told :
    (d : Option WriteBuffer) (s : Socket) {n : ℕ}
    → is_invalid s.type ≡ false
    → Told s.type s.closing n
    → (is_invalid (take_direct d s).type ≡ false)
      × Told (take_direct d s).type (take_direct d s).closing n
take_direct-Told none s v t = (v, t)
take_direct-Told (some wb) s v t = (v, t)

pub send_buffer-TellsIf :
    (locked fails : Bool) (answers : List Answer) (s : Socket) {n : ℕ}
    → is_invalid s.type ≡ false
    → Told s.type s.closing n
    → TellsIf n (send_buffer locked fails answers s)
unfolding send_buffer
send_buffer-TellsIf locked fails answers s {n} v t =
    let P = TellsIf n in
    let s' = take_direct s.direct s in
    let (w, u) = take_direct-Told s.direct s v t in
    either P locked (λ e. same t)
      (λ e.
        either P (list_uncomplete s'.low) (λ f. tt)
          (λ f. send_high-TellsIf fails s' (send_list answers s'.high) w u))

pub warn-Told : (s : Socket) {n : ℕ} → Told s.type s.closing n → Tells n (warn s)
warn-Told s {n} t =
    either (Tells n) (leb warning_size s.wb_size && leb s.warn_size s.wb_size) (λ e. same t)
      (λ e. same t)

pub queue_packet-Told :
    (fails low : Bool) (packet : List ℕ) (s : Socket) {n : ℕ}
    → Told s.type s.closing n
    → Tells n (queue_packet fails low packet s)
queue_packet-Told fails low packet s {n} t =
    let P = Tells n in
    let s' = record (append_high packet s) { writing = true } in
    either P (send_buffer_empty s)
      (λ e. either P (not s.writing && fails) (λ f. same t) (λ f. warn-Told s' t))
      (λ e.
        either P low (λ f. warn-Told (append_low packet s) t)
          (λ f. warn-Told (append_high packet s) t))

pub dec_sending_ref-TellsIf :
    (n : ℕ) (r : Result) (s : Socket)
    → Told s.type s.closing (n + closes r)
    → TellsIf n (with_result r (dec_sending_ref s))
unfolding dec_sending_ref
dec_sending_ref-TellsIf n r s t =
    either (λ o. TellsIf n (with_result r o)) (s.sending == 0) (λ e. tt) (λ e. t)

pub ctrl_cmd-TellsIf :
    (fails : Bool) (r : Request) (s : Socket) {n : ℕ}
    → Told s.type s.closing n
    → TellsIf n (ctrl_cmd fails r s)
unfolding ctrl_cmd send_socket trigger_write pause_socket
ctrl_cmd-TellsIf fails (send_packet low packet) s {n} t =
    let r = send_socket fails low packet s in
    dec_sending_ref-TellsIf n r.1 r.0 (
      either (Tells n) (not_sending s.type || s.closing) (λ e. same t)
        (λ e. queue_packet-Told fails low packet s t))
ctrl_cmd-TellsIf fails want_write s {n} t =
    either (Tells n) (is_invalid s.type) (λ e. same t)
      (λ e. either (λ r. Tells n (s, r)) (not s.writing && fails) (λ f. same t) (λ f. same t))
ctrl_cmd-TellsIf fails (want_close shutdown) s t = close_socket-Told shutdown s t
ctrl_cmd-TellsIf fails want_resume s t = resume_socket-Told fails s t
ctrl_cmd-TellsIf fails want_pause s {n} t =
    either (Tells n) (is_invalid s.type) (λ e. same t)
      (λ e. either (λ r. Tells n (s, r)) (s.reading && fails) (λ f. same t) (λ f. same t))
