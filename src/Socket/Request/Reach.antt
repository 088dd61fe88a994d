-- ===== src/Socket/Request/Reach.antt =====
-- The steps of the threads on one TCP socket of socket_server.c, in any order.
use skynet_notes.Prelude.{ℕ, ◌+◌, ◌≡◌, Bool, true, false, ◌||◌, some, List, [], ◌∷◌, ◌++◌}
use skynet_notes.Socket.{
  SocketType, connected, paccept, bind, Socket, Result, socket_close, Answer, is_invalid,
}
use skynet_notes.Socket.Close.{Received, forward_message_tcp, poll_eof}
use skynet_notes.Socket.Send.{not_sending, send_buffer}
use skynet_notes.Socket.Request.{
  Request, send_packet, System, new_fd, ctrl_cmd, Outcome, written, socket_server_send,
  socket_server_send_lowpriority,
}

-- The types in which `new_fd` leaves a socket to send to.
abbrev pub opens : SocketType → Bool
opens connected = true
opens paccept = true
opens bind = true
opens _ = false

abbrev pub is_packet : Request → Bool
is_packet (send_packet low packet) = true
is_packet _ = false

-- The packets of high priority that were accepted, behind a direct write and behind a request, and those of low
-- priority.
abbrev pub add_written : Outcome → List ℕ → List (List ℕ) → List (List ℕ)
add_written written packet hs = hs ++ packet ∷ []
add_written _ packet hs = hs

abbrev pub refuses : Socket → Bool
refuses s = not_sending s.type || s.closing

abbrev pub add_high : Request → Bool → List (List ℕ) → List (List ℕ)
add_high (send_packet false packet) false hs = hs ++ packet ∷ []
add_high _ _ hs = hs

abbrev pub add_low : Request → Bool → List (List ℕ) → List (List ℕ)
add_low (send_packet true packet) false ls = ls ++ packet ∷ []
add_low _ _ ls = ls

abbrev pub closes : Result → ℕ
closes socket_close = 1
closes _ = 0

-- The states that are reached, with the packets accepted so far, and how often SOCKET_CLOSE was raised.
pub data Reach : System → List (List ℕ) → List (List ℕ) → ℕ → Type 0 where
  start :
      (type : SocketType) (reading : Bool)
      → opens type ≡ true
      → Reach (record { socket = new_fd type reading; pipe = [] }) [] [] 0
  sends :
      (locked : Bool) (answer : Answer) (packet : List ℕ) {sys sys' : System} {o : Outcome}
      {hs ls : List (List ℕ)} {n : ℕ}
      → Reach sys hs ls n
      → socket_server_send locked answer packet sys ≡ some (sys', o)
      → Reach sys' (add_written o packet hs) ls n
  sends_low :
      (packet : List ℕ) {sys sys' : System} {o : Outcome} {hs ls : List (List ℕ)} {n : ℕ}
      → Reach sys hs ls n
      → socket_server_send_lowpriority packet sys ≡ some (sys', o)
      → Reach sys' hs ls n
  asks :
      (r : Request) {sys : System} {hs ls : List (List ℕ)} {n : ℕ}
      → Reach sys hs ls n
      → is_packet r ≡ false
      → Reach (record sys { pipe = sys.pipe ++ r ∷ [] }) hs ls n
  serves :
      (fails : Bool) (r : Request) {s s' : Socket} {pipe : List Request} {res : Result}
      {hs ls : List (List ℕ)} {n : ℕ}
      → Reach (record { socket = s; pipe = r ∷ pipe }) hs ls n
      → ctrl_cmd fails r s ≡ some (s', res)
      → Reach
          (record { socket = s'; pipe = pipe })
          (add_high r (refuses s) hs)
          (add_low r (refuses s) ls)
          (n + closes res)
  writable :
      (locked fails : Bool) (answers : List Answer) {s s' : Socket} {pipe : List Request}
      {res : Result} {hs ls : List (List ℕ)} {n : ℕ}
      → Reach (record { socket = s; pipe = pipe }) hs ls n
      → is_invalid s.type ≡ false
      → send_buffer locked fails answers s ≡ some (s', res)
      → Reach (record { socket = s'; pipe = pipe }) hs ls (n + closes res)
  readable :
      (r : Received) {s : Socket} {pipe : List Request} {hs ls : List (List ℕ)} {n : ℕ}
      → Reach (record { socket = s; pipe = pipe }) hs ls n
      → is_invalid s.type ≡ false
      → Reach
          (record { socket = (forward_message_tcp r s).0; pipe = pipe })
          hs
          ls
          (n + closes (forward_message_tcp r s).1)
  eof :
      {s : Socket} {pipe : List Request} {hs ls : List (List ℕ)} {n : ℕ}
      → Reach (record { socket = s; pipe = pipe }) hs ls n
      → is_invalid s.type ≡ false
      → Reach (record { socket = (poll_eof s).0; pipe = pipe }) hs ls (n + closes (poll_eof s).1)
