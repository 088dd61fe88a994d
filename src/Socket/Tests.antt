-- ===== src/Socket/Tests.antt =====
-- One run of the threads on a socket of socket_server.c, and the theorems at it.
use skynet_notes.Prelude.{◌≤◌, ◌≡◌, ◌≢◌, refl, true, false, ◌&&◌, none, some, [], ◌∷◌, ltb}
use skynet_notes.Socket.{connected, wrote}
use skynet_notes.Socket.Send.{send_socket, send_buffer, trigger_write}
use skynet_notes.Socket.Request.{
  send_packet, want_write, System, new_fd, inc_sending_ref, dec_sending_ref, ctrl_cmd, serve,
  poll_write, can_direct_write, direct_write, socket_server_send, socket_server_send_lowpriority,
}
use skynet_notes.Socket.Request.Reach.{Reach, start, sends, sends_low, serves}
use skynet_notes.Socket.Request.Serve.{waiting}
use skynet_notes.Socket.Request.Order.{Stream, Reach-Stream, Reach-asserts, Reach-sending}
use skynet_notes.Socket.Request.Order.Closed.{Told}
use skynet_notes.Socket.Request.Order.Once.{Reach-Told}
use skynet_notes.Socket.Request.Order.Drain.{Drained, whole_writes, Reach-Drained}

-- A packet of which `write` takes one byte, then one of each priority, of which the second waits in the pipe.
abbrev halfway : System
halfway = record {
  socket = record {
    type = connected;
    high = record { buffer = 4 ∷ 5 ∷ []; offset = 0 } ∷ [];
    low = [];
    wb_size = 2;
    warn_size = 0;
    sending = 1;
    size = 64;
    reading = true;
    writing = true;
    closing = false;
    direct = some (record { buffer = 1 ∷ 2 ∷ 3 ∷ []; offset = 1 });
    wire = 1 ∷ [];
  };
  pipe = send_packet true (6 ∷ []) ∷ [];
}

reaches_halfway : Reach halfway ((1 ∷ 2 ∷ 3 ∷ []) ∷ (4 ∷ 5 ∷ []) ∷ []) [] 0
unfolding new_fd socket_server_send direct_write inc_sending_ref socket_server_send_lowpriority
    ctrl_cmd trigger_write send_socket dec_sending_ref
reaches_halfway =
    serves false (send_packet false (4 ∷ 5 ∷ []))
      (serves false want_write
        (sends_low (6 ∷ [])
          (sends false (wrote 9) (4 ∷ 5 ∷ [])
            (sends false (wrote 1) (1 ∷ 2 ∷ 3 ∷ []) (start connected true refl) refl) refl)
          refl)
        refl)
      refl

Reach-Stream_example : Stream halfway.socket ((1 ∷ 2 ∷ 3 ∷ []) ∷ (4 ∷ 5 ∷ []) ∷ []) []
Reach-Stream_example = Reach-Stream reaches_halfway

Reach-asserts_example :
    (poll_write false false (wrote 3 ∷ []) halfway.socket ≢ none) × (serve false halfway ≢ none)
Reach-asserts_example = Reach-asserts false false (wrote 3 ∷ []) reaches_halfway

Reach-sending_example :
    (halfway.socket.sending ≡ waiting halfway.pipe)
    × (waiting halfway.pipe ≤ 0xffff)
    × ((can_direct_write halfway.socket && ltb 0 (waiting halfway.pipe)) ≡ false)
Reach-sending_example = Reach-sending reaches_halfway

Reach-Told_example : Told halfway.socket.type halfway.socket.closing 0
Reach-Told_example = Reach-Told reaches_halfway

Reach-Drained_example :
    Drained false
      ((1 ∷ 2 ∷ 3 ∷ []) ∷ (4 ∷ 5 ∷ []) ∷ [])
      []
      (send_buffer false false (whole_writes halfway.socket) halfway.socket)
Reach-Drained_example = Reach-Drained false reaches_halfway refl
