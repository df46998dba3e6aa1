-- ===== src/Server/Sound.antt =====
-- What every operation of the server keeps: its clients in order, its packets numbered.
use mathlib.Core.List.Perm
use bee_r_type.Network.Queue.{Queue}
use bee_r_type.Prelude.{
  sym, Bool, true, false, ℕ, ◌+◌, ◌^◌, ◌<◌, ◌≤◌, ◌≡◌, refl, subst, List, [], ◌∷◌, ◌++◌, All-append,
  arith,
}
use bee_r_type.Prelude.Decimal.{Bytes}
use bee_r_type.Platform.{Platform}
use bee_r_type.Network.Packet.{Packet, PacketType, heartbeat}
use bee_r_type.Server.{
  Server, ErrorCode, success, message_size, operation_aborted, other_error, announce,
  req_connect_data, disconnect_data, handle_send_timer, handle_receive, handle_print_timer,
  send_pong, init,
}
use bee_r_type.Server.Clients.{IsValid, disconnect_data_lem}
use bee_r_type.Server.History.{connects, step, step-IsValid}
use bee_r_type.Server.Numbers.{
  IsNumbered, IsNumbered-rest, numbering, announce-IsNumbered, req_connect_data-IsNumbered,
  disconnect_data-IsNumbered,
}
use bee_r_type.Server.News.{
  IsNews, IsMessage, IsWritten, outgoing, nothing-IsNews, announce-IsWritten,
  req_connect_data-IsWritten, disconnect_data-IsWritten, copies-IsMessage,
}
use bee_r_type.Server.Sending.{copies, handle_send_timer_lem, handle_send_timer_idle}
use bee_r_type.Server.Telling.{Tells, Tells-keeps}

module _ ⦃p : Platform⦄ where
  open p use {Endpoint}

  -- A valid server that gave out at most so many identifiers, and whose waiting packets are numbered.
  pub record IsSound (k : ℕ) (s : Server) : Type 0 where
    pub valid : IsValid s
    pub numbered : IsNumbered (numbering s)
    pub room : s.nb_clients ≤ k
    pub written : IsWritten (outgoing s)

  pub announce-IsSound :
      {k : ℕ} (type : PacketType) (data' : Bytes) (s : Server)
      → IsNews data'
      → IsSound k s
      → IsSound k (announce type data' s)
  unfolding announce
  announce-IsSound type data' s news h = record {
    valid = record {
      ids = h.valid.ids;
      bounded = h.valid.bounded;
      own = h.valid.own;
      separate = h.valid.separate;
    };
    numbered = announce-IsNumbered type data' s h.numbered;
    room = h.room;
    written = announce-IsWritten type data' s news h.written;
  }

  pub Tells-IsSound : {k : ℕ} {s s' : Server} → Tells s s' → IsSound k s → IsSound k s'
  Tells-IsSound {k} t h = Tells-keeps (IsSound k) announce-IsSound t h

  pub send_pong-IsSound : {k : ℕ} (s : Server) → IsSound k s → IsSound k (send_pong s)
  unfolding send_pong
  send_pong-IsSound s h = announce-IsSound heartbeat [] s nothing-IsNews h

  pub req_connect_data-IsSound :
      {k : ℕ} (e : Endpoint) (s : Server)
      → IsSound k s
      → k + 1 < 2 ^ 32
      → IsSound (k + 1) (req_connect_data e s).0
  unfolding step
  req_connect_data-IsSound e s h few =
      let (valid, bound) = step-IsValid (connects e) s h.valid (omega (arith, h.room)) in
      record {
        valid = valid;
        numbered = req_connect_data-IsNumbered e s h.numbered;
        room = omega (arith, bound, h.room);
        written = req_connect_data-IsWritten e s h.written;
      }

  pub disconnect_data-IsSound :
      {k : ℕ} (e : Endpoint) (s : Server) → IsSound k s → IsSound k (disconnect_data e s).0
  disconnect_data-IsSound e s h =
      let (valid, _, _, _, _, kept) = disconnect_data_lem e s h.valid in
      record {
        valid = valid;
        numbered = disconnect_data-IsNumbered e s h.numbered;
        room = omega (arith, kept, h.room);
        written = disconnect_data-IsWritten e s h.written;
      }

  -- A change of fields that soundness does not depend on.
  pub kept :
      {k : ℕ} {s : Server} (running : Bool) (e : Endpoint) (packets : Queue Packet) (bytes : ℕ)
      (pending sending printing : Bool)
      → IsSound k s
      → IsSound k (record s {
        game_running = running;
        remote_endpoint = e;
        packet_queue = packets;
        bytes_received = bytes;
        receiving = pending;
        send_timer = sending;
        print_timer = printing;
      })
  kept running e packets bytes pending sending printing h = record {
    valid = record {
      ids = h.valid.ids;
      bounded = h.valid.bounded;
      own = h.valid.own;
      separate = h.valid.separate;
    };
    numbered = h.numbered;
    room = h.room;
    written = h.written;
  }

  pub handle_receive-IsSound :
      {k : ℕ} (code : ErrorCode) (e : Endpoint) (bytes : Bytes) (s : Server)
      → IsSound k s
      → IsSound k (handle_receive code e bytes s)
  unfolding handle_receive
  handle_receive-IsSound success e bytes s h =
      kept s.game_running e _ _ true s.send_timer s.print_timer h
  handle_receive-IsSound message_size e bytes s h =
      kept s.game_running e _ _ true s.send_timer s.print_timer h
  handle_receive-IsSound operation_aborted e bytes s h =
      kept s.game_running e s.packet_queue s.bytes_received false s.send_timer s.print_timer h
  handle_receive-IsSound other_error e bytes s h =
      kept s.game_running e s.packet_queue s.bytes_received true s.send_timer s.print_timer h

  pub handle_print_timer-IsSound :
      {k : ℕ} (code : ErrorCode) (s : Server) → IsSound k s → IsSound k (handle_print_timer code s)
  unfolding handle_print_timer
  handle_print_timer-IsSound success s h =
      kept s.game_running s.remote_endpoint s.packet_queue 0 s.receiving s.send_timer true h
  handle_print_timer-IsSound _ s h =
      kept s.game_running s.remote_endpoint s.packet_queue s.bytes_received s.receiving s.send_timer
        true h

  -- The oldest message is taken from the queue and sent to all clients.
  delivered :
      {k : ℕ} (message' : Bytes) (rest : List Bytes) (s : Server)
      → s.send_queue ≡ message' ∷ rest
      → IsSound k s
      → IsSound k (record s {
        send_queue = rest;
        sent = s.sent ++ copies s.clients message';
        send_timer = true;
      })
  delivered message' rest s q h =
      let (queue, sent) = subst (λ l. IsWritten (l, s.sent)) q h.written in
      record {
        valid = record {
          ids = h.valid.ids;
          bounded = h.valid.bounded;
          own = h.valid.own;
          separate = h.valid.separate;
        };
        numbered =
            IsNumbered-rest message' rest s.sequence_number
              (subst (λ l. IsNumbered (l, s.sequence_number)) q h.numbered);
        room = h.room;
        written = (
          queue.1,
          All-append (λ x. IsMessage x.0) s.sent _ sent
              (copies-IsMessage s.clients message' queue.0),
        );
      }

  expired-IsSound :
      {k : ℕ} (queue : List Bytes) (s : Server)
      → s.send_queue ≡ queue
      → IsSound k s
      → IsSound k (handle_send_timer success s)
  expired-IsSound {k} [] s q h = subst (IsSound k) (sym (handle_send_timer_idle s q)) (
      kept s.game_running s.remote_endpoint s.packet_queue s.bytes_received s.receiving true
        s.print_timer h)
  expired-IsSound {k} (message' ∷ rest) s q h =
      subst (IsSound k) (sym (handle_send_timer_lem s message' rest q))
        (delivered message' rest s q h)

  pub handle_send_timer-IsSound :
      {k : ℕ} (code : ErrorCode) (s : Server) → IsSound k s → IsSound k (handle_send_timer code s)
  unfolding handle_send_timer
  handle_send_timer-IsSound success s h = expired-IsSound s.send_queue s refl h
  handle_send_timer-IsSound _ s h =
      kept s.game_running s.remote_endpoint s.packet_queue s.bytes_received s.receiving false
        s.print_timer h

  pub init-IsSound : (unspecified : Endpoint) (unset : ℕ) → IsSound 0 (init unspecified unset)
  unfolding init
  init-IsSound unspecified unset = record {
    valid = record { ids = Perm.refl []; bounded = omega arith; own = tt; separate = tt };
    numbered = ([], refl, omega arith);
    room = omega arith;
    written = (tt, tt);
  }
