-- ===== src/Server.antt =====
-- `Server` of Server/include/Server.hpp and Server/src/Server.cpp.
pub mod Search
pub mod Clients
pub mod History
pub mod Interleaving
pub mod Sending
pub mod News
pub mod Telling
pub mod Numbers
pub mod Sound
use bee_r_type.Prelude.{
  ℕ, ◌+◌, ◌-◌, ltb, ◌%◌, ◌^◌, Bool, true, false, Option, none, some, List, [], ◌∷◌, ◌++◌,
  if◌then◌else◌, is_empty, codes, length,
}
use bee_r_type.Prelude.Map
use bee_r_type.Prelude.Map.{Map}
use bee_r_type.Prelude.Int.{ℤ, pos, negsuc}
use bee_r_type.Prelude.Decimal.{Bytes, to_string}
use bee_r_type.Network.Packet.{
  Packet, PacketType, type_code, char_value, typed_packet, none_packet, game_started,
  game_not_started, heartbeat,
}
use bee_r_type.Network.Queue
use bee_r_type.Network.Queue.{Queue}
use bee_r_type.Platform.{Platform}

-- `boost::system::error_code`, as far as the code tells its values apart.
pub data ErrorCode : Type 0 where
  success message_size operation_aborted other_error : ErrorCode

-- The `int` that a `size_t` is converted to.
unfoldable pub to_int : ℕ → ℤ
to_int n = let m = n % 2 ^ 32 in if ltb m (2 ^ 31) then pos m else negsuc (2 ^ 32 - 1 - m)

-- `data.empty() ? "-1;-1;-1;-1;-1" : data`.
unfoldable pub packet_data : Bytes → Bytes
packet_data data' = if is_empty data' then codes "-1;-1;-1;-1;-1" else data'

module _ ⦃p : Platform⦄ where
  open p use {Endpoint, same}

  -- `packet_str[0]` of an empty text is its terminator.
  unfoldable pub deserialize_packet : Bytes → Packet
  unfolding typed_packet
  deserialize_packet [] = typed_packet (pos 0)
  deserialize_packet (b ∷ bs) = typed_packet (char_value b)

  pub record ClientRegister : Type 0 where
    pub id : ℕ
    pub endpoint : Endpoint

  -- `sent` lists the datagrams handed to `async_send_to`; the three flags tell whether the receive
  -- operation and the timers are pending. `packet_queue` is the queue that the constructor is given.
  pub record Server : Type 0 where
    pub clients : Map ClientRegister
    pub nb_clients : ℕ
    pub game_running : Bool
    pub remote_endpoint : Endpoint
    pub packet_queue : Queue Packet
    pub send_queue : List Bytes
    pub available_ids : List ℕ
    pub bytes_received : ℕ
    pub sequence_number : ℕ
    pub sent : List (Bytes × Endpoint)
    pub receiving : Bool
    pub send_timer : Bool
    pub print_timer : Bool

  unfoldable pub start_receive : Server → Server
  start_receive s = record s { receiving = true }

  unfoldable pub start_print_timer : Server → Server
  start_print_timer s = record s { print_timer = true }

  unfoldable pub start_send_timer : Server → Server
  start_send_timer s = record s { send_timer = true }

  -- The constructor. It leaves `remote_endpoint_` to its own constructor, and `bytes_received` unset.
  unfoldable pub init : Endpoint → ℕ → Server
  unfolding start_receive start_print_timer start_send_timer
  init unspecified unset = start_print_timer (
      start_send_timer (
        start_receive (record {
          clients = [];
          nb_clients = 0;
          game_running = false;
          remote_endpoint = unspecified;
          packet_queue = [];
          send_queue = [];
          available_ids = [];
          bytes_received = unset;
          sequence_number = 0;
          sent = [];
          receiving = false;
          send_timer = false;
          print_timer = false;
        })))

  unfoldable pub send_to_client : Bytes → Endpoint → Server → Server
  send_to_client message e s = record s { sent = s.sent ++ (message, e) ∷ [] }

  unfoldable pub broadcast : Bytes → Server → Server
  broadcast message s = record s { send_queue = s.send_queue ++ message ∷ [] }

  -- What `handleReceive` does with a datagram that came.
  unfoldable pub accept_datagram : Bytes → Server → Server
  unfolding deserialize_packet Queue.push start_receive
  accept_datagram bytes s = start_receive (record s {
    bytes_received = (s.bytes_received + length bytes) % 2 ^ 64;
    packet_queue = Queue.push (deserialize_packet bytes) s.packet_queue;
  })

  -- The pending receive ends: Boost.Asio stores the sender and calls the handler.
  unfoldable pub handle_receive : ErrorCode → Endpoint → Bytes → Server → Server
  unfolding accept_datagram start_receive
  handle_receive success e bytes s =
      accept_datagram bytes (record s { remote_endpoint = e; receiving = false })
  handle_receive message_size e bytes s =
      accept_datagram bytes (record s { remote_endpoint = e; receiving = false })
  handle_receive operation_aborted e bytes s = record s { remote_endpoint = e; receiving = false }
  handle_receive other_error e bytes s =
      start_receive (record s { remote_endpoint = e; receiving = false })

  -- `sequence_number` is an `int`, which C++ does not let grow above 2 ^ 31 - 1; here it goes on.
  unfoldable pub create_packet : PacketType → Bytes → Server → Server × Bytes
  unfolding packet_data
  create_packet type data' s =
      let n = s.sequence_number + 1 in
      (
        record s { sequence_number = n },
        type_code type ∷ (b';' ∷ (packet_data data' ++ (b';' ∷ to_string n))),
      )

  -- `Broadcast(createPacket(type, data))`, as every caller writes it.
  unfoldable pub announce : PacketType → Bytes → Server → Server
  unfolding create_packet broadcast
  announce type data' s = let (s', message) = create_packet type data' s in broadcast message s'

  -- The first client, in the order of the identifiers, whose endpoint it is.
  unfoldable pub find_client : Endpoint → Map ClientRegister → Option (ℕ × ClientRegister)
  find_client e [] = none
  find_client e ((id, c) ∷ cs) = if same c.endpoint e then some (id, c) else find_client e cs

  -- `clients_.insert(std::make_pair(nb, ClientRegister(nb, endpoint)))`.
  unfoldable pub add_client : ℕ → Endpoint → Server → Server
  unfolding Map.emplace Map.find Map.place
  add_client nb e s = record s {
    clients = Map.emplace nb (record { id = nb; endpoint = e }) s.clients;
  }

  unfoldable pub new_client : List ℕ → Endpoint → Server → Server × ℕ
  unfolding add_client
  new_client [] e s = (
    add_client s.nb_clients e (record s { nb_clients = (s.nb_clients + 1) % 2 ^ 32 }),
    s.nb_clients,
  )
  new_client (nb ∷ rest) e s = (add_client nb e (record s { available_ids = rest }), nb)

  unfoldable pub create_client : Endpoint → Server → Server × ℕ
  unfolding find_client new_client
  create_client e s = elim (find_client e s.clients) [
    | some (id, c) ↦ (s, id)
    | none ↦ new_client s.available_ids e s
  ]

  -- `send_to_client(createPacket(type, ""), endpoint)`.
  unfoldable pub reply : PacketType → Endpoint → Server → Server
  unfolding create_packet send_to_client
  reply type e s = let (s', message) = create_packet type [] s in send_to_client message e s'

  unfoldable pub req_connect_data : Endpoint → Server → Server × ℕ
  unfolding create_client reply
  req_connect_data e s =
      let (s', id) = create_client e s in
      (reply (if s'.game_running then game_started else game_not_started) e s', id)

  -- The identifier of the result, an `int`, and -1 if there is no such client. From it the queue takes a
  -- `uint32_t` again.
  unfoldable pub disconnect_data : Endpoint → Server → Server × ℤ
  unfolding find_client reply Map.erase
  disconnect_data e s = elim (find_client e s.clients) [
    | some (id, c) ↦ (
      record s {
        available_ids = s.available_ids ++ c.id % 2 ^ 32 ∷ [];
        clients = Map.erase id s.clients;
      },
      to_int c.id,
    )
    | none ↦ (reply none_packet e s, negsuc 0)
  ]

  unfoldable pub send_pong : Server → Server
  unfolding announce
  send_pong s = announce heartbeat [] s

  unfoldable pub handle_print_timer : ErrorCode → Server → Server
  unfolding start_print_timer
  handle_print_timer success s =
      start_print_timer (record s { bytes_received = 0; print_timer = false })
  handle_print_timer _ s = start_print_timer (record s { print_timer = false })

  -- `for (const auto& client : clients_) send_to_client(message, client.second.getEndpoint());`
  unfoldable pub send_to_all : Bytes → Map ClientRegister → Server → Server
  unfolding send_to_client
  send_to_all message [] s = s
  send_to_all message ((id, c) ∷ cs) s =
      send_to_all message cs (send_to_client message c.endpoint s)

  unfoldable pub send_front : List Bytes → Server → Server
  unfolding send_to_all
  send_front [] s = s
  send_front (message ∷ rest) s = send_to_all message s.clients (record s { send_queue = rest })

  unfoldable pub handle_send_timer : ErrorCode → Server → Server
  unfolding send_front start_send_timer
  handle_send_timer success s =
      start_send_timer (send_front s.send_queue (record s { send_timer = false }))
  handle_send_timer _ s = record s { send_timer = false }
