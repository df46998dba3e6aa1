-- ===== src/Tests/Clients.antt =====
-- The server's clients and its traffic.
use mathlib.Core.List.{Mem}
use bee_r_type.Prelude.{
  ℕ, ◌+◌, ◌-◌, ◌*◌, ◌≤◌, ◌≡◌, refl, ◌≢◌, false, none, some, List, [], ◌∷◌, ◌++◌, ◌==◌, codes, arith,
  if◌then◌else◌, ok,
}
use bee_r_type.Prelude.Map
use bee_r_type.Prelude.Int.{pos, negsuc}
use bee_r_type.Prelude.Decimal.{stoi, read_digits, scan}
use bee_r_type.Sample.{fixed}
use bee_r_type.Network.Packet.{change, heartbeat}
use bee_r_type.Server.{
  success, Server, ClientRegister, init, broadcast, find_client, create_client, req_connect_data,
  disconnect_data, create_packet, to_int,
}
use bee_r_type.Server.Clients.{IsValid, create_client_lem, disconnect_data_lem}
use bee_r_type.Server.History.{Request, connects, disconnects, step, history, history-init-IsValid}
use bee_r_type.Server.Interleaving.{Event, queues, expires, happen, happen-account}
use bee_r_type.Server.Sending.{deliveries}
use bee_r_type.Client.{Client, parse_message, handle_receive}
use bee_r_type.Client.Parsing.Pongs.{pong_counted_lost}
use bee_r_type.Client.Parsing.{join, parse-create_packet}

-- Clients 7 and 8 connect, 7 leaves, 9 comes.
abbrev requests : List Request
requests = connects 7 ∷ connects 8 ∷ disconnects 7 ∷ connects 9 ∷ []

abbrev pub server : Server
server = history requests (init 0 0)

history-init-IsValid_example : IsValid (history requests (init 0 0))
history-init-IsValid_example = history-init-IsValid 0 0 requests (omega arith)

server-IsValid : IsValid server
server-IsValid = history-init-IsValid 0 0 requests (omega arith)

ids_run : Map.keys server.clients ≡ 0 ∷ 1 ∷ []
unfolding history step req_connect_data disconnect_data init
ids_run = refl

create_client_lem_example :
    let (s', k) = create_client 5 server in
    IsValid s'
    × ((c : ClientRegister) × (find_client 5 s'.clients ≡ some (k, c))
        × (c.id ≡ k)
        × (c.endpoint ≡ 5))
    × ((e' : ℕ) → e' ≢ 5 → find_client e' s'.clients ≡ find_client e' server.clients)
    × ((find_client 5 server.clients ≢ none → s' ≡ server)
        × (find_client 5 server.clients ≡ none → ¬ Mem k (Map.keys server.clients)))
    × (s'.nb_clients ≤ server.nb_clients + 1)
unfolding history step req_connect_data disconnect_data init
create_client_lem_example = create_client_lem 5 server server-IsValid (omega arith)

disconnect_data_lem_example :
    let (s', k) = disconnect_data 8 server in
    IsValid s'
    × (find_client 8 s'.clients ≡ none)
    × ((e' : ℕ) → e' ≢ 8 → find_client e' s'.clients ≡ find_client e' server.clients)
    × ((id : ℕ) (c : ClientRegister)
        → find_client 8 server.clients ≡ some (id, c)
        → (k ≡ to_int id) × (s'.available_ids ≡ server.available_ids ++ id ∷ []))
    × (find_client 8 server.clients ≡ none → (k ≡ negsuc 0) × (s'.clients ≡ server.clients))
    × (s'.nb_clients ≡ server.nb_clients)
disconnect_data_lem_example = disconnect_data_lem 8 server server-IsValid

-- Two messages wait.
abbrev busy_server : Server
busy_server = broadcast (codes "b") (broadcast (codes "a") server)

abbrev events : List Event
events = expires ∷ queues (codes "c") ∷ expires ∷ expires ∷ queues (codes "d") ∷ []

happen-account_example :
    let s' = happen events busy_server in
    (s'.sent ++ deliveries s'.clients s'.send_queue
      ≡ (busy_server.sent ++ deliveries busy_server.clients busy_server.send_queue)
        ++ deliveries busy_server.clients (codes "c" ∷ codes "d" ∷ []))
    × (s'.clients ≡ busy_server.clients)
happen-account_example = happen-account events busy_server

deliveries_run :
    deliveries server.clients (codes "a" ∷ codes "b" ∷ [])
    ≡ (codes "a", 9) ∷ (codes "a", 8) ∷ (codes "b", 9) ∷ (codes "b", 8) ∷ []
unfolding history step req_connect_data disconnect_data init
deliveries_run = refl

abbrev pub fresh_client : Client
fresh_client = record {
  packet_data = record {
    action = pos 0;
    server_id = pos 0;
    new_x = pos 0;
    new_y = pos 0;
    new_vx = pos 0;
    new_vy = pos 0;
  };
  received_data = [];
  packets_lost = pos 0;
  ping = pos 0;
  last_packet_number = pos 0;
  packets_sent = 0;
  packets_received = 0;
  send_queue = [];
  sent = [];
  awaiting = false;
  heartbeat_start = 0;
  last_response = 0;
  last_reset = none;
}

pong_counted_lost_example :
    let (s', pong) = create_packet heartbeat [] (init 0 0) in
    let d = codes "3" ∷ codes "100" ∷ codes "200" ∷ codes "0" ∷ [] in
    let message = (create_packet change (join d (codes "0")) s').1 in
    (c₁ c₂ : Client) × (handle_receive success 8 pong fresh_client ≡ ok c₁)
    × (handle_receive success 9 message c₁ ≡ ok c₂)
    × (c₂.last_packet_number ≡ pos 2)
    × (c₂.packets_lost ≡ pos 10)
unfolding init stoi read_digits scan create_packet
pong_counted_lost_example =
    pong_counted_lost change (codes "3") (codes "100") (codes "200") (codes "0") (codes "0") (pos 3)
      (pos 1000) (pos 2000) (pos 0) (pos 0) (init 0 0) fresh_client 8 9 (λ h. cc) (ground arith)
      refl refl refl refl refl (omega arith) refl

parse-create_packet_example :
    let d = codes "3" ∷ codes "100" ∷ codes "200" ∷ codes "0" ∷ [] in
    let message = (create_packet change (join d (codes "0")) server).1 in
    parse_message 9 (record fresh_client { received_data = message })
    ≡ ok (record fresh_client {
      received_data = message;
      packet_data = record {
        action = pos 29;
        server_id = pos 3;
        new_x = pos 1000;
        new_y = pos 2000;
        new_vx = pos 0;
        new_vy = pos 0;
      };
      packets_lost =
          if 0 == server.sequence_number then pos 0 else pos (10 * (server.sequence_number - 0));
      last_packet_number = pos (server.sequence_number + 1);
    })
unfolding history step req_connect_data disconnect_data init stoi read_digits scan
parse-create_packet_example =
    parse-create_packet change (codes "3") (codes "100") (codes "200") (codes "0") (codes "0")
      (pos 3) (pos 1000) (pos 2000) (pos 0) (pos 0) server fresh_client 9 0 (λ h. cc) (ground arith)
      refl refl refl refl refl (omega arith) refl (omega arith)
