-- ===== src/Client.antt =====
-- The client's side of the protocol: Client/src/Client.cpp without its window.
pub mod Parsing
pub mod Sprites
pub mod GameScene
pub mod LobbyScene
pub mod MainLoop
use bee_r_type.Prelude.{
  ℕ, ◌+◌, Bool, true, false, Option, none, some, List, [], ◌∷◌, ◌++◌, ◌==◌, if◌then◌else◌, length,
  Result, ok, thrown, out_of_range, ◌>>=◌, not, ◌&&◌, ltb, leb, ◌-◌, ◌%◌,
}
use bee_r_type.Prelude.Int.{ℤ, pos, negsuc, ◌-ℤ◌, ◌+ℤ◌}
use bee_r_type.Server.{ErrorCode, success, message_size, operation_aborted, other_error}
use bee_r_type.Prelude.Decimal.{Bytes, stoi}
use bee_r_type.Network.Packet.{PacketType, type_code, heartbeat}
use bee_r_type.Platform.{Platform}

-- `std::getline(ss, segment, ';')` until it fails. A stream that ends behind a `;` has no further
-- segment, and an empty one has none. The accumulator is the segment read so far, if there is one.
unfoldable pub segments : Option Bytes → Bytes → List Bytes
segments none [] = []
segments (some seg) [] = seg ∷ []
segments none (c ∷ s) = elim (c == b';') [
  | true ↦ [] ∷ segments none s
  | false ↦ segments (some (c ∷ [])) s
]
segments (some seg) (c ∷ s) = elim (c == b';') [
  | true ↦ seg ∷ segments none s
  | false ↦ segments (some (seg ++ c ∷ [])) s
]

-- `deserialisePacket`.
unfoldable pub deserialise_packet : Bytes → List Bytes
unfolding segments
deserialise_packet inside =
    let elements = segments none inside in if length elements == 6 then elements else []

-- `received_data_.substr(2)`.
unfoldable pub substr_2 : Bytes → Result Bytes
substr_2 [] = thrown out_of_range
substr_2 (a ∷ []) = thrown out_of_range
substr_2 (a ∷ b ∷ s) = ok s

-- `createPacket` of the client.
unfoldable pub create_packet : PacketType → Bytes
create_packet type = type_code type ∷ []

abbrev pub is_one : ℤ → Bool
is_one (pos k) = k == 1
is_one (negsuc k) = false

module _ ⦃p : Platform⦄ where
  open p use {Real, parse_real, Double, double, add_double, mul_double, div_double, lt_double}

  pub record PacketData : Type 0 where
    pub action : ℤ
    pub server_id : ℤ
    pub new_x : Real
    pub new_y : Real
    pub new_vx : Real
    pub new_vy : Real

  -- `received_data` is the last datagram, and times are those of the high resolution clock, in
  -- nanoseconds. `packets_lost` and `ping` are the lag meter; `last_reset` is the static variable of
  -- `resetPacketLoss`, `none` before its first call.
  pub record Client : Type 0 where
    pub packet_data : PacketData
    pub received_data : Bytes
    pub packets_lost : Double
    pub ping : Double
    pub last_packet_number : ℤ
    pub packets_sent : ℕ
    pub packets_received : ℕ
    pub send_queue : List Bytes
    pub sent : List Bytes
    pub awaiting : Bool
    pub heartbeat_start : ℕ
    pub last_response : ℕ
    pub last_reset : Option ℕ

  -- The constructor at some time; `unset` is what `packet_data_` happens to hold.
  unfoldable pub initial_client : ℕ → PacketData → Client
  initial_client now unset = record {
    packet_data = unset;
    received_data = [];
    packets_lost = double (pos 0);
    ping = double (pos 0);
    last_packet_number = pos 0;
    packets_sent = 0;
    packets_received = 0;
    send_queue = [];
    sent = [];
    awaiting = false;
    heartbeat_start = 0;
    last_response = now;
    last_reset = none;
  }

  unfoldable pub handle_heart_beat : ℕ → Client → Client
  handle_heart_beat now c =
      let micro = div_double (double (pos (now - c.heartbeat_start))) (double (pos 1000)) in
      record c { ping = div_double micro (double (pos 1000)) }

  -- The `try` block: what was stored before a parse failed stays stored.
  abbrev pub or_stop {ℓ} : {A : Type ℓ} → Result A → Client → (A → Client) → Client
  or_stop (thrown e) c next = c
  or_stop (ok a) c next = next a

  unfoldable pub store_number : ℤ → Client → Client
  store_number n c =
      let gap = n -ℤ c.last_packet_number in
      let lost = if is_one gap then c.packets_lost else double (gap -ℤ pos 1) in
      record c { packets_lost = lost; last_packet_number = n }

  unfoldable pub store_elements : ℕ → List Bytes → Client → Client
  store_elements type (e₀ ∷ e₁ ∷ e₂ ∷ e₃ ∷ e₄ ∷ e₅ ∷ []) c =
      let d₀ = record (c.packet_data) { action = pos type } in
      or_stop (stoi e₀) (put d₀) λ id.
        let d₁ = record d₀ { server_id = id } in
        or_stop (parse_real e₁) (put d₁) λ x.
          let d₂ = record d₁ { new_x = x } in
          or_stop (parse_real e₂) (put d₂) λ y.
            let d₃ = record d₂ { new_y = y } in
            or_stop (parse_real e₃) (put d₃) λ vx.
              let d₄ = record d₃ { new_vx = vx } in
              or_stop (parse_real e₄) (put d₄) λ vy.
                let c' = put (record d₄ { new_vy = vy }) in
                or_stop (stoi e₅) c' λ n. store_number n c'
    where
      put : PacketData → Client
      put d = record c { packet_data = d }
  store_elements type _ c = c

  -- The part of `parseMessage` behind `deserialisePacket`; `type` is the first byte.
  unfoldable pub parse_elements : ℕ → ℕ → List Bytes → Client → Client
  parse_elements now type [] c = c
  parse_elements now type (e ∷ es) c =
      if type == type_code heartbeat
      then record (handle_heart_beat now c) { awaiting = false; last_response = now }
      else store_elements type (e ∷ es) c

  unfoldable pub parse_bytes : ℕ → Bytes → Client → Result Client
  parse_bytes now [] c = ok c
  parse_bytes now (b ∷ bs) c = substr_2 (b ∷ bs) >>= λ inside.
      ok (parse_elements now (b % 256) (deserialise_packet inside) c)

  unfoldable pub parse_message : ℕ → Client → Result Client
  parse_message now c = parse_bytes now c.received_data c

  -- `handleReceive`: errors are printed, but for `message_size`, which is a datagram cut short.
  unfoldable pub handle_receive : ErrorCode → ℕ → Bytes → Client → Result Client
  handle_receive operation_aborted now bytes c = ok c
  handle_receive other_error now bytes c = ok c
  handle_receive _ now bytes c =
      parse_message now
        (record c { packets_received = c.packets_received + 1; received_data = bytes })

  unfoldable pub send : Bytes → Client → Client
  send message c = record c { packets_sent = c.packets_sent + 1; sent = c.sent ++ message ∷ [] }

  unfoldable pub handle_send : ErrorCode → Client → Client
  handle_send success c = c
  handle_send _ c = record c { packets_lost = add_double c.packets_lost (double (pos 1)) }

  unfoldable pub send_first : List Bytes → Client → Client
  unfolding send
  send_first [] c = c
  send_first (message ∷ rest) c = send message (record c { send_queue = rest })

  unfoldable pub handle_send_timer : ErrorCode → Client → Client
  unfolding send_first
  handle_send_timer success c = send_first c.send_queue c
  handle_send_timer _ c = c

  unfoldable pub send_heart_beat : ℕ → Client → Client
  unfolding create_packet
  send_heart_beat now c = if c.awaiting then c else record c {
    heartbeat_start = now;
    send_queue = c.send_queue ++ create_packet heartbeat ∷ [];
    awaiting = true;
  }

  -- 5000 ms without an answer.
  unfoldable pub check_timeout : ℕ → Client → Client
  check_timeout now c =
      if c.awaiting && ltb 5_000_000_000 (now - c.last_response)
      then record c { awaiting = false }
      else c

  -- `resetPacketLoss`; the function's result is the second component.
  abbrev pub percent_lost : Double → ℕ → Double
  percent_lost lost total =
      if ltb 0 total
      then mul_double (div_double lost (double (pos total))) (double (pos 100))
      else double (pos 0)

  -- `std::max(0.0, a)`.
  abbrev pub max_zero : Double → Double
  max_zero a = if lt_double (double (pos 0)) a then a else double (pos 0)

  unfoldable pub reset_from : ℕ → ℕ → Client → Client
  reset_from last now c =
      if leb 10_000_000_000 (now - last)
      then record c { packets_lost = double (pos 0); last_reset = some now }
      else record c { last_reset = some last }

  unfoldable pub reset_packet_loss : ℕ → Client → Client × Double
  unfolding reset_from
  reset_packet_loss now c =
      let last : ℕ = elim c.last_reset [ none ↦ now | some t ↦ t ] in
      let c' = reset_from last now c in
      (c', max_zero (percent_lost c'.packets_lost (c'.packets_sent + c'.packets_received)))

  -- The handler that `schedulePing` gives its timer, which it sets again; each call reads the clock.
  unfoldable pub handle_ping_timer : ErrorCode → ℕ → ℕ → ℕ → Client → Client
  unfolding send_heart_beat check_timeout reset_packet_loss
  handle_ping_timer success t₁ t₂ t₃ c =
      let (c', loss) = reset_packet_loss t₃ (check_timeout t₂ (send_heart_beat t₁ c)) in
      record c' { packets_lost = loss }
  handle_ping_timer _ t₁ t₂ t₃ c = c
