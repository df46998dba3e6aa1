-- ===== src/Client/Parsing/Pongs.antt =====
-- The answer to a heartbeat takes a number of the server's packets, of which the client takes no notice.
use bee_r_type.Prelude.{
  ℕ, ◌+◌, ◌-◌, ◌^◌, ◌<◌, ◌≡◌, refl, ap, ◌≢◌, [], ◌∷◌, ◌++◌, All, arith, ok, codes, ◌==◌, false,
}
use bee_r_type.Prelude.Int.{ℤ, pos}
use bee_r_type.Prelude.Decimal.{Bytes, to_string, stoi}
use bee_r_type.Platform.{Platform}
use bee_r_type.Network.Packet.{PacketType, heartbeat}
use bee_r_type.Network.Segments.{IsPlain, join}
use bee_r_type.Server
use bee_r_type.Server.{Server, success, packet_data}
use bee_r_type.Client.{Client, handle_receive, parse_elements, handle_heart_beat}
use bee_r_type.Client.Parsing.{parse-create_packet, parse_message_lem, deserialise-written}

module _ ⦃p : Platform⦄ where
  open p use {Real, parse_real, double}

  abbrev after_pong : ℕ → Bytes → Client → Client
  after_pong now m c =
      let c' = record c { packets_received = c.packets_received + 1; received_data = m } in
      record (handle_heart_beat now c') { awaiting = false; last_response = now }

  receive-pong :
      (s : Server) (c : Client) (now : ℕ)
      → let m = (Server.create_packet heartbeat [] s).1 in
        handle_receive success now m c ≡ ok (after_pong now m c)
  unfolding handle_receive Server.create_packet packet_data parse_elements
  receive-pong s c now =
      let m = (Server.create_packet heartbeat [] s).1 in
      let five = codes "-1" ∷ codes "-1" ∷ codes "-1" ∷ codes "-1" ∷ codes "-1" ∷ [] in
      let plain : IsPlain (codes "-1") = ((λ e. cc), ((λ e. cc), tt)) in
      parse_message_lem now 99 _
        (record c { packets_received = c.packets_received + 1; received_data = m })
        (five ++ to_string (s.sequence_number + 1) ∷ []) refl refl
        (deserialise-written (codes "-1") (codes "-1") (codes "-1") (codes "-1") (codes "-1")
          (s.sequence_number + 1) (plain, (plain, (plain, (plain, (plain, tt))))))

  -- A client that has read the server's last packet reads the answer to a heartbeat and then the packet that
  -- follows it, whose data are five segments that it can parse; their numbers are below 2 ^ 31. It missed
  -- nothing, and still counts one lost packet.
  pub pong_counted_lost :
      (t : PacketType) (d₀ d₁ d₂ d₃ d₄ : Bytes) (id : ℤ) (x y vx vy : Real) (s : Server)
      (c : Client) (now now' : ℕ)
      → t ≢ heartbeat
      → All IsPlain (d₀ ∷ d₁ ∷ d₂ ∷ d₃ ∷ d₄ ∷ [])
      → stoi d₀ ≡ ok id
      → parse_real d₁ ≡ ok x
      → parse_real d₂ ≡ ok y
      → parse_real d₃ ≡ ok vx
      → parse_real d₄ ≡ ok vy
      → s.sequence_number + 2 < 2 ^ 31
      → c.last_packet_number ≡ pos s.sequence_number
      → let (s', pong) = Server.create_packet heartbeat [] s in
        let message = (Server.create_packet t (join (d₀ ∷ d₁ ∷ d₂ ∷ d₃ ∷ []) d₄) s').1 in
        (c₁ c₂ : Client) × (handle_receive success now pong c ≡ ok c₁)
        × (handle_receive success now' message c₁ ≡ ok c₂)
        × (c₂.last_packet_number ≡ pos (s.sequence_number + 2))
        × (c₂.packets_lost ≡ double (pos 1))
  unfolding handle_receive Server.create_packet handle_heart_beat
  pong_counted_lost t d₀ d₁ d₂ d₃ d₄ id x y vx vy s c now now' ne plain h₀ h₁ h₂ h₃ h₄ room e =
      let (s', pong) = Server.create_packet heartbeat [] s in
      let c₁ = after_pong now pong c in
      let c' = record c₁ { packets_received = c₁.packets_received + 1 } in
      let two : s.sequence_number + 1 + 1 ≡ s.sequence_number + 2 = omega arith in
      let one : s.sequence_number + 1 - s.sequence_number ≡ 1 = omega arith in
      let later : (s.sequence_number == s.sequence_number + 1) ≡ false = ground arith in
      (
        c₁,
        _,
        receive-pong s c now,
        parse-create_packet t d₀ d₁ d₂ d₃ d₄ id x y vx vy s' c' now' s.sequence_number ne plain h₀
            h₁ h₂ h₃ h₄ (omega arith) e (omega arith),
        ap pos two,
        rw (later, one),
      )
