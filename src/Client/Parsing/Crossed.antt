-- ===== src/Client/Parsing/Crossed.antt =====
-- Two packets of the server that reach the client in the other order.
use bee_r_type.Prelude.{ℕ, ◌+◌, ◌^◌, ◌<◌, ◌≡◌, refl, ap, ◌∙◌, ◌≢◌, [], ◌∷◌, arith, ok}
use bee_r_type.Prelude.Int.{pos, negsuc}
use bee_r_type.Prelude.Decimal.{Bytes}
use bee_r_type.Platform.{Platform}
use bee_r_type.Network.Packet.{PacketType, type_code, heartbeat}
use bee_r_type.Network.Segments.{join}
use bee_r_type.Server
use bee_r_type.Server.{Server, success}
use bee_r_type.Client.{Client, PacketData, handle_receive, store_number}
use bee_r_type.Client.Parsing.{parse-create_packet_stores}
use bee_r_type.Client.GameScene.Announced.{Reads}

module _ ⦃p : Platform⦄ where
  open p use {double}

  -- The number before the last one counts as two packets fewer than none.
  store_number-earlier :
      (n : ℕ) (c : Client)
      → c.last_packet_number ≡ pos (n + 1 + 1)
      → store_number (pos (n + 1)) c
        ≡ record c { packets_lost = double (negsuc 1); last_packet_number = pos (n + 1) }
  unfolding store_number
  store_number-earlier n c e = ground arith

  -- The number behind the next one counts as one lost packet.
  store_number-later :
      (n : ℕ) (c : Client)
      → c.last_packet_number ≡ pos n
      → store_number (pos (n + 1 + 1)) c
        ≡ record c { packets_lost = double (pos 1); last_packet_number = pos (n + 1 + 1) }
  unfolding store_number
  store_number-later n c e = ground arith

  -- A client that has read the server's last packet reads the next two in the other order. Both are no
  -- heartbeats, their data are five segments each that it can parse, and their numbers are below 2 ^ 31.
  -- It then counts -2 lost packets, holds the values of the older packet, and takes its number for the
  -- last one.
  pub crossed_packets_counted :
      (t t' : PacketType) (d₀ d₁ d₂ d₃ d₄ d₀' d₁' d₂' d₃' d₄' : Bytes) (d d' : PacketData)
      (s : Server) (c : Client) (now now' : ℕ)
      → t ≢ heartbeat
      → t' ≢ heartbeat
      → Reads d₀ d₁ d₂ d₃ d₄ d
      → Reads d₀' d₁' d₂' d₃' d₄' d'
      → s.sequence_number + 2 < 2 ^ 31
      → c.last_packet_number ≡ pos s.sequence_number
      → let (s', older) = Server.create_packet t (join (d₀ ∷ d₁ ∷ d₂ ∷ d₃ ∷ []) d₄) s in
        let newer = (Server.create_packet t' (join (d₀' ∷ d₁' ∷ d₂' ∷ d₃' ∷ []) d₄') s').1 in
        (c₁ c₂ : Client) × (handle_receive success now newer c ≡ ok c₁)
        × (handle_receive success now' older c₁ ≡ ok c₂)
        × (c₂.packets_lost ≡ double (negsuc 1))
        × (c₂.packet_data ≡ record d { action = pos (type_code t) })
        × (c₂.last_packet_number ≡ pos (s.sequence_number + 1))
  unfolding handle_receive Server.create_packet
  crossed_packets_counted t t' d₀ d₁ d₂ d₃ d₄ d₀' d₁' d₂' d₃' d₄' d d' s c now now' ne ne' r r' room
        e =
      let (s', older) = Server.create_packet t (join (d₀ ∷ d₁ ∷ d₂ ∷ d₃ ∷ []) d₄) s in
      let c' = record c { packets_received = c.packets_received + 1 } in
      let newer_read =
        parse-create_packet_stores t' d₀' d₁' d₂' d₃' d₄' d'.server_id d'.new_x d'.new_y d'.new_vx
          d'.new_vy s' c' now ne' r'.plain r'.id r'.x r'.y r'.vx r'.vy (omega arith) in
      let c₁ : Client = record c {
        packets_received = c.packets_received + 1;
        received_data = (Server.create_packet t' (join (d₀' ∷ d₁' ∷ d₂' ∷ d₃' ∷ []) d₄') s').1;
        packet_data = record d' { action = pos (type_code t') };
        packets_lost = double (pos 1);
        last_packet_number = pos (s.sequence_number + 1 + 1);
      } in
      let older_read =
        parse-create_packet_stores t d₀ d₁ d₂ d₃ d₄ d.server_id d.new_x d.new_y d.new_vx d.new_vy s
          (record c₁ { packets_received = c₁.packets_received + 1 }) now' ne r.plain r.id r.x r.y
          r.vx r.vy (omega arith) in
      (
        c₁,
        _,
        newer_read ∙ ap ok (store_number-later s.sequence_number _ e),
        older_read ∙ ap ok (store_number-earlier s.sequence_number _ refl),
        refl,
        refl,
        refl,
      )
