-- ===== src/Client/Parsing.antt =====
-- The client reads back what the server writes.
pub mod Segments
pub mod Pongs
pub mod Crossed
pub use bee_r_type.Network.Segments.{IsPlain, join}
use mathlib.Core.List.{append_assoc, append-nil}
use bee_r_type.Prelude.{
  ℕ, ◌+◌, ◌-◌, ◌%◌, ◌^◌, ◌<◌, ◌≤◌, ◌≡◌, refl, sym, ap, subst, ◌∙◌, ◌≢◌, inl, inr, false, none, some,
  List, [], ◌∷◌, ◌++◌, ◌==◌, if◌then◌else◌, arith, All, ==_iff, Bool-cases, ok, thrown,
  out_of_range,
}
use bee_r_type.Prelude.Int.{ℤ, pos}
use bee_r_type.Prelude.Decimal.{Bytes, to_string, stoi}
use bee_r_type.Prelude.Decimal.RoundTrip.{
  to_string-IsDigit, IsDigit, stoi-to_string, to_string-cons,
}
use bee_r_type.Platform.{Platform}
use bee_r_type.Network.Packet.{PacketType, type_code, heartbeat}
use bee_r_type.Network.Segments.{to_string-IsPlain}
use bee_r_type.Server.News.{packet_data-join}
use bee_r_type.Server
use bee_r_type.Server.{Server, packet_data}
use bee_r_type.Client.{
  Client, segments, deserialise_packet, substr_2, parse_message, parse_bytes, parse_elements,
  store_elements, store_number,
}
use bee_r_type.Client.Parsing.Segments.{segments-join, join-append}

pub type_code-byte : (t : PacketType) → type_code t % 256 ≡ type_code t
type_code-byte heartbeat = refl
type_code-byte _ = refl

type_code-heartbeat : (t : PacketType) → t ≢ heartbeat → (type_code t == 99) ≡ false
type_code-heartbeat heartbeat h = absurd (h refl)
type_code-heartbeat _ h = refl

-- The client splits what the server wrote into the five segments of the data and the number.
pub deserialise-written :
    (d₀ d₁ d₂ d₃ d₄ : Bytes) (n : ℕ)
    → All IsPlain (d₀ ∷ d₁ ∷ d₂ ∷ d₃ ∷ d₄ ∷ [])
    → deserialise_packet (join (d₀ ∷ d₁ ∷ d₂ ∷ d₃ ∷ []) d₄ ++ (b';' ∷ to_string n))
      ≡ d₀ ∷ d₁ ∷ d₂ ∷ d₃ ∷ d₄ ∷ to_string n ∷ []
unfolding deserialise_packet
deserialise-written d₀ d₁ d₂ d₃ d₄ n h =
    let (c, s, e) = to_string-cons n in
    let plain : IsPlain (c ∷ s) = subst IsPlain e (to_string-IsPlain n) in
    rw (
      join-append (d₀ ∷ d₁ ∷ d₂ ∷ d₃ ∷ []) d₄ (to_string n),
      e,
      segments-join (d₀ ∷ d₁ ∷ d₂ ∷ d₃ ∷ d₄ ∷ []) c s h plain,
    )

module _ ⦃p : Platform⦄ where
  open p use {Real, parse_real, double}

  store_elements_lem :
      (type : ℕ) (e₀ e₁ e₂ e₃ e₄ e₅ : Bytes) (c : Client) {id n : ℤ} {x y vx vy : Real}
      → stoi e₀ ≡ ok id
      → parse_real e₁ ≡ ok x
      → parse_real e₂ ≡ ok y
      → parse_real e₃ ≡ ok vx
      → parse_real e₄ ≡ ok vy
      → stoi e₅ ≡ ok n
      → store_elements type (e₀ ∷ e₁ ∷ e₂ ∷ e₃ ∷ e₄ ∷ e₅ ∷ []) c
        ≡ store_number n (record c {
          packet_data = record {
            action = pos type;
            server_id = id;
            new_x = x;
            new_y = y;
            new_vx = vx;
            new_vy = vy;
          };
        })
  unfolding store_elements
  store_elements_lem type e₀ e₁ e₂ e₃ e₄ e₅ c h₀ h₁ h₂ h₃ h₄ h₅ = rw (h₀, h₁, h₂, h₃, h₄, h₅)

  store_number_lem :
      (n last : ℕ) (c : Client)
      → c.last_packet_number ≡ pos last
      → last ≤ n
      → store_number (pos (n + 1)) c ≡ record c {
        packets_lost = if last == n then c.packets_lost else double (pos (n - last));
        last_packet_number = pos (n + 1);
      }
  unfolding store_number
  store_number_lem n last c e le = ground arith

  parse_elements_lem :
      (now type : ℕ) (e : Bytes) (es : List Bytes) (c : Client)
      → (type == 99) ≡ false
      → parse_elements now type (e ∷ es) c ≡ store_elements type (e ∷ es) c
  unfolding parse_elements
  parse_elements_lem now type e es c h = rw h

  pub parse_message_lem :
      (now type : ℕ) (inside : Bytes) (c : Client) (es : List Bytes)
      → c.received_data ≡ type ∷ (b';' ∷ inside)
      → type % 256 ≡ type
      → deserialise_packet inside ≡ es
      → parse_message now c ≡ ok (parse_elements now type es c)
  unfolding parse_message parse_bytes substr_2
  parse_message_lem now type inside c es h byte split = rw (h, parse_bytes, byte, split)

  create_packet-bytes :
      (t : PacketType) (d₀ d₁ d₂ d₃ d₄ : Bytes) (s : Server)
      → (Server.create_packet t (join (d₀ ∷ d₁ ∷ d₂ ∷ d₃ ∷ []) d₄) s).1
        ≡ type_code t
          ∷ (b';'
              ∷ (join (d₀ ∷ d₁ ∷ d₂ ∷ d₃ ∷ []) d₄ ++ (b';' ∷ to_string (s.sequence_number + 1))))
  unfolding Server.create_packet
  create_packet-bytes t d₀ d₁ d₂ d₃ d₄ s =
      ap (λ d. type_code t ∷ (b';' ∷ (d ++ (b';' ∷ to_string (s.sequence_number + 1)))))
        (packet_data-join d₀ (d₁ ∷ d₂ ∷ d₃ ∷ []) d₄)

  -- What the client stores of a packet, but for a heartbeat, before it looks at the number.
  pub parse-create_packet_stores :
      (t : PacketType) (d₀ d₁ d₂ d₃ d₄ : Bytes) (id : ℤ) (x y vx vy : Real) (s : Server)
      (c : Client) (now : ℕ)
      → t ≢ heartbeat
      → All IsPlain (d₀ ∷ d₁ ∷ d₂ ∷ d₃ ∷ d₄ ∷ [])
      → stoi d₀ ≡ ok id
      → parse_real d₁ ≡ ok x
      → parse_real d₂ ≡ ok y
      → parse_real d₃ ≡ ok vx
      → parse_real d₄ ≡ ok vy
      → s.sequence_number + 1 < 2 ^ 31
      → let message = (Server.create_packet t (join (d₀ ∷ d₁ ∷ d₂ ∷ d₃ ∷ []) d₄) s).1 in
        parse_message now (record c { received_data = message })
        ≡ ok (
            store_number (pos (s.sequence_number + 1)) (record c {
              received_data = message;
              packet_data = record {
                action = pos (type_code t);
                server_id = id;
                new_x = x;
                new_y = y;
                new_vx = vx;
                new_vy = vy;
              };
            }))
  parse-create_packet_stores t d₀ d₁ d₂ d₃ d₄ id x y vx vy s c now ne plain h₀ h₁ h₂ h₃ h₄ room =
      let n = s.sequence_number + 1 in
      let message = (Server.create_packet t (join (d₀ ∷ d₁ ∷ d₂ ∷ d₃ ∷ []) d₄) s).1 in
      let c' = record c { received_data = message } in
      let es = d₁ ∷ d₂ ∷ d₃ ∷ d₄ ∷ to_string n ∷ [] in
      parse_message_lem now (type_code t) _ c' (d₀ ∷ es) (create_packet-bytes t d₀ d₁ d₂ d₃ d₄ s)
        (type_code-byte t) (deserialise-written d₀ d₁ d₂ d₃ d₄ n plain)
      ∙ ap ok (
          parse_elements_lem now (type_code t) d₀ es c' (type_code-heartbeat t ne)
          ∙ store_elements_lem (type_code t) d₀ d₁ d₂ d₃ d₄ (to_string n) c' h₀ h₁ h₂ h₃ h₄
              (stoi-to_string n room))

  -- The client reads every packet of the server, but for a heartbeat, whose data are five segments that
  -- it can parse, and whose number is below 2 ^ 31 and above the last one it read: it stores the type and
  -- the five values. The packet's number becomes the last one; if it follows the last number the count of
  -- lost packets stays, and otherwise the count is how many numbers were left out.
  pub parse-create_packet :
      (t : PacketType) (d₀ d₁ d₂ d₃ d₄ : Bytes) (id : ℤ) (x y vx vy : Real) (s : Server)
      (c : Client) (now last : ℕ)
      → t ≢ heartbeat
      → All IsPlain (d₀ ∷ d₁ ∷ d₂ ∷ d₃ ∷ d₄ ∷ [])
      → stoi d₀ ≡ ok id
      → parse_real d₁ ≡ ok x
      → parse_real d₂ ≡ ok y
      → parse_real d₃ ≡ ok vx
      → parse_real d₄ ≡ ok vy
      → s.sequence_number + 1 < 2 ^ 31
      → c.last_packet_number ≡ pos last
      → last ≤ s.sequence_number
      → let message = (Server.create_packet t (join (d₀ ∷ d₁ ∷ d₂ ∷ d₃ ∷ []) d₄) s).1 in
        parse_message now (record c { received_data = message })
        ≡ ok (record c {
          received_data = message;
          packet_data = record {
            action = pos (type_code t);
            server_id = id;
            new_x = x;
            new_y = y;
            new_vx = vx;
            new_vy = vy;
          };
          packets_lost =
              if last == s.sequence_number
              then c.packets_lost
              else double (pos (s.sequence_number - last));
          last_packet_number = pos (s.sequence_number + 1);
        })
  parse-create_packet t d₀ d₁ d₂ d₃ d₄ id x y vx vy s c now last ne plain h₀ h₁ h₂ h₃ h₄ room e le =
      parse-create_packet_stores t d₀ d₁ d₂ d₃ d₄ id x y vx vy s c now ne plain h₀ h₁ h₂ h₃ h₄ room
      ∙ ap ok (store_number_lem s.sequence_number last _ e le)

  -- A datagram of one byte makes `parseMessage` throw: `substr(2)` stands outside its `try` block.
  pub parse_message_short :
      (now b : ℕ) (c : Client)
      → c.received_data ≡ b ∷ []
      → parse_message now c ≡ thrown out_of_range
  unfolding parse_message parse_bytes substr_2
  parse_message_short now b c h = rw (h, parse_bytes)
