-- ===== src/Server/Telling.antt =====
-- What the game does to the server: `Broadcast(createPacket(...))`, any number of times.
use bee_r_type.Prelude.{◌≡◌, refl, sym, ap, subst, ◌∙◌, List, [], ◌∷◌, ◌++◌, All, All-append}
use bee_r_type.Prelude.Decimal.{Bytes}
use bee_r_type.Platform.{Platform}
use bee_r_type.Network.Packet.{PacketType}
use bee_r_type.Server.{Server, announce}
use bee_r_type.Server.News.{IsNews}

module _ ⦃p : Platform⦄ where
  abbrev pub announce_each : List (PacketType × Bytes) → Server → Server
  announce_each [] s = s
  announce_each ((type, data') ∷ news) s = announce_each news (announce type data' s)

  -- The second server is the first after some announcements, whose data are five segments.
  abbrev pub Tells : Server → Server → Type 0
  Tells s s' =
      (news : List (PacketType × Bytes)) × (s' ≡ announce_each news s) × All (λ x. IsNews x.1) news

  pub Tells-refl : (s : Server) → Tells s s
  Tells-refl s = ([], refl, tt)

  pub Tells-announce :
      (type : PacketType) (data' : Bytes) (s : Server)
      → IsNews data'
      → Tells s (announce type data' s)
  Tells-announce type data' s h = ((type, data') ∷ [], refl, (h, tt))

  announce_each-append :
      (xs ys : List (PacketType × Bytes)) (s : Server)
      → announce_each (xs ++ ys) s ≡ announce_each ys (announce_each xs s)
  announce_each-append [] ys s = refl
  announce_each-append ((type, data') ∷ xs) ys s =
      announce_each-append xs ys (announce type data' s)

  pub Tells-trans : {a b c : Server} → Tells a b → Tells b c → Tells a c
  Tells-trans {a} (xs, e, hx) (ys, f, hy) = (
    xs ++ ys,
    f ∙ ap (announce_each ys) e ∙ sym (announce_each-append xs ys a),
    All-append (λ x. IsNews x.1) xs ys hx hy,
  )

  -- What one announcement keeps, all of them keep.
  pub Tells-keeps {ℓ} :
      (P : Server → Type ℓ)
      → ((type : PacketType) (data' : Bytes) (s : Server)
          → IsNews data'
          → P s
          → P (announce type data' s))
      → {s s' : Server} → Tells s s'
      → P s
      → P s'
  Tells-keeps P keep {s} (news, e, all) h = subst P (sym e) (kept news s all h)
    where
      kept :
          (news : List (PacketType × Bytes)) (s : Server)
          → All (λ x. IsNews x.1) news
          → P s
          → P (announce_each news s)
      kept [] s all h = h
      kept ((type, data') ∷ news) s all h =
          kept news (announce type data' s) all.1 (keep type data' s all.0 h)
