-- ===== src/Game/Loop/Keys.antt =====
-- The game's loop: the keys of the maps of entities, and what the server is told.
use mathlib.Core.List.{Nodup, Nodup-nil}
use bee_r_type.Prelude.{
  ℕ, zero, suc, ◌+◌, ◌≡◌, refl, sym, subst, inl, inr, Bool, true, false, some, List, [], ◌∷◌,
  if◌then◌else◌, ok, thrown, Exception, >>=-ok, ok-injective, Bool-cases, Option-cases,
  Result-cases, leb, codes, ◌==◌, ◌||◌, is_empty, length,
}
use bee_r_type.Prelude.Int.{ℤ, pos}
use bee_r_type.Prelude.Map
use bee_r_type.Prelude.Map.{Map, keys}
use bee_r_type.Prelude.Map.Laws.{keys-adjust}
use bee_r_type.Platform.{Platform}
use bee_r_type.Ecs.Registry.{run_systems}
use bee_r_type.Network.Packet.{ui_update, create_player}
use bee_r_type.Entities.{Player, new_player, update_hp, update_score}
use bee_r_type.Server.News.{still-IsNews}
use bee_r_type.Server.Telling.{Tells, Tells-refl, Tells-announce, Tells-trans}
use bee_r_type.Server.{announce}
use bee_r_type.Game.State.{Game, entity_data, elapsed, second, started}
use bee_r_type.Game.Keys.{
  SameKeys, SameKeys-refl, SameKeys-trans, HasFreshKeys, emplace-Nodup, Advances, Advances-refl,
  Advances-trans, SameKeys-Advances, KeepsKeys-Advances,
}
use bee_r_type.Game.Collisions.{check_collisions}
use bee_r_type.Game.Collisions.Detections.{announce_in-SameKeys}
use bee_r_type.Game.Collisions.Keys.{check_collisions-KeepsKeys}
use bee_r_type.Game.Spawning.{announce_in, spawn_player, announce_player}
use bee_r_type.Game.Drift.{update_bullets, update_enemies}
use bee_r_type.Game.Waves.{wave_system}
use bee_r_type.Game.Actions.{process_player_actions}
use bee_r_type.Game.Loop.{
  Times, announce_scores, update_ui, update_round, Progress, returned, running, failed, update,
  run_loop, run, check_players_alive, stop, initialize_from, initialize_players,
}
use bee_r_type.Game.Loop.Endless.{Progress-cases}
use bee_r_type.Game.Actions.Keys.{process_player_actions-Advances}
use bee_r_type.Game.Loop.Steps.{
  update_bullets-SameKeys, update_enemies-SameKeys, wave_system-Advances,
}

module _ ⦃p : Platform⦄ where
  open p use {Real, lit, add, mul, print_real}

  announce_scores-SameKeys : (m : Map Player) (g : Game) → SameKeys g (announce_scores m g)
  unfolding announce_scores
  announce_scores-SameKeys [] g = SameKeys-refl g
  announce_scores-SameKeys ((id, q) ∷ m) g =
      let data' = entity_data id (print_real q.hp) (print_real q.score) (codes ";0;0") in
      SameKeys-trans (announce_in-SameKeys ui_update data' g (still-IsNews id q.hp q.score))
        (announce_scores-SameKeys m (announce_in ui_update data' g))

  pub update_ui-SameKeys : (now : ℕ) (g : Game) → SameKeys g (update_ui now g)
  unfolding update_ui
  update_ui-SameKeys now g =
      shown (leb 1 (elapsed second g.last_ui_time now)) (announce_scores-SameKeys g.players g)
    where
      shown :
          (b : Bool)
          → SameKeys g (announce_scores g.players g)
          → SameKeys g (
              if b
              then record (announce_scores g.players g) { last_ui_time = some now }
              else record g { last_ui_time = started g.last_ui_time now })
      shown true s = record {
        players = s.players;
        bullets = s.bullets;
        enemies = s.enemies;
        bosses = s.bosses;
        counted = s.counted;
        told = s.told;
        registry = s.registry;
      }
      shown false s = record {
        players = refl;
        bullets = refl;
        enemies = refl;
        bosses = refl;
        counted = refl;
        told = Tells-refl _;
        registry = refl;
      }

  pub update_round-Advances : (t : Times) (g g' : Game) → update_round t g ≡ ok g' → Advances g g'
  unfolding update_round
  update_round-Advances t g g' h =
      let (g₁, s₁, h₁) = >>=-ok (process_player_actions g) _ h in
      let (g₂, s₂, h₂) = >>=-ok (update_bullets t.bullets g₁) _ h₁ in
      let (g₃, s₃, h₃) = >>=-ok (update_enemies t.enemies g₂) _ h₂ in
      let (g₄, s₄, h₄) = >>=-ok (check_collisions g₃) _ h₃ in
      let (g₅, s₅, h₅) = >>=-ok (wave_system t.wave g₄) _ h₄ in
      let a₁ = process_player_actions-Advances g g₁ s₁ in
      let a₂ = SameKeys-Advances (update_bullets-SameKeys t.bullets g₁ g₂ s₂) in
      let a₃ = SameKeys-Advances (update_enemies-SameKeys t.enemies g₂ g₃ s₃) in
      let a₄ = KeepsKeys-Advances (check_collisions-KeepsKeys g₃ g₄ s₄) in
      let a₅ = wave_system-Advances t.wave g₄ g₅ s₅ in
      let a₆ = SameKeys-Advances (update_ui-SameKeys t.ui g₅) in
      subst (Advances g) (ok-injective h₅) (
        Advances-trans a₁
          (Advances-trans a₂ (Advances-trans a₃ (Advances-trans a₄ (Advances-trans a₅ a₆)))))

  -- A property of the game where a call stands or has returned.
  abbrev pub Holds : (Game → Type 0) → Progress → Type 0
  Holds P (returned g) = P g
  Holds P (running g) = P g
  Holds P (failed e) = Unit

  update-HasFreshKeys :
      (ts : List Times) (g : Game) → HasFreshKeys g → Holds HasFreshKeys (update ts g)
  unfolding update
  update-HasFreshKeys [] g d = d
  update-HasFreshKeys (t ∷ ts) g d = elim (Result-cases (update_round t g)) [
    | inl (e, q) ↦ rw (q, update) tt
    | inr (g', q) ↦
        rw (q, update) (update-HasFreshKeys ts g' ((update_round-Advances t g g' q).fresh d))
  ]

  check_players_alive-HasFreshKeys :
      (g : Game) → HasFreshKeys g → HasFreshKeys (check_players_alive g).0
  unfolding check_players_alive stop announce_in
  check_players_alive-HasFreshKeys g d =
      elim (Bool-cases (length g.server.clients == 0 || is_empty g.players)) [
        | inl q ↦ rw q (record {
          players = Nodup-nil;
          bullets = (Nodup-nil, tt);
          enemies = (Nodup-nil, tt);
          bosses = (Nodup-nil, tt);
        })
        | inr q ↦ rw q (record {
          players = d.players;
          bullets = d.bullets;
          enemies = d.enemies;
          bosses = d.bosses;
        })
      ]

  checked-HasFreshKeys :
      (b : Bool) (tss : List (List Times)) (g : Game)
      → HasFreshKeys g
      → Holds HasFreshKeys (run_loop tss g)
      → Holds HasFreshKeys (if b then run_loop tss g else returned g)
  checked-HasFreshKeys true tss g d rest = rest
  checked-HasFreshKeys false tss g d rest = d

  run_loop-HasFreshKeys :
      (tss : List (List Times)) (g : Game) → HasFreshKeys g → Holds HasFreshKeys (run_loop tss g)
  unfolding run_loop
  run_loop-HasFreshKeys [] g d = d
  run_loop-HasFreshKeys (ts ∷ tss) g d =
      let updated = update-HasFreshKeys ts g d in
      elim (Progress-cases (update ts g)) [
        | inl (g', q) ↦
            let d' = check_players_alive-HasFreshKeys g' (subst (Holds HasFreshKeys) q updated) in
            let (g'', b) = check_players_alive g' in
            rw (q, run_loop) (checked-HasFreshKeys b tss g'' d' (run_loop-HasFreshKeys tss g'' d'))
        | inr (inl (g', q)) ↦ rw (q, run_loop) (subst (Holds HasFreshKeys) q updated)
        | inr (inr (e, q)) ↦ rw (q, run_loop) tt
      ]

  total_players-Advances : (n : ℤ) (g : Game) → Advances g (record g { total_players = n })
  total_players-Advances n g = SameKeys-Advances (record {
    players = refl;
    bullets = refl;
    enemies = refl;
    bosses = refl;
    counted = refl;
    told = Tells-refl g.server;
    registry = refl;
  })

  announce_player-Tells :
      (id : ℕ) (x y : Real) (q : Player) (g : Game)
      → Tells g.server (announce_player id x y q g).server
  unfolding announce_player announce_in
  announce_player-Tells id x y q g =
      let data' = entity_data id (print_real x) (print_real y) (codes ";0;0") in
      Tells-trans (Tells-announce create_player data' g.server (still-IsNews id x y)) (
        Tells-announce ui_update
          (entity_data id (print_real q.hp) (print_real q.score) (codes ";0;0"))
          (announce create_player data' g.server) (still-IsNews id q.hp q.score))

  spawn_player-Advances :
      (id : ℕ) (x y : Real) (g g' : Game) → spawn_player id x y g ≡ ok g' → Advances g g'
  unfolding spawn_player announce_player announce_in
  spawn_player-Advances id x y g g' h =
      let (fresh, _, h₁) = >>=-ok (new_player g.registry x y) _ h in
      let ready = λ (q : Player). update_score (lit 0) (update_hp (lit 100) q) in
      let players = Map.adjust id ready (Map.emplace id fresh g.players) in
      elim (Option-cases (Map.find id players)) [
        | inl q ↦ thrown_ok (rw q at h₁)
        | inr (r, q) ↦ subst (Advances g) (ok-injective (rw q at h₁)) (record {
          fresh = λ d. record {
            players =
                subst Nodup (sym (keys-adjust id ready (Map.emplace id fresh g.players)))
                  (emplace-Nodup id fresh g.players d.players);
            bullets = d.bullets;
            enemies = d.enemies;
            bosses = d.bosses;
          };
          told = announce_player-Tells id x y r g;
          registry = refl;
        })
      ]
    where
      thrown_ok : {e : Exception} → thrown e ≡ ok g' → Advances g g'
      thrown_ok e = cc

  initialize_from-Advances :
      (left i : ℕ) (g g' : Game) → initialize_from left i g ≡ ok g' → Advances g g'
  unfolding initialize_from
  initialize_from-Advances zero i g g' h = subst (Advances g) (ok-injective h) (Advances-refl g)
  initialize_from-Advances (suc left) i g g' h =
      let (m, spawned, rest) =
        >>=-ok (spawn_player i (mul (lit 100) (add (lit i) (lit 1))) (lit 100) g) _ h in
      Advances-trans (spawn_player-Advances i _ _ g m spawned)
        (initialize_from-Advances left (i + 1) m g' rest)

  pub initialize_players-Advances :
      (n : ℕ) (g g' : Game) → initialize_players n g ≡ ok g' → Advances g g'
  unfolding initialize_players
  initialize_players-Advances n g g' h =
      Advances-trans (total_players-Advances (pos n) g) (initialize_from-Advances n 0 _ g' h)

  -- At every point of a game, from its start with any number of players and through all rounds of the
  -- loop, no identifier stands twice in a map of entities, and the identifiers of bullets, enemies and
  -- bosses are below the counter of their kind: the next one to be spawned is new.
  pub run-HasFreshKeys :
      (n : ℕ) (tss : List (List Times)) (g : Game)
      → HasFreshKeys g
      → Holds HasFreshKeys (run n tss g)
  unfolding run run_systems
  run-HasFreshKeys n tss g d = elim (Result-cases (initialize_players n g)) [
    | inl (e, q) ↦ rw (q, run) tt
    | inr (g', q) ↦
        rw (q, run) (run_loop-HasFreshKeys tss g' ((initialize_players-Advances n g g' q).fresh d))
  ]
