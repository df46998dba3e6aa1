-- ===== src/Game/Actions/Keys.antt =====
-- The players' actions: the keys of the maps of entities, and what the server is told.
use bee_r_type.Prelude.{
  ℕ, codes, ◌≡◌, refl, sym, ap, subst, ◌∙◌, inl, inr, List, [], ◌∷◌, ok, >>=-ok, ok-injective,
  Bool-cases, Option-cases, if_true, if_false, ◌==◌, ltb, ◌&&◌,
}
use bee_r_type.Prelude.Map
use bee_r_type.Prelude.Map.{Map, keys}
use bee_r_type.Platform.{Platform}
use bee_r_type.Ecs.Registry.{has_component, position}
use bee_r_type.Network.Packet.{create_bullet}
use bee_r_type.Entities.{new_bullet, position_of}
use bee_r_type.Game.State.{Game, PlayerAction, entity_data}
use bee_r_type.Server.News.{bullet-IsNews}
use bee_r_type.Server.Telling.{Tells-announce, Tells-refl}
use bee_r_type.Game.Keys.{SameKeys-Advances, Advances, Advances-refl, Advances-trans, emplace_next}
use bee_r_type.Game.Movement.{handle_player_move}
use bee_r_type.Game.Movement.Keys.{handle_player_move-SameKeys}
use bee_r_type.Game.Spawning.{announce_in, shoot_from, spawn_bullet}
use bee_r_type.Game.Actions.{
  process_action, process_actions, process_player_actions, delete_player_action,
}

module _ ⦃p : Platform⦄ where
  open p use {Real, lit, add}

  shoot_from-Advances :
      (shooter : ℕ) (x y : Real) (g g' : Game) → shoot_from shooter x y g ≡ ok g' → Advances g g'
  unfolding shoot_from announce_in
  shoot_from-Advances shooter x y g g' h =
      let (b, _, e) = >>=-ok (new_bullet g.registry g.next_bullet_id x y (lit 1)) _ h in
      subst (Advances g) (ok-injective e) (record {
        fresh = λ d. record {
          players = d.players;
          bullets = emplace_next g.next_bullet_id b g.bullets d.bullets.0 d.bullets.1;
          enemies = d.enemies;
          bosses = d.bosses;
        };
        told =
            Tells-announce create_bullet
              (entity_data g.next_bullet_id (p.print_real x) (p.print_real y) (codes ";5;0"))
              g.server (bullet-IsNews g.next_bullet_id x y);
        registry = refl;
      })

  pub spawn_bullet-Advances :
      (shooter : ℕ) (g g' : Game) → spawn_bullet shooter g ≡ ok g' → Advances g g'
  unfolding spawn_bullet
  spawn_bullet-Advances shooter g g' h = elim (Option-cases (Map.find shooter g.players)) [
    | inl q ↦ subst (Advances g) (ok-injective (rw (q, spawn_bullet) at h)) (Advances-refl g)
    | inr (s, q) ↦
        let h₁ = rw (q, spawn_bullet) at h in
        elim (Bool-cases (has_component position s.body.entity s.body.registry)) [
          | inl there ↦
              let (at, _, shot) = >>=-ok (position_of s.body) _ (sym (if_true _ _ there) ∙ h₁) in
              shoot_from-Advances shooter _ _ g g' shot
          | inr gone ↦
              subst (Advances g) (ok-injective (sym (if_false _ _ gone) ∙ h₁)) (Advances-refl g)
        ]
  ]

  process_action-Advances :
      (a a' : PlayerAction) (g g' : Game) → process_action a g ≡ ok (a', g') → Advances g g'
  unfolding process_action
  process_action-Advances a a' g g' h = elim (Bool-cases (ltb 0 a.action_id && ltb a.action_id 5)) [
    | inl q ↦
        let (m, moved, e) =
          >>=-ok (handle_player_move a.player_id a.action_id g) _ (sym (if_true _ _ q) ∙ h) in
        subst (Advances g) (ap (λ r. r.1) (ok-injective e))
          (SameKeys-Advances (handle_player_move-SameKeys a.player_id a.action_id g m moved))
    | inr q ↦
        let h₁ = sym (if_false _ _ q) ∙ h in
        elim (Bool-cases (a.action_id == 5)) [
          | inl shot ↦
              let (m, spawned, e) =
                >>=-ok (spawn_bullet a.player_id g) _ (sym (if_true _ _ shot) ∙ h₁) in
              subst (Advances g) (ap (λ r. r.1) (ok-injective e))
                (spawn_bullet-Advances a.player_id g m spawned)
          | inr other ↦
              subst (Advances g) (ap (λ r. r.1) (ok-injective (sym (if_false _ _ other) ∙ h₁)))
                (Advances-refl g)
        ]
  ]

  process_actions-Advances :
      (as' : List PlayerAction) (r : List PlayerAction × Game) (g : Game)
      → process_actions as' g ≡ ok r
      → Advances g r.1
  unfolding process_actions
  process_actions-Advances [] r g h =
      subst (Advances g) (ap (λ r. r.1) (ok-injective h)) (Advances-refl g)
  process_actions-Advances (a ∷ more) r g h =
      let ((a', m), first, h₁) = >>=-ok (process_action a g) _ h in
      let (s, rest, e) = >>=-ok (process_actions more m) _ h₁ in
      subst (Advances g) (ap (λ r. r.1) (ok-injective e)) (
        Advances-trans (process_action-Advances a a' g m first)
          (process_actions-Advances more s m rest))

  pub actions_field-Advances :
      (as' : List PlayerAction) (g : Game) → Advances g (record g { player_actions = as' })
  actions_field-Advances as' g = SameKeys-Advances (record {
    players = refl;
    bullets = refl;
    enemies = refl;
    bosses = refl;
    counted = refl;
    told = Tells-refl g.server;
    registry = refl;
  })

  pub process_player_actions-Advances :
      (g g' : Game) → process_player_actions g ≡ ok g' → Advances g g'
  unfolding process_player_actions delete_player_action
  process_player_actions-Advances g g' h =
      let (r, done, e) = >>=-ok (process_actions g.player_actions g) _ h in
      subst (Advances g) (ok-injective e) (
        Advances-trans (process_actions-Advances g.player_actions r g done)
          (actions_field-Advances _ r.1))
