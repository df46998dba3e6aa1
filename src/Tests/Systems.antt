-- ===== src/Tests/Systems.antt =====
-- The system of projectiles.
use bee_r_type.Prelude.{ℕ, ◌≡◌, ◌≢◌, refl, inl, inr, none, some, [], ◌∷◌, ok}
use bee_r_type.Prelude.Int.{pos}
use bee_r_type.Sample.{fixed}
use bee_r_type.Ecs.Registry.{
  Kind, position, velocity, drawable, controllable, collidable, projectile, Registry,
}
use bee_r_type.Ecs.Registry.Storage.{cell, HasKind}
use bee_r_type.Ecs.Registry.Lifetime.{IsWired}
use bee_r_type.Ecs.Systems.{projectile_system}
use bee_r_type.Ecs.Systems.Outcomes.{after}
use bee_r_type.Ecs.Systems.Iteration.{outcome_at}
use bee_r_type.Ecs.Systems.Flying.{projectile_system_lem}

-- Entity 0 flies, entity 1 leaves the screen, and entity 2 has no projectile.
abbrev flock : Registry
flock = record {
  next_entity = 3;
  dead_entities = [];
  arrays = record {
    positions = some (
        some (record { x = pos 300; y = pos 400 })
        ∷ some (record { x = pos 12700; y = pos 100 })
        ∷ some (record { x = pos 0; y = pos 0 })
        ∷ []);
    velocities = some (
        some (record { vx = pos 10; vy = pos 0 })
        ∷ some (record { vx = pos 200; vy = pos 0 })
        ∷ []);
    drawables = none;
    controllables = none;
    collidables = none;
    projectiles = some (some (record { speed = pos 50 }) ∷ some (record { speed = pos 10 }) ∷ []);
  };
  erase_functions = position ∷ velocity ∷ projectile ∷ [];
}

none_else :
    (k : Kind) → k ≢ position → k ≢ velocity → k ≢ projectile → ¬ (HasKind k flock.erase_functions)
none_else k a b c (inl q) = a q
none_else k a b c (inr (inl q)) = b q
none_else k a b c (inr (inr (inl q))) = c q
none_else k a b c (inr (inr (inr h))) = h

flock-IsWired : IsWired flock
flock-IsWired position = (λ h z. cc, λ h. inl refl)
flock-IsWired velocity = (λ h z. cc, λ h. inr (inl refl))
flock-IsWired projectile = (λ h z. cc, λ h. inr (inr (inl refl)))
flock-IsWired drawable =
    (λ h. absurd (none_else drawable (λ q. cc) (λ q. cc) (λ q. cc) h), λ h. absurd (h refl))
flock-IsWired controllable =
    (λ h. absurd (none_else controllable (λ q. cc) (λ q. cc) (λ q. cc) h), λ h. absurd (h refl))
flock-IsWired collidable =
    (λ h. absurd (none_else collidable (λ q. cc) (λ q. cc) (λ q. cc) h), λ h. absurd (h refl))

projectile_system_lem_example :
    (r' : Registry) × (projectile_system flock ≡ ok r')
    × IsWired r'
    × ((k : Kind) (j : ℕ)
        → cell k r'.arrays j ≡ after (outcome_at flock j) k (cell k flock.arrays j))
projectile_system_lem_example = projectile_system_lem flock (record {
  wired = flock-IsWired;
  positions = λ z. cc;
  velocities = λ z. cc;
  projectiles = λ z. cc;
})
