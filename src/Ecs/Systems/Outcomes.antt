-- ===== src/Ecs/Systems/Outcomes.antt =====
-- What becomes of an entity with a projectile, and its effect on the components.
use bee_r_type.Prelude.{
  ℕ, ◌≡◌, refl, ap, ◌∙◌, inl, inr, Bool, true, false, Option, none, some, ◌==◌, if◌then◌else◌, ok,
  Bool-cases,
}
use bee_r_type.Platform.{Platform}
use bee_r_type.Ecs.SparseArray
use bee_r_type.Ecs.SparseArray.{SparseArray}
use bee_r_type.Ecs.SparseArray.View.{view-insert_at}
use bee_r_type.Ecs.Components.{Position, Velocity, Projectile}
use bee_r_type.Ecs.Registry.{Kind, position, Component, Registry, find_array, put_array}
use bee_r_type.Ecs.Registry.Storage.{cell}
use bee_r_type.Ecs.Registry.Lifetime.{IsWired}
use bee_r_type.Ecs.Registry.Killing.{
  SameKinds, put_array-SameKinds, IsWired-along, kill_entity-cells,
}
use bee_r_type.Ecs.Systems.{flown, fly}

if_same {ℓ} : {A : Type ℓ} (b : Bool) (x : A) → x ≡ (if b then x else x)
if_same true x = refl
if_same false x = refl

module _ ⦃p : Platform⦄ where
  open p use {lit, lt}

  -- What becomes of an entity.
  pub data Outcome : Type 0 where
    stays leaves : Outcome
    flies : Position → Outcome

  -- An entity with a projectile, a position and a velocity flies, and leaves behind the right border.
  abbrev pub outcome : Option Projectile → Option Position → Option Velocity → Outcome
  outcome (some proj) (some pos) (some vel) =
      let at = flown pos vel proj in if lt (lit 1280) at.x then leaves else flies at
  outcome _ _ _ = stays

  -- The outcome in the components of the entity.
  abbrev pub after : Outcome → (k : Kind) → Option (Component k) → Option (Component k)
  after leaves k c = none
  after (flies at) position c = some at
  after _ k c = c

  -- An outcome for one entity; all others keep their components.
  pub record Changed (i : ℕ) (c : Outcome) (r r' : Registry) : Type 0 where
    pub wired : IsWired r'
    pub same : SameKinds r r'
    pub cells :
        (k : Kind) (j : ℕ)
        → cell k r'.arrays j ≡ (if j == i then after c k (cell k r.arrays j) else cell k r.arrays j)

  pub Changed-stays : (i : ℕ) (r : Registry) → IsWired r → Changed i stays r r
  Changed-stays i r w = record {
    wired = w;
    same = λ k. (λ q. q, λ q. q);
    cells = λ k j. if_same (j == i) (cell k r.arrays j);
  }

  flies-Changed :
      (i : ℕ) (at : Position) (ps : SparseArray Position) (r : Registry)
      → find_array position r.arrays ≡ some ps
      → IsWired r
      → Changed i
          (flies at)
          r
          (record r { arrays = put_array position (SparseArray.insert_at i at ps) r.arrays })
  flies-Changed i at ps r found w =
      let ys = SparseArray.insert_at i at ps in
      let r' = record r { arrays = put_array position ys r.arrays } in
      let same : SameKinds r r' = put_array-SameKinds position ps ys r found in
      record {
        wired = IsWired-along r r' refl same w;
        same = same;
        cells = λ k j.
            elim k
              as (λ k.
                cell k r'.arrays j
                ≡ (if j == i then after (flies at) k (cell k r.arrays j) else cell k r.arrays j)) [
                  | position ↦ rw found (view-insert_at i at ps j)
                  | _ ↦ if_same (j == i) _
                ];
      }

  leaves-Changed :
      (i : ℕ) (at : Position) (r m r' : Registry)
      → Changed i (flies at) r m
      → IsWired r'
      → SameKinds m r'
      → ((k : Kind) (j : ℕ) → cell k r'.arrays j ≡ (if j == i then none else cell k m.arrays j))
      → Changed i leaves r r'
  leaves-Changed i at r m r' first wired same cells = record {
    wired = wired;
    same = λ k. (λ q. (same k).0 ((first.same k).0 q), λ q. (first.same k).1 ((same k).1 q));
    cells = λ k j. cells k j ∙ elim (Bool-cases (j == i)) [
      | inl here ↦ rw here
      | inr there ↦ rw there (first.cells k j ∙ rw there)
    ];
  }

  pub fly_lem :
      (i : ℕ) (proj : Projectile) (o : Option Position) (v : Option Velocity)
      (ps : SparseArray Position) (r : Registry)
      → find_array position r.arrays ≡ some ps
      → IsWired r
      → (r' : Registry) × (fly i proj o v ps r ≡ ok r') × Changed i (outcome (some proj) o v) r r'
  unfolding fly
  fly_lem i proj none v ps r found w = (r, refl, Changed-stays i r w)
  fly_lem i proj (some pos) none ps r found w = (r, refl, Changed-stays i r w)
  fly_lem i proj (some pos) (some vel) ps r found w =
      let at = flown pos vel proj in
      let m = record r { arrays = put_array position (SparseArray.insert_at i at ps) r.arrays } in
      let first = flies-Changed i at ps r found w in
      elim (Bool-cases (lt (lit 1280) at.x)) [
        | inl far ↦
            let (r', done, wired, same, cells) = kill_entity-cells i m first.wired in
            (r', rw far done, rw far (leaves-Changed i at r m r' first wired same cells))
        | inr near ↦ (m, rw near, rw near first)
      ]

  pub Changed-before :
      (i : ℕ) (c : Outcome) (r m r' : Registry)
      → ((k : Kind) (j : ℕ) → cell k m.arrays j ≡ cell k r.arrays j)
      → SameKinds r m
      → Changed i c m r'
      → Changed i c r r'
  Changed-before i c r m r' cells same d = record {
    wired = d.wired;
    same = λ k. (λ q. (d.same k).0 ((same k).0 q), λ q. (same k).1 ((d.same k).1 q));
    cells = λ k j. d.cells k j ∙ ap (λ o. if j == i then after c k o else o) (cells k j);
  }
