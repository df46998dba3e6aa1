-- ===== src/Game/Keys.antt =====
-- The keys of the maps of entities, and the counters that give the next identifiers.
use mathlib.Core.List.{Nodup, Nodup-cons, Mem, mem-cons, not-mem-nil}
use mathlib.Core.List.Perm
use mathlib.Core.Logic.Or
use native.Mathlib.Bridge.{le_prop}
use mathlib.Core.Bool.{false≢true}
use bee_r_type.Prelude.{
  ℕ, ◌<◌, ◌≤◌, ◌+◌, ◌≡◌, refl, sym, ap, subst, ◌∙◌, inl, inr, none, some, List, [], ◌∷◌, All, arith,
  ltb, ==_iff, Bool-cases, Option-cases, ◌==◌,
}
use bee_r_type.Prelude.Map
use bee_r_type.Prelude.Map.{Map, keys}
use bee_r_type.Prelude.Map.Laws.{erase-Nodup}
use bee_r_type.Platform.{Platform}
use bee_r_type.Server.Search.{keys-place}
use bee_r_type.Server.Telling.{Tells, Tells-refl, Tells-trans}
use bee_r_type.Game.State.{Game}

abbrev pub IsBelow : ℕ → List ℕ → Type 0
IsBelow n = All (λ k. k < n)

-- What a change of a map's keys keeps: that no key stands twice, and every bound of them.
pub record Thins (ks ks' : List ℕ) : Type 0 where
  pub nodup : Nodup ks → Nodup ks'
  pub below : (n : ℕ) → IsBelow n ks → IsBelow n ks'

pub Thins-≡ : {ks ks' : List ℕ} → ks' ≡ ks → Thins ks ks'
Thins-≡ e = record { nodup = subst Nodup (sym e); below = λ n. subst (IsBelow n) (sym e) }

pub Thins-trans : {a b c : List ℕ} → Thins a b → Thins b c → Thins a c
Thins-trans s t = record {
  nodup = λ d. t.nodup (s.nodup d);
  below = λ n h. t.below n (s.below n h);
}

pub IsBelow-mono : (ks : List ℕ) {m n : ℕ} → m ≤ n → IsBelow m ks → IsBelow n ks
IsBelow-mono [] le h = tt
IsBelow-mono (k ∷ ks) le h = (omega (arith, h.0, le), IsBelow-mono ks le h.1)

lt_of_mem : (n k : ℕ) (ks : List ℕ) → IsBelow n ks → Mem k ks → k < n
lt_of_mem n k [] h m = absurd (not-mem-nil m)
lt_of_mem n k (j ∷ ks) h m =
    Or.elim le_prop (mem-cons.0 m) (λ e. omega (arith, e, h.0)) (λ m'. lt_of_mem n k ks h.1 m')

module _ {ℓ} {V : Type ℓ} where
  erase-IsBelow : (n k : ℕ) (m : Map V) → IsBelow n (keys m) → IsBelow n (keys (Map.erase k m))
  unfolding Map.erase
  erase-IsBelow n k [] h = tt
  erase-IsBelow n k ((j, v) ∷ m) h = elim (Bool-cases (j == k)) [
    | inl q ↦ rw q h.1
    | inr q ↦ rw q (h.0, erase-IsBelow n k m h.1)
  ]

  pub Thins-erase : (k : ℕ) (m : Map V) → Thins (keys m) (keys (Map.erase k m))
  Thins-erase k m = record { nodup = erase-Nodup k m; below = λ n. erase-IsBelow n k m }

  find_below : (n : ℕ) (m : Map V) → IsBelow n (keys m) → Map.find n m ≡ none
  unfolding Map.find
  find_below n [] h = refl
  find_below n ((j, v) ∷ m) h = elim (Bool-cases (j == n)) [
    | inl q ↦ absurd (omega (arith, h.0, (==_iff j n).0 q))
    | inr q ↦ rw q (find_below n m h.1)
  ]

  place-IsBelow :
      (n k : ℕ) (v : V) (m : Map V)
      → k < n
      → IsBelow n (keys m)
      → IsBelow n (keys (Map.place k v m))
  unfolding Map.place
  place-IsBelow n k v [] lt h = (lt, tt)
  place-IsBelow n k v ((j, w) ∷ m) lt h = elim (Bool-cases (ltb k j)) [
    | inl q ↦ rw q (lt, h)
    | inr q ↦ rw q (h.0, place-IsBelow n k v m lt h.1)
  ]

  -- An entry under a key that is above all others is put in.
  pub emplace_next :
      (n : ℕ) (v : V) (m : Map V)
      → Nodup (keys m)
      → IsBelow n (keys m)
      → Nodup (keys (Map.emplace n v m)) × IsBelow (n + 1) (keys (Map.emplace n v m))
  unfolding Map.emplace
  emplace_next n v m d h =
      rw (find_below n m h, Map.emplace)
        (
          Perm.nodup (Perm.symm (keys-place n v m))
              (Nodup-cons.1 ((λ q. absurd (omega (arith, lt_of_mem n n (keys m) h q))), d)),
          place-IsBelow (n + 1) n v m (omega arith) (IsBelow-mono (keys m) (omega arith) h),
        )

module _ {ℓ} {V : Type ℓ} where
  not_mem-find : (k : ℕ) (m : Map V) → Map.find k m ≡ none → ¬ Mem k (keys m)
  unfolding Map.find
  not_mem-find k [] h q = not-mem-nil q
  not_mem-find k ((j, v) ∷ m) h q = elim (Bool-cases (j == k)) [
    | inl here ↦ some_none (rw here at h)
    | inr there ↦
        Or.elim (hlevel) (mem-cons.0 q)
          (λ e. absurd (false≢true (sym there ∙ (==_iff j k).1 (sym e))))
          (not_mem-find k m (rw there at h))
  ]
    where
      some_none : some v ≡ none → ⊥
      some_none e = cc

  -- `emplace` puts no key in twice.
  pub emplace-Nodup :
      (k : ℕ) (v : V) (m : Map V) → Nodup (keys m) → Nodup (keys (Map.emplace k v m))
  unfolding Map.emplace
  emplace-Nodup k v m d = elim (Option-cases (Map.find k m)) [
    | inl q ↦
        rw (q, Map.emplace)
          (Perm.nodup (Perm.symm (keys-place k v m)) (Nodup-cons.1 (not_mem-find k m q, d)))
    | inr (w, q) ↦ rw (q, Map.emplace) d
  ]

module _ ⦃p : Platform⦄ where
  -- The identifiers of the next bullet, enemy and boss.
  abbrev pub counters : Game → ℕ × ℕ × ℕ
  counters g = (g.next_bullet_id, g.enemy_id, g.boss_id)

  -- A change of a game that puts in nothing, and tells the server at most some news.
  pub record KeepsKeys (g g' : Game) : Type 0 where
    pub players : Thins (keys g.players) (keys g'.players)
    pub bullets : Thins (keys g.bullets) (keys g'.bullets)
    pub enemies : Thins (keys g.enemies) (keys g'.enemies)
    pub bosses : Thins (keys g.bosses) (keys g'.bosses)
    pub counted : counters g' ≡ counters g
    pub told : Tells g.server g'.server
    pub registry : g'.registry ≡ g.registry

  pub KeepsKeys-trans : {a b c : Game} → KeepsKeys a b → KeepsKeys b c → KeepsKeys a c
  KeepsKeys-trans s t = record {
    players = Thins-trans s.players t.players;
    bullets = Thins-trans s.bullets t.bullets;
    enemies = Thins-trans s.enemies t.enemies;
    bosses = Thins-trans s.bosses t.bosses;
    counted = t.counted ∙ s.counted;
    told = Tells-trans s.told t.told;
    registry = t.registry ∙ s.registry;
  }

  -- A change of a game that leaves all keys alone, and tells the server at most some news.
  pub record SameKeys (g g' : Game) : Type 0 where
    pub players : keys g'.players ≡ keys g.players
    pub bullets : keys g'.bullets ≡ keys g.bullets
    pub enemies : keys g'.enemies ≡ keys g.enemies
    pub bosses : keys g'.bosses ≡ keys g.bosses
    pub counted : counters g' ≡ counters g
    pub told : Tells g.server g'.server
    pub registry : g'.registry ≡ g.registry

  pub SameKeys-refl : (g : Game) → SameKeys g g
  SameKeys-refl g = record {
    players = refl;
    bullets = refl;
    enemies = refl;
    bosses = refl;
    counted = refl;
    told = Tells-refl g.server;
    registry = refl;
  }

  pub SameKeys-trans : {a b c : Game} → SameKeys a b → SameKeys b c → SameKeys a c
  SameKeys-trans s t = record {
    players = t.players ∙ s.players;
    bullets = t.bullets ∙ s.bullets;
    enemies = t.enemies ∙ s.enemies;
    bosses = t.bosses ∙ s.bosses;
    counted = t.counted ∙ s.counted;
    told = Tells-trans s.told t.told;
    registry = t.registry ∙ s.registry;
  }

  pub SameKeys-KeepsKeys : {g g' : Game} → SameKeys g g' → KeepsKeys g g'
  SameKeys-KeepsKeys s = record {
    players = Thins-≡ s.players;
    bullets = Thins-≡ s.bullets;
    enemies = Thins-≡ s.enemies;
    bosses = Thins-≡ s.bosses;
    counted = s.counted;
    told = s.told;
    registry = s.registry;
  }

  -- No key stands twice in a map, and those of bullets, enemies and bosses are below the counter that
  -- gives the next one.
  pub record HasFreshKeys (g : Game) : Type 0 where
    pub players : Nodup (keys g.players)
    pub bullets : Nodup (keys g.bullets) × IsBelow g.next_bullet_id (keys g.bullets)
    pub enemies : Nodup (keys g.enemies) × IsBelow g.enemy_id (keys g.enemies)
    pub bosses : Nodup (keys g.bosses) × IsBelow g.boss_id (keys g.bosses)

  thinned :
      {n n' : ℕ} {ks ks' : List ℕ}
      → Thins ks ks'
      → n' ≡ n
      → Nodup ks × IsBelow n ks
      → Nodup ks' × IsBelow n' ks'
  thinned {ks' = ks'} t e h = (t.nodup h.0, subst (λ m. IsBelow m ks') (sym e) (t.below _ h.1))

  KeepsKeys-HasFreshKeys : {g g' : Game} → KeepsKeys g g' → HasFreshKeys g → HasFreshKeys g'
  KeepsKeys-HasFreshKeys s h = record {
    players = s.players.nodup h.players;
    bullets = thinned s.bullets (ap (λ c. c.0) s.counted) h.bullets;
    enemies = thinned s.enemies (ap (λ c. c.1) s.counted) h.enemies;
    bosses = thinned s.bosses (ap (λ c. c.2) s.counted) h.bosses;
  }

  -- What a step of the game keeps: fresh identifiers, the game's own registry, and all of the server but
  -- what an announcement changes.
  pub record Advances (g g' : Game) : Type 0 where
    pub fresh : HasFreshKeys g → HasFreshKeys g'
    pub told : Tells g.server g'.server
    pub registry : g'.registry ≡ g.registry

  pub Advances-trans : {a b c : Game} → Advances a b → Advances b c → Advances a c
  Advances-trans s t = record {
    fresh = λ d. t.fresh (s.fresh d);
    told = Tells-trans s.told t.told;
    registry = t.registry ∙ s.registry;
  }

  pub KeepsKeys-Advances : {g g' : Game} → KeepsKeys g g' → Advances g g'
  KeepsKeys-Advances s = record {
    fresh = KeepsKeys-HasFreshKeys s;
    told = s.told;
    registry = s.registry;
  }

  pub SameKeys-Advances : {g g' : Game} → SameKeys g g' → Advances g g'
  SameKeys-Advances s = KeepsKeys-Advances (SameKeys-KeepsKeys s)

  pub Advances-refl : (g : Game) → Advances g g
  Advances-refl g = SameKeys-Advances (SameKeys-refl g)
