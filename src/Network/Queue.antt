-- ===== src/Network/Queue.antt =====
-- `ThreadSafeQueue` of Network/include/ThreadSafeQueue.hpp. Each operation holds the mutex from its
-- first access to its last, and so is one step on the contents, oldest first. `none` is a `pop` that
-- blocks.
use bee_r_type.Prelude.{Bool, Option, none, some, List, [], ◌∷◌, ◌++◌, is_empty}

abbrev pub Queue {ℓ} : Type ℓ → Type ℓ
Queue A = List A

module _ {ℓ} {A : Type ℓ} where
  unfoldable pub push : A → Queue A → Queue A
  push value q = q ++ value ∷ []

  unfoldable pub pop : Queue A → Option (A × Queue A)
  pop [] = none
  pop (value ∷ q) = some (value, q)

  unfoldable pub empty : Queue A → Bool
  empty q = is_empty q
