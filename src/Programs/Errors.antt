-- ===== src/Programs/Errors.antt =====
-- What the server's program does with exceptions.
use bee_r_type.Prelude.{◌≡◌, ◌≢◌, refl, List, [], ◌∷◌, codes, ok, Result-cases, inl, inr}
use bee_r_type.Prelude.Int.{ℤ}
use bee_r_type.Prelude.Decimal.{Bytes, stoi}
use bee_r_type.Programs.{invalid_port_exception, Call, prints, server_main, parse_port}

-- Bad arguments: not exactly one, or one that `std::stoi` does not read.
abbrev pub IsRefused : List Bytes → Type 0
IsRefused (name ∷ port ∷ []) = (n : ℤ) → stoi port ≢ ok n
IsRefused _ = Unit

-- With bad arguments the program does not make a server, whatever making one would do: it prints an
-- InvalidPortException and exits.
pub server_main-refused :
    (serve : ℤ → Call (Unit {0})) (args : List Bytes)
    → IsRefused args
    → (message : Bytes) × (server_main serve args ≡ prints (invalid_port_exception message))
unfolding server_main parse_port
server_main-refused serve (name ∷ port ∷ []) h = elim (Result-cases (stoi port)) [
  | inl (e, q) ↦ (codes "Invalid port number", rw q)
  | inr (n, q) ↦ absurd (h n q)
]
server_main-refused serve _ h = (codes "Invalid number of arguments", refl)
