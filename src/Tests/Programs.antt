-- ===== src/Tests/Programs.antt =====
-- Runs of the theorems on the two programs.
use bee_r_type.Prelude.{◌≡◌, ◌%◌, ◌^◌, [], ◌∷◌, codes, arith}
use bee_r_type.Prelude.Int.{ℤ}
use bee_r_type.Prelude.Decimal.{Bytes, to_string, stoi}
use bee_r_type.Programs.{parse_port, Call, returns, server_main, prints, invalid_port_exception}
use bee_r_type.Programs.Ports.{listens, parse_port-to_string}
use bee_r_type.Programs.Errors.{server_main-refused}

-- A port above 32767, which a `short` does not hold.
parse_port-to_string_example :
    listens (parse_port (codes "server" ∷ to_string 40_000 ∷ [])) ≡ returns (40_000 % 2 ^ 16)
parse_port-to_string_example = parse_port-to_string (codes "server") 40_000 (omega arith)

abbrev served : ℤ → Call (Unit {0})
served port = returns tt

server_main-refused_example :
    (message : Bytes) × (server_main served (codes "server" ∷ codes "port" ∷ [])
      ≡ prints (invalid_port_exception message))
unfolding stoi
server_main-refused_example =
    server_main-refused served (codes "server" ∷ codes "port" ∷ []) (λ n h. cc)
