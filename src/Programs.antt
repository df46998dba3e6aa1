-- ===== src/Programs.antt =====
-- The two programs: Server/main.cpp with Server/Errors/Throws.hpp, and Client/main.cpp.
pub mod Ports
pub mod Errors
use bee_r_type.Prelude.{
  ℕ, ◌+◌, ◌-◌, ◌%◌, ◌^◌, ltb, if◌then◌else◌, List, [], ◌∷◌, codes, Result, ok, thrown, Exception,
}
use bee_r_type.Prelude.Int.{ℤ, pos, negsuc}
use bee_r_type.Prelude.Decimal.{Bytes, stoi, to_string_ℤ}

-- `NtsException`; the classes that `NEW_EXCEPTION` makes differ in their type's name.
pub record NtsException : Type 0 where
  pub message : Bytes
  pub type : Bytes

abbrev pub invalid_port_exception : Bytes → NtsException
invalid_port_exception message = record { message = message; type = codes "InvalidPortException" }

abbrev pub permission_denied_exception : Bytes → NtsException
permission_denied_exception message = record {
  message = message;
  type = codes "PermissionDeniedException";
}

abbrev pub standard_exception : Bytes → NtsException
standard_exception message = record { message = message; type = codes "StandardException" }

abbrev pub unknown_exception : Bytes → NtsException
unknown_exception message = record { message = message; type = codes "UnknownException" }

-- What is thrown: an `NtsException`, a `system_error` with or without the code `access_denied`, another
-- `std::exception` with its message, or something else.
pub data Thrown : Type 0 where
  nts : NtsException → Thrown
  access_denied system_error standard : Bytes → Thrown
  unknown : Thrown

-- A call of the server's program: it throws or returns.
pub data Call {ℓ} (A : Type ℓ) : Type ℓ where
  throws : Thrown → Call A
  returns : A → Call A

-- The value of an `int` as a 16-bit `short`.
abbrev pub to_short : ℤ → ℤ
to_short (pos n) = let m = n % 2 ^ 16 in if ltb m (2 ^ 15) then pos m else negsuc (2 ^ 16 - 1 - m)
to_short (negsuc n) =
    let m = n % 2 ^ 16 in if ltb m (2 ^ 15) then negsuc m else pos (2 ^ 16 - 1 - m)

-- The value of a `short` as an `unsigned short`, which is the port of an endpoint.
abbrev pub to_unsigned_short : ℤ → ℕ
to_unsigned_short (pos n) = n
to_unsigned_short (negsuc n) = 2 ^ 16 - 1 - n

abbrev pub port_of : Result ℤ → Call ℤ
port_of (thrown e) = throws (nts (invalid_port_exception (codes "Invalid port number")))
port_of (ok n) = returns (to_short n)

-- `parsePort`, for the arguments with the program's name in front.
unfoldable pub parse_port : List Bytes → Call ℤ
parse_port (name ∷ port ∷ []) = port_of (stoi port)
parse_port _ = throws (nts (invalid_port_exception (codes "Invalid number of arguments")))

-- The handlers of `runServer`: `serve` makes the server on a port and runs it until it stops.
abbrev pub rethrow : Call (Unit {0}) → Call (Unit {0})
rethrow (throws (access_denied what)) =
    throws (nts (permission_denied_exception (codes "Permission denied")))
rethrow call = call

unfoldable pub run_server : (ℤ → Call (Unit {0})) → ℤ → Call (Unit {0})
run_server serve port = rethrow (serve port)

-- The handlers of `main`: what it prints as an exception, if anything, or what leaves it.
pub data Exit : Type 0 where
  exits : Exit
  prints : NtsException → Exit
  escapes : NtsException → Exit

abbrev pub report : Call (Unit {0}) → Exit
report (returns u) = exits
report (throws (nts e)) = prints e
report (throws (standard what)) = escapes (standard_exception what)
report (throws (system_error what)) = escapes (standard_exception what)
report (throws (access_denied what)) = escapes (standard_exception what)
report (throws unknown) = escapes (unknown_exception (codes "Unknown exception occurred"))

abbrev pub on_port : (ℤ → Call (Unit {0})) → Call ℤ → Call (Unit {0})
on_port run (throws e) = throws e
on_port run (returns port) = run port

unfoldable pub server_main : (ℤ → Call (Unit {0})) → List Bytes → Exit
unfolding parse_port run_server
server_main serve args = report (on_port (run_server serve) (parse_port args))

-- What the client's program starts with: the host, the text of the server's port that the resolver
-- gets, and the port of its own socket.
pub record Target : Type 0 where
  pub host : Bytes
  pub service : Bytes
  pub client_port : ℕ

-- Its status 84, or an exception of `std::stoi`, which nothing catches.
pub data ClientStart : Type 0 where
  usage : ClientStart
  uncaught : Exception → ClientStart
  starts : Target → ClientStart

abbrev pub read_number : Result ℤ → (ℤ → ClientStart) → ClientStart
read_number (thrown e) next = uncaught e
read_number (ok n) next = next n

unfoldable pub client_main : List Bytes → ClientStart
client_main (name ∷ host ∷ server_port ∷ client_port ∷ []) = read_number (stoi server_port) λ s.
    read_number (stoi client_port) λ c. starts (record {
      host = host;
      service = to_string_ℤ (to_short s);
      client_port = to_unsigned_short (to_short c);
    })
client_main _ = usage
