-- ===== src/Process.antt =====
-- The server's process, `runServer` of Server/main.cpp: its threads as a step relation. One thread runs
-- the handlers of the socket and the timers, one the packet handlers, and each `GAME_START` that is
-- answered starts one more on the same game. A step is a whole handler, the start of a game or one of the
-- six calls of a round of its loop, run without another thread in between, and the steps come in any order.
-- This is not every run of the program: no lock keeps a thread from running inside a step of another, where
-- `createPacket` and `Broadcast`, `stop` and `spawnPlayer`, or the pushes and pops of `send_queue_` may meet.
-- An exception that leaves a thread ends the process, so no step follows it.
pub mod Handled
pub mod Sound
pub mod Ends
pub mod Wire
pub mod Clients
use bee_r_type.Prelude.{
  ℕ, zero, suc, ◌+◌, ◌-◌, ◌<◌, ◌≡◌, true, false, some, List, [], ◌∷◌, ◌++◌, ltb, if◌then◌else◌,
  length, ok,
}
use bee_r_type.Prelude.Int.{ℤ}
use bee_r_type.Prelude.Decimal.{Bytes}
use bee_r_type.Platform.{Platform}
use bee_r_type.Server.{
  Server, ErrorCode, init, handle_receive, handle_send_timer, handle_print_timer,
}
use bee_r_type.Game.State.{Game, new_game}
use bee_r_type.Game.Loop.{Times, initialize_players}
use bee_r_type.Game.Loop.Stages.{Stage, acting, following, call_stage}
use bee_r_type.Handlers.{World, start, with_server, process_packet}

module _ ⦃p : Platform⦄ where
  open p use {Endpoint}

  -- `waiting` holds the numbers of players of the threads that did not call `run` yet, and `playing`
  -- what the threads in the loop of `update` call next.
  pub record Process : Type 0 where
    pub world : World
    pub waiting : List ℕ
    pub playing : List Stage

  abbrev pub server_of : Process → Server
  server_of x = x.world.game.server

  -- The process as `runServer` builds it; `unspecified`, `unset` and `total` are what the constructors
  -- leave unset.
  unfoldable pub start_process : Endpoint → ℕ → ℤ → Process
  unfolding start new_game init
  start_process unspecified unset total = record {
    world =
        start
          (record { game = new_game (init unspecified unset) total; games = []; running = false });
    waiting = [];
    playing = [];
  }

  -- The thread that a handler started, if it did.
  unfoldable pub begun : List ℕ → List ℕ → List ℕ
  begun old [] = []
  begun old (n ∷ ns) = if ltb (length old) (length (n ∷ ns)) then n ∷ [] else []

  abbrev pub with_world : World → Process → Process
  with_world w x = record x { world = w; waiting = begun x.world.games w.games ++ x.waiting }

  abbrev pub on_server : (Server → Server) → Process → Process
  on_server f x = record x { world = with_server f x.world }

  abbrev pub with_game : Game → Process → Process
  with_game g x = record x { world = record w { game = g } }
    where
      open x use {world as w}

  -- One whole step of one thread. A completion handler runs only while its operation is pending, and with
  -- any result.
  pub data Step (x : Process) : Process → Type 0 where
    receives :
        (code : ErrorCode) (e : Endpoint) (bytes : Bytes)
        → (server_of x).receiving ≡ true
        → Step x (on_server (handle_receive code e bytes) x)
    sends :
        (code : ErrorCode)
        → (server_of x).send_timer ≡ true
        → Step x (on_server (handle_send_timer code) x)
    prints :
        (code : ErrorCode)
        → (server_of x).print_timer ≡ true
        → Step x (on_server (handle_print_timer code) x)
    handles :
        (w : World)
        → x.world.running ≡ true
        → process_packet x.world ≡ some (ok w)
        → Step x (with_world w x)
    begins :
        (before after : List ℕ) (n : ℕ) (g : Game)
        → x.waiting ≡ before ++ n ∷ after
        → initialize_players n x.world.game ≡ ok g
        → Step x
            (record (with_game g x) { waiting = before ++ after; playing = acting ∷ x.playing })
    plays :
        (before after : List Stage) (k : Stage) (t : Times) (g : Game)
        → x.playing ≡ before ++ k ∷ after
        → call_stage k t x.world.game ≡ ok g
        → Step x (record (with_game g x) { playing = before ++ following k ∷ after })

  pub data Reach (x : Process) : Process → Type 0 where
    here : Reach x x
    next : {y z : Process} → Reach x y → Step y z → Reach x z

  unfoldable pub steps : {x y : Process} → Reach x y → ℕ
  steps here = 0
  steps (next r s) = suc (steps r)
