-- ===== src/Lib.antt =====
-- BeeR-Type: a verification library for the R-Type server and its client.
--
-- The program. A server (Server/src/Server.cpp) receives datagrams, puts their packets into a queue
-- (Network/include/ThreadSafeQueue.hpp), and sends the messages of its own queue to every client at each
-- tick of a timer. A handler thread (Network/src/PacketHandler.cpp) takes the packets one by one and calls
-- the server (connect, disconnect, heartbeat) or the game (actions, shots, start, end). The game
-- (R-Type/src/Game.cpp on GameEngine/src/AGame.cpp) runs in a thread of its own, moves and collides its
-- players, enemies, bosses and bullets (R-Type/src/*.cpp), and announces every change to the clients through
-- the server. Each object keeps its position in a registry of the entity component system
-- (ECS/Registry.hpp, ECS/components/SparseArray.hpp). The client (Client/src/Client.cpp) has two threads: one
-- runs the handlers of the socket and the timers and stores the last packet; the other shows a lobby
-- (Client/src/LobbyScene.cpp), and then the game (Client/src/GameScene.cpp), whose frames act on that packet
-- and queue the player's actions. Both programs (Server/main.cpp, Client/main.cpp) take a port as argument.
--
-- The files.
--   Prelude        Boolean tests, lists, exceptions as results (Results), std::map as an association list
--                  (Map), std::unordered_map<int, V> as entries in some order (Table), integers (Int),
--                  std::to_string and std::stoi (Decimal).
--   Platform       What the code takes from elsewhere: float arithmetic and its printing, UDP endpoints,
--                  SFML shapes, and what a misused mutex does. IsIeee states the facts of float comparison
--                  that proofs use, of whole numbers and of values that are not NaN, IsPrinting that a
--                  printed float holds no `;`.
--   Ecs            SparseArray, Components and Registry: one definition for each member function. Systems
--                  holds positionSystem and projectileSystem, which nothing registers.
--   Network        Packet, with the payloads of Data, and Queue; Segments is the text of a packet.
--   Server         The members of Server as a record, and its member functions as functions of it; a pending
--                  asynchronous operation is a flag, and a datagram handed to the socket an entry of `sent`.
--   Entities       Player, Enemy, Boss and Bullet, each with its own copy of a registry.
--   Game           State, and the functions of AGame and Game by what they do: Spawning, Movement,
--                  Collisions, Drift, Waves, Actions, Loop. The static variables are fields of the record.
--                  Game/Keys, and the modules Keys below it, follow the identifiers through a game;
--                  Game/Standing what the functions of a round need of the positions of its objects.
--   Handlers       PacketHandler: a step on the server and the game for each packet.
--   Process        runServer: the threads of the server as a relation (Step) whose steps are whole handlers
--                  and the calls of a round, each run to its end, in every order; Process/Clients puts a
--                  client's main loop behind it.
--   Client         The client's record, its parsing, heartbeats and lag meter. Sprites holds SFML as an
--                  interface; GameScene and LobbyScene the two scenes, a state and a window for each
--                  function; MainLoop the main loop, one Turn for each iteration, with the handlers (Io)
--                  that the other thread runs before it.
--   Programs       The arguments, ports and exceptions of the two programs.
--   Sample, Tests  A concrete platform and runs of the theorems on it.
-- A function keeps its name in snake_case: handlePlayerMove is handle_player_move. An overload is named for
-- its types, as check_player_enemy. The modules below these state and prove properties.
--
-- Bounds. Identifiers and counters of type int only grow from 0 and are natural numbers, sequence_number among
-- them, where a theorem on the numbers of packets has it below 2 ^ 31; the identifier of DisconnectData is
-- converted to int and back. uint32_t and size_t counters wrap around. The clock readings are arguments of the rounds of the main loop, and the loop runs
-- for as many rounds as it is given readings, so no bound on its length is assumed. The client's loop
-- likewise runs for the turns that it is given. Its identifiers come from packets and are integers. Decimal
-- digits are written on a fuel greater than the number, of which each digit takes one unit. The loops of the
-- systems have the size of the array that they go through as fuel: they never resize that one.
--
-- Shared objects. Both scenes refer to the client's packet data: MainLoop hands them to a scene before its
-- update and takes them back behind it. handleReceive locks a mutex that main_loop unlocks, each in its own
-- thread, so it is locked by a thread that owns it and unlocked by one that does not, which C++ leaves undefined.
-- The mutex is a flag, and Platform says whether the first of these waits or goes on and whether the second
-- clears the flag; theorems hold for each. That either throws is not covered.
--
-- Not modelled: loading textures and fonts, what a window looks like, getGameInstance (not called), the
-- systems of the ECS that name what nothing declares (CollisionSystem.hpp, ControlSystem.hpp,
-- DrawSystem.hpp), and interleavings of threads within a handler, a frame, the start of a game or a call of
-- a round. The source has no lock that excludes these on the server, and they can do what no sequence of whole
-- steps does: a packet that createPacket numbered can be queued behind a later one, two threads can use
-- send_queue_ at once, and stop can clear the maps of the game while a call of a round is using them.
pub mod Prelude
pub mod Platform
pub mod Ecs
pub mod Network
pub mod Server
pub mod Entities
pub mod Game
pub mod Handlers
pub mod Process
pub mod Client
pub mod Programs
pub mod Sample
pub mod Tests
