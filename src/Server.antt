-- ===== src/Server.antt =====
-- src/network/TCPServer.h and src/network/TCPServer.cpp: the table of connections, which owns them. An
-- event loop is named by its number. `none` is undefined behaviour, as in Connection.
pub mod Owners
pub mod Keys
pub mod Accept
pub mod Listening
use tiny_game_server.Base.{ℕ, suc, ◌-◌, ◌%◌, ◌^◌, List, [], ◌∷◌, ◌++◌, Option, none, some, ◌>>=◌}
use tiny_game_server.Connection.{
  Connection, Callback, get_serial_id, new_connection, handle_read, handle_close,
}
use tiny_game_server.Connection
use tiny_game_server.Serial.{Serial, generate, first_serial}
use tiny_game_server.Table.{Table, find, assign, index, erase}
use tiny_game_server.Workers.{Manager, pick_event_loop, new_manager}
use tiny_game_server.Workers

pub record Server : Type 0 where
  pub manager : Manager
  pub counter : ℕ  -- the static `i` of `PickEventLoop`
  pub serial : Serial  -- the static variables of `GenerateSerialID`
  pub connections : Table Connection
  pub posted : List (ℕ × ℕ)  -- the functors given to the loops: a loop, and the id that it is to start

unfoldable pub new_server : ℕ → ℕ → Server
unfolding new_manager first_serial
new_server loop now = record {
  manager = new_manager loop;
  counter = 0;
  serial = first_serial now;
  connections = [];
  posted = [];
}

-- The thread half of `Start`; the loops of the workers are numbered from `first` on.
unfoldable pub start_threads : ℕ → ℕ → Server → Server
start_threads first thread_num s = record s { manager = Workers.start first thread_num s.manager }

-- `HandleNewConn`, at a time
unfoldable pub handle_new_conn : (ℕ → ℕ) → (ℕ → ℕ → ℕ) → ℕ → List ℕ → Server → Option Server
handle_new_conn stamp junk now addr s = do
  (loop, counter) ← pick_event_loop s.manager s.counter
  let made = generate stamp now s.serial
  let conn = new_connection junk addr made.0
  some (record s {
    counter = counter;
    serial = made.1;
    connections = assign made.0 (some conn) s.connections;
    posted = s.posted ++ ((loop, made.0) ∷ []);
  })

-- The functor that `HandleNewConn` gives to the loop: a null pointer is dereferenced.
unfoldable pub start_connection : Callback → ℕ → Server → Option Server
start_connection conn_cb id s =
    let (found, t) = index id s.connections in
    elim found [
      | none ↦ none
      | some c ↦
          Connection.start conn_cb c
          >>= (λ d. some (record s { connections = assign id (some d) t }))
    ]

-- `GetConnection(uint id)`: a 64-bit id is cut to 32 bits.
unfoldable pub get_connection : ℕ → Server → Option Connection × Server
get_connection id s =
    let (found, t) = index (id % 2 ^ 32) s.connections in (found, record s { connections = t })

-- The close callback of a connection of the server, on the connection: the table gives it up.
unfoldable pub close_callback : Callback → Callback
close_callback close_cb = some λ c.
    let d = record c { owners = c.owners - 1 } in elim close_cb [ none ↦ some d | some f ↦ f d ]

-- The end of the stream on a connection of the server.
unfoldable pub peer_closes : Callback → Callback → ℕ → Server → Option Server
peer_closes read_cb close_cb id s =
    let (found, t) = index id s.connections in
    elim found [
      | none ↦ none
      | some c ↦
          handle_read read_cb (close_callback close_cb) c (some [])
          >>= (λ d. some (record s { connections = erase (get_serial_id d) t }))
    ]
