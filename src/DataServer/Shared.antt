-- ===== src/DataServer/Shared.antt =====
-- server/DataServer.cpp with src/network/TCPServer.cpp and src/network/EventLoop.cpp: the data server
-- without workers, whose connections all have the one event loop. Their functors wait in one queue.
-- `none` is undefined behaviour, as in Connection.
pub mod Projects
pub mod Steps
pub mod Accepts
pub mod Follows
pub mod Absent
pub mod Ids
pub mod Tracks
pub mod Distinct
pub mod Parts
pub mod Runs
pub mod Isolated
use tiny_game_server.Base.{
  ℕ, ◌≡◌, List, [], ◌∷◌, ◌++◌, Option, none, some, ◌==◌, if◌then◌else◌, ◌>>=◌,
}
use tiny_game_server.Bytes.{Host}
use tiny_game_server.Connection
use tiny_game_server.Connection.{
  Connection, Task, sends, closes, new_connection, run_task, handle_read, write_event,
}
use tiny_game_server.Connection.Session.{Session}
use tiny_game_server.Serial.{generate}
use tiny_game_server.Table.{Table, find, assign, erase}
use tiny_game_server.Workers.{Worker}
use tiny_game_server.Server.{Server, handle_new_conn, close_callback}
use tiny_game_server.DataServer.Serve
use tiny_game_server.DataServer.Serve.{Input, take_input}

-- The functors in the loop: that of `HandleNewConn`, and those of a connection.
pub data Work : Type 0 where
  begins : Work
  does : Task → Work

-- A functor is of one connection, which is named by its id.
pub record Shared : Type 0 where
  pub server : Server
  pub pending : List (ℕ × Work)

-- The listener hands over a new connection, at a time, from an address; bytes arrive on
-- a connection, at least one; its stream ends; the loop runs the next functor; the socket of
-- a connection can be written to.
pub data Event : Type 0 where
  accepts : ℕ → List ℕ → Event
  arrives : ℕ → ℕ → List ℕ → Event
  ends : ℕ → Event
  runs : Option ℕ → Event
  opens_socket : ℕ → Option ℕ → Event

abbrev pub connections : Shared → Table Connection
connections s = s.server.connections

-- The connection of an id, if it is not destroyed.
unfoldable pub live : ℕ → Table Connection → Option Connection
live id t = find id t >>= (λ c. c)

abbrev pub tagged : ℕ → List Task → List (ℕ × Work)
tagged id [] = []
tagged id (t ∷ ts) = (id, does t) ∷ tagged id ts

-- What `HandleNewConn` gave to the loop.
abbrev pub posted : List (ℕ × ℕ) → List (ℕ × Work)
posted [] = []
posted ((loop, id) ∷ more) = (id, begins) ∷ posted more

abbrev pub set_connections : Table Connection → List (ℕ × Work) → Shared → Shared
set_connections t pending s = record {
  server = record (s.server) { connections = t };
  pending = pending;
}

-- A connection changed.
abbrev pub keep : ℕ → Connection → List (ℕ × Work) → Shared → Shared
keep id c pending s = set_connections (assign id (some c) (connections s)) pending s

-- The close callback took the connection out of the table.
abbrev pub drop_connection : ℕ → List (ℕ × Work) → Shared → Shared
drop_connection id pending s = set_connections (erase id (connections s)) pending s

-- A functor on its connection, and what it leaves.
abbrev pub run_work : Work → Connection → Option ℕ → Option Connection
run_work begins c answer = Connection.start none c
run_work (does t) c answer = run_task (close_callback none) c t answer

-- (Nothing in the data server calls `Close`.)
abbrev pub after_work : ℕ → Work → Connection → List (ℕ × Work) → Shared → Shared
after_work id begins c pending s = keep id c pending s
after_work id (does (sends buf)) c pending s = keep id c pending s
after_work id (does closes) c pending s = drop_connection id pending s

module _ (host : Host) (junk : ℕ → ℕ → ℕ) (select_user : List ℕ → List ℕ → Option ℕ)
    (stamp : ℕ → ℕ) where
  -- The loop has no event for a connection that is destroyed, but it may have a functor.
  unfoldable pub take_event : Shared → Event → Option Shared
  take_event s (accepts now addr) = handle_new_conn stamp junk now addr s.server >>= (λ v.
      some (record { server = record v { posted = [] }; pending = s.pending ++ posted v.posted }))
  take_event s (arrives id x xs) = elim (live id (connections s)) [
    | none ↦ some s
    | some c ↦
        take_input host junk select_user (record { conn = c; pending = [] }) (Serve.arrives x xs)
        >>= (λ u. some (keep id u.conn (s.pending ++ tagged id u.pending) s))
  ]
  take_event s (ends id) = elim (live id (connections s)) [
    | none ↦ some s
    | some c ↦
        handle_read none (close_callback none) c (some [])
        >>= (λ d. some (drop_connection id s.pending s))
  ]
  take_event s (runs answer) = elim s.pending [
    | [] ↦ some s
    | (id, w) ∷ ws ↦
        live id (connections s)
        >>= (λ c. run_work w c answer)
        >>= (λ d. some (after_work id w d ws s))
  ]
  take_event s (opens_socket id answer) = elim (live id (connections s)) [
    | none ↦ some s
    | some c ↦ write_event c answer >>= (λ d. some (keep id d s.pending s))
  ]

  unfoldable pub take_events : Shared → List Event → Option Shared
  take_events s [] = some s
  take_events s (e ∷ es) = take_event s e >>= (λ t. take_events t es)

-- The functors of one connection, and those among them that it gave to the loop itself.
abbrev pub works_of : ℕ → List (ℕ × Work) → List Work
works_of id [] = []
works_of id ((j, w) ∷ ws) = let rest = works_of id ws in if j == id then w ∷ rest else rest

abbrev pub tasks : List Work → List Task
tasks [] = []
tasks (begins ∷ ws) = tasks ws
tasks (does t ∷ ws) = t ∷ tasks ws

-- The connection with its own functors, as if it were alone.
abbrev pub alone : ℕ → Connection → List (ℕ × Work) → Session
alone id c pending = record { conn = c; pending = tasks (works_of id pending) }

unfoldable pub session : ℕ → Shared → Option Session
unfolding live
session id s = live id (connections s) >>= (λ c. some (alone id c s.pending))

-- What a functor is to its connection.
abbrev pub input_of : Work → Option ℕ → Input
input_of begins answer = Serve.starts
input_of (does t) answer = Serve.turns_loop answer

-- What an event is to a connection that is there, and to which.
abbrev pub for_live : ℕ → Input → Shared → Option (ℕ × Input)
for_live id i s = live id (connections s) >>= (λ c. some (id, i))

abbrev pub subject : Shared → Event → Option (ℕ × Input)
subject s (accepts now addr) = none
subject s (arrives id x xs) = for_live id (Serve.arrives x xs) s
subject s (ends id) = none
subject s (runs answer) = elim s.pending [ [] ↦ none | (id, w) ∷ ws ↦ some (id, input_of w answer) ]
subject s (opens_socket id answer) = for_live id (Serve.opens_socket answer) s

abbrev pub part_of : ℕ → Option (ℕ × Input) → List Input
part_of id none = []
part_of id (some (j, i)) = if j == id then i ∷ [] else []

-- The new connection of an event, under its id.
abbrev pub newborn : (ℕ → ℕ → ℕ) → (ℕ → ℕ) → Shared → Event → Option (ℕ × Session)
newborn junk stamp s (accepts now addr) =
    let id : ℕ = (generate stamp now s.server.serial).0 in
    some (id, record { conn = new_connection junk addr id; pending = [] })
newborn junk stamp s _ = none

abbrev pub born : ℕ → Option (ℕ × Session) → Option Session
born id none = none
born id (some (j, u)) = if j == id then some u else none

-- No stream ends.
abbrev pub AllStay : List Event → Type 0
AllStay [] = Unit {0}
AllStay (ends id ∷ es) = ⊥
AllStay (e ∷ es) = AllStay es

abbrev pub AllSend : List (ℕ × Work) → Type 0
AllSend [] = Unit {0}
AllSend ((id, begins) ∷ ws) = AllSend ws
AllSend ((id, does (sends buf)) ∷ ws) = AllSend ws
AllSend ((id, does closes) ∷ ws) = ⊥

-- There are no workers; the functors in the queue are those of `HandleNewConn` and of `Send`, on
-- connections that are not destroyed.
pub record IsShared (s : Shared) : Type 0 where
  pub single : s.server.manager.threads ≡ []
  pub handed : s.server.posted ≡ []
  pub send : AllSend s.pending
  pub owned : (id : ℕ) → session id s ≡ none → works_of id s.pending ≡ []

module _ (host : Host) (junk : ℕ → ℕ → ℕ) (select_user : List ℕ → List ℕ → Option ℕ)
    (stamp : ℕ → ℕ) where
  -- The part of a schedule that is of one connection, up to a fault.
  unfoldable pub projected : ℕ → Shared → List Event → List Input
  projected id s [] = []
  projected id s (e ∷ es) =
      part_of id (subject s e) ++ (elim (take_event host junk select_user stamp s e) [
        | none ↦ []
        | some t ↦ projected id t es
      ])

  -- The connection of an id as it is first, at the begin or when it is accepted.
  unfoldable pub origin : ℕ → Shared → List Event → Option Session
  origin id s [] = session id s
  origin id s (e ∷ es) =
      let later : Option Session = elim (take_event host junk select_user stamp s e) [
        | none ↦ none
        | some t ↦ origin id t es
      ] in
      elim (session id s) [ some u ↦ some u | none ↦ later ]

  -- Every id that is given out along the run is of no connection.
  unfoldable pub AreNew : Shared → List Event → Type 0
  AreNew s [] = Unit {0}
  AreNew s (e ∷ es) =
      ((id : ℕ) (u v : Session)
        → born id (newborn junk stamp s e) ≡ some u
        → session id s ≡ some v
        → ⊥)
      × (elim (take_event host junk select_user stamp s e) [
        | none ↦ Unit {0}
        | some t ↦ AreNew t es
      ])
