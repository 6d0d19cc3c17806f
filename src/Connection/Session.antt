-- ===== src/Connection/Session.antt =====
-- A connection whose functors wait in its event loop, under any schedule of calls of `Send`, of
-- functors that the loop runs and of write events, and what is to hold of it.
use tiny_game_server.Base.{
  ℕ, ◌+◌, ◌≤◌, ◌≡◌, List, [], ◌∷◌, ◌++◌, Option, none, some, if◌then◌else◌, ◌>>=◌,
}
use tiny_game_server.Buffer.{Buffer}
use tiny_game_server.Buffer.Invariant.{IsValid, size, contents}
use tiny_game_server.Connection.{
  Connection, Callback, Task, sends, closes, is_connected, send, run_task, handle_write,
}
use tiny_game_server.Connection.Output.{IsSound, output}

pub record Session : Type 0 where
  pub conn : Connection
  pub pending : List Task

pub data Event : Type 0 where
  gives : Buffer → Event  -- a call of `Send`
  turns : Option ℕ → Event  -- the loop runs the next functor, with this answer of the kernel
  writable : Option ℕ → Event  -- a write event, with this answer

-- No schedule goes past the loop's call of a functor of `Close` to where it destroys that functor.
module _ (close_cb : Callback) where
  unfoldable pub step : Session → Event → Option Session
  step s (gives buf) = some (record s { pending = s.pending ++ send s.conn buf })
  step s (turns answer) = elim s.pending [
    | [] ↦ some s
    | t ∷ ts ↦ run_task close_cb s.conn t answer >>= (λ c. some (record { conn = c; pending = ts }))
  ]
  step s (writable answer) = handle_write s.conn answer >>= (λ c. some (record s { conn = c }))

  unfoldable pub run : Session → List Event → Option Session
  run s [] = some s
  run s (e ∷ es) = step s e >>= (λ t. run t es)

-- The bytes in the functors, and their number.
abbrev pub queued : List Task → List ℕ
queued [] = []
queued (sends buf ∷ ts) = contents buf ++ queued ts
queued (closes ∷ ts) = queued ts

abbrev pub backlog : List Task → ℕ
backlog [] = 0
backlog (sends buf ∷ ts) = size buf + backlog ts
backlog (closes ∷ ts) = backlog ts

-- All that was given to the connection, in order: taken by the kernel, in its buffer, or in a functor.
abbrev pub stream : Session → List ℕ
stream s = output s.conn ++ queued s.pending

-- `Close` was not called, and the buffers in the functors are valid.
abbrev pub AllSend : List Task → Type 0
AllSend [] = Unit {0}
AllSend (sends buf ∷ ts) = IsValid buf × AllSend ts
AllSend (closes ∷ ts) = ⊥

pub record IsReady (s : Session) : Type 0 where
  pub sound : IsSound s.conn
  pub tasks : AllSend s.pending
  pub room : size s.conn.send_buffer + backlog s.pending ≤ s.conn.send_buffer.capacity

-- What an event adds to the stream.
abbrev pub given : Session → Event → List ℕ
given s (gives buf) = if is_connected s.conn.status then contents buf else []
given s (turns answer) = []
given s (writable answer) = []

-- A buffer that is given is valid, and fits with all that waits.
abbrev pub Admits : Session → Event → Type 0
Admits s (gives buf) =
    IsValid buf
    × (size s.conn.send_buffer + backlog s.pending + size buf ≤ s.conn.send_buffer.capacity)
Admits s (turns answer) = Unit {0}
Admits s (writable answer) = Unit {0}

-- A result of an event: no fault, a ready session, and a stream.
abbrev pub Delivers : List ℕ → Option Session → Type 0
Delivers out r = (t : Session) × (r ≡ some t) × IsReady t × (stream t ≡ out)

module _ (close_cb : Callback) where
  -- The same along a schedule.
  abbrev pub Admitted : Session → List Event → Type 0
  Admitted s [] = Unit {0}
  Admitted s (e ∷ es) = Admits s e × ((t : Session) → step close_cb s e ≡ some t → Admitted t es)

  -- What a schedule gives, while the connection takes it.
  unfoldable pub given_all : Session → List Event → List ℕ
  given_all s [] = []
  given_all s (e ∷ es) =
      given s e ++ (elim (step close_cb s e) [ none ↦ [] | some t ↦ given_all t es ])
