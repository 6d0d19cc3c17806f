-- ===== src/DataServer/Serve/State.antt =====
-- A connection of the data server between two inputs, and what writing to its socket leaves of that.
use tiny_game_server.Base.{
  ℕ, ◌+◌, ◌≤◌, ◌≡◌, refl, sym, ap, ◌∙◌, List, [], ◌∷◌, ◌++◌, Option, none, some, ◌>>=◌, arith,
  append-nil, append_assoc, Allows-some, Bool-cases, inl, inr,
}
use tiny_game_server.Buffer.Invariant.{IsValid, size, contents, length-contents}
use tiny_game_server.Watcher.{is_writing}
use tiny_game_server.Watcher.Operations.{enable_read-Leaves}
use tiny_game_server.Connection
use tiny_game_server.Connection.{
  Connection, connected, Callback, Task, sends, closes, run_task, handle_write, write_event,
}
use tiny_game_server.Connection.Keeps.{
  Keeps, write_event_on, write_event_off, handle_write-Keeps, send_in_loop-Keeps,
}
use tiny_game_server.Connection.Output.{output, handle_write-Outputs}
use tiny_game_server.Connection.Output.Send.{send_in_loop-Outputs}
use tiny_game_server.Connection.Session.{Session, step, turns, queued, backlog, stream, IsReady}
use tiny_game_server.Connection.Delivery.{size_after}

-- The receive buffer has an array of `cap` bytes and holds what was seen of a message; there is room
-- for `need` more bytes to send.
pub record Serving (cap need : ℕ) (s : Session) (seen : List ℕ) : Type 0 where
  pub ready : IsReady s
  pub room : size s.conn.send_buffer + backlog s.pending + need ≤ s.conn.send_buffer.capacity
  pub recv : IsValid s.conn.recv_buffer
  pub recv_size : s.conn.recv_buffer.capacity ≡ cap
  pub is_open : s.conn.status ≡ connected
  pub holds : contents s.conn.recv_buffer ≡ seen

-- A result of an input: no fault, such a connection, and a stream.
abbrev pub Serves : ℕ → ℕ → List ℕ → List ℕ → Option Session → Type 0
Serves cap need seen out r =
    (t : Session) × (r ≡ some t) × Serving cap need t seen × (stream t ≡ out)

module _ (close_cb : Callback) (cap need : ℕ) (seen : List ℕ) where
  turns-Serves :
      (c : Connection) (ts : List Task) (answer : Option ℕ)
      → Serving cap need (record { conn = c; pending = ts }) seen
      → Serves cap need seen
          (output c ++ queued ts)
          (step close_cb (record { conn = c; pending = ts }) (turns answer))
  unfolding step run_task
  turns-Serves c [] answer v = (_, refl, v, refl)
  turns-Serves c (closes ∷ ts) answer v = absurd v.ready.tasks
  turns-Serves c (sends buf ∷ ts) answer v =
      let (d, e, s, o, k, g) =
        send_in_loop-Outputs c buf answer v.ready.sound v.ready.tasks.0
          (omega (arith, v.ready.room)) in
      let (p, q, _) = Allows-some (Keeps c) _ d (send_in_loop-Keeps c buf answer) e in
      let less : size d.send_buffer ≤ size c.send_buffer + size buf = omega (
        arith,
        size_after c d (output c ++ contents buf) (contents buf) v.ready.sound s refl o g,
        length-contents buf v.ready.tasks.0,
      ) in
      (
        record { conn = d; pending = ts },
        rw e,
        record {
          ready = record {
            sound = s;
            tasks = v.ready.tasks.1;
            room = omega (arith, v.ready.room, k, less);
          };
          room = omega (arith, v.room, k, less);
          recv = rw p v.recv;
          recv_size = rw p v.recv_size;
          is_open = q ∙ v.is_open;
          holds = rw p v.holds;
        },
        ap (λ t. t ++ queued ts) o ∙ append_assoc (output c) (contents buf) (queued ts),
      )

  pub loop_turn-Serves :
      (s : Session) (answer : Option ℕ)
      → Serving cap need s seen
      → Serves cap need seen (stream s) (step close_cb s (turns answer))
  loop_turn-Serves s answer v = turns-Serves s.conn s.pending answer v

  handle_write-Serves :
      (s : Session) (answer : Option ℕ)
      → Serving cap need s seen
      → Serves cap need seen
          (stream s)
          (handle_write s.conn answer >>= (λ c. some (record s { conn = c })))
  handle_write-Serves s answer v =
      let (d, e, t, o, k, g) = handle_write-Outputs s.conn answer v.ready.sound in
      let (p, q, _) = Allows-some (Keeps s.conn) _ d (handle_write-Keeps s.conn answer) e in
      let less : size d.send_buffer ≤ size s.conn.send_buffer = omega (
        arith,
        size_after s.conn d (output s.conn) [] v.ready.sound t (sym (append-nil (output s.conn))) o
            g,
      ) in
      (
        record s { conn = d },
        rw e,
        record {
          ready = record {
            sound = t;
            tasks = v.ready.tasks;
            room = omega (arith, v.ready.room, k, less);
          };
          room = omega (arith, v.room, k, less);
          recv = rw p v.recv;
          recv_size = rw p v.recv_size;
          is_open = q ∙ v.is_open;
          holds = rw p v.holds;
        },
        ap (λ x. x ++ queued s.pending) o,
      )

  pub write_event-Serves :
      (s : Session) (answer : Option ℕ)
      → Serving cap need s seen
      → Serves cap need seen
          (stream s)
          (write_event s.conn answer >>= (λ c. some (record s { conn = c })))
  write_event-Serves s answer v = elim (Bool-cases (is_writing s.conn.watcher)) [
    | inl e ↦ rw (write_event_on s.conn answer e) (handle_write-Serves s answer v)
    | inr e ↦ rw (write_event_off s.conn answer e) (s, refl, v, refl)
  ]

  -- Where the connection is started, once or again, nothing else changes.
  pub start-Serves :
      (s : Session)
      → Serving cap need s seen
      → Serves cap need seen
          (stream s)
          (Connection.start none s.conn >>= (λ c. some (record s { conn = c })))
  unfolding Connection.start
  start-Serves s v =
      let (w, e, event, _) = enable_read-Leaves s.conn.watcher v.ready.sound.event in
      (
        record s { conn = record (s.conn) { watcher = w } },
        rw e refl,
        record {
          ready = record {
            sound = record {
              valid = v.ready.sound.valid;
              small = v.ready.sound.small;
              event = event;
            };
            tasks = v.ready.tasks;
            room = v.ready.room;
          };
          room = v.room;
          recv = v.recv;
          recv_size = v.recv_size;
          is_open = v.is_open;
          holds = v.holds;
        },
        refl,
      )
