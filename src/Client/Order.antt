-- ===== src/Client/Order.antt =====
-- In which order a client may be used.
use tiny_game_server.Base.{
  ℕ, ◌+◌, ◌≤◌, Allows-some, ◌≡◌, refl, List, [], ◌∷◌, Option, none, some, true, ◌>>=◌,
}
use tiny_game_server.Buffer.{Buffer}
use tiny_game_server.Buffer.Invariant.{IsValid, size}
use tiny_game_server.Connection.Output.{IsSound}
use tiny_game_server.Connection.Output.Send.{send_in_loop-Outputs}
use tiny_game_server.Connection.Keeps.{Keeps, send_in_loop-Keeps}
use tiny_game_server.Watcher.{
  Call, idle, event_del, is_reading, start, enable_read, disable_all, new_watcher,
  set_read_callback, set_write_callback,
}
use tiny_game_server.Watcher.Operations.{HasEvent}
use tiny_game_server.Connection
use tiny_game_server.Connection.{
  Connection, connected, disconnected, Callback, send, close, sends, closes, run_task, handle_close,
  new_connection, minus_one, invoke, is_connected,
}
use tiny_game_server.Table.{find, assign, erase}
use tiny_game_server.Client.{
  Client, new_client, connect, send_buffer, disconnect, pointee, object, give_up, release, process,
  serve, run_all, retire_all, run_job, handle_new_conn,
}

-- `Send` right after `Connect` on a new client follows a null pointer. Once the loop has run the functor
-- of the connector, and then that which starts the connection, the client holds a connection that is
-- connected, waits for bytes to read and has no other owner, and no functor waits.
pub process-connect :
    (junk : ℕ → ℕ → ℕ) (addr : List ℕ) (fd : ℕ) (buf : Buffer) (a b : ℕ → Option ℕ)
    → (send_buffer buf (connect (some fd) (new_client addr)) ≡ none)
      × ((c : Client) × (conn : Connection) × ((process junk none a
                (connect (some fd) (new_client addr))
              >>= process junk none b)
            ≡ some c)
          × (pointee c ≡ some (0, conn))
          × (c.pending ≡ [])
          × (conn.status ≡ connected)
          × (conn.owners ≡ 1)
          × (is_reading conn.watcher ≡ true)
          × HasEvent conn.watcher)
unfolding new_client connect send_buffer process serve run_all retire_all run_job handle_new_conn
    Connection.start enable_read start new_watcher set_read_callback set_write_callback
    new_connection find assign pointee object give_up
process-connect junk addr fd buf a b = (refl, (_, _, refl, refl, refl, refl, refl, refl, (_, refl)))

-- A client whose connection has an event, is connected and has no other owner, in a loop without
-- functors.
abbrev pub ready_client : List ℕ → Option ℕ → Connection → List Call → Client
ready_client addr fd conn cs = record {
  addr = addr;
  fd = none;
  sockets = fd ∷ [];
  objects =
      (
        0,
        some (record conn {
          status = connected;
          owners = 1;
          watcher = record (conn.watcher) { event = some cs };
        }),
      )
      ∷ [];
  held = some 0;
  next = 1;
  pending = [];
}

-- What is left when the connection is destroyed: no pointer to it, and no functor.
abbrev pub IsGone : Client → Type 0
IsGone c = (object 0 c ≡ none) × (pointee c ≡ none) × (c.pending ≡ [])

-- `Disconnect` and then `Send`, on a client whose connection is in working order (a valid send buffer of
-- less than 1 GiB), with a valid buffer that fits behind what waits to be sent. If the loop takes
-- both functors together, that of `Disconnect` owns the connection until that of `Send` has run:
-- nothing faults, and the connection is destroyed behind them. If `Send` is called when the loop
-- has taken the functor of `Disconnect` but has not run it yet, the connection is destroyed behind
-- this functor, and the loop then uses it for that of `Send`.
pub process-disconnect :
    (junk : ℕ → ℕ → ℕ) (conn_cb : Callback) (addr : List ℕ) (fd : Option ℕ) (conn : Connection)
    (cs : List Call) (buf : Buffer) (a b : ℕ → Option ℕ)
    → IsSound conn
    → IsValid buf
    → size conn.send_buffer + size buf ≤ conn.send_buffer.capacity
    → let ready : Client = ready_client addr fd conn cs in
      ((c d : Client) × ((disconnect ready >>= send_buffer buf) ≡ some c)
        × (process junk conn_cb a c ≡ some d)
        × IsGone d)
      × ((taken given d : Client) × (disconnect ready ≡ some taken)
          × (send_buffer buf (record taken { pending = [] }) ≡ some given)
          × (serve junk conn_cb a taken.pending given ≡ some d)
          × (object 0 d ≡ none)
          × (process junk conn_cb b d ≡ none))
unfolding disconnect send_buffer process serve run_all retire_all run_job run_task handle_close
    disable_all send close find assign erase pointee object give_up release
process-disconnect junk conn_cb addr fd conn cs buf a b s v h =
    let closed : Connection = record conn {
      status = disconnected;
      owners = 1;
      watcher = record (conn.watcher) { ev_type = idle; event = some (event_del ∷ cs) };
    } in
    let gone : Client = record {
      addr = addr;
      fd = none;
      sockets = fd ∷ [];
      objects = [];
      held = none;
      next = 1;
      pending = [];
    } in
    let (e, q, _, _, _, _) =
      send_in_loop-Outputs closed buf (a 1)
        (record { valid = s.valid; small = s.small; event = (event_del ∷ cs, refl) }) v h in
    let o : e.owners ≡ 1 =
      (Allows-some (Keeps closed) _ e (send_in_loop-Keeps closed buf (a 1)) q).2 in
    ((_, gone, refl, rw q (rw o refl), (refl, refl, refl)), (_, _, _, refl, refl, refl, refl, refl))
