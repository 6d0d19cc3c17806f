-- ===== src/DataServer/Serve/Accepted.antt =====
-- A client of the data server, from its connection to the answers.
use tiny_game_server.Base.{
  ℕ, ◌*◌, ◌≤◌, ◌≡◌, refl, ap, ◌∙◌, List, [], ◌∷◌, ◌++◌, Option, none, some, arith, append-nil,
  length, true, ◌==◌,
}
use tiny_game_server.Bytes.{Host}
use tiny_game_server.Buffer.{new_buffer, initial_size, get_length}
use tiny_game_server.Buffer.Invariant.{size, contents, new_buffer-IsValid}
use tiny_game_server.Watcher.{
  Watcher, new_watcher, set_read_callback, set_write_callback, enable_read, event_add,
  event_base_set, event_set, Interest,
}
use tiny_game_server.Watcher
use tiny_game_server.Connection.{Connection, ConnStatus, connected, new_connection}
use tiny_game_server.Connection
use tiny_game_server.Connection.Session.{Session, stream}
use tiny_game_server.Serial.{generate}
use tiny_game_server.Table.{find, assign}
use tiny_game_server.Workers.{pick_event_loop}
use tiny_game_server.Server.{Server, handle_new_conn, start_connection}
use tiny_game_server.Server.Accept.{find-assign_self, index_found, start_connection_found}
use tiny_game_server.DataServer.Serve.{take_inputs}
use tiny_game_server.DataServer.Serve.State.{Serving}
use tiny_game_server.DataServer.Serve.Logins.{Conversation, inputs, demand, AreLogins, answers}
use tiny_game_server.DataServer.Serve.Watched.{IsWatched}
use tiny_game_server.DataServer.Serve.Flush.{flush, answers-Flushed}
use tiny_game_server.DataServer.Serve.Writes.{Flushed}

-- A new connection that was started, with nothing to do.
abbrev pub begins : Connection → Session
begins c = record { conn = c; pending = [] }

new_buffer_lem :
    (junk : ℕ → ℕ → ℕ)
    → (size (new_buffer junk initial_size) ≡ 0)
      × ((new_buffer junk initial_size).capacity ≡ initial_size)
unfolding new_buffer
new_buffer_lem junk = (refl, refl)

new_buffer_empty : (junk : ℕ → ℕ → ℕ) → (get_length (new_buffer junk initial_size) == 0) ≡ true
unfolding new_buffer get_length
new_buffer_empty junk = refl

-- A new connection is in order before it is started, and has sent nothing.
pub accepted-Serving :
    (junk : ℕ → ℕ → ℕ) (addr : List ℕ) (id need : ℕ)
    → need ≤ initial_size
    → Serving initial_size need (begins (new_connection junk addr id)) []
      × (stream (begins (new_connection junk addr id)) ≡ [])
unfolding new_connection new_watcher set_read_callback set_write_callback
accepted-Serving junk addr id need h =
    let (v, e) = new_buffer-IsValid junk initial_size (omega arith) in
    let (z, k) = new_buffer_lem junk in
    (
      record {
        ready = record {
          sound = record { valid = v; small = omega (arith, k); event = ([], refl) };
          tasks = tt;
          room = omega (arith, z, k);
        };
        room = omega (arith, z, k, h);
        recv = v;
        recv_size = k;
        is_open = refl;
        holds = e;
      },
      append-nil (contents (new_buffer junk initial_size)) ∙ e,
    )

-- It has room for as much as its send buffer holds.
new_connection-Serving :
    (junk : ℕ → ℕ → ℕ) (addr : List ℕ) (id need : ℕ)
    → need ≤ initial_size
    → (c : Connection) × (Connection.start none (new_connection junk addr id) ≡ some c)
      × Serving initial_size need (begins c) []
      × (stream (begins c) ≡ [])
      × IsWatched c
unfolding Connection.start new_connection enable_read Watcher.start new_watcher set_read_callback
    set_write_callback
new_connection-Serving junk addr id need h =
    let (v, e) = new_buffer-IsValid junk initial_size (omega arith) in
    let (z, k) = new_buffer_lem junk in
    (
      _,
      refl,
      record {
        ready = record {
          sound = record { valid = v; small = omega (arith, k); event = (_, refl) };
          tasks = tt;
          room = omega (arith, z, k);
        };
        room = omega (arith, z, k, h);
        recv = v;
        recv_size = k;
        is_open = refl;
        holds = e;
      },
      append-nil (contents (new_buffer junk initial_size)) ∙ e,
      λ o q. new_buffer_empty junk,
    )

pub demand_lem : (talk : Conversation) → demand talk ≡ 21 * length talk
demand_lem [] = refl
demand_lem (x ∷ talk) = omega (arith, demand_lem talk)

-- If `PickEventLoop` finds a loop, the data server, on a host of either byte order and without a
-- connection callback, accepts a client, and the functor that is given to this loop starts its
-- connection, which stands in the table under its id. The client may then send at most 390 logins
-- of at most 8192 bytes, one after another, each beginning in a read event of its own, in any
-- pieces and with any work of the loop between them, where the numbers and lengths of each fit
-- their types, its length, as the host reads it, counts what follows the tag, and the database
-- answers. Once the loop has then run the functors that are left, with any answers of the kernel to
-- their writes, and has had some number of write events, which come only while the watcher waits for
-- them, and in each of which the kernel takes any number of bytes but none, the kernel has taken the
-- answers to the logins in their order and nothing else, and no functor is left.
pub client-Flushed :
    (host : Host) (junk : ℕ → ℕ → ℕ) (select_user : List ℕ → List ℕ → Option ℕ) (stamp : ℕ → ℕ)
    (now : ℕ) (addr : List ℕ) (s : Server) (loop i : ℕ) (talk : Conversation)
    (kernel : ℕ → Option ℕ) (takes : ℕ → ℕ)
    → pick_event_loop s.manager s.counter ≡ some (loop, i)
    → AreLogins host junk select_user initial_size talk
    → length talk ≤ 390
    → let id : ℕ = (generate stamp now s.serial).0 in
      (u v : Server) × (c : Connection) × (k n : ℕ) × (handle_new_conn stamp junk now addr s
        ≡ some u)
      × (u.posted ≡ s.posted ++ ((loop, id) ∷ []))
      × (start_connection none id u ≡ some v)
      × (find id v.connections ≡ some (some c))
      × Flushed
          (answers host junk select_user initial_size talk)
          (take_inputs host junk select_user (begins c) (inputs talk ++ flush k kernel n takes))
unfolding handle_new_conn
client-Flushed host junk select_user stamp now addr s loop i talk kernel takes p a m =
    let id : ℕ = (generate stamp now s.serial).0 in
    let conn : Connection = new_connection junk addr id in
    let (c, r, v, o, w) =
      new_connection-Serving junk addr id (demand talk) (omega (arith, m, demand_lem talk)) in
    let (k, n, (t, q, g, e)) =
      answers-Flushed host junk select_user initial_size talk (begins c) kernel takes (omega arith)
        a v w in
    (
      record s {
        counter = i;
        serial = (generate stamp now s.serial).1;
        connections = assign id (some conn) s.connections;
        posted = s.posted ++ ((loop, id) ∷ []);
      },
      record s {
        counter = i;
        serial = (generate stamp now s.serial).1;
        connections = assign id (some c) (assign id (some conn) s.connections);
        posted = s.posted ++ ((loop, id) ∷ []);
      },
      c,
      k,
      n,
      rw p refl,
      refl,
      start_connection_found none id conn c _ _
          (index_found id (some conn) (assign id (some conn) s.connections)
            (find-assign_self id (some conn) s.connections))
          r,
      find-assign_self id (some c) (assign id (some conn) s.connections),
      (t, q, g ∙ ap (λ x. x ++ answers host junk select_user initial_size talk) o, e),
    )
