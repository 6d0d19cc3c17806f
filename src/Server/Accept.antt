-- ===== src/Server/Accept.antt =====
-- A new connection, from the listener to its start in a loop.
use tiny_game_server.Base.{
  ℕ, ◌≡◌, refl, ap, ◌∙◌, List, [], ◌∷◌, ◌++◌, Option, none, some, true, ◌==◌, if◌then◌else◌, ◌>>=◌,
  ==_iff, Bool-cases, inl, inr,
}
use tiny_game_server.Watcher.{
  Watcher, is_reading, enable_read, new_watcher, set_read_callback, set_write_callback,
}
use tiny_game_server.Watcher
use tiny_game_server.Connection
use tiny_game_server.Connection.{Connection, Callback, ConnStatus, connected, new_connection}
use tiny_game_server.Serial.{generate}
use tiny_game_server.Table.{Table, find, assign, index, find-assign}
use tiny_game_server.Workers.{pick_event_loop}
use tiny_game_server.Server.{Server, handle_new_conn, start_connection}

-- The connection as it is after its start, and what `Start` makes of a new one.
new_connection_starts :
    (junk : ℕ → ℕ → ℕ) (addr : List ℕ) (id : ℕ)
    → (c : Connection) × (Connection.start none (new_connection junk addr id) ≡ some c)
      × (is_reading c.watcher ≡ true)
      × (c.serial_id ≡ id)
      × (c.status ≡ connected)
unfolding Connection.start new_connection enable_read Watcher.start new_watcher set_read_callback
    set_write_callback
new_connection_starts junk addr id = (_, refl, refl, refl, refl)

pub find-assign_self :
    {V : Type 0} (k : ℕ) (v : Option V) (t : Table V) → find k (assign k v t) ≡ some v
find-assign_self k v t =
    find-assign k k v t ∙ ap (λ b. if b then some v else find k t) ((==_iff k k).1 refl)

pub index_found :
    {V : Type 0} (k : ℕ) (v : Option V) (t : Table V) → find k t ≡ some v → index k t ≡ (v, t)
unfolding index
index_found k v t e = rw (e, index) refl

pub start_connection_found :
    (conn_cb : Callback) (id : ℕ) (c d : Connection) (t : Table Connection) (s : Server)
    → index id s.connections ≡ (some c, t)
    → Connection.start conn_cb c ≡ some d
    → start_connection conn_cb id s ≡ some (record s { connections = assign id (some d) t })
unfolding start_connection
start_connection_found conn_cb id c d t s e r =
    ap
      (λ p. elim p.0 [
        | none ↦ none
        | some x ↦
            Connection.start conn_cb x
            >>= (λ y. some (record s { connections = assign id (some y) p.1 }))
      ])
      e
    ∙ ap (λ o. o >>= (λ y. some (record s { connections = assign id (some y) t }))) r

find-assign_twice :
    {V : Type 0} (k j : ℕ) (v w : Option V) (t : Table V)
    → find j (assign k v (assign k w t)) ≡ (if k == j then some v else find j t)
find-assign_twice k j v w t = elim (Bool-cases (k == j)) [
  | inl e ↦ find-assign k j v (assign k w t) ∙ rw e refl
  | inr e ↦
      find-assign k j v (assign k w t)
      ∙ rw e (find-assign k j w t ∙ ap (λ b. if b then some w else find j t) e)
]

-- Where `PickEventLoop` finds a loop, `HandleNewConn` succeeds and gives that loop one functor more, and
-- that functor, without a connection callback, starts the connection: it then stands in the table
-- under the id that was generated, connected and waiting for bytes to read, and what stands under
-- any other id is what stood there before.
pub start_connection-handle_new_conn :
    (stamp : ℕ → ℕ) (junk : ℕ → ℕ → ℕ) (now : ℕ) (addr : List ℕ) (s : Server) (loop i k : ℕ)
    → pick_event_loop s.manager s.counter ≡ some (loop, i)
    → let id : ℕ = (generate stamp now s.serial).0 in
      (u v : Server) × (c : Connection) × (handle_new_conn stamp junk now addr s ≡ some u)
      × (u.posted ≡ s.posted ++ ((loop, id) ∷ []))
      × (start_connection none id u ≡ some v)
      × (find k v.connections ≡ (if id == k then some (some c) else find k s.connections))
      × (is_reading c.watcher ≡ true)
      × (c.serial_id ≡ id)
      × (c.status ≡ connected)
unfolding handle_new_conn
start_connection-handle_new_conn stamp junk now addr s loop i k e =
    let id : ℕ = (generate stamp now s.serial).0 in
    let conn : Connection = new_connection junk addr id in
    let (c, r, d, n, q) = new_connection_starts junk addr id in
    (
      record s {
        counter = i;
        serial = (generate stamp now s.serial).1;
        connections = assign id (some conn) s.connections;
        posted = s.posted ++ ((loop, id) ∷ []);
      },
      record s {
        counter = i;
        serial = (generate stamp now s.serial).1;
        connections = assign id (some c) (assign id (some conn) s.connections);
        posted = s.posted ++ ((loop, id) ∷ []);
      },
      c,
      rw e refl,
      refl,
      start_connection_found none id conn c _ _
          (index_found id (some conn) (assign id (some conn) s.connections)
            (find-assign_self id (some conn) s.connections))
          r,
      find-assign_twice id k (some c) (some conn) s.connections,
      d,
      n,
      q,
    )
