-- ===== src/Client/Again.antt =====
-- `Connect` called again before the loop has run: which socket each connection is given.
use tiny_game_server.Base.{
  ℕ, zero, suc, ◌≡◌, refl, sym, ap, ◌∙◌, List, [], ◌∷◌, ◌++◌, Option, none, some, ◌>>=◌, length,
  append_assoc, append-nil, true,
}
use tiny_game_server.Watcher.{
  is_reading, start, enable_read, new_watcher, set_read_callback, set_write_callback,
}
use tiny_game_server.Connection
use tiny_game_server.Connection.{Connection, Callback, new_connection}
use tiny_game_server.Table.{find, assign, erase}
use tiny_game_server.Client.{
  Client, Job, announces, starts, new_client, connect, handle_new_conn, run_job, run_all,
  retire_all, serve, process, pointee, object, destroy, give_up,
}

-- `Connect`, for each answer of `socket`.
unfoldable pub connect_all : List (Option ℕ) → Client → Client
connect_all [] c = c
connect_all (fd ∷ fds) c = connect_all fds (connect fd c)

abbrev pub last : Option ℕ → List (Option ℕ) → Option ℕ
last fd [] = fd
last fd (next ∷ fds) = last next fds

abbrev pub all_of : {A : Type 0} → A → ℕ → List A
all_of a zero = []
all_of a (suc k) = a ∷ all_of a k

all_of-append : {A : Type 0} (a : A) (k : ℕ) → all_of a k ++ (a ∷ []) ≡ a ∷ all_of a k
all_of-append a zero = refl
all_of-append a (suc k) = ap (◌∷◌ a) (all_of-append a k)

connect_all_lem :
    (fd : Option ℕ) (fds : List (Option ℕ)) (c : Client)
    → connect_all (fd ∷ fds) c
      ≡ record c { fd = last fd fds; pending = c.pending ++ all_of announces (suc (length fds)) }
unfolding connect_all connect
connect_all_lem fd [] c = refl
connect_all_lem fd (next ∷ fds) c =
    connect_all_lem next fds (connect fd c)
    ∙ ap (λ l. record c { fd = last next fds; pending = l })
        (append_assoc c.pending (announces ∷ []) (all_of announces (suc (length fds))))

retire_all-announces : (k : ℕ) (c : Client) → retire_all (all_of announces k) c ≡ c
unfolding retire_all
retire_all-announces zero c = refl
retire_all-announces (suc k) c = retire_all-announces k c

module _ (junk : ℕ → ℕ → ℕ) (conn_cb : Callback) where
  -- The connections that were announced, and the functors that start them.
  record Announced (c : Client) (given : List (Option ℕ)) (more : List Job) (d : Client)
      : Type 0 where
    sockets : d.sockets ≡ c.sockets ++ given
    fd : d.fd ≡ none
    waits : d.pending ≡ c.pending ++ more

  announce :
      (k : ℕ) (answers : ℕ → Option ℕ) (c : Client)
      → c.fd ≡ none
      → (d : Client) × (run_all junk conn_cb answers (all_of announces k) c ≡ some d)
        × Announced c (all_of none k) (all_of starts k) d
  unfolding run_all run_job handle_new_conn
  announce zero answers c f = (
    c,
    refl,
    record { sockets = sym (append-nil c.sockets); fd = f; waits = sym (append-nil c.pending) },
  )
  announce (suc k) answers c f =
      let e : Client = record (handle_new_conn junk c.fd c) { fd = none } in
      let (d, r, a) = announce k (λ i. answers (suc i)) e refl in
      (
        d,
        r,
        record {
          sockets =
              a.sockets
              ∙ append_assoc c.sockets (c.fd ∷ []) (all_of none k)
              ∙ ap (λ (o : Option ℕ). c.sockets ++ (o ∷ all_of none k)) f;
          fd = a.fd;
          waits = a.waits ∙ append_assoc c.pending (starts ∷ []) (all_of starts k);
        },
      )

  -- A new client calls `Connect` once or more before the loop runs, where `socket` may fail in any
  -- of the calls, and the loop then runs the functors of the connector, one for each call. The first
  -- connection that is created is given what `socket` returned in the last call, and every further
  -- one is given none (-1), so no socket of an earlier call alone is given to a connection; the
  -- connector holds no socket any more, and its destructor closes none.
  pub process-connect_all :
      (answers : ℕ → Option ℕ) (addr : List ℕ) (fd : Option ℕ) (fds : List (Option ℕ))
      → (c : Client) × (process junk conn_cb answers (connect_all (fd ∷ fds) (new_client addr))
          ≡ some c)
        × (c.sockets ≡ last fd fds ∷ all_of none (length fds))
        × (c.pending ≡ all_of starts (suc (length fds)))
        × ((destroy c).0 ≡ none)
  unfolding process serve run_all run_job handle_new_conn new_client destroy
  process-connect_all answers addr fd fds =
      let k : ℕ = length fds in
      let e : Client =
        record (handle_new_conn junk (last fd fds)
          (record (new_client addr) { fd = last fd fds })) { fd = none } in
      let (d, r, a) = announce k (λ i. answers (suc i)) e refl in
      (
        d,
        ap (process junk conn_cb answers) (connect_all_lem fd fds (new_client addr))
            ∙ ap (λ o. o >>= (λ x. some (retire_all (all_of announces (suc k)) x))) r
            ∙ ap some (retire_all-announces (suc k) d),
        a.sockets,
        a.waits,
        a.fd,
      )

-- Of two calls of `Connect` before the loop runs, with any sockets and without a connection callback, this is
-- left once the loop has run the functors that they cause, two and then two: the connection with the
-- socket of the second call is destroyed, and the client holds one that has no socket and waits for
-- bytes.
pub connect-connect :
    (junk : ℕ → ℕ → ℕ) (answers answers' : ℕ → Option ℕ) (addr : List ℕ) (first second : Option ℕ)
    → (c : Client) × (conn : Connection) × ((process junk none answers
            (connect second (connect first (new_client addr)))
          >>= process junk none answers')
        ≡ some c)
      × (c.sockets ≡ second ∷ (none ∷ []))
      × (c.pending ≡ [])
      × (object 0 c ≡ none)
      × (pointee c ≡ some (1, conn))
      × (is_reading conn.watcher ≡ true)
unfolding process serve run_all retire_all run_job handle_new_conn new_client connect object pointee
    give_up find assign erase Connection.start enable_read start new_watcher set_read_callback
    set_write_callback new_connection
connect-connect junk answers answers' addr first second = (_, _, refl, refl, refl, refl, refl, refl)
