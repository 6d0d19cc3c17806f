-- ===== src/Server/Owners.antt =====
-- Who owns a connection while it closes.
use tiny_game_server.Base.{
  ◌⊎◌, inl, inr, dec_le, ℕ, suc, ◌+◌, ◌-◌, ◌≤◌, ◌<◌, ◌≡◌, refl, ◌∙◌, [], ◌∷◌, Option, none, some,
  false, ◌==◌, if◌then◌else◌, arith,
}
use tiny_game_server.Buffer.{read_fd}
use tiny_game_server.Buffer.Invariant.{IsValid}
use tiny_game_server.Buffer.Append.{written, IsModest}
use tiny_game_server.Buffer.Receive.{read_fd_direct}
use tiny_game_server.Watcher.{idle, event_del, disable_all}
use tiny_game_server.Watcher.Operations.{HasEvent}
use tiny_game_server.Connection.{
  Connection, Callback, disconnected, invoke, handle_close, handle_read, close, run_task, retire,
  closes,
}
use tiny_game_server.Server.{close_callback}

-- A close callback of the user that keeps no pointer to the connection and drops none.
abbrev pub KeepsOwners : Callback → Type 0
KeepsOwners none = Unit {0}
KeepsOwners (some f) = (c : Connection) → (d : Connection) × (f c ≡ some d) × (d.owners ≡ c.owners)

-- The callback of the server, on a connection with a watcher that is off.
close_callback_lem :
    (close_cb : Callback) (c : Connection)
    → KeepsOwners close_cb
    → (d : Connection) × (invoke (close_callback close_cb) c ≡ some d) × (d.owners ≡ c.owners - 1)
unfolding close_callback
close_callback_lem none c k = (record c { owners = c.owners - 1 }, refl, refl)
close_callback_lem (some f) c k = k (record c { owners = c.owners - 1 })

handle_close_owners :
    (close_cb : Callback) (c : Connection)
    → KeepsOwners close_cb
    → HasEvent c.watcher
    → (d : Connection) × (d.owners ≡ c.owners - 1)
      × (handle_close (close_callback close_cb) c
          ≡ (if d.owners == 0 then none else some (record d { status = disconnected })))
unfolding handle_close disable_all
handle_close_owners close_cb c k (cs, e) =
    let w = record (c.watcher) { ev_type = idle; event = some (event_del ∷ cs) } in
    let (d, r, o) = close_callback_lem close_cb (record c { watcher = w }) k in (d, o, rw (e, r))

-- The end of the stream, on a connection with an event, a valid receive buffer of less than 2 GiB and a
-- close callback of the user that keeps no pointer to the connection and drops none, does one of two
-- things. The table alone owned the connection: the callback destroys it, and `HandleClose` then
-- writes to it, a fault. Or there was another owner, and the connection is disconnected and has one
-- owner less.
pub handle_read_end :
    (read_cb close_cb : Callback) (c : Connection)
    → KeepsOwners close_cb
    → HasEvent c.watcher
    → IsValid c.recv_buffer
    → IsModest c.recv_buffer 0
    → ((c.owners ≤ 1) × (handle_read read_cb (close_callback close_cb) c (some []) ≡ none))
      ⊎ ((2 ≤ c.owners)
          × (d : Connection) × (handle_read read_cb (close_callback close_cb) c (some []) ≡ some d)
          × (d.status ≡ disconnected)
          × (d.owners + 1 ≡ c.owners))
unfolding handle_read
handle_read_end read_cb close_cb c k h v m =
    let b = written c.recv_buffer [] in
    let (d, p, e) = handle_close_owners close_cb (record c { recv_buffer = b }) k h in
    let r : read_fd c.recv_buffer (some []) ≡ some b =
      read_fd_direct c.recv_buffer [] v (omega arith) (omega arith) in
    elim (dec_le c.owners 1) [
      | yes o ↦ inl (o, rw r (e ∙ gone d (omega arith)))
      | no o ↦ inr (
        omega arith,
        record d { status = disconnected },
        rw r (e ∙ kept d (omega arith)),
        refl,
        omega arith,
      )
    ]
  where
    gone :
        (d : Connection)
        → d.owners ≡ 0
        → (if d.owners == 0 then none else some (record d { status = disconnected })) ≡ none
    gone d z = ground arith

    kept :
        (d : Connection)
        → 0 < d.owners
        → (if d.owners == 0 then none else some (record d { status = disconnected }))
          ≡ some (record d { status = disconnected })
    kept d z = ground arith

-- The functor of `Close`, on a connection with an event that the table alone owned and with a callback
-- that neither keeps nor drops a pointer, disconnects it without a fault and is then its last owner,
-- until it is destroyed.
pub close-disconnects :
    (close_cb : Callback) (c : Connection) (answer : Option ℕ)
    → KeepsOwners close_cb
    → HasEvent c.watcher
    → c.owners ≡ 1
    → (d : Connection) × (run_task (close_callback close_cb) (close c).0 closes answer ≡ some d)
      × (d.status ≡ disconnected)
      × (d.owners ≡ 1)
      × ((retire closes d).owners ≡ 0)
unfolding run_task close retire
close-disconnects close_cb c answer k h o =
    let (d, p, e) = handle_close_owners close_cb (record c { owners = suc c.owners }) k h in
    let live : (d.owners == 0) ≡ false = ground arith in
    (record d { status = disconnected }, rw (e, live), refl, omega arith, omega arith)
