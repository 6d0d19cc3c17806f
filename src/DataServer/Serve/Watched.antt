-- ===== src/DataServer/Serve/Watched.antt =====
-- While a connection of the data server has bytes to send, its watcher waits for the socket.
use tiny_game_server.Base.{
  ℕ, zero, suc, ◌≡◌, refl, sym, ap, ◌∙◌, subst, List, [], ◌∷◌, Option, none, some, Bool, true,
  false, not, ◌&&◌, ◌==◌, ltb, if◌then◌else◌, Bool-cases, inl, inr, Allows, bind-Allows,
  bind-Allows_of, if-Allows, Allows-weaken, Option-cases,
}
use tiny_game_server.Bytes.{Host}
use tiny_game_server.Buffer.{Buffer, get_length, get_data, forward, append_buffer, read_fd}
use tiny_game_server.Watcher
use tiny_game_server.Watcher.{
  Watcher, Interest, Call, event_del, event_set, event_base_set, event_add, is_writing, call,
  enable_read, enable_write, disable_write, disable_all,
}
use tiny_game_server.Connection
use tiny_game_server.Connection.{
  Connection, Callback, Handler, Task, connected, invoke, sends, closes, attempt, send_in_loop,
  handle_close, handle_write, write_event, run_task,
}
use tiny_game_server.Connection.Keeps.{write_event_on, write_event_off}
use tiny_game_server.Connection.Session.{Session, step, turns}
use tiny_game_server.Server.{close_callback}
use tiny_game_server.DataServer.{message}
use tiny_game_server.DataServer.Serve.{
  Input, starts, arrives, turns_loop, opens_socket, on_message, take_input, take_inputs,
}

-- An open connection whose watcher does not wait for the socket has nothing to send.
abbrev pub IsWatched : Connection → Type 0
IsWatched c =
    c.status ≡ connected → is_writing c.watcher ≡ false → (get_length c.send_buffer == 0) ≡ true

not_both : {b : Bool} {A : Type 0} → b ≡ true → b ≡ false → A
not_both p q = absurd (cc (p, q))

-- The calls of libevent leave the events as they are.
abbrev Asks : Interest → Watcher Handler → Type 0
Asks i w = w.ev_type ≡ i

call-Asks : (i : Interest) (e : Call) (w : Watcher Handler) → Asks i w → Allows (Asks i) (call e w)
call-Asks i e w h = elim (Option-cases w.event) [ inl r ↦ rw r tt | inr (cs, r) ↦ rw r h ]

start-Asks : (w : Watcher Handler) → Allows (Asks w.ev_type) (Watcher.start w)
unfolding Watcher.start
start-Asks w =
    let P : Watcher Handler → Type 0 = Asks w.ev_type in
    bind-Allows_of P P (if w.added then call event_del w else some w) _
      (if-Allows P w.added _ _ (call-Asks w.ev_type event_del w refl) refl)
      (λ removed h.
        bind-Allows_of P P (call (event_set w.ev_type) removed) _
          (call-Asks w.ev_type (event_set w.ev_type) removed h)
          (λ assigned g.
            bind-Allows_of P P (call event_base_set assigned) _
              (call-Asks w.ev_type event_base_set assigned g)
              (λ based k.
                bind-Allows_of P P (call event_add based) _ (call-Asks w.ev_type event_add based k)
                  (λ watching l. l))))

-- `SendInLoop` leaves the write event on.
abbrev Writes : Connection → Type 0
Writes c = is_writing c.watcher ≡ true

enables-Writes :
    (w : Watcher Handler)
    → Allows (λ v. is_writing v ≡ true) (if not (is_writing w) then enable_write w else some w)
unfolding enable_write
enables-Writes w = elim (Bool-cases (is_writing w)) [
  | inl e ↦
      subst (Allows (λ v. is_writing v ≡ true))
        (sym (ap (λ b. if not b then enable_write w else some w) e)) e
  | inr e ↦
      let on : Watcher Handler = record w { ev_type = record (w.ev_type) { write = true } } in
      rw e (
        Allows-weaken (Asks on.ev_type) (λ v. is_writing v ≡ true) (Watcher.start on)
          (start-Asks on) (λ v h. ap Interest.write h))
]

send_in_loop-Writes :
    (c : Connection) (buf : Buffer) (answer : Option ℕ) → Allows Writes (send_in_loop c buf answer)
unfolding send_in_loop
send_in_loop-Writes c buf answer =
    bind-Allows Writes
      (if not (is_writing c.watcher) && (get_length c.send_buffer == 0)
        then attempt c buf answer
        else some (c, buf, get_length buf))
      _
      (λ (d, rest, remaining).
        bind-Allows Writes
          (if ltb 0 remaining then append_buffer d.send_buffer rest else some d.send_buffer) _
          (λ kept.
            bind-Allows_of (λ v. is_writing v ≡ true) Writes
              (if not (is_writing d.watcher) then enable_write d.watcher else some d.watcher) _
              (enables-Writes d.watcher) (λ w h. h)))

-- `HandleWrite` turns it off only once nothing is left to send.
handle_write-IsWatched :
    (c : Connection) (answer : Option ℕ) → Writes c → Allows IsWatched (handle_write c answer)
unfolding handle_write
handle_write-IsWatched c none h = λ o e. not_both h e
handle_write-IsWatched c (some zero) h = λ o e. not_both h e
handle_write-IsWatched c (some (suc n)) h =
    bind-Allows IsWatched (get_data c.send_buffer (get_length c.send_buffer)) _ (λ offered.
      elim (Bool-cases (get_length (forward c.send_buffer (suc n)) == 0)) [
        | inl e ↦ rw e (bind-Allows IsWatched (disable_write c.watcher) _ (λ w o q. e))
        | inr e ↦ rw e (λ o q. not_both h q)
      ])

pub write_event-IsWatched :
    (c : Connection) (answer : Option ℕ) → IsWatched c → Allows IsWatched (write_event c answer)
write_event-IsWatched c answer h = elim (Bool-cases (is_writing c.watcher)) [
  | inl e ↦ rw (write_event_on c answer e) (handle_write-IsWatched c answer e)
  | inr e ↦ rw (write_event_off c answer e) h
]

start-IsWatched : (c : Connection) → IsWatched c → Allows IsWatched (Connection.start none c)
unfolding Connection.start enable_read
start-IsWatched c h = elim (Bool-cases c.watcher.ev_type.read) [
  | inl e ↦ rw e h
  | inr e ↦
      let on : Watcher Handler = record (c.watcher) {
        ev_type = record (c.watcher.ev_type) { read = true };
      } in
      rw e (
        bind-Allows_of (Asks on.ev_type) IsWatched (Watcher.start on) _ (start-Asks on)
          (λ w k o q. h o (sym (ap Interest.write k) ∙ q)))
]

handle_close-IsWatched :
    (close_cb : Callback) (c : Connection) → Allows IsWatched (handle_close close_cb c)
unfolding handle_close
handle_close-IsWatched close_cb c = bind-Allows IsWatched (disable_all c.watcher) _ (λ w.
    bind-Allows IsWatched (invoke close_cb (record c { watcher = w })) _
      (λ d. if-Allows IsWatched (d.owners == 0) none _ tt (λ o. absurd (cc o))))

abbrev pub HasWatch : Session → Type 0
HasWatch s = IsWatched s.conn

pub turns-HasWatch :
    (close_cb : Callback) (s : Session) (answer : Option ℕ)
    → HasWatch s
    → Allows HasWatch (step close_cb s (turns answer))
unfolding step run_task
turns-HasWatch close_cb s answer h = by_tasks s.pending refl
  where
    by_tasks : (ts : List Task) → s.pending ≡ ts → Allows HasWatch (step close_cb s (turns answer))
    by_tasks [] e = rw e h
    by_tasks (sends buf ∷ ts) e = rw e (
        bind-Allows_of Writes HasWatch (send_in_loop s.conn buf answer) _
          (send_in_loop-Writes s.conn buf answer) (λ d k o q. not_both k q))
    by_tasks (closes ∷ ts) e = rw e (
        bind-Allows_of IsWatched HasWatch (handle_close close_cb s.conn) _
          (handle_close-IsWatched close_cb s.conn) (λ d k. k))

module _ (host : Host) (junk : ℕ → ℕ → ℕ) (select_user : List ℕ → List ℕ → Option ℕ) where
  take_input-HasWatch :
      (s : Session) (i : Input)
      → HasWatch s
      → Allows HasWatch (take_input host junk select_user s i)
  unfolding take_input on_message
  take_input-HasWatch s starts h =
      bind-Allows_of IsWatched HasWatch (Connection.start none s.conn) _ (start-IsWatched s.conn h)
        (λ c k. k)
  take_input-HasWatch s (arrives x xs) h =
      bind-Allows HasWatch (read_fd s.conn.recv_buffer (some (x ∷ xs))) _ (λ b.
        bind-Allows HasWatch (message host junk select_user b) _ (λ (status, rest, replies). h))
  take_input-HasWatch s (turns_loop answer) h = turns-HasWatch (close_callback none) s answer h
  take_input-HasWatch s (opens_socket answer) h =
      bind-Allows_of IsWatched HasWatch (write_event s.conn answer) _
        (write_event-IsWatched s.conn answer h) (λ c k. k)

  pub take_inputs-HasWatch :
      (s : Session) (is : List Input)
      → HasWatch s
      → Allows HasWatch (take_inputs host junk select_user s is)
  unfolding take_inputs
  take_inputs-HasWatch s [] h = h
  take_inputs-HasWatch s (i ∷ is) h =
      bind-Allows_of HasWatch HasWatch (take_input host junk select_user s i) _
        (take_input-HasWatch s i h) (λ t k. take_inputs-HasWatch t is k)
