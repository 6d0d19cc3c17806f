-- ===== src/Connection/Reopened.antt =====
-- A functor of `Send` that the loop runs after the connection closed.
use tiny_game_server.Base.{
  ℕ, suc, ◌+◌, ◌-◌, ◌≤◌, ◌<◌, ◌≡◌, refl, sym, ap, ◌∙◌, subst, ◌++◌, Option, none, some, Bool, true,
  false, not, ◌&&◌, ◌==◌, ltb, if◌then◌else◌, arith, Allows, bind-Allows, bind-Allows_of, if-Allows,
  Allows-some,
}
use tiny_game_server.Buffer.{Buffer, get_length, get_data, append_buffer}
use tiny_game_server.Buffer.Invariant.{IsValid, size, contents}
use tiny_game_server.Watcher.{Watcher, Interest, idle, is_writing, enable_write}
use tiny_game_server.Watcher.Registration.{
  EventLibrary, replay, Synced, enable_write-Watches, disable_all-Watches,
}
use tiny_game_server.Connection.{
  Connection, Handler, disconnected, sends, closes, attempt, send_in_loop, handle_close, close,
  run_task,
}
use tiny_game_server.Connection.Output.{IsSound, output}
use tiny_game_server.Connection.Output.Send.{send_in_loop-Outputs}
use tiny_game_server.Server.{close_callback}
use tiny_game_server.Connection.Keeps.{Keeps, send_in_loop-Keeps}

abbrev SameWatcher : Connection → Connection × Buffer × ℕ → Type 0
SameWatcher c r = r.0.watcher ≡ c.watcher

attempt-SameWatcher :
    (c : Connection) (buf : Buffer) (answer : Option ℕ)
    → Allows (SameWatcher c) (attempt c buf answer)
unfolding attempt
attempt-SameWatcher c buf none = refl
attempt-SameWatcher c buf (some n) =
    bind-Allows (SameWatcher c) (get_data buf (get_length buf)) _ (λ offered. refl)

abbrev pub writing : Interest → Interest
writing i = record i { write = true }

module _ (lib : EventLibrary) where
  -- A watcher in step with libevent, for these events.
  abbrev pub Waits : Interest → Watcher Handler → Type 0
  Waits i w = Synced lib w × (w.added ≡ true) × (w.ev_type ≡ i)

  enables-Waits :
      (w : Watcher Handler) (i : Interest)
      → Waits i w
      → Allows (Waits (writing i)) (if not (is_writing w) then enable_write w else some w)
  enables-Waits w i (s, a, e) = by_case (is_writing w) refl
    where
      by_case :
          (b : Bool)
          → is_writing w ≡ b
          → Allows (Waits (writing i)) (if not b then enable_write w else some w)
      by_case true q =
          (s, a, ap (λ t. record { read = w.ev_type.read; write = t }) q ∙ ap writing e)
      by_case false q =
          let (v, r, t, b, k) = enable_write-Watches lib w s a in rw r (t, b, k ∙ ap writing e)

  send_in_loop-Waits :
      (c : Connection) (buf : Buffer) (answer : Option ℕ) (i : Interest)
      → Waits i c.watcher
      → Allows (λ d. Waits (writing i) d.watcher) (send_in_loop c buf answer)
  unfolding send_in_loop
  send_in_loop-Waits c buf answer i h =
      let P : Connection → Type 0 = λ d. Waits (writing i) d.watcher in
      bind-Allows_of (SameWatcher c) P _ _
        (if-Allows (SameWatcher c) (not (is_writing c.watcher) && (get_length c.send_buffer == 0)) _
          _ (attempt-SameWatcher c buf answer) refl)
        (λ (d, rest, remaining) k.
          bind-Allows P
            (if ltb 0 remaining then append_buffer d.send_buffer rest else some d.send_buffer) _
            (λ kept.
              bind-Allows_of (Waits (writing i)) P
                (if not (is_writing d.watcher) then enable_write d.watcher else some d.watcher) _
                (enables-Waits d.watcher i (subst (Waits i) (sym k) h)) (λ w g. g)))

  -- A connection of a server without a close callback, in working order (a valid send buffer of
  -- less than 1 GiB, a watcher that was added and is in step with libevent), which the table owns,
  -- is closed while the functor of a `Send`, with a valid buffer that fits
  -- behind what waits to be sent, stands behind that of `Close`. The first functor disconnects it;
  -- the second writes or buffers the bytes all the same, without a fault, and makes libevent wait
  -- for the closed connection again, for when it can be written to.
  pub sends-closes :
      (c : Connection) (buf : Buffer) (answer answer' : Option ℕ)
      → IsSound c
      → IsValid buf
      → size c.send_buffer + size buf ≤ c.send_buffer.capacity
      → Synced lib c.watcher
      → c.watcher.added ≡ true
      → 0 < c.owners
      → (d e : Connection) × (run_task (close_callback none) (close c).0 closes answer ≡ some d)
        × (d.status ≡ disconnected)
        × (0 < d.owners)
        × (run_task (close_callback none) d (sends buf) answer' ≡ some e)
        × (e.status ≡ disconnected)
        × (output e ≡ output c ++ contents buf)
        × (s : Synced lib e.watcher) × (lib.watched (replay lib s.calls) ≡ writing idle)
  unfolding run_task close handle_close close_callback
  sends-closes c buf answer answer' s v h w a o =
      let (x, r, t, b, k) = disable_all-Watches lib c.watcher w a in
      let d : Connection = record c {
        watcher = x;
        owners = suc c.owners - 1;
        status = disconnected;
      } in
      let sound : IsSound d = record {
        valid = s.valid;
        small = s.small;
        event = (t.calls, t.event_is);
      } in
      let (e, q, _, out, _, _) = send_in_loop-Outputs d buf answer' sound v h in
      let (y, z, i) =
        Allows-some (λ u. Waits (writing idle) u.watcher) _ e
          (send_in_loop-Waits d buf answer' idle (t, b, k)) q in
      let live : (suc c.owners - 1 == 0) ≡ false = ground arith in
      (
        d,
        e,
        rw (r, live) refl,
        refl,
        omega arith,
        q,
        (Allows-some (Keeps d) _ e (send_in_loop-Keeps d buf answer') q).1,
        out,
        y,
        (y.when_added z).1 ∙ i,
      )
