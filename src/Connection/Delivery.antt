-- ===== src/Connection/Delivery.antt =====
-- What comes out of a connection under a schedule.
use tiny_game_server.Base.{
  ℕ, ◌+◌, ◌≤◌, ◌≡◌, refl, sym, ap, ◌∙◌, List, [], ◌∷◌, ◌++◌, Option, Bool, true, false,
  if◌then◌else◌, arith, length, length-append, append-nil, append_assoc,
}
use tiny_game_server.Buffer.{Buffer}
use tiny_game_server.Buffer.Invariant.{size, contents, length-contents}
use tiny_game_server.Connection.{
  Connection, Callback, Task, sends, closes, is_connected, send, run_task,
}
use tiny_game_server.Connection.Output.{IsSound, output, handle_write-Outputs}
use tiny_game_server.Connection.Output.Send.{send_in_loop-Outputs}
use tiny_game_server.Connection.Session.{
  Session, Event, gives, turns, writable, step, run, queued, backlog, stream, AllSend, IsReady,
  given, Admits, Admitted, given_all, Delivers,
}

pub queued-append : (ts us : List Task) → queued (ts ++ us) ≡ queued ts ++ queued us
queued-append [] us = refl
queued-append (sends buf ∷ ts) us =
    ap (◌++◌ (contents buf)) (queued-append ts us)
    ∙ sym (append_assoc (contents buf) (queued ts) (queued us))
queued-append (closes ∷ ts) us = queued-append ts us

pub backlog-append : (ts us : List Task) → backlog (ts ++ us) ≡ backlog ts + backlog us
backlog-append [] us = omega arith
backlog-append (sends buf ∷ ts) us = omega (arith, backlog-append ts us)
backlog-append (closes ∷ ts) us = backlog-append ts us

pub AllSend-append : (ts us : List Task) → AllSend ts → AllSend us → AllSend (ts ++ us)
AllSend-append [] us h k = k
AllSend-append (sends buf ∷ ts) us h k = (h.0, AllSend-append ts us h.1 k)
AllSend-append (closes ∷ ts) us h k = absurd h

pub size_after :
    (c d : Connection) (out extra : List ℕ)
    → IsSound c
    → IsSound d
    → out ≡ output c ++ extra
    → output d ≡ out
    → length c.sent ≤ length d.sent
    → size d.send_buffer ≤ size c.send_buffer + length extra
size_after c d out extra s t e f g = omega (
  arith,
  length-contents c.send_buffer s.valid,
  length-contents d.send_buffer t.valid,
  ap length (f ∙ e),
  length-append (output c) extra,
  length-append c.sent (contents c.send_buffer),
  length-append d.sent (contents d.send_buffer),
)

module _ (close_cb : Callback) where
  turns-Delivers :
      (c : Connection) (ts : List Task) (answer : Option ℕ)
      → IsReady (record { conn = c; pending = ts })
      → Delivers
          (output c ++ queued ts)
          (step close_cb (record { conn = c; pending = ts }) (turns answer))
  unfolding step run_task
  turns-Delivers c [] answer r = (_, refl, r, refl)
  turns-Delivers c (closes ∷ ts) answer r = absurd r.tasks
  turns-Delivers c (sends buf ∷ ts) answer r =
      let (d, e, s, o, k, g) =
        send_in_loop-Outputs c buf answer r.sound r.tasks.0 (omega (arith, r.room)) in
      (
        record { conn = d; pending = ts },
        rw e,
        record {
          sound = s;
          tasks = r.tasks.1;
          room = omega (
            arith,
            r.room,
            k,
            size_after c d (output c ++ contents buf) (contents buf) r.sound s refl o g,
            length-contents buf r.tasks.0,
          );
        },
        ap (λ t. t ++ queued ts) o ∙ append_assoc (output c) (contents buf) (queued ts),
      )

  gives_room :
      (s : Session) (buf : Buffer)
      → IsReady s
      → Admits s (gives buf)
      → (b : Bool) → is_connected s.conn.status ≡ b
      → Delivers (stream s ++ (if b then contents buf else [])) (step close_cb s (gives buf))
  unfolding step send
  gives_room s buf r (v, h) true e = (
    record s { pending = s.pending ++ (sends buf ∷ []) },
    rw e,
    record {
      sound = r.sound;
      tasks = AllSend-append s.pending (sends buf ∷ []) r.tasks (v, tt);
      room = omega (arith, h, backlog-append s.pending (sends buf ∷ []));
    },
    ap (◌++◌ (output s.conn)) (queued-append s.pending (sends buf ∷ []))
        ∙ sym (append_assoc (output s.conn) (queued s.pending) (contents buf ++ []))
        ∙ ap (◌++◌ (stream s)) (append-nil (contents buf)),
  )
  gives_room s buf r a false e = (
    record s { pending = s.pending ++ [] },
    rw e,
    rw (append-nil s.pending) r,
    ap (λ t. output s.conn ++ queued t) (append-nil s.pending) ∙ sym (append-nil (stream s)),
  )

  writable-Delivers :
      (s : Session) (answer : Option ℕ)
      → IsReady s
      → Delivers (stream s) (step close_cb s (writable answer))
  unfolding step
  writable-Delivers s answer r =
      let (d, e, t, o, k, g) = handle_write-Outputs s.conn answer r.sound in
      (
        record s { conn = d },
        rw e,
        record {
          sound = t;
          tasks = r.tasks;
          room = omega (
            arith,
            r.room,
            k,
            size_after s.conn d (output s.conn) [] r.sound t (sym (append-nil (output s.conn))) o g,
          );
        },
        ap (λ x. x ++ queued s.pending) o,
      )

  -- No event that is admitted faults, and it adds to the end of the stream what was given, and that
  -- alone.
  pub step-Delivers :
      (s : Session) (e : Event)
      → IsReady s
      → Admits s e
      → Delivers (stream s ++ given s e) (step close_cb s e)
  step-Delivers s (gives buf) r a = gives_room s buf r a (is_connected s.conn.status) refl
  step-Delivers s (turns answer) r a =
      let (t, e, k, o) = turns-Delivers s.conn s.pending answer r in
      (t, e, k, o ∙ sym (append-nil (stream s)))
  step-Delivers s (writable answer) r a =
      let (t, e, k, o) = writable-Delivers s answer r in (t, e, k, o ∙ sym (append-nil (stream s)))

  -- From a ready session (a watcher with an event, a valid send buffer of less than 1 GiB, functors
  -- of `Send` alone with valid buffers, and room in the send buffer for all their bytes), a
  -- schedule of calls of `Send`, functors run and write events, in which each buffer that is given
  -- is valid and fits with all that waits, does not fault, whatever the kernel answers. The bytes
  -- taken by the kernel, those in the send buffer and those in functors are, in this order, what
  -- they were, followed by what was given while the status was connected, and the session is ready
  -- again.
  pub run-Delivers :
      (es : List Event) (s : Session)
      → IsReady s
      → Admitted close_cb s es
      → Delivers (stream s ++ given_all close_cb s es) (run close_cb s es)
  unfolding run given_all
  run-Delivers [] s r a = (s, refl, r, sym (append-nil (stream s)))
  run-Delivers (e ∷ es) s r (a, next) =
      let (t, p, k, o) = step-Delivers s e r a in
      let (u, q, l, x) = run-Delivers es t k (next t p) in
      (
        u,
        rw p q,
        l,
        x ∙ rw p (ap (λ y. y ++ given_all close_cb t es) o ∙ append_assoc (stream s) (given s e) _),
      )
