-- ===== src/DataServer/Serve/Flush.antt =====
-- The replies reach the kernel once the loop has run its functors and has had enough write events.
use tiny_game_server.Base.{
  ℕ, zero, suc, ◌*◌, ◌^◌, ◌<◌, ◌≡◌, refl, ◌∙◌, List, [], ◌∷◌, ◌++◌, Option, none, arith, Allows,
  bind-Allows, Allows-some, length,
}
use tiny_game_server.Bytes.{Host}
use tiny_game_server.Buffer.Invariant.{size}
use tiny_game_server.Connection.{Callback, Task, run_task}
use tiny_game_server.Connection.Session.{Session, step, turns, stream}
use tiny_game_server.Server.{close_callback}
use tiny_game_server.DataServer.Serve.{Input, turns_loop, take_input, take_inputs}
use tiny_game_server.DataServer.Serve.State.{Serving, loop_turn-Serves}
use tiny_game_server.DataServer.Serve.Watched.{
  IsWatched, HasWatch, turns-HasWatch, take_inputs-HasWatch,
}
use tiny_game_server.DataServer.Serve.Logins.{
  Conversation, inputs, demand, AreLogins, answers, take_inputs-append, logins-Serves,
}
use tiny_game_server.DataServer.Serve.Writes.{sockets, Flushed, sockets-Flushed}

-- A functor that ran is not there any more.
turns-pending :
    (close_cb : Callback) (s : Session) (answer : Option ℕ) (t : Task) (ts : List Task)
    → s.pending ≡ t ∷ ts
    → Allows (λ u. u.pending ≡ ts) (step close_cb s (turns answer))
unfolding step
turns-pending close_cb s answer t ts e =
    rw e (bind-Allows (λ u. u.pending ≡ ts) (run_task close_cb s.conn t answer) _ (λ c. refl))

-- The loop runs `k` functors, with these answers of the kernel, and then has `m` write events.
abbrev pub flush : ℕ → (ℕ → Option ℕ) → ℕ → (ℕ → ℕ) → List Input
flush zero answers m takes = sockets m takes
flush (suc k) answers m takes = turns_loop (answers 0) ∷ flush k (λ i. answers (suc i)) m takes

module _ (host : Host) (junk : ℕ → ℕ → ℕ) (select_user : List ℕ → List ℕ → Option ℕ)
    (cap need : ℕ) where
  flush-Flushed :
      (ts : List Task) (answers : ℕ → Option ℕ) (takes : ℕ → ℕ) (s : Session) (seen : List ℕ)
      → s.pending ≡ ts
      → Serving cap need s seen
      → IsWatched s.conn
      → (m : ℕ) × Flushed
          (stream s)
          (take_inputs host junk select_user s (flush (length ts) answers m takes))
  unfolding take_inputs take_input
  flush-Flushed [] answers takes s seen e v h = (
    size s.conn.send_buffer,
    sockets-Flushed host junk select_user cap need (size s.conn.send_buffer) takes s seen e v h
        (omega arith),
  )
  flush-Flushed (t ∷ ts) answers takes s seen e v h =
      let (u, r, w, o) = loop_turn-Serves (close_callback none) cap need seen s (answers 0) v in
      let left =
        Allows-some (λ x. x.pending ≡ ts) _ u
          (turns-pending (close_callback none) s (answers 0) t ts e) r in
      let watched =
        Allows-some HasWatch _ u (turns-HasWatch (close_callback none) s (answers 0) h) r in
      let (n, (x, q, g, k)) = flush-Flushed ts (λ i. answers (suc i)) takes u seen left w watched in
      (n, (x, rw r q, g ∙ o, k))

-- A started connection of the data server whose watcher, buffers and functors are in order, which has
-- nothing to send unless its watcher waits for the socket, and whose receive buffer is of less than
-- 1 GiB and empty, takes whole logins one after another, in any pieces and with the loop's work
-- between them; the next login begins in a read event of its own, the numbers and lengths of each
-- fit their types, its length, as the host reads it, counts what follows the tag, the database
-- answers, a login fits into the receive buffer, and the replies into what is free of the send
-- buffer. Then, once the loop has run the functors that wait, with any answers of the kernel, and
-- has had some number of write events, which come only while the watcher waits for them, and in each
-- of which the kernel takes any number of bytes but none, no functor is left and the kernel has
-- taken all that was sent, or waited to be, followed by the answers to the logins in their order.
pub answers-Flushed :
    (host : Host) (junk : ℕ → ℕ → ℕ) (select_user : List ℕ → List ℕ → Option ℕ) (cap : ℕ)
    (c : Conversation) (s : Session) (kernel : ℕ → Option ℕ) (takes : ℕ → ℕ)
    → cap * 4 < 2 ^ 32
    → AreLogins host junk select_user cap c
    → Serving cap (demand c) s []
    → IsWatched s.conn
    → (k n : ℕ) × Flushed
        (stream s ++ answers host junk select_user cap c)
        (take_inputs host junk select_user s (inputs c ++ flush k kernel n takes))
answers-Flushed host junk select_user cap c s kernel takes small h v i =
    let (t, r, w, o) = logins-Serves host junk select_user cap small c s h v in
    let watched =
      Allows-some HasWatch _ t (take_inputs-HasWatch host junk select_user s (inputs c) i) r in
    let (n, (u, q, g, e)) =
      flush-Flushed host junk select_user cap 0 t.pending kernel takes t [] refl w watched in
    (
      length t.pending,
      n,
      (
        u,
        take_inputs-append host junk select_user cap s (inputs c)
              (flush (length t.pending) kernel n takes)
            ∙ rw r q,
        g ∙ o,
        e,
      ),
    )
