-- ===== src/Workers/Stopping.antt =====
-- A worker whose thread and whose owner race: `WorkThread::Run` and `EventLoop::Run` in the thread, and
-- `WorkThread::Stop` outside of it.
use tiny_game_server.Base.{
  ℕ, ◌≡◌, ◌↔◌, refl, sym, ap, ◌∙◌, List, [], ◌∷◌, Bool, true, false, if◌then◌else◌, ◌&&◌,
}
use tiny_game_server.Loop.{LoopStatus, initial, running, stopped}
use tiny_game_server.Workers.{Worker, new_worker, stop_worker, run_ends}

-- `Run` sets the status of the worker; then `EventLoop::Run` that of the loop; `Stop` is called; the
-- loop returns.
pub data Move : Type 0 where
  begins loops stops ends : Move

abbrev is_initial : LoopStatus → Bool
is_initial initial = true
is_initial _ = false

abbrev status_is_running : LoopStatus → Bool
status_is_running running = true
status_is_running _ = false

abbrev is_stopped : LoopStatus → Bool
is_stopped stopped = true
is_stopped _ = false

-- A move of the thread is made where the thread has come to it; the loop returns once it was told to
-- exit.
unfoldable pub move : Move → Worker → Worker
unfolding stop_worker run_ends
move begins w = if is_initial w.status then record w { status = running } else w
move loops w =
    if status_is_running w.status && is_initial w.loop_status
    then record w { loop_status = running }
    else w
move stops w = stop_worker w
move ends w = if status_is_running w.status && is_stopped w.loop_status then run_ends w else w

unfoldable pub moves : List Move → Worker → Worker
moves [] w = w
moves (m ∷ ms) w = moves ms (move m w)

-- What is left of some moves to wait for, each in turn.
abbrev same : Move → Move → Bool
same begins begins = true
same loops loops = true
same stops stops = true
same ends ends = true
same _ _ = false

unfoldable pub left : List Move → List Move → List Move
left [] ms = []
left (n ∷ ns) [] = n ∷ ns
left (n ∷ ns) (m ∷ ms) = left (if same n m then ns else n ∷ ns) ms

-- The worker, by what its thread has to wait for.
abbrev at : ℕ → List Move → Worker
at loop [] = record { loop = loop; loop_status = stopped; status = stopped }
at loop (begins ∷ ns) = new_worker loop
at loop (loops ∷ ns) = record { loop = loop; loop_status = initial; status = running }
at loop (stops ∷ ns) = record { loop = loop; loop_status = running; status = running }
at loop (ends ∷ ns) = record { loop = loop; loop_status = stopped; status = running }

module _ (loop : ℕ) where
  -- From each of its states the worker goes on as far as the moves lead it.
  Goes : List Move → Type 0
  Goes ns = (ms : List Move) → moves ms (at loop ns) ≡ at loop (left ns ms)

  after_ends : Goes []
  unfolding Goes moves move left stop_worker
  after_ends [] = refl
  after_ends (begins ∷ ms) = after_ends ms
  after_ends (loops ∷ ms) = after_ends ms
  after_ends (stops ∷ ms) = after_ends ms
  after_ends (ends ∷ ms) = after_ends ms

  after_stops : Goes (ends ∷ [])
  unfolding Goes moves move left stop_worker run_ends
  after_stops [] = refl
  after_stops (begins ∷ ms) = after_stops ms
  after_stops (loops ∷ ms) = after_stops ms
  after_stops (stops ∷ ms) = after_stops ms
  after_stops (ends ∷ ms) = unfold Goes in after_ends ms

  after_loops : Goes (stops ∷ ends ∷ [])
  unfolding Goes moves move left stop_worker
  after_loops [] = refl
  after_loops (begins ∷ ms) = after_loops ms
  after_loops (loops ∷ ms) = after_loops ms
  after_loops (stops ∷ ms) = after_stops ms
  after_loops (ends ∷ ms) = after_loops ms

  after_begins : Goes (loops ∷ stops ∷ ends ∷ [])
  unfolding Goes moves move left stop_worker
  after_begins [] = refl
  after_begins (begins ∷ ms) = after_begins ms
  after_begins (loops ∷ ms) = after_loops ms
  after_begins (stops ∷ ms) = after_begins ms
  after_begins (ends ∷ ms) = after_begins ms

  from_new : Goes (begins ∷ loops ∷ stops ∷ ends ∷ [])
  unfolding Goes moves move left stop_worker new_worker
  from_new [] = refl
  from_new (begins ∷ ms) = after_begins ms
  from_new (loops ∷ ms) = from_new ms
  from_new (stops ∷ ms) = from_new ms
  from_new (ends ∷ ms) = from_new ms

  only_at_end : (ns : List Move) → (at loop ns).status ≡ stopped → ns ≡ []
  unfolding new_worker
  only_at_end [] e = refl
  only_at_end (begins ∷ ns) e = cc e
  only_at_end (loops ∷ ns) e = cc e
  only_at_end (stops ∷ ns) e = cc e
  only_at_end (ends ∷ ns) e = cc e

  -- For every order in which the thread of a new worker and the calls of `Stop` come to act, the
  -- worker ends as stopped exactly if these happen one after another, with anything between them: its
  -- thread begins, its loop sets its status to running, `Stop` is called, and the loop looks whether
  -- to return. So a `Stop` before the loop has set its status is lost: without a later one the worker
  -- never ends.
  pub moves-stopped :
      (ms : List Move)
      → ((moves ms (new_worker loop)).status ≡ stopped)
        ↔ (left (begins ∷ loops ∷ stops ∷ ends ∷ []) ms ≡ [])
  unfolding Goes
  moves-stopped ms = (
    (λ e. only_at_end _ (sym (ap (λ w. w.status) (from_new ms)) ∙ e)),
    (λ e. ap (λ w. w.status) (from_new ms) ∙ ap (λ ns. (at loop ns).status) e),
  )
