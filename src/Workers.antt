-- ===== src/Workers.antt =====
-- src/util/WorkThread.h, src/util/WorkThread.cpp, src/util/ThreadManager.h and
-- src/util/ThreadManager.cpp. An event loop is named by a number; `none` is the overflow of an `int`.
pub mod Fair
pub mod Stopping
use tiny_game_server.Base.{
  ℕ, zero, suc, ◌+◌, ◌-◌, ◌%◌, ◌^◌, List, [], ◌∷◌, ◌++◌, Option, none, some, Bool, true, false,
  ◌==◌, if◌then◌else◌, ◌>>=◌, length, get_elem?, map,
}
use tiny_game_server.Loop.{LoopStatus, initial, running, stopped}

pub record Worker : Type 0 where
  pub loop : ℕ
  pub loop_status : LoopStatus
  pub status : LoopStatus

-- `WorkThread(functor)`; the thread runs `Run` later.
unfoldable pub new_worker : ℕ → Worker
new_worker loop = record { loop = loop; loop_status = initial; status = initial }

abbrev pub get_event_loop : Worker → ℕ
get_event_loop w = w.loop

-- `WorkThread::Start`, with what it sees of the status each time that it looks; `none` is that it still
-- waits.
unfoldable pub await_worker : List LoopStatus → Option LoopStatus
await_worker [] = none
await_worker (initial ∷ seen) = await_worker seen
await_worker (status ∷ seen) = some status

-- The two halves of `WorkThread::Run`, before and after the loop ran.
unfoldable pub run_begins : Worker → Worker
run_begins w = record w { status = running; loop_status = running }

unfoldable pub run_ends : Worker → Worker
run_ends w = record w { status = stopped; loop_status = stopped }

-- `WorkThread::Stop`: `EventLoop::Stop` does nothing unless the loop runs.
unfoldable pub stop_worker : Worker → Worker
stop_worker w = elim w.loop_status [ running ↦ record w { loop_status = stopped } | _ ↦ w ]

pub record Manager : Type 0 where
  pub loop : ℕ
  pub threads : List Worker
  pub status : LoopStatus

unfoldable pub new_manager : ℕ → Manager
new_manager loop = record { loop = loop; threads = []; status = initial }

-- `n` new workers, on loops with the next numbers.
unfoldable pub new_workers : ℕ → ℕ → List Worker
unfolding new_worker
new_workers loop zero = []
new_workers loop (suc n) = new_worker loop ∷ new_workers (suc loop) n

-- `Start(thread_num)`; the new loops are numbered from `first` on.
unfoldable pub start : ℕ → ℕ → Manager → Manager
unfolding new_workers
start first thread_num m =
    if thread_num == 0
    then record m { status = running }
    else record m { threads = m.threads ++ new_workers first thread_num; status = running }

unfoldable pub stop : Manager → Manager
unfolding stop_worker
stop m = record m { threads = map stop_worker m.threads; status = stopped }

abbrev pub int_max : ℕ
int_max = 2 ^ 31 - 1

-- `threads_[i++ % threads_.size()]`
unfoldable pub pick_worker : List Worker → ℕ → Option (ℕ × ℕ)
pick_worker threads i =
    if i == int_max
    then none
    else (get_elem? threads (i % length threads) >>= (λ w. some (get_event_loop w, suc i)))

-- `PickEventLoop`, with its static counter, which all managers share.
unfoldable pub pick_event_loop : Manager → ℕ → Option (ℕ × ℕ)
unfolding pick_worker
pick_event_loop m i = elim m.threads [ [] ↦ some (m.loop, i) | w ∷ ws ↦ pick_worker (w ∷ ws) i ]

-- The loops of `n` calls in a row.
unfoldable pub picks : ℕ → Manager → ℕ → Option (List ℕ × ℕ)
unfolding pick_event_loop
picks zero m i = some ([], i)
picks (suc n) m i = do
  (loop, j) ← pick_event_loop m i
  (loops, k) ← picks n m j
  some (loop ∷ loops, k)
