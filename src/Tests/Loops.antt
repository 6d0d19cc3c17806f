-- ===== src/Tests/Loops.antt =====
-- Loops whose functors are numbers: `n` writes itself down and gives the loop the number below it.
use mathlib.Core.List.{Perm}
use tiny_game_server.Base.{
  ℕ, zero, suc, ◌+◌, ◌≡◌, ◌≢◌, refl, List, [], ◌∷◌, ◌++◌, some, true, false, arith, inl, inr,
}
use tiny_game_server.Loop.{Loop, running, stopped, process, stop}
use tiny_game_server.Loop.Queue.{serve_times, process-eq-serve_times}
use tiny_game_server.Loop.Stop.{Falls, stop_drains}
use tiny_game_server.Loop.Wakeup.{
  Threads, Reach, Steps, started, waiting, calling, here, next, add, notify, in_hand,
  Reach-in_order, Reach-serves,
}
use tiny_game_server.Workers.{Manager, picks}
use tiny_game_server.Workers.Fair.{loops, picks-Perm}
use tiny_game_server.Serial.{Serial, tick, generate, generate_all, serial_id}
use tiny_game_server.Serial.Unique.{Paced, Rises, generate_all-Rises, generate-collides}

abbrev countdown : ℕ → List ℕ → List ℕ × List ℕ
countdown zero w = (w ++ (0 ∷ []), [])
countdown (suc n) w = (w ++ (suc n ∷ []), n ∷ [])

abbrev busy : Loop ℕ (List ℕ)
busy = record { status = running; pending = 2 ∷ 0 ∷ []; signals = 2; exiting = false; world = [] }

process-eq-serve_times_example : process countdown busy ≡ serve_times countdown 2 busy
process-eq-serve_times_example = process-eq-serve_times countdown busy

countdown-Falls : Falls countdown (λ t. t)
countdown-Falls zero w = tt
countdown-Falls (suc n) w = (omega arith, tt)

stop_drains_example :
    (d : Loop ℕ (List ℕ)) × (stop countdown 4 busy ≡ some d)
    × (d.status ≡ stopped)
    × (d.pending ≡ [])
    × (d.exiting ≡ true)
stop_drains_example =
    stop_drains countdown (λ t. t) countdown-Falls 3 busy refl (omega arith, (omega arith, tt))

-- One functor was added, and its byte written.
abbrev noticed : Threads ℕ
noticed = record {
  pending = 7 ∷ [];
  notifying = 0;
  signals = 1;
  phase = waiting;
  given = 7 ∷ [];
  done = [];
}

noticed-Reach : Reach noticed
unfolding started
noticed-Reach = next (next here (add 7)) (notify (omega arith))

Reach-in_order_example : noticed.given ≡ noticed.done ++ (in_hand noticed.phase ++ noticed.pending)
Reach-in_order_example = Reach-in_order noticed-Reach

some_wait : noticed.pending ≢ []
some_wait e = absurd (cc e)

Reach-serves_example :
    (u : Threads ℕ) × Steps noticed u × (u.phase ≡ calling (7 ∷ [])) × (u.done ≡ [])
Reach-serves_example = Reach-serves noticed noticed-Reach refl refl some_wait

abbrev two_workers : Manager
two_workers = record {
  loop = 0;
  threads =
      record { loop = 5; loop_status = running; status = running }
      ∷ record { loop = 6; loop_status = running; status = running }
      ∷ [];
  status = running;
}

picks-Perm_example :
    (ps : List ℕ) × (picks 2 two_workers 3 ≡ some (ps, 5)) × Perm ps (loops two_workers.threads)
picks-Perm_example = picks-Perm two_workers 3 (omega arith) (omega arith)

-- A stamp for each second.
abbrev seconds : ℕ → ℕ
seconds t = 20210301000000 + t

abbrev at_ten : Serial
at_ten = record { current_time = 10; serial = 0 }

ten_eleven-Paced : Paced seconds (10 ∷ 11 ∷ []) at_ten
unfolding tick
ten_eleven-Paced =
    (inl refl, (omega arith, omega arith), (inr (omega arith), (omega arith, omega arith), tt))

generate_all-Rises_example :
    Rises (serial_id seconds at_ten) (generate_all seconds (10 ∷ 11 ∷ []) at_ten)
generate_all-Rises_example =
    generate_all-Rises seconds (10 ∷ 11 ∷ []) at_ten (omega arith, omega arith) ten_eleven-Paced

abbrev spent : Serial
spent = record { current_time = 10; serial = 1000 }

generate-collides_test : let (id, t) = generate seconds 10 spent in (generate seconds 11 t).0 ≡ id
generate-collides_test = generate-collides seconds spent 11 (omega arith) refl refl
