-- ===== src/Tests/Pools.antt =====
-- The lives of the two pools, and of a worker.
use tiny_game_server.Base.{
  ℕ, zero, suc, ◌+◌, ◌≤◌, ◌≡◌, ◌↔◌, refl, List, [], ◌∷◌, ◌++◌, some, true, arith,
}
use tiny_game_server.Text.{codes, c_str, print_int, digits}
use tiny_game_server.Text.Address.{decimal}
use tiny_game_server.Loop.{stopped}
use tiny_game_server.Workers.{new_worker}
use tiny_game_server.Workers.Stopping.{Move, begins, loops, stops, ends, moves, left, moves-stopped}
use tiny_game_server.Pools.{made, finished, times}
use tiny_game_server.Postgres.{pick_context}
use tiny_game_server.Postgres.Connect.{Attempt, bad, ok}
use tiny_game_server.Postgres.Connect.Pool.{taken}
use tiny_game_server.Postgres.Connect.Life.{
  Manager, new_manager, destroy, connect_manager, destroy-connect_manager,
}
use tiny_game_server.Redis
use tiny_game_server.Redis.Life
use tiny_game_server.Redis.Life.{unauthorized, destroy-unauthorized}

-- The second attempt to connect to PostgreSQL finds a connection.
abbrev second : List ℕ → ℕ → Attempt
second info zero = bad 99
second info (suc i) = ok (100 + i)

short : taken second (codes "0.0.0.0") 5432 (codes "george") ≤ 72
unfolding c_str print_int digits
short = omega arith

destroy-connect_manager_example :
    (m : Manager) × (d : ℕ) × (connect_manager second
        (codes "george")
        (new_manager (codes "0.0.0.0" ++ (b':' ∷ decimal 4 5432)) 2)
      ≡ some (true, m))
    × (pick_context m.conns 3 ≡ some (some d, 4))
    × ((x : ℕ) → made x m.log ≡ finished x m.log + times x m.conns)
    × ((x : ℕ) → made x (destroy m).log ≡ finished x (destroy m).log)
destroy-connect_manager_example =
    destroy-connect_manager second (codes "0.0.0.0" ++ (b':' ∷ decimal 4 5432)) (codes "0.0.0.0") 4
      5432 2 (codes "george") 1 100 3 refl (omega arith) (omega arith) (omega arith) (omega arith)
      refl (omega arith) short

-- The first context is refused, the second one accepted.
abbrev answers : Redis.Finds
answers host port password zero = Redis.refused 7
answers host port password (suc i) = Redis.accepted (8 + i)

destroy-unauthorized_example :
    let attempts : List Redis.Attempt =
      Redis.attempts_from answers (c_str (codes "0.0.0.0")) 6379 (c_str (codes "george")) 2 0 in
    (m : Life.Manager) × (Life.connect_manager answers
        (codes "george")
        (Life.new_manager (codes "0.0.0.0" ++ (b':' ∷ decimal 4 6379)) 2)
      ≡ some m)
    × (m.conns ≡ Redis.keep attempts)
    × ((x : ℕ)
        → made x (Life.destroy m).log
          ≡ finished x (Life.destroy m).log + times x (unauthorized attempts))
destroy-unauthorized_example =
    destroy-unauthorized answers (codes "0.0.0.0" ++ (b':' ∷ decimal 4 6379)) (codes "0.0.0.0") 4
      6379 2 (codes "george") 1 8 refl (omega arith) (omega arith) (omega arith) (omega arith) refl

-- `Stop` comes before the loop has set its status, and not again.
abbrev too_early : List Move
too_early = begins ∷ stops ∷ loops ∷ ends ∷ []

moves-stopped_example :
    ((moves too_early (new_worker 3)).status ≡ stopped)
    ↔ (left (begins ∷ loops ∷ stops ∷ ends ∷ []) too_early ≡ [])
moves-stopped_example = moves-stopped 3 too_early

left_test : left (begins ∷ loops ∷ stops ∷ ends ∷ []) too_early ≡ stops ∷ ends ∷ []
unfolding left
left_test = refl
