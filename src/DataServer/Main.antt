-- ===== src/DataServer/Main.antt =====
-- `main` of server/DataServer.cpp, up to the run of the loop. The databases, the clock and the system are
-- parameters; the message callback is in DataServer/Serve.
use tiny_game_server.Base.{
  ℕ, suc, ◌<◌, ◌≡◌, refl, ap, ◌∙◌, List, [], ◌∷◌, Option, some, ◌>>=◌, arith, length,
}
use tiny_game_server.Bytes.{Host}
use tiny_game_server.Text.{
  codes, c_str, split_host_port, rfind, atoi, skip_spaces, read_sign, read_digits, print_int,
  digits,
}
use tiny_game_server.Watcher.Registration.{EventLibrary}
use tiny_game_server.Workers.{int_max, new_workers, new_worker, new_manager}
use tiny_game_server.Workers
use tiny_game_server.Postgres.{pick_context}
use tiny_game_server.Postgres.Connect.{Attempt, ok, conninfo, print_conninfo, connect}
use tiny_game_server.Postgres.Connect.Pool.{connect_found, pick_context-exists, open_pool-nonempty}
use tiny_game_server.Redis
use tiny_game_server.Acceptor.{Acceptor, new_acceptor, start_watcher}
use tiny_game_server.Acceptor.Listen.{set_up}
use tiny_game_server.Acceptor.Watching.{readable, WaitsFor, waiting-WaitsFor}
use tiny_game_server.Server.{new_server, start_threads}
use tiny_game_server.Server.Listening.{Listening, new_listening, start}
use tiny_game_server.Server.Listening.Start.{started, start_found}

pub record Program : Type 0 where
  pub postgres : List ℕ  -- the pool of `PGManager`
  pub redis : List ℕ
  pub server : Listening

abbrev pub postgres_addr : List ℕ
postgres_addr = codes "0.0.0.0:5432"

abbrev pub redis_addr : List ℕ
redis_addr = codes "0.0.0.0:6379"

abbrev pub password : List ℕ
password = codes "george"

abbrev pub server_addr : List ℕ
server_addr = codes "0.0.0.0:10241"

-- The number of connections to each database, and of threads.
abbrev pub pool_size : ℕ
pool_size = 2

abbrev pub thread_num : ℕ
thread_num = 2

module _ (host : Host) (connectdb : List ℕ → ℕ → Attempt) (finds : Redis.Finds) where
  -- The loop of the program is number 0, and those of the workers come after it; `socket` returns `fd`.
  unfoldable pub main : ℕ → ℕ → Option Program
  unfolding new_listening
  main now fd = do
    (connected, postgres) ← connect connectdb postgres_addr pool_size password []
    redis ← Redis.connect finds redis_addr pool_size password []
    server ← start host 1 thread_num (new_listening 0 now fd server_addr)
    some (record { postgres = postgres; redis = redis; server = server })

  abbrev pub postgres_info : List ℕ
  postgres_info = conninfo (codes "0.0.0.0") 5432 password

  splits :
      (split_host_port postgres_addr ≡ some (codes "0.0.0.0", 5432))
      × (split_host_port redis_addr ≡ some (codes "0.0.0.0", 6379))
      × (split_host_port server_addr ≡ some (codes "0.0.0.0", 10241))
  unfolding split_host_port rfind atoi skip_spaces read_sign read_digits
  splits = (refl, refl, refl)

  prints : print_conninfo (codes "0.0.0.0") 5432 password ≡ some postgres_info
  unfolding print_conninfo conninfo c_str print_int digits
  prints = refl

  redis_found :
      (r : ℕ) (rs : List ℕ)
      → Redis.keep (Redis.all_attempts finds (codes "0.0.0.0") 6379 password pool_size) ≡ r ∷ rs
      → Redis.connect finds redis_addr pool_size password [] ≡ some (r ∷ rs)
  redis_found r rs e =
      Redis.connect_found finds redis_addr (codes "0.0.0.0") 6379 pool_size password r rs splits.1
        (omega arith) e

  password_lem : (c_str (codes "0.0.0.0") ≡ codes "0.0.0.0") × (c_str password ≡ password)
  unfolding c_str
  password_lem = (refl, refl)

  -- If one of the two attempts to connect to PostgreSQL and one of those to Redis succeed, the set-up of the
  -- data server succeeds, on a host of either byte order: it listens on port 10241 of all interfaces
  -- with two workers, both pools have a connection for every request while their counters are below
  -- the largest `int`, and once the loop has run the functor of the listener, libevent waits for
  -- clients.
  pub main-set_up :
      (lib : EventLibrary) (now fd k c j r i : ℕ)
      → k < pool_size
      → connectdb postgres_info k ≡ ok c
      → j < pool_size
      → finds (codes "0.0.0.0") 6379 password j ≡ Redis.accepted r
      → i < int_max
      → (p : Program) × (a : Acceptor) × (x y : ℕ) × (main now fd ≡ some p)
        × (p.server.acceptor.requests ≡ set_up fd 10241)
        × (length p.server.server.manager.threads ≡ thread_num)
        × (pick_context p.postgres i ≡ some (some x, suc i))
        × (pick_context p.redis i ≡ some (some y, suc i))
        × (start_watcher p.server.acceptor ≡ some a)
        × WaitsFor lib readable a
  unfolding main start_threads Workers.start new_workers new_worker new_server new_manager
  main-set_up lib now fd k c j r i h e l f g =
      let (d, ds, o) =
        open_pool-nonempty connectdb postgres_info pool_size 0 k c h
          (ap (connectdb postgres_info) (omega arith) ∙ e) in
      let q =
        connect_found connectdb postgres_addr (codes "0.0.0.0") 5432 pool_size password
          postgres_info d ds splits.0 prints (omega arith) o in
      let (x, xe) = pick_context-exists d ds i g in
      let (z, zs, kept) =
        Redis.attempts_from-kept finds (c_str (codes "0.0.0.0")) 6379 (c_str password) pool_size 0 j
          r l
          (rw (password_lem.0, password_lem.1)
            (ap (finds (codes "0.0.0.0") 6379 password) (omega arith) ∙ f)) in
      let (y, ye) = pick_context-exists z zs i g in
      let (a, w, ae, _, _) =
        waiting-WaitsFor lib
          (record (new_acceptor fd server_addr) { requests = set_up fd 10241 }) in
      (
        record {
          postgres = d ∷ ds;
          redis = z ∷ zs;
          server = started thread_num now fd server_addr 10241;
        },
        a,
        x,
        y,
        rw
            (
              q,
              redis_found z zs kept,
              start_found host thread_num now fd server_addr (codes "0.0.0.0") 10241 splits.2,
            )
            refl,
        refl,
        refl,
        xe,
        ye,
        w,
        ae,
      )
