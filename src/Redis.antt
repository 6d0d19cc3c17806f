-- ===== src/Redis.antt =====
-- src/data/RedisManager.cpp: the pool of connections to Redis, named by numbers. hiredis is a parameter:
-- what a connection attempt and a command return. `none` is an address whose port no `int` holds, the
-- overflow of an `int`, or a failed assertion.
pub mod Store
pub mod Life
use tiny_game_server.Base.{
  ℕ, zero, suc, ◌+◌, ◌^◌, ◌<◌, ◌≡◌, refl, ap, ◌∙◌, List, [], ◌∷◌, ◌++◌, Option, none, some, Bool,
  true, false, ◌>>=◌, ltb, if◌then◌else◌, arith, lt→ltb,
}
use tiny_game_server.Postgres.{pick_context}
use tiny_game_server.Text.{c_str, split_host_port}

-- A reply, by its `type`, with `str`.
pub data Reply : Type 0 where
  nil error : Reply
  other : List ℕ → Reply

-- What `redisConnect` and the AUTH command that follows find.
pub data Attempt : Type 0 where
  no_context : Attempt
  failed no_reply refused accepted : ℕ → Attempt

-- The loop of `Connect`; a context that is not kept is freed, or leaks.
unfoldable pub keep : List Attempt → List ℕ
keep [] = []
keep (accepted c ∷ more) = c ∷ keep more
keep (no_context ∷ more) = keep more
keep (failed c ∷ more) = keep more
keep (no_reply c ∷ more) = keep more
keep (refused c ∷ more) = keep more

-- What an attempt finds, with a host, a port and a password.
abbrev pub Finds : Type 0
Finds = List ℕ → ℕ → List ℕ → ℕ → Attempt

module _ (finds : Finds) where
  -- `n` attempts, from the attempt `i` on.
  unfoldable pub attempts_from : List ℕ → ℕ → List ℕ → ℕ → ℕ → List Attempt
  attempts_from host port password zero i = []
  attempts_from host port password (suc n) i =
      finds host port password i ∷ attempts_from host port password n (suc i)

  -- The attempts of `Connect`, with `conn_num_` as a 32-bit pattern.
  abbrev pub all_attempts : List ℕ → ℕ → List ℕ → ℕ → List Attempt
  all_attempts host port password conn_num =
      attempts_from (c_str host) port (c_str password)
        (if ltb conn_num (2 ^ 31) then conn_num else 0) 0

  -- `Connect` asserts that a connection was made.
  unfoldable pub connect : List ℕ → ℕ → List ℕ → List ℕ → Option (List ℕ)
  connect addr conn_num password conns = do
    (host, port) ← split_host_port addr
    elim (conns ++ keep (all_attempts host port password conn_num)) [
      | [] ↦ none
      | c ∷ cs ↦ some (c ∷ cs)
    ]

  pub connect_found :
      (addr host : List ℕ) (port conn_num : ℕ) (password : List ℕ) (d : ℕ) (ds : List ℕ)
      → split_host_port addr ≡ some (host, port)
      → conn_num < 2 ^ 31
      → keep (attempts_from (c_str host) port (c_str password) conn_num 0) ≡ d ∷ ds
      → connect addr conn_num password [] ≡ some (d ∷ ds)
  unfolding connect keep attempts_from
  connect_found addr host port conn_num password d ds e small f =
      rw (e, lt→ltb conn_num (2 ^ 31) small, f) refl

  -- An attempt that is accepted is kept.
  pub attempts_from-kept :
      (host : List ℕ) (port : ℕ) (password : List ℕ) (n i k c : ℕ)
      → k < n
      → finds host port password (i + k) ≡ accepted c
      → (d : ℕ) × (ds : List ℕ) × (keep (attempts_from host port password n i) ≡ d ∷ ds)
  unfolding attempts_from keep
  attempts_from-kept host port password zero i k c h e = absurd (omega arith)
  attempts_from-kept host port password (suc n) i zero c h e =
      let first : finds host port password i ≡ accepted c =
        ap (finds host port password) (omega arith) ∙ e in
      (c, keep (attempts_from host port password n (suc i)), rw first refl)
  attempts_from-kept host port password (suc n) i (suc k) c h e =
      let (d, ds, r) =
        attempts_from-kept host port password n (suc i) k c (omega arith)
          (ap (finds host port password) (omega arith) ∙ e) in
      by_case d ds r (finds host port password i)
    where
      by_case :
          (d : ℕ) (ds : List ℕ)
          → keep (attempts_from host port password n (suc i)) ≡ d ∷ ds
          → (a : Attempt)
          → (x : ℕ) × (xs : List ℕ) × (keep (a ∷ attempts_from host port password n (suc i))
              ≡ x ∷ xs)
      by_case d ds r no_context = (d, ds, r)
      by_case d ds r (failed x) = (d, ds, r)
      by_case d ds r (no_reply x) = (d, ds, r)
      by_case d ds r (refused x) = (d, ds, r)
      by_case d ds r (accepted x) = (x, keep (attempts_from host port password n (suc i)), refl)

-- A command of `%s` arguments.
abbrev pub Command : Type 0
Command = List (List ℕ)

abbrev pub set_word : List ℕ
set_word = b'S' ∷ b'E' ∷ b'T' ∷ []

abbrev pub get_word : List ℕ
get_word = b'G' ∷ b'E' ∷ b'T' ∷ []

unfoldable pub set_result : Option Reply → Bool
set_result none = false
set_result (some error) = false
set_result (some nil) = true
set_result (some (other s)) = true

-- The result of `Get`, and what becomes of `value`.
unfoldable pub get_result : Option Reply → List ℕ → Bool × List ℕ
get_result none value = (false, value)
get_result (some nil) value = (true, value)
get_result (some error) value = (false, value)
get_result (some (other s)) value = (true, c_str s)

-- The server keeps a state of type `S`; a command on no connection has no reply.
module _ {S : Type 0} (command : Option ℕ → Command → S → Option Reply × S) where
  unfoldable pub set : List ℕ → ℕ → List ℕ → List ℕ → S → Option (Bool × ℕ × S)
  set conns i key value s = do
    (c, j) ← pick_context conns i
    let done = command c (set_word ∷ c_str key ∷ c_str value ∷ []) s
    some (set_result done.0, j, done.1)

  unfoldable pub get : List ℕ → ℕ → List ℕ → List ℕ → S → Option ((Bool × List ℕ) × ℕ × S)
  get conns i key value s = do
    (c, j) ← pick_context conns i
    let done = command c (get_word ∷ c_str key ∷ []) s
    some (get_result done.0 value, j, done.1)
