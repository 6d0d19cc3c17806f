-- ===== src/Postgres.antt =====
-- src/data/PGManager.cpp: the pool of connections to PostgreSQL, named by numbers, and `SelectUser`.
-- libpq is a parameter: what `PQexec` returns, and the first column of its rows. `none` is the overflow
-- of the array `sql`, or of an `int`.
pub mod Query
pub mod Answer
pub mod Overflow
pub mod Connect
use tiny_game_server.Base.{
  ℕ, suc, ◌+◌, ◌-◌, ◌%◌, ◌^◌, List, [], ◌∷◌, ◌++◌, Option, none, some, leb, ◌==◌, if◌then◌else◌,
  ◌>>=◌, length, get_elem?,
}
use tiny_game_server.Text.{codes, c_str, strtoll}
use tiny_game_server.Workers.{int_max}
use tiny_game_server.DataServer.{no_user}

-- `PickContext`, with its static counter; no connection is a null pointer.
unfoldable pub pick_context : List ℕ → ℕ → Option (Option ℕ × ℕ)
pick_context [] i = some (none, i)
pick_context (c ∷ cs) i =
    if i == int_max
    then none
    else (get_elem? (c ∷ cs) (i % length (c ∷ cs)) >>= (λ d. some (some d, suc i)))

abbrev pub query_start : List ℕ
query_start = codes "select uid from GameUser where username = '"

abbrev pub query_middle : List ℕ
query_middle = codes "' and password = '"

abbrev pub query_end : List ℕ
query_end = codes "';"

unfoldable pub query : List ℕ → List ℕ → List ℕ
query name password = query_start ++ (c_str name ++ (query_middle ++ (c_str password ++ query_end)))

abbrev pub sql_size : ℕ
sql_size = 128

-- `sprintf` into `sql`, with the zero byte at the end.
unfoldable pub print_query : List ℕ → List ℕ → Option (List ℕ)
print_query name password =
    let q = query name password in if leb (length q + 1) sql_size then some q else none

-- The loop over the rows.
unfoldable pub last_uid : ℕ → List (List ℕ) → ℕ
last_uid ret [] = ret
last_uid ret (row ∷ rows) = last_uid (strtoll row) rows

-- A null result has no rows, and its status is an error; any other result is read, errors included.
unfoldable pub read_result : Option (List (List ℕ)) → ℕ
read_result none = no_user
read_result (some rows) = last_uid no_user rows

module _ (exec : Option ℕ → List ℕ → Option (List (List ℕ))) where
  -- `SelectUser`: the user, and the counter.
  unfoldable pub select_user : List ℕ → ℕ → List ℕ → List ℕ → Option (ℕ × ℕ)
  select_user conns i name password = do
    (c, j) ← pick_context conns i
    sql ← print_query name password
    some (read_result (exec c sql), j)

  -- What the data server asks for.
  unfoldable pub lookup : List ℕ → ℕ → List ℕ → List ℕ → Option ℕ
  unfolding select_user
  lookup conns i name password = do (uid, j) ← select_user conns i name password; some uid
