-- ===== src/Postgres/Connect.antt =====
-- `PGManager::Connect` of src/data/PGManager.cpp. What `PQconnectdb` finds at each attempt is a
-- parameter. `none` is the overflow of the array `conninfo`, or a failed assertion.
pub mod Pool
pub mod Life
use tiny_game_server.Base.{
  ℕ, zero, suc, ◌+◌, ◌^◌, List, [], ◌∷◌, ◌++◌, Option, none, some, Bool, true, false, ltb, leb,
  if◌then◌else◌, ◌>>=◌, length,
}
use tiny_game_server.Text.{codes, c_str, print_int, split_host_port}

-- What `PQconnectdb` and `PQstatus` find.
pub data Attempt : Type 0 where
  no_memory : Attempt
  bad ok : ℕ → Attempt

abbrev pub info_host : List ℕ
info_host = codes "hostaddr="

abbrev pub info_port : List ℕ
info_port = codes " port="

abbrev pub info_user : List ℕ
info_user = codes " dbname=postgres user=postgres password="

unfoldable pub conninfo : List ℕ → ℕ → List ℕ → List ℕ
conninfo host port password =
    info_host ++ (c_str host ++ (info_port ++ (print_int port ++ (info_user ++ c_str password))))

abbrev pub conninfo_size : ℕ
conninfo_size = 128

-- `sprintf` into `conninfo`, with the zero byte at the end.
unfoldable pub print_conninfo : List ℕ → ℕ → List ℕ → Option (List ℕ)
print_conninfo host port password =
    let q = conninfo host port password in if leb (length q + 1) conninfo_size then some q else none

module _ (connectdb : List ℕ → ℕ → Attempt) where
  -- The loop, with `n` attempts left, from the attempt `i` on.
  unfoldable pub open_pool : List ℕ → ℕ → ℕ → List ℕ
  open_pool info zero i = []
  open_pool info (suc n) i = elim (connectdb info i) [
    | no_memory ↦ open_pool info n (suc i)
    | bad c ↦ open_pool info n (suc i)
    | ok c ↦ c ∷ open_pool info n (suc i)
  ]

  -- `Connect`, with `conn_num_` as a 32-bit pattern: the pool.
  unfoldable pub connect : List ℕ → ℕ → List ℕ → List ℕ → Option (Bool × List ℕ)
  connect addr conn_num password conns = do
    (host, port) ← split_host_port addr
    info ← print_conninfo host port password
    let attempts = if ltb conn_num (2 ^ 31) then conn_num else 0
    elim (conns ++ open_pool info attempts 0) [ [] ↦ none | c ∷ cs ↦ some (true, c ∷ cs) ]
