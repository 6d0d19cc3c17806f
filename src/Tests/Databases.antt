-- ===== src/Tests/Databases.antt =====
-- Queries, and a server that keeps one value for each key.
use tiny_game_server.Base.{
  ℕ, zero, suc, ◌<◌, ◌+◌, ◌*◌, ◌^◌, ◌≤◌, ◌≡◌, refl, ap, ◌⊎◌, List, [], ◌∷◌, ◌++◌, Option, none,
  some, true, arith, length,
}
use tiny_game_server.Bytes.{little, store, hton, htonll, load}
use tiny_game_server.Buffer.{Buffer}
use tiny_game_server.Buffer.Invariant.{IsValid, contents}
use tiny_game_server.DataServer.{message}
use tiny_game_server.DataServer.Login.{login_bytes}
use tiny_game_server.Text.{codes, c_str, strtoll}
use tiny_game_server.Postgres.{
  pick_context, query, query_middle, print_query, read_result, last_uid, select_user, lookup,
}
use tiny_game_server.Postgres.Query.{Lacks, select_user-query_middle, query_unique}
use tiny_game_server.Postgres.Answer.{finds, select_user-Names}
use tiny_game_server.Postgres.Overflow.{message_overruns}
use tiny_game_server.Text.Address.{decimal}
use tiny_game_server.Postgres.Connect.{Attempt, bad, ok, connect}
use tiny_game_server.Postgres.Connect.Pool.{taken, connect-outcome}
use tiny_game_server.Redis.{get_word, Reply, nil, other, Command, set, get}
use tiny_game_server.Redis.Store.{RedisServer, get-set}

-- A database in which every query finds user 3.
abbrev three : Option ℕ → List ℕ → Option (List (List ℕ))
three c sql = some (codes "3" ∷ [])

abbrev pool : List ℕ
pool = 8 ∷ 9 ∷ []

picked : pick_context pool 1 ≡ some (some 9, 2)
unfolding pick_context
picked = refl

three_test : select_user three pool 1 (codes "ann") (codes "pw") ≡ some (3, 2)
unfolding select_user pick_context print_query query c_str read_result last_uid strtoll
three_test = refl

-- A database that finds users 2 and 3.
abbrev two_users : Option ℕ → List ℕ → Option (List (List ℕ))
two_users c sql = some (decimal 1 2 ∷ (decimal 1 3 ∷ []))

ann-short : length (c_str (codes "ann")) + length (c_str (codes "pw")) ≤ 64
unfolding c_str
ann-short = omega arith

select_user-Names_example : select_user two_users pool 1 (codes "ann") (codes "pw") ≡ some (3, 2)
select_user-Names_example =
    select_user-Names two_users pool 1 2 3 (some 9) (codes "ann") (codes "pw") picked ann-short
      (finds (decimal 1 2 ∷ []) 1 3 (omega arith) (omega arith))

ann-Lacks : Lacks 0 (codes "ann")
ann-Lacks = (omega arith, (omega arith, (omega arith, tt)))

bob-Lacks : Lacks 0 (codes "bob")
bob-Lacks = (omega arith, (omega arith, (omega arith, tt)))

select_user-query_middle_example :
    select_user three pool 1 (codes "ann" ++ (query_middle ++ codes "bob")) (codes "pw")
    ≡ select_user three pool 1 (codes "ann") (codes "bob" ++ (query_middle ++ codes "pw"))
select_user-query_middle_example =
    select_user-query_middle three pool 1 (codes "ann") (codes "bob") (codes "pw") ann-Lacks
      bob-Lacks

ann-quotes : Lacks b'\'' (c_str (codes "ann"))
unfolding c_str
ann-quotes = (omega arith, (omega arith, (omega arith, tt)))

pw-quotes : Lacks b'\'' (c_str (codes "pw"))
unfolding c_str
pw-quotes = (omega arith, (omega arith, tt))

query_unique_example :
    (c_str (codes "ann") ≡ c_str (codes "ann")) × (c_str (codes "pw") ≡ c_str (codes "pw"))
query_unique_example =
    query_unique (codes "ann") (codes "ann") (codes "pw") (codes "pw") ann-quotes ann-quotes
      pw-quotes pw-quotes refl

-- A name of 65 letters.
abbrev long_name : List ℕ
long_name = codes "aaaaaaaaaaaaaaaaaaaaaaaaaaaaaaaaaaaaaaaaaaaaaaaaaaaaaaaaaaaaaaaaa"

-- Its login, with the length in the order of a little-endian host.
abbrev long_login : Buffer
long_login = record {
  memory =
      codes "l"
      ++ ((85 ∷ 0 ∷ 0 ∷ 0 ∷ [])
          ++ ((0 ∷ 0 ∷ 0 ∷ 0 ∷ 0 ∷ 0 ∷ 0 ∷ 7 ∷ [])
              ++ ((0 ∷ 0 ∷ 0 ∷ 65 ∷ []) ++ (long_name ++ (0 ∷ 0 ∷ 0 ∷ 0 ∷ [])))));
  capacity = 86;
  read_index = 0;
  write_index = 86;
  junk = λ n i. 0;
}

long_login-IsValid : IsValid long_login
long_login-IsValid = record {
  sized = refl;
  ordered = omega arith;
  inside = omega arith;
  narrow = omega arith;
}

long_login-contents :
    contents long_login ≡ b'l' ∷ login_bytes little (λ n i. 0) (85 * 2 ^ 24) 7 long_name [] []
unfolding store htonll hton load
long_login-contents = refl

long_login-length : hton little 4 (85 * 2 ^ 24) ≤ 85
unfolding hton load store
long_login-length = omega arith

long_name-length : 64 < length (c_str long_name) + length (c_str [])
unfolding c_str
long_name-length = omega arith

message_overruns_example : message little (λ n i. 0) (lookup three pool 1) long_login ≡ none
message_overruns_example =
    message_overruns three pool 1 (some 9) 2 little (λ n i. 0) long_login (85 * 2 ^ 24) 7 long_name
      [] [] picked long_login-IsValid (omega arith) (omega arith) (omega arith) (omega arith)
      long_login-contents long_login-length long_name-length

-- A server with one value for all keys.
abbrev answer_of : Command → Option (List ℕ) → Option Reply × Option (List ℕ)
answer_of (word ∷ key ∷ value ∷ []) s = (some (other (codes "OK")), some value)
answer_of (word ∷ key ∷ []) (some value) = (some (other value), some value)
answer_of (word ∷ key ∷ []) none = (some nil, none)
answer_of _ s = (none, s)

one_value_found :
    (key value : List ℕ) (s : Option (List ℕ))
    → s ≡ some value
    → (answer_of (get_word ∷ key ∷ []) s).0 ≡ some (other value)
one_value_found key value none e = absurd (cc e)
one_value_found key value (some x) e = ap (λ o. (answer_of (get_word ∷ key ∷ []) o).0) e

abbrev one_value : RedisServer
one_value = record {
  State = Option (List ℕ);
  command = λ c words s. answer_of words s;
  kept = λ s key. s;
  set_answers = λ c key value s. (codes "OK", refl);
  set_keeps = λ c key value s. refl;
  get_found = λ c key value s e. one_value_found key value s e;
}

picked_next : pick_context pool 2 ≡ some (some 8, 3)
unfolding pick_context
picked_next = refl

get-set_example :
    (u v : Option (List ℕ)) × (set one_value.command pool 1 (codes "k") (codes "v") none
      ≡ some (true, 2, u))
    × (get one_value.command pool 2 (codes "k") [] u ≡ some ((true, c_str (codes "v")), 3, v))
get-set_example =
    get-set one_value pool 1 2 3 9 8 (codes "k") (codes "v") [] none picked picked_next

-- The second attempt to connect to PostgreSQL finds a connection.
abbrev second : List ℕ → ℕ → Attempt
second info zero = bad 99
second info (suc i) = ok (100 + i)

connect-outcome_example :
    ((72 < taken second (codes "0.0.0.0") 5432 (codes "george"))
      × (connect second (codes "0.0.0.0" ++ (b':' ∷ decimal 4 5432)) 2 (codes "george") [] ≡ none))
    ⊎ ((taken second (codes "0.0.0.0") 5432 (codes "george") ≤ 72)
        × (cs : List ℕ) × (d : ℕ) × (connect second
              (codes "0.0.0.0" ++ (b':' ∷ decimal 4 5432))
              2
              (codes "george")
              []
            ≡ some (true, cs))
        × (pick_context cs 3 ≡ some (some d, 4)))
connect-outcome_example =
    connect-outcome second (codes "0.0.0.0" ++ (b':' ∷ decimal 4 5432)) (codes "0.0.0.0") 4 5432 2
      (codes "george") 1 100 3 refl (omega arith) (omega arith) (omega arith) (omega arith) refl
      (omega arith)
