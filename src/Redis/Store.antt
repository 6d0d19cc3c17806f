-- ===== src/Redis/Store.antt =====
-- What `Get` finds after `Set`. The server is an interface: it keeps what was set under a key.
use tiny_game_server.Base.{ℕ, ◌≡◌, refl, List, [], ◌∷◌, Option, some, arith, true}
use tiny_game_server.Text.{c_str}
use tiny_game_server.Postgres.{pick_context}
use tiny_game_server.Redis.{
  Reply, other, Command, set_word, get_word, set_result, get_result, set, get,
}

pub record RedisServer : Type 1 where
  pub State : Type 0
  pub command : Option ℕ → Command → State → Option Reply × State
  pub kept : State → List ℕ → Option (List ℕ)
  -- SET answers OK and keeps the value; GET answers with what is kept, or nil.
  pub set_answers :
      (c : ℕ) (key value : List ℕ) (s : State)
      → (reply : List ℕ) × ((command (some c) (set_word ∷ key ∷ value ∷ []) s).0
          ≡ some (other reply))
  pub set_keeps :
      (c : ℕ) (key value : List ℕ) (s : State)
      → kept (command (some c) (set_word ∷ key ∷ value ∷ []) s).1 key ≡ some value
  pub get_found :
      (c : ℕ) (key value : List ℕ) (s : State)
      → kept s key ≡ some value
      → (command (some c) (get_word ∷ key ∷ []) s).0 ≡ some (other value)

c_str-c_str : (xs : List ℕ) → c_str (c_str xs) ≡ c_str xs
unfolding c_str
c_str-c_str [] = refl
c_str-c_str (x ∷ xs) = ground (arith, c_str-c_str xs)

module _ (server : RedisServer) where
  open server use {State, command, kept, set_answers, set_keeps, get_found}

  -- `Get` after `Set` of the same key, each on a connection of the pool, succeeds and finds the value, up
  -- to its first zero byte, whatever `value` held before.
  pub get-set :
      (conns : List ℕ) (i j k c d : ℕ) (key value old : List ℕ) (s : State)
      → pick_context conns i ≡ some (some c, j)
      → pick_context conns j ≡ some (some d, k)
      → (u v : State) × (set command conns i key value s ≡ some (true, j, u))
        × (get command conns j key old u ≡ some ((true, c_str value), k, v))
  unfolding set get set_result get_result
  get-set conns i j k c d key value old s p q =
      let u : State = (command (some c) (set_word ∷ c_str key ∷ c_str value ∷ []) s).1 in
      let (reply, a) = set_answers c (c_str key) (c_str value) s in
      (
        u,
        (command (some d) (get_word ∷ c_str key ∷ []) u).1,
        rw (p, a) refl,
        rw
            (
              q,
              get_found d (c_str key) (c_str value) u (set_keeps c (c_str key) (c_str value) s),
              c_str-c_str value,
            )
            refl,
      )
