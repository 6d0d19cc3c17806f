-- ===== src/Postgres/Answer.antt =====
-- What `SelectUser` makes of the rows that the database answers with.
use tiny_game_server.Base.{
  ℕ, ◌+◌, ◌^◌, ◌≤◌, ◌<◌, ◌≡◌, refl, ap, ◌∙◌, List, [], ◌∷◌, ◌++◌, Option, none, some, inl, inr,
  arith, length,
}
use tiny_game_server.Text.{c_str, strtoll}
use tiny_game_server.Text.Address.{decimal, tens, strtoll-decimal}
use tiny_game_server.DataServer.{no_user}
use tiny_game_server.Postgres.{pick_context, query, last_uid, read_result, select_user}
use tiny_game_server.Postgres.Query.{select_user_outcome}

-- The user that an answer of the database names: none, if there is no answer or no row; else that of its
-- last row, a number below 2^63 in decimal.
pub data Names : Option (List (List ℕ)) → ℕ → Type 0 where
  fails : Names none no_user
  finds_none : Names (some []) no_user
  finds :
      (rows : List (List ℕ)) (w uid : ℕ)
      → uid < tens w
      → uid < 2 ^ 63
      → Names (some (rows ++ (decimal w uid ∷ []))) uid

last_uid-last :
    (ret w uid : ℕ) (rows : List (List ℕ))
    → uid < tens w
    → uid < 2 ^ 63
    → last_uid ret (rows ++ (decimal w uid ∷ [])) ≡ uid
unfolding last_uid
last_uid-last ret w uid [] h k = strtoll-decimal w uid h k
last_uid-last ret w uid (row ∷ rows) h k = last_uid-last (strtoll row) w uid rows h k

read_result-Names :
    {answer : Option (List (List ℕ))} {uid : ℕ} → Names answer uid → read_result answer ≡ uid
unfolding read_result last_uid
read_result-Names fails = refl
read_result-Names finds_none = refl
read_result-Names (finds rows w uid h k) = last_uid-last no_user w uid rows h k

-- Where `PickContext` finds a connection, and the name and the password, each up to its first zero byte,
-- have at most 64 bytes together, `SelectUser` asks on this connection for the two, and returns the
-- user that the answer names: that of the last row, a number below 2^63 in decimal, or -1 if there
-- is no row or no answer.
pub select_user-Names :
    (exec : Option ℕ → List ℕ → Option (List (List ℕ))) (conns : List ℕ) (i j uid : ℕ)
    (c : Option ℕ) (name password : List ℕ)
    → pick_context conns i ≡ some (c, j)
    → length (c_str name) + length (c_str password) ≤ 64
    → Names (exec c (query name password)) uid
    → select_user exec conns i name password ≡ some (uid, j)
select_user-Names exec conns i j uid c name password p short h =
    elim (select_user_outcome exec conns i name password c j p) [
      | inl (long, _) ↦ absurd (omega arith)
      | inr (_, e) ↦ e ∙ ap (λ (u : ℕ). some (u, j)) (read_result-Names h)
    ]
