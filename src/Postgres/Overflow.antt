-- ===== src/Postgres/Overflow.antt =====
-- Logins whose query does not fit the array of `SelectUser`, at the data server.
use tiny_game_server.Base.{
  ℕ, ◌+◌, ◌-◌, ◌^◌, ◌≤◌, ◌<◌, ◌≡◌, refl, inl, inr, List, ◌∷◌, Option, none, some, arith, length,
}
use tiny_game_server.Bytes.{Host, hton}
use tiny_game_server.Buffer.{Buffer}
use tiny_game_server.Buffer.Invariant.{IsValid, size, contents}
use tiny_game_server.DataServer.{message}
use tiny_game_server.DataServer.Login.{login_bytes}
use tiny_game_server.DataServer.Message.{message_faults}
use tiny_game_server.Text.{c_str}
use tiny_game_server.Postgres.{pick_context, lookup}
use tiny_game_server.Postgres.Query.{select_user_outcome}

-- A login at the front of a valid buffer, with a length of 32 bits that, with its bytes in the order of
-- the host, is no more than what follows the tag, an id of 64 bits, and a name and a password shorter
-- than 2^32 bytes that have more than 64 bytes together, each up to its first zero byte, makes the
-- callback of the data server write outside an array, where `PickContext` finds a connection.
pub message_overruns :
    (exec : Option ℕ → List ℕ → Option (List (List ℕ))) (conns : List ℕ) (i : ℕ) (c : Option ℕ)
    (j : ℕ) (host : Host) (junk : ℕ → ℕ → ℕ) (b : Buffer) (len id : ℕ) (name pass rest : List ℕ)
    → pick_context conns i ≡ some (c, j)
    → IsValid b
    → len < 2 ^ 32
    → id < 2 ^ 64
    → length name < 2 ^ 32
    → length pass < 2 ^ 32
    → contents b ≡ b'l' ∷ login_bytes host junk len id name pass rest
    → hton host 4 len ≤ size b - 1
    → 64 < length (c_str name) + length (c_str pass)
    → message host junk (lookup exec conns i) b ≡ none
unfolding lookup
message_overruns exec conns i c j host junk b len id name pass rest p v hl hi hn hp e k long =
    message_faults host junk (lookup exec conns i) b len id name pass rest v hl hi hn hp e k fault
  where
    fault : lookup exec conns i name pass ≡ none
    fault = elim (select_user_outcome exec conns i name pass c j p) [
      | inl (_, q) ↦ rw q refl
      | inr (q, _) ↦ absurd (omega arith)
    ]
