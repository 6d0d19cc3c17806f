-- ===== src/Server/Keys.antt =====
-- Which connections `GetConnection` can find.
use tiny_game_server.Base.{ℕ, ◌%◌, ◌^◌, ◌≤◌, ◌<◌, ◌≡◌, none, some, arith, Option-cases, inl, inr}
use tiny_game_server.Table.{Table, find, index}
use tiny_game_server.Table.Entries.{AllEntries, index-AllEntries}
use tiny_game_server.Server.{Server, get_connection}

-- No connection stands under a key of 32 bits.
abbrev pub NoLow : {V : Type 0} → Table V → Type 0
NoLow t = AllEntries (λ k c. 2 ^ 32 ≤ k) t

module _ {V : Type 0} where
  pub index-null : (k : ℕ) (t : Table V) → k < 2 ^ 32 → NoLow t → (index k t).0 ≡ none
  unfolding index
  index-null k t h n = elim (Option-cases (find k t)) [
    | inl e ↦ rw (e, index)
    | inr (none, e) ↦ rw (e, index)
    | inr (some c, e) ↦ absurd (omega (arith, n k c e))
  ]

-- While every connection stands under a key of more than 32 bits, `GetConnection` finds none of
-- them, whatever it is asked for, and no connection comes to stand under a shorter key.
pub get_connection-null :
    (id : ℕ) (s : Server)
    → NoLow s.connections
    → ((get_connection id s).0 ≡ none) × NoLow (get_connection id s).1.connections
unfolding get_connection
get_connection-null id s n = (
  index-null (id % 2 ^ 32) s.connections (omega arith) n,
  index-AllEntries (λ k c. 2 ^ 32 ≤ k) (id % 2 ^ 32) s.connections n,
)
