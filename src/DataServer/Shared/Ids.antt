-- ===== src/DataServer/Shared/Ids.antt =====
-- Ids, and the connections that stand under them.
use tiny_game_server.Base.{
  ℕ, ◌≡◌, sym, ap, ◌∙◌, ◌⊎◌, inl, inr, List, [], ◌∷◌, none, some, ◌==◌, if◌then◌else◌, ◌>>=◌,
  ==_iff, Bool-cases, Option-cases,
}
use tiny_game_server.Connection.{Connection}
use tiny_game_server.Connection.Session.{Session}
use tiny_game_server.Table.{Table, assign, erase, find, find-assign, find-erase}
use tiny_game_server.DataServer.Shared.{
  Shared, Event, accepts, arrives, ends, runs, opens_socket, connections, live, alone, session,
}

-- The times at which connections are accepted.
abbrev pub times : List Event → List ℕ
times [] = []
times (accepts now addr ∷ es) = now ∷ times es
times (arrives id x xs ∷ es) = times es
times (ends id ∷ es) = times es
times (runs answer ∷ es) = times es
times (opens_socket id answer ∷ es) = times es

abbrev pub IsIn : ℕ → List ℕ → Type 0
IsIn x [] = ⊥
IsIn x (y ∷ ys) = (x ≡ y) ⊎ IsIn x ys

-- No number stands twice.
abbrev pub AreApart : List ℕ → Type 0
AreApart [] = Unit {0}
AreApart (x ∷ xs) = (IsIn x xs → ⊥) × AreApart xs

pub not_some : {A : Type 0} {a : A} → none ≡ some a → ⊥
not_some e = cc e

-- A connection that is there.
abbrev pub IsLive : ℕ → Table Connection → Type 0
IsLive j t = (c : Connection) × (live j t ≡ some c)

pub session-IsLive :
    (j : ℕ) (s : Shared) (u : Session) → session j s ≡ some u → IsLive j (connections s)
unfolding session
session-IsLive j s u e = elim (Option-cases (live j (connections s))) [
  | inl z ↦ cc (ap (λ o. o >>= (λ c. some (alone j c s.pending))) z, e)
  | inr (c, z) ↦ (c, z)
]

pub assign-IsLive :
    (k j : ℕ) (c : Connection) (t : Table Connection)
    → IsLive j (assign k (some c) t)
    → (k ≡ j) ⊎ IsLive j t
unfolding live
assign-IsLive k j c t (d, e) = elim (Bool-cases (k == j)) [
  | inl y ↦ inl ((==_iff k j).0 y)
  | inr n ↦ inr (
    d,
    sym (
          ap (λ o. o >>= (λ x. x))
            (find-assign k j (some c) t ∙ ap (λ b. if b then some (some c) else find j t) n))
        ∙ e,
  )
]

pub erase-IsLive : (k j : ℕ) (t : Table Connection) → IsLive j (erase k t) → IsLive j t
unfolding live
erase-IsLive k j t (d, e) = elim (Bool-cases (k == j)) [
  | inl y ↦
      cc (ap (λ o. o >>= (λ x. x)) (find-erase k j t ∙ ap (λ b. if b then none else find j t) y), e)
  | inr n ↦ (
    d,
    sym (ap (λ o. o >>= (λ x. x)) (find-erase k j t ∙ ap (λ b. if b then none else find j t) n))
        ∙ e,
  )
]
