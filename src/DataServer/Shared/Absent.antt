-- ===== src/DataServer/Shared/Absent.antt =====
-- What the shared loop does not do to a connection that is not there.
use tiny_game_server.Base.{
  ℕ, ◌≡◌, refl, sym, ap, ◌∙◌, List, [], ◌∷◌, Option, none, some, Bool, ◌>>=◌, Option-cases, inl,
  inr, subst, ◌==◌, if◌then◌else◌, Bool-cases, ==_iff,
}
use tiny_game_server.Connection.{new_connection}
use tiny_game_server.Connection.Session.{Session}
use tiny_game_server.Serial.{generate}
use tiny_game_server.DataServer.Serve
use tiny_game_server.DataServer.Serve.{Input}
use tiny_game_server.DataServer.Shared.{
  Shared, Work, Event, accepts, arrives, ends, runs, opens_socket, connections, live, works_of,
  alone, session, input_of, for_live, subject, part_of, newborn, born, IsShared, AllStay,
}
use tiny_game_server.DataServer.Shared.Steps.{some_inj}
use tiny_game_server.DataServer.Shared.Follows.{live-session}

pub none_some : {A : Type 0} {a : A} → none ≡ some a → ⊥
none_some e = cc e

pub split_stay : (e : Event) (es : List Event) → AllStay (e ∷ es) → AllStay (e ∷ []) × AllStay es
split_stay (accepts now addr) es h = (tt, h)
split_stay (arrives k x xs) es h = (tt, h)
split_stay (ends k) es h = absurd h
split_stay (runs answer) es h = (tt, h)
split_stay (opens_socket k answer) es h = (tt, h)

for_part :
    (k : ℕ) (i : Input) (s : Shared) (j : ℕ) → session j s ≡ none → part_of j (for_live k i s) ≡ []
for_part k i s j q = elim (Option-cases (live k (connections s))) [
  | inl e ↦ ap (λ o. part_of j (o >>= (λ c. some (k, i)))) e
  | inr (c, e) ↦ ap (λ o. part_of j (o >>= (λ c. some (k, i)))) e ∙ (elim (Bool-cases (k == j)) [
    | inl y ↦ absurd (
        none_some (
          sym q
          ∙ subst (λ m. session m s ≡ some (alone k c s.pending)) ((==_iff k j).0 y)
              (live-session k s c e)))
    | inr n ↦ ap (λ b. if b then i ∷ [] else []) n
  ])
]

-- No event is of a connection that is not there.
pub no_part :
    (e : Event) (s : Shared) (j : ℕ)
    → IsShared s
    → session j s ≡ none
    → part_of j (subject s e) ≡ []
no_part (accepts now addr) s j h q = refl
no_part (arrives k x xs) s j h q = for_part k (Serve.arrives x xs) s j q
no_part (ends k) s j h q = refl
no_part (runs answer) s j h q = by_case s.pending (h.owned j q)
  where
    head : List (ℕ × Work) → Option (ℕ × Input)
    head ws = elim ws [ [] ↦ none | (k, w) ∷ more ↦ some (k, input_of w answer) ]

    by_case : (ws : List (ℕ × Work)) → works_of j ws ≡ [] → part_of j (head ws) ≡ []
    by_case [] e = refl
    by_case ((k, w) ∷ ws) e = elim (Bool-cases (k == j)) [
      | inl y ↦ cc e
      | inr n ↦ ap (λ b. if b then input_of w answer ∷ [] else []) n
    ]
no_part (opens_socket k answer) s j h q = for_part k (Serve.opens_socket answer) s j q

-- A new connection, with nothing to do.
abbrev pub IsBorn : (ℕ → ℕ → ℕ) → ℕ → Session → Type 0
IsBorn junk id u =
    (addr : List ℕ) × (u ≡ record { conn = new_connection junk addr id; pending = [] })

-- Only such connections are accepted.
pub born-IsBorn :
    (junk : ℕ → ℕ → ℕ) (stamp : ℕ → ℕ) (e : Event) (s : Shared) (j : ℕ) (u : Session)
    → born j (newborn junk stamp s e) ≡ some u
    → IsBorn junk j u
born-IsBorn junk stamp (accepts now addr) s j u e =
    let id : ℕ = (generate stamp now s.server.serial).0 in
    let v : Session = record { conn = new_connection junk addr id; pending = [] } in
    elim (Bool-cases (id == j)) [
      | inl y ↦ (
        addr,
        some_inj _ _ (sym e ∙ ap (λ b. if b then some v else none) y)
            ∙ ap (λ i. record { conn = new_connection junk addr i; pending = [] })
                ((==_iff id j).0 y),
      )
      | inr n ↦ absurd (none_some (sym (ap (λ (b : Bool). if b then some v else none) n) ∙ e))
    ]
born-IsBorn junk stamp (arrives k x xs) s j u e = absurd (none_some e)
born-IsBorn junk stamp (ends k) s j u e = absurd (none_some e)
born-IsBorn junk stamp (runs answer) s j u e = absurd (none_some e)
born-IsBorn junk stamp (opens_socket k answer) s j u e = absurd (none_some e)
