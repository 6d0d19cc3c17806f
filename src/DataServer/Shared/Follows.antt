-- ===== src/DataServer/Shared/Follows.antt =====
-- What one event of the shared loop is to each of the connections.
use tiny_game_server.Base.{
  ℕ, ◌≡◌, refl, sym, ap, ◌∙◌, List, [], ◌∷◌, Option, none, some, Bool, ◌==◌, if◌then◌else◌, ◌>>=◌,
  Option-cases, Bool-cases, inl, inr, arith, ==_iff, subst, length,
}
use tiny_game_server.Bytes.{Host}
use tiny_game_server.Connection.{Connection, new_connection}
use tiny_game_server.Connection.Session.{Session}
use tiny_game_server.DataServer.Serve
use tiny_game_server.DataServer.Serve.{Input, take_input, take_inputs}
use tiny_game_server.Serial.{generate}
use tiny_game_server.Server.{Server}
use tiny_game_server.DataServer.Shared.{
  Shared, Work, Event, accepts, arrives, ends, runs, opens_socket, connections, live, alone,
  session, subject, input_of, part_of, newborn, born, IsShared, AllStay, take_event,
}
use tiny_game_server.DataServer.Shared.Projects.{Moves}
use tiny_game_server.DataServer.Shared.Steps.{
  works_of_head, arrives-IsMove, opens_socket-IsMove, runs-IsMove,
}
use tiny_game_server.DataServer.Shared.Accepts.{accepts-Moves}

-- No fault.
abbrev pub Succeeds : Option Session → Type 0
Succeeds r = (v : Session) × (r ≡ some v)

pub live-session :
    (k : ℕ) (s : Shared) (c : Connection)
    → live k (connections s) ≡ some c
    → session k s ≡ some (alone k c s.pending)
unfolding session
live-session k s c e = rw e refl

dead_session : (k : ℕ) (s : Shared) → live k (connections s) ≡ none → session k s ≡ none
unfolding session
dead_session k s e = rw e refl

module _ (host : Host) (junk : ℕ → ℕ → ℕ) (select_user : List ℕ → List ℕ → Option ℕ) where
  -- A session that is there takes inputs; another one may be born.
  abbrev pub after : Option Session → List Input → Option Session → Option Session
  after none is b = b
  after (some u) is b = take_inputs host junk select_user u is

  -- The state after an event, which is `p` to a connection and bears `b`.
  abbrev pub Follows : Shared → Option (ℕ × Input) → Option (ℕ × Session) → Option Shared → Type 0
  Follows s p b r =
      (t : Shared) × (r ≡ some t)
      × IsShared t
      × ((j : ℕ) → session j t ≡ after (session j s) (part_of j p) (born j b))

  -- Each connection takes its part.
  abbrev pub AllTake : Shared → Option (ℕ × Input) → Type 0
  AllTake s p =
      (j : ℕ) (u : Session)
      → session j s ≡ some u
      → Succeeds (take_inputs host junk select_user u (part_of j p))

  after_nothing : (o : Option Session) → o ≡ after o [] none
  unfolding take_inputs
  after_nothing none = refl
  after_nothing (some u) = refl

  nothing-Follows :
      (s : Shared) (r : Option Shared) → IsShared s → r ≡ some s → Follows s none none r
  nothing-Follows s r h e = (s, e, h, λ j. after_nothing (session j s))

  -- A new connection, under an id that is of no other.
  birth-Follows :
      (id : ℕ) (u : Session) (s : Shared) (r : Option Shared)
      → session id s ≡ none
      → Moves id u s r
      → Follows s none (some (id, u)) r
  birth-Follows id u s r e (t, q, h, f) = (
    t,
    q,
    h,
    λ j. elim (Bool-cases (id == j)) [
      | inl y ↦
          let gone : session j s ≡ none = subst (λ m. session m s ≡ none) ((==_iff id j).0 y) e in
          f j
          ∙ ap (λ b. if b then some u else session j s) y
          ∙ sym (ap (λ o. after o [] (born j (some (id, u)))) gone ∙ ap (λ b. born_if b u) y)
      | inr n ↦
          f j
          ∙ ap (λ b. if b then some u else session j s) n
          ∙ after_nothing (session j s)
          ∙ ap (λ b. after (session j s) [] (born_if b u)) (sym n)
    ],
  )
    where
      born_if : Bool → Session → Option Session
      born_if b u = if b then some u else none

  own_input :
      (k : ℕ) (i : Input) (u : Session)
      → take_inputs host junk select_user u (part_of k (some (k, i)))
        ≡ take_input host junk select_user u i
  unfolding take_inputs
  own_input k i u =
      ap (λ b. take_inputs host junk select_user u (if b then i ∷ [] else [])) ((==_iff k k).1 refl)
      ∙ bind_some (take_input host junk select_user u i)
    where
      bind_some : (r : Option Session) → (r >>= (λ v. some v)) ≡ r
      bind_some none = refl
      bind_some (some v) = refl

  -- An event of a connection that is there.
  live-Follows :
      (k : ℕ) (i : Input) (c : Connection) (s : Shared) (r : Option Shared)
      → live k (connections s) ≡ some c
      → ((v : Session)
          → take_input host junk select_user (alone k c s.pending) i ≡ some v
          → Moves k v s r)
      → AllTake s (some (k, i))
      → Follows s (some (k, i)) none r
  live-Follows k i c s r e m all =
      let u : Session = alone k c s.pending in
      let (v, q) = all k u (live-session k s c e) in
      let (t, w, h, f) = m v (sym (own_input k i u) ∙ q) in
      (
        t,
        w,
        h,
        λ j. elim (Bool-cases (k == j)) [
          | inl y ↦
              f j
              ∙ ap (λ b. if b then some v else session j s) y
              ∙ subst (λ x. some v ≡ after (session x s) (part_of x (some (k, i))) none)
                  ((==_iff k j).0 y)
                  (sym
                    (ap (λ o. after o (part_of k (some (k, i))) none) (live-session k s c e) ∙ q))
          | inr n ↦
              f j
              ∙ ap (λ b. if b then some v else session j s) n
              ∙ after_nothing (session j s)
              ∙ ap (λ b. after (session j s) (if b then i ∷ [] else []) none) (sym n)
        ],
      )

  -- For a connection that may be destroyed.
  for-Follows :
      (k : ℕ) (i : Input) (s : Shared) (r : Option Shared)
      → IsShared s
      → (live k (connections s) ≡ none → r ≡ some s)
      → ((c : Connection) (v : Session)
          → live k (connections s) ≡ some c
          → take_input host junk select_user (alone k c s.pending) i ≡ some v
          → Moves k v s r)
      → AllTake s (live k (connections s) >>= (λ c. some (k, i)))
      → Follows s (live k (connections s) >>= (λ c. some (k, i))) none r
  for-Follows k i s r h idle m all = elim (Option-cases (live k (connections s))) [
    | inl e ↦
        subst (λ p. Follows s p none r) (sym (ap (λ o. o >>= (λ c. some (k, i))) e))
          (nothing-Follows s r h (idle e))
    | inr (c, e) ↦
        let q = ap (λ o. o >>= (λ c. some (k, i))) e in
        subst (λ p. Follows s p none r) (sym q)
          (live-Follows k i c s r e (λ v. m c v e) (subst (AllTake s) q all))
  ]

  module _ (stamp : ℕ → ℕ) where
    runs-Follows :
        (answer : Option ℕ) (server : Server) (ws : List (ℕ × Work))
        → let s : Shared = record { server = server; pending = ws } in
          IsShared s
          → AllTake s (subject s (runs answer))
          → Follows s
              (subject s (runs answer))
              none
              (take_event host junk select_user stamp s (runs answer))
    unfolding take_event
    runs-Follows answer server [] h all =
        nothing-Follows (record { server = server; pending = [] }) _ h refl
    runs-Follows answer server ((k, w) ∷ ws) h all =
        let s : Shared = record { server = server; pending = (k, w) ∷ ws } in
        elim (Option-cases (live k (connections s))) [
          | inl e ↦ absurd (
              omega (
                arith,
                ap length (works_of_head k w ws),
                ap length (h.owned k (dead_session k s e)),
              ))
          | inr (c, e) ↦
              live-Follows k (input_of w answer) c s _ e
                (λ v. runs-IsMove host junk select_user stamp k c v w ws answer server h e) all
        ]

    pub event-Follows :
        (s : Shared) (e : Event)
        → IsShared s
        → AllStay (e ∷ [])
        → ((id : ℕ) (u v : Session)
            → born id (newborn junk stamp s e) ≡ some u
            → session id s ≡ some v
            → ⊥)
        → AllTake s (subject s e)
        → Follows s
            (subject s e)
            (newborn junk stamp s e)
            (take_event host junk select_user stamp s e)
    unfolding take_event
    event-Follows s (accepts now addr) h stay new all =
        let id : ℕ = (generate stamp now s.server.serial).0 in
        let u : Session = record { conn = new_connection junk addr id; pending = [] } in
        let gone : session id s ≡ none = elim (Option-cases (session id s)) [
          | inl e ↦ e
          | inr (v, e) ↦
              absurd (new id u v (ap (λ b. if b then some u else none) ((==_iff id id).1 refl)) e)
        ] in
        birth-Follows id u s _ gone (accepts-Moves host junk select_user stamp now addr s h gone)
    event-Follows s (arrives k x xs) h stay new all =
        for-Follows k (Serve.arrives x xs) s _ h (λ e. rw (e, take_event) refl)
          (λ c v e. arrives-IsMove host junk select_user stamp k c v x xs s h e) all
    event-Follows s (ends k) h stay new all = absurd stay
    event-Follows s (runs answer) h stay new all = runs-Follows answer s.server s.pending h all
    event-Follows s (opens_socket k answer) h stay new all =
        for-Follows k (Serve.opens_socket answer) s _ h (λ e. rw (e, take_event) refl)
          (λ c v e. opens_socket-IsMove host junk select_user stamp k c v answer s h e) all
