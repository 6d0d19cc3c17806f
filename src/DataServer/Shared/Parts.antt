-- ===== src/DataServer/Shared/Parts.antt =====
-- The part of a schedule that is of one connection, and the same without its first event.
use tiny_game_server.Base.{
  ℕ, ◌≡◌, refl, sym, ap, ◌∙◌, List, [], ◌∷◌, ◌++◌, Option, none, some, ◌>>=◌, ◌⊎◌, subst,
}
use tiny_game_server.Bytes.{Host}
use tiny_game_server.Connection.Session.{Session}
use tiny_game_server.DataServer.Serve.{Input, take_inputs}
use tiny_game_server.DataServer.Serve.Logins.{take_inputs-append}
use tiny_game_server.DataServer.Shared.{
  Shared, Event, session, subject, part_of, newborn, born, take_event, projected, origin, AreNew,
}
use tiny_game_server.DataServer.Shared.Absent.{none_some, IsBorn}
use tiny_game_server.DataServer.Shared.Follows.{Succeeds}

-- The first part of a run that succeeds does.
bind-Succeeds :
    (r : Option Session) (f : Session → Option Session) → Succeeds (r >>= f) → Succeeds r
bind-Succeeds none f (v, e) = absurd (none_some e)
bind-Succeeds (some u) f h = (u, refl)

module _ (host : Host) (junk : ℕ → ℕ → ℕ) (select_user : List ℕ → List ℕ → Option ℕ)
    (stamp : ℕ → ℕ) where
  abbrev pub feed : List Input → Session → Option Session
  feed is u = take_inputs host junk select_user u is

  abbrev pub part : ℕ → Shared → List Event → List Input
  part j s es = projected host junk select_user stamp j s es

  abbrev pub first : ℕ → Shared → List Event → Option Session
  first j s es = origin host junk select_user stamp j s es

  -- What a connection is first.
  abbrev pub IsKnown : ℕ → Shared → Session → Type 0
  IsKnown j s u = (session j s ≡ some u) ⊎ IsBorn junk j u

  module _ (e : Event) (es : List Event) (s : Shared) where
    pub begins_with :
        (j : ℕ) (u : Session)
        → Succeeds (feed (part j s (e ∷ es)) u)
        → Succeeds (feed (part_of j (subject s e)) u)
    unfolding projected
    begins_with j u (v, w) =
        bind-Succeeds _ _
          (v, sym (take_inputs-append host junk select_user 0 u (part_of j (subject s e)) _) ∙ w)

    module _ (t : Shared) (r : take_event host junk select_user stamp s e ≡ some t) where
      pub projected_next : (j : ℕ) → part j s (e ∷ es) ≡ part_of j (subject s e) ++ part j t es
      unfolding projected
      projected_next j =
          ap (λ o. part_of j (subject s e) ++ (elim o [ none ↦ [] | some x ↦ part j x es ])) r

      -- What a connection makes of its part of the schedule, after the event and before.
      pub goes_on :
          (j : ℕ) (u : Session)
          → feed (part j s (e ∷ es)) u ≡ (feed (part_of j (subject s e)) u >>= feed (part j t es))
      goes_on j u =
          ap (λ is. feed is u) (projected_next j)
          ∙ take_inputs-append host junk select_user 0 u (part_of j (subject s e)) (part j t es)

      pub origin_later : (j : ℕ) → session j s ≡ none → first j s (e ∷ es) ≡ first j t es
      unfolding origin
      origin_later j q = rw (q, r, origin) refl

  pub origin_now :
      (j : ℕ) (es : List Event) (s : Shared) (u : Session)
      → session j s ≡ some u
      → first j s es ≡ some u
  unfolding origin
  origin_now j [] s u q = q
  origin_now j (e ∷ es) s u q = rw (q, origin) refl

  pub new_now :
      (e : Event) (es : List Event) (s : Shared)
      → AreNew host junk select_user stamp s (e ∷ es)
      → (id : ℕ) (u v : Session) → born id (newborn junk stamp s e) ≡ some u
      → session id s ≡ some v
      → ⊥
  unfolding AreNew
  new_now e es s n = n.0

  pub new_later :
      (e : Event) (es : List Event) (s t : Shared)
      → AreNew host junk select_user stamp s (e ∷ es)
      → take_event host junk select_user stamp s e ≡ some t
      → AreNew host junk select_user stamp t es
  unfolding AreNew
  new_later e es s t n r =
      subst
        (λ o. elim o as (λ x. Type 0) [
          | none ↦ Unit {0}
          | some x ↦ AreNew host junk select_user stamp x es
        ])
        r n.1
