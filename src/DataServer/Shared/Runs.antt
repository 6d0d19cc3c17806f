-- ===== src/DataServer/Shared/Runs.antt =====
-- A run of the shared loop is, for each connection, a run of that connection alone, from when it is
-- accepted.
use tiny_game_server.Base.{
  ℕ, ◌≡◌, refl, sym, ap, ◌∙◌, List, [], ◌∷◌, ◌++◌, Option, none, some, ◌>>=◌, Option-cases, inl,
  inr, subst,
}
use tiny_game_server.Bytes.{Host}
use tiny_game_server.Connection.Session.{Session}
use tiny_game_server.DataServer.Serve.{Input, take_inputs}
use tiny_game_server.DataServer.Shared.{
  Shared, Event, session, subject, part_of, newborn, born, IsShared, AllStay, take_event,
  take_events, projected, origin, AreNew,
}
use tiny_game_server.DataServer.Shared.Absent.{no_part, split_stay, born-IsBorn}
use tiny_game_server.Serial.{generate_all}
use tiny_game_server.DataServer.Shared.Ids.{IsIn}
use tiny_game_server.DataServer.Shared.Tracks.{new_ids-born, ids_next}
use tiny_game_server.DataServer.Shared.Distinct.{IsIn-append, all_ids, given}
use tiny_game_server.DataServer.Shared.Follows.{Succeeds, after, event-Follows}
use tiny_game_server.DataServer.Shared.Parts.{
  begins_with, projected_next, goes_on, origin_later, origin_now, new_now, new_later, IsKnown,
}

module _ (host : Host) (junk : ℕ → ℕ → ℕ) (select_user : List ℕ → List ℕ → Option ℕ)
    (stamp : ℕ → ℕ) where
  abbrev feed : List Input → Session → Option Session
  feed is u = take_inputs host junk select_user u is

  abbrev part : ℕ → Shared → List Event → List Input
  part j s es = projected host junk select_user stamp j s es

  abbrev first : ℕ → Shared → List Event → Option Session
  first j s es = origin host junk select_user stamp j s es

  -- One event more in front of a run.
  module _ (e : Event) (es : List Event) (s t : Shared) (h : IsShared s)
      (r : take_event host junk select_user stamp s e ≡ some t)
      (f : (j : ℕ)
        → session j t
          ≡ after host junk select_user
              (session j s)
              (part_of j (subject s e))
              (born j (newborn junk stamp s e)))
      (all : (j : ℕ) (u : Session)
        → first j s (e ∷ es) ≡ some u
        → IsKnown host junk select_user stamp j s u
        → Succeeds (feed (part j s (e ∷ es)) u)) where
    same_part : (j : ℕ) → session j s ≡ none → part j s (e ∷ es) ≡ part j t es
    same_part j q =
        projected_next host junk select_user stamp e es s t r j
        ∙ ap (λ is. is ++ part j t es) (no_part e s j h q)

    moved :
        (j : ℕ) (u : Session)
        → session j s ≡ some u
        → session j t ≡ feed (part_of j (subject s e)) u
    moved j u q =
        f j
        ∙ ap
            (λ o.
              after host junk select_user o (part_of j (subject s e))
                (born j (newborn junk stamp s e)))
            q

    whole :
        (j : ℕ)
        → (first j t es >>= feed (part j t es)) ≡ (first j s (e ∷ es) >>= feed (part j s (e ∷ es)))
    whole j = elim (Option-cases (session j s)) [
      | inl q ↦
          ap (λ is. first j t es >>= feed is) (sym (same_part j q))
          ∙ ap (λ o. o >>= feed (part j s (e ∷ es)))
              (sym (origin_later host junk select_user stamp e es s t r j q))
      | inr (u, q) ↦
          let there = origin_now host junk select_user stamp j (e ∷ es) s u q in
          let (v, w) = begins_with host junk select_user stamp e es s j u (all j u there (inl q)) in
          ap (λ o. o >>= feed (part j t es))
            (origin_now host junk select_user stamp j es t v (moved j u q ∙ w))
          ∙ ap (λ o. o >>= feed (part j t es)) (sym w)
          ∙ sym (goes_on host junk select_user stamp e es s t r j u)
          ∙ ap (λ o. o >>= feed (part j s (e ∷ es))) (sym there)
    ]

    -- What is known after the event was known before, if the connection is not of before.
    IsKnown-before :
        (j : ℕ) (v : Session)
        → session j s ≡ none
        → IsKnown host junk select_user stamp j t v
        → IsKnown host junk select_user stamp j s v
    IsKnown-before j v z (inr b) = inr b
    IsKnown-before j v z (inl q) = inr (
        born-IsBorn junk stamp e s j v (
          sym (
            ap
              (λ o.
                after host junk select_user o (part_of j (subject s e))
                  (born j (newborn junk stamp s e)))
              z)
          ∙ sym (f j)
          ∙ q))

    rest-Succeeds :
        (j : ℕ) (v : Session)
        → first j t es ≡ some v
        → IsKnown host junk select_user stamp j t v
        → Succeeds (feed (part j t es) v)
    rest-Succeeds j v q known =
        subst Succeeds (sym (whole j) ∙ ap (λ o. o >>= feed (part j t es)) q)
          (elim (Option-cases (session j s)) [
            | inl z ↦
                from v (origin_later host junk select_user stamp e es s t r j z ∙ q)
                  (IsKnown-before j v z known)
            | inr (u, z) ↦ from u (origin_now host junk select_user stamp j (e ∷ es) s u z) (inl z)
          ])
      where
        from :
            (u : Session)
            → first j s (e ∷ es) ≡ some u
            → IsKnown host junk select_user stamp j s u
            → Succeeds (first j s (e ∷ es) >>= feed (part j s (e ∷ es)))
        from u z known =
            subst (λ o. Succeeds (o >>= feed (part j s (e ∷ es)))) (sym z) (all j u z known)

    IsKnown-all :
        ((j : ℕ) (v : Session) → first j t es ≡ some v → IsKnown host junk select_user stamp j t v)
        → (j : ℕ) (u : Session) → first j s (e ∷ es) ≡ some u
        → IsKnown host junk select_user stamp j s u
    IsKnown-all g j u q = elim (Option-cases (session j s)) [
      | inl z ↦
          IsKnown-before j u z
            (g j u (sym (origin_later host junk select_user stamp e es s t r j z) ∙ q))
      | inr (v, z) ↦ inl (z ∙ sym (origin_now host junk select_user stamp j (e ∷ es) s v z) ∙ q)
    ]

    -- An id that is given out is that of a connection.
    given_all :
        ((j : ℕ)
          → IsIn j (all_ids host junk select_user stamp t es)
          → (u : Session) × (first j t es ≡ some u))
        → (j : ℕ) → IsIn j (all_ids host junk select_user stamp s (e ∷ es))
        → (u : Session) × (first j s (e ∷ es) ≡ some u)
    given_all g j i = elim (Option-cases (session j s)) [
      | inr (u, z) ↦ (u, origin_now host junk select_user stamp j (e ∷ es) s u z)
      | inl z ↦
          elim (IsIn-append j (given host junk select_user stamp s e)
            (all_ids host junk select_user stamp t es)
            (subst (IsIn j) (ids_next host junk select_user stamp s e es t r) i)) [
              | inl a ↦
                  let (u, b) = new_ids-born host junk select_user stamp s e j a in
                  (
                    u,
                    origin_later host junk select_user stamp e es s t r j z
                        ∙ origin_now host junk select_user stamp j es t u (
                            f j
                            ∙ ap
                                (λ o.
                                  after host junk select_user o (part_of j (subject s e))
                                    (born j (newborn junk stamp s e)))
                                z
                            ∙ b),
                  )
              | inr b ↦
                  let (u, q) = g j b in
                  (u, origin_later host junk select_user stamp e es s t r j z ∙ q)
            ]
    ]

  pub events-Follow :
      (es : List Event) (s : Shared)
      → IsShared s
      → AllStay es
      → AreNew host junk select_user stamp s es
      → ((j : ℕ) (u : Session)
          → first j s es ≡ some u
          → IsKnown host junk select_user stamp j s u
          → Succeeds (feed (part j s es) u))
      → (t : Shared) × (take_events host junk select_user stamp s es ≡ some t)
        × ((j : ℕ) → session j t ≡ (first j s es >>= feed (part j s es)))
        × ((j : ℕ) (u : Session)
            → first j s es ≡ some u
            → IsKnown host junk select_user stamp j s u)
        × ((j : ℕ)
            → IsIn j (all_ids host junk select_user stamp s es)
            → (u : Session) × (first j s es ≡ some u))
  unfolding generate_all take_events projected take_inputs origin
  events-Follow [] s h stay new all =
      (s, refl, λ j. same (session j s), λ j u e. inl e, λ j i. absurd i)
    where
      same : (o : Option Session) → o ≡ (o >>= (λ u. some u))
      same none = refl
      same (some u) = refl
  events-Follow (e ∷ es) s h stay new all =
      let (now, later) = split_stay e es stay in
      let (t, r, k, f) =
        event-Follows host junk select_user stamp s e h now
          (new_now host junk select_user stamp e es s new)
          (λ j u q.
            begins_with host junk select_user stamp e es s j u
              (all j u (origin_now host junk select_user stamp j (e ∷ es) s u q) (inl q))) in
      let (x, y, g, m, n) =
        events-Follow es t k later (new_later host junk select_user stamp e es s t new r)
          (rest-Succeeds e es s t h r f all) in
      (
        x,
        ap (λ o. o >>= (λ z. take_events host junk select_user stamp z es)) r ∙ y,
        λ j. g j ∙ whole e es s t h r f all j,
        IsKnown-all e es s t h r f all m,
        given_all e es s t h r f all n,
      )
