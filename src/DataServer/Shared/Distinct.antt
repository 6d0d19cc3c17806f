-- ===== src/DataServer/Shared/Distinct.antt =====
-- Ids that differ from each other are given out to no connection that is there.
use tiny_game_server.Base.{
  ℕ, ◌<◌, ◌≡◌, refl, sym, ◌∙◌, ◌⊎◌, inl, inr, List, [], ◌∷◌, ◌++◌, Option, none, some, Option-cases,
  subst, arith,
}
use tiny_game_server.Bytes.{Host}
use tiny_game_server.Connection.Session.{Session}
use tiny_game_server.Serial.Unique.{Rises}
use tiny_game_server.DataServer.Shared.{
  Shared, Event, connections, session, newborn, born, take_event, origin, AreNew,
}
use tiny_game_server.DataServer.Shared.Ids.{IsIn, AreApart, IsLive, session-IsLive}
use tiny_game_server.DataServer.Shared.Tracks.{
  new_ids, ids, tracked, ids_split, ids_next, born-new_ids,
}

Rises-IsIn : (low x : ℕ) (xs : List ℕ) → Rises low xs → IsIn x xs → low < x
Rises-IsIn low x [] h i = absurd i
Rises-IsIn low x (y ∷ ys) h (inl e) = omega (arith, h.0)
Rises-IsIn low x (y ∷ ys) h (inr i) = omega (arith, h.0, Rises-IsIn y x ys h.1 i)

pub Rises-AreApart : (low : ℕ) (xs : List ℕ) → Rises low xs → AreApart xs
Rises-AreApart low [] h = tt
Rises-AreApart low (x ∷ xs) h =
    ((λ i. absurd (omega (arith, Rises-IsIn x x xs h.1 i))), Rises-AreApart x xs h.1)

pub IsIn-left : (x : ℕ) (xs ys : List ℕ) → IsIn x xs → IsIn x (xs ++ ys)
IsIn-left x [] ys i = absurd i
IsIn-left x (z ∷ xs) ys (inl e) = inl e
IsIn-left x (z ∷ xs) ys (inr i) = inr (IsIn-left x xs ys i)

pub IsIn-right : (x : ℕ) (xs ys : List ℕ) → IsIn x ys → IsIn x (xs ++ ys)
IsIn-right x [] ys i = i
IsIn-right x (z ∷ xs) ys i = inr (IsIn-right x xs ys i)

pub IsIn-append : (x : ℕ) (xs ys : List ℕ) → IsIn x (xs ++ ys) → IsIn x xs ⊎ IsIn x ys
IsIn-append x [] ys i = inr i
IsIn-append x (z ∷ xs) ys (inl e) = inl (inl e)
IsIn-append x (z ∷ xs) ys (inr i) = elim (IsIn-append x xs ys i) [
  | inl a ↦ inl (inr a)
  | inr b ↦ inr b
]

AreApart-append :
    (xs ys : List ℕ) → AreApart (xs ++ ys) → AreApart ys × ((x : ℕ) → IsIn x xs → IsIn x ys → ⊥)
AreApart-append [] ys h = (h, λ x i j. i)
AreApart-append (z ∷ xs) ys h = let (a, d) = AreApart-append xs ys h.1 in (a, apart d)
  where
    apart : ((x : ℕ) → IsIn x xs → IsIn x ys → ⊥) → (x : ℕ) → IsIn x (z ∷ xs) → IsIn x ys → ⊥
    apart d x (inl e) j = h.0 (IsIn-right z xs ys (subst (λ y. IsIn y ys) e j))
    apart d x (inr i) j = d x i j

module _ (host : Host) (junk : ℕ → ℕ → ℕ) (select_user : List ℕ → List ℕ → Option ℕ)
    (stamp : ℕ → ℕ) where
  abbrev pub all_ids : Shared → List Event → List ℕ
  all_ids s es = ids host junk select_user stamp s es

  abbrev pub given : Shared → Event → List ℕ
  given s e = new_ids host junk select_user stamp s e

  pub AreApart-AreNew :
      (es : List Event) (s : Shared) (held : List ℕ)
      → ((j : ℕ) → IsLive j (connections s) → IsIn j held)
      → ((j : ℕ) → IsIn j held → IsIn j (all_ids s es) → ⊥)
      → AreApart (all_ids s es)
      → AreNew host junk select_user stamp s es
  unfolding AreNew
  AreApart-AreNew [] s held live new apart = tt
  AreApart-AreNew (e ∷ es) s held live new apart =
      elim (Option-cases (take_event host junk select_user stamp s e)) [
        | inl q ↦ (now, rw q tt)
        | inr (t, q) ↦
            let next = ids_next host junk select_user stamp s e es t q in
            let (rest, others) =
              AreApart-append (given s e) (all_ids t es) (subst AreApart next apart) in
            let track = tracked host junk select_user stamp s e t q in
            let later : AreNew host junk select_user stamp t es =
              AreApart-AreNew es t (given s e ++ held)
                (λ j l. elim (track.lives j l) [
                  | inl m ↦ IsIn-right j (given s e) held (live j m)
                  | inr i ↦ IsIn-left j (given s e) held i
                ])
                (λ j i k. elim (IsIn-append j (given s e) held i) [
                  | inl a ↦ others j a k
                  | inr b ↦
                      new j b
                        (subst (IsIn j) (sym next) (IsIn-right j (given s e) (all_ids t es) k))
                ])
                rest in
            (now, rw q later)
      ]
    where
      now :
          (id : ℕ) (u v : Session)
          → born id (newborn junk stamp s e) ≡ some u
          → session id s ≡ some v
          → ⊥
      now id u v b q = new id (live id (session-IsLive id s v q)) (
          subst (IsIn id) (sym (ids_split host junk select_user stamp s e es))
            (IsIn-left id (given s e) _ (born-new_ids host junk select_user stamp s e id u b)))

  abbrev first : ℕ → Shared → List Event → Option Session
  first j s es = origin host junk select_user stamp j s es

  -- A connection is there at first, or an id is given out to it.
  pub origin-IsIn :
      (es : List Event) (s : Shared) (held : List ℕ)
      → ((j : ℕ) → IsLive j (connections s) → IsIn j held)
      → (j : ℕ) (u : Session) → first j s es ≡ some u
      → IsIn j held ⊎ IsIn j (all_ids s es)
  unfolding origin
  origin-IsIn [] s held live j u q = inl (live j (session-IsLive j s u q))
  origin-IsIn (e ∷ es) s held live j u q = elim (Option-cases (session j s)) [
    | inr (v, z) ↦ inl (live j (session-IsLive j s v z))
    | inl z ↦ elim (Option-cases (take_event host junk select_user stamp s e)) [
      | inl r ↦ let fails : first j s (e ∷ es) ≡ none = rw (z, r, origin) refl in cc (fails, q)
      | inr (t, r) ↦
          let goes : first j s (e ∷ es) ≡ first j t es = rw (z, r, origin) refl in
          let next = ids_next host junk select_user stamp s e es t r in
          let track = tracked host junk select_user stamp s e t r in
          let here : IsIn j (given s e) → IsIn j held ⊎ IsIn j (all_ids s (e ∷ es)) =
            λ a. inr (subst (IsIn j) (sym next) (IsIn-left j (given s e) (all_ids t es) a)) in
          elim (origin-IsIn es t (given s e ++ held)
            (λ i l. elim (track.lives i l) [
              | inl m ↦ IsIn-right i (given s e) held (live i m)
              | inr a ↦ IsIn-left i (given s e) held a
            ])
            j u (sym goes ∙ q)) [
              | inl i ↦ elim (IsIn-append j (given s e) held i) [ inl a ↦ here a | inr b ↦ inl b ]
              | inr i ↦ inr (subst (IsIn j) (sym next) (IsIn-right j (given s e) (all_ids t es) i))
            ]
    ]
  ]
