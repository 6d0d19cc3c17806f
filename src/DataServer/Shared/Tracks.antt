-- ===== src/DataServer/Shared/Tracks.antt =====
-- Which connections the data server holds after an event: those that it held, and one whose id
-- `GenerateSerialID` gave out.
use tiny_game_server.Base.{
  ℕ, ◌≡◌, refl, sym, ap, ◌∙◌, ◌⊎◌, inl, inr, List, [], ◌∷◌, ◌++◌, Option, none, some, Bool, ◌==◌,
  if◌then◌else◌, ==_iff, Bool-cases, Option-cases, Allows, bind-Allows, Allows-some, subst,
}
use tiny_game_server.Bytes.{Host}
use tiny_game_server.Connection.{
  Connection, sends, closes, new_connection, handle_read, write_event,
}
use tiny_game_server.Connection.Session.{Session}
use tiny_game_server.Serial.{Serial, generate, generate_all}
use tiny_game_server.Workers.{pick_event_loop}
use tiny_game_server.Server.{Server, handle_new_conn, close_callback}
use tiny_game_server.DataServer.Serve
use tiny_game_server.DataServer.Serve.{take_input}
use tiny_game_server.DataServer.Shared.{
  Shared, Work, begins, does, Event, accepts, arrives, ends, runs, opens_socket, connections, live,
  tagged, keep, run_work, after_work, newborn, born, take_event,
}
use tiny_game_server.DataServer.Shared.Ids.{
  times, IsIn, IsLive, not_some, assign-IsLive, erase-IsLive,
}

module _ (host : Host) (junk : ℕ → ℕ → ℕ) (select_user : List ℕ → List ℕ → Option ℕ)
    (stamp : ℕ → ℕ) where
  -- The id that an event gives out, and the counters after it.
  abbrev pub new_ids : Shared → Event → List ℕ
  new_ids s (accepts now addr) = (generate stamp now s.server.serial).0 ∷ []
  new_ids s (arrives id x xs) = []
  new_ids s (ends id) = []
  new_ids s (runs answer) = []
  new_ids s (opens_socket id answer) = []

  abbrev pub next_serial : Shared → Event → Serial
  next_serial s (accepts now addr) = (generate stamp now s.server.serial).1
  next_serial s (arrives id x xs) = s.server.serial
  next_serial s (ends id) = s.server.serial
  next_serial s (runs answer) = s.server.serial
  next_serial s (opens_socket id answer) = s.server.serial

  -- The ids of all events to come.
  abbrev pub ids : Shared → List Event → List ℕ
  ids s es = generate_all stamp (times es) s.server.serial

  pub record Tracks (s : Shared) (e : Event) (t : Shared) : Type 0 where
    pub serial : t.server.serial ≡ next_serial s e
    pub lives : (j : ℕ) → IsLive j (connections t) → IsLive j (connections s) ⊎ IsIn j (new_ids s e)

  keep-lives :
      (k : ℕ) (c d : Connection) (ps : List (ℕ × Work)) (s : Shared)
      → live k (connections s) ≡ some c
      → (j : ℕ) → IsLive j (connections (keep k d ps s))
      → IsLive j (connections s)
  keep-lives k c d ps s e j l = elim (assign-IsLive k j d (connections s) l) [
    | inl q ↦ subst (λ m. IsLive m (connections s)) q (c, e)
    | inr m ↦ m
  ]

  after_work-Tracks :
      (k : ℕ) (w : Work) (c d : Connection) (ps : List (ℕ × Work)) (s : Shared) (answer : Option ℕ)
      → live k (connections s) ≡ some c
      → Tracks s (runs answer) (after_work k w d ps s)
  after_work-Tracks k begins c d ps s answer e = record {
    serial = refl;
    lives = λ j l. inl (keep-lives k c d ps s e j l);
  }
  after_work-Tracks k (does (sends b)) c d ps s answer e = record {
    serial = refl;
    lives = λ j l. inl (keep-lives k c d ps s e j l);
  }
  after_work-Tracks k (does closes) c d ps s answer e = record {
    serial = refl;
    lives = λ j l. inl (erase-IsLive k j (connections s) l);
  }

  runs-Tracks :
      (answer : Option ℕ) (server : Server) (ps : List (ℕ × Work))
      → let s : Shared = record { server = server; pending = ps } in
        Allows (Tracks s (runs answer)) (take_event host junk select_user stamp s (runs answer))
  unfolding take_event
  runs-Tracks answer server [] = record { serial = refl; lives = λ j l. inl l }
  runs-Tracks answer server ((k, w) ∷ ws) =
      let s : Shared = record { server = server; pending = (k, w) ∷ ws } in
      elim (Option-cases (live k server.connections)) [
        | inl e ↦ rw (e, take_event) tt
        | inr (c, e) ↦
            rw (e, take_event)
              (bind-Allows (Tracks s (runs answer)) (run_work w c answer) _
                λ d. after_work-Tracks k w c d ws s answer e)
      ]

  pub take_event-Tracks :
      (s : Shared) (e : Event) → Allows (Tracks s e) (take_event host junk select_user stamp s e)
  unfolding take_event handle_new_conn
  take_event-Tracks s (accepts now addr) =
      elim (Option-cases (pick_event_loop s.server.manager s.server.counter)) [
        | inl e ↦ rw (e, handle_new_conn, take_event) tt
        | inr ((loop, i), e) ↦
            let id : ℕ = (generate stamp now s.server.serial).0 in
            rw (e, handle_new_conn, take_event)
              (record {
                serial = refl;
                lives = λ j l.
                    elim (assign-IsLive id j (new_connection junk addr id) (connections s) l) [
                      | inl q ↦ inr (inl (sym q))
                      | inr m ↦ inl m
                    ];
              })
      ]
  take_event-Tracks s (arrives k x xs) = elim (Option-cases (live k (connections s))) [
    | inl e ↦ rw (e, take_event) (record { serial = refl; lives = λ j l. inl l })
    | inr (c, e) ↦
        rw (e, take_event)
          (bind-Allows (Tracks s (arrives k x xs))
            (take_input host junk select_user (record { conn = c; pending = [] })
              (Serve.arrives x xs))
            _
            λ u. record {
              serial = refl;
              lives = λ j l. inl (keep-lives k c u.conn (s.pending ++ tagged k u.pending) s e j l);
            })
  ]
  take_event-Tracks s (ends k) = elim (Option-cases (live k (connections s))) [
    | inl e ↦ rw (e, take_event) (record { serial = refl; lives = λ j l. inl l })
    | inr (c, e) ↦
        rw (e, take_event)
          (bind-Allows (Tracks s (ends k)) (handle_read none (close_callback none) c (some [])) _
            λ d. record { serial = refl; lives = λ j l. inl (erase-IsLive k j (connections s) l) })
  ]
  take_event-Tracks s (runs answer) = runs-Tracks answer s.server s.pending
  take_event-Tracks s (opens_socket k answer) = elim (Option-cases (live k (connections s))) [
    | inl e ↦ rw (e, take_event) (record { serial = refl; lives = λ j l. inl l })
    | inr (c, e) ↦
        rw (e, take_event)
          (bind-Allows (Tracks s (opens_socket k answer)) (write_event c answer) _
            λ d. record { serial = refl; lives = λ j l. inl (keep-lives k c d s.pending s e j l) })
  ]

  pub ids_split :
      (s : Shared) (e : Event) (es : List Event)
      → ids s (e ∷ es) ≡ new_ids s e ++ generate_all stamp (times es) (next_serial s e)
  unfolding generate_all
  ids_split s (accepts now addr) es = refl
  ids_split s (arrives k x xs) es = refl
  ids_split s (ends k) es = refl
  ids_split s (runs answer) es = refl
  ids_split s (opens_socket k answer) es = refl

  pub tracked :
      (s : Shared) (e : Event) (t : Shared)
      → take_event host junk select_user stamp s e ≡ some t
      → Tracks s e t
  tracked s e t r = Allows-some (Tracks s e) _ t (take_event-Tracks s e) r

  -- The ids that an event gives out come before those of the events after it.
  pub ids_next :
      (s : Shared) (e : Event) (es : List Event) (t : Shared)
      → take_event host junk select_user stamp s e ≡ some t
      → ids s (e ∷ es) ≡ new_ids s e ++ ids t es
  ids_next s e es t r =
      ids_split s e es
      ∙ ap (λ x. new_ids s e ++ generate_all stamp (times es) x) (sym (tracked s e t r).serial)

  -- A new connection stands under an id that the event gives out.
  pub born-new_ids :
      (s : Shared) (e : Event) (j : ℕ) (u : Session)
      → born j (newborn junk stamp s e) ≡ some u
      → IsIn j (new_ids s e)
  born-new_ids s (accepts now addr) j u e =
      let id : ℕ = (generate stamp now s.server.serial).0 in
      let v : Session = record { conn = new_connection junk addr id; pending = [] } in
      elim (Bool-cases (id == j)) [
        | inl y ↦ inl (sym ((==_iff id j).0 y))
        | inr n ↦ absurd (not_some (sym (ap (λ (b : Bool). if b then some v else none) n) ∙ e))
      ]
  born-new_ids s (arrives k x xs) j u e = absurd (not_some e)
  born-new_ids s (ends k) j u e = absurd (not_some e)
  born-new_ids s (runs answer) j u e = absurd (not_some e)
  born-new_ids s (opens_socket k answer) j u e = absurd (not_some e)

  pub new_ids-born :
      (s : Shared) (e : Event) (j : ℕ)
      → IsIn j (new_ids s e)
      → (u : Session) × (born j (newborn junk stamp s e) ≡ some u)
  new_ids-born s (accepts now addr) j (inl e) =
      let id : ℕ = (generate stamp now s.server.serial).0 in
      let v : Session = record { conn = new_connection junk addr id; pending = [] } in
      (v, ap (λ (b : Bool). if b then some v else none) ((==_iff id j).1 (sym e)))
  new_ids-born s (accepts now addr) j (inr e) = absurd e
  new_ids-born s (arrives k x xs) j e = absurd e
  new_ids-born s (ends k) j e = absurd e
  new_ids-born s (runs answer) j e = absurd e
  new_ids-born s (opens_socket k answer) j e = absurd e
