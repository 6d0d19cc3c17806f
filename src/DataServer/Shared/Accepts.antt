-- ===== src/DataServer/Shared/Accepts.antt =====
-- A connection that is accepted, in a server without workers.
use tiny_game_server.Base.{
  ℕ, ◌≡◌, refl, sym, ap, ◌∙◌, List, [], ◌∷◌, ◌++◌, Option, none, some, ◌==◌, if◌then◌else◌, ==_iff,
  append-nil, subst,
}
use tiny_game_server.Bytes.{Host}
use tiny_game_server.Connection.{new_connection}
use tiny_game_server.Connection.Session.{Session}
use tiny_game_server.Serial.{generate}
use tiny_game_server.Workers.{Manager, pick_event_loop}
use tiny_game_server.Server.{handle_new_conn}
use tiny_game_server.DataServer.Shared.{
  Shared, begins, accepts, works_of, tasks, posted, session, keep, IsShared, take_event,
}
use tiny_game_server.DataServer.Shared.Projects.{works_of-append, AllSend-append, Moves, keep-Moves}

-- The loop of the server is picked.
pick_single : (m : Manager) (i : ℕ) → m.threads ≡ [] → pick_event_loop m i ≡ some (m.loop, i)
unfolding pick_event_loop
pick_single m i e = rw (e, pick_event_loop) refl

module _ (host : Host) (junk : ℕ → ℕ → ℕ) (select_user : List ℕ → List ℕ → Option ℕ) (stamp : ℕ → ℕ)
    (now : ℕ) (addr : List ℕ) (s : Shared) where
  abbrev id : ℕ
  id = (generate stamp now s.server.serial).0

  -- The counters of the server moved on.
  abbrev counted : Shared
  counted = record s {
    server = record (s.server) { serial = (generate stamp now s.server.serial).1; posted = [] };
  }

  accepted :
      IsShared s
      → take_event host junk select_user stamp s (accepts now addr)
        ≡ some (keep id (new_connection junk addr id) (s.pending ++ ((id, begins) ∷ [])) counted)
  unfolding take_event handle_new_conn
  accepted h =
      rw (pick_single s.server.manager s.server.counter h.single, handle_new_conn, take_event)
        (ap
          (λ (l : List (ℕ × ℕ)). some (
            keep id (new_connection junk addr id)
              (s.pending ++ posted (l ++ ((s.server.manager.loop, id) ∷ []))) counted))
          h.handed)

  -- The new connection is there, under its id, and has no functors but the one that starts it.
  pub accepts-Moves :
      IsShared s
      → session id s ≡ none
      → Moves id
          (record { conn = new_connection junk addr id; pending = [] })
          s
          (take_event host junk select_user stamp s (accepts now addr))
  unfolding session
  accepts-Moves h gone =
      let u : Session = record { conn = new_connection junk addr id; pending = [] } in
      let k : IsShared counted = record {
        single = h.single;
        handed = refl;
        send = h.send;
        owned = h.owned;
      } in
      let parts : (j : ℕ)
          → works_of j (s.pending ++ ((id, begins) ∷ []))
            ≡ works_of j s.pending ++ (if id == j then begins ∷ [] else []) =
        λ j. works_of-append j s.pending ((id, begins) ∷ []) in
      subst (Moves id u s) (sym (accepted h)) (
        keep-Moves id (new_connection junk addr id) (s.pending ++ ((id, begins) ∷ [])) u counted k
          (AllSend-append s.pending ((id, begins) ∷ []) h.send tt)
          (λ j n.
            parts j
            ∙ ap (λ b. works_of j s.pending ++ (if b then begins ∷ [] else [])) n
            ∙ append-nil (works_of j s.pending))
          (ap (λ l. record u { pending = tasks l })
            (parts id
              ∙ ap (λ l. l ++ (if id == id then begins ∷ [] else [])) (h.owned id gone)
              ∙ ap (λ b. if b then begins ∷ [] else []) ((==_iff id id).1 refl))))
