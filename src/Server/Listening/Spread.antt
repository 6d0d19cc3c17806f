-- ===== src/Server/Listening/Spread.antt =====
-- The connections that a listening server accepts: their loops, their ids and their entries.
use tiny_game_server.Base.{
  ℕ, suc, ◌≡◌, refl, sym, ap, ◌∙◌, List, [], ◌∷◌, ◌++◌, Option, none, some, ◌>>=◌, length,
  append_assoc, append-nil,
}
use tiny_game_server.Text.{c_str}
use tiny_game_server.Connection.{Connection, new_connection}
use tiny_game_server.Serial.{Serial, tick, generate, generate_all}
use tiny_game_server.Table.{Table, assign}
use tiny_game_server.Workers.{Manager, pick_event_loop, picks}
use tiny_game_server.Sockets.{makes_nonblocking, keeps_alive}
use tiny_game_server.Sockets.{makes_nonblocking, keeps_alive}
use tiny_game_server.Acceptor.{Accepted, handle_accept}
use tiny_game_server.Server.{handle_new_conn}
use tiny_game_server.Server.Listening.{Listening, on_accept, on_accepts}

-- The answers of `accept` that are connections: their times, and how many they are.
abbrev pub times : List (ℕ × Option Accepted) → List ℕ
times [] = []
times ((now, none) ∷ es) = times es
times ((now, some c) ∷ es) = now ∷ times es

-- Loops and ids, side by side.
abbrev pub pairs : List ℕ → List ℕ → List (ℕ × ℕ)
pairs (x ∷ xs) (y ∷ ys) = (x, y) ∷ pairs xs ys
pairs _ _ = []

abbrev onto : ℕ → List ℕ × ℕ → Option (List ℕ × ℕ)
onto x (xs, k) = some (x ∷ xs, k)

-- The picks of one connection more.
picks-suc :
    (n : ℕ) (m : Manager) (i j : ℕ) (ls : List ℕ)
    → picks (suc n) m i ≡ some (ls, j)
    → (loop k : ℕ) × (rest : List ℕ) × (pick_event_loop m i ≡ some (loop, k))
      × (picks n m k ≡ some (rest, j))
      × (ls ≡ loop ∷ rest)
unfolding picks
picks-suc n m i j ls e = first (pick_event_loop m i) e
  where
    others :
        (r : Option (List ℕ × ℕ)) (x : ℕ)
        → (r >>= onto x) ≡ some (ls, j)
        → (rest : List ℕ) × (r ≡ some (rest, j)) × (ls ≡ x ∷ rest)
    others none x h = absurd (cc)
    others (some (xs, k)) x h = (xs, cc, cc)

    first :
        (r : Option (ℕ × ℕ))
        → (r >>= (λ (x, k). picks n m k >>= onto x)) ≡ some (ls, j)
        → (loop k : ℕ) × (rest : List ℕ) × (r ≡ some (loop, k))
          × (picks n m k ≡ some (rest, j))
          × (ls ≡ loop ∷ rest)
    first none h = absurd (cc)
    first (some (x, k)) h = let (rest, p, q) = others (picks n m k) x h in (x, k, rest, refl, p, q)

module _ (ntop : List ℕ → List ℕ) (stamp : ℕ → ℕ) (junk : ℕ → ℕ → ℕ) where
  -- The table with an entry for each connection, by its id, with the address of its peer.
  abbrev pub entered : List (ℕ × Option Accepted) → Serial → Table Connection → Table Connection
  entered [] s t = t
  entered ((now, none) ∷ es) s t = entered es s t
  entered ((now, some c) ∷ es) s t =
      let id = (generate stamp now s).0 in
      entered es (tick stamp now s)
        (assign id (some (new_connection junk (c_str (ntop c.peer)) id)) t)

  -- The server with a connection more, whose loop was picked.
  abbrev enrolled : ℕ → ℕ → ℕ → Accepted → Listening → Listening
  enrolled loop k now c l =
      let id = (generate stamp now l.server.serial).0 in
      record {
        server = record (l.server) {
          counter = k;
          serial = tick stamp now l.server.serial;
          connections =
              assign id (some (new_connection junk (c_str (ntop c.peer)) id)) l.server.connections;
          posted = l.server.posted ++ ((loop, id) ∷ []);
        };
        acceptor = record (l.acceptor) {
          requests =
              l.acceptor.requests ++ (makes_nonblocking c.socket ∷ keeps_alive c.socket ∷ []);
        };
      }

  on_accept_found :
      (loop k now : ℕ) (c : Accepted) (l : Listening)
      → pick_event_loop l.server.manager l.server.counter ≡ some (loop, k)
      → on_accept ntop stamp junk now (some c) l ≡ some (enrolled loop k now c l)
  unfolding on_accept handle_accept handle_new_conn generate
  on_accept_found loop k now c l e = rw e refl

  pub on_accepts-Spread :
      (es : List (ℕ × Option Accepted)) (l : Listening) (ls : List ℕ) (j : ℕ)
      → picks (length (times es)) l.server.manager l.server.counter ≡ some (ls, j)
      → (m : Listening) × (on_accepts ntop stamp junk es l ≡ some m)
        × (m.server.counter ≡ j)
        × (m.server.posted
            ≡ l.server.posted ++ pairs ls (generate_all stamp (times es) l.server.serial))
        × (m.server.connections ≡ entered es l.server.serial l.server.connections)
  unfolding on_accepts on_accept handle_accept generate_all picks generate
  on_accepts-Spread [] l ls j e =
      let nothing : ls ≡ [] = cc in
      (
        l,
        refl,
        cc,
        sym (ap (λ t. l.server.posted ++ pairs t []) nothing ∙ append-nil l.server.posted),
        refl,
      )
  on_accepts-Spread ((now, none) ∷ es) l ls j e = on_accepts-Spread es l ls j e
  on_accepts-Spread ((now, some c) ∷ es) l ls j e =
      let (loop, k, rest, p, q, r) =
        picks-suc (length (times es)) l.server.manager l.server.counter j ls e in
      let id : ℕ = (generate stamp now l.server.serial).0 in
      let (m, f, g, h, t) = on_accepts-Spread es (enrolled loop k now c l) rest j q in
      (
        m,
        rw (on_accept_found loop k now c l p) f,
        g,
        h
            ∙ append_assoc l.server.posted ((loop, id) ∷ []) _
            ∙ ap
                (λ t.
                  l.server.posted ++ pairs t (generate_all stamp (now ∷ times es) l.server.serial))
                (sym r),
        t,
      )
