-- ===== src/Server/Listening/Entered.antt =====
-- Accepted connections in the table of the server, while their ids rise.
use tiny_game_server.Base.{
  ℕ, ◌≤◌, ◌≡◌, refl, sym, ◌∙◌, subst, List, [], ◌∷◌, ◌++◌, Option, none, some, false, ◌==◌, arith,
  length,
}
use tiny_game_server.Text.{c_str}
use tiny_game_server.Connection.{Connection, new_connection}
use tiny_game_server.Serial.{Serial, tick, serial_id, generate, generate_all}
use tiny_game_server.Serial.Unique.{Rises, InRange, Paced, generate_all-Rises}
use tiny_game_server.Table.{Table, find, find-assign}
use tiny_game_server.Workers.{picks}
use tiny_game_server.Acceptor.{Accepted}
use tiny_game_server.Server.Accept.{find-assign_self}
use tiny_game_server.Server.Listening.{Listening, on_accepts}
use tiny_game_server.Server.Listening.Spread.{times, pairs, entered, on_accepts-Spread}

module _ (ntop : List ℕ → List ℕ) (stamp : ℕ → ℕ) (junk : ℕ → ℕ → ℕ) where
  -- Each of the connections stands in the table under its id, with the address of its peer.
  abbrev pub AreFound : List (ℕ × Option Accepted) → Serial → Table Connection → Type 0
  AreFound [] s t = Unit
  AreFound ((now, none) ∷ es) s t = AreFound es s t
  AreFound ((now, some c) ∷ es) s t =
      let id = (generate stamp now s).0 in
      (find id t ≡ some (some (new_connection junk (c_str (ntop c.peer)) id)))
      × AreFound es (tick stamp now s) t

  -- Later connections leave smaller ids alone.
  find-entered :
      (es : List (ℕ × Option Accepted)) (s : Serial) (t : Table Connection) (k low : ℕ)
      → Rises low (generate_all stamp (times es) s)
      → k ≤ low
      → find k (entered ntop stamp junk es s t) ≡ find k t
  unfolding generate_all generate
  find-entered [] s t k low r h = refl
  find-entered ((now, none) ∷ es) s t k low r h = find-entered es s t k low r h
  find-entered ((now, some c) ∷ es) s t k low (g, r) h =
      find-entered es (tick stamp now s) _ k (serial_id stamp (tick stamp now s)) r (omega arith)
      ∙ find-assign (serial_id stamp (tick stamp now s)) k _ t
      ∙ rw other refl
    where
      other : (serial_id stamp (tick stamp now s) == k) ≡ false
      other = ground arith

  entered-AreFound :
      (es : List (ℕ × Option Accepted)) (s : Serial) (t : Table Connection) (low : ℕ)
      → Rises low (generate_all stamp (times es) s)
      → AreFound es s (entered ntop stamp junk es s t)
  unfolding generate_all generate
  entered-AreFound [] s t low r = tt
  entered-AreFound ((now, none) ∷ es) s t low r = entered-AreFound es s t low r
  entered-AreFound ((now, some c) ∷ es) s t low (g, r) =
      let id : ℕ = serial_id stamp (tick stamp now s) in
      (
        find-entered es (tick stamp now s) _ id id r (omega arith) ∙ find-assign_self id _ t,
        entered-AreFound es (tick stamp now s) _ id r,
      )

  -- If as many calls of `PickEventLoop` as there are connections among the answers of `accept` find
  -- loops, the clock does not go back, its stamps rise with it and stay below 2^50, and no second
  -- sees more than 1000 connections, then those answers are handled without a fault: the loops
  -- found, in order, are each given a functor that starts the connection with the next id of
  -- `GenerateSerialID`, an answer without a connection changes nothing, and at the end each
  -- connection stands in the table under its id, new and with the address of its peer.
  pub on_accepts-AreFound :
      (es : List (ℕ × Option Accepted)) (l : Listening) (ls : List ℕ) (j : ℕ)
      → picks (length (times es)) l.server.manager l.server.counter ≡ some (ls, j)
      → InRange stamp l.server.serial
      → Paced stamp (times es) l.server.serial
      → (m : Listening) × (on_accepts ntop stamp junk es l ≡ some m)
        × (m.server.counter ≡ j)
        × (m.server.posted
            ≡ l.server.posted ++ pairs ls (generate_all stamp (times es) l.server.serial))
        × AreFound es l.server.serial m.server.connections
  on_accepts-AreFound es l ls j e h p =
      let (m, f, g, q, t) = on_accepts-Spread ntop stamp junk es l ls j e in
      (
        m,
        f,
        g,
        q,
        subst (AreFound es l.server.serial) (sym t) (
            entered-AreFound es l.server.serial l.server.connections _
              (generate_all-Rises stamp (times es) l.server.serial h p)),
      )
