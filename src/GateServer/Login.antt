-- ===== src/GateServer/Login.antt =====
-- What becomes of a login at the gate.
use tiny_game_server.Base.{
  Allows, bind-Allows, if-Allows, ℕ, ◌-◌, ◌%◌, ◌^◌, ◌≤◌, ◌≡◌, refl, sym, ap, ◌∙◌, subst, List, [],
  none, some, false, ◌==◌, leb, arith, inl, inr, ◌⊎◌, ◌<◌, dec_le,
}
use mathlib.Core.Option.{some-injective}
use tiny_game_server.Bytes.{Host}
use tiny_game_server.Buffer.{
  Buffer, get_length, peek_tag_len, read_int8, read_int32, read_int64, append_int8, append_int32,
  new_buffer, initial_size,
}
use tiny_game_server.Connection.{Connection, new_connection}
use tiny_game_server.Serial.{Serial, generate}
use tiny_game_server.Table.{Table, find, assign, erase}
use tiny_game_server.Table.Entries.{
  AllEntries, assign-AllEntries, index-AllEntries, erase-AllEntries,
}
use tiny_game_server.Workers.{pick_event_loop}
use tiny_game_server.DataServer.{BufferStatus, read_incomplete}
use tiny_game_server.DataServer.Message.{le→leb, lt→leb}
use tiny_game_server.Server.{Server, new_server, handle_new_conn, get_connection}
use tiny_game_server.Server.Keys.{index-null}
use tiny_game_server.GateServer.{connected, message, authorize, data_reply, data_message}

-- A server whose table is `t`.
abbrev with_table : Server → Table Connection → Server
with_table s t = record s { connections = t }

module _ (host : Host) (junk : ℕ → ℕ → ℕ) (stamp : ℕ → ℕ) where
  -- What the gate does, step by step.
  pub data Step (s : Server) : Server → Type 0 where
    accepts :
        {u : Server} (now : ℕ) (addr : List ℕ)
        → handle_new_conn stamp junk now addr s ≡ some u
        → Step s u
    -- Bytes come in or go out, or the connection changes its status.
    works :
        (id : ℕ) (c d : Connection)
        → find id s.connections ≡ some (some c)
        → d.authorized ≡ c.authorized
        → Step s (with_table s (assign id (some d) s.connections))
    greets :
        (id : ℕ) (c d : Connection) (status : BufferStatus) (out : List Buffer)
        → find id s.connections ≡ some (some c)
        → connected host junk c ≡ some (status, d, out)
        → Step s (with_table s (assign id (some d) s.connections))
    talks :
        (id : ℕ) (c d : Connection) (status : BufferStatus) (out : List Buffer)
        → find id s.connections ≡ some (some c)
        → message host junk c ≡ some (status, d, out)
        → Step s (with_table s (assign id (some d) s.connections))
    -- The data server sends whatever it sends.
    hears :
        {u : Server} (b rest : Buffer) (status : BufferStatus)
        → data_message host junk b s ≡ some (status, rest, u)
        → Step s u
    drops : (id : ℕ) → Step s (with_table s (erase id s.connections))

  pub data Reach (loop start : ℕ) : Server → Type 0 where
    here : Reach loop start (new_server loop start)
    next : {s u : Server} → Reach loop start s → Step s u → Reach loop start u

  -- A connection stands under a long key and was not authorised.
  abbrev IsBarred : ℕ → Connection → Type 0
  IsBarred k c = (2 ^ 32 ≤ k) × (c.authorized ≡ false)

  abbrev Inv : Server → Type 0
  Inv s = AllEntries IsBarred s.connections

  replaced :
      (s : Server) (id : ℕ) (c d : Connection)
      → find id s.connections ≡ some (some c)
      → d.authorized ≡ false
      → Inv s
      → Inv (with_table s (assign id (some d) s.connections))
  replaced s id c d f a v =
      assign-AllEntries IsBarred id (some d) s.connections (λ x e. ((v id c f).0, same x e)) v
    where
      same : (x : Connection) → some d ≡ some x → x.authorized ≡ false
      same x e = sym (ap Connection.authorized (some-injective d x e)) ∙ a

  -- What the callback does for a client that is not authorised.
  abbrev pub IsTurnedAway : Connection → Type 0
  IsTurnedAway c =
      ((5 ≤ get_length c.recv_buffer) × (message host junk c ≡ none))
      ⊎ ((get_length c.recv_buffer < 5) × (message host junk c ≡ some (read_incomplete, c, [])))

  pub message_barred : (c : Connection) → c.authorized ≡ false → IsTurnedAway c
  unfolding message
  message_barred c a = elim (dec_le 5 (get_length c.recv_buffer)) [
    | yes h ↦ inl (h, rw (a, le→leb 5 (get_length c.recv_buffer) h) refl)
    | no h ↦ inr (omega arith, rw (a, lt→leb 5 (get_length c.recv_buffer) (omega arith)) refl)
  ]

  authorize-Inv : (id user : ℕ) (s : Server) → Inv s → Inv (authorize host junk id user s)
  unfolding authorize get_connection
  authorize-Inv id user s v =
      rw (index-null (id % 2 ^ 32) s.connections (omega arith) (λ k c e. (v k c e).0), authorize)
        (index-AllEntries IsBarred (id % 2 ^ 32) s.connections v)

  abbrev HasInv : BufferStatus × Buffer × Server → Type 0
  HasInv r = Inv r.2

  abbrev HasBar : BufferStatus × Connection × List Buffer → Type 0
  HasBar r = r.1.authorized ≡ false

  data_message-Inv : (b : Buffer) (s : Server) → Inv s → Allows HasInv (data_message host junk b s)
  unfolding data_message data_reply
  data_message-Inv b s v =
      if-Allows HasInv (leb 13 (get_length b)) _ _
        (bind-Allows HasInv (peek_tag_len host b) _ (λ (tag, len).
          if-Allows HasInv (leb len (get_length b - 1)) _ _
            (bind-Allows HasInv (read_int8 b) _ (λ (t, b1).
              if-Allows HasInv (t == b's') _ _
                (bind-Allows HasInv (read_int32 host b1) _ (λ (n, b2).
                  bind-Allows HasInv (read_int64 host b2) _ (λ (id, b3).
                    bind-Allows HasInv (read_int64 host b3) _
                      (λ (user, b4). authorize-Inv id user s v))))
                v))
            v))
        v

  handle_new_conn-Inv :
      (now : ℕ) (addr : List ℕ) (s : Server)
      → 2 ^ 32 ≤ (generate stamp now s.serial).0
      → Inv s
      → Allows Inv (handle_new_conn stamp junk now addr s)
  unfolding handle_new_conn new_connection
  handle_new_conn-Inv now addr s l v =
      bind-Allows Inv (pick_event_loop s.manager s.counter) _ (λ (loop, i).
        assign-AllEntries IsBarred made.0 (some conn) s.connections (λ x e. (l, same x e)) v)
    where
      made : ℕ × Serial
      made = generate stamp now s.serial

      conn : Connection
      conn = new_connection junk addr made.0

      same : (x : Connection) → some conn ≡ some x → x.authorized ≡ false
      same x e = sym (ap Connection.authorized (some-injective conn x e))

  connected_barred :
      (c d : Connection) (status : BufferStatus) (out : List Buffer)
      → connected host junk c ≡ some (status, d, out)
      → d.authorized ≡ false
  unfolding connected
  connected_barred c d status out e = subst (Allows HasBar) e (
      bind-Allows HasBar (append_int8 (new_buffer junk initial_size) b'A') _
        (λ b. bind-Allows HasBar (append_int32 host b 4) _ (λ h. refl)))

  abbrev HasMute : BufferStatus × Connection × List Buffer → Type 0
  HasMute r = r.1.authorized ≡ false

  message_keeps :
      (c d : Connection) (status : BufferStatus) (out : List Buffer)
      → c.authorized ≡ false
      → message host junk c ≡ some (status, d, out)
      → d.authorized ≡ false
  message_keeps c d status out a e = subst (Allows HasMute) e (elim (message_barred c a) [
    | inl (_, r) ↦ subst (Allows HasMute) (sym r) tt
    | inr (_, r) ↦ subst (Allows HasMute) (sym r) a
  ])

  -- Every id takes more than 32 bits.
  abbrev pub LongIds : Type 0
  LongIds = (now : ℕ) (s : Serial) → 2 ^ 32 ≤ (generate stamp now s).0

  Step-Inv : {s u : Server} → LongIds → Inv s → Step s u → Inv u
  Step-Inv {s} long v (accepts now addr e) =
      subst (Allows Inv) e (handle_new_conn-Inv now addr s (long now s.serial) v)
  Step-Inv {s} long v (works id c d f a) = replaced s id c d f (a ∙ (v id c f).1) v
  Step-Inv {s} long v (greets id c d status out f e) =
      replaced s id c d f (connected_barred c d status out e) v
  Step-Inv {s} long v (talks id c d status out f e) =
      replaced s id c d f (message_keeps c d status out (v id c f).1 e) v
  Step-Inv {s} long v (hears b rest status e) = subst (Allows HasInv) e (data_message-Inv b s v)
  Step-Inv {s} long v (drops id) = erase-AllEntries IsBarred id s.connections v

  Reach-Inv : {loop start : ℕ} {s : Server} → LongIds → Reach loop start s → Inv s
  unfolding find new_server
  Reach-Inv long here = λ k c e. absurd (cc e)
  Reach-Inv long (next r t) = Step-Inv long (Reach-Inv long r) t

  -- If every serial id takes more than 32 bits, then in every state that the gate reaches from
  -- `new_server` by accepted connections, traffic, status changes, messages of clients and of the
  -- data server and closed connections, a connection of the table is not authorised. So the message
  -- callback never forwards a login: while fewer than five bytes are there it leaves the connection
  -- as it is and sends nothing to the data server, and with five or more it comes to its end without
  -- the `return` that it owes.
  pub message-Reach :
      {loop start : ℕ} {s : Server} (id : ℕ) (c : Connection)
      → LongIds
      → Reach loop start s
      → find id s.connections ≡ some (some c)
      → (c.authorized ≡ false) × IsTurnedAway c
  message-Reach id c long r f = (b, message_barred c b)
    where
      b : c.authorized ≡ false
      b = (Reach-Inv long r id c f).1
