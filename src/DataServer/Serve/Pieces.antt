-- ===== src/DataServer/Serve/Pieces.antt =====
-- A login that comes in pieces.
use tiny_game_server.Base.{
  ℕ, ◌+◌, ◌*◌, ◌^◌, ◌≤◌, ◌<◌, ◌≡◌, refl, sym, ap, ◌∙◌, List, [], ◌∷◌, ◌++◌, Option, some, arith,
  length, length-append, append-nil, append_assoc, Allows-some, if◌then◌else◌,
}
use tiny_game_server.Bytes.{Host}
use tiny_game_server.Buffer.{Buffer, read_fd}
use tiny_game_server.Buffer.Invariant.{IsValid, size, contents, length-contents}
use tiny_game_server.Buffer.Receive.{read_fd-Fits}
use tiny_game_server.Connection.{connected, is_connected, sends, send}
use tiny_game_server.Connection.Output.{output}
use tiny_game_server.Connection.Session.{Session, queued, backlog, stream}
use tiny_game_server.Connection.Delivery.{queued-append, backlog-append, AllSend-append}
use tiny_game_server.DataServer.{BufferStatus, message}
use tiny_game_server.DataServer.Capacity.{KeepsArray, message-KeepsArray}
use tiny_game_server.DataServer.Message.{message-Replies}
use tiny_game_server.DataServer.Serve.{
  Input, starts, arrives, turns_loop, opens_socket, send_each, on_message, take_input,
}
use tiny_game_server.DataServer.Serve.State.{Serving, Serves}
use tiny_game_server.DataServer.Serve.Frame.{
  Login, frame, frame-append, answer, length-answer, IsCounted, message_incomplete,
}

-- The bytes that arrive.
abbrev pub arrived : List Input → List ℕ
arrived [] = []
arrived (arrives x xs ∷ is) = x ∷ (xs ++ arrived is)
arrived (turns_loop a ∷ is) = arrived is
arrived (opens_socket a ∷ is) = arrived is
arrived (starts ∷ is) = arrived is

module _ (host : Host) (junk : ℕ → ℕ → ℕ) (select_user : List ℕ → List ℕ → Option ℕ) (cap : ℕ) where
  -- The fields fit their types, the length counts what follows the tag, the database has an answer, and
  -- the receive buffer has room for the message.
  pub record IsLogin (l : Login) : Type 0 where
    pub len_fits : l.len < 2 ^ 32
    pub id_fits : l.id < 2 ^ 64
    pub name_fits : length l.name < 2 ^ 32
    pub pass_fits : length l.pass < 2 ^ 32
    pub counted : IsCounted host junk l
    pub known : select_user l.name l.pass ≡ some l.uid
    pub fits : length (frame host junk l) ≤ cap

  on_message_quiet :
      (s : Session) (status : BufferStatus)
      → message host junk select_user s.conn.recv_buffer ≡ some (status, s.conn.recv_buffer, [])
      → on_message host junk select_user s ≡ some (record s { pending = s.pending ++ [] })
  unfolding on_message send_each
  on_message_quiet s status e = rw e refl

  on_message_replies :
      (s : Session) (status : BufferStatus) (b reply : Buffer)
      → message host junk select_user s.conn.recv_buffer ≡ some (status, b, reply ∷ [])
      → s.conn.status ≡ connected
      → on_message host junk select_user s
        ≡ some (record {
          conn = record (s.conn) { recv_buffer = b };
          pending = s.pending ++ (sends reply ∷ []);
        })
  unfolding on_message send_each send
  on_message_replies s status b reply e k = rw e (
      ap
        (λ t. some (record {
          conn = record (s.conn) { recv_buffer = b };
          pending = s.pending ++ ((if is_connected t then sends reply ∷ [] else []) ++ []);
        }))
        k)

  module _ (small : cap * 4 < 2 ^ 32) (l : Login) (h : IsLogin l) where
    -- What is read goes behind what was seen, in the same array.
    reads_on :
        (need : ℕ) (s : Session) (seen : List ℕ) (x : ℕ) (xs : List ℕ)
        → Serving cap need s seen
        → length (seen ++ (x ∷ xs)) ≤ cap
        → (b : Buffer) × (read_fd s.conn.recv_buffer (some (x ∷ xs)) ≡ some b)
          × IsValid b
          × (contents b ≡ seen ++ (x ∷ xs))
          × (b.capacity ≡ cap)
    reads_on need s seen x xs v e =
        let (b, r, a, k) =
          read_fd-Fits s.conn.recv_buffer (x ∷ xs) v.recv (omega (arith, sizes, v.recv_size))
            (omega (arith, sizes, v.recv_size)) in
        (b, r, a.valid, a.bytes ∙ ap (λ t. t ++ (x ∷ xs)) v.holds, k ∙ v.recv_size)
      where
        sizes : size s.conn.recv_buffer + length (x ∷ xs) ≤ cap
        sizes = omega (
          arith,
          e,
          length-contents s.conn.recv_buffer v.recv,
          ap length v.holds,
          length-append seen (x ∷ xs),
        )

    -- The same session with another receive buffer.
    receives :
        (need : ℕ) (s : Session) (b : Buffer) (seen seen' : List ℕ)
        → Serving cap need s seen
        → IsValid b
        → contents b ≡ seen'
        → b.capacity ≡ cap
        → Serving cap need (record s { conn = record (s.conn) { recv_buffer = b } }) seen'
    receives need s b seen seen' v w o k = record {
      ready = record {
        sound = record {
          valid = v.ready.sound.valid;
          small = v.ready.sound.small;
          event = v.ready.sound.event;
        };
        tasks = v.ready.tasks;
        room = v.ready.room;
      };
      room = v.room;
      recv = w;
      recv_size = k;
      is_open = v.is_open;
      holds = o;
    }

    -- A reply is given to the loop.
    posts :
        (need : ℕ) (s : Session) (reply : Buffer) (seen : List ℕ)
        → Serving cap (21 + need) s seen
        → IsValid reply
        → contents reply ≡ answer host junk l
        → Serves cap need seen
            (stream s ++ answer host junk l)
            (some (record s { pending = s.pending ++ (sends reply ∷ []) }))
    posts need s reply seen v w o = (
      record s { pending = s.pending ++ (sends reply ∷ []) },
      refl,
      record {
        ready = record {
          sound = v.ready.sound;
          tasks = AllSend-append s.pending (sends reply ∷ []) v.ready.tasks (w, tt);
          room = omega (arith, v.room, more);
        };
        room = omega (arith, v.room, more);
        recv = v.recv;
        recv_size = v.recv_size;
        is_open = v.is_open;
        holds = v.holds;
      },
      ap (◌++◌ (output s.conn)) (queued-append s.pending (sends reply ∷ []))
          ∙ sym (append_assoc (output s.conn) (queued s.pending) (contents reply ++ []))
          ∙ ap (◌++◌ (stream s)) (append-nil (contents reply) ∙ o),
    )
      where
        more : backlog (s.pending ++ (sends reply ∷ [])) ≤ backlog s.pending + 21
        more = omega (
          arith,
          backlog-append s.pending (sends reply ∷ []),
          length-contents reply w,
          ap length o,
          length-answer host junk l,
        )

    pub arrives-Serves_part :
        (need : ℕ) (s : Session) (seen : List ℕ) (x : ℕ) (xs q : List ℕ)
        → Serving cap need s seen
        → (seen ++ (x ∷ xs)) ++ q ≡ frame host junk l
        → 0 < length q
        → Serves cap need
            (seen ++ (x ∷ xs))
            (stream s)
            (take_input host junk select_user s (arrives x xs))
    unfolding take_input
    arrives-Serves_part need s seen x xs q v e m =
        let (b, r, w, o, k) =
          reads_on need s seen x xs v
            (omega (arith, length-append (seen ++ (x ∷ xs)) q, ap length e, h.fits)) in
        let t : Session = record s { conn = record (s.conn) { recv_buffer = b } } in
        let i =
          message_incomplete host junk select_user b l (seen ++ (x ∷ xs)) q w o e m h.counted in
        (
          t,
          rw r (
              on_message_quiet t _ i
              ∙ ap (λ p. some (record t { pending = p })) (append-nil s.pending)),
          receives need s b seen (seen ++ (x ∷ xs)) v w o k,
          refl,
        )

    -- The end of a login arrives, and what follows it stays.
    pub arrives-Serves_last :
        (need : ℕ) (s : Session) (seen : List ℕ) (x : ℕ) (xs rest : List ℕ)
        → Serving cap (21 + need) s seen
        → seen ++ (x ∷ xs) ≡ frame host junk l ++ rest
        → length (frame host junk l ++ rest) ≤ cap
        → Serves cap need rest
            (stream s ++ answer host junk l)
            (take_input host junk select_user s (arrives x xs))
    unfolding take_input
    arrives-Serves_last need s seen x xs rest v e m =
        let (b, r, w, o, k) = reads_on (21 + need) s seen x xs v (omega (arith, ap length e, m)) in
        let (c, reply, a, vc, oc, vr, or) =
          message-Replies host junk select_user b l.len l.id l.uid l.name l.pass rest w h.len_fits
            h.id_fits h.name_fits h.pass_fits (o ∙ e ∙ frame-append host junk l rest)
            (omega (
              arith,
              h.counted,
              length-contents b w,
              ap length (o ∙ e),
              length-append (frame host junk l) rest,
            ))
            h.known in
        let t : Session = record s { conn = record (s.conn) { recv_buffer = b } } in
        let u : Session = record s { conn = record (s.conn) { recv_buffer = c } } in
        let kc : c.capacity ≡ b.capacity =
          Allows-some (KeepsArray b) _ _ (message-KeepsArray host junk select_user b) a in
        let (f, p, z, st) =
          posts need u reply rest (receives (21 + need) s c seen rest v vc oc (kc ∙ k)) vr or in
        (f, rw r (on_message_replies t _ c reply a v.is_open ∙ p), z, st)
