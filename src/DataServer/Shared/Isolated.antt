-- ===== src/DataServer/Shared/Isolated.antt =====
-- The clients of one event loop do not disturb each other.
use tiny_game_server.Base.{
  ℕ, ◌*◌, ◌^◌, ◌≤◌, ◌<◌, ◌≡◌, refl, sym, ap, ◌∙◌, List, [], ◌++◌, Option, some, ◌>>=◌, subst, inl,
  inr, arith, length,
}
use tiny_game_server.Bytes.{Host}
use tiny_game_server.Buffer.{initial_size}
use tiny_game_server.Connection.Session.{Session, stream}
use tiny_game_server.Server.{new_server}
use tiny_game_server.Table.{find}
use tiny_game_server.Workers.{new_manager}
use tiny_game_server.Serial.{first_serial, generate_all}
use tiny_game_server.Serial.Unique.{Paced, generate_all-Rises}
use tiny_game_server.DataServer.Serve.{Input, take_inputs}
use tiny_game_server.DataServer.Serve.State.{Serving, Serves}
use tiny_game_server.DataServer.Serve.Pieces.{arrived}
use tiny_game_server.DataServer.Serve.Logins.{
  Conversation, inputs, demand, AreLogins, answers, take_inputs-append, logins-Serves, quiet-Serves,
  Serves-bind, Serves-stream,
}
use tiny_game_server.DataServer.Serve.Accepted.{demand_lem, accepted-Serving}
use tiny_game_server.DataServer.Shared.{
  Shared, Event, session, IsShared, AllStay, AreNew, take_events, projected, origin, live,
  connections,
}
use tiny_game_server.DataServer.Shared.Absent.{IsBorn}
use tiny_game_server.DataServer.Shared.Ids.{IsIn, IsLive, times}
use tiny_game_server.DataServer.Shared.Distinct.{
  all_ids, Rises-AreApart, AreApart-AreNew, origin-IsIn,
}
use tiny_game_server.DataServer.Shared.Parts.{IsKnown}
use tiny_game_server.DataServer.Shared.Runs.{events-Follow}

module _ (host : Host) (junk : ℕ → ℕ → ℕ) (select_user : List ℕ → List ℕ → Option ℕ) (stamp : ℕ → ℕ)
    (cap : ℕ) where
  -- The schedule of a client: logins, with what happens while they arrive, and then no bytes.
  pub record Talks (id : ℕ) (s : Shared) (es : List Event) (talk : Conversation) : Type 0 where
    pub after : List Input
    pub part : projected host junk select_user stamp id s es ≡ inputs talk ++ after
    pub quiet : arrived after ≡ []
    pub logins : AreLogins host junk select_user cap talk

  -- What a client is answered, in front of it what was sent to it before.
  abbrev pub Answered : Conversation → Session → Option Session → Type 0
  Answered talk u r = Serves cap 0 [] (stream u ++ answers host junk select_user cap talk) r

  module _ (small : cap * 4 < 2 ^ 32) where
    talk-Serves :
        (talk : Conversation) (after : List Input) (u : Session)
        → AreLogins host junk select_user cap talk
        → arrived after ≡ []
        → Serving cap (demand talk) u []
        → Answered talk u (take_inputs host junk select_user u (inputs talk ++ after))
    talk-Serves talk after u h q v =
        subst (Answered talk u)
          (sym (take_inputs-append host junk select_user cap u (inputs talk) after))
          (Serves-bind cap 0 0 [] [] (stream u ++ answers host junk select_user cap talk) _ _ _
            (logins-Serves host junk select_user cap small talk u h v)
            λ t w o.
              Serves-stream cap 0 [] _ _ _ o
                (quiet-Serves host junk select_user cap 0 t [] after w q))

    -- From any state, clients that were there and clients that are accepted.
    pub events-Answered :
        (talks : ℕ → Conversation) (es : List Event) (s : Shared)
        → IsShared s
        → AllStay es
        → AreNew host junk select_user stamp s es
        → ((id : ℕ) (u : Session)
            → origin host junk select_user stamp id s es ≡ some u
            → IsKnown host junk select_user stamp id s u
            → Talks id s es (talks id) × Serving cap (demand (talks id)) u [])
        → (t : Shared) × (take_events host junk select_user stamp s es ≡ some t)
          × ((id : ℕ) (u : Session)
              → origin host junk select_user stamp id s es ≡ some u
              → IsKnown host junk select_user stamp id s u × Answered (talks id) u (session id t))
          × ((id : ℕ)
              → IsIn id (all_ids host junk select_user stamp s es)
              → (u : Session) × (origin host junk select_user stamp id s es ≡ some u))
    events-Answered talks es s h stay new all =
        let served : (id : ℕ) (u : Session)
            → origin host junk select_user stamp id s es ≡ some u
            → IsKnown host junk select_user stamp id s u
            → Answered (talks id) u (
                take_inputs host junk select_user u
                  (projected host junk select_user stamp id s es)) =
          λ id u e known.
            let (k, v) = all id u e known in
            subst (λ is. Answered (talks id) u (take_inputs host junk select_user u is))
              (sym k.part) (talk-Serves (talks id) k.after u k.logins k.quiet v) in
        let (t, r, f, m, n) =
          events-Follow host junk select_user stamp es s h stay new
            (λ id u e known. let (v, q, _, _) = served id u e known in (v, q)) in
        (
          t,
          r,
          λ id u e. (
            m id u e,
            subst (Answered (talks id) u)
                (sym (
                  f id
                  ∙ ap
                      (λ o. o >>= (λ x.
                        take_inputs host junk select_user x
                          (projected host junk select_user stamp id s es)))
                      e))
                (served id u e (m id u e)),
          ),
          n,
        )

-- A new server without workers, in the loop of a number.
abbrev pub begin : ℕ → ℕ → Shared
begin loop now = record { server = new_server loop now; pending = [] }

pub begin-IsShared : (loop now : ℕ) → IsShared (begin loop now)
unfolding new_server new_manager
begin-IsShared loop now = record { single = refl; handed = refl; send = tt; owned = λ id e. refl }

begin-session : (loop now id : ℕ) (u : Session) → session id (begin loop now) ≡ some u → ⊥
unfolding session new_server live find
begin-session loop now id u e = cc e

begin-IsLive : (loop now id : ℕ) → IsLive id (connections (begin loop now)) → ⊥
unfolding new_server live find
begin-IsLive loop now id (c, e) = cc e

begin-AreNew :
    (host : Host) (junk : ℕ → ℕ → ℕ) (select_user : List ℕ → List ℕ → Option ℕ) (stamp : ℕ → ℕ)
    (loop now : ℕ) (es : List Event)
    → stamp now < 2 ^ 50
    → Paced stamp (times es) (first_serial now)
    → AreNew host junk select_user stamp (begin loop now) es
unfolding new_server first_serial
begin-AreNew host junk select_user stamp loop now es h p =
    AreApart-AreNew host junk select_user stamp es (begin loop now) []
      (λ j l. begin-IsLive loop now j l) (λ j i k. i)
      (Rises-AreApart _ _
        (generate_all-Rises stamp (times es) (first_serial now) (h, omega arith) p))

-- The ids that `GenerateSerialID` gives out in a new server while it takes these events.
abbrev pub client_ids : (ℕ → ℕ) → ℕ → List Event → List ℕ
client_ids stamp now es = generate_all stamp (times es) (first_serial now)

module _ (host : Host) (junk : ℕ → ℕ → ℕ) (select_user : List ℕ → List ℕ → Option ℕ) (stamp : ℕ → ℕ)
    (loop now : ℕ) (talks : ℕ → Conversation) (es : List Event) where
  -- Every client that is accepted sends logins, at most 390.
  abbrev pub AllTalk : Type 0
  AllTalk =
      (id : ℕ)
      → IsIn id (client_ids stamp now es)
      → Talks host junk select_user stamp initial_size id (begin loop now) es (talks id)
        × (length (talks id) ≤ 390)

  -- A new data server without workers, on a host of either byte order, takes any events: clients
  -- are accepted, bytes arrive in any pieces, sockets can be written to, and the loop runs the
  -- functors, in any order and with any answers of the kernel; no client ends its stream. The clock
  -- does not go back between accepts, its stamps rise with it and stay below 2^50, and no second sees
  -- more than 1000 accepts. If what happens to each client that is accepted, up to a fault, is whole
  -- logins, at most 390 and of at most 8192 bytes, each beginning in a read event of its own, and then
  -- no more bytes, where the numbers and lengths of each fit their types, its length, as the host
  -- reads it, counts what follows the tag, and the database answers, then nothing faults. In the end
  -- each client that was accepted is connected, its receive buffer is empty, and what the kernel took
  -- for it and what waits to be sent to it are the answers to its own logins, in their order, and
  -- nothing else.
  pub server-Answered :
      AllStay es
      → stamp now < 2 ^ 50
      → Paced stamp (times es) (first_serial now)
      → AllTalk
      → (t : Shared) × (take_events host junk select_user stamp (begin loop now) es ≡ some t)
        × ((id : ℕ)
            → IsIn id (client_ids stamp now es)
            → Serves initial_size 0 []
                (answers host junk select_user initial_size (talks id))
                (session id t))
  unfolding new_server
  server-Answered stay low pace all =
      let s : Shared = begin loop now in
      let new = begin-AreNew host junk select_user stamp loop now es low pace in
      let born : (id : ℕ) (u : Session)
          → IsKnown host junk select_user stamp id s u
          → IsBorn junk id u =
        λ id u known. elim known [ inl e ↦ absurd (begin-session loop now id u e) | inr b ↦ b ] in
      let accepted : (id : ℕ) (u : Session)
          → origin host junk select_user stamp id s es ≡ some u
          → IsIn id (client_ids stamp now es) =
        λ id u e.
          elim (origin-IsIn host junk select_user stamp es s [] (λ j l. begin-IsLive loop now j l)
            id u e) [ inl i ↦ absurd i | inr i ↦ i ] in
      let (t, r, f, n) =
        events-Answered host junk select_user stamp initial_size (omega arith) talks es s
          (begin-IsShared loop now) stay new
          (λ id u e known.
            let (k, m) = all id (accepted id u e) in
            let (addr, q) = born id u known in
            (
              k,
              subst (λ x. Serving initial_size (demand (talks id)) x []) (sym q)
                  (accepted-Serving junk addr id (demand (talks id))
                    (omega (arith, m, demand_lem (talks id)))).0,
            )) in
      (
        t,
        r,
        λ id i.
            let (u, e) = n id i in
            let (known, a) = f id u e in
            let (addr, q) = born id u known in
            subst (λ x. Serves initial_size 0 [] x (session id t))
              (ap (λ x. x ++ answers host junk select_user initial_size (talks id))
                (ap stream q ∙ (accepted-Serving junk addr id 0 (omega arith)).1))
              a,
      )
