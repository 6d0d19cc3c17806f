-- ===== src/DataServer/Shared/Projects.antt =====
-- One event, as each connection sees it.
use tiny_game_server.Base.{
  ℕ, ◌≡◌, refl, sym, ap, ◌∙◌, List, [], ◌∷◌, ◌++◌, Option, none, some, false, ◌==◌, if◌then◌else◌,
  ◌>>=◌, ==_iff, Bool-cases, Option-cases, inl, inr, arith, map, Allows, bind-Allows,
}
use tiny_game_server.Bytes.{Host}
use tiny_game_server.Buffer.{Buffer, read_fd}
use tiny_game_server.Connection.{Connection, Task, sends, closes, is_connected, send, get_buffer}
use tiny_game_server.Connection.Session.{Session}
use tiny_game_server.Table.{Table, assign, find-assign}
use tiny_game_server.DataServer.{message}
use tiny_game_server.DataServer.Serve
use tiny_game_server.DataServer.Serve.{on_message, send_each, take_input}
use tiny_game_server.DataServer.Shared.{
  Shared, Work, begins, does, live, connections, tagged, keep, works_of, tasks, alone, session,
  AllSend, IsShared,
}

live-assign :
    (k j : ℕ) (c : Connection) (t : Table Connection)
    → live j (assign k (some c) t) ≡ (if k == j then some c else live j t)
unfolding live
live-assign k j c t = ground (arith, find-assign k j (some c) t)

pub works_of-append :
    (j : ℕ) (xs ys : List (ℕ × Work)) → works_of j (xs ++ ys) ≡ works_of j xs ++ works_of j ys
works_of-append j [] ys = refl
works_of-append j ((k, w) ∷ xs) ys = ground (arith, works_of-append j xs ys)

pub works_of-tagged :
    (j k : ℕ) (ts : List Task) → works_of j (tagged k ts) ≡ (if k == j then map does ts else [])
works_of-tagged j k [] = ground arith
works_of-tagged j k (t ∷ ts) = ground (arith, works_of-tagged j k ts)

pub tasks-append : (ws : List Work) (ts : List Task) → tasks (ws ++ map does ts) ≡ tasks ws ++ ts
tasks-append [] [] = refl
tasks-append [] (t ∷ ts) = ap (◌∷◌ t) (tasks-append [] ts)
tasks-append (begins ∷ ws) ts = tasks-append ws ts
tasks-append (does t ∷ ws) ts = ap (◌∷◌ t) (tasks-append ws ts)

-- A connection changed, and no functor of another.
session-keep :
    (k j : ℕ) (d : Connection) (ps : List (ℕ × Work)) (s : Shared)
    → ((k == j) ≡ false → works_of j ps ≡ works_of j s.pending)
    → session j (keep k d ps s) ≡ (if k == j then some (alone j d ps) else session j s)
unfolding session
session-keep k j d ps s h = elim (Bool-cases (k == j)) [
  | inl e ↦ rw (live-assign k j d (connections s), e) refl
  | inr e ↦ rw (live-assign k j d (connections s), e, h e) refl
]

-- The replies are given to `Send`.
send_each-AllSend :
    (id : ℕ) (c : Connection) (bs : List Buffer) → AllSend (tagged id (send_each c bs))
unfolding send_each send
send_each-AllSend id c [] = tt
send_each-AllSend id c (b ∷ bs) = elim (Bool-cases (is_connected c.status)) [
  | inl e ↦ rw e (send_each-AllSend id c bs)
  | inr e ↦ rw e (send_each-AllSend id c bs)
]

pub AllSend-append : (xs ys : List (ℕ × Work)) → AllSend xs → AllSend ys → AllSend (xs ++ ys)
AllSend-append [] ys h g = g
AllSend-append ((k, begins) ∷ xs) ys h g = AllSend-append xs ys h g
AllSend-append ((k, does (sends b)) ∷ xs) ys h g = AllSend-append xs ys h g
AllSend-append ((k, does closes) ∷ xs) ys h g = absurd h

-- An event of one connection, and what the others are after it.
abbrev pub Moves : ℕ → Session → Shared → Option Shared → Type 0
Moves k v s r =
    (t : Shared) × (r ≡ some t)
    × IsShared t
    × ((j : ℕ) → session j t ≡ (if k == j then some v else session j s))

pub keep-Moves :
    (k : ℕ) (d : Connection) (ps : List (ℕ × Work)) (v : Session) (s : Shared)
    → IsShared s
    → AllSend ps
    → ((j : ℕ) → (k == j) ≡ false → works_of j ps ≡ works_of j s.pending)
    → alone k d ps ≡ v
    → Moves k v s (some (keep k d ps s))
keep-Moves k d ps v s h a g e = (
  keep k d ps s,
  refl,
  record { single = h.single; handed = h.handed; send = a; owned = owns },
  follows,
)
  where
    follows : (j : ℕ) → session j (keep k d ps s) ≡ (if k == j then some v else session j s)
    follows j = elim (Bool-cases (k == j)) [
      | inl y ↦
          session-keep k j d ps s (g j)
          ∙ rw y (ap some (ap (λ i. alone i d ps) (sym ((==_iff k j).0 y)) ∙ e))
      | inr n ↦ session-keep k j d ps s (g j) ∙ rw n refl
    ]

    owns : (j : ℕ) → session j (keep k d ps s) ≡ none → works_of j ps ≡ []
    owns j q = elim (Bool-cases (k == j)) [
      | inl y ↦ cc (ap (λ b. if b then some v else session j s) y, follows j)
      | inr n ↦
          g j n ∙ h.owned j (sym (follows j ∙ ap (λ b. if b then some v else session j s) n) ∙ q)
    ]

module _ (host : Host) (junk : ℕ → ℕ → ℕ) (select_user : List ℕ → List ℕ → Option ℕ) where
  on_message-AllSend :
      (id : ℕ) (c : Connection)
      → Allows
          (λ u. AllSend (tagged id u.pending))
          (on_message host junk select_user (record { conn = c; pending = [] }))
  unfolding on_message
  on_message-AllSend id c =
      bind-Allows (λ (u : Session). AllSend (tagged id u.pending))
        (message host junk select_user (get_buffer c)) _
        λ (status, b, replies). send_each-AllSend id (record c { recv_buffer = b }) replies

  -- The functors that wait do not matter to the callback.
  on_message_waits :
      (c : Connection) (ts : List Task)
      → on_message host junk select_user (record { conn = c; pending = ts }) ≡ (
          on_message host junk select_user (record { conn = c; pending = [] })
          >>= (λ u. some (record u { pending = ts ++ u.pending })))
  unfolding on_message
  on_message_waits c ts = elim (Option-cases (message host junk select_user (get_buffer c))) [
    | inl e ↦ rw e refl
    | inr ((status, b, replies), e) ↦ rw e refl
  ]

  pub arrives_waits :
      (c : Connection) (ts : List Task) (x : ℕ) (xs : List ℕ)
      → take_input host junk select_user (record { conn = c; pending = ts }) (Serve.arrives x xs)
        ≡ (take_input host junk select_user (record { conn = c; pending = [] }) (Serve.arrives x xs)
            >>= (λ u. some (record u { pending = ts ++ u.pending })))
  unfolding take_input
  arrives_waits c ts x xs = elim (Option-cases (read_fd c.recv_buffer (some (x ∷ xs)))) [
    | inl e ↦ rw e refl
    | inr (b, e) ↦ rw e (on_message_waits (record c { recv_buffer = b }) ts)
  ]

  pub arrives-AllSend :
      (id : ℕ) (c : Connection) (x : ℕ) (xs : List ℕ)
      → Allows
          (λ u. AllSend (tagged id u.pending))
          (take_input host junk select_user
            (record { conn = c; pending = [] })
            (Serve.arrives x xs))
  unfolding take_input
  arrives-AllSend id c x xs =
      bind-Allows (λ (u : Session). AllSend (tagged id u.pending))
        (read_fd c.recv_buffer (some (x ∷ xs))) _
        λ b. on_message-AllSend id (record c { recv_buffer = b })
