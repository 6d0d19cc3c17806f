-- ===== src/DataServer/Shared/Steps.antt =====
-- Each event of the shared loop on a connection that is there is an input of this connection.
use tiny_game_server.Base.{
  ℕ, ◌≡◌, refl, sym, ap, ◌∙◌, List, [], ◌∷◌, ◌++◌, Option, some, false, ◌==◌, if◌then◌else◌, ◌>>=◌,
  Option-cases, Allows-some, inl, inr, append-nil, arith, ==_iff, subst, map,
}
use tiny_game_server.Bytes.{Host}
use tiny_game_server.Connection.{Connection, sends, closes, write_event}
use tiny_game_server.Connection.Session.{Session, step}
use tiny_game_server.Server.{Server}
use tiny_game_server.DataServer.Serve
use tiny_game_server.DataServer.Serve.{Input, take_input}
use tiny_game_server.DataServer.Shared.{
  Shared, Work, begins, does, Event, arrives, runs, opens_socket, live, connections, tagged,
  works_of, tasks, alone, input_of, AllSend, IsShared, take_event, run_work,
}
use tiny_game_server.DataServer.Shared.Projects.{
  works_of-append, works_of-tagged, tasks-append, AllSend-append, arrives_waits, arrives-AllSend,
  Moves, keep-Moves,
}

pub some_inj : {A : Type 0} (a b : A) → some a ≡ some b → a ≡ b
some_inj a b e = cc e

-- A functor of a connection stands in front of its others.
pub works_of_head :
    (k : ℕ) (w : Work) (ws : List (ℕ × Work)) → works_of k ((k, w) ∷ ws) ≡ w ∷ works_of k ws
works_of_head k w ws = ground arith

works_of_other :
    (k j : ℕ) (w : Work) (ws : List (ℕ × Work))
    → (k == j) ≡ false
    → works_of j ws ≡ works_of j ((k, w) ∷ ws)
works_of_other k j w ws e = ground arith

module _ (host : Host) (junk : ℕ → ℕ → ℕ) (select_user : List ℕ → List ℕ → Option ℕ) (stamp : ℕ → ℕ)
    (k : ℕ) (c : Connection) (v : Session) where
  -- What an event makes of the shared state, given what it makes of the connection alone.
  abbrev pub IsMove : Shared → Event → Input → Type 0
  IsMove s e i =
      live k (connections s) ≡ some c
      → take_input host junk select_user (alone k c s.pending) i ≡ some v
      → Moves k v s (take_event host junk select_user stamp s e)

  pub arrives-IsMove :
      (x : ℕ) (xs : List ℕ) (s : Shared)
      → IsShared s
      → IsMove s (arrives k x xs) (Serve.arrives x xs)
  unfolding take_event
  arrives-IsMove x xs s h present e =
      elim (Option-cases (
        take_input host junk select_user (record { conn = c; pending = [] })
          (Serve.arrives x xs))) [
            | inl r ↦ cc (waits r, e)
            | inr (u, r) ↦
                let all = s.pending ++ tagged k u.pending in
                let parts : (j : ℕ)
                    → works_of j all
                      ≡ works_of j s.pending ++ (if k == j then map does u.pending else []) =
                  λ j.
                    works_of-append j s.pending (tagged k u.pending)
                    ∙ ap (◌++◌ (works_of j s.pending)) (works_of-tagged j k u.pending) in
                let mine : works_of k all ≡ works_of k s.pending ++ map does u.pending =
                  parts k
                  ∙ ap (λ b. works_of k s.pending ++ (if b then map does u.pending else []))
                      ((==_iff k k).1 refl) in
                subst (Moves k v s) (rw (present, r, take_event) refl) (
                  keep-Moves k u.conn all v s h
                    (AllSend-append s.pending (tagged k u.pending) h.send (
                      Allows-some (λ (w : Session). AllSend (tagged k w.pending)) _ u
                        (arrives-AllSend host junk select_user k c x xs) r))
                    (λ j n.
                      parts j
                      ∙ ap (λ b. works_of j s.pending ++ (if b then map does u.pending else [])) n
                      ∙ append-nil (works_of j s.pending))
                    (some_inj _ v (
                      ap (λ l. some (record u { pending = l }))
                        (ap tasks mine ∙ tasks-append (works_of k s.pending) u.pending)
                      ∙ sym (waits r)
                      ∙ e)))
          ]
    where
      with_others : Session → Option Session
      with_others u = some (record u { pending = tasks (works_of k s.pending) ++ u.pending })

      waits :
          {o : Option Session}
          → take_input host junk select_user
              (record { conn = c; pending = [] })
              (Serve.arrives x xs)
            ≡ o
          → take_input host junk select_user (alone k c s.pending) (Serve.arrives x xs)
            ≡ (o >>= with_others)
      waits r =
          arrives_waits host junk select_user c (tasks (works_of k s.pending)) x xs
          ∙ ap (λ o. o >>= with_others) r

  pub opens_socket-IsMove :
      (answer : Option ℕ) (s : Shared)
      → IsShared s
      → IsMove s (opens_socket k answer) (Serve.opens_socket answer)
  unfolding take_event take_input step
  opens_socket-IsMove answer s h present e = elim (Option-cases (write_event c answer)) [
    | inl r ↦ cc (wrote r, e)
    | inr (d, r) ↦
        subst (Moves k v s) (rw (present, r, take_event) refl)
          (keep-Moves k d s.pending v s h h.send (λ j n. refl) (some_inj _ v (sym (wrote r) ∙ e)))
  ]
    where
      wrote :
          {o : Option Connection}
          → write_event c answer ≡ o
          → take_input host junk select_user (alone k c s.pending) (Serve.opens_socket answer)
            ≡ (o >>= (λ d. some (record (alone k c s.pending) { conn = d })))
      wrote r = ap (λ o. o >>= (λ d. some (record (alone k c s.pending) { conn = d }))) r

  -- The connection after a functor of its own.
  abbrev ran_work : List (ℕ × Work) → Connection → Option Session
  ran_work ws d = some (alone k d ws)

  ran :
      (w : Work) (ws : List (ℕ × Work)) (answer : Option ℕ)
      → take_input host junk select_user (alone k c ((k, w) ∷ ws)) (input_of w answer)
        ≡ (run_work w c answer >>= ran_work ws)
  unfolding take_input step
  ran begins ws answer =
      ap
        (λ l.
          take_input host junk select_user (record { conn = c; pending = tasks l }) Serve.starts)
        (works_of_head k begins ws)
  ran (does t) ws answer =
      ap
        (λ l.
          take_input host junk select_user (record { conn = c; pending = tasks l })
            (Serve.turns_loop answer))
        (works_of_head k (does t) ws)

  pub runs-IsMove :
      (w : Work) (ws : List (ℕ × Work)) (answer : Option ℕ) (server : Server)
      → let s : Shared = record { server = server; pending = (k, w) ∷ ws } in
        IsShared s → IsMove s (runs answer) (input_of w answer)
  unfolding take_event
  runs-IsMove (does closes) ws answer server h present e = absurd h.send
  runs-IsMove begins ws answer server h present e =
      let s : Shared = record { server = server; pending = (k, begins) ∷ ws } in
      elim (Option-cases (run_work begins c answer)) [
        | inl r ↦ cc (ran begins ws answer ∙ ap (λ o. o >>= ran_work ws) r, e)
        | inr (d, r) ↦ subst (Moves k v s) (rw (present, r, take_event) refl) (
            keep-Moves k d ws v s h h.send (λ j n. works_of_other k j begins ws n)
              (some_inj _ v (sym (ran begins ws answer ∙ ap (λ o. o >>= ran_work ws) r) ∙ e)))
      ]
  runs-IsMove (does (sends buf)) ws answer server h present e =
      let s : Shared = record { server = server; pending = (k, does (sends buf)) ∷ ws } in
      elim (Option-cases (run_work (does (sends buf)) c answer)) [
        | inl r ↦ cc (ran (does (sends buf)) ws answer ∙ ap (λ o. o >>= ran_work ws) r, e)
        | inr (d, r) ↦ subst (Moves k v s) (rw (present, r, take_event) refl) (
            keep-Moves k d ws v s h h.send (λ j n. works_of_other k j (does (sends buf)) ws n)
              (some_inj _ v
                (sym (ran (does (sends buf)) ws answer ∙ ap (λ o. o >>= ran_work ws) r) ∙ e)))
      ]
