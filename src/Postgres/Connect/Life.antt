-- ===== src/Postgres/Connect/Life.antt =====
-- The life of a `PGManager`, with a log of the contexts that it makes and finishes.
use tiny_game_server.Base.{
  ℕ, zero, suc, ◌+◌, ◌≤◌, ◌<◌, ◌^◌, ◌≡◌, refl, List, [], ◌∷◌, ◌++◌, Option, none, some, Bool, true,
  ltb, if◌then◌else◌, ◌>>=◌, map, arith, ap, ◌∙◌, Allows, Allows-some, bind-Allows_of, Option-cases,
  inl, inr,
}
use tiny_game_server.Text.{split_host_port}
use tiny_game_server.Text.Address.{decimal, tens, split_host_port-decimal}
use tiny_game_server.Workers.{int_max}
use tiny_game_server.Postgres.{pick_context}
use tiny_game_server.Postgres.Connect.Pool.{connect-outcome, taken, print_conninfo_fits}
use tiny_game_server.Pools.{
  PoolCall, makes, finishes, made, finished, times, made-append, finished-append, times-append,
  made-finishes, finished-finishes,
}
use tiny_game_server.Postgres.Connect.{
  Attempt, no_memory, bad, ok, print_conninfo, conninfo, open_pool, connect,
}

pub record Manager : Type 0 where
  pub addr : List ℕ
  pub conn_num : ℕ
  pub conns : List ℕ
  pub log : List PoolCall

-- The constructor; a log that is empty.
unfoldable pub new_manager : List ℕ → ℕ → Manager
new_manager addr num = record { addr = addr; conn_num = num; conns = []; log = [] }

-- The destructor.
unfoldable pub destroy : Manager → Manager
destroy m = record m { log = m.log ++ map finishes m.conns }

-- A context whose status is bad is finished at once.
abbrev pub attempt_calls : Attempt → List PoolCall
attempt_calls no_memory = []
attempt_calls (bad c) = makes c ∷ (finishes c ∷ [])
attempt_calls (ok c) = makes c ∷ []

module _ (connectdb : List ℕ → ℕ → Attempt) where
  -- The calls of the loop of `Connect`.
  unfoldable pub open_calls : List ℕ → ℕ → ℕ → List PoolCall
  open_calls info zero i = []
  open_calls info (suc n) i = attempt_calls (connectdb info i) ++ open_calls info n (suc i)

  -- `Connect`, on the object.
  unfoldable pub connect_manager : List ℕ → Manager → Option (Bool × Manager)
  connect_manager password m = do
    (host, port) ← split_host_port m.addr
    info ← print_conninfo host port password
    let attempts = if ltb m.conn_num (2 ^ 31) then m.conn_num else 0
    (done, conns) ← connect connectdb m.addr m.conn_num password m.conns
    some (done, record m { conns = conns; log = m.log ++ open_calls info attempts 0 })

  -- Of each context, as many were finished as are not in the pool.
  abbrev pub IsBalanced : Manager → Type 0
  IsBalanced m = (c : ℕ) → made c m.log ≡ finished c m.log + times c m.conns

  open_calls-times :
      (info : List ℕ) (n i c : ℕ)
      → made c (open_calls info n i)
        ≡ finished c (open_calls info n i) + times c (open_pool connectdb info n i)
  unfolding open_calls open_pool made finished times
  open_calls-times info zero i c = refl
  open_calls-times info (suc n) i c = by_case (connectdb info i) (open_calls-times info n (suc i) c)
    where
      by_case :
          (a : Attempt)
          → made c (open_calls info n (suc i))
            ≡ finished c (open_calls info n (suc i)) + times c (open_pool connectdb info n (suc i))
          → made c (attempt_calls a ++ open_calls info n (suc i))
            ≡ finished c (attempt_calls a ++ open_calls info n (suc i))
              + times c (elim a [
                | no_memory ↦ open_pool connectdb info n (suc i)
                | bad x ↦ open_pool connectdb info n (suc i)
                | ok x ↦ x ∷ open_pool connectdb info n (suc i)
              ])
      by_case no_memory others = others
      by_case (bad d) others = ground (arith, others)
      by_case (ok d) others = ground (arith, others)

  -- The pool that `Connect` leaves.
  abbrev Fills : List ℕ → Bool × List ℕ → Type 0
  Fills cs r = r.1 ≡ cs

  connect-Fills :
      (addr host info : List ℕ) (port conn_num : ℕ) (password conns : List ℕ)
      → split_host_port addr ≡ some (host, port)
      → print_conninfo host port password ≡ some info
      → Allows
          (Fills
            (conns ++ open_pool connectdb info (if ltb conn_num (2 ^ 31) then conn_num else 0) 0))
          (connect connectdb addr conn_num password conns)
  unfolding connect
  connect-Fills addr host info port conn_num password conns e p =
      rw (e, p, connect) (by_case all refl)
    where
      all : List ℕ
      all = conns ++ open_pool connectdb info (if ltb conn_num (2 ^ 31) then conn_num else 0) 0

      by_case :
          (l : List ℕ)
          → l ≡ all
          → Allows (Fills all) (elim l [ [] ↦ none | c ∷ cs ↦ some (true, c ∷ cs) ])
      by_case [] q = tt
      by_case (c ∷ cs) q = q

  abbrev LeavesBalanced : Bool × Manager → Type 0
  LeavesBalanced r = IsBalanced r.1

  -- `Connect` keeps count, however often it is called.
  pub connect_manager-IsBalanced :
      (password : List ℕ) (m : Manager)
      → IsBalanced m
      → Allows LeavesBalanced (connect_manager password m)
  unfolding connect_manager
  connect_manager-IsBalanced password m h = elim (Option-cases (split_host_port m.addr)) [
    | inl e ↦ rw (e, connect_manager) tt
    | inr ((host, port), e) ↦ elim (Option-cases (print_conninfo host port password)) [
      | inl p ↦ rw (e, p, connect_manager) tt
      | inr (info, p) ↦
          let n : ℕ = if ltb m.conn_num (2 ^ 31) then m.conn_num else 0 in
          let pool : List ℕ = open_pool connectdb info n 0 in
          rw (e, p, connect_manager)
            (bind-Allows_of (Fills (m.conns ++ pool)) LeavesBalanced
              (connect connectdb m.addr m.conn_num password m.conns) _
              (connect-Fills m.addr host info port m.conn_num password m.conns e p)
              λ (done, conns) q c. omega (
                arith,
                h c,
                open_calls-times info n 0 c,
                made-append c m.log (open_calls info n 0),
                finished-append c m.log (open_calls info n 0),
                times-append c m.conns pool,
                ap (times c) q,
              ))
    ]
  ]

-- The destructor finishes what is left.
pub destroy-finished :
    (m : Manager) (c : ℕ)
    → made c m.log ≡ finished c m.log + times c m.conns
    → made c (destroy m).log ≡ finished c (destroy m).log
unfolding destroy
destroy-finished m c h = omega (
  arith,
  h,
  made-append c m.log (map finishes m.conns),
  finished-append c m.log (map finishes m.conns),
  made-finishes c m.conns,
  finished-finishes c m.conns,
)

-- A new manager whose address is a host and a port below 2^31 in decimal, with fewer than 2^31
-- connections of which one attempt succeeds, connects if host, port and password have at most 72
-- bytes together, up to their zero bytes. Its pool then gives out a connection, wherever the counter
-- stands below the largest `int`; every context was finished as often as it was made, but for
-- those in the pool, which are not finished yet; and once the manager is destroyed each context was
-- finished as often as it was made.
pub destroy-connect_manager :
    (connectdb : List ℕ → ℕ → Attempt) (addr name : List ℕ) (w port conn_num : ℕ)
    (password : List ℕ) (k c i : ℕ)
    → addr ≡ name ++ (b':' ∷ decimal w port)
    → port < tens w
    → port < 2 ^ 31
    → conn_num < 2 ^ 31
    → k < conn_num
    → connectdb (conninfo name port password) k ≡ ok c
    → i < int_max
    → taken connectdb name port password ≤ 72
    → (m : Manager) × (d : ℕ) × (connect_manager connectdb password (new_manager addr conn_num)
        ≡ some (true, m))
      × (pick_context m.conns i ≡ some (some d, suc i))
      × ((x : ℕ) → made x m.log ≡ finished x m.log + times x m.conns)
      × ((x : ℕ) → made x (destroy m).log ≡ finished x (destroy m).log)
unfolding connect_manager new_manager made finished times
destroy-connect_manager connectdb addr name w port conn_num password k c i e h g small less found
      below short =
    elim (connect-outcome connectdb addr name w port conn_num password k c i e h g small less found
      below) [
        | inl (long, _) ↦ absurd (omega arith)
        | inr (_, cs, d, r, q) ↦
            let m : Manager = record {
              addr = addr;
              conn_num = conn_num;
              conns = cs;
              log =
                  open_calls connectdb (conninfo name port password)
                    (if ltb conn_num (2 ^ 31) then conn_num else 0) 0;
            } in
            let made_it : connect_manager connectdb password (new_manager addr conn_num)
                ≡ some (true, m) =
              rw
                (
                  ap split_host_port e ∙ split_host_port-decimal name w port h g,
                  print_conninfo_fits connectdb name port password short,
                  r,
                )
                refl in
            let balanced : (x : ℕ) → made x m.log ≡ finished x m.log + times x m.conns =
              Allows-some (λ (z : Bool × Manager). IsBalanced connectdb z.1) _ (true, m)
                (connect_manager-IsBalanced connectdb password (new_manager addr conn_num)
                  (λ x. refl))
                made_it in
            (m, d, made_it, q, balanced, λ x. destroy-finished m x (balanced x))
      ]
