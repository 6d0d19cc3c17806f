-- ===== src/Redis/Life.antt =====
-- The life of a `RedisManager`, with a log of the contexts that it makes and frees.
use tiny_game_server.Base.{
  ℕ, ◌+◌, ◌^◌, ◌<◌, ◌≡◌, refl, sym, ap, ◌∙◌, List, [], ◌∷◌, ◌++◌, Option, some, ◌>>=◌, map, arith,
  lt→ltb,
}
use tiny_game_server.Pools.{
  PoolCall, makes, finishes, made, finished, times, made-append, finished-append, made-finishes,
  finished-finishes,
}
use tiny_game_server.Text.{c_str, split_host_port}
use tiny_game_server.Text.Address.{decimal, tens, split_host_port-decimal}
use tiny_game_server.Redis.{
  Attempt, Finds, no_context, failed, no_reply, refused, accepted, keep, attempts_from,
  all_attempts, attempts_from-kept, connect_found, connect,
}

pub record Manager : Type 0 where
  pub addr : List ℕ
  pub conn_num : ℕ
  pub conns : List ℕ
  pub log : List PoolCall

-- The constructor; a log that is empty.
unfoldable pub new_manager : List ℕ → ℕ → Manager
new_manager addr num = record { addr = addr; conn_num = num; conns = []; log = [] }

-- The destructor.
unfoldable pub destroy : Manager → Manager
destroy m = record m { log = m.log ++ map finishes m.conns }

-- Only a context with an error is freed.
unfoldable pub attempt_calls : List Attempt → List PoolCall
attempt_calls [] = []
attempt_calls (no_context ∷ more) = attempt_calls more
attempt_calls (failed c ∷ more) = makes c ∷ (finishes c ∷ attempt_calls more)
attempt_calls (no_reply c ∷ more) = makes c ∷ attempt_calls more
attempt_calls (refused c ∷ more) = makes c ∷ attempt_calls more
attempt_calls (accepted c ∷ more) = makes c ∷ attempt_calls more

-- `Connect`, on the object, with what its attempts find.
unfoldable pub connect_manager : Finds → List ℕ → Manager → Option Manager
connect_manager finds password m = do
  (host, port) ← split_host_port m.addr
  conns ← connect finds m.addr m.conn_num password m.conns
  some (record m {
    conns = conns;
    log = m.log ++ attempt_calls (all_attempts finds host port password m.conn_num);
  })

-- The contexts whose AUTH command was refused or had no reply.
abbrev pub unauthorized : List Attempt → List ℕ
unauthorized [] = []
unauthorized (no_context ∷ more) = unauthorized more
unauthorized (failed c ∷ more) = unauthorized more
unauthorized (no_reply c ∷ more) = c ∷ unauthorized more
unauthorized (refused c ∷ more) = c ∷ unauthorized more
unauthorized (accepted c ∷ more) = unauthorized more

attempt_calls-times :
    (c : ℕ) (attempts : List Attempt)
    → made c (attempt_calls attempts)
      ≡ finished c (attempt_calls attempts)
        + times c (keep attempts)
        + times c (unauthorized attempts)
unfolding attempt_calls made finished times keep
attempt_calls-times c [] = refl
attempt_calls-times c (no_context ∷ more) = attempt_calls-times c more
attempt_calls-times c (failed d ∷ more) = ground (arith, attempt_calls-times c more)
attempt_calls-times c (no_reply d ∷ more) = ground (arith, attempt_calls-times c more)
attempt_calls-times c (refused d ∷ more) = ground (arith, attempt_calls-times c more)
attempt_calls-times c (accepted d ∷ more) = ground (arith, attempt_calls-times c more)

-- A new manager whose address is a host and a port below 2^31 in decimal, with fewer than 2^31
-- connections of which one attempt is accepted, connects, and its pool holds the contexts that were
-- accepted. Once it is destroyed, each context was freed as often as it was made, less the times
-- that its AUTH command was refused or had no reply: such a context is never freed.
pub destroy-unauthorized :
    (finds : Finds) (addr name : List ℕ) (w port conn_num : ℕ) (password : List ℕ) (k c : ℕ)
    → addr ≡ name ++ (b':' ∷ decimal w port)
    → port < tens w
    → port < 2 ^ 31
    → conn_num < 2 ^ 31
    → k < conn_num
    → finds (c_str name) port (c_str password) k ≡ accepted c
    → let attempts : List Attempt =
        attempts_from finds (c_str name) port (c_str password) conn_num 0 in
      (m : Manager) × (connect_manager finds password (new_manager addr conn_num) ≡ some m)
      × (m.conns ≡ keep attempts)
      × ((x : ℕ)
          → made x (destroy m).log ≡ finished x (destroy m).log + times x (unauthorized attempts))
unfolding connect_manager new_manager destroy
destroy-unauthorized finds addr name w port conn_num password k c e h g small less found =
    let attempts : List Attempt =
      attempts_from finds (c_str name) port (c_str password) conn_num 0 in
    let (d, ds, kept) =
      attempts_from-kept finds (c_str name) port (c_str password) conn_num 0 k c less
        (ap (finds (c_str name) port (c_str password)) (omega arith) ∙ found) in
    let split = ap split_host_port e ∙ split_host_port-decimal name w port h g in
    (
      record { addr = addr; conn_num = conn_num; conns = d ∷ ds; log = attempt_calls attempts },
      rw
          (
            split,
            connect_found finds addr name port conn_num password d ds split small kept,
            lt→ltb conn_num (2 ^ 31) small,
          )
          refl,
      sym kept,
      λ x. omega (
        arith,
        attempt_calls-times x attempts,
        ap (times x) kept,
        made-append x (attempt_calls attempts) (map finishes (d ∷ ds)),
        finished-append x (attempt_calls attempts) (map finishes (d ∷ ds)),
        made-finishes x (d ∷ ds),
        finished-finishes x (d ∷ ds),
      ),
    )
