-- ===== src/Postgres/Connect/Pool.antt =====
-- When the pool of connections to PostgreSQL is filled.
use tiny_game_server.Base.{
  ℕ, zero, suc, ◌+◌, ◌%◌, ◌^◌, ◌≤◌, ◌<◌, ◌≡◌, refl, ap, ◌∙◌, List, [], ◌∷◌, ◌++◌, none, some, true,
  false, lt→ltb, length, length-append, arith, ◌⊎◌, inl, inr, dec_le, get_elem?, ◌==◌,
}
use tiny_game_server.Text.{c_str, print_int, split_host_port}
use tiny_game_server.Text.Address.{decimal, tens, split_host_port-decimal}
use tiny_game_server.DataServer.Message.{le→leb, lt→leb}
use tiny_game_server.Workers.{int_max}
use tiny_game_server.Postgres.{pick_context}
use tiny_game_server.Postgres.Connect.{
  Attempt, no_memory, bad, ok, conninfo, conninfo_size, print_conninfo, open_pool, connect,
  info_port, info_user,
}

length-conninfo :
    (host : List ℕ) (port : ℕ) (password : List ℕ)
    → length (conninfo host port password)
      ≡ 55 + (length (c_str host) + (length (print_int port) + length (c_str password)))
unfolding conninfo
length-conninfo host port password = omega (
  arith,
  length-append (c_str host) (info_port ++ (print_int port ++ (info_user ++ c_str password))),
  length-append (print_int port) (info_user ++ c_str password),
)

get_elem?-exists :
    {A : Type 0} (xs : List A) (i : ℕ) → i < length xs → (x : A) × (get_elem? xs i ≡ some x)
get_elem?-exists [] i h = absurd (omega arith)
get_elem?-exists (x ∷ xs) zero h = (x, refl)
get_elem?-exists (x ∷ xs) (suc i) h = get_elem?-exists xs i (omega arith)

-- A pool that is not empty always gives a connection.
pub pick_context-exists :
    (c : ℕ) (cs : List ℕ) (i : ℕ)
    → i < int_max
    → (d : ℕ) × (pick_context (c ∷ cs) i ≡ some (some d, suc i))
unfolding pick_context
pick_context-exists c cs i h =
    let (d, e) = get_elem?-exists (c ∷ cs) (i % length (c ∷ cs)) (omega arith) in
    (d, rw (not_max, e) refl)
  where
    not_max : (i == int_max) ≡ false
    not_max = ground arith

module _ (connectdb : List ℕ → ℕ → Attempt) where
  abbrev pub IsFilled : List ℕ → Type 0
  IsFilled cs = (d : ℕ) × (ds : List ℕ) × (cs ≡ d ∷ ds)

  -- An attempt before the others takes nothing away.
  one_more :
      (info : List ℕ) (n i : ℕ)
      → IsFilled (open_pool connectdb info n (suc i))
      → IsFilled (open_pool connectdb info (suc n) i)
  unfolding open_pool
  one_more info n i others = by_case (connectdb info i)
    where
      by_case :
          (a : Attempt)
          → IsFilled (elim a [
            | no_memory ↦ open_pool connectdb info n (suc i)
            | bad x ↦ open_pool connectdb info n (suc i)
            | ok x ↦ x ∷ open_pool connectdb info n (suc i)
          ])
      by_case no_memory = others
      by_case (bad x) = others
      by_case (ok x) = (x, open_pool connectdb info n (suc i), refl)

  pub open_pool-nonempty :
      (info : List ℕ) (n i k c : ℕ)
      → k < n
      → connectdb info (i + k) ≡ ok c
      → IsFilled (open_pool connectdb info n i)
  unfolding open_pool
  open_pool-nonempty info zero i k c h e = absurd (omega arith)
  open_pool-nonempty info (suc n) i zero c h e =
      let first : connectdb info i ≡ ok c = ap (connectdb info) (omega arith) ∙ e in
      (c, open_pool connectdb info n (suc i), rw (open_pool, first) refl)
  open_pool-nonempty info (suc n) i (suc k) c h e =
      one_more info n i (
        open_pool-nonempty info n (suc i) k c (omega arith) (ap (connectdb info) (omega arith) ∙ e))

  pub connect_found :
      (addr host : List ℕ) (port conn_num : ℕ) (password info : List ℕ) (d : ℕ) (ds : List ℕ)
      → split_host_port addr ≡ some (host, port)
      → print_conninfo host port password ≡ some info
      → conn_num < 2 ^ 31
      → open_pool connectdb info conn_num 0 ≡ d ∷ ds
      → connect connectdb addr conn_num password [] ≡ some (true, d ∷ ds)
  unfolding connect open_pool
  connect_found addr host port conn_num password info d ds e p h f =
      rw (e, p, lt→ltb conn_num (2 ^ 31) h, f) refl

  -- The bytes that the parts of the address and the password take, up to their zero bytes.
  abbrev pub taken : List ℕ → ℕ → List ℕ → ℕ
  taken name port password =
      length (c_str name) + (length (print_int port) + length (c_str password))

  pub print_conninfo_fits :
      (host : List ℕ) (port : ℕ) (password : List ℕ)
      → taken host port password ≤ 72
      → print_conninfo host port password ≡ some (conninfo host port password)
  unfolding print_conninfo
  print_conninfo_fits host port password h =
      rw
        (le→leb (length (conninfo host port password) + 1) conninfo_size
          (omega (arith, length-conninfo host port password)))
        refl

  -- For an address of a host and a port below 2^31 in decimal, fewer than 2^31 connections, of
  -- which one attempt succeeds with what is printed, and an empty pool, `Connect` does one of two
  -- things. The host, the port as printed and the password have more than 72 bytes together, up to
  -- their zero bytes: then it writes past the end of its array. Or it fills the pool, and
  -- `PickContext` finds a connection, wherever its counter stands below the largest `int`.
  pub connect-outcome :
      (addr name : List ℕ) (w port conn_num : ℕ) (password : List ℕ) (k c i : ℕ)
      → addr ≡ name ++ (b':' ∷ decimal w port)
      → port < tens w
      → port < 2 ^ 31
      → conn_num < 2 ^ 31
      → k < conn_num
      → connectdb (conninfo name port password) k ≡ ok c
      → i < int_max
      → ((72 < taken name port password) × (connect connectdb addr conn_num password [] ≡ none))
        ⊎ ((taken name port password ≤ 72)
            × (cs : List ℕ) × (d : ℕ) × (connect connectdb addr conn_num password []
                ≡ some (true, cs))
            × (pick_context cs i ≡ some (some d, suc i)))
  unfolding connect print_conninfo open_pool conninfo
  connect-outcome addr name w port conn_num password k c i e h g small less found below =
      let split = ap split_host_port e ∙ split_host_port-decimal name w port h g in
      elim (dec_le (taken name port password) 72) [
        | no long ↦ inl (
          omega arith,
          rw
              (
                split,
                lt→leb (length (conninfo name port password) + 1) conninfo_size
                    (omega (arith, length-conninfo name port password)),
              )
              refl,
        )
        | yes short ↦
            let (d, ds, f) =
              open_pool-nonempty (conninfo name port password) conn_num 0 k c less
                (ap (connectdb (conninfo name port password)) (omega arith) ∙ found) in
            let (x, r) = pick_context-exists d ds i below in
            inr (
              short,
              d ∷ ds,
              x,
              rw
                  (
                    split,
                    le→leb (length (conninfo name port password) + 1) conninfo_size
                        (omega (arith, length-conninfo name port password)),
                    lt→ltb conn_num (2 ^ 31) small,
                    f,
                  )
                  refl,
              r,
            )
      ]
