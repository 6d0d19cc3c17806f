-- ===== src/Postgres/Query.antt =====
-- The query that `SelectUser` prints.
use tiny_game_server.Base.{
  ℕ, ◌+◌, ◌≤◌, ◌<◌, ◌≡◌, ◌≢◌, refl, sym, ap, ◌∙◌, ◌⊎◌, inl, inr, List, [], ◌∷◌, ◌++◌, Option, none,
  some, true, false, leb, arith, length, drop, length-append, append_assoc, dec_le,
}
use tiny_game_server.Text.{c_str}
use tiny_game_server.Postgres.{
  pick_context, query_start, query_middle, query_end, query, print_query, read_result, select_user,
  sql_size,
}

-- No byte of a string is `c`.
abbrev pub Lacks : ℕ → List ℕ → Type 0
Lacks c [] = Unit {0}
Lacks c (x ∷ xs) = (x ≢ c) × Lacks c xs

c_str-append : (xs ys : List ℕ) → Lacks 0 xs → c_str (xs ++ ys) ≡ xs ++ c_str ys
unfolding c_str
c_str-append [] ys h = refl
c_str-append (x ∷ xs) ys (h, g) = ground (arith, c_str-append xs ys g)

length-query :
    (name password : List ℕ)
    → length (query name password) ≡ 63 + length (c_str name) + length (c_str password)
unfolding query
length-query name password = omega (
  arith,
  length-append query_start (c_str name ++ (query_middle ++ (c_str password ++ query_end))),
  length-append (c_str name) (query_middle ++ (c_str password ++ query_end)),
  length-append query_middle (c_str password ++ query_end),
  length-append (c_str password) query_end,
)

c_str_lem : (xs : List ℕ) → Lacks 0 xs → c_str xs ≡ xs
unfolding c_str
c_str_lem [] h = refl
c_str_lem (x ∷ xs) (h, g) = ground (arith, c_str_lem xs g)

shift_middle :
    (m a b c e : List ℕ) → (a ++ (m ++ b)) ++ (m ++ (c ++ e)) ≡ a ++ (m ++ ((b ++ (m ++ c)) ++ e))
shift_middle m a b c e = simp append_assoc

query-middle :
    (a b c : List ℕ)
    → Lacks 0 a
    → Lacks 0 b
    → query (a ++ (query_middle ++ b)) c ≡ query a (b ++ (query_middle ++ c))
unfolding query c_str
query-middle a b c h g =
    ap (λ t. query_start ++ (t ++ (query_middle ++ (c_str c ++ query_end)))) left
    ∙ ap (◌++◌ query_start) (shift_middle query_middle a b (c_str c) query_end)
    ∙ sym (
        ap (λ t. query_start ++ (c_str a ++ (query_middle ++ (t ++ query_end)))) right
        ∙ ap
            (λ t.
              query_start
              ++ (t ++ (query_middle ++ ((b ++ (query_middle ++ c_str c)) ++ query_end))))
            (c_str_lem a h))
  where
    left : c_str (a ++ (query_middle ++ b)) ≡ a ++ (query_middle ++ b)
    left = c_str-append a (query_middle ++ b) h ∙ ap (λ t. a ++ (query_middle ++ t)) (c_str_lem b g)

    right : c_str (b ++ (query_middle ++ c)) ≡ b ++ (query_middle ++ c_str c)
    right = c_str-append b (query_middle ++ c) g

module _ (exec : Option ℕ → List ℕ → Option (List (List ℕ))) (conns : List ℕ) (i : ℕ) where
  -- Where `PickContext` finds a connection, `SelectUser` does one of two things. The name and the
  -- password, each up to its first zero byte, have more than 64 bytes together, and the query leaves the
  -- array `sql`; or they have not, and the result is what the database answers to the query.
  pub select_user_outcome :
      (name password : List ℕ) (c : Option ℕ) (j : ℕ)
      → pick_context conns i ≡ some (c, j)
      → ((64 < length (c_str name) + length (c_str password))
          × (select_user exec conns i name password ≡ none))
        ⊎ ((length (c_str name) + length (c_str password) ≤ 64)
            × (select_user exec conns i name password
                ≡ some (read_result (exec c (query name password)), j)))
  unfolding select_user print_query
  select_user_outcome name password c j e =
      elim (dec_le (length (c_str name) + length (c_str password)) 64) [
        | yes p ↦ inr (p, rw (e, fits p) refl)
        | no p ↦ inl (omega arith, rw (e, spills (omega arith)) refl)
      ]
    where
      fits :
          length (c_str name) + length (c_str password) ≤ 64
          → leb (length (query name password) + 1) sql_size ≡ true
      fits p = ground (arith, length-query name password)

      spills :
          64 < length (c_str name) + length (c_str password)
          → leb (length (query name password) + 1) sql_size ≡ false
      spills p = ground (arith, length-query name password)

  -- A name without zero bytes that holds `' and password = '`, with any password, is asked for as the part
  -- of the name before that text, with a password that holds it: the database cannot tell them apart.
  pub select_user-query_middle :
      (a b c : List ℕ)
      → Lacks 0 a
      → Lacks 0 b
      → select_user exec conns i (a ++ (query_middle ++ b)) c
        ≡ select_user exec conns i a (b ++ (query_middle ++ c))
  unfolding select_user print_query
  select_user-query_middle a b c h g = rw (query-middle a b c h g) refl

-- Strings up to a byte that they lack are read back.
split_unique :
    (q : ℕ) (xs ys r s : List ℕ)
    → Lacks q xs
    → Lacks q ys
    → xs ++ (q ∷ r) ≡ ys ++ (q ∷ s)
    → (xs ≡ ys) × (r ≡ s)
split_unique q [] [] r s h g e = (refl, cc e)
split_unique q [] (y ∷ ys) r s h g e = absurd (g.0 (cc e))
split_unique q (x ∷ xs) [] r s h g e = absurd (h.0 (cc e))
split_unique q (x ∷ xs) (y ∷ ys) r s h g e =
    let (a, b) = split_unique q xs ys r s h.1 g.1 (cc e) in (cc (a, e), b)

-- Names and passwords without quotes, each taken up to its first zero byte, can be told from the query.
pub query_unique :
    (name name' password password' : List ℕ)
    → Lacks b'\'' (c_str name)
    → Lacks b'\'' (c_str name')
    → Lacks b'\'' (c_str password)
    → Lacks b'\'' (c_str password')
    → query name password ≡ query name' password'
    → (c_str name ≡ c_str name') × (c_str password ≡ c_str password')
unfolding query
query_unique name name' password password' h h' k k' e =
    let (a, r) = split_unique b'\'' (c_str name) (c_str name') _ _ h h' (ap (drop 43) e) in
    let (b, _) = split_unique b'\'' (c_str password) (c_str password') _ _ k k' (ap (drop 17) r) in
    (a, b)
