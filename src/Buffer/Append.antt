-- ===== src/Buffer/Append.antt =====
-- `append`: when it stays inside the array, and what the buffer holds after it.
use tiny_game_server.Base.{
  ℕ, ◌+◌, ◌-◌, ◌*◌, ◌^◌, ◌≤◌, ◌<◌, ◌≡◌, refl, ap, ◌∙◌, ◌⊎◌, inl, inr, List, ◌++◌, none, some, arith,
  add32, take, drop, length, store_at_ok, store_at_out, length-store, ltb, lt→ltb, ge→ltb, dec_le,
  sub32,
}
use tiny_game_server.Buffer.{Buffer, append, ensure_capacity, grow, adjust, reallocate}
use tiny_game_server.Buffer.Invariant.{
  IsValid, Moved, size, contents, slice-store, adjust-Moved, reallocate-Moved,
}

-- `n` more bytes fit in the array once the unread ones are moved to its front.
abbrev pub Fits : Buffer → ℕ → Type 0
Fits b n = size b + n ≤ b.capacity

-- The test in `grow` sees that the array is too small.
abbrev pub Grows : Buffer → ℕ → Type 0
Grows b n = b.capacity + size b < n

-- Neither.
abbrev pub Overruns : Buffer → ℕ → Type 0
Overruns b n = (b.capacity < size b + n) × (n ≤ b.capacity + size b)

-- The sums that `grow` takes do not wrap.
abbrev pub IsModest : Buffer → ℕ → Type 0
IsModest b n = b.capacity * 2 + n < 2 ^ 32

pub record Appended (b : Buffer) (ys : List ℕ) (c : Buffer) : Type 0 where
  pub valid : IsValid c
  pub bytes : contents c ≡ contents b ++ ys

-- A write of bytes behind the unread ones.
abbrev pub written : Buffer → List ℕ → Buffer
written b ys = record b {
  memory = take b.write_index b.memory ++ (ys ++ drop (b.write_index + length ys) b.memory);
  write_index = add32 b.write_index (length ys);
}

pub written-Appended :
    (b : Buffer) (ys : List ℕ)
    → IsValid b
    → b.write_index + length ys ≤ b.capacity
    → Appended b ys (written b ys)
written-Appended b ys v h = record {
  valid = record {
    sized = length-store b.memory b.write_index ys (omega arith) ∙ v.sized;
    ordered = omega arith;
    inside = omega arith;
    narrow = v.narrow;
  };
  bytes =
      slice-store b.memory ys b.read_index b.write_index _ v.ordered (omega arith) (omega arith);
}

-- What `ensure_capacity` leaves: the same bytes, with the write index at a known place.
record Ensured (b : Buffer) (cap : ℕ) (c : Buffer) : Type 0 where
  valid : IsValid c
  same : contents c ≡ contents b
  capacity_is : c.capacity ≡ cap

module _ (b : Buffer) (n : ℕ) (v : IsValid b) (m : IsModest b n) where
  grow_tests :
      ltb (sub32 (add32 b.write_index b.capacity) b.read_index) n ≡ ltb (b.capacity + size b) n
  grow_tests = ap (λ t. ltb t n) (omega arith)

  ensure_tests : ltb (sub32 b.capacity b.write_index) n ≡ ltb (b.capacity - b.write_index) n
  ensure_tests = ap (λ t. ltb t n) (omega arith)

  ensure_in_place : b.write_index + n ≤ b.capacity → ensure_capacity b n ≡ some b
  unfolding ensure_capacity
  ensure_in_place h = rw (ensure_tests, ge→ltb (b.capacity - b.write_index) n (omega arith))

  ensure_adjusts :
      b.capacity < b.write_index + n → n ≤ b.capacity + size b → ensure_capacity b n ≡ adjust b
  unfolding ensure_capacity grow
  ensure_adjusts h k = rw (
    ensure_tests,
    lt→ltb (b.capacity - b.write_index) n (omega arith),
    grow_tests,
    ge→ltb (b.capacity + size b) n k,
  )

  ensure_reallocates : Grows b n → ensure_capacity b n ≡ reallocate b n
  unfolding ensure_capacity grow
  ensure_reallocates h = rw (
    ensure_tests,
    lt→ltb (b.capacity - b.write_index) n (omega arith),
    grow_tests,
    lt→ltb (b.capacity + size b) n h,
  )

  abbrev Ensures : ℕ → Type 0
  Ensures cap =
      (c : Buffer) × (ensure_capacity b n ≡ some c)
      × IsValid c
      × (contents c ≡ contents b)
      × (c.capacity ≡ cap)
      × (c.write_index + n ≤ cap)

  Ensures-Moved :
      (cap : ℕ)
      → n + size b ≤ cap
      → (c : Buffer) × (ensure_capacity b n ≡ some c) × Moved b cap c
      → Ensures cap
  Ensures-Moved cap h (c, e, w) =
      (c, e, w.valid, w.same, w.capacity_is, omega (arith, w.write_index_is))

  Ensures-Fits : Fits b n → Ensures b.capacity
  Ensures-Fits h = elim (dec_le (b.write_index + n) b.capacity) [
    | yes p ↦ (b, ensure_in_place p, v, refl, refl, p)
    | no p ↦
        Ensures-Moved b.capacity (omega arith)
          (rw (ensure_adjusts (omega arith) (omega arith)) (adjust-Moved b v))
  ]

  Ensures-Grows : Grows b n → Ensures (b.capacity * 2 + n)
  Ensures-Grows h =
      Ensures-Moved (b.capacity * 2 + n) (omega arith)
        (rw (ensure_reallocates h) (reallocate-Moved b v n m))

-- What `append` does once there is room.
append-ensured :
    (b c : Buffer) (ys : List ℕ)
    → ensure_capacity b (length ys) ≡ some c
    → IsValid c
    → contents c ≡ contents b
    → c.write_index + length ys ≤ c.capacity
    → (append b ys ≡ some (written c ys)) × Appended b ys (written c ys)
unfolding append
append-ensured b c ys e v s h = (
  rw (e, store_at_ok c.memory c.write_index ys (omega arith)),
  record { valid = w.valid; bytes = w.bytes ∙ ap (λ t. t ++ ys) s },
)
  where
    w : Appended c ys (written c ys)
    w = written-Appended c ys v h

module _ (b : Buffer) (ys : List ℕ) (v : IsValid b) (m : IsModest b (length ys)) where
  abbrev Appends : ℕ → Type 0
  Appends cap = (c : Buffer) × (append b ys ≡ some c) × Appended b ys c × (c.capacity ≡ cap)

  Appends-ensured : (cap : ℕ) → Ensures b (length ys) v m cap → Appends cap
  Appends-ensured cap (c, e, w, s, k, r) =
      let (done, out) = append-ensured b c ys e w s (omega arith) in (written c ys, done, out, k)

  -- Bytes that fit are appended, in the same array.
  pub append-Fits : Fits b (length ys) → Appends b.capacity
  append-Fits h = Appends-ensured b.capacity (Ensures-Fits b (length ys) v m h)

  -- Bytes for which `grow` allocates are appended, in an array of twice the size and their number.
  pub append-Grows : Grows b (length ys) → Appends (b.capacity * 2 + length ys)
  append-Grows h = Appends-ensured _ (Ensures-Grows b (length ys) v m h)

  -- Between the two the write leaves the array.
  pub append-Overruns : Overruns b (length ys) → append b ys ≡ none
  unfolding append
  append-Overruns (h, k) =
      let (c, e, w) = adjust-Moved b v in
      rw (ensure_adjusts b (length ys) v m (omega arith) k, e)
        (rw (store_at_out c.memory c.write_index ys (out c w)) refl)
    where
      out : (c : Buffer) → Moved b b.capacity c → length c.memory < c.write_index + length ys
      out c w = omega (arith, w.valid.sized, w.write_index_is, w.capacity_is)

  append_cases : Fits b (length ys) ⊎ (Grows b (length ys) ⊎ Overruns b (length ys))
  append_cases = elim (dec_le (size b + length ys) b.capacity) [
    | yes p ↦ inl p
    | no p ↦ elim (dec_le (length ys) (b.capacity + size b)) [
      | yes q ↦ inr (inr (omega arith, q))
      | no q ↦ inr (inl (omega arith))
    ]
  ]

  -- An append of bytes whose number and the doubled capacity fit 32 bits, to a valid buffer, does one of
  -- two things. The bytes do not fit behind the unread ones but do not outnumber the capacity and the
  -- unread bytes together, and the write leaves the array; or it is not so, and the bytes stand
  -- behind the unread ones in a valid buffer.
  pub append_outcome :
      (Overruns b (length ys) × (append b ys ≡ none))
      ⊎ ((¬ Overruns b (length ys)) × (c : Buffer) × (append b ys ≡ some c) × Appended b ys c)
  append_outcome = elim append_cases [
    | inl h ↦ let (c, e, a, _) = append-Fits h in inr (λ o. omega (arith, o.0), c, e, a)
    | inr (inl h) ↦ let (c, e, a, _) = append-Grows h in inr (λ o. omega (arith, o.1), c, e, a)
    | inr (inr h) ↦ inl (h, append-Overruns h)
  ]
