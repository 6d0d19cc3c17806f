-- ===== src/Buffer/Receive.antt =====
-- `ReadFd`: what arrives from a socket goes behind the unread bytes.
use tiny_game_server.Base.{
  refl, ◌⊎◌, inl, inr, ℕ, ◌+◌, ◌-◌, ◌*◌, ◌^◌, ◌≤◌, ◌<◌, ◌≡◌, sym, ap, ◌∙◌, ◌↔◌, List, ◌++◌, none,
  some, arith, take, drop, length, length-take, length-drop, take_all, take-append-drop,
  append_assoc, store_at_ok, dec_le, leb, false,
}
use tiny_game_server.Buffer.{Buffer, append, new_buffer, read_fd, writable}
use tiny_game_server.Buffer.Invariant.{IsValid, size, contents, new_buffer-IsValid}
use tiny_game_server.Buffer.Append.{
  Fits, append-Fits, Overruns, IsModest, Appended, written, written-Appended, append_outcome,
}

-- `n` bytes are more than the array holds with the unread ones, and those that went to `extrabuf`
-- are not more than twice the capacity, less what was read before.
abbrev pub Spills : Buffer → ℕ → Type 0
Spills b n =
    (b.capacity < size b + n)
    × (n - (b.capacity - b.write_index) ≤ b.capacity + (b.capacity - b.read_index))

module _ (b : Buffer) (ys : List ℕ) (v : IsValid b) (m : IsModest b (length ys)) where
  -- The two ends of a read of `ys` into `b`.
  abbrev Outcome : Type 0
  Outcome =
      (Spills b (length ys) × (read_fd b (some ys) ≡ none))
      ⊎ ((¬ Spills b (length ys)) × (c : Buffer) × (read_fd b (some ys) ≡ some c) × Appended b ys c)

  room : writable b ≡ b.capacity - b.write_index
  room = omega arith

  pub read_fd_direct :
      length ys ≤ b.capacity - b.write_index → read_fd b (some ys) ≡ some (written b ys)
  unfolding read_fd
  read_fd_direct h =
      rw
        (
          room,
          take_all (b.capacity - b.write_index) ys h,
          store_at_ok b.memory b.write_index ys (omega arith),
        )
        (ground arith)

  -- What went into the array itself, and what did not.
  first : List ℕ
  first = take (b.capacity - b.write_index) ys

  extra : List ℕ
  extra = drop (b.capacity - b.write_index) ys

  -- The array filled up to its end.
  filled : Buffer
  filled = written b first

  module _ (h : b.capacity - b.write_index < length ys) where
    length-first : length first ≡ b.capacity - b.write_index
    unfolding first
    length-first = omega (arith, length-take (b.capacity - b.write_index) ys)

    length-extra : length extra ≡ length ys - (b.capacity - b.write_index)
    unfolding extra
    length-extra = length-drop (b.capacity - b.write_index) ys

    filled-Appended : Appended b first filled
    unfolding filled
    filled-Appended = written-Appended b first v (omega (arith, length-first))

    full : filled.write_index ≡ b.capacity
    unfolding filled
    full = omega (arith, length-first)

    too_long : leb (length ys) (b.capacity - b.write_index) ≡ false
    too_long = ground arith

    read_fd-extra : read_fd b (some ys) ≡ append filled extra
    unfolding read_fd filled first extra
    read_fd-extra =
        rw (room, store_at_ok b.memory b.write_index first (omega (arith, length-first)), too_long)
          (ap (λ w. append (record filled { write_index = w }) extra) (sym full))

    Spills-iff : Spills b (length ys) ↔ Overruns filled (length extra)
    unfolding filled
    Spills-iff = (
      λ (p, q). (omega (arith, length-extra, full), omega (arith, length-extra, full)),
      λ (p, q). (omega (arith, length-extra, full), omega (arith, length-extra, full)),
    )

    filled-IsModest : IsModest filled (length extra)
    unfolding filled
    filled-IsModest = omega (arith, length-extra)

    first-extra : first ++ extra ≡ ys
    unfolding first extra
    first-extra = take-append-drop (b.capacity - b.write_index) ys

    joined : contents filled ++ extra ≡ contents b ++ ys
    joined =
        ap (λ t. t ++ extra) filled-Appended.bytes
        ∙ append_assoc (contents b) first extra
        ∙ ap (◌++◌ (contents b)) first-extra

    -- The branch with bytes in `extrabuf` is the append of those.
    spilled_outcome : Outcome
    spilled_outcome = elim (append_outcome filled extra filled-Appended.valid filled-IsModest) [
      | inl (o, e) ↦ inl (Spills-iff.1 o, read_fd-extra ∙ e)
      | inr (n, c, e, a) ↦ inr (
        λ s. n (Spills-iff.0 s),
        c,
        read_fd-extra ∙ e,
        record { valid = a.valid; bytes = a.bytes ∙ joined },
      )
    ]

    spilled-Fits :
        Fits b (length ys)
        → (c : Buffer) × (read_fd b (some ys) ≡ some c)
          × Appended b ys c
          × (c.capacity ≡ b.capacity)
    unfolding filled
    spilled-Fits f =
        let (c, e, a, k) =
          append-Fits filled extra filled-Appended.valid filled-IsModest
            (omega (arith, length-extra, full)) in
        (c, read_fd-extra ∙ e, record { valid = a.valid; bytes = a.bytes ∙ joined }, k)

  -- A read of bytes from the socket into a valid buffer, where their number and the doubled capacity fit
  -- 32 bits, does one of two things. The bytes spill in the way that `grow` misses, and the write
  -- leaves the array; or they do not, and all of them stand behind the unread ones, in order, in a
  -- valid buffer.
  pub read_fd_outcome : Outcome
  read_fd_outcome = elim (dec_le (length ys) (b.capacity - b.write_index)) [
    | yes p ↦ inr (
      λ (q, r). omega arith,
      written b ys,
      read_fd_direct p,
      written-Appended b ys v (omega arith),
    )
    | no p ↦ spilled_outcome (omega arith)
  ]

  -- Bytes that fit go behind the unread ones in the same array.
  pub read_fd-Fits :
      Fits b (length ys)
      → (c : Buffer) × (read_fd b (some ys) ≡ some c) × Appended b ys c × (c.capacity ≡ b.capacity)
  read_fd-Fits f = elim (dec_le (length ys) (b.capacity - b.write_index)) [
    | yes p ↦ (written b ys, read_fd_direct p, written-Appended b ys v (omega arith), refl)
    | no p ↦ spilled-Fits (omega arith) f
  ]

-- A new buffer of any size is overrun by a read of more bytes than it has, up to three times as many,
-- if their number and the doubled size fit 32 bits.
pub read_fd-new_buffer :
    (junk : ℕ → ℕ → ℕ) (capacity : ℕ) (ys : List ℕ)
    → capacity * 2 + length ys < 2 ^ 32
    → capacity < length ys
    → length ys ≤ 3 * capacity
    → read_fd (new_buffer junk capacity) (some ys) ≡ none
unfolding new_buffer
read_fd-new_buffer junk capacity ys m h k =
    elim (read_fd_outcome (new_buffer junk capacity) ys
      (new_buffer-IsValid junk capacity (omega arith)).0 m) [
        | inl (s, e) ↦ e
        | inr (n, _, _, _) ↦ absurd (n (omega arith))
      ]
