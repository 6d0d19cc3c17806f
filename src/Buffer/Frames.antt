-- ===== src/Buffer/Frames.antt =====
-- The header of the servers' messages, a tag, a length and an id, as a buffer carries it.
use tiny_game_server.Base.{
  ℕ, ◌+◌, ◌-◌, ◌*◌, ◌/◌, ◌%◌, ◌^◌, ◌≤◌, ◌<◌, ◌≡◌, refl, sym, ap, ◌∙◌, List, [], ◌∷◌, ◌++◌, Option,
  some, ◌>>=◌, arith, take, drop, length, length-append, take-append_left, take_all, load_at_ok,
  slice, take-take, add32, append_assoc, drop-take, drop-drop, append-nil,
}
use tiny_game_server.Bytes.{Host, little, big, load, store, hton, htonll}
use tiny_game_server.Bytes.Order.{length-store}
use tiny_game_server.Buffer.{
  Buffer, append_int8, append_int32, append_int64, read_int8, read_int32, read_int64, peek_tag_len,
}
use tiny_game_server.Buffer.Invariant.{IsValid, size, contents, length-contents}
use tiny_game_server.Buffer.Codec.{
  HasRoom, Adds, Adds-bind, Adds-then, Takes, Takes-bind, append-Adds, append_int32_lem,
  append_int64_lem, read_bytes-Takes, read_int32_lem, read_int64_lem,
}

pub append_int8_lem : (b : Buffer) (n : ℕ) → HasRoom b 1 → Adds b (n ∷ []) (append_int8 b n)
unfolding append_int8
append_int8_lem b n h = append-Adds b (n ∷ []) 1 refl h

pub read_int8_lem :
    (b : Buffer) (n : ℕ) (rest : List ℕ)
    → IsValid b
    → contents b ≡ n ∷ rest
    → Takes rest n (read_int8 b)
unfolding read_int8
read_int8_lem b n rest v e =
    let (c, r, w, o) = read_bytes-Takes b (n ∷ []) rest v e 1 refl in
    (c, rw r (ap (λ t. some (t, c)) (omega arith)), w, o)

module _ (host : Host) where
  pub write_header : Buffer → ℕ → ℕ → ℕ → Option Buffer
  write_header b tag len id = do
    tagged ← append_int8 b tag
    measured ← append_int32 host tagged len
    append_int64 host measured id

  pub read_header : Buffer → Option ((ℕ × ℕ × ℕ) × Buffer)
  read_header b = do
    (tag, b1) ← read_int8 b
    (len, b2) ← read_int32 host b1
    (id, b3) ← read_int64 host b2
    some ((tag, len, id), b3)

  abbrev pub header_bytes : ℕ → ℕ → ℕ → List ℕ
  header_bytes tag len id = tag ∷ (store big 4 len ++ store host 8 (htonll host id))

  pub write_header_lem :
      (b : Buffer) (tag len id : ℕ)
      → HasRoom b 13
      → Adds b (header_bytes tag len id) (write_header b tag len id)
  unfolding write_header
  write_header_lem b tag len id h =
      Adds-bind b (tag ∷ []) _ 1 12 _ _ refl h (append_int8_lem b tag (omega arith)) λ c k.
        Adds-bind c (store big 4 len) _ 4 8 _ _ (length-store big 4 len) k
          (append_int32_lem host c len (omega arith)) λ d l. append_int64_lem host d id l

  pub read_header_lem :
      (b : Buffer) (tag len id : ℕ) (rest : List ℕ)
      → IsValid b
      → len < 2 ^ 32
      → id < 2 ^ 64
      → contents b ≡ header_bytes tag len id ++ rest
      → Takes rest (tag, len, id) (read_header b)
  unfolding read_header
  read_header_lem b tag len id rest v l i e =
      Takes-bind (Takes rest (tag, len, id)) _ tag (read_int8 b) _ (read_int8_lem b tag _ v e)
        λ c w o.
          Takes-bind (Takes rest (tag, len, id)) _ len (read_int32 host c) _
            (read_int32_lem host c len _ w l (o ∙ append_assoc (store big 4 len) _ rest))
            λ d x p.
              Takes-bind (Takes rest (tag, len, id)) rest id (read_int64 host d) _
                (read_int64_lem host d id rest x i p) λ k y q. (k, refl, y, q)

  -- A tag, a length of 32 bits and an id of 64 bits that are appended to a valid buffer without
  -- unread bytes, with room for 13 bytes, are what is read back, and nothing is left, on hosts of
  -- either byte order.
  pub header_roundtrip :
      (b : Buffer) (tag len id : ℕ)
      → HasRoom b 13
      → contents b ≡ []
      → len < 2 ^ 32
      → id < 2 ^ 64
      → Takes [] (tag, len, id) (write_header b tag len id >>= read_header)
  header_roundtrip b tag len id h e l i =
      Adds-then (Takes [] (tag, len, id)) b (header_bytes tag len id) _ read_header
        (write_header_lem b tag len id h)
        λ c v o.
          read_header_lem c tag len id [] v l i
            (o ∙ ap (λ t. t ++ header_bytes tag len id) e ∙ sym (append-nil _))

-- `PeekTagLen` finds the tag, and the length with its bytes in the order of the host.
pub peek_tag_len_lem :
    (host : Host) (b : Buffer) (tag len : ℕ) (rest : List ℕ)
    → IsValid b
    → contents b ≡ tag ∷ (store big 4 len ++ rest)
    → peek_tag_len host b ≡ some (tag, hton host 4 len)
unfolding peek_tag_len hton
peek_tag_len_lem host b tag len rest v e =
    rw
      (
        load_at_ok b.memory b.read_index 1 (omega (arith, long)),
        next,
        load_at_ok b.memory (b.read_index + 1) 4 (omega (arith, long)),
        first,
        second,
      )
      (ap (λ t. some (t, load host (store big 4 len))) (omega arith))
  where
    long : 5 ≤ size b
    long = omega (
      arith,
      length-contents b v,
      ap length e,
      length-append (store big 4 len) rest,
      length-store big 4 len,
    )

    next : add32 b.read_index 1 ≡ b.read_index + 1
    next = omega (arith, long)

    first : slice b.memory b.read_index 1 ≡ tag ∷ []
    first =
        sym (take-take 1 (size b) (drop b.read_index b.memory) (omega (arith, long)))
        ∙ ap (take 1) e

    second : slice b.memory (b.read_index + 1) 4 ≡ store big 4 len
    second =
        ap (take 4) (sym (drop-drop 1 b.read_index (b.read_index + 1) b.memory refl))
        ∙ sym (take-take 4 (size b - 1) (drop 1 (drop b.read_index b.memory)) (omega (arith, long)))
        ∙ ap (take 4) (
            sym
              (drop-take 1 (size b) (size b - 1) (drop b.read_index b.memory) (omega (arith, long)))
            ∙ ap (drop 1) e)
        ∙ take-append_left 4 (store big 4 len) rest (omega (arith, length-store big 4 len))
        ∙ take_all 4 (store big 4 len) (omega (arith, length-store big 4 len))

-- The bytes of a length in the other order.
pub hton-little :
    (n : ℕ)
    → hton little 4 n
      ≡ n % 256 * 2 ^ 24 + n / 2 ^ 8 % 256 * 2 ^ 16 + n / 2 ^ 16 % 256 * 2 ^ 8 + n / 2 ^ 24 % 256
unfolding hton load store
hton-little n = omega arith

-- In a valid buffer that starts with a tag and a length in network order that is no multiple of
-- 256, `PeekTagLen` on a little-endian host finds the tag, and a length of 16 MiB or more.
pub peek-len-le :
    (b : Buffer) (tag len : ℕ) (rest : List ℕ)
    → IsValid b
    → contents b ≡ tag ∷ (store big 4 len ++ rest)
    → 0 < len % 256
    → (seen : ℕ) × (peek_tag_len little b ≡ some (tag, seen)) × (2 ^ 24 ≤ seen)
peek-len-le b tag len rest v e h =
    (hton little 4 len, peek_tag_len_lem little b tag len rest v e, omega (arith, hton-little len))
