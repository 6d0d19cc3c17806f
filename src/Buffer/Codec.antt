-- ===== src/Buffer/Codec.antt =====
-- The integers that a buffer carries, on hosts of either byte order.
use tiny_game_server.Base.{
  ℕ, ◌+◌, ◌^◌, ◌≤◌, ◌<◌, ◌≡◌, ap, ◌∙◌, List, ◌++◌, Option, some, ◌>>=◌, arith, take, drop, length,
  length-append, take-append_left, take_all, drop-append, append_assoc,
}
use tiny_game_server.Bytes.{Host, big, load, store, hton, htonll}
use tiny_game_server.Bytes.Order.{length-store}
use tiny_game_server.Bytes.Network.{
  span, store-AreBytes, load-store, store-hton, hton-load, ntohll-htonll, htonll-lt,
}
use tiny_game_server.Buffer.{
  Buffer, append, append_int16, append_int32, append_int64, read_bytes, read_int16, read_int32,
  read_int64,
}
use tiny_game_server.Buffer.Invariant.{IsValid, size, contents, length-contents}
use tiny_game_server.Buffer.Append.{Fits, IsModest, append-Fits}
use tiny_game_server.Buffer.Read.{advanced, read_bytes_ok}

-- `c` is `b` with the bytes `ys` behind the unread ones, in an array of the same size.
abbrev pub Adds : Buffer → List ℕ → Option Buffer → Type 0
Adds b ys r =
    (c : Buffer) × (r ≡ some c)
    × IsValid c
    × (contents c ≡ contents b ++ ys)
    × (c.capacity ≡ b.capacity)

-- A valid buffer with room for `n` more bytes.
pub record HasRoom (b : Buffer) (n : ℕ) : Type 0 where
  pub valid : IsValid b
  pub modest : IsModest b n
  pub fits : Fits b n

pub append-Adds :
    (b : Buffer) (ys : List ℕ) (n : ℕ) → length ys ≡ n → HasRoom b n → Adds b ys (append b ys)
append-Adds b ys n k h =
    let (c, e, a, k) = append-Fits b ys h.valid (omega arith) (omega arith) in
    (c, e, a.valid, a.bytes, k)

Adds-HasRoom :
    (b c : Buffer) (xs : List ℕ) (m n : ℕ)
    → length xs ≡ m
    → HasRoom b (m + n)
    → IsValid c
    → contents c ≡ contents b ++ xs
    → c.capacity ≡ b.capacity
    → HasRoom c n
Adds-HasRoom b c xs m n l h v e k = record {
  valid = v;
  modest = omega (arith, sizes);
  fits = omega (arith, sizes);
}
  where
    sizes : size c ≡ size b + m
    sizes = omega (
      arith,
      length-contents b h.valid,
      length-contents c v,
      ap length e,
      length-append (contents b) xs,
    )

-- A second append goes on where the first one stopped.
pub Adds-bind :
    (b : Buffer) (xs ys : List ℕ) (m n : ℕ) (r : Option Buffer) (f : Buffer → Option Buffer)
    → length xs ≡ m
    → HasRoom b (m + n)
    → Adds b xs r
    → ((c : Buffer) → HasRoom c n → Adds c ys (f c))
    → Adds b (xs ++ ys) (r >>= f)
Adds-bind b xs ys m n r f l h (c, e, v, s, k) next =
    let (d, e', v', s', k') = next c (Adds-HasRoom b c xs m n l h v s k) in
    (d, rw e e', v', s' ∙ ap (λ t. t ++ ys) s ∙ append_assoc (contents b) xs ys, k' ∙ k)

-- A read takes the bytes `xs` off the front and returns `a` for them.
abbrev pub Takes : {A : Type 0} → List ℕ → A → Option (A × Buffer) → Type 0
Takes rest a r = (c : Buffer) × (r ≡ some (a, c)) × IsValid c × (contents c ≡ rest)

-- What is done with a buffer after an append.
pub Adds-then {ℓ} :
    {B : Type 0} (P : Option B → Type ℓ) (b : Buffer) (ys : List ℕ) (r : Option Buffer)
    (f : Buffer → Option B)
    → Adds b ys r
    → ((c : Buffer) → IsValid c → contents c ≡ contents b ++ ys → P (f c))
    → P (r >>= f)
Adds-then P b ys r f (c, e, v, s, k) next = rw e (next c v s)

-- A second read goes on with the bytes that the first one left.
pub Takes-bind {ℓ} :
    {A B : Type 0} (P : Option B → Type ℓ) (rest : List ℕ) (a : A) (r : Option (A × Buffer))
    (f : A × Buffer → Option B)
    → Takes rest a r
    → ((c : Buffer) → IsValid c → contents c ≡ rest → P (f (a, c)))
    → P (r >>= f)
Takes-bind P rest a r f (c, e, v, s) next = rw e (next c v s)

module _ (b : Buffer) (xs rest : List ℕ) (v : IsValid b) (e : contents b ≡ xs ++ rest) where
  pub read_bytes-Takes : (w : ℕ) → length xs ≡ w → Takes rest xs (read_bytes b w)
  read_bytes-Takes w h =
      let (r, d) = read_bytes_ok b v w long in
      (
        advanced b w,
        r ∙ ap (λ t. some (t, advanced b w)) (ap (take w) e ∙ first),
        d.valid,
        d.others ∙ ap (drop w) e ∙ drop-append w 0 xs rest (omega arith),
      )
    where
      long : w ≤ size b
      long = omega (arith, length-contents b v, ap length e, length-append xs rest)

      first : take w (xs ++ rest) ≡ xs
      first = take-append_left w xs rest (omega arith) ∙ take_all w xs (omega arith)

module _ (host : Host) where
  -- An integer goes out in network order.
  pub append_int16_lem :
      (b : Buffer) (n : ℕ) → HasRoom b 2 → Adds b (store big 2 n) (append_int16 host b n)
  unfolding append_int16
  append_int16_lem b n h =
      rw (store-hton host 2 n) (append-Adds b (store big 2 n) 2 (length-store big 2 n) h)

  pub append_int32_lem :
      (b : Buffer) (n : ℕ) → HasRoom b 4 → Adds b (store big 4 n) (append_int32 host b n)
  unfolding append_int32
  append_int32_lem b n h =
      rw (store-hton host 4 n) (append-Adds b (store big 4 n) 4 (length-store big 4 n) h)

  pub append_int64_lem :
      (b : Buffer) (n : ℕ)
      → HasRoom b 8
      → Adds b (store host 8 (htonll host n)) (append_int64 host b n)
  unfolding append_int64
  append_int64_lem b n h =
      append-Adds b (store host 8 (htonll host n)) 8 (length-store host 8 (htonll host n)) h

  hton-word : (w n : ℕ) → n < span w → hton host w (load host (store big w n)) ≡ n
  hton-word w n h =
      hton-load host w (store big w n) (length-store big w n) (store-AreBytes big w n)
      ∙ load-store big w n h

  pub read_int16_lem :
      (b : Buffer) (n : ℕ) (rest : List ℕ)
      → IsValid b
      → n < 2 ^ 16
      → contents b ≡ store big 2 n ++ rest
      → Takes rest n (read_int16 host b)
  unfolding read_int16
  read_int16_lem b n rest v h e =
      let (c, r, w, o) = read_bytes-Takes b (store big 2 n) rest v e 2 (length-store big 2 n) in
      (c, rw (r, hton-word 2 n h), w, o)

  pub read_int32_lem :
      (b : Buffer) (n : ℕ) (rest : List ℕ)
      → IsValid b
      → n < 2 ^ 32
      → contents b ≡ store big 4 n ++ rest
      → Takes rest n (read_int32 host b)
  unfolding read_int32
  read_int32_lem b n rest v h e =
      let (c, r, w, o) = read_bytes-Takes b (store big 4 n) rest v e 4 (length-store big 4 n) in
      (c, rw (r, hton-word 4 n h), w, o)

  pub read_int64_lem :
      (b : Buffer) (n : ℕ) (rest : List ℕ)
      → IsValid b
      → n < 2 ^ 64
      → contents b ≡ store host 8 (htonll host n) ++ rest
      → Takes rest n (read_int64 host b)
  unfolding read_int64
  read_int64_lem b n rest v h e =
      let (c, r, w, o) =
        read_bytes-Takes b (store host 8 (htonll host n)) rest v e 8
          (length-store host 8 (htonll host n)) in
      (
        c,
        rw (r, load-store host 8 (htonll host n) (htonll-lt host n), ntohll-htonll host n h),
        w,
        o,
      )
