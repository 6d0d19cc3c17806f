-- ===== src/Bytes/Network.antt =====
-- What `htonl`, `ntohl`, `htonll` and `ntohll` make of the bytes on the wire.
use tiny_game_server.Base.{
  ℕ, zero, suc, ◌+◌, ◌*◌, ◌/◌, ◌%◌, ◌^◌, ◌<◌, ◌≡◌, sym, ap, ap₂, ◌∙◌, List, [], ◌∷◌, ◌++◌, length,
  arith,
}
use tiny_game_server.Bytes.{
  Host, little, big, load_le, store_le, rev, load, store, hton, ntohll, htonll,
}
use tiny_game_server.Bytes.Order.{
  AreBytes, AreBytes-rev, store_le-AreBytes, rev-rev, length-rev, length-store, store_le-load_le,
  store-load, rev-append,
}

-- 256 ^ w
abbrev pub span : ℕ → ℕ
span zero = 1
span (suc w) = 256 * span w

pub load_le-lt : (xs : List ℕ) → AreBytes xs → load_le xs < span (length xs)
load_le-lt [] b = omega arith
load_le-lt (x ∷ xs) b = omega (arith, load_le-lt xs b.1)

pub load_le-store_le : (w n : ℕ) → n < span w → load_le (store_le w n) ≡ n
load_le-store_le zero n h = omega arith
load_le-store_le (suc w) n h = omega (arith, load_le-store_le w (n / 256) (omega arith))

pub store-AreBytes : (host : Host) (w n : ℕ) → AreBytes (store host w n)
unfolding store
store-AreBytes little w n = store_le-AreBytes w n
store-AreBytes big w n = AreBytes-rev (store_le w n) (store_le-AreBytes w n)

pub load-store : (host : Host) (w n : ℕ) → n < span w → load host (store host w n) ≡ n
unfolding load store
load-store little w n h = load_le-store_le w n h
load-store big w n h = ap load_le (rev-rev (store_le w n)) ∙ load_le-store_le w n h

pub load-lt : (host : Host) (xs : List ℕ) → AreBytes xs → load host xs < span (length xs)
unfolding load
load-lt little xs b = load_le-lt xs b
load-lt big xs b = rw (length-rev xs) at (load_le-lt (rev xs) (AreBytes-rev xs b))

-- On either host an integer that went through `hton` has its network bytes in memory.
pub store-hton : (host : Host) (w n : ℕ) → store host w (hton host w n) ≡ store big w n
unfolding hton
store-hton host w n =
    store-load host w (store big w n) (length-store big w n) (store-AreBytes big w n)

-- `hton` of an integer in memory is its value in network order.
pub hton-load :
    (host : Host) (w : ℕ) (xs : List ℕ)
    → length xs ≡ w
    → AreBytes xs
    → hton host w (load host xs) ≡ load big xs
unfolding hton load store
hton-load little w xs h b = ap (λ t. load_le (rev t)) (store_le-load_le w xs h b)
hton-load big w xs h b =
    ap load_le (rev-rev (store_le w (load_le (rev xs))))
    ∙ ap load_le (store_le-load_le w (rev xs) (length-rev xs ∙ h) (AreBytes-rev xs b))

pub hton-hton : (host : Host) (w n : ℕ) → n < span w → hton host w (hton host w n) ≡ n
hton-hton host w n h =
    unfold hton in
    hton-load host w (store big w n) (length-store big w n) (store-AreBytes big w n)
    ∙ load-store big w n h

pub hton-lt : (host : Host) (w n : ℕ) → hton host w n < span w
unfolding hton
hton-lt host w n =
    rw (length-store big w n) at (load-lt host (store big w n) (store-AreBytes big w n))

pub htonll-lt : (host : Host) (n : ℕ) → htonll host n < 2 ^ 64
unfolding htonll
htonll-lt host n = omega arith

-- The two halves of a 64-bit integer change places.
ntohll-halves :
    (host : Host) (a b n : ℕ)
    → b < 2 ^ 32
    → n ≡ a * 2 ^ 32 + b
    → ntohll host n ≡ hton host 4 b * 2 ^ 32 + hton host 4 a
unfolding ntohll
ntohll-halves host a b n h e = rw (low, high) (omega (arith, hton-lt host 4 b, hton-lt host 4 a))
  where
    low : n % 2 ^ 32 ≡ b
    low = omega arith

    high : n / 2 ^ 32 ≡ a
    high = omega arith

-- The two conversions of 64-bit integers undo one another, on hosts of either byte order.
pub ntohll-htonll : (host : Host) (n : ℕ) → n < 2 ^ 64 → ntohll host (htonll host n) ≡ n
unfolding htonll
ntohll-htonll host n h =
    ntohll-halves host (hton host 4 low) (hton host 4 high) (ntohll host n) (hton-lt host 4 high)
      (ntohll-halves host high low n (omega arith) (omega arith))
    ∙ omega (arith, hton-hton host 4 high (omega arith), hton-hton host 4 low (omega arith))
  where
    high : ℕ
    high = n / 2 ^ 32

    low : ℕ
    low = n % 2 ^ 32

store_le-split :
    (k w v a b : ℕ)
    → k ≡ w + v
    → a < span w
    → store_le k (a + span w * b) ≡ store_le w a ++ store_le v b
store_le-split k zero v a b e h =
    ap (λ t. store_le t (a + 1 * b)) (omega arith) ∙ ap (store_le v) (omega arith)
store_le-split zero (suc w) v a b e h = absurd (omega arith)
store_le-split (suc k) (suc w) v a b e h =
    ap (λ t. t ∷ store_le k ((a + span (suc w) * b) / 256)) first
    ∙ ap (λ t. a % 256 ∷ store_le k t) others
    ∙ ap (◌∷◌ (a % 256)) (store_le-split k w v (a / 256) b (omega arith) (omega arith))
  where
    first : (a + span (suc w) * b) % 256 ≡ a % 256
    first = omega arith

    others : (a + span (suc w) * b) / 256 ≡ a / 256 + span w * b
    others = omega arith

-- On a little-endian host a converted 64-bit integer has its network bytes in memory.
pub store-htonll : (n : ℕ) → n < 2 ^ 64 → store little 8 (htonll little n) ≡ store big 8 n
unfolding htonll
store-htonll n h =
    ap (store little 8) (ntohll-halves little high low n (omega arith) (omega arith))
    ∙ halves
    ∙ ap₂ ◌++◌ (store-hton little 4 high) (store-hton little 4 low)
    ∙ sym wire
  where
    high : ℕ
    high = n / 2 ^ 32

    low : ℕ
    low = n % 2 ^ 32

    halves :
        store little 8 (hton little 4 low * 2 ^ 32 + hton little 4 high)
        ≡ store little 4 (hton little 4 high) ++ store little 4 (hton little 4 low)
    halves =
        unfold store in
        ap (store_le 8) (omega arith)
        ∙ store_le-split 8 4 4 (hton little 4 high) (hton little 4 low) (omega arith)
            (hton-lt little 4 high)

    wire : store big 8 n ≡ store big 4 high ++ store big 4 low
    wire =
        unfold store in
        ap (λ t. rev (store_le 8 t)) (omega arith)
        ∙ ap rev (store_le-split 8 4 4 low high (omega arith) (omega arith))
        ∙ rev-append (store_le 4 low) (store_le 4 high)

-- On a little-endian host `ntohll` of an integer in memory is its value in network order.
pub ntohll-load :
    (xs : List ℕ) → length xs ≡ 8 → AreBytes xs → ntohll little (load little xs) ≡ load big xs
ntohll-load xs h b =
    ap (λ t. ntohll little (load little t)) bytes
    ∙ ap (ntohll little) (load-store little 8 (htonll little value) (htonll-lt little value))
    ∙ ntohll-htonll little value small
  where
    value : ℕ
    value = load big xs

    small : value < 2 ^ 64
    small = rw h at (load-lt big xs b)

    bytes : xs ≡ store little 8 (htonll little value)
    bytes = sym (store-htonll value small ∙ store-load big 8 xs h b)
