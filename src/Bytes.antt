-- ===== src/Bytes.antt =====
-- Integers as the bytes that hold them: `memcpy` from and into an integer in host order, `htonl` and
-- its relatives, and the `ntohll` and `htonll` of src/util/Buffer.h. The byte order of the host is a
-- parameter.
pub mod Order
pub mod Network
use tiny_game_server.Base.{ℕ, zero, suc, ◌+◌, ◌*◌, ◌/◌, ◌%◌, ◌^◌, List, [], ◌∷◌, ◌++◌}

pub data Host : Type 0 where
  little big : Host

-- The value of bytes, the least significant first.
abbrev pub load_le : List ℕ → ℕ
load_le [] = 0
load_le (x ∷ xs) = x + 256 * load_le xs

-- The last `w` bytes of a number, the least significant first.
abbrev pub store_le : ℕ → ℕ → List ℕ
store_le zero n = []
store_le (suc w) n = (n % 256) ∷ store_le w (n / 256)

abbrev pub rev : List ℕ → List ℕ
rev [] = []
rev (x ∷ xs) = rev xs ++ (x ∷ [])

-- An integer in the memory of the host, and back.
unfoldable pub load : Host → List ℕ → ℕ
load little xs = load_le xs
load big xs = load_le (rev xs)

unfoldable pub store : Host → ℕ → ℕ → List ℕ
store little w n = store_le w n
store big w n = rev (store_le w n)

-- `htons` at 2 bytes and `htonl` at 4, by their documentation: the number whose bytes in host memory
-- are those of `n` in network order. `ntohs` and `ntohl` are the same functions.
unfoldable pub hton : Host → ℕ → ℕ → ℕ
hton host w n = load host (store big w n)

-- The sum is taken in 64 bits, and `htonl` takes its argument as 32.
unfoldable pub ntohll : Host → ℕ → ℕ
ntohll host n = (hton host 4 (n % 2 ^ 32) * 2 ^ 32 + hton host 4 (n / 2 ^ 32)) % 2 ^ 64

unfoldable pub htonll : Host → ℕ → ℕ
unfolding ntohll
htonll host n = ntohll host n
