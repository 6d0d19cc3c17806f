-- ===== src/Buffer.antt =====
-- src/util/Buffer.h and src/util/Buffer.cpp. A method returns the new buffer, beside its result;
-- `none` is an access outside the array `buffer_`, which is undefined behaviour in C++. Integers are
-- the bit patterns of the types that the code uses, so an `int64_t` is a number below 2 ^ 64.
pub mod Invariant
pub mod Append
pub mod Read
pub mod Codec
pub mod Frames
pub mod Receive
use tiny_game_server.Base.{
  ℕ, ◌+◌, ◌-◌, ◌*◌, ◌^◌, List, [], ◌∷◌, ◌++◌, Option, none, some, ltb, leb, if◌then◌else◌, ◌>>=◌,
  u32, add32, sub32, take, drop, length, slice, load_at, store_at, block,
}
use tiny_game_server.Bytes.{Host, load_le, load, store, hton, ntohll, htonll}

pub record Buffer : Type 0 where
  pub memory : List ℕ  -- what `buffer_` points to
  pub capacity : ℕ
  pub read_index : ℕ
  pub write_index : ℕ
  -- The byte at an offset of a new block of a given size: `new char[n]` sets none of them.
  pub junk : ℕ → ℕ → ℕ

abbrev pub initial_size : ℕ
initial_size = 8192

-- `Buffer(capacity)`
unfoldable pub new_buffer : (ℕ → ℕ → ℕ) → ℕ → Buffer
new_buffer junk capacity = record {
  memory = block (junk capacity) capacity;
  capacity = capacity;
  read_index = 0;
  write_index = 0;
  junk = junk;
}

-- The subtraction is of `unsigned int`.
unfoldable pub get_length : Buffer → ℕ
get_length b = sub32 b.write_index b.read_index

-- `GetData`, as the bytes that a caller reads through the pointer.
unfoldable pub get_data : Buffer → ℕ → Option (List ℕ)
get_data b n = load_at b.memory b.read_index n

unfoldable pub clear : Buffer → Buffer
clear b = record b { read_index = 0; write_index = 0 }

-- `Forward`. The test converts `num` to `unsigned int`, so a negative one is a large number.
unfoldable pub forward : Buffer → ℕ → Buffer
forward b num =
    if ltb num (get_length b)
    then record b { read_index = add32 b.read_index num }
    else record b { read_index = 0; write_index = 0 }

-- Growing and writing.

unfoldable pub adjust : Buffer → Option Buffer
adjust b = do
  kept ← load_at b.memory b.read_index (get_length b)
  moved ← store_at b.memory 0 kept
  some (record b { memory = moved; read_index = 0; write_index = get_length b })

-- The branch of `grow` that allocates: `cap` is computed in `unsigned int`.
unfoldable pub reallocate : Buffer → ℕ → Option Buffer
reallocate b n = do
  let cap = u32 (b.capacity * 2 + n)
  kept ← load_at b.memory b.read_index (get_length b)
  copied ← store_at (block (b.junk cap) cap) 0 kept
  some (record b { memory = copied; capacity = cap; read_index = 0; write_index = get_length b })

unfoldable pub grow : Buffer → ℕ → Option Buffer
grow b n =
    if ltb (sub32 (add32 b.write_index b.capacity) b.read_index) n then reallocate b n else adjust b

unfoldable pub ensure_capacity : Buffer → ℕ → Option Buffer
ensure_capacity b n = if ltb (sub32 b.capacity b.write_index) n then grow b n else some b

-- `append`, with the `length` bytes that `data` points to as a list.
unfoldable pub append : Buffer → List ℕ → Option Buffer
append b bytes = do
  roomy ← ensure_capacity b (length bytes)
  written ← store_at roomy.memory roomy.write_index bytes
  some (record roomy { memory = written; write_index = add32 roomy.write_index (length bytes) })

-- The length of a string is cut to 32 bits.
unfoldable pub append_string : Buffer → List ℕ → Option Buffer
append_string b s = append b (take (u32 (length s)) s)

unfoldable pub append_data : Buffer → List ℕ → Option Buffer
append_data b bytes = append b bytes

unfoldable pub append_buffer : Buffer → Buffer → Option Buffer
append_buffer b other = do bytes ← get_data other (get_length other); append b bytes

unfoldable pub append_int8 : Buffer → ℕ → Option Buffer
append_int8 b n = append b (n ∷ [])

-- A read copies from the array with no test of what was written, and advances.
unfoldable pub read_bytes : Buffer → ℕ → Option (List ℕ × Buffer)
read_bytes b w = do
  bytes ← load_at b.memory b.read_index w
  some (bytes, record b { read_index = add32 b.read_index w })

unfoldable pub read_int8 : Buffer → Option (ℕ × Buffer)
read_int8 b = do (bytes, rest) ← read_bytes b 1; some (load_le bytes, rest)

-- `ReadString(length)`
unfoldable pub read_string : Buffer → ℕ → Option (List ℕ × Buffer)
read_string b n = let m = if ltb (get_length b) n then get_length b else n in read_bytes b m

-- `ReadString()`
unfoldable pub read_all : Buffer → Option (List ℕ × Buffer)
read_all b = read_bytes b (get_length b)

module _ (host : Host) where
  unfoldable pub append_int16 : Buffer → ℕ → Option Buffer
  append_int16 b n = append b (store host 2 (hton host 2 n))

  unfoldable pub append_int32 : Buffer → ℕ → Option Buffer
  append_int32 b n = append b (store host 4 (hton host 4 n))

  unfoldable pub append_int64 : Buffer → ℕ → Option Buffer
  append_int64 b n = append b (store host 8 (htonll host n))

  unfoldable pub read_int16 : Buffer → Option (ℕ × Buffer)
  read_int16 b = do (bytes, rest) ← read_bytes b 2; some (hton host 2 (load host bytes), rest)

  unfoldable pub read_int32 : Buffer → Option (ℕ × Buffer)
  read_int32 b = do (bytes, rest) ← read_bytes b 4; some (hton host 4 (load host bytes), rest)

  unfoldable pub read_int64 : Buffer → Option (ℕ × Buffer)
  read_int64 b = do (bytes, rest) ← read_bytes b 8; some (ntohll host (load host bytes), rest)

  -- The length is left in host order.
  unfoldable pub peek_tag_len : Buffer → Option (ℕ × ℕ)
  peek_tag_len b = do
    tag ← load_at b.memory b.read_index 1
    len ← load_at b.memory (add32 b.read_index 1) 4
    some (load_le tag, load host len)

-- `ReadFd`, given what `readv` did: `none` is an error, which changes nothing, and a list the bytes
-- that it read, those past the free space of the buffer in `extrabuf`.
abbrev pub extra_size : ℕ
extra_size = 65536

abbrev pub writable : Buffer → ℕ
writable b = sub32 b.capacity b.write_index

-- The bytes that the vectors given to `readv` hold.
abbrev pub vector_size : Buffer → ℕ
vector_size b = if ltb (writable b) extra_size then writable b + extra_size else writable b

unfoldable pub read_fd : Buffer → Option (List ℕ) → Option Buffer
read_fd b none = some b
read_fd b (some bytes) = do
  filled ← store_at b.memory b.write_index (take (writable b) bytes)
  if leb (length bytes) (writable b)
      then some (record b { memory = filled; write_index = add32 b.write_index (length bytes) })
      else append (record b { memory = filled; write_index = b.capacity }) (drop (writable b) bytes)
