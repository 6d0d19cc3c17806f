-- ===== src/Base/Memory.antt =====
-- 32-bit unsigned arithmetic, and blocks of bytes that `memcpy` and `memmove` read and write: an
-- access that leaves the block is a fault, `none`.
use Prim.Native.Nat.{ℕ, zero, suc, ◌+◌, ◌-◌, ◌^◌, ◌%◌, ◌≤◌, ◌<◌}
use mathlib.Core.Path.{◌≡◌, refl, ap}
use mathlib.Core.List.{List, [], ◌∷◌, ◌++◌}
use mathlib.Core.Option.{Option, none, some}
use native.Mathlib.Omega.{arith}
use tiny_game_server.Base.Tests.{leb, if◌then◌else◌}
use tiny_game_server.Base.Lists.{length, take, drop, length-append, length-take, length-drop}

abbrev pub u32 : ℕ → ℕ
u32 n = n % 2 ^ 32

abbrev pub add32 : ℕ → ℕ → ℕ
add32 a b = (a + b) % 2 ^ 32

abbrev pub sub32 : ℕ → ℕ → ℕ
sub32 a b = (a + 2 ^ 32 - b) % 2 ^ 32

-- `n` bytes from offset `i` on.
abbrev pub slice : List ℕ → ℕ → ℕ → List ℕ
slice xs i n = take n (drop i xs)

-- Copy `n` bytes out of a block, from offset `i` on.
unfoldable pub load_at : List ℕ → ℕ → ℕ → Option (List ℕ)
load_at xs i n = if leb (i + n) (length xs) then some (slice xs i n) else none

-- Copy the bytes `ys` into a block, from offset `i` on.
unfoldable pub store_at : List ℕ → ℕ → List ℕ → Option (List ℕ)
store_at xs i ys =
    if leb (i + length ys) (length xs)
    then some (take i xs ++ (ys ++ drop (i + length ys) xs))
    else none

-- A new block of `n` bytes, with what it happens to hold.
unfoldable pub block : (ℕ → ℕ) → ℕ → List ℕ
block junk zero = []
block junk (suc n) = junk n ∷ block junk n

pub length-block : (junk : ℕ → ℕ) (n : ℕ) → length (block junk n) ≡ n
unfolding block
length-block junk zero = refl
length-block junk (suc n) = ap suc (length-block junk n)

pub length-slice : (xs : List ℕ) (i n : ℕ) → i + n ≤ length xs → length (slice xs i n) ≡ n
length-slice xs i n h = omega (arith, length-take n (drop i xs), length-drop i xs)

pub load_at_ok : (xs : List ℕ) (i n : ℕ) → i + n ≤ length xs → load_at xs i n ≡ some (slice xs i n)
unfolding load_at
load_at_ok xs i n h = ground arith

pub load_at_out : (xs : List ℕ) (i n : ℕ) → length xs < i + n → load_at xs i n ≡ none
unfolding load_at
load_at_out xs i n h = ground arith

pub store_at_ok :
    (xs : List ℕ) (i : ℕ) (ys : List ℕ)
    → i + length ys ≤ length xs
    → store_at xs i ys ≡ some (take i xs ++ (ys ++ drop (i + length ys) xs))
unfolding store_at
store_at_ok xs i ys h = ground arith

pub store_at_out :
    (xs : List ℕ) (i : ℕ) (ys : List ℕ) → length xs < i + length ys → store_at xs i ys ≡ none
unfolding store_at
store_at_out xs i ys h = ground arith

pub length-store :
    (xs : List ℕ) (i : ℕ) (ys : List ℕ)
    → i + length ys ≤ length xs
    → length (take i xs ++ (ys ++ drop (i + length ys) xs)) ≡ length xs
length-store xs i ys h = omega (
  arith,
  length-append (take i xs) (ys ++ drop (i + length ys) xs),
  length-append ys (drop (i + length ys) xs),
  length-take i xs,
  length-drop (i + length ys) xs,
)
