-- ===== src/Text.antt =====
-- Strings as lists of bytes, with what the program uses of the C and C++ libraries on them, and
-- `SplitHostPort` of src/include/Base.h. A C string ends at its first zero byte.
pub mod Address
pub mod Print
use Prim.Native.Char.{code}
use Prim.Native.String.{String}
use tiny_game_server.Base.{
  ℕ, zero, suc, ◌+◌, ◌-◌, ◌*◌, ◌/◌, ◌%◌, ◌^◌, min, List, [], ◌∷◌, ◌++◌, Option, none, some, Bool,
  true, false, ◌&&◌, ◌||◌, leb, ltb, ◌==◌, if◌then◌else◌, ◌>>=◌, take, drop,
}

-- The bytes of a literal.
abbrev pub codes : String → List ℕ
codes String.[] = []
codes (String.◌∷◌ c s) = code c ∷ codes s

-- What `%s` prints of a string.
unfoldable pub c_str : List ℕ → List ℕ
c_str [] = []
c_str (x ∷ xs) = let rest = c_str xs in if x == 0 then [] else x ∷ rest

abbrev pub is_space : ℕ → Bool
is_space c = (c == b' ') || (leb 9 c && leb c 13)

abbrev pub is_digit : ℕ → Bool
is_digit c = leb b'0' c && leb c b'9'

unfoldable pub skip_spaces : List ℕ → List ℕ
skip_spaces [] = []
skip_spaces (x ∷ xs) = let rest = skip_spaces xs in if is_space x then rest else x ∷ xs

-- An optional sign: whether it is a minus, and what follows it.
unfoldable pub read_sign : List ℕ → Bool × List ℕ
read_sign [] = (false, [])
read_sign (x ∷ xs) =
    if x == b'-' then (true, xs) else if x == b'+' then (false, xs) else (false, x ∷ xs)

-- The digits at the front, behind a number.
unfoldable pub read_digits : ℕ → List ℕ → ℕ
read_digits n [] = n
read_digits n (x ∷ xs) =
    let more = read_digits (n * 10 + (x - b'0')) xs in if is_digit x then more else n

-- `strtoll(s, nullptr, 10)`, as a 64-bit pattern: what is out of range is cut to the bound.
unfoldable pub strtoll : List ℕ → ℕ
unfolding skip_spaces read_sign read_digits
strtoll s =
    let (negative, digits) = read_sign (skip_spaces s) in
    let n = read_digits 0 digits in
    if negative then (2 ^ 64 - min n (2 ^ 63)) % 2 ^ 64 else min n (2 ^ 63 - 1)

-- `atoi`, as a 32-bit pattern: undefined where the number is out of range.
unfoldable pub atoi : List ℕ → Option ℕ
unfolding skip_spaces read_sign read_digits
atoi s =
    let (negative, digits) = read_sign (skip_spaces s) in
    let n = read_digits 0 digits in
    if negative
    then (if leb n (2 ^ 31) then some ((2 ^ 32 - n) % 2 ^ 32) else none)
    else (if ltb n (2 ^ 31) then some n else none)

-- The place of the last `c`.
unfoldable pub rfind : ℕ → List ℕ → Option ℕ
rfind c [] = none
rfind c (x ∷ xs) = elim (rfind c xs) [
  | some i ↦ some (suc i)
  | none ↦ if x == c then some 0 else none
]

-- -1 as an `int`
abbrev pub no_port : ℕ
no_port = 2 ^ 32 - 1

unfoldable pub split_host_port : List ℕ → Option (List ℕ × ℕ)
split_host_port addr = elim (rfind b':' addr) [
  | none ↦ some ([], no_port)
  | some i ↦ atoi (drop (suc i) addr) >>= (λ port. some (take i addr, port))
]

-- The decimal digits of a number, no more than the fuel.
unfoldable pub digits : ℕ → ℕ → List ℕ
digits zero n = []
digits (suc fuel) n =
    let more = digits fuel (n / 10) in
    if ltb n 10 then (b'0' + n) ∷ [] else more ++ ((b'0' + n % 10) ∷ [])

-- What `%d` prints of a 32-bit pattern, which has ten digits at most.
unfoldable pub print_int : ℕ → List ℕ
unfolding digits
print_int n = if ltb n (2 ^ 31) then digits 10 n else b'-' ∷ digits 10 (2 ^ 32 - n)
