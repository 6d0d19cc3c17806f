-- ===== src/Text/Address.antt =====
-- Addresses of a host and a port.
use tiny_game_server.Base.{
  ℕ, zero, suc, ◌+◌, ◌-◌, ◌*◌, ◌/◌, ◌%◌, ◌^◌, ◌≤◌, ◌<◌, ◌≡◌, refl, List, [], ◌∷◌, ◌++◌, none, some,
  false, arith, length, take-append, drop-append, append-nil,
}
use tiny_game_server.Text.{
  skip_spaces, read_sign, read_digits, strtoll, atoi, rfind, split_host_port,
}

-- `w` decimal digits of a number.
pub decimal : ℕ → ℕ → List ℕ
decimal zero n = []
decimal (suc w) n = decimal w (n / 10) ++ ((b'0' + n % 10) ∷ [])

-- The numbers of `w` digits.
abbrev pub tens : ℕ → ℕ
tens zero = 1
tens (suc w) = 10 * tens w

abbrev pub AreDigits : List ℕ → Type 0
AreDigits [] = Unit {0}
AreDigits (x ∷ xs) = (b'0' ≤ x) × (x ≤ b'9') × AreDigits xs

pub AreDigits-append : (xs ys : List ℕ) → AreDigits xs → AreDigits ys → AreDigits (xs ++ ys)
AreDigits-append [] ys h k = k
AreDigits-append (x ∷ xs) ys (h, g, r) k = (h, g, AreDigits-append xs ys r k)

decimal-AreDigits : (w n : ℕ) → AreDigits (decimal w n)
unfolding decimal
decimal-AreDigits zero n = tt
decimal-AreDigits (suc w) n =
    AreDigits-append (decimal w (n / 10)) ((b'0' + n % 10) ∷ []) (decimal-AreDigits w (n / 10))
      (omega arith, omega arith, tt)

pub read_digits-append :
    (n d : ℕ) (xs : List ℕ)
    → AreDigits xs
    → d < 10
    → read_digits n (xs ++ ((b'0' + d) ∷ [])) ≡ read_digits n xs * 10 + d
unfolding read_digits
read_digits-append n d [] h k = ground arith
read_digits-append n d (x ∷ xs) (h, g, r) k =
    ground (arith, read_digits-append (n * 10 + (x - b'0')) d xs r k)

read_digits-decimal : (w n : ℕ) → n < tens w → read_digits 0 (decimal w n) ≡ n
unfolding read_digits decimal
read_digits-decimal zero n h = omega arith
read_digits-decimal (suc w) n h = omega (
  arith,
  read_digits-append 0 (n % 10) (decimal w (n / 10)) (decimal-AreDigits w (n / 10)) (omega arith),
  read_digits-decimal w (n / 10) (omega arith),
)

-- Digits stand behind neither spaces nor a sign.
pub skip-digits : (xs : List ℕ) → AreDigits xs → read_sign (skip_spaces xs) ≡ (false, xs)
unfolding skip_spaces read_sign
skip-digits [] h = refl
skip-digits (x ∷ xs) (h, g, r) = ground arith

pub strtoll-decimal : (w n : ℕ) → n < tens w → n < 2 ^ 63 → strtoll (decimal w n) ≡ n
unfolding strtoll
strtoll-decimal w n h k =
    rw (skip-digits (decimal w n) (decimal-AreDigits w n), read_digits-decimal w n h) (ground arith)

rfind-digits : (xs : List ℕ) → AreDigits xs → rfind b':' xs ≡ none
unfolding rfind
rfind-digits [] h = refl
rfind-digits (x ∷ xs) (h, g, r) = rw (rfind-digits xs r) (ground arith)

rfind-append :
    (c : ℕ) (xs ys : List ℕ) → rfind c ys ≡ none → rfind c (xs ++ (c ∷ ys)) ≡ some (length xs)
unfolding rfind
rfind-append c [] ys h = rw h (ground arith)
rfind-append c (x ∷ xs) ys h = rw (rfind-append c xs ys h) refl

-- The address of a host, whatever its bytes, and a port below 2^31 of `w` decimal digits, with a colon
-- between them, is split into just these.
pub split_host_port-decimal :
    (host : List ℕ) (w port : ℕ)
    → port < tens w
    → port < 2 ^ 31
    → split_host_port (host ++ (b':' ∷ decimal w port)) ≡ some (host, port)
unfolding split_host_port atoi
split_host_port-decimal host w port h k =
    rw
      (
        rfind-append b':' host (decimal w port)
            (rfind-digits (decimal w port) (decimal-AreDigits w port)),
        split_host_port,
        drop-append (suc (length host)) 1 host (b':' ∷ decimal w port) (omega arith),
        atoi,
        skip-digits (decimal w port) (decimal-AreDigits w port),
        read_digits-decimal w port h,
        take-append (length host) 0 host (b':' ∷ decimal w port) (omega arith),
        append-nil host,
      )
      (ground arith)
