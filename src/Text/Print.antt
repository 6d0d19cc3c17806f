-- ===== src/Text/Print.antt =====
-- Integers that are printed and read again.
use tiny_game_server.Base.{
  ℕ, zero, suc, ◌+◌, ◌-◌, ◌/◌, ◌%◌, ◌^◌, ◌≤◌, ◌<◌, ◌≡◌, refl, ◌∙◌, List, [], ◌∷◌, none, some, Bool,
  true, false, arith, length, length-append, ltb, lt→ltb, ge→ltb, dec_le, if◌then◌else◌, leb,
}
use tiny_game_server.Text.{skip_spaces, read_sign, read_digits, atoi, digits, print_int}
use tiny_game_server.Text.Address.{
  tens, AreDigits, AreDigits-append, read_digits-append, skip-digits,
}

digits-AreDigits : (fuel n : ℕ) → AreDigits (digits fuel n)
unfolding digits
digits-AreDigits zero n = tt
digits-AreDigits (suc fuel) n = elim (dec_le 10 n) [
  | yes h ↦ rw (ge→ltb n 10 h) (
      AreDigits-append (digits fuel (n / 10)) _ (digits-AreDigits fuel (n / 10))
        (omega arith, omega arith, tt))
  | no h ↦ rw (lt→ltb n 10 (omega arith)) (omega arith, omega arith, tt)
]

read_one : (n : ℕ) → n < 10 → read_digits 0 ((b'0' + n) ∷ []) ≡ n
unfolding read_digits
read_one n h = ground arith

read_digits-digits : (fuel n : ℕ) → n < tens fuel → 0 < fuel → read_digits 0 (digits fuel n) ≡ n
unfolding read_digits digits
read_digits-digits zero n h k = absurd (omega arith)
read_digits-digits (suc zero) n h k = rw (lt→ltb n 10 h) (read_one n h)
read_digits-digits (suc (suc fuel)) n h k = elim (dec_le 10 n) [
  | yes g ↦ rw (ge→ltb n 10 g) (
      omega (
        arith,
        read_digits-append 0 (n % 10) (digits (suc fuel) (n / 10))
            (digits-AreDigits (suc fuel) (n / 10)) (omega arith),
        read_digits-digits (suc fuel) (n / 10) (omega arith) (omega arith),
      ))
  | no g ↦ rw (lt→ltb n 10 (omega arith)) (read_one n (omega arith))
]

pub length-digits : (fuel n : ℕ) → length (digits fuel n) ≤ fuel
unfolding digits
length-digits zero n = omega arith
length-digits (suc fuel) n = elim (dec_le 10 n) [
  | yes h ↦ rw (ge→ltb n 10 h) (
      omega (
        arith,
        length-append (digits fuel (n / 10)) ((b'0' + n % 10) ∷ []),
        length-digits fuel (n / 10),
      ))
  | no h ↦ rw (lt→ltb n 10 (omega arith)) (omega arith)
]

atoi_lem :
    (s xs : List ℕ) (negative : Bool) (m : ℕ)
    → read_sign (skip_spaces s) ≡ (negative, xs)
    → read_digits 0 xs ≡ m
    → atoi s ≡ (
        if negative
        then (if leb m (2 ^ 31) then some ((2 ^ 32 - m) % 2 ^ 32) else none)
        else (if ltb m (2 ^ 31) then some m else none))
unfolding atoi
atoi_lem s xs negative m e r = rw (atoi, e, r) refl

minus-digits : (xs : List ℕ) → read_sign (skip_spaces (b'-' ∷ xs)) ≡ (true, xs)
unfolding read_sign skip_spaces
minus-digits xs = refl

-- `atoi` reads back what `%d` printed, for every `int`.
pub atoi-print_int : (n : ℕ) → n < 2 ^ 32 → atoi (print_int n) ≡ some n
unfolding print_int
atoi-print_int n h = elim (dec_le (2 ^ 31) n) [
  | no g ↦ rw (lt→ltb n (2 ^ 31) (omega arith)) (
      atoi_lem (digits 10 n) (digits 10 n) false n
        (skip-digits (digits 10 n) (digits-AreDigits 10 n))
        (read_digits-digits 10 n (omega arith) (omega arith))
      ∙ rw (lt→ltb n (2 ^ 31) (omega arith)) refl)
  | yes g ↦
      let m : ℕ = 2 ^ 32 - n in
      rw (ge→ltb n (2 ^ 31) g) (
        atoi_lem (b'-' ∷ digits 10 m) (digits 10 m) true m (minus-digits (digits 10 m))
          (read_digits-digits 10 m (omega arith) (omega arith))
        ∙ negated m (omega arith) (omega arith))
]
  where
    negated :
        (m : ℕ)
        → m ≤ 2 ^ 31
        → n ≡ (2 ^ 32 - m) % 2 ^ 32
        → (if leb m (2 ^ 31) then some ((2 ^ 32 - m) % 2 ^ 32) else none) ≡ some n
    negated m k e = ground arith
