-- ===== src/Base/Tests.antt =====
-- Boolean tests on native numbers, the conditional, and the monad of code that may fault.
use Prim.Native.Nat.{ℕ, ◌≤◌, ◌<◌, compare, Ordering}
use mathlib.Core.Path.{◌≡◌, refl, subst}
use mathlib.Core.Logic.{◌↔◌, ◌⊎◌, inl, inr}
use mathlib.Core.Bool.{Bool, true, false}
use mathlib.Core.Option.{Option, none, some}
use native.Mathlib.Omega.{arith}

abbrev pub ltb : ℕ → ℕ → Bool
ltb a b = elim (compare a b) [ Ordering.lt ↦ true | _ ↦ false ]

abbrev pub leb : ℕ → ℕ → Bool
leb a b = elim (compare a b) [ Ordering.gt ↦ false | _ ↦ true ]

infix 50 ◌==◌
abbrev pub ◌==◌ : ℕ → ℕ → Bool
a == b = elim (compare a b) [ Ordering.eq ↦ true | _ ↦ false ]

infix 1 if◌then◌else◌
abbrev pub if◌then◌else◌ {ℓ} : {A : Type ℓ} → Bool → A → A → A
if true then x else y = x
if false then x else y = y

pub ltb→lt : (a b : ℕ) → ltb a b ≡ true → a < b
ltb→lt a b h = ground arith

pub lt→ltb : (a b : ℕ) → a < b → ltb a b ≡ true
lt→ltb a b h = ground arith

pub ge→ltb : (a b : ℕ) → b ≤ a → ltb a b ≡ false
ge→ltb a b h = ground arith

pub ==_iff : (a b : ℕ) → ((a == b) ≡ true) ↔ (a ≡ b)
==_iff a b = ground arith

pub Bool-cases : (b : Bool) → (b ≡ true) ⊎ (b ≡ false)
Bool-cases true = inl refl
Bool-cases false = inr refl

pub Option-cases {ℓ} : {A : Type ℓ} (o : Option A) → (o ≡ none) ⊎ ((a : A) × (o ≡ some a))
Option-cases none = inl refl
Option-cases (some a) = inr (a, refl)

-- `none` is an access outside an array, or a call of an empty `std::function`.
infixl 5 ◌>>=◌
abbrev pub ◌>>=◌ {ℓ κ} : {A : Type ℓ} {B : Type κ} → Option A → (A → Option B) → Option B
none >>= f = none
some a >>= f = f a

-- What a result satisfies, where there is one.
abbrev pub Allows : {A : Type 0} → (A → Type 0) → Option A → Type 0
Allows P none = Unit {0}
Allows P (some a) = P a

pub bind-Allows :
    {A B : Type 0} (P : B → Type 0) (o : Option A) (f : A → Option B)
    → ((a : A) → Allows P (f a))
    → Allows P (o >>= f)
bind-Allows P none f h = tt
bind-Allows P (some a) f h = h a

pub if-Allows :
    {A : Type 0} (P : A → Type 0) (b : Bool) (x y : Option A)
    → Allows P x
    → Allows P y
    → Allows P (if b then x else y)
if-Allows P true x y h g = h
if-Allows P false x y h g = g

-- The same, with what is known of the first result.
pub bind-Allows_of :
    {A B : Type 0} (Q : A → Type 0) (P : B → Type 0) (o : Option A) (f : A → Option B)
    → Allows Q o
    → ((a : A) → Q a → Allows P (f a))
    → Allows P (o >>= f)
bind-Allows_of Q P none f h g = tt
bind-Allows_of Q P (some a) f h g = g a h

pub Allows-some :
    {A : Type 0} (P : A → Type 0) (o : Option A) (a : A) → Allows P o → o ≡ some a → P a
Allows-some P o a h e = subst (Allows P) e h

pub Allows-weaken :
    {A : Type 0} (P Q : A → Type 0) (o : Option A) → Allows P o → ((a : A) → P a → Q a) → Allows Q o
Allows-weaken P Q none h g = tt
Allows-weaken P Q (some a) h g = g a h
