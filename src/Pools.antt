-- ===== src/Pools.antt =====
-- The contexts of a client library that a pool of connections makes and finishes, as a log.
use tiny_game_server.Base.{
  ℕ, suc, ◌+◌, ◌≡◌, refl, List, [], ◌∷◌, ◌++◌, ◌==◌, if◌then◌else◌, arith, map,
}

-- Contexts are named by numbers.
pub data PoolCall : Type 0 where
  makes finishes : ℕ → PoolCall

-- How often a context was made, and finished, and stands in a list.
unfoldable pub made : ℕ → List PoolCall → ℕ
made c [] = 0
made c (makes d ∷ l) = let rest = made c l in if d == c then suc rest else rest
made c (finishes d ∷ l) = made c l

unfoldable pub finished : ℕ → List PoolCall → ℕ
finished c [] = 0
finished c (makes d ∷ l) = finished c l
finished c (finishes d ∷ l) = let rest = finished c l in if d == c then suc rest else rest

unfoldable pub times : ℕ → List ℕ → ℕ
times c [] = 0
times c (d ∷ l) = let rest = times c l in if d == c then suc rest else rest

pub made-append : (c : ℕ) (l k : List PoolCall) → made c (l ++ k) ≡ made c l + made c k
unfolding made
made-append c [] k = omega arith
made-append c (makes d ∷ l) k = ground (arith, made-append c l k)
made-append c (finishes d ∷ l) k = made-append c l k

pub finished-append :
    (c : ℕ) (l k : List PoolCall) → finished c (l ++ k) ≡ finished c l + finished c k
unfolding finished
finished-append c [] k = omega arith
finished-append c (makes d ∷ l) k = finished-append c l k
finished-append c (finishes d ∷ l) k = ground (arith, finished-append c l k)

pub times-append : (c : ℕ) (l k : List ℕ) → times c (l ++ k) ≡ times c l + times c k
unfolding times
times-append c [] k = omega arith
times-append c (d ∷ l) k = ground (arith, times-append c l k)

-- The loop of a destructor over its pool.
pub made-finishes : (c : ℕ) (l : List ℕ) → made c (map finishes l) ≡ 0
unfolding made
made-finishes c [] = refl
made-finishes c (d ∷ l) = made-finishes c l

pub finished-finishes : (c : ℕ) (l : List ℕ) → finished c (map finishes l) ≡ times c l
unfolding finished times
finished-finishes c [] = refl
finished-finishes c (d ∷ l) = ground (arith, finished-finishes c l)
