-- ===== src/Table.antt =====
-- `std::unordered_map` from serial ids to shared pointers, as an association list. A null pointer is
-- `none`.
pub mod Entries
use tiny_game_server.Base.{
  ℕ, ◌≡◌, ◌≢◌, refl, ap, ◌∙◌, List, [], ◌∷◌, Option, none, some, Bool, true, false, ◌==◌,
  if◌then◌else◌, arith, ==_iff,
}

abbrev pub Table : Type 0 → Type 0
Table A = List (ℕ × Option A)

module _ {V : Type 0} where
  -- The entry of a key, where there is one.
  unfoldable pub find : ℕ → Table V → Option (Option V)
  find k [] = none
  find k ((j, v) ∷ t) = if j == k then some v else find k t

  -- `table[k] = v`
  unfoldable pub assign : ℕ → Option V → Table V → Table V
  assign k v [] = (k, v) ∷ []
  assign k v ((j, w) ∷ t) = if j == k then (k, v) ∷ t else (j, w) ∷ assign k v t

  -- `table[k]`, which adds a null pointer where there is no entry.
  unfoldable pub index : ℕ → Table V → Option V × Table V
  unfolding find assign
  index k t = elim (find k t) [ none ↦ (none, assign k none t) | some v ↦ (v, t) ]

  unfoldable pub erase : ℕ → Table V → Table V
  erase k [] = []
  erase k ((j, w) ∷ t) = let rest = erase k t in if j == k then rest else (j, w) ∷ rest

  pub find-assign :
      (k j : ℕ) (v : Option V) (t : Table V)
      → find j (assign k v t) ≡ (if k == j then some v else find j t)
  unfolding find assign
  find-assign k j v [] = refl
  find-assign k j v ((i, w) ∷ t) = ground (arith, find-assign k j v t)

  pub find-erase :
      (k j : ℕ) (t : Table V) → find j (erase k t) ≡ (if k == j then none else find j t)
  unfolding find erase
  find-erase k j [] = ground arith
  find-erase k j ((i, w) ∷ t) = ground (arith, find-erase k j t)
