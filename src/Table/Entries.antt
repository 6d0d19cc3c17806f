-- ===== src/Table/Entries.antt =====
-- Properties of all the entries of a table.
use tiny_game_server.Base.{
  ℕ, ◌≡◌, sym, ap, ◌∙◌, Option, none, some, Bool, ◌==◌, if◌then◌else◌, Bool-cases, Option-cases,
  inl, inr, ==_iff, subst,
}
use tiny_game_server.Table.{Table, find, assign, index, erase, find-assign, find-erase}

-- Every pointer of the table that is not null points to a `c` with `P k c`, for its key `k`.
abbrev pub AllEntries : {V : Type 0} → (ℕ → V → Type 0) → Table V → Type 0
AllEntries {V} P t = (k : ℕ) (c : V) → find k t ≡ some (some c) → P k c

module _ {V : Type 0} (P : ℕ → V → Type 0) where
  pub assign-AllEntries :
      (k : ℕ) (v : Option V) (t : Table V)
      → ((c : V) → v ≡ some c → P k c)
      → AllEntries P t
      → AllEntries P (assign k v t)
  assign-AllEntries k v t h n j c e = elim (Bool-cases (k == j)) [
    | inl y ↦ subst (λ i. P i c) ((==_iff k j).0 y) (h c (cc (at y)))
    | inr y ↦ n j c (sym (at y) ∙ e)
  ]
    where
      at : {b : Bool} → (k == j) ≡ b → find j (assign k v t) ≡ (if b then some v else find j t)
      at p = find-assign k j v t ∙ ap (λ b. if b then some v else find j t) p

  pub index-AllEntries : (k : ℕ) (t : Table V) → AllEntries P t → AllEntries P (index k t).1
  unfolding index
  index-AllEntries k t n = elim (Option-cases (find k t)) [
    | inl e ↦ rw (e, index) (assign-AllEntries k none t (λ c z. cc) n)
    | inr (v, e) ↦ rw (e, index) n
  ]

  pub erase-AllEntries : (k : ℕ) (t : Table V) → AllEntries P t → AllEntries P (erase k t)
  erase-AllEntries k t n j c e = elim (Bool-cases (k == j)) [
    | inl y ↦ cc (at y)
    | inr y ↦ n j c (sym (at y) ∙ e)
  ]
    where
      at : {b : Bool} → (k == j) ≡ b → find j (erase k t) ≡ (if b then none else find j t)
      at p = find-erase k j t ∙ ap (λ b. if b then none else find j t) p
