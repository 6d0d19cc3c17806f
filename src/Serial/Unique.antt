-- ===== src/Serial/Unique.antt =====
-- When the serial ids are distinct, and when they are not.
use tiny_game_server.Base.{
  ℕ, suc, ◌+◌, ◌*◌, ◌%◌, ◌^◌, ◌≤◌, ◌<◌, ◌≡◌, ◌≢◌, refl, sym, ap, ◌∙◌, List, [], ◌∷◌, arith, ◌==◌,
  if◌then◌else◌, Bool-cases, ◌⊎◌, inl, inr, ==_iff,
}
use tiny_game_server.Serial.{Serial, tick, serial_id, generate, generate_all}

-- The numbers of a list rise from above a bound.
abbrev pub Rises : ℕ → List ℕ → Type 0
Rises low [] = Unit {0}
Rises low (x ∷ xs) = (low < x) × Rises x xs

module _ (stamp : ℕ → ℕ) where
  -- Both parts of an id fit their types.
  abbrev pub InRange : Serial → Type 0
  InRange s = (stamp s.current_time < 2 ^ 50) × (s.serial ≤ 1000)

  -- The clock does not go back, its stamps rise with it, and no second sees more than 1000 calls.
  abbrev pub Paced : List ℕ → Serial → Type 0
  Paced [] s = Unit {0}
  Paced (now ∷ times) s =
      ((now ≡ s.current_time) ⊎ (stamp s.current_time < stamp now))
      × InRange (tick stamp now s)
      × Paced times (tick stamp now s)

  serial_id_lem :
      (s : Serial)
      → stamp s.current_time < 2 ^ 50
      → s.serial < 2 ^ 31
      → serial_id stamp s ≡ stamp s.current_time * 1000 + s.serial
  unfolding serial_id
  serial_id_lem s h k = ground arith

  tick-same :
      (now : ℕ) (s : Serial)
      → now ≡ s.current_time
      → tick stamp now s ≡ record s { serial = suc s.serial % 2 ^ 32 }
  unfolding tick
  tick-same now s e =
      ap
        (λ b. record (if b then s else record { current_time = now; serial = 0 }) {
          serial = suc (if b then s else record { current_time = now; serial = 0 }).serial % 2 ^ 32;
        })
        ((==_iff now s.current_time).1 e)

  tick-new :
      (now : ℕ) (s : Serial)
      → now ≢ s.current_time
      → tick stamp now s ≡ record { current_time = now; serial = 1 }
  unfolding tick
  tick-new now s e = elim (Bool-cases (now == s.current_time)) [
    | inl h ↦ absurd (e ((==_iff now s.current_time).0 h))
    | inr h ↦ rw h
  ]

  -- The number that an id is made of.
  abbrev plain : Serial → ℕ
  plain s = stamp s.current_time * 1000 + s.serial

  plain-tick :
      (now : ℕ) (s : Serial)
      → InRange s
      → (now ≡ s.current_time) ⊎ (stamp s.current_time < stamp now)
      → plain s < plain (tick stamp now s)
  plain-tick now s h (inl e) = rw (tick-same now s e) (omega arith)
  plain-tick now s h (inr c) = rw (tick-new now s (λ e. omega (arith, c, ap stamp e))) (omega arith)

  tick-rises :
      (now : ℕ) (s : Serial)
      → InRange s
      → (now ≡ s.current_time) ⊎ (stamp s.current_time < stamp now)
      → InRange (tick stamp now s)
      → serial_id stamp s < serial_id stamp (tick stamp now s)
  tick-rises now s h c k =
      rw
        (
          serial_id_lem s h.0 (omega arith),
          serial_id_lem (tick stamp now s) k.0 (omega (arith, k.1)),
        )
        (plain-tick now s h c)

  -- If the clock does not go back, its stamps rise with it and stay below 2^50, and no second sees
  -- more than 1000 calls, then the ids of successive calls rise, so they are distinct.
  pub generate_all-Rises :
      (times : List ℕ) (s : Serial)
      → InRange s
      → Paced times s
      → Rises (serial_id stamp s) (generate_all stamp times s)
  unfolding generate_all
  generate_all-Rises [] s h p = tt
  generate_all-Rises (now ∷ times) s h (c, k, p) =
      (tick-rises now s h c k, generate_all-Rises times (tick stamp now s) k p)

-- The call after the 1000th of a second, with a stamp below 2^50 - 1, and the first call of the
-- second with the next stamp get the same id.
pub generate-collides :
    (stamp : ℕ → ℕ) (s : Serial) (now : ℕ)
    → stamp s.current_time + 1 < 2 ^ 50
    → s.serial ≡ 1000
    → stamp now ≡ stamp s.current_time + 1
    → let (id, t) = generate stamp s.current_time s in (generate stamp now t).0 ≡ id
unfolding generate
generate-collides stamp s now h e k =
    rw
      (
        tick-same stamp s.current_time s refl,
        tick-new stamp now (record s { serial = suc s.serial % 2 ^ 32 }) later,
      )
      (serial_id_lem stamp (record { current_time = now; serial = 1 }) (omega arith) (omega arith)
        ∙ same
        ∙ sym (
            serial_id_lem stamp (record s { serial = suc s.serial % 2 ^ 32 }) (omega arith)
              (omega arith)))
  where
    later : now ≢ s.current_time
    later p = omega (arith, ap stamp p)

    same : stamp now * 1000 + 1 ≡ stamp s.current_time * 1000 + suc s.serial % 2 ^ 32
    same = omega arith
