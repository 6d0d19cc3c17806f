-- ===== src/Serial.antt =====
-- src/util/UID.h. The clock gives the time of each call; `strftime` and `localtime` make a number of
-- it, a parameter.
pub mod Unique
use tiny_game_server.Base.{ℕ, suc, ◌+◌, ◌-◌, ◌*◌, ◌%◌, ◌^◌, List, [], ◌∷◌, ◌==◌, ltb, if◌then◌else◌}

-- The two static variables; `serial` is a 32-bit pattern.
pub record Serial : Type 0 where
  pub current_time : ℕ
  pub serial : ℕ

-- An `int` as an `int64_t`.
abbrev pub sign_extend : ℕ → ℕ
sign_extend n = if ltb n (2 ^ 31) then n else n + (2 ^ 64 - 2 ^ 32)

-- The first call finds `current_time` set to the time of the call.
unfoldable pub first_serial : ℕ → Serial
first_serial now = record { current_time = now; serial = 0 }

module _ (stamp : ℕ → ℕ) where
  unfoldable pub tick : ℕ → Serial → Serial
  tick now s =
      let t = if now == s.current_time then s else record { current_time = now; serial = 0 } in
      record t { serial = suc t.serial % 2 ^ 32 }

  unfoldable pub serial_id : Serial → ℕ
  serial_id s = (stamp s.current_time * 1000 + sign_extend s.serial) % 2 ^ 64

  -- `GenerateSerialID`
  unfoldable pub generate : ℕ → Serial → ℕ × Serial
  generate now s = (serial_id (tick now s), tick now s)

  unfoldable pub generate_all : List ℕ → Serial → List ℕ
  unfolding generate
  generate_all [] s = []
  generate_all (now ∷ times) s = let (id, t) = generate now s in id ∷ generate_all times t
