-- ===== src/Connection/Output.antt =====
-- The output side of a connection: every byte given to `Send` reaches the kernel once and in order.
pub mod Attempt
pub mod Send
use tiny_game_server.Base.{
  ℕ, zero, suc, ◌+◌, ◌-◌, ◌*◌, ◌^◌, ◌≤◌, ◌<◌, ◌≡◌, refl, sym, ap, ◌∙◌, List, [], ◌∷◌, ◌++◌, Option,
  none, some, Bool, true, false, not, ◌&&◌, ◌==◌, ltb, lt→ltb, ge→ltb, if◌then◌else◌, ◌>>=◌, arith,
  Bool-cases, ◌⊎◌, inl, inr, take, drop, length, length-append, length-take, length-drop,
  take-append-drop, append-nil, append_assoc, dec_le, take_all, drop_all, eq-nil_of_length,
}
use tiny_game_server.Buffer.{Buffer, get_length, get_data, forward, append_buffer}
use tiny_game_server.Buffer.Invariant.{IsValid, size, contents, get_length_lem, length-contents}
use tiny_game_server.Buffer.Codec.{HasRoom, Adds, append-Adds}
use tiny_game_server.Buffer.Read.{Dropped, get_data_lem, forward_lem, append_buffer_lem}
use tiny_game_server.Watcher.{Interest, Watcher, is_writing, enable_write, disable_write}
use tiny_game_server.Watcher.Operations.{
  HasEvent, Leaves, enable_write-Leaves, disable_write-Leaves,
}
use tiny_game_server.Connection.{Connection, Handler, took, handle_write, attempt, send_in_loop}

-- What a handler may rely on.
pub record IsSound (c : Connection) : Type 0 where
  pub valid : IsValid c.send_buffer
  pub small : c.send_buffer.capacity * 4 < 2 ^ 32
  pub event : HasEvent c.watcher

-- The bytes that were sent, or wait to be.
abbrev pub output : Connection → List ℕ
output c = c.sent ++ contents c.send_buffer

-- The kernel takes no more bytes than it is offered.
abbrev pub Answers : ℕ → Option ℕ → Type 0
Answers n none = Unit {0}
Answers n (some k) = k ≤ n

-- A result of a handler on `c`: no fault, a sound connection, an array of the same size.
abbrev pub Outputs : Connection → List ℕ → Option Connection → Type 0
Outputs c out r =
    (d : Connection) × (r ≡ some d)
    × IsSound d
    × (output d ≡ out)
    × (d.send_buffer.capacity ≡ c.send_buffer.capacity)
    × (length c.sent ≤ length d.sent)

capacity-forward : (b : Buffer) (n : ℕ) → (forward b n).capacity ≡ b.capacity
unfolding forward
capacity-forward b n = ground arith

-- What the kernel took, and what is left in the buffer, is what was in the buffer.
pub took-forward :
    (b : Buffer) (n : ℕ) (sent : List ℕ)
    → IsValid b
    → (sent ++ take n (contents b)) ++ contents (forward b n) ≡ sent ++ contents b
took-forward b n sent v =
    ap (◌++◌ (sent ++ take n (contents b))) (forward_lem b v n).others
    ∙ append_assoc sent (take n (contents b)) (drop n (contents b))
    ∙ ap (◌++◌ sent) (take-append-drop n (contents b))

-- `HandleWrite` of a sound connection (a valid send buffer of less than 1 GiB, a watcher with an
-- event) does not fault, whatever the kernel answers. It only moves bytes from the buffer to the
-- kernel, in order, keeps the size of the array, and leaves a sound connection.
pub handle_write-Outputs :
    (c : Connection) (answer : Option ℕ) → IsSound c → Outputs c (output c) (handle_write c answer)
unfolding handle_write
handle_write-Outputs c none s = (c, refl, s, refl, refl, omega arith)
handle_write-Outputs c (some zero) s = (c, refl, s, refl, refl, omega arith)
handle_write-Outputs c (some (suc n)) s =
    rw (get_data_lem c.send_buffer s.valid) (elim (Bool-cases (get_length left == 0)) [
      | inl e ↦
          let (w, r, k, _) = disable_write-Leaves c.watcher s.event in
          (
            record d { watcher = w },
            rw (e, r),
            record { valid = kept.valid; small = small; event = k },
            joined,
            capacity-forward c.send_buffer (suc n),
            grows,
          )
      | inr e ↦ (
        d,
        rw e,
        record { valid = kept.valid; small = small; event = s.event },
        joined,
        capacity-forward c.send_buffer (suc n),
        grows,
      )
    ])
  where
    left : Buffer
    left = forward c.send_buffer (suc n)

    d : Connection
    d = took (contents c.send_buffer) (suc n) (record c { send_buffer = left })

    kept : Dropped c.send_buffer (suc n) left
    kept = forward_lem c.send_buffer s.valid (suc n)

    small : left.capacity * 4 < 2 ^ 32
    small = omega (arith, s.small, capacity-forward c.send_buffer (suc n))

    grows : length c.sent ≤ length d.sent
    grows = omega (arith, length-append c.sent (take (suc n) (contents c.send_buffer)))

    joined : output d ≡ output c
    joined = took-forward c.send_buffer (suc n) c.sent s.valid
