-- ===== src/Connection/Spin.antt =====
-- The write event after everything was sent.
use tiny_game_server.Base.{
  ℕ, zero, suc, ◌-◌, ◌≡◌, refl, ap, ◌∙◌, List, [], ◌∷◌, ◌++◌, Option, none, some, true, false, not,
  ◌>>=◌, arith, take_all, length,
}
use tiny_game_server.Buffer.{Buffer, get_length}
use tiny_game_server.Buffer.Invariant.{IsValid, size, contents, get_length_lem, length-contents}
use tiny_game_server.Buffer.Read.{get_data_lem}
use tiny_game_server.Watcher.{is_writing}
use tiny_game_server.Watcher.Operations.{enable_write-Leaves}
use tiny_game_server.Connection.{Connection, attempt, send_in_loop, handle_write}
use tiny_game_server.Connection.Output.{IsSound, Answers}

pub write_events : List (Option ℕ) → Connection → Option Connection
write_events [] c = some c
write_events (a ∷ more) c = handle_write c a >>= write_events more

-- The kernel was offered no bytes, so it took none.
abbrev pub AllIdle : List (Option ℕ) → Type 0
AllIdle [] = Unit {0}
AllIdle (a ∷ more) = Answers 0 a × AllIdle more

-- `HandleWrite` keeps the write event enabled unless the kernel took some bytes.
write_events_idle :
    (more : List (Option ℕ)) (c : Connection) → AllIdle more → write_events more c ≡ some c
unfolding write_events handle_write
write_events_idle [] c h = refl
write_events_idle (none ∷ more) c h = write_events_idle more c h.1
write_events_idle (some zero ∷ more) c h = write_events_idle more c h.1
write_events_idle (some (suc n) ∷ more) c h = absurd (omega arith)

send_all_at_once :
    (c : Connection) (buf : Buffer)
    → IsSound c
    → IsValid buf
    → is_writing c.watcher ≡ false
    → contents c.send_buffer ≡ []
    → (d : Connection) × (send_in_loop c buf (some (size buf)) ≡ some d)
      × (is_writing d.watcher ≡ true)
      × (d.send_buffer ≡ c.send_buffer)
      × (d.sent ≡ c.sent ++ contents buf)
unfolding send_in_loop attempt
send_all_at_once c buf s v off e =
    let (w, r, h, i) = enable_write-Leaves c.watcher s.event in
    (
      record c { sent = c.sent ++ contents buf; watcher = w },
      rw
          (
            off',
            empty,
            get_data_lem buf v,
            get_length_lem buf v,
            left,
            take_all (size buf) (contents buf) (omega (arith, length-contents buf v)),
          )
          (rw (off', r)),
      ap (λ t. t.write) i,
      refl,
      refl,
    )
  where
    off' : not (is_writing c.watcher) ≡ true
    off' = ap not off

    empty : get_length c.send_buffer ≡ 0
    empty = omega (
      arith,
      get_length_lem c.send_buffer s.valid,
      length-contents c.send_buffer s.valid,
      ap length e,
    )

    left : size buf - size buf ≡ 0
    left = omega arith

-- If a sound connection has an empty send buffer and no write event, and the kernel takes all bytes
-- of a valid buffer at once, then `SendInLoop` enables the write event although nothing waits, and
-- any number of write events, each with nothing to write, leaves it enabled.
pub send_in_loop-write_events :
    (c : Connection) (buf : Buffer) (more : List (Option ℕ))
    → IsSound c
    → IsValid buf
    → is_writing c.watcher ≡ false
    → contents c.send_buffer ≡ []
    → AllIdle more
    → (d : Connection) × ((send_in_loop c buf (some (size buf)) >>= write_events more) ≡ some d)
      × (is_writing d.watcher ≡ true)
      × (contents d.send_buffer ≡ [])
      × (d.sent ≡ c.sent ++ contents buf)
send_in_loop-write_events c buf more s v off e h =
    let (d, r, on, same, out) = send_all_at_once c buf s v off e in
    (d, rw r (write_events_idle more d h), on, ap contents same ∙ e, out)
