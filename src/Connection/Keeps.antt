-- ===== src/Connection/Keeps.antt =====
-- What writing to the socket leaves alone: the receive buffer, the status and the owners.
use tiny_game_server.Base.{
  ℕ, zero, suc, ◌≡◌, refl, ap, true, false, Option, none, some, not, ◌&&◌, ◌==◌, ltb, if◌then◌else◌,
  Allows, bind-Allows, bind-Allows_of, if-Allows,
}
use tiny_game_server.Buffer.{Buffer, get_length, get_data, forward, append_buffer}
use tiny_game_server.Watcher.{is_writing, enable_write, disable_write}
use tiny_game_server.Connection.{Connection, attempt, handle_write, write_event, send_in_loop}

abbrev pub Keeps : Connection → Connection → Type 0
Keeps c d = (d.recv_buffer ≡ c.recv_buffer) × (d.status ≡ c.status) × (d.owners ≡ c.owners)

pub handle_write-Keeps :
    (c : Connection) (answer : Option ℕ) → Allows (Keeps c) (handle_write c answer)
unfolding handle_write
handle_write-Keeps c none = (refl, refl, refl)
handle_write-Keeps c (some zero) = (refl, refl, refl)
handle_write-Keeps c (some (suc n)) =
    bind-Allows (Keeps c) (get_data c.send_buffer (get_length c.send_buffer)) _ (λ offered.
      if-Allows (Keeps c) (get_length (forward c.send_buffer (suc n)) == 0) _ _
        (bind-Allows (Keeps c) (disable_write c.watcher) _ (λ w. (refl, refl, refl)))
        (refl, refl, refl))

-- A write event, on a watcher that waits for it and on one that does not.
pub write_event_on :
    (c : Connection) (answer : Option ℕ)
    → is_writing c.watcher ≡ true
    → write_event c answer ≡ handle_write c answer
unfolding write_event
write_event_on c answer e = ap (λ b. if b then handle_write c answer else some c) e

pub write_event_off :
    (c : Connection) (answer : Option ℕ)
    → is_writing c.watcher ≡ false
    → write_event c answer ≡ some c
unfolding write_event
write_event_off c answer e = ap (λ b. if b then handle_write c answer else some c) e

-- The same of the first part of `SendInLoop`.
abbrev KeepsFirst : Connection → Connection × Buffer × ℕ → Type 0
KeepsFirst c r = Keeps c r.0

attempt-Keeps :
    (c : Connection) (buf : Buffer) (answer : Option ℕ)
    → Allows (KeepsFirst c) (attempt c buf answer)
unfolding attempt
attempt-Keeps c buf none = (refl, refl, refl)
attempt-Keeps c buf (some n) =
    bind-Allows (KeepsFirst c) (get_data buf (get_length buf)) _ (λ offered. (refl, refl, refl))

pub send_in_loop-Keeps :
    (c : Connection) (buf : Buffer) (answer : Option ℕ)
    → Allows (Keeps c) (send_in_loop c buf answer)
unfolding send_in_loop
send_in_loop-Keeps c buf answer =
    bind-Allows_of (KeepsFirst c) (Keeps c) _ _
      (if-Allows (KeepsFirst c) (not (is_writing c.watcher) && (get_length c.send_buffer == 0)) _ _
        (attempt-Keeps c buf answer) (refl, refl, refl))
      (λ (d, rest, remaining) k.
        bind-Allows (Keeps c)
          (if ltb 0 remaining then append_buffer d.send_buffer rest else some d.send_buffer) _
          (λ kept.
            bind-Allows (Keeps c)
              (if not (is_writing d.watcher) then enable_write d.watcher else some d.watcher) _
              (λ w. k)))
