-- ===== src/Connection/Output/Send.antt =====
-- `SendInLoop`: the bytes of a buffer come out behind all earlier ones.
use tiny_game_server.Base.{
  ℕ, zero, suc, ◌+◌, ◌*◌, ◌^◌, ◌≤◌, ◌<◌, ◌≡◌, refl, sym, ap, ◌∙◌, ◌++◌, Option, some, Bool, true,
  not, ltb, lt→ltb, if◌then◌else◌, ◌>>=◌, arith, Bool-cases, inl, inr, append-nil, append_assoc,
  eq-nil_of_length,
}
use tiny_game_server.Buffer.{Buffer, append_buffer}
use tiny_game_server.Buffer.Invariant.{IsValid, size, contents, length-contents}
use tiny_game_server.Buffer.Codec.{Adds, append-Adds}
use tiny_game_server.Buffer.Read.{append_buffer_lem}
use tiny_game_server.Watcher.{Watcher, is_writing, enable_write}
use tiny_game_server.Watcher.Operations.{HasEvent, Leaves, enable_write-Leaves}
use tiny_game_server.Connection.{Connection, Handler, send_in_loop}
use tiny_game_server.Connection.Output.Attempt.{first_part, first_part-Tried}
use tiny_game_server.Connection.Output.{IsSound, output, Outputs}

second_part : Connection × Buffer × ℕ → Option Connection
second_part (d, rest, remaining) = do
  kept ← if ltb 0 remaining then append_buffer d.send_buffer rest else some d.send_buffer
  w ← if not (is_writing d.watcher) then enable_write d.watcher else some d.watcher
  some (record d { send_buffer = kept; watcher = w })

keeps :
    (b rest : Buffer) (n : ℕ)
    → IsValid b
    → IsValid rest
    → b.capacity * 4 < 2 ^ 32
    → n ≡ size rest
    → size b + size rest ≤ b.capacity
    → Adds b (contents rest) (if ltb 0 n then append_buffer b rest else some b)
keeps b rest zero v w m k h = (
  b,
  refl,
  v,
  sym (
      ap (◌++◌ (contents b))
        (eq-nil_of_length (contents rest) (omega (arith, length-contents rest w)))
      ∙ append-nil (contents b)),
  refl,
)
keeps b rest (suc n) v w m k h =
    rw (lt→ltb 0 (suc n) (omega arith), append_buffer_lem rest w b)
      (append-Adds b (contents rest) (size rest) (length-contents rest w)
        (record { valid = v; modest = omega arith; fits = omega arith }))

writes_on :
    (w : Watcher Handler)
    → HasEvent w
    → Leaves
        (record (w.ev_type) { write = true })
        (if not (is_writing w) then enable_write w else some w)
writes_on w h = elim (Bool-cases (is_writing w)) [
  | inl e ↦ (w, chosen e, h, ground arith)
  | inr e ↦ rw (chosen e) (enable_write-Leaves w h)
]
  where
    chosen :
        {b : Bool}
        → is_writing w ≡ b
        → (if not (is_writing w) then enable_write w else some w)
          ≡ (if not b then enable_write w else some w)
    chosen e = ap (λ b. if not b then enable_write w else some w) e

-- The bytes that remain are kept, and the write event is asked for in any case.
second_part-Outputs :
    (d : Connection) (rest : Buffer) (remaining : ℕ)
    → IsSound d
    → IsValid rest
    → remaining ≡ size rest
    → size d.send_buffer + size rest ≤ d.send_buffer.capacity
    → Outputs d (output d ++ contents rest) (second_part (d, rest, remaining))
unfolding second_part
second_part-Outputs d rest remaining s v k h =
    let (b, e, u, x, n) = keeps d.send_buffer rest remaining s.valid v s.small k h in
    let (w, r, ev, _) = writes_on d.watcher s.event in
    (
      record d { send_buffer = b; watcher = w },
      rw (e, r),
      record { valid = u; small = omega (arith, s.small); event = ev },
      ap (◌++◌ d.sent) x ∙ sym (append_assoc d.sent (contents d.send_buffer) (contents rest)),
      n,
      omega arith,
    )

IsSound-of_same :
    (c d : Connection)
    → d.send_buffer ≡ c.send_buffer
    → d.watcher ≡ c.watcher
    → IsSound c
    → IsSound d
IsSound-of_same c d p q s = record {
  valid = rw p s.valid;
  small = rw p s.small;
  event = rw q s.event;
}

send_in_loop_parts :
    (c : Connection) (buf : Buffer) (answer : Option ℕ)
    → send_in_loop c buf answer ≡ (first_part c buf answer >>= second_part)
unfolding send_in_loop first_part second_part
send_in_loop_parts c buf answer = refl

-- `SendInLoop` of a sound connection and a valid buffer whose bytes fit behind those that wait does
-- not fault, whatever the kernel answers. The bytes taken by the kernel, followed by those in the
-- send buffer, are what they were, followed by those of the buffer; the size of the array is kept,
-- and the connection stays sound.
pub send_in_loop-Outputs :
    (c : Connection) (buf : Buffer) (answer : Option ℕ)
    → IsSound c
    → IsValid buf
    → size c.send_buffer + size buf ≤ c.send_buffer.capacity
    → Outputs c (output c ++ contents buf) (send_in_loop c buf answer)
send_in_loop-Outputs c buf answer s v h =
    let ((d, rest, k), e, t) = first_part-Tried c buf answer s v in
    let (x, r, u, o, n, g) =
      second_part-Outputs d rest k (IsSound-of_same c d t.same_buffer t.same_watcher s) t.rest_valid
        t.counted (room d rest t.same_buffer t.rest_small) in
    (
      x,
      send_in_loop_parts c buf answer ∙ ap (λ q. q >>= second_part) e ∙ r,
      u,
      o ∙ t.joined,
      n ∙ ap (λ b. b.capacity) t.same_buffer,
      omega (arith, g, t.grows),
    )
  where
    room :
        (d : Connection) (rest : Buffer)
        → d.send_buffer ≡ c.send_buffer
        → size rest ≤ size buf
        → size d.send_buffer + size rest ≤ d.send_buffer.capacity
    room d rest p q = omega (arith, h, q, ap size p, ap (λ b. b.capacity) p)
