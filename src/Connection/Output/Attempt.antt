-- ===== src/Connection/Output/Attempt.antt =====
-- The first part of `SendInLoop`, which tries to write at once.
use tiny_game_server.Base.{
  ℕ, ◌-◌, ◌≤◌, ◌≡◌, refl, ap, [], ◌++◌, Option, none, some, Bool, true, not, ◌&&◌, ◌==◌,
  if◌then◌else◌, arith, Bool-cases, inl, inr, take, length, length-append, length-drop, append-nil,
  eq-nil_of_length,
}
use tiny_game_server.Buffer.{Buffer, get_length, forward}
use tiny_game_server.Buffer.Invariant.{IsValid, size, contents, get_length_lem, length-contents}
use tiny_game_server.Buffer.Read.{get_data_lem, forward_lem}
use tiny_game_server.Watcher.{is_writing}
use tiny_game_server.Connection.{Connection, took, attempt}
use tiny_game_server.Connection.Output.{IsSound, output, took-forward}

-- What the first part of `SendInLoop` leaves for the second.
pub record Tried (c : Connection) (buf : Buffer) (r : Connection × Buffer × ℕ) : Type 0 where
  pub rest_valid : IsValid r.1
  pub rest_small : size r.1 ≤ size buf
  pub counted : r.2 ≡ size r.1
  pub same_buffer : r.0.send_buffer ≡ c.send_buffer
  pub same_watcher : r.0.watcher ≡ c.watcher
  pub grows : length c.sent ≤ length r.0.sent
  pub joined : output r.0 ++ contents r.1 ≡ output c ++ contents buf

size-forward : (b : Buffer) (n : ℕ) → IsValid b → size (forward b n) ≡ size b - n
size-forward b n v = omega (
  arith,
  length-contents b v,
  length-contents (forward b n) (forward_lem b v n).valid,
  ap length (forward_lem b v n).others,
  length-drop n (contents b),
)

attempt-Tried :
    (c : Connection) (buf : Buffer) (answer : Option ℕ)
    → IsValid buf
    → contents c.send_buffer ≡ []
    → (r : Connection × Buffer × ℕ) × (attempt c buf answer ≡ some r) × Tried c buf r
unfolding attempt
attempt-Tried c buf none v e = (
  (c, buf, get_length buf),
  refl,
  record {
    rest_valid = v;
    rest_small = omega arith;
    counted = get_length_lem buf v;
    same_buffer = refl;
    same_watcher = refl;
    grows = omega arith;
    joined = refl;
  },
)
attempt-Tried c buf (some n) v e = (
  (took (contents buf) n c, forward buf n, get_length buf - n),
  rw (get_data_lem buf v),
  record {
    rest_valid = (forward_lem buf v n).valid;
    rest_small = omega (arith, size-forward buf n v);
    counted = omega (arith, size-forward buf n v, get_length_lem buf v);
    same_buffer = refl;
    same_watcher = refl;
    grows = omega (arith, length-append c.sent (take n (contents buf)));
    joined = rw (e, append-nil, append-nil) (took-forward buf n c.sent v);
  },
)

right_zero : (b : Bool) (n : ℕ) → (b && (n == 0)) ≡ true → n ≡ 0
right_zero b n h = ground arith

unfoldable pub first_part : Connection → Buffer → Option ℕ → Option (Connection × Buffer × ℕ)
first_part c buf answer =
    if not (is_writing c.watcher) && (get_length c.send_buffer == 0)
    then attempt c buf answer
    else some (c, buf, get_length buf)

pub first_part-Tried :
    (c : Connection) (buf : Buffer) (answer : Option ℕ)
    → IsSound c
    → IsValid buf
    → (r : Connection × Buffer × ℕ) × (first_part c buf answer ≡ some r) × Tried c buf r
unfolding first_part
first_part-Tried c buf answer s v =
    elim (Bool-cases (not (is_writing c.watcher) && (get_length c.send_buffer == 0))) [
      | inl e ↦ rw e (attempt-Tried c buf answer v (empty e))
      | inr e ↦ (
        (c, buf, get_length buf),
        rw e,
        record {
          rest_valid = v;
          rest_small = omega arith;
          counted = get_length_lem buf v;
          same_buffer = refl;
          same_watcher = refl;
          grows = omega arith;
          joined = refl;
        },
      )
    ]
  where
    empty :
        (not (is_writing c.watcher) && (get_length c.send_buffer == 0)) ≡ true
        → contents c.send_buffer ≡ []
    empty e = eq-nil_of_length (contents c.send_buffer) (
        omega (
          arith,
          right_zero (not (is_writing c.watcher)) (get_length c.send_buffer) e,
          get_length_lem c.send_buffer s.valid,
          length-contents c.send_buffer s.valid,
        ))
