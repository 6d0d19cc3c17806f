-- ===== src/Buffer/Read.antt =====
-- The methods that read or drop unread bytes.
use tiny_game_server.Base.{
  ℕ, ◌+◌, ◌-◌, ◌^◌, ◌≤◌, ◌<◌, ◌≡◌, refl, sym, ap, ◌∙◌, [], some, arith, add32, take, drop,
  load_at_ok, slice, drop-drop, drop-take, take-take, take_all, drop_all, dec_lt, lt→ltb, ge→ltb,
}
use tiny_game_server.Buffer.{
  Buffer, get_length, get_data, read_bytes, read_string, read_all, forward, append, append_buffer,
}
use tiny_game_server.Buffer.Invariant.{IsValid, size, contents, get_length_lem, length-contents}

-- The buffer after a read of `w` bytes.
abbrev pub advanced : Buffer → ℕ → Buffer
advanced b w = record b { read_index = add32 b.read_index w }

pub record Dropped (b : Buffer) (w : ℕ) (c : Buffer) : Type 0 where
  pub valid : IsValid c
  pub others : contents c ≡ drop w (contents b)

module _ (b : Buffer) (v : IsValid b) where
  drop-contents :
      (w : ℕ) → w ≤ size b → slice b.memory (b.read_index + w) (size b - w) ≡ drop w (contents b)
  drop-contents w h =
      ap (take (size b - w)) (sym (drop-drop w b.read_index (b.read_index + w) b.memory refl))
      ∙ sym (drop-take w (size b) (size b - w) (drop b.read_index b.memory) (omega arith))

  pub advanced-Dropped : (w : ℕ) → w ≤ size b → Dropped b w (advanced b w)
  advanced-Dropped w h = record {
    valid = record { sized = v.sized; ordered = omega arith; inside = v.inside; narrow = v.narrow };
    others =
        ap (λ i. slice b.memory i (b.write_index - i)) at
        ∙ ap (slice b.memory (b.read_index + w)) left
        ∙ drop-contents w h;
  }
    where
      at : add32 b.read_index w ≡ b.read_index + w
      at = omega arith

      left : b.write_index - (b.read_index + w) ≡ size b - w
      left = omega arith

  -- A read of no more than the unread bytes returns the first ones and keeps the others.
  pub read_bytes_ok :
      (w : ℕ)
      → w ≤ size b
      → (read_bytes b w ≡ some (take w (contents b), advanced b w)) × Dropped b w (advanced b w)
  unfolding read_bytes
  read_bytes_ok w h = (
    rw (load_at_ok b.memory b.read_index w (omega arith)) (
        ap (λ t. some (t, advanced b w))
          (sym (take-take w (size b) (drop b.read_index b.memory) h))),
    advanced-Dropped w h,
  )

  -- A read of more bytes than are unread in a valid buffer, but within its array, returns bytes
  -- that nobody wrote, and the length is then 2^32 less the bytes that were missing.
  pub read_bytes_underrun :
      (w : ℕ)
      → size b < w
      → b.read_index + w ≤ b.capacity
      → (read_bytes b w ≡ some (slice b.memory b.read_index w, advanced b w))
        × (get_length (advanced b w) ≡ 2 ^ 32 + size b - w)
  unfolding read_bytes get_length
  read_bytes_underrun w h k = (rw (load_at_ok b.memory b.read_index w (omega arith)), omega arith)

  pub get_data_lem : get_data b (get_length b) ≡ some (contents b)
  unfolding get_data
  get_data_lem = rw (get_length_lem b v) (load_at_ok b.memory b.read_index (size b) (omega arith))

  pub read_string_lem :
      (n : ℕ) → (c : Buffer) × (read_string b n ≡ some (take n (contents b), c)) × Dropped b n c
  unfolding read_string
  read_string_lem n = elim (dec_lt (size b) n) [
    | yes p ↦
        let (e, d) = read_bytes_ok (size b) (omega arith) in
        (
          advanced b (size b),
          rw (get_length_lem b v, lt→ltb (size b) n p)
              (e
                ∙ ap (λ t. some (t, advanced b (size b)))
                    (take-past (size b) n (omega arith) (omega arith))),
          record {
            valid = d.valid;
            others = d.others ∙ drop-past (size b) n (omega arith) (omega arith);
          },
        )
    | no p ↦
        let (e, d) = read_bytes_ok n (omega arith) in
        (advanced b n, rw (get_length_lem b v, ge→ltb (size b) n (omega arith)) e, d)
  ]
    where
      take-past : (k m : ℕ) → size b ≤ k → size b ≤ m → take k (contents b) ≡ take m (contents b)
      take-past k m p q =
          take_all k (contents b) (omega (arith, length-contents b v))
          ∙ sym (take_all m (contents b) (omega (arith, length-contents b v)))

      drop-past : (k m : ℕ) → size b ≤ k → size b ≤ m → drop k (contents b) ≡ drop m (contents b)
      drop-past k m p q =
          drop_all k (contents b) (omega (arith, length-contents b v))
          ∙ sym (drop_all m (contents b) (omega (arith, length-contents b v)))

  pub read_all_lem :
      (c : Buffer) × (read_all b ≡ some (contents b, c)) × IsValid c × (contents c ≡ [])
  unfolding read_all
  read_all_lem =
      let (e, d) = read_bytes_ok (size b) (omega arith) in
      (
        advanced b (size b),
        rw (get_length_lem b v) (
            e
            ∙ ap (λ t. some (t, advanced b (size b)))
                (take_all (size b) (contents b) (omega (arith, length-contents b v)))),
        d.valid,
        d.others ∙ drop_all (size b) (contents b) (omega (arith, length-contents b v)),
      )

  -- `Forward` drops bytes from the front, all of them if told to drop more than there are.
  pub forward_lem : (n : ℕ) → Dropped b n (forward b n)
  unfolding forward
  forward_lem n = elim (dec_lt n (size b)) [
    | yes p ↦ rw (get_length_lem b v, lt→ltb n (size b) p) (advanced-Dropped n (omega arith))
    | no p ↦
        rw (get_length_lem b v, ge→ltb n (size b) (omega arith))
          (record {
            valid = omega arith;
            others = sym (drop_all n (contents b) (omega (arith, length-contents b v)));
          })
  ]

  -- A buffer is appended by its unread bytes.
  pub append_buffer_lem : (other : Buffer) → append_buffer other b ≡ append other (contents b)
  unfolding append_buffer
  append_buffer_lem other = rw get_data_lem
