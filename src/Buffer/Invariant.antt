-- ===== src/Buffer/Invariant.antt =====
-- The invariant of a buffer, the bytes that it holds for its reader, and how the methods that write
-- memory act on both.
use tiny_game_server.Base.{
  ℕ, ◌+◌, ◌-◌, ◌*◌, ◌%◌, ◌^◌, ◌≤◌, ◌<◌, ◌≡◌, refl, ap, ◌∙◌, List, [], ◌++◌, some, arith, take, drop,
  length, length-take, take-append, take_all, take-append_left, drop-append_left, drop-take,
  length-slice, slice, load_at, store_at, load_at_ok, store_at_ok, length-store, block,
  length-block,
}
use tiny_game_server.Buffer.{Buffer, get_length, adjust, reallocate, new_buffer, clear}

pub record IsValid (b : Buffer) : Type 0 where
  pub sized : length b.memory ≡ b.capacity
  pub ordered : b.read_index ≤ b.write_index
  pub inside : b.write_index ≤ b.capacity
  pub narrow : b.capacity < 2 ^ 32

-- The number of unread bytes, and the bytes.
abbrev pub size : Buffer → ℕ
size b = b.write_index - b.read_index

abbrev pub contents : Buffer → List ℕ
contents b = slice b.memory b.read_index (size b)

pub length-contents : (b : Buffer) → IsValid b → length (contents b) ≡ size b
length-contents b v = length-slice b.memory b.read_index (size b) (omega arith)

pub get_length_lem : (b : Buffer) → IsValid b → get_length b ≡ size b
unfolding get_length
get_length_lem b v = omega arith

pub new_buffer-IsValid :
    (junk : ℕ → ℕ → ℕ) (n : ℕ)
    → n < 2 ^ 32
    → IsValid (new_buffer junk n) × (contents (new_buffer junk n) ≡ [])
unfolding new_buffer
new_buffer-IsValid junk n h = (
  record {
    sized = length-block (junk n) n;
    ordered = omega arith;
    inside = omega arith;
    narrow = h;
  },
  refl,
)

pub clear-IsValid : (b : Buffer) → IsValid b → IsValid (clear b) × (contents (clear b) ≡ [])
unfolding clear
clear-IsValid b v = (omega arith, refl)

-- What stands before an offset does not matter to what is read from there on.
pub slice-store :
    (xs ys : List ℕ) (r w n : ℕ)
    → r ≤ w
    → w + length ys ≤ length xs
    → n ≡ w - r + length ys
    → slice (take w xs ++ (ys ++ drop (w + length ys) xs)) r n ≡ slice xs r (w - r) ++ ys
slice-store xs ys r w n h k e =
    ap (take n) (drop-append_left r (take w xs) rest (omega (arith, length-take w xs)))
    ∙ ap (λ t. take n (t ++ rest)) (drop-take r w (w - r) xs (omega arith))
    ∙ take-append n (length ys) kept rest (omega (arith, length-slice xs r (w - r) (omega arith)))
    ∙ ap (◌++◌ kept) (take-append_left (length ys) ys _ (omega arith) ∙ take_all _ ys (omega arith))
  where
    rest : List ℕ
    rest = ys ++ drop (w + length ys) xs

    kept : List ℕ
    kept = slice xs r (w - r)

-- A copy to the front of a block.
pub slice-store_front :
    (xs ys : List ℕ) (n : ℕ)
    → n ≡ length ys
    → slice (take 0 xs ++ (ys ++ drop (0 + length ys) xs)) 0 n ≡ ys
slice-store_front xs ys n e =
    take-append_left n ys (drop (0 + length ys) xs) (omega arith) ∙ take_all n ys (omega arith)

-- The unread bytes stand at the front of an array of `cap` bytes.
pub record Moved (b : Buffer) (cap : ℕ) (c : Buffer) : Type 0 where
  pub valid : IsValid c
  pub same : contents c ≡ contents b
  pub capacity_is : c.capacity ≡ cap
  pub read_index_is : c.read_index ≡ 0
  pub write_index_is : c.write_index ≡ size b

module _ (b : Buffer) (v : IsValid b) where
  moved : List ℕ → List ℕ
  moved xs = take 0 xs ++ (contents b ++ drop (0 + length (contents b)) xs)

  length-moved : (xs : List ℕ) → size b ≤ length xs → length (moved xs) ≡ length xs
  unfolding moved
  length-moved xs h = length-store xs 0 (contents b) (omega (arith, length-contents b v))

  load_contents : load_at b.memory b.read_index (get_length b) ≡ some (contents b)
  load_contents =
      ap (load_at b.memory b.read_index) (get_length_lem b v)
      ∙ load_at_ok b.memory b.read_index (size b) (omega arith)

  store_contents : (xs : List ℕ) → size b ≤ length xs → store_at xs 0 (contents b) ≡ some (moved xs)
  unfolding moved
  store_contents xs h = store_at_ok xs 0 (contents b) (omega (arith, length-contents b v))

  slice-moved : (xs : List ℕ) (n : ℕ) → n ≡ size b → slice (moved xs) 0 n ≡ contents b
  unfolding moved
  slice-moved xs n e = slice-store_front xs (contents b) n (omega (arith, length-contents b v))

  -- The buffer that `adjust` and the allocating branch of `grow` leave.
  abbrev at_front : List ℕ → ℕ → Buffer
  at_front xs cap = record {
    memory = moved xs;
    capacity = cap;
    read_index = 0;
    write_index = get_length b;
    junk = b.junk;
  }

  at_front-Moved :
      (xs : List ℕ) (cap : ℕ)
      → length xs ≡ cap
      → size b ≤ cap
      → cap < 2 ^ 32
      → Moved b cap (at_front xs cap)
  at_front-Moved xs cap e h k = record {
    valid = record {
      sized = length-moved xs (omega arith) ∙ e;
      ordered = omega arith;
      inside = omega (arith, get_length_lem b v);
      narrow = k;
    };
    same = slice-moved xs _ (omega (arith, get_length_lem b v));
    capacity_is = refl;
    read_index_is = refl;
    write_index_is = get_length_lem b v;
  }

  -- `adjust` moves the unread bytes to the front.
  pub adjust-Moved : (c : Buffer) × (adjust b ≡ some c) × Moved b b.capacity c
  unfolding adjust
  adjust-Moved = (
    at_front b.memory b.capacity,
    rw (load_contents, store_contents b.memory (omega arith)) refl,
    at_front-Moved b.memory b.capacity v.sized (omega arith) v.narrow,
  )

  -- So does the allocating branch of `grow`, if the new capacity fits its type.
  pub reallocate-Moved :
      (n : ℕ)
      → b.capacity * 2 + n < 2 ^ 32
      → (c : Buffer) × (reallocate b n ≡ some c) × Moved b (b.capacity * 2 + n) c
  unfolding reallocate
  reallocate-Moved n h = (
    at_front new cap,
    rw (fits, load_contents, store_contents new (omega (arith, length-block (b.junk cap) cap)))
        refl,
    at_front-Moved new cap (length-block (b.junk cap) cap) (omega arith) h,
  )
    where
      cap : ℕ
      cap = b.capacity * 2 + n

      new : List ℕ
      new = block (b.junk cap) cap

      fits : (b.capacity * 2 + n) % 2 ^ 32 ≡ b.capacity * 2 + n
      fits = omega arith
