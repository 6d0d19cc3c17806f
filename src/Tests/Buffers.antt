-- ===== src/Tests/Buffers.antt =====
-- Buffers of a few bytes.
use tiny_game_server.Base.{
  ℕ, ◌≡◌, refl, [], ◌∷◌, ◌++◌, none, some, arith, load_at, store_at, ◌>>=◌, ◌⊎◌, ◌^◌, ◌+◌, ◌-◌, ◌≤◌,
}
use tiny_game_server.Bytes.{little, big, store, load, htonll, ntohll}
use tiny_game_server.Bytes.Network.{ntohll-htonll}
use tiny_game_server.Buffer.{
  Buffer, new_buffer, append, ensure_capacity, grow, adjust, read_fd, read_bytes, get_length,
  peek_tag_len,
}
use tiny_game_server.Buffer.Invariant.{IsValid, contents, size}
use tiny_game_server.Buffer.Append.{Overruns, Appended, append_outcome}
use tiny_game_server.Buffer.Receive.{Spills, read_fd_outcome, read_fd-new_buffer}
use tiny_game_server.Buffer.Read.{read_bytes_underrun}
use tiny_game_server.Buffer.Codec.{HasRoom, Takes}
use tiny_game_server.Buffer.Frames.{write_header, read_header, header_roundtrip, peek-len-le}

abbrev zeros : ℕ → ℕ → ℕ
zeros n i = 0

-- Two unread bytes in an array of four.
abbrev two_bytes : Buffer
two_bytes = record {
  memory = 1 ∷ 2 ∷ 3 ∷ 4 ∷ [];
  capacity = 4;
  read_index = 1;
  write_index = 3;
  junk = zeros;
}

two_bytes-IsValid : IsValid two_bytes
two_bytes-IsValid = record {
  sized = refl;
  ordered = omega arith;
  inside = omega arith;
  narrow = omega arith;
}

append_moves :
    append two_bytes (8 ∷ 9 ∷ [])
    ≡ some (record two_bytes { memory = 2 ∷ 3 ∷ 8 ∷ 9 ∷ []; read_index = 0; write_index = 4 })
unfolding append ensure_capacity grow adjust get_length load_at store_at
append_moves = refl

append_outcome_example :
    (Overruns two_bytes 3 × (append two_bytes (7 ∷ 8 ∷ 9 ∷ []) ≡ none))
    ⊎ ((¬ Overruns two_bytes 3)
        × (c : Buffer) × (append two_bytes (7 ∷ 8 ∷ 9 ∷ []) ≡ some c)
        × Appended two_bytes (7 ∷ 8 ∷ 9 ∷ []) c)
append_outcome_example = append_outcome two_bytes (7 ∷ 8 ∷ 9 ∷ []) two_bytes-IsValid (omega arith)

read_fd_outcome_example :
    (Spills two_bytes 2 × (read_fd two_bytes (some (8 ∷ 9 ∷ [])) ≡ none))
    ⊎ ((¬ Spills two_bytes 2)
        × (c : Buffer) × (read_fd two_bytes (some (8 ∷ 9 ∷ [])) ≡ some c)
        × Appended two_bytes (8 ∷ 9 ∷ []) c)
read_fd_outcome_example = read_fd_outcome two_bytes (8 ∷ 9 ∷ []) two_bytes-IsValid (omega arith)

read_fd-new_buffer_test : read_fd (new_buffer zeros 2) (some (7 ∷ 8 ∷ 9 ∷ [])) ≡ none
read_fd-new_buffer_test =
    read_fd-new_buffer zeros 2 (7 ∷ 8 ∷ 9 ∷ []) (omega arith) (omega arith) (omega arith)

read_bytes_underrun_test :
    (read_bytes two_bytes 3 ≡ some (2 ∷ 3 ∷ 4 ∷ [], record two_bytes { read_index = 4 }))
    × (get_length (record two_bytes { read_index = 4 }) ≡ 2 ^ 32 + size two_bytes - 3)
read_bytes_underrun_test =
    read_bytes_underrun two_bytes two_bytes-IsValid 3 (omega arith) (omega arith)

-- Sixteen bytes, all free.
abbrev empty_buffer : Buffer
empty_buffer = record {
  memory = 0 ∷ 0 ∷ 0 ∷ 0 ∷ 0 ∷ 0 ∷ 0 ∷ 0 ∷ 0 ∷ 0 ∷ 0 ∷ 0 ∷ 0 ∷ 0 ∷ 0 ∷ 0 ∷ [];
  capacity = 16;
  read_index = 0;
  write_index = 0;
  junk = zeros;
}

empty_buffer-IsValid : IsValid empty_buffer
empty_buffer-IsValid = record {
  sized = refl;
  ordered = omega arith;
  inside = omega arith;
  narrow = omega arith;
}

empty_buffer-HasRoom : HasRoom empty_buffer 13
empty_buffer-HasRoom = record {
  valid = empty_buffer-IsValid;
  modest = omega arith;
  fits = omega arith;
}

header_roundtrip_example :
    Takes [] (b's', 20, 7) (write_header little empty_buffer b's' 20 7 >>= read_header little)
header_roundtrip_example =
    header_roundtrip little empty_buffer b's' 20 7 empty_buffer-HasRoom refl (omega arith)
      (omega arith)

-- A tag and the length 20.
abbrev frame_start : Buffer
frame_start = record {
  memory = b'x' ∷ 0 ∷ 0 ∷ 0 ∷ 20 ∷ [];
  capacity = 5;
  read_index = 0;
  write_index = 5;
  junk = zeros;
}

frame_start-IsValid : IsValid frame_start
frame_start-IsValid = record {
  sized = refl;
  ordered = omega arith;
  inside = omega arith;
  narrow = omega arith;
}

frame_start-contents : contents frame_start ≡ b'x' ∷ (store big 4 20 ++ [])
unfolding store
frame_start-contents = refl

peek_example : peek_tag_len little frame_start ≡ some (b'x', 335544320)
unfolding peek_tag_len load load_at
peek_example = refl

peek-len-le_test :
    (seen : ℕ) × (peek_tag_len little frame_start ≡ some (b'x', seen)) × (2 ^ 24 ≤ seen)
peek-len-le_test =
    peek-len-le frame_start b'x' 20 [] frame_start-IsValid frame_start-contents (omega arith)

ntohll-htonll_test : ntohll little (htonll little 258) ≡ 258
ntohll-htonll_test = ntohll-htonll little 258 (omega arith)
