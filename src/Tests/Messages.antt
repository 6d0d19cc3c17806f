-- ===== src/Tests/Messages.antt =====
-- Messages to the data server.
use tiny_game_server.Base.{ℕ, ◌*◌, ◌^◌, ◌≤◌, ◌≡◌, refl, List, [], ◌∷◌, ◌++◌, Option, some, arith}
use tiny_game_server.Bytes.{little, big, store, hton, htonll, load}
use tiny_game_server.Buffer.{Buffer}
use tiny_game_server.Buffer.Invariant.{IsValid, contents}
use tiny_game_server.DataServer.{message, read_incomplete}
use tiny_game_server.DataServer.Login.{Replies, reply_bytes, login_bytes}
use tiny_game_server.DataServer.Message.{message-Replies, message_stuck}

abbrev zeros : ℕ → ℕ → ℕ
zeros n i = 0

-- A database in which every user is number 3.
abbrev users : List ℕ → List ℕ → Option ℕ
users name pass = some 3

-- What follows the length.
abbrev login_tail : List ℕ
login_tail = 0 ∷ 0 ∷ 0 ∷ 0 ∷ 0 ∷ 0 ∷ 0 ∷ 7 ∷ 0 ∷ 0 ∷ 0 ∷ 1 ∷ b'a' ∷ 0 ∷ 0 ∷ 0 ∷ 1 ∷ b'b' ∷ []

-- | l | len | id | 1 | a | 1 | b |, where the length counts what follows the tag.
abbrev login_a : List ℕ → Buffer
login_a len = record {
  memory = b'l' ∷ (len ++ login_tail);
  capacity = 23;
  read_index = 0;
  write_index = 23;
  junk = zeros;
}

-- With the bytes of the length in the order of a little-endian host, and in network order.
abbrev host_order : Buffer
host_order = login_a (22 ∷ 0 ∷ 0 ∷ 0 ∷ [])

abbrev network_order : Buffer
network_order = login_a (0 ∷ 0 ∷ 0 ∷ 22 ∷ [])

host_order-IsValid : IsValid host_order
host_order-IsValid = record {
  sized = refl;
  ordered = omega arith;
  inside = omega arith;
  narrow = omega arith;
}

network_order-IsValid : IsValid network_order
network_order-IsValid = record {
  sized = refl;
  ordered = omega arith;
  inside = omega arith;
  narrow = omega arith;
}

host_order-contents :
    contents host_order ≡ b'l' ∷ login_bytes little zeros (22 * 2 ^ 24) 7 (b'a' ∷ []) (b'b' ∷ []) []
unfolding store htonll hton load
host_order-contents = refl

host_order-length : hton little 4 (22 * 2 ^ 24) ≤ 22
unfolding hton load store
host_order-length = omega arith

message-Replies_example :
    Replies little zeros users []
      (reply_bytes little zeros 7 3)
      (message little zeros users host_order)
message-Replies_example =
    message-Replies little zeros users host_order (22 * 2 ^ 24) 7 3 (b'a' ∷ []) (b'b' ∷ []) []
      host_order-IsValid (omega arith) (omega arith) (omega arith) (omega arith) host_order-contents
      host_order-length refl

network_order-contents : contents network_order ≡ b'l' ∷ (store big 4 22 ++ login_tail)
unfolding store
network_order-contents = refl

message_stuck_example :
    message little zeros users network_order ≡ some (read_incomplete, network_order, [])
message_stuck_example =
    message_stuck zeros users network_order b'l' 22 login_tail network_order-IsValid
      network_order-contents (omega arith) (omega arith)
