-- ===== src/DataServer/Message.antt =====
-- Which messages pass the test of the callback.
use tiny_game_server.Base.{
  ℕ, ◌-◌, ◌%◌, ◌^◌, ◌≤◌, ◌<◌, ◌≡◌, ap, List, [], ◌∷◌, ◌++◌, Option, none, some, true, false, arith,
  leb, length, length-append,
}
use tiny_game_server.Bytes.{Host, little, big, store, hton, htonll}
use tiny_game_server.Bytes.Order.{length-store}
use tiny_game_server.Buffer.{Buffer, read_int8}
use tiny_game_server.Buffer.Invariant.{IsValid, size, contents, get_length_lem, length-contents}
use tiny_game_server.Buffer.Codec.{Takes-bind}
use tiny_game_server.Buffer.Frames.{read_int8_lem, peek_tag_len_lem, hton-little}
use tiny_game_server.DataServer.{Handled, read_incomplete, login, dispatch, message}
use tiny_game_server.DataServer.Login.{
  Replies, reply_bytes, login_bytes, login-Replies, login_faults,
}

pub le→leb : (a b : ℕ) → a ≤ b → leb a b ≡ true
le→leb a b h = ground arith

pub lt→leb : (a b : ℕ) → b < a → leb a b ≡ false
lt→leb a b h = ground arith

module _ (host : Host) (junk : ℕ → ℕ → ℕ) (select_user : List ℕ → List ℕ → Option ℕ) where
  -- A message that the test lets through goes to its handler.
  message_passes :
      (b : Buffer) (tag len : ℕ) (rest : List ℕ)
      → IsValid b
      → contents b ≡ tag ∷ (store big 4 len ++ rest)
      → 13 ≤ size b
      → hton host 4 len ≤ size b - 1
      → message host junk select_user b ≡ dispatch host junk select_user b
  unfolding message
  message_passes b tag len rest v e h k = rw (
    get_length_lem b v,
    le→leb 13 (size b) h,
    peek_tag_len_lem host b tag len rest v e,
    le→leb (hton host 4 len) (size b - 1) k,
  )

  -- What holds of the login handler on the rest of a login message holds of the callback.
  message_logs_in :
      (P : Handled → Type 0) (b : Buffer) (len id : ℕ) (name pass rest : List ℕ)
      → IsValid b
      → contents b ≡ b'l' ∷ login_bytes host junk len id name pass rest
      → hton host 4 len ≤ size b - 1
      → ((c : Buffer)
          → IsValid c
          → contents c ≡ login_bytes host junk len id name pass rest
          → P (login host junk select_user c))
      → P (message host junk select_user b)
  unfolding dispatch
  message_logs_in P b len id name pass rest v e k answer =
      rw (message_passes b b'l' len _ v e long k)
        (Takes-bind P _ b'l' (read_int8 b) _ (read_int8_lem b b'l' _ v e) answer)
    where
      long : 13 ≤ size b
      long = omega (
        arith,
        length-contents b v,
        ap length e,
        length-append (store big 4 len) (
            store host 8 (htonll host id)
            ++ (store big 4 (length name)
                ++ (name ++ (store big 4 (length pass) ++ (pass ++ rest))))),
        length-append (store host 8 (htonll host id))
            (store big 4 (length name) ++ (name ++ (store big 4 (length pass) ++ (pass ++ rest)))),
        length-store big 4 len,
        length-store host 8 (htonll host id),
      )

  -- A login at the front of a valid buffer, with a length of 32 bits, an id of 64 bits and a name
  -- and a password shorter than 2^32 bytes, is answered if its length, with its bytes in the order
  -- of the host, is no more than what follows the tag and the database gives an answer: the message
  -- is taken off the buffer, what follows it stays, and the one reply is that for the id and the
  -- user.
  pub message-Replies :
      (b : Buffer) (len id uid : ℕ) (name pass rest : List ℕ)
      → IsValid b
      → len < 2 ^ 32
      → id < 2 ^ 64
      → length name < 2 ^ 32
      → length pass < 2 ^ 32
      → contents b ≡ b'l' ∷ login_bytes host junk len id name pass rest
      → hton host 4 len ≤ size b - 1
      → select_user name pass ≡ some uid
      → Replies host junk select_user rest
          (reply_bytes host junk id uid)
          (message host junk select_user b)
  message-Replies b len id uid name pass rest v hl hi hn hp e k s =
      message_logs_in (Replies host junk select_user rest (reply_bytes host junk id uid)) b len id
        name pass rest v e k
        λ c w o. login-Replies host junk select_user c len id uid name pass rest w hl hi hn hp o s

  -- So is a fault of the lookup one of the callback.
  pub message_faults :
      (b : Buffer) (len id : ℕ) (name pass rest : List ℕ)
      → IsValid b
      → len < 2 ^ 32
      → id < 2 ^ 64
      → length name < 2 ^ 32
      → length pass < 2 ^ 32
      → contents b ≡ b'l' ∷ login_bytes host junk len id name pass rest
      → hton host 4 len ≤ size b - 1
      → select_user name pass ≡ none
      → message host junk select_user b ≡ none
  message_faults b len id name pass rest v hl hi hn hp e k s =
      message_logs_in (λ r. r ≡ none) b len id name pass rest v e k
        λ c w o. login_faults host junk select_user c len id name pass rest w hl hi hn hp o s

-- On a little-endian host a message at the front of a valid buffer of at most 16 MiB of unread
-- bytes, whose length is no multiple of 256, is never handled, complete or not: the status is
-- `READ_INCOMPLETE`, nothing is sent, and the buffer stays as it is.
pub message_stuck :
    (junk : ℕ → ℕ → ℕ) (select_user : List ℕ → List ℕ → Option ℕ) (b : Buffer) (tag len : ℕ)
    (rest : List ℕ)
    → IsValid b
    → contents b ≡ tag ∷ (store big 4 len ++ rest)
    → 0 < len % 256
    → size b ≤ 2 ^ 24
    → message little junk select_user b ≡ some (read_incomplete, b, [])
unfolding message
message_stuck junk select_user b tag len rest v e h k =
    rw
      (
        get_length_lem b v,
        peek_tag_len_lem little b tag len rest v e,
        lt→leb (hton little 4 len) (size b - 1) (omega (arith, hton-little len)),
      )
      (ground arith)
