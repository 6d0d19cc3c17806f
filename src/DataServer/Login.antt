-- ===== src/DataServer/Login.antt =====
-- Logins as the data server answers them, and those that it never sees.
use tiny_game_server.Base.{
  ℕ, ◌^◌, ◌≤◌, ◌<◌, ◌≡◌, refl, ap, ◌∙◌, List, [], ◌∷◌, ◌++◌, Option, none, some, arith, ◌==◌,
  if◌then◌else◌, ◌>>=◌, Bool-cases, inl, inr, length, take, drop, take-append_left, take_all,
  drop-append,
}
use tiny_game_server.Bytes.{Host, big, store, htonll}
use tiny_game_server.Bytes.Order.{length-store}
use tiny_game_server.Buffer.{Buffer, new_buffer, initial_size, read_int32, read_int64, read_string}
use tiny_game_server.Buffer.Invariant.{IsValid, contents, new_buffer-IsValid}
use tiny_game_server.Buffer.Read.{read_string_lem}
use tiny_game_server.Buffer.Codec.{
  HasRoom, Adds, Adds-bind, Takes, Takes-bind, append_int32_lem, append_int64_lem, read_int32_lem,
  read_int64_lem,
}
use tiny_game_server.Buffer.Frames.{append_int8_lem, header_bytes}
use tiny_game_server.DataServer.{
  read_success, Handled, no_user, failure_reply, success_reply, login,
}

-- A string that stands at the front is read by its length.
pub read_string-Takes :
    (b : Buffer) (s rest : List ℕ)
    → IsValid b
    → contents b ≡ s ++ rest
    → Takes rest s (read_string b (length s))
read_string-Takes b s rest v e =
    let (c, r, d) = read_string_lem b v (length s) in
    (
      c,
      r
          ∙ ap (λ t. some (t, c))
              (ap (take (length s)) e
                ∙ take-append_left (length s) s rest (omega arith)
                ∙ take_all (length s) s (omega arith)),
      d.valid,
      d.others ∙ ap (drop (length s)) e ∙ drop-append (length s) 0 s rest (omega arith),
    )

module _ (host : Host) (junk : ℕ → ℕ → ℕ) where
  pub new_buffer-HasRoom : (n : ℕ) → n ≤ initial_size → HasRoom (new_buffer junk initial_size) n
  new_buffer-HasRoom n h =
      unfold new_buffer in
      record {
        valid = (new_buffer-IsValid junk initial_size (omega arith)).0;
        modest = omega arith;
        fits = omega arith;
      }

  -- A reply holds these bytes.
  abbrev pub Holds : List ℕ → Option Buffer → Type 0
  Holds bytes r = (c : Buffer) × (r ≡ some c) × IsValid c × (contents c ≡ bytes)

  pub new_buffer-Holds :
      (bytes : List ℕ) (r : Option Buffer)
      → Adds (new_buffer junk initial_size) bytes r
      → Holds bytes r
  new_buffer-Holds bytes r (c, e, v, s, _) =
      (c, e, v, s ∙ ap (λ t. t ++ bytes) (new_buffer-IsValid junk initial_size (omega arith)).1)

  failure_reply-Holds : (id : ℕ) → Holds (header_bytes host b'x' 12 id) (failure_reply host junk id)
  unfolding failure_reply
  failure_reply-Holds id = new_buffer-Holds _ _ (
      Adds-bind _ (b'x' ∷ []) _ 1 12 _ _ refl (new_buffer-HasRoom 13 (omega arith))
        (append_int8_lem _ b'x' (new_buffer-HasRoom 1 (omega arith)))
        λ c k.
          Adds-bind c (store big 4 12) _ 4 8 _ _ (length-store big 4 12) k
            (append_int32_lem host c 12 (omega arith)) λ d l. append_int64_lem host d id l)

  abbrev pub success_bytes : ℕ → ℕ → List ℕ
  success_bytes id uid =
      b's' ∷ (store big 4 20 ++ (store host 8 (htonll host id) ++ store host 8 (htonll host uid)))

  success_reply-Holds : (id uid : ℕ) → Holds (success_bytes id uid) (success_reply host junk id uid)
  unfolding success_reply
  success_reply-Holds id uid = new_buffer-Holds _ _ (
      Adds-bind _ (b's' ∷ []) _ 1 20 _ _ refl (new_buffer-HasRoom 21 (omega arith))
        (append_int8_lem _ b's' (new_buffer-HasRoom 1 (omega arith)))
        λ c k.
          Adds-bind c (store big 4 20) _ 4 16 _ _ (length-store big 4 20) k
            (append_int32_lem host c 20 (omega arith))
            λ d l.
              Adds-bind d (store host 8 (htonll host id)) _ 8 8 _ _
                (length-store host 8 (htonll host id)) l (append_int64_lem host d id (omega arith))
                λ e m. append_int64_lem host e uid m)

  -- The answer to a login with this id, where -1 stands for no such user.
  abbrev pub reply_bytes : ℕ → ℕ → List ℕ
  reply_bytes id uid = if uid == no_user then header_bytes host b'x' 12 id else success_bytes id uid

  reply-Holds :
      (id uid : ℕ)
      → Holds
          (reply_bytes id uid)
          (if uid == no_user then failure_reply host junk id else success_reply host junk id uid)
  reply-Holds id uid = elim (Bool-cases (uid == no_user)) [
    | inl e ↦ rw e (failure_reply-Holds id)
    | inr e ↦ rw e (success_reply-Holds id uid)
  ]

  -- A login message, behind its tag.
  abbrev pub login_bytes : ℕ → ℕ → List ℕ → List ℕ → List ℕ → List ℕ
  login_bytes len id name pass rest =
      store big 4 len
      ++ (store host 8 (htonll host id)
          ++ (store big 4 (length name) ++ (name ++ (store big 4 (length pass) ++ (pass ++ rest)))))

  module _ (select_user : List ℕ → List ℕ → Option ℕ) where
    -- The callback takes the message off the buffer and sends one reply.
    abbrev pub Replies : List ℕ → List ℕ → Handled → Type 0
    Replies rest bytes r =
        (c reply : Buffer) × (r ≡ some (read_success, c, reply ∷ []))
        × IsValid c
        × (contents c ≡ rest)
        × IsValid reply
        × (contents reply ≡ bytes)

    -- What the handler does once it has read the message.
    abbrev pub answered : Buffer → ℕ → List ℕ → List ℕ → Handled
    answered c id name pass = do
      uid ← select_user name pass
      reply ← if uid == no_user then failure_reply host junk id else success_reply host junk id uid
      some (read_success, c, reply ∷ [])

    -- What holds of the answer holds of the handler, which reads the message first.
    login_reads :
        (P : Handled → Type 0) (b : Buffer) (len id : ℕ) (name pass rest : List ℕ)
        → IsValid b
        → len < 2 ^ 32
        → id < 2 ^ 64
        → length name < 2 ^ 32
        → length pass < 2 ^ 32
        → contents b ≡ login_bytes len id name pass rest
        → ((c : Buffer) → IsValid c → contents c ≡ rest → P (answered c id name pass))
        → P (login host junk select_user b)
    unfolding login
    login_reads P b len id name pass rest v hl hi hn hp e answer =
        Takes-bind P _ len (read_int32 host b) _ (read_int32_lem host b len _ v hl e) λ b1 v1 e1.
          Takes-bind P _ id (read_int64 host b1) _ (read_int64_lem host b1 id _ v1 hi e1)
            λ b2 v2 e2.
              Takes-bind P _ (length name) (read_int32 host b2) _
                (read_int32_lem host b2 (length name) _ v2 hn e2)
                λ b3 v3 e3.
                  Takes-bind P _ name (read_string b3 (length name)) _
                    (read_string-Takes b3 name _ v3 e3)
                    λ b4 v4 e4.
                      Takes-bind P _ (length pass) (read_int32 host b4) _
                        (read_int32_lem host b4 (length pass) _ v4 hp e4)
                        λ b5 v5 e5.
                          Takes-bind P rest pass (read_string b5 (length pass)) _
                            (read_string-Takes b5 pass rest v5 e5) answer

    pub login-Replies :
        (b : Buffer) (len id uid : ℕ) (name pass rest : List ℕ)
        → IsValid b
        → len < 2 ^ 32
        → id < 2 ^ 64
        → length name < 2 ^ 32
        → length pass < 2 ^ 32
        → contents b ≡ login_bytes len id name pass rest
        → select_user name pass ≡ some uid
        → Replies rest (reply_bytes id uid) (login host junk select_user b)
    login-Replies b len id uid name pass rest v hl hi hn hp e s =
        login_reads (Replies rest (reply_bytes id uid)) b len id name pass rest v hl hi hn hp e
          λ c w o. let (reply, r, y, x) = reply-Holds id uid in (c, reply, rw (s, r), w, o, y, x)

    -- A lookup that faults makes the handler fault.
    pub login_faults :
        (b : Buffer) (len id : ℕ) (name pass rest : List ℕ)
        → IsValid b
        → len < 2 ^ 32
        → id < 2 ^ 64
        → length name < 2 ^ 32
        → length pass < 2 ^ 32
        → contents b ≡ login_bytes len id name pass rest
        → select_user name pass ≡ none
        → login host junk select_user b ≡ none
    login_faults b len id name pass rest v hl hi hn hp e s =
        login_reads (λ r. r ≡ none) b len id name pass rest v hl hi hn hp e λ c w o. rw s refl
