-- ===== src/DataServer/Capacity.antt =====
-- The callback of the data server reads from its buffer in place: the array keeps its size.
use tiny_game_server.Base.{
  ℕ, ◌-◌, ◌≡◌, refl, ◌∙◌, List, Option, some, ◌==◌, leb, if◌then◌else◌, ◌>>=◌, arith, Allows,
  bind-Allows, bind-Allows_of, if-Allows, load_at,
}
use tiny_game_server.Bytes.{Host}
use tiny_game_server.Buffer.{
  Buffer, get_length, forward, peek_tag_len, read_bytes, read_int8, read_int32, read_int64,
  read_string,
}
use tiny_game_server.DataServer.{
  BufferStatus, Handled, no_user, failure_reply, success_reply, login, other_tag, dispatch, message,
}

abbrev KeepsSize : {A : Type 0} → Buffer → A × Buffer → Type 0
KeepsSize b r = r.1.capacity ≡ b.capacity

forward_size : (b : Buffer) (n : ℕ) → (forward b n).capacity ≡ b.capacity
unfolding forward
forward_size b n = ground arith

abbrev pub KeepsArray : Buffer → BufferStatus × Buffer × List Buffer → Type 0
KeepsArray b r = r.1.capacity ≡ b.capacity

read_bytes-KeepsSize : (b : Buffer) (w : ℕ) → Allows (KeepsSize b) (read_bytes b w)
unfolding read_bytes
read_bytes-KeepsSize b w = bind-Allows (KeepsSize b) (load_at b.memory b.read_index w) _ (λ x. refl)

-- What is made of the bytes does not matter.
reads-KeepsSize :
    {A : Type 0} (b : Buffer) (w : ℕ) (f : List ℕ → A)
    → Allows (KeepsSize b) (read_bytes b w >>= (λ (bytes, rest). some (f bytes, rest)))
reads-KeepsSize b w f =
    bind-Allows_of (KeepsSize b) (KeepsSize b) (read_bytes b w) _ (read_bytes-KeepsSize b w)
      (λ r k. k)

module _ (host : Host) (junk : ℕ → ℕ → ℕ) (select_user : List ℕ → List ℕ → Option ℕ) where
  -- A read from a buffer of the same size, and what follows.
  then_reads :
      {A : Type 0} (b c : Buffer) (o : Option (A × Buffer)) (f : A × Buffer → Handled)
      → c.capacity ≡ b.capacity
      → Allows (KeepsSize c) o
      → ((a : A) (d : Buffer) → d.capacity ≡ b.capacity → Allows (KeepsArray b) (f (a, d)))
      → Allows (KeepsArray b) (o >>= f)
  then_reads b c o f e h g =
      bind-Allows_of (KeepsSize c) (KeepsArray b) o f h (λ (a, d) k. g a d (k ∙ e))

  int32-KeepsSize : (b : Buffer) → Allows (KeepsSize b) (read_int32 host b)
  unfolding read_int32
  int32-KeepsSize b = reads-KeepsSize b 4 _

  int64-KeepsSize : (b : Buffer) → Allows (KeepsSize b) (read_int64 host b)
  unfolding read_int64
  int64-KeepsSize b = reads-KeepsSize b 8 _

  string-KeepsSize : (b : Buffer) (n : ℕ) → Allows (KeepsSize b) (read_string b n)
  unfolding read_string
  string-KeepsSize b n = read_bytes-KeepsSize b _

  login-KeepsArray :
      (b c : Buffer)
      → c.capacity ≡ b.capacity
      → Allows (KeepsArray b) (login host junk select_user c)
  unfolding login
  login-KeepsArray b c e = then_reads b c (read_int32 host c) _ e (int32-KeepsSize c) λ len b1 e1.
      then_reads b b1 (read_int64 host b1) _ e1 (int64-KeepsSize b1) λ id b2 e2.
        then_reads b b2 (read_int32 host b2) _ e2 (int32-KeepsSize b2) λ n b3 e3.
          then_reads b b3 (read_string b3 n) _ e3 (string-KeepsSize b3 n) λ name b4 e4.
            then_reads b b4 (read_int32 host b4) _ e4 (int32-KeepsSize b4) λ m b5 e5.
              then_reads b b5 (read_string b5 m) _ e5 (string-KeepsSize b5 m) λ pass b6 e6.
                bind-Allows (KeepsArray b) (select_user name pass) _ (λ uid.
                  bind-Allows (KeepsArray b)
                    (if uid == no_user
                      then failure_reply host junk id
                      else success_reply host junk id uid)
                    _ (λ reply. e6))

  other_tag-KeepsArray :
      (b c : Buffer)
      → c.capacity ≡ b.capacity
      → Allows (KeepsArray b) (other_tag host junk select_user c)
  unfolding other_tag
  other_tag-KeepsArray b c e =
      then_reads b c (read_int32 host c) _ e (int32-KeepsSize c)
        λ len b1 e1. forward_size b1 len ∙ e1

  int8-KeepsSize : (b : Buffer) → Allows (KeepsSize b) (read_int8 b)
  unfolding read_int8
  int8-KeepsSize b = reads-KeepsSize b 1 _

  pub message-KeepsArray : (b : Buffer) → Allows (KeepsArray b) (message host junk select_user b)
  unfolding message dispatch
  message-KeepsArray b =
      if-Allows (KeepsArray b) (leb 13 (get_length b)) _ _
        (bind-Allows (KeepsArray b) (peek_tag_len host b) _ (λ (tag, len).
          if-Allows (KeepsArray b) (leb len (get_length b - 1)) _ _
            (then_reads b b (read_int8 b) _ refl (int8-KeepsSize b) λ t c e.
              if-Allows (KeepsArray b) (t == b'l') _ _ (login-KeepsArray b c e)
                (other_tag-KeepsArray b c e))
            refl))
        refl
