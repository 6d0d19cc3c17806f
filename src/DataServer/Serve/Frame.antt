-- ===== src/DataServer/Serve/Frame.antt =====
-- Logins as their clients send them, and the callback on the first part of one.
use tiny_game_server.Base.{
  ◌==◌, ℕ, suc, ◌+◌, ◌-◌, ◌≤◌, ◌<◌, ◌≡◌, refl, sym, ap, ◌∙◌, List, [], ◌∷◌, ◌++◌, Option, some,
  arith, length, take, dec_le, length-append, append_assoc, append-nil, take-append, take_all,
  take-append_left, Bool-cases, inl, inr,
}
use tiny_game_server.Bytes.{Host, big, store, hton, htonll}
use tiny_game_server.Bytes.Order.{length-store}
use tiny_game_server.Buffer.{Buffer}
use tiny_game_server.Buffer.Invariant.{IsValid, size, contents, get_length_lem, length-contents}
use tiny_game_server.Buffer.Frames.{peek_tag_len_lem}
use tiny_game_server.DataServer.{read_incomplete, no_user, message}
use tiny_game_server.DataServer.Message.{le→leb, lt→leb}
use tiny_game_server.DataServer.Login.{login_bytes, reply_bytes}

pub record Login : Type 0 where
  pub len : ℕ
  pub id : ℕ
  pub uid : ℕ
  pub name : List ℕ
  pub pass : List ℕ

module _ (host : Host) (junk : ℕ → ℕ → ℕ) where
  -- What follows the length.
  abbrev pub body : Login → List ℕ
  body l =
      store host 8 (htonll host l.id)
      ++ (store big 4 (length l.name)
          ++ (l.name ++ (store big 4 (length l.pass) ++ (l.pass ++ []))))

  abbrev pub frame : Login → List ℕ
  frame l = b'l' ∷ login_bytes host junk l.len l.id l.name l.pass []

  pub frame-append :
      (l : Login) (rest : List ℕ)
      → frame l ++ rest ≡ b'l' ∷ login_bytes host junk l.len l.id l.name l.pass rest
  frame-append l rest = ap (◌∷◌ b'l') (
      append_assoc (store big 4 l.len) (body l) rest
      ∙ ap (◌++◌ (store big 4 l.len)) (
          append_assoc (store host 8 (htonll host l.id)) _ rest
          ∙ ap (◌++◌ (store host 8 (htonll host l.id))) (
              append_assoc (store big 4 (length l.name)) _ rest
              ∙ ap (◌++◌ (store big 4 (length l.name))) (
                  append_assoc l.name _ rest
                  ∙ ap (◌++◌ l.name) (
                      append_assoc (store big 4 (length l.pass)) (l.pass ++ []) rest
                      ∙ ap (λ t. store big 4 (length l.pass) ++ (t ++ rest))
                          (append-nil l.pass))))))

  abbrev pub answer : Login → List ℕ
  answer l = reply_bytes host junk l.id l.uid

  pub length-answer : (l : Login) → length (answer l) ≤ 21
  length-answer l = elim (Bool-cases (l.uid == no_user)) [
    | inl e ↦ rw e (omega (arith, failed))
    | inr e ↦ rw e (omega (arith, found))
  ]
    where
      failed : length (store big 4 12 ++ store host 8 (htonll host l.id)) ≡ 12
      failed = omega (
        arith,
        length-append (store big 4 12) (store host 8 (htonll host l.id)),
        length-store big 4 12,
        length-store host 8 (htonll host l.id),
      )

      found :
          length (
            store big 4 20 ++ (store host 8 (htonll host l.id) ++ store host 8 (htonll host l.uid)))
          ≡ 20
      found = omega (
        arith,
        length-append (store big 4 20)
            (store host 8 (htonll host l.id) ++ store host 8 (htonll host l.uid)),
        length-append (store host 8 (htonll host l.id)) (store host 8 (htonll host l.uid)),
        length-store big 4 20,
        length-store host 8 (htonll host l.id),
        length-store host 8 (htonll host l.uid),
      )

  -- The length counts what follows the tag, as the host reads it.
  abbrev pub IsCounted : Login → Type 0
  IsCounted l = hton host 4 l.len + 1 ≡ length (frame l)

  -- The first bytes of a login, if there are five, show its tag and length.
  front :
      (l : Login) (p q : List ℕ) (k : ℕ)
      → p ++ q ≡ frame l
      → length p ≡ 5 + k
      → p ≡ b'l' ∷ (store big 4 l.len ++ take k (body l))
  front l p q k e h =
      sym (take_all (length p) p (omega arith))
      ∙ sym (take-append_left (length p) p q (omega arith))
      ∙ ap (take (length p)) e
      ∙ ap (λ n. take n (frame l)) h'
      ∙ ap (◌∷◌ b'l') (
          take-append (4 + k) k (store big 4 l.len) (body l)
            (omega (arith, length-store big 4 l.len)))
    where
      h' : length p ≡ suc (4 + k)
      h' = omega arith

  -- A part of a login is left in the buffer.
  pub message_incomplete :
      (select_user : List ℕ → List ℕ → Option ℕ) (b : Buffer) (l : Login) (p q : List ℕ)
      → IsValid b
      → contents b ≡ p
      → p ++ q ≡ frame l
      → 0 < length q
      → IsCounted l
      → message host junk select_user b ≡ some (read_incomplete, b, [])
  unfolding message
  message_incomplete select_user b l p q v o e h c = elim (dec_le 13 (size b)) [
    | yes long ↦
        rw
          (
            get_length_lem b v,
            le→leb 13 (size b) long,
            peek_tag_len_lem host b b'l' l.len (take (size b - 5) (body l)) v
                (o ∙ front l p q (size b - 5) e (omega (arith, sizes))),
            lt→leb (hton host 4 l.len) (size b - 1) (omega (arith, sizes, whole, c)),
          )
          refl
    | no short ↦ rw (get_length_lem b v, lt→leb 13 (size b) (omega arith)) refl
  ]
    where
      sizes : length p ≡ size b
      sizes = omega (arith, length-contents b v, ap length o)

      whole : length p + length q ≡ length (frame l)
      whole = sym (length-append p q) ∙ ap length e
