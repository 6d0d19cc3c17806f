-- ===== src/DataServer/Serve/Logins.antt =====
-- Logins that come one after another, each in pieces of any size.
use tiny_game_server.Base.{
  ℕ, ◌+◌, ◌*◌, ◌^◌, ◌≤◌, ◌<◌, ◌≡◌, refl, sym, ap, ◌∙◌, List, [], ◌∷◌, ◌++◌, Option, none, some,
  arith, length, ◌>>=◌, append-nil, append_assoc, eq-nil_of_length, dec_le,
}
use tiny_game_server.Bytes.{Host}
use tiny_game_server.Connection.Session.{Session, stream}
use tiny_game_server.Server.{close_callback}
use tiny_game_server.DataServer.Serve.{
  Input, starts, arrives, turns_loop, opens_socket, take_input, take_inputs,
}
use tiny_game_server.DataServer.Serve.State.{
  Serving, Serves, loop_turn-Serves, write_event-Serves, start-Serves,
}
use tiny_game_server.DataServer.Serve.Frame.{Login, frame, answer}
use tiny_game_server.DataServer.Serve.Pieces.{
  arrived, IsLogin, arrives-Serves_part, arrives-Serves_last,
}

-- An input, and then the others.
pub Serves-bind :
    (cap need need' : ℕ) (seen seen' out out' : List ℕ) (r : Option Session)
    (f : Session → Option Session)
    → Serves cap need seen out r
    → ((t : Session) → Serving cap need t seen → stream t ≡ out → Serves cap need' seen' out' (f t))
    → Serves cap need' seen' out' (r >>= f)
Serves-bind cap need need' seen seen' out out' r f (t, e, v, o) k = rw e (k t v o)

-- A step more in front of two sequences.
pub binds_on :
    (r : Option Session) (f g h : Session → Option Session)
    → ((t : Session) → f t ≡ (g t >>= h))
    → (r >>= f) ≡ ((r >>= g) >>= h)
binds_on none f g h k = refl
binds_on (some t) f g h k = k t

-- The stream, by another name.
pub Serves-stream :
    (cap need : ℕ) (seen out out' : List ℕ) (r : Option Session)
    → out ≡ out'
    → Serves cap need seen out r
    → Serves cap need seen out' r
Serves-stream cap need seen out out' r p (t, e, v, o) = (t, e, v, o ∙ p)

-- Logins, each with what happens while it arrives.
abbrev pub Conversation : Type 0
Conversation = List (Login × List Input)

abbrev pub inputs : Conversation → List Input
inputs [] = []
inputs ((l, is) ∷ rest) = is ++ inputs rest

-- The room that the replies may take.
abbrev pub demand : Conversation → ℕ
demand [] = 0
demand (x ∷ rest) = 21 + demand rest

module _ (host : Host) (junk : ℕ → ℕ → ℕ) (select_user : List ℕ → List ℕ → Option ℕ) (cap : ℕ) where
  -- Every login is one, and the bytes that arrive are its bytes.
  abbrev pub AreLogins : Conversation → Type 0
  AreLogins [] = Unit
  AreLogins ((l, is) ∷ rest) =
      IsLogin host junk select_user cap l × (arrived is ≡ frame host junk l) × AreLogins rest

  abbrev pub answers : Conversation → List ℕ
  answers [] = []
  answers ((l, is) ∷ rest) = answer host junk l ++ answers rest

  pub take_inputs-append :
      (s : Session) (is js : List Input)
      → take_inputs host junk select_user s (is ++ js)
        ≡ (take_inputs host junk select_user s is >>= (λ t. take_inputs host junk select_user t js))
  unfolding take_inputs
  take_inputs-append s [] js = refl
  take_inputs-append s (i ∷ is) js =
      binds_on (take_input host junk select_user s i) _ _ _ (λ t. take_inputs-append t is js)

  -- Where no bytes arrive the stream stays.
  pub quiet-Serves :
      (need : ℕ) (s : Session) (seen : List ℕ) (is : List Input)
      → Serving cap need s seen
      → arrived is ≡ []
      → Serves cap need seen (stream s) (take_inputs host junk select_user s is)
  unfolding take_inputs take_input
  quiet-Serves need s seen [] v e = (s, refl, v, refl)
  quiet-Serves need s seen (arrives x xs ∷ is) v e = absurd (omega (arith, ap length e))
  quiet-Serves need s seen (starts ∷ is) v e =
      Serves-bind cap need need seen seen (stream s) (stream s) _ _
        (start-Serves (close_callback none) cap need seen s v)
        λ t w o. Serves-stream cap need seen _ _ _ o (quiet-Serves need t seen is w e)
  quiet-Serves need s seen (turns_loop a ∷ is) v e =
      Serves-bind cap need need seen seen (stream s) (stream s) _ _
        (loop_turn-Serves (close_callback none) cap need seen s a v)
        λ t w o. Serves-stream cap need seen _ _ _ o (quiet-Serves need t seen is w e)
  quiet-Serves need s seen (opens_socket a ∷ is) v e =
      Serves-bind cap need need seen seen (stream s) (stream s) _ _
        (write_event-Serves (close_callback none) cap need seen s a v)
        λ t w o. Serves-stream cap need seen _ _ _ o (quiet-Serves need t seen is w e)

  module _ (small : cap * 4 < 2 ^ 32) where
    -- The rest of a login arrives.
    login-Serves :
        (l : Login)
        → IsLogin host junk select_user cap l
        → (need : ℕ) (s : Session) (seen : List ℕ) (is : List Input)
        → Serving cap (21 + need) s seen
        → seen ++ arrived is ≡ frame host junk l
        → 0 < length (arrived is)
        → Serves cap need []
            (stream s ++ answer host junk l)
            (take_inputs host junk select_user s is)
    unfolding take_inputs take_input
    login-Serves l h need s seen [] v e m = absurd (omega (arith, m))
    login-Serves l h need s seen (arrives x xs ∷ is) v e m = elim (dec_le 1 (length (arrived is))) [
      | yes more ↦
          Serves-bind cap (21 + need) need (seen ++ (x ∷ xs)) [] (stream s) _ _ _
            (arrives-Serves_part host junk select_user cap small l h (21 + need) s seen x xs
              (arrived is) v e' more)
            λ t w o.
              Serves-stream cap need [] _ _ _ (ap (λ z. z ++ answer host junk l) o)
                (login-Serves l h need t (seen ++ (x ∷ xs)) is w e' more)
      | no done ↦
          Serves-bind cap need need [] [] (stream s ++ answer host junk l) _ _ _
            (arrives-Serves_last host junk select_user cap small l h need s seen x xs [] v
              (sym (append-nil (seen ++ (x ∷ xs)))
                ∙ ap (◌++◌ (seen ++ (x ∷ xs))) (sym (none_left done))
                ∙ e'
                ∙ sym (append-nil (frame host junk l)))
              (omega (arith, ap length (append-nil (frame host junk l)), h.fits)))
            λ t w o.
              Serves-stream cap need [] _ _ _ o (quiet-Serves need t [] is w (none_left done))
    ]
      where
        e' : (seen ++ (x ∷ xs)) ++ arrived is ≡ frame host junk l
        e' = append_assoc seen (x ∷ xs) (arrived is) ∙ e

        none_left : (1 ≤ length (arrived is) → ⊥) → arrived is ≡ []
        none_left d = eq-nil_of_length (arrived is) (omega arith)
    login-Serves l h need s seen (starts ∷ is) v e m =
        Serves-bind cap (21 + need) need seen [] (stream s) _ _ _
          (start-Serves (close_callback none) cap (21 + need) seen s v)
          λ t w o.
            Serves-stream cap need [] _ _ _ (ap (λ z. z ++ answer host junk l) o)
              (login-Serves l h need t seen is w e m)
    login-Serves l h need s seen (turns_loop a ∷ is) v e m =
        Serves-bind cap (21 + need) need seen [] (stream s) _ _ _
          (loop_turn-Serves (close_callback none) cap (21 + need) seen s a v)
          λ t w o.
            Serves-stream cap need [] _ _ _ (ap (λ z. z ++ answer host junk l) o)
              (login-Serves l h need t seen is w e m)
    login-Serves l h need s seen (opens_socket a ∷ is) v e m =
        Serves-bind cap (21 + need) need seen [] (stream s) _ _ _
          (write_event-Serves (close_callback none) cap (21 + need) seen s a v)
          λ t w o.
            Serves-stream cap need [] _ _ _ (ap (λ z. z ++ answer host junk l) o)
              (login-Serves l h need t seen is w e m)

    -- A started connection of the data server whose watcher, buffers and functors are in order, and
    -- whose receive buffer is of less than 1 GiB and holds nothing, takes whole logins one after
    -- another, however the bytes of each are cut into read events, and however the loop's functors
    -- and the write events come between them, with any answers of the kernel. If the next login
    -- begins in a read event of its own, the numbers and lengths of each login fit their types, its
    -- length, as the host reads it, counts what follows the tag, the database answers, a login fits
    -- into the receive buffer and the replies into what is free of the send buffer, then nothing
    -- faults, nothing is left in the receive buffer, and what is sent, or waits to be, is what it
    -- was before followed by the answers to the logins in their order.
    pub logins-Serves :
        (c : Conversation) (s : Session)
        → AreLogins c
        → Serving cap (demand c) s []
        → Serves cap 0 [] (stream s ++ answers c) (take_inputs host junk select_user s (inputs c))
    unfolding take_inputs
    logins-Serves [] s h v = (s, refl, v, sym (append-nil (stream s)))
    logins-Serves ((l, is) ∷ rest) s (h, e, k) v = rw (take_inputs-append s is (inputs rest)) (
        Serves-bind cap (demand rest) 0 [] [] (stream s ++ answer host junk l) _ _ _
          (login-Serves l h (demand rest) s [] is v e (omega (arith, ap length e)))
          λ t w o.
            Serves-stream cap 0 [] _ _ _
              (ap (λ z. z ++ answers rest) o
                ∙ append_assoc (stream s) (answer host junk l) (answers rest))
              (logins-Serves rest t k w))

    -- On a started connection of the data server whose watcher, buffers and functors are in order,
    -- with an empty receive buffer of less than 1 GiB and room for a reply, a login and further
    -- bytes that come in one read event, with no bytes after them, have this effect: the login is
    -- answered, and the further bytes stay in the receive buffer without an answer, a whole message
    -- among them or not, whatever the loop runs and the kernel writes. The numbers and lengths of
    -- the login fit their types, its length, as the host reads it, counts what follows the tag, the
    -- database answers, and all the bytes fit into the receive buffer.
    pub pipelined-Serves :
        (l : Login) (need : ℕ) (s : Session) (x : ℕ) (xs rest : List ℕ) (is : List Input)
        → IsLogin host junk select_user cap l
        → Serving cap (21 + need) s []
        → x ∷ xs ≡ frame host junk l ++ rest
        → length (frame host junk l ++ rest) ≤ cap
        → arrived is ≡ []
        → Serves cap need rest
            (stream s ++ answer host junk l)
            (take_inputs host junk select_user s (arrives x xs ∷ is))
    unfolding take_inputs
    pipelined-Serves l need s x xs rest is h v e m q =
        Serves-bind cap need need rest rest (stream s ++ answer host junk l) _ _ _
          (arrives-Serves_last host junk select_user cap small l h need s [] x xs rest v e m)
          λ t w o. Serves-stream cap need rest _ _ _ o (quiet-Serves need t rest is w q)
