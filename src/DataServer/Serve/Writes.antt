-- ===== src/DataServer/Serve/Writes.antt =====
-- Write events of a connection of the data server, in each of which the kernel takes something.
use tiny_game_server.Base.{
  ℕ, zero, suc, ◌-◌, ◌≤◌, subst, length-append, ◌≡◌, refl, sym, ap, ◌∙◌, List, [], ◌∷◌, ◌++◌,
  Option, none, some, ◌>>=◌, arith, take, ◌==◌, Allows, bind-Allows, if-Allows, Allows-some,
  append-nil, length, inl, inr, Bool-cases, ==_iff,
}
use mathlib.Core.Option.{some-injective}
use tiny_game_server.Bytes.{Host}
use tiny_game_server.Buffer.{get_length, forward}
use tiny_game_server.Buffer.Read.{get_data_lem}
use tiny_game_server.Watcher.{disable_write, is_writing}
use tiny_game_server.Buffer.Invariant.{IsValid, size, contents, length-contents, get_length_lem}
use tiny_game_server.Connection.{Connection, handle_write, write_event}
use tiny_game_server.Connection.Output.{output, handle_write-Outputs}
use tiny_game_server.Connection.Session.{Session, queued, stream}
use tiny_game_server.Server.{close_callback}
use tiny_game_server.DataServer.Serve.{Input, opens_socket, take_input, take_inputs}
use tiny_game_server.DataServer.Serve.State.{Serving, write_event-Serves}
use tiny_game_server.Connection.Keeps.{write_event_on, write_event_off}
use tiny_game_server.DataServer.Serve.Watched.{IsWatched, write_event-IsWatched}

length-zero : (xs : List ℕ) → length xs ≡ 0 → xs ≡ []
length-zero [] h = refl
length-zero (x ∷ xs) h = absurd (omega arith)

-- Where there are bytes, it takes some of them.
length-take_some : (n : ℕ) (xs : List ℕ) → length xs - length (take (suc n) xs) ≤ length xs - 1
length-take_some n [] = omega arith
length-take_some n (x ∷ xs) = omega arith

-- What the kernel takes of the buffer.
handle_write-sent :
    (c : Connection) (n : ℕ)
    → IsValid c.send_buffer
    → Allows (λ d. d.sent ≡ c.sent ++ take n (contents c.send_buffer)) (handle_write c (some n))
unfolding handle_write
handle_write-sent c zero v = sym (append-nil c.sent)
handle_write-sent c (suc n) v =
    let P : Connection → Type 0 = λ d. d.sent ≡ c.sent ++ take (suc n) (contents c.send_buffer) in
    rw (get_data_lem c.send_buffer v) (
      if-Allows P (get_length (forward c.send_buffer (suc n)) == 0) _ _
        (bind-Allows P (disable_write c.watcher) _ (λ w. refl)) refl)

-- `m` write events, in each of which the kernel takes one byte or more, as far as there are so many.
abbrev pub sockets : ℕ → (ℕ → ℕ) → List Input
sockets zero takes = []
sockets (suc m) takes = opens_socket (some (suc (takes 0))) ∷ sockets m (λ i. takes (suc i))

-- The kernel took these bytes, and no functor is left.
abbrev pub Flushed : List ℕ → Option Session → Type 0
Flushed out r = (u : Session) × (r ≡ some u) × (u.conn.sent ≡ out) × (u.pending ≡ [])

module _ (host : Host) (junk : ℕ → ℕ → ℕ) (select_user : List ℕ → List ℕ → Option ℕ)
    (cap need : ℕ) where
  -- A connection that has nothing to send has sent all.
  empty-Flushed :
      (s : Session) (seen : List ℕ)
      → s.pending ≡ []
      → Serving cap need s seen
      → size s.conn.send_buffer ≡ 0
      → s.conn.sent ≡ stream s
  empty-Flushed s seen e v z =
      sym (append-nil s.conn.sent)
      ∙ ap (◌++◌ s.conn.sent) (sym (nothing))
      ∙ sym (append-nil (output s.conn))
      ∙ ap (λ t. output s.conn ++ queued t) (sym e)
    where
      nothing : contents s.conn.send_buffer ≡ []
      nothing =
          length-zero (contents s.conn.send_buffer)
            (omega (arith, z, length-contents s.conn.send_buffer v.ready.sound.valid))

  -- A write event leaves less, where there was something.
  handle_write-less :
      (s : Session) (seen : List ℕ) (n : ℕ) (d : Connection)
      → Serving cap need s seen
      → handle_write s.conn (some (suc n)) ≡ some d
      → IsValid d.send_buffer
      → output d ≡ output s.conn
      → size d.send_buffer ≤ size s.conn.send_buffer - 1
  handle_write-less s seen n d v r valid o =
      let b : List ℕ = contents s.conn.send_buffer in
      let taken =
        Allows-some (λ x. x.sent ≡ s.conn.sent ++ take (suc n) b) _ d
          (handle_write-sent s.conn (suc n) v.ready.sound.valid) r in
      omega (
        arith,
        ap length taken,
        ap length o,
        length-append s.conn.sent (take (suc n) b),
        length-append d.sent (contents d.send_buffer),
        length-append s.conn.sent b,
        length-take_some n b,
        length-contents s.conn.send_buffer v.ready.sound.valid,
        length-contents d.send_buffer valid,
      )

  -- A write event in which the kernel takes something.
  record Written (s : Session) (seen : List ℕ) (d : Connection) : Type 0 where
    serving : Serving cap need (record s { conn = d }) seen
    watched : IsWatched d
    less : size d.send_buffer ≤ size s.conn.send_buffer - 1
    same : output d ≡ output s.conn

  write_event-Written :
      (n : ℕ) (s : Session) (seen : List ℕ)
      → Serving cap need s seen
      → IsWatched s.conn
      → (d : Connection) × (write_event s.conn (some (suc n)) ≡ some d) × Written s seen d
  write_event-Written n s seen v h = elim (Bool-cases (is_writing s.conn.watcher)) [
    | inl on ↦
        let (d, r, sound, o, _, _) = handle_write-Outputs s.conn (some (suc n)) v.ready.sound in
        let w : write_event s.conn (some (suc n)) ≡ some d =
          write_event_on s.conn (some (suc n)) on ∙ r in
        let (t, q, serving, same) =
          write_event-Serves (close_callback none) cap need seen s (some (suc n)) v in
        let is_left : t ≡ record s { conn = d } =
          some-injective t (record s { conn = d })
            (sym q ∙ ap (λ x. x >>= (λ c. some (record s { conn = c }))) w) in
        (
          d,
          w,
          record {
            serving = subst (λ y. Serving cap need y seen) is_left serving;
            watched = Allows-some IsWatched _ d (write_event-IsWatched s.conn (some (suc n)) h) w;
            less = handle_write-less s seen n d v r sound.valid o;
            same = o;
          },
        )
    | inr off ↦ (
      s.conn,
      write_event_off s.conn (some (suc n)) off,
      record {
        serving = v;
        watched = h;
        less = omega (
          arith,
          get_length_lem s.conn.send_buffer v.ready.sound.valid,
          (==_iff (get_length s.conn.send_buffer) 0).0 (h v.is_open off),
        );
        same = refl;
      },
    )
  ]

  pub sockets-Flushed :
      (m : ℕ) (takes : ℕ → ℕ) (s : Session) (seen : List ℕ)
      → s.pending ≡ []
      → Serving cap need s seen
      → IsWatched s.conn
      → size s.conn.send_buffer ≤ m
      → Flushed (stream s) (take_inputs host junk select_user s (sockets m takes))
  unfolding take_inputs take_input
  sockets-Flushed zero takes s seen e v h small =
      (s, refl, empty-Flushed s seen e v (omega arith), e)
  sockets-Flushed (suc m) takes s seen e v h small =
      let (d, w, z) = write_event-Written (takes 0) s seen v h in
      let (x, p, g, k) =
        sockets-Flushed m (λ i. takes (suc i)) (record s { conn = d }) seen e z.serving z.watched
          (omega (arith, z.less)) in
      (
        x,
        ap
              (λ o.
                (o >>= (λ c. some (record s { conn = c })))
                >>= (λ t. take_inputs host junk select_user t (sockets m (λ i. takes (suc i)))))
              w
            ∙ p,
        g ∙ ap (λ l. l ++ queued s.pending) z.same,
        k,
      )
