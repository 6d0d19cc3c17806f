-- ===== src/Acceptor/Watching.antt =====
-- When libevent waits for connections on behalf of an acceptor.
use tiny_game_server.Base.{
  suc, ◌≡◌, refl, sym, ap, ◌∙◌, [], Option, none, some, true, false, ◌>>=◌, arith,
}
use tiny_game_server.Watcher.{
  Watcher, Interest, idle, new_watcher, set_read_callback, ev_read, start, disable_all,
}
use tiny_game_server.Watcher.Registration.{
  EventLibrary, replay, Synced, start-Watches, disable_all-Watches,
}
use tiny_game_server.Acceptor.{
  Acceptor, Handler, handles_accept, released, accept, start_watcher, stop,
}

abbrev pub readable : Interest
readable = record { read = true; write = false }

abbrev callback : Option (Watcher Handler) → Option Handler
callback none = none
callback (some w) = w.read_cb

abbrev fresh_watcher : Watcher Handler
fresh_watcher = set_read_callback (new_watcher ev_read) handles_accept

-- An acceptor after its first `Accept`.
abbrev pub waiting : Acceptor → Acceptor
waiting a = record a { watcher = some fresh_watcher; pending = suc a.pending }

module _ (lib : EventLibrary) where
  -- The acceptor has a watcher in step with libevent, which waits for exactly these events, and which
  -- calls `HandleAccept` when there is something to read.
  abbrev pub WaitsFor : Interest → Acceptor → Type 0
  WaitsFor i a =
      (w : Watcher Handler) × (a.watcher ≡ some w)
      × (s : Synced lib w) × (lib.watched (replay lib s.calls) ≡ i)
      × (w.added ≡ true)
      × (w.read_cb ≡ some handles_accept)

  fresh-Synced : Synced lib fresh_watcher
  unfolding set_read_callback new_watcher
  fresh-Synced = record {
    calls = [];
    event_is = refl;
    when_added = λ e. cc;
    when_not = λ _. lib.watched-fresh;
  }

  fresh-starts :
      (w : Watcher Handler) × (start fresh_watcher ≡ some w)
      × (s : Synced lib w) × (lib.watched (replay lib s.calls) ≡ readable)
      × (w.added ≡ true)
      × (w.read_cb ≡ some handles_accept)
  unfolding set_read_callback new_watcher start
  fresh-starts =
      let (w, e, s, a, i) = start-Watches lib fresh_watcher readable fresh-Synced in
      (w, e, s, (s.when_added a).1 ∙ i, a, sym (ap callback e))

  pub waiting-WaitsFor :
      (a : Acceptor)
      → (b : Acceptor) × (start_watcher (waiting a) ≡ some b)
        × WaitsFor readable b
        × (b.pending ≡ a.pending)
        × (b.requests ≡ a.requests)
  unfolding start_watcher
  waiting-WaitsFor a =
      let (w, e, s, q, d, k) = fresh-starts in
      (
        record a { watcher = some w },
        rw e (ap (λ n. some (record a { watcher = some w; pending = n })) (omega arith)),
        (w, refl, s, q, d, k),
        refl,
        refl,
      )

  disable_all-stops :
      (w : Watcher Handler)
      → Synced lib w
      → w.added ≡ true
      → (c : Watcher Handler) × (disable_all w ≡ some c)
        × (s : Synced lib c) × (lib.watched (replay lib s.calls) ≡ idle)
        × (c.added ≡ true)
        × (c.read_cb ≡ w.read_cb)
  unfolding disable_all
  disable_all-stops w s a =
      let (c, e, t, k, i) = disable_all-Watches lib w s a in
      (c, e, t, (t.when_added k).1 ∙ i, k, sym (ap callback e) ∙ rw s.event_is refl)

  -- An acceptor that has no watcher yet gets one from `Accept`. Once the loop has run the functor, libevent
  -- waits for just the connections that can be accepted, and `HandleAccept` is what the watcher calls
  -- for them; after `Stop` libevent waits for nothing. Neither the functor nor `Stop` fails, and no
  -- functor is left over.
  pub accept-WaitsFor :
      (a : Acceptor)
      → a.watcher ≡ none
      → (b c : Acceptor) × ((accept a >>= start_watcher) ≡ some b)
        × WaitsFor readable b
        × (b.pending ≡ a.pending)
        × (stop b ≡ some c)
        × WaitsFor idle c
        × (c.pending ≡ a.pending)
  unfolding accept released start_watcher stop
  accept-WaitsFor a h =
      let (w, e, s, q, d, k) = fresh-starts in
      let (v, f, t, p, g, l) = disable_all-stops w s d in
      let b : Acceptor = record a { watcher = some w } in
      (
        b,
        record a { watcher = some v },
        rw (h, e) (ap (λ n. some (record a { watcher = some w; pending = n })) (omega arith)),
        (w, refl, s, q, d, k),
        refl,
        rw f refl,
        (v, refl, t, p, g, l ∙ k),
        refl,
      )
