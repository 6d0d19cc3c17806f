-- ===== src/Loop/Channel.antt =====
-- src/util/EventChannel.h and src/util/EventChannel.cpp: the event that wakes a loop up, on a socket pair.
use tiny_game_server.Base.{
  ℕ, ◌⊎◌, inl, inr, ◌≡◌, refl, List, [], ◌∷◌, ◌++◌, Option, none, some, Bool, true, false, ltb,
  if◌then◌else◌,
}
use tiny_game_server.Watcher.{Interest, Call, event_del, event_base_set, event_add, event_set}
use tiny_game_server.Watcher.Registration.{EventLibrary, replay, registered-watched}

pub record Channel (F : Type 0) : Type 0 where
  pub functor : Option F
  pub event : List Call  -- the calls of libevent on `event_`, latest first
  pub added : Bool
  pub fds : ℕ × ℕ
  pub closed : List ℕ  -- the sockets that were closed

abbrev pub reads : Interest
reads = record { read = true; write = false }

module _ {F : Type 0} where
  -- The constructor, with what `evutil_socketpair` makes.
  unfoldable pub new_channel : ℕ × ℕ → Channel F
  new_channel fds = record { functor = none; event = []; added = false; fds = fds; closed = [] }

  -- `event_assign` also sets the base.
  unfoldable pub init_event : Channel F → Channel F
  init_event c =
      let removed = if c.added then event_del ∷ c.event else c.event in
      record c { event = event_add ∷ event_base_set ∷ event_set reads ∷ removed; added = true }

  unfoldable pub set_async_task : Channel F → F → Channel F
  unfolding init_event
  set_async_task c f = init_event (record c { functor = some f })

  -- The destructor
  unfoldable pub destroy : Channel F → Channel F
  destroy c =
      if ltb 0 c.fds.0
      then record c { closed = c.closed ++ (c.fds.0 ∷ c.fds.1 ∷ []); fds = (0, 0) }
      else c

module _ (lib : EventLibrary) {F : Type 0} where
  -- The event of the channel waits for bytes, and the functor is the one that was set.
  abbrev pub Awaits : F → Channel F → Type 0
  Awaits f c =
      (c.functor ≡ some f)
      × (c.added ≡ true)
      × (lib.assigned (replay lib c.event) ≡ true)
      × (lib.watched (replay lib c.event) ≡ reads)

  -- A task that is set for the first time, or in place of another one, is what the channel waits to run.
  pub set_async_task-Awaits :
      (c : Channel F) (f g : F)
      → ((c.added ≡ false) × (c.event ≡ [])) ⊎ Awaits g c
      → Awaits f (set_async_task c f)
  unfolding set_async_task init_event
  set_async_task-Awaits c f g (inl (a, e)) =
      let (x, y) = registered-watched lib reads [] lib.watched-fresh in rw (a, e) (refl, refl, x, y)
  set_async_task-Awaits c f g (inr (_, a, d, w)) =
      let (x, y) =
        registered-watched lib reads (event_del ∷ c.event)
          (lib.watched-del (replay lib c.event) d) in
      rw a (refl, refl, x, y)
