-- ===== src/Watcher.antt =====
-- src/util/FdWatcher.h and src/util/FdWatcher.cpp. The calls of libevent on the watcher's event are
-- logged, latest first; what they do is an interface (Watcher/Registration). `none` is a call on a
-- null event.
pub mod Registration
pub mod Operations
use tiny_game_server.Base.{
  ℕ, List, [], ◌∷◌, ◌++◌, Option, none, some, Bool, true, false, not, ◌==◌, if◌then◌else◌, ◌>>=◌,
  bit_and,
}

-- The events to wait for, a mask of EV_READ and EV_WRITE.
pub record Interest : Type 0 where
  pub read : Bool
  pub write : Bool

abbrev pub idle : Interest
idle = record { read = false; write = false }

abbrev pub ev_read : ℕ
ev_read = 2

abbrev pub ev_write : ℕ
ev_write = 4

-- EV_PERSIST is a part of each `event_set`.
pub data Call : Type 0 where
  event_del event_base_set event_add : Call
  event_set : Interest → Call

pub record Watcher (C : Type 0) : Type 0 where
  pub ev_type : Interest
  pub event : Option (List Call)  -- the pointer `event_`, to an event that saw these calls
  pub added : Bool
  pub read_cb : Option C
  pub write_cb : Option C

module _ {C : Type 0} where
  -- `FdWatcher(loop, fd, ev_type)`
  unfoldable pub new_watcher : ℕ → Watcher C
  new_watcher mask = record {
    ev_type = record {
      read = not (bit_and mask ev_read == 0);
      write = not (bit_and mask ev_write == 0);
    };
    event = some [];
    added = false;
    read_cb = none;
    write_cb = none;
  }

  unfoldable pub set_read_callback : Watcher C → C → Watcher C
  set_read_callback w cb = record w { read_cb = some cb }

  unfoldable pub set_write_callback : Watcher C → C → Watcher C
  set_write_callback w cb = record w { write_cb = some cb }

  -- A call of libevent on `event_`.
  abbrev pub call : Call → Watcher C → Option (Watcher C)
  call c w = elim w.event [ none ↦ none | some cs ↦ some (record w { event = some (c ∷ cs) }) ]

  unfoldable pub start : Watcher C → Option (Watcher C)
  start w = do
    removed ← if w.added then call event_del w else some w
    assigned ← call (event_set w.ev_type) removed
    based ← call event_base_set assigned
    watching ← call event_add based
    some (record watching { added = true })

  abbrev pub is_reading : Watcher C → Bool
  is_reading w = w.ev_type.read

  abbrev pub is_writing : Watcher C → Bool
  is_writing w = w.ev_type.write

  unfoldable pub enable_read : Watcher C → Option (Watcher C)
  unfolding start
  enable_read w =
      if is_reading w
      then some w
      else start (record w { ev_type = record (w.ev_type) { read = true } })

  unfoldable pub enable_write : Watcher C → Option (Watcher C)
  unfolding start
  enable_write w =
      if is_writing w
      then some w
      else start (record w { ev_type = record (w.ev_type) { write = true } })

  unfoldable pub disable_read : Watcher C → Option (Watcher C)
  unfolding start
  disable_read w =
      if is_reading w
      then start (record w { ev_type = record (w.ev_type) { read = false } })
      else some w

  unfoldable pub disable_write : Watcher C → Option (Watcher C)
  unfolding start
  disable_write w =
      if is_writing w
      then start (record w { ev_type = record (w.ev_type) { write = false } })
      else some w

  unfoldable pub disable_all : Watcher C → Option (Watcher C)
  disable_all w = call event_del (record w { ev_type = idle })

  -- The destructor, up to the release of the memory.
  unfoldable pub destroy : Watcher C → Option (Watcher C)
  destroy w = if w.added then call event_del w else some w

  -- `FdWatcher(const FdWatcher&)`
  unfoldable pub copy : Watcher C → Watcher C
  copy f = record f { event = some []; added = false }

  -- `FdWatcher(FdWatcher&&)`: the new watcher, and what is left of the old one.
  unfoldable pub move : Watcher C → Watcher C × Watcher C
  move f = (f, record f { event = none })

  -- A callback is taken over where there is one.
  abbrev taken_over : Option C → Option C → Option C
  taken_over none old = old
  taken_over (some cb) old = some cb

  -- `operator=(const FdWatcher&)`: the old event is lost.
  unfoldable pub copy_assign : Watcher C → Watcher C → Watcher C
  copy_assign w f = record f {
    event = some [];
    added = false;
    read_cb = taken_over f.read_cb w.read_cb;
    write_cb = taken_over f.write_cb w.write_cb;
  }

  -- `operator=(FdWatcher&&)`: the watcher, and what is left of the other one.
  unfoldable pub move_assign : Watcher C → Watcher C → Watcher C × Watcher C
  move_assign w f = (
    record f {
      read_cb = taken_over f.read_cb w.read_cb;
      write_cb = taken_over f.write_cb w.write_cb;
    },
    record f { event = none },
  )

  abbrev ready : Bool → Option C → List C
  ready true (some cb) = cb ∷ []
  ready _ _ = []

  -- `Handle`: the callbacks that it runs, in order.
  unfoldable pub handle : Watcher C → Interest → List C
  handle w which = ready which.read w.read_cb ++ ready which.write w.write_cb
