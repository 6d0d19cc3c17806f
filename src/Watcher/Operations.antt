-- ===== src/Watcher/Operations.antt =====
-- Sequences of operations on a watcher.
use tiny_game_server.Base.{
  ◌≡◌, refl, ap, ◌∙◌, List, [], ◌∷◌, Option, none, some, true, false, ◌>>=◌, arith, Bool-cases, inl,
  inr,
}
use tiny_game_server.Watcher.{
  Interest, idle, Call, event_del, event_base_set, event_add, event_set, Watcher, start,
  enable_read, enable_write, disable_read, disable_write, disable_all, destroy, move,
}
use tiny_game_server.Watcher.Registration.{
  EventLibrary, replay, Synced, Watches, enable_read-Watches, enable_write-Watches,
  disable_read-Watches, disable_write-Watches, disable_all-Watches,
}

pub data Op : Type 0 where
  enables_read enables_write disables_read disables_write disables_all : Op

-- The set of events that an operation asks for.
abbrev pub asked : Op → Interest → Interest
asked enables_read i = record i { read = true }
asked enables_write i = record i { write = true }
asked disables_read i = record i { read = false }
asked disables_write i = record i { write = false }
asked disables_all i = idle

abbrev pub asked_all : List Op → Interest → Interest
asked_all [] i = i
asked_all (o ∷ os) i = asked_all os (asked o i)

module _ {C : Type 0} where
  pub apply : Op → Watcher C → Option (Watcher C)
  apply enables_read w = enable_read w
  apply enables_write w = enable_write w
  apply disables_read w = disable_read w
  apply disables_write w = disable_write w
  apply disables_all w = disable_all w

  pub run : List Op → Watcher C → Option (Watcher C)
  run [] w = some w
  run (o ∷ os) w = apply o w >>= run os

module _ (lib : EventLibrary) {C : Type 0} where
  apply-Watches :
      (o : Op) (w : Watcher C)
      → Synced lib w
      → w.added ≡ true
      → Watches lib (asked o w.ev_type) (apply o w)
  unfolding apply
  apply-Watches enables_read w s a = enable_read-Watches lib w s (inl a)
  apply-Watches enables_write w s a = enable_write-Watches lib w s a
  apply-Watches disables_read w s a = disable_read-Watches lib w s a
  apply-Watches disables_write w s a = disable_write-Watches lib w s a
  apply-Watches disables_all w s a = disable_all-Watches lib w s a

  -- From a watcher that was added and is in step with libevent, a sequence of the five operations
  -- that enable and disable events does not fail, and after it libevent waits for exactly the
  -- events that the operations ask for, in order.
  pub run-watched :
      (os : List Op) (w : Watcher C)
      → Synced lib w
      → w.added ≡ true
      → (c : Watcher C) × (run os w ≡ some c)
        × (s : Synced lib c) × (lib.watched (replay lib s.calls) ≡ asked_all os w.ev_type)
  unfolding run
  run-watched [] w s a = (w, refl, s, (s.when_added a).1)
  run-watched (o ∷ os) w s a =
      let (d, e, s', a', i) = apply-Watches o w s a in
      let (c, r, t, x) = run-watched os d s' a' in (c, rw e r, t, x ∙ ap (asked_all os) i)

-- A watcher that was added and then moved from gives a null event to libevent when it is destroyed.
pub destroy-move : {C : Type 0} (w : Watcher C) → w.added ≡ true → destroy (move w).1 ≡ none
unfolding destroy move
destroy-move w a = rw a

-- A watcher with an event.
abbrev pub HasEvent : {C : Type 0} → Watcher C → Type 0
HasEvent w = (cs : List Call) × (w.event ≡ some cs)

-- The result of an operation has an event and the mask `i`.
abbrev pub Leaves : {C : Type 0} → Interest → Option (Watcher C) → Type 0
Leaves {C} i r = (c : Watcher C) × (r ≡ some c) × HasEvent c × (c.ev_type ≡ i)

module _ {C : Type 0} (w : Watcher C) (h : HasEvent w) where
  start-Leaves : (i : Interest) → Leaves i (start (record w { ev_type = i }))
  unfolding start
  start-Leaves i = elim (Bool-cases w.added) [
    | inl e ↦
        let cs : List Call = event_add ∷ event_base_set ∷ event_set i ∷ event_del ∷ h.0 in
        (
          record w { ev_type = i; added = true; event = some cs },
          rw (e, h.1, start),
          (cs, refl),
          refl,
        )
    | inr e ↦
        let cs : List Call = event_add ∷ event_base_set ∷ event_set i ∷ h.0 in
        (
          record w { ev_type = i; added = true; event = some cs },
          rw (e, h.1, start),
          (cs, refl),
          refl,
        )
  ]

  pub enable_read-Leaves : Leaves (record (w.ev_type) { read = true }) (enable_read w)
  unfolding enable_read
  enable_read-Leaves = elim (Bool-cases w.ev_type.read) [
    | inl e ↦ (w, rw e, h, ground arith)
    | inr e ↦ rw e (start-Leaves (record (w.ev_type) { read = true }))
  ]

  pub enable_write-Leaves : Leaves (record (w.ev_type) { write = true }) (enable_write w)
  unfolding enable_write
  enable_write-Leaves = elim (Bool-cases w.ev_type.write) [
    | inl e ↦ (w, rw e, h, ground arith)
    | inr e ↦ rw e (start-Leaves (record (w.ev_type) { write = true }))
  ]

  pub disable_write-Leaves : Leaves (record (w.ev_type) { write = false }) (disable_write w)
  unfolding disable_write
  disable_write-Leaves = elim (Bool-cases w.ev_type.write) [
    | inl e ↦ rw e (start-Leaves (record (w.ev_type) { write = false }))
    | inr e ↦ (w, rw e, h, ground arith)
  ]
