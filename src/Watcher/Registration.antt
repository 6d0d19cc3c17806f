-- ===== src/Watcher/Registration.antt =====
-- What libevent waits for on behalf of a watcher. The library is an interface: an event has what it
-- was assigned, and is watched for that from `event_add` to `event_del`.
use tiny_game_server.Base.{
  ℕ, ◌≡◌, refl, ◌∙◌, List, [], ◌∷◌, Option, some, Bool, true, false, arith, Bool-cases, ◌⊎◌, inl,
  inr,
}
use tiny_game_server.Watcher.{
  Interest, idle, Call, event_del, event_base_set, event_add, event_set, Watcher, new_watcher,
  start, enable_read, enable_write, disable_read, disable_write, disable_all,
}

pub record EventLibrary : Type 1 where
  pub Event : Type 0
  pub fresh : Event
  pub assign : Interest → Event → Event
  pub base_set : Event → Event
  pub add : Event → Event
  pub del : Event → Event
  pub assigned : Event → Bool
  pub flags : Event → Interest
  pub watched : Event → Interest
  pub watched-fresh : watched fresh ≡ idle
  -- `event_assign` is for events that are not pending.
  pub watched-assign : (i : Interest) (e : Event) → watched e ≡ idle → watched (assign i e) ≡ idle
  pub flags-assign : (i : Interest) (e : Event) → watched e ≡ idle → flags (assign i e) ≡ i
  pub assigned-assign : (i : Interest) (e : Event) → watched e ≡ idle → assigned (assign i e) ≡ true
  pub flags-base_set : (e : Event) → flags (base_set e) ≡ flags e
  pub assigned-base_set : (e : Event) → assigned (base_set e) ≡ assigned e
  pub watched-add : (e : Event) → assigned e ≡ true → watched (add e) ≡ flags e
  pub assigned-add : (e : Event) → assigned (add e) ≡ assigned e
  pub watched-del : (e : Event) → assigned e ≡ true → watched (del e) ≡ idle
  pub assigned-del : (e : Event) → assigned (del e) ≡ assigned e

module _ (lib : EventLibrary) where
  open lib use {
    Event, fresh, assign, base_set, add, del, assigned, flags, watched, watched-fresh,
    watched-assign, flags-assign, assigned-assign, flags-base_set, assigned-base_set, watched-add,
    assigned-add, watched-del, assigned-del,
  }

  -- An event after the calls that it saw.
  abbrev pub replay : List Call → Event
  replay [] = fresh
  replay (event_del ∷ cs) = del (replay cs)
  replay (event_base_set ∷ cs) = base_set (replay cs)
  replay (event_add ∷ cs) = add (replay cs)
  replay (event_set i ∷ cs) = assign i (replay cs)

  abbrev pub registered : Interest → List Call → List Call
  registered i cs = event_add ∷ event_base_set ∷ event_set i ∷ cs

  registered-assigned :
      (i : Interest) (cs : List Call)
      → watched (replay cs) ≡ idle
      → assigned (base_set (assign i (replay cs))) ≡ true
  registered-assigned i cs h =
      assigned-base_set (assign i (replay cs)) ∙ assigned-assign i (replay cs) h

  pub registered-watched :
      (i : Interest) (cs : List Call)
      → watched (replay cs) ≡ idle
      → (assigned (replay (registered i cs)) ≡ true) × (watched (replay (registered i cs)) ≡ i)
  registered-watched i cs h = (
    assigned-add (base_set (assign i (replay cs))) ∙ registered-assigned i cs h,
    watched-add (base_set (assign i (replay cs))) (registered-assigned i cs h)
        ∙ flags-base_set (assign i (replay cs))
        ∙ flags-assign i (replay cs) h,
  )

  module _ {C : Type 0} where
    -- The watcher has an event, and libevent waits on it for what the watcher says.
    pub record Synced (w : Watcher C) : Type 0 where
      pub calls : List Call
      pub event_is : w.event ≡ some calls
      pub when_added :
          w.added ≡ true → (assigned (replay calls) ≡ true) × (watched (replay calls) ≡ w.ev_type)
      pub when_not : w.added ≡ false → watched (replay calls) ≡ idle

    -- The result of an operation is a watcher in step with libevent, with the mask `i`.
    abbrev pub Watches : Interest → Option (Watcher C) → Type 0
    Watches i r = (c : Watcher C) × (r ≡ some c) × Synced c × (c.added ≡ true) × (c.ev_type ≡ i)

    registers :
        (w : Watcher C) (i : Interest) (cs : List Call)
        → watched (replay cs) ≡ idle
        → Synced (record w { ev_type = i; added = true; event = some (registered i cs) })
    registers w i cs h = record {
      calls = registered i cs;
      event_is = refl;
      when_added = λ _. registered-watched i cs h;
      when_not = λ e. cc;
    }

    -- `Start` makes libevent wait for the present mask, whether or not it waited before.
    pub start-Watches :
        (w : Watcher C) (i : Interest) → Synced w → Watches i (start (record w { ev_type = i }))
    unfolding start
    start-Watches w i s = elim (Bool-cases w.added) [
      | inl e ↦ (
        record w { ev_type = i; added = true; event = some (registered i (event_del ∷ s.calls)) },
        rw (e, s.event_is, start),
        registers w i (event_del ∷ s.calls) (watched-del (replay s.calls) (s.when_added e).0),
        refl,
        refl,
      )
      | inr e ↦ (
        record w { ev_type = i; added = true; event = some (registered i s.calls) },
        rw (e, s.event_is, start),
        registers w i s.calls (s.when_not e),
        refl,
        refl,
      )
    ]

    -- An event that is enabled or disabled is or is not waited for, and the other is as before.
    pub enable_write-Watches :
        (w : Watcher C)
        → Synced w
        → w.added ≡ true
        → Watches (record (w.ev_type) { write = true }) (enable_write w)
    unfolding enable_write
    enable_write-Watches w s a = elim (Bool-cases w.ev_type.write) [
      | inl e ↦ (w, rw e, s, a, ground arith)
      | inr e ↦ rw e (start-Watches w (record (w.ev_type) { write = true }) s)
    ]

    pub enable_read-Watches :
        (w : Watcher C)
        → Synced w
        → (w.added ≡ true) ⊎ (w.ev_type.read ≡ false)
        → Watches (record (w.ev_type) { read = true }) (enable_read w)
    unfolding enable_read
    enable_read-Watches w s a = elim (Bool-cases w.ev_type.read) [
      | inl e ↦ (w, rw e, s, ground arith, ground arith)
      | inr e ↦ rw e (start-Watches w (record (w.ev_type) { read = true }) s)
    ]

    pub disable_write-Watches :
        (w : Watcher C)
        → Synced w
        → w.added ≡ true
        → Watches (record (w.ev_type) { write = false }) (disable_write w)
    unfolding disable_write
    disable_write-Watches w s a = elim (Bool-cases w.ev_type.write) [
      | inl e ↦ rw e (start-Watches w (record (w.ev_type) { write = false }) s)
      | inr e ↦ (w, rw e, s, a, ground arith)
    ]

    pub disable_read-Watches :
        (w : Watcher C)
        → Synced w
        → w.added ≡ true
        → Watches (record (w.ev_type) { read = false }) (disable_read w)
    unfolding disable_read
    disable_read-Watches w s a = elim (Bool-cases w.ev_type.read) [
      | inl e ↦ rw e (start-Watches w (record (w.ev_type) { read = false }) s)
      | inr e ↦ (w, rw e, s, a, ground arith)
    ]

    -- `DisableAllEvent` leaves `added_` set.
    pub disable_all-Watches :
        (w : Watcher C) → Synced w → w.added ≡ true → Watches idle (disable_all w)
    unfolding disable_all
    disable_all-Watches w s a = (
      record w { ev_type = idle; event = some (event_del ∷ s.calls) },
      rw s.event_is,
      record {
        calls = event_del ∷ s.calls;
        event_is = refl;
        when_added = λ _. (
          assigned-del (replay s.calls) ∙ (s.when_added a).0,
          watched-del (replay s.calls) (s.when_added a).0,
        );
        when_not = λ e. cc;
      },
      a,
      refl,
    )

    pub new_watcher-Synced : (mask : ℕ) → Synced (new_watcher mask)
    unfolding new_watcher
    new_watcher-Synced mask = record {
      calls = [];
      event_is = refl;
      when_added = λ e. cc;
      when_not = λ _. watched-fresh;
    }
