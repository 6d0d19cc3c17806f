-- ===== src/Tests/Watchers.antt =====
-- A watcher of libevent's documented behaviour, kept by a record.
use tiny_game_server.Base.{◌≡◌, refl, List, [], ◌∷◌, none, some, Bool, true, false}
use tiny_game_server.Watcher.{
  Interest, idle, Call, event_base_set, event_add, event_set, Watcher, destroy, move, enable_read,
  handle,
}
use tiny_game_server.Watcher.Registration.{EventLibrary, replay, Synced}
use tiny_game_server.Watcher.Operations.{
  enables_write, disables_read, run, asked_all, run-watched, destroy-move,
}

pub record Kept : Type 0 where
  pub assigned : Bool
  pub flags : Interest
  pub watched : Interest

abbrev pub kept_library : EventLibrary
kept_library = record {
  Event = Kept;
  fresh = record { assigned = false; flags = idle; watched = idle };
  assign = λ i e. record e { assigned = true; flags = i };
  base_set = λ e. e;
  add = λ e. record e { watched = e.flags };
  del = λ e. record e { watched = idle };
  assigned = λ e. e.assigned;
  flags = λ e. e.flags;
  watched = λ e. e.watched;
  watched-fresh = refl;
  watched-assign = λ i e h. h;
  flags-assign = λ i e h. refl;
  assigned-assign = λ i e h. refl;
  flags-base_set = λ e. refl;
  assigned-base_set = λ e. refl;
  watched-add = λ e h. refl;
  assigned-add = λ e. refl;
  watched-del = λ e h. refl;
  assigned-del = λ e. refl;
}

-- A watcher that waits for bytes to read; its callbacks are numbers here.
abbrev reading : Interest
reading = record { read = true; write = false }

abbrev reader : Watcher Bool
reader = record {
  ev_type = reading;
  event = some (event_add ∷ event_base_set ∷ event_set reading ∷ []);
  added = true;
  read_cb = some true;
  write_cb = some false;
}

abbrev reader_calls : List Call
reader_calls = event_add ∷ event_base_set ∷ event_set reading ∷ []

reader-Synced : Synced kept_library reader
reader-Synced = record {
  calls = reader_calls;
  event_is = refl;
  when_added = λ h. (refl, refl);
  when_not = λ h. absurd (cc h);
}

run-watched_example :
    (c : Watcher Bool) × (run (enables_write ∷ disables_read ∷ []) reader ≡ some c)
    × (s : Synced kept_library c) × (kept_library.watched (replay kept_library s.calls)
        ≡ asked_all (enables_write ∷ disables_read ∷ []) reading)
run-watched_example =
    run-watched kept_library (enables_write ∷ disables_read ∷ []) reader reader-Synced refl

destroy-move_test : destroy (move reader).1 ≡ none
destroy-move_test = destroy-move reader refl

handle_test : handle reader (record { read = true; write = true }) ≡ true ∷ false ∷ []
unfolding handle
handle_test = refl

enable_read_test : enable_read reader ≡ some reader
unfolding enable_read
enable_read_test = refl
