-- ===== src/Tests/Connections.antt =====
-- A connection with small buffers.
use tiny_game_server.Base.{
  ℕ, ◌≡◌, refl, List, [], ◌∷◌, ◌++◌, none, some, true, false, arith, ◌⊎◌, ◌≤◌, ◌<◌, ◌+◌, load_at,
  ◌>>=◌,
}
use tiny_game_server.Buffer.{Buffer, get_length, get_data, forward}
use tiny_game_server.Buffer.Invariant.{IsValid, contents}
use tiny_game_server.Watcher.{Interest, idle, event_add, event_set, event_base_set, is_writing}
use tiny_game_server.Watcher.Registration.{Synced, replay}
use tiny_game_server.Connection.Reopened.{writing, sends-closes}
use tiny_game_server.Tests.Watchers.{kept_library}
use tiny_game_server.Connection.{
  Connection, connected, disconnected, handles_read, handles_write, handle_write, send_in_loop,
  handle_read, run_task, retire, close, closes, sends,
}
use tiny_game_server.Connection.Output.{IsSound, output, Outputs, handle_write-Outputs}
use tiny_game_server.Connection.Output.Send.{send_in_loop-Outputs}
use tiny_game_server.Connection.Session.{
  Session, Event, gives, turns, writable, run, IsReady, Admitted, Delivers, stream, given_all,
}
use tiny_game_server.Connection.Delivery.{run-Delivers}
use tiny_game_server.Connection.Spin.{write_events, send_in_loop-write_events}
use tiny_game_server.Server.{close_callback}
use tiny_game_server.Server.Owners.{handle_read_end, close-disconnects}

abbrev zeros : ℕ → ℕ → ℕ
zeros n i = 0

-- Eight bytes, all free.
abbrev free_buffer : Buffer
free_buffer = record {
  memory = 0 ∷ 0 ∷ 0 ∷ 0 ∷ 0 ∷ 0 ∷ 0 ∷ 0 ∷ [];
  capacity = 8;
  read_index = 0;
  write_index = 0;
  junk = zeros;
}

-- The bytes 5, 6 and 7.
abbrev three_bytes : Buffer
three_bytes = record {
  memory = 5 ∷ 6 ∷ 7 ∷ 0 ∷ [];
  capacity = 4;
  read_index = 0;
  write_index = 3;
  junk = zeros;
}

free_buffer-IsValid : IsValid free_buffer
free_buffer-IsValid = record {
  sized = refl;
  ordered = omega arith;
  inside = omega arith;
  narrow = omega arith;
}

three_bytes-IsValid : IsValid three_bytes
three_bytes-IsValid = record {
  sized = refl;
  ordered = omega arith;
  inside = omega arith;
  narrow = omega arith;
}

abbrev reading : Interest
reading = record { read = true; write = false }

-- A started connection with nothing to send.
abbrev quiet : Connection
quiet = record {
  status = connected;
  addr = [];
  serial_id = 1;
  user_id = 0;
  authorized = false;
  recv_buffer = free_buffer;
  send_buffer = free_buffer;
  watcher = record {
    ev_type = reading;
    event = some (event_add ∷ []);
    added = true;
    read_cb = some handles_read;
    write_cb = some handles_write;
  };
  sent = [];
  owners = 1;
}

quiet-IsSound : IsSound quiet
quiet-IsSound = record {
  valid = free_buffer-IsValid;
  small = omega arith;
  event = (event_add ∷ [], refl);
}

-- Two of the three bytes go out at once.
send_in_loop-Outputs_example :
    Outputs quiet (5 ∷ 6 ∷ 7 ∷ []) (send_in_loop quiet three_bytes (some 2))
send_in_loop-Outputs_example =
    send_in_loop-Outputs quiet three_bytes (some 2) quiet-IsSound three_bytes-IsValid (omega arith)

-- With three bytes to send.
abbrev loud : Connection
loud = record quiet { send_buffer = three_bytes }

loud-IsSound : IsSound loud
loud-IsSound = record {
  valid = three_bytes-IsValid;
  small = omega arith;
  event = (event_add ∷ [], refl);
}

handle_write-Outputs_test : Outputs loud (5 ∷ 6 ∷ 7 ∷ []) (handle_write loud (some 2))
handle_write-Outputs_test = handle_write-Outputs loud (some 2) loud-IsSound

handle_write_test :
    handle_write loud (some 2)
    ≡ some (record loud { send_buffer = record three_bytes { read_index = 2 }; sent = 5 ∷ 6 ∷ [] })
unfolding handle_write get_data get_length forward load_at
handle_write_test = refl

send_in_loop-write_events_example :
    (d : Connection) × ((send_in_loop quiet three_bytes (some 3)
        >>= write_events (none ∷ some 0 ∷ []))
      ≡ some d)
    × (is_writing d.watcher ≡ true)
    × (contents d.send_buffer ≡ [])
    × (d.sent ≡ 5 ∷ 6 ∷ 7 ∷ [])
send_in_loop-write_events_example =
    send_in_loop-write_events quiet three_bytes (none ∷ some 0 ∷ []) quiet-IsSound
      three_bytes-IsValid refl refl (tt, (omega arith, tt))

abbrev session : Session
session = record { conn = quiet; pending = [] }

session-IsReady : IsReady session
session-IsReady = record { sound = quiet-IsSound; tasks = tt; room = omega arith }

abbrev schedule : List Event
schedule = gives three_bytes ∷ turns (some 1) ∷ writable (some 2) ∷ []

schedule-Admitted : Admitted none session schedule
schedule-Admitted = ((three_bytes-IsValid, omega arith), λ t e. (tt, λ u f. (tt, λ w g. tt)))

run-Delivers_example :
    Delivers (stream session ++ given_all none session schedule) (run none session schedule)
run-Delivers_example = run-Delivers none schedule session session-IsReady schedule-Admitted

handle_read_end_example :
    ((quiet.owners ≤ 1) × (handle_read none (close_callback none) quiet (some []) ≡ none))
    ⊎ ((2 ≤ quiet.owners)
        × (d : Connection) × (handle_read none (close_callback none) quiet (some []) ≡ some d)
        × (d.status ≡ disconnected)
        × (d.owners + 1 ≡ quiet.owners))
handle_read_end_example =
    handle_read_end none none quiet tt (event_add ∷ [], refl) free_buffer-IsValid (omega arith)

close-disconnects_test :
    (d : Connection) × (run_task (close_callback none) (close quiet).0 closes none ≡ some d)
    × (d.status ≡ disconnected)
    × (d.owners ≡ 1)
    × ((retire closes d).owners ≡ 0)
close-disconnects_test = close-disconnects none quiet none tt (event_add ∷ [], refl) refl

-- The table owns the connection, and its watcher is in step with libevent.
abbrev shared : Connection
shared = record quiet {
  watcher = record (quiet.watcher) {
    event = some (event_add ∷ event_base_set ∷ event_set reading ∷ []);
  };
  owners = 1;
}

shared-IsSound : IsSound shared
shared-IsSound = record {
  valid = free_buffer-IsValid;
  small = omega arith;
  event = (event_add ∷ event_base_set ∷ event_set reading ∷ [], refl);
}

shared-Synced : Synced kept_library shared.watcher
shared-Synced = record {
  calls = event_add ∷ event_base_set ∷ event_set reading ∷ [];
  event_is = refl;
  when_added = λ h. (refl, refl);
  when_not = λ h. absurd (cc);
}

sends-closes_example :
    (d e : Connection) × (run_task (close_callback none) (close shared).0 closes none ≡ some d)
    × (d.status ≡ disconnected)
    × (0 < d.owners)
    × (run_task (close_callback none) d (sends three_bytes) (some 1) ≡ some e)
    × (e.status ≡ disconnected)
    × (output e ≡ output shared ++ contents three_bytes)
    × (s : Synced kept_library e.watcher) × (kept_library.watched (replay kept_library s.calls)
        ≡ writing idle)
sends-closes_example =
    sends-closes kept_library shared three_bytes none (some 1) shared-IsSound three_bytes-IsValid
      (omega arith) shared-Synced refl (omega arith)
