-- ===== src/Tests/Serving.antt =====
-- A login that a client sends in two pieces, with the loop at work between them.
use tiny_game_server.Base.{
  ℕ, ◌+◌, ◌*◌, ◌^◌, ◌≤◌, ◌≡◌, refl, List, [], ◌∷◌, ◌++◌, Option, none, some, true, false, arith,
  length,
}
use tiny_game_server.Bytes.{little, store, hton, htonll, load}
use tiny_game_server.Buffer.{Buffer, initial_size}
use tiny_game_server.Serial.{generate}
use tiny_game_server.Table.{find}
use tiny_game_server.Loop.{initial}
use tiny_game_server.Workers.{pick_event_loop}
use tiny_game_server.Server.{Server, handle_new_conn, start_connection}
use tiny_game_server.DataServer.Serve.Accepted.{begins, client-Flushed}
use tiny_game_server.Buffer.Invariant.{IsValid}
use tiny_game_server.Watcher.{Interest, event_add}
use tiny_game_server.Connection.{Connection, connected, handles_read, handles_write}
use tiny_game_server.Connection.Session.{Session, stream}
use tiny_game_server.DataServer.Serve.{Input, arrives, turns_loop, opens_socket, take_inputs}
use tiny_game_server.DataServer.Serve.State.{Serving, Serves}
use tiny_game_server.DataServer.Serve.Frame.{Login, IsCounted, frame, answer}
use tiny_game_server.DataServer.Serve.Pieces.{IsLogin}
use tiny_game_server.DataServer.Serve.Flush.{flush}
use tiny_game_server.DataServer.Serve.Writes.{Flushed}
use tiny_game_server.DataServer.Serve.Logins.{
  Conversation, AreLogins, inputs, answers, demand, logins-Serves, pipelined-Serves,
}

abbrev pub zeros : ℕ → ℕ → ℕ
zeros n i = 0

-- A database in which every user is number 3.
abbrev pub users : List ℕ → List ℕ → Option ℕ
users name pass = some 3

abbrev blank : List ℕ
blank = 0 ∷ 0 ∷ 0 ∷ 0 ∷ 0 ∷ 0 ∷ 0 ∷ 0 ∷ 0 ∷ 0 ∷ 0 ∷ 0 ∷ []

-- Room for 48 bytes, all free.
abbrev free_buffer : Buffer
free_buffer = record {
  memory = blank ++ (blank ++ (blank ++ blank));
  capacity = 48;
  read_index = 0;
  write_index = 0;
  junk = zeros;
}

free_buffer-IsValid : IsValid free_buffer
free_buffer-IsValid = record {
  sized = refl;
  ordered = omega arith;
  inside = omega arith;
  narrow = omega arith;
}

abbrev reading : Interest
reading = record { read = true; write = false }

abbrev quiet : Connection
quiet = record {
  status = connected;
  addr = [];
  serial_id = 1;
  user_id = 0;
  authorized = false;
  recv_buffer = free_buffer;
  send_buffer = free_buffer;
  watcher = record {
    ev_type = reading;
    event = some (event_add ∷ []);
    added = true;
    read_cb = some handles_read;
    write_cb = some handles_write;
  };
  sent = [];
  owners = 1;
}

abbrev session : Session
session = record { conn = quiet; pending = [] }

-- The user a with the password b, by a client that counts in the order of the host.
abbrev pub login_a : Login
login_a = record { len = 22 * 2 ^ 24; id = 7; uid = 3; name = b'a' ∷ []; pass = b'b' ∷ [] }

abbrev schedule : List Input
schedule =
    arrives b'l' (22 ∷ 0 ∷ 0 ∷ 0 ∷ 0 ∷ 0 ∷ [])
    ∷ turns_loop none
    ∷ arrives 0 (0 ∷ 0 ∷ 0 ∷ 0 ∷ 7 ∷ 0 ∷ 0 ∷ 0 ∷ 1 ∷ b'a' ∷ 0 ∷ 0 ∷ 0 ∷ 1 ∷ b'b' ∷ [])
    ∷ turns_loop (some 9)
    ∷ opens_socket (some 4)
    ∷ []

abbrev talk : Conversation
talk = (login_a, schedule) ∷ []

login_a-IsCounted : IsCounted little zeros login_a
unfolding hton load store htonll
login_a-IsCounted = omega arith

pub login_a-IsLogin_of : (cap : ℕ) → 23 ≤ cap → IsLogin little zeros users cap login_a
unfolding hton load store htonll
login_a-IsLogin_of cap h = record {
  len_fits = omega arith;
  id_fits = omega arith;
  name_fits = omega arith;
  pass_fits = omega arith;
  counted = login_a-IsCounted;
  known = refl;
  fits = omega arith;
}

login_a-IsLogin : IsLogin little zeros users 48 login_a
login_a-IsLogin = login_a-IsLogin_of 48 (omega arith)

talk-AreLogins : AreLogins little zeros users 48 talk
unfolding hton load store htonll
talk-AreLogins = (login_a-IsLogin, refl, tt)

session-Serving : Serving 48 (demand talk) session []
session-Serving = record {
  ready = record {
    sound = record {
      valid = free_buffer-IsValid;
      small = omega arith;
      event = (event_add ∷ [], refl);
    };
    tasks = tt;
    room = omega arith;
  };
  room = omega arith;
  recv = free_buffer-IsValid;
  recv_size = refl;
  is_open = refl;
  holds = refl;
}

logins-Serves_test :
    Serves 48 0 []
      (stream session ++ answers little zeros users 48 talk)
      (take_inputs little zeros users session (inputs talk))
logins-Serves_test =
    logins-Serves little zeros users 48 (omega arith) talk session talk-AreLogins session-Serving

-- The same login twice, in one read event.
abbrev rest_of_both : List ℕ
rest_of_both =
    22
    ∷ 0
    ∷ 0
    ∷ 0
    ∷ 0
    ∷ 0
    ∷ 0
    ∷ 0
    ∷ 0
    ∷ 0
    ∷ 0
    ∷ 7
    ∷ 0
    ∷ 0
    ∷ 0
    ∷ 1
    ∷ b'a'
    ∷ 0
    ∷ 0
    ∷ 0
    ∷ 1
    ∷ b'b'
    ∷ frame little zeros login_a

both-frames : b'l' ∷ rest_of_both ≡ frame little zeros login_a ++ frame little zeros login_a
unfolding store htonll hton load
both-frames = refl

both-fit : length (frame little zeros login_a ++ frame little zeros login_a) ≤ 48
unfolding store htonll hton load
both-fit = omega arith

pipelined-Serves_example :
    Serves 48 0 (frame little zeros login_a) (stream session ++ answer little zeros login_a) (
      take_inputs little zeros users session
        (arrives b'l' rest_of_both ∷ turns_loop none ∷ opens_socket (some 4) ∷ []))
pipelined-Serves_example =
    pipelined-Serves little zeros users 48 (omega arith) login_a 0 session b'l' rest_of_both
      (frame little zeros login_a) (turns_loop none ∷ opens_socket (some 4) ∷ []) login_a-IsLogin
      session-Serving both-frames both-fit refl

abbrev pub seconds : ℕ → ℕ
seconds t = 20210301000000 + t

-- A server without workers.
abbrev server : Server
server = record {
  manager = record { loop = 0; threads = []; status = initial };
  counter = 0;
  serial = record { current_time = 10; serial = 0 };
  connections = [];
  posted = [];
}

server-picks : pick_event_loop server.manager server.counter ≡ some (0, 0)
unfolding pick_event_loop
server-picks = refl

talk-AreLogins_fresh : AreLogins little zeros users initial_size talk
unfolding hton load store htonll
talk-AreLogins_fresh = (login_a-IsLogin_of initial_size (omega arith), refl, tt)

client-Flushed_example :
    let id : ℕ = (generate seconds 10 server.serial).0 in
    (u v : Server) × (c : Connection) × (k n : ℕ) × (handle_new_conn seconds zeros 10 [] server
      ≡ some u)
    × (u.posted ≡ [] ++ ((0, id) ∷ []))
    × (start_connection none id u ≡ some v)
    × (find id v.connections ≡ some (some c))
    × Flushed (answers little zeros users initial_size talk) (
        take_inputs little zeros users (begins c) (inputs talk ++ flush k (λ j. some 4) n (λ j. 2)))
client-Flushed_example =
    client-Flushed little zeros users seconds 10 [] server 0 0 talk (λ j. some 4) (λ j. 2)
      server-picks talk-AreLogins_fresh (omega arith)
