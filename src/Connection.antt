-- ===== src/Connection.antt =====
-- src/network/IConnection.h, src/network/TCPConnection.h and src/network/TCPConnection.cpp.
-- What the kernel answers to `readv` and `write` is an argument of the handlers. The callbacks are
-- functions on the connection. `none` is undefined behaviour: an access outside an array, or to a
-- connection that was destroyed; or the exception of an empty `std::function`.
pub mod Output
pub mod Keeps
pub mod Reopened
pub mod Session
pub mod Delivery
pub mod Spin
use tiny_game_server.Base.{
  ℕ, zero, suc, ◌+◌, ◌-◌, ◌^◌, List, [], ◌∷◌, ◌++◌, Option, none, some, Bool, true, false, not,
  ◌&&◌, ◌==◌, ltb, if◌then◌else◌, ◌>>=◌, take, length,
}
use tiny_game_server.Buffer.{
  Buffer, new_buffer, initial_size, get_length, get_data, forward, append_buffer, read_fd,
}
use tiny_game_server.Watcher
use tiny_game_server.Watcher.{
  Watcher, Interest, new_watcher, set_read_callback, set_write_callback, is_writing, enable_read,
  enable_write, disable_write, disable_all,
}

pub data ConnStatus : Type 0 where
  disconnected connecting connected : ConnStatus

-- The two lambdas that the constructor gives to the watcher.
pub data Handler : Type 0 where
  handles_read handles_write : Handler

pub record Connection : Type 0 where
  pub status : ConnStatus
  pub addr : List ℕ
  pub serial_id : ℕ
  pub user_id : ℕ
  pub authorized : Bool
  pub recv_buffer : Buffer
  pub send_buffer : Buffer
  pub watcher : Watcher Handler
  pub sent : List ℕ  -- what the kernel took from `write`, in order
  pub owners : ℕ  -- the shared pointers to the connection

-- The accessors of `IConnection`.
abbrev pub get_status : Connection → ConnStatus
get_status c = c.status

abbrev pub get_addr : Connection → List ℕ
get_addr c = c.addr

abbrev pub get_serial_id : Connection → ℕ
get_serial_id c = c.serial_id

abbrev pub get_user_id : Connection → ℕ
get_user_id c = c.user_id

abbrev pub set_user_id : Connection → ℕ → Connection
set_user_id c user_id = record c { user_id = user_id }

abbrev pub is_authorized : Connection → Bool
is_authorized c = c.authorized

abbrev pub set_authorized : Connection → Bool → Connection
set_authorized c authorized = record c { authorized = authorized }

abbrev pub get_buffer : Connection → Buffer
get_buffer c = c.recv_buffer

-- -1 as an `int64_t`
abbrev pub minus_one : ℕ
minus_one = 2 ^ 64 - 1

-- The constructor, in `make_shared`.
unfoldable pub new_connection : (ℕ → ℕ → ℕ) → List ℕ → ℕ → Connection
unfolding new_watcher set_read_callback set_write_callback
new_connection junk addr id = record {
  status = connected;
  addr = addr;
  serial_id = id;
  user_id = minus_one;
  authorized = false;
  recv_buffer = new_buffer junk initial_size;
  send_buffer = new_buffer junk initial_size;
  watcher = set_write_callback (set_read_callback (new_watcher 0) handles_read) handles_write;
  sent = [];
  owners = 1;
}

-- The destructor, and that of the watcher after it.
unfoldable pub destroy : Connection → Option Connection
unfolding Watcher.destroy
destroy c = do w ← Watcher.destroy c.watcher; some (record c { status = disconnected; watcher = w })

-- `std::function<int(ConnSPtr)>`
abbrev pub Callback : Type 0
Callback = Option (Connection → Option Connection)

-- A call of a `std::function`, which throws if it is empty.
abbrev pub invoke : Callback → Connection → Option Connection
invoke none c = none
invoke (some f) c = f c

unfoldable pub start : Callback → Connection → Option Connection
start conn_cb c = do
  w ← enable_read c.watcher
  let d = record c { watcher = w }
  elim conn_cb [ none ↦ some d | some f ↦ f d ]

-- The callback may give up the last owner; the temporary pointer goes with the call, and the status
-- of a connection that nobody owns is written to freed memory.
unfoldable pub handle_close : Callback → Connection → Option Connection
handle_close close_cb c = do
  w ← disable_all c.watcher
  d ← invoke close_cb (record c { watcher = w })
  if d.owners == 0 then none else some (record d { status = disconnected })

-- `arrived` is what `ReadFd` finds: an error, the end of the stream, or bytes.
unfoldable pub handle_read : Callback → Callback → Connection → Option (List ℕ) → Option Connection
handle_read read_cb close_cb c none = do
  b ← read_fd c.recv_buffer none
  some (record c { recv_buffer = b })
handle_read read_cb close_cb c (some []) = do
  b ← read_fd c.recv_buffer (some [])
  handle_close close_cb (record c { recv_buffer = b })
handle_read read_cb close_cb c (some (x ∷ xs)) = do
  b ← read_fd c.recv_buffer (some (x ∷ xs))
  invoke read_cb (record c { recv_buffer = b })

-- The kernel took the first `n` of the bytes that it was offered.
abbrev pub took : List ℕ → ℕ → Connection → Connection
took offered n c = record c { sent = c.sent ++ take n offered }

unfoldable pub handle_write : Connection → Option ℕ → Option Connection
handle_write c none = some c
handle_write c (some zero) = some c
handle_write c (some (suc n)) = do
  offered ← get_data c.send_buffer (get_length c.send_buffer)
  let left = forward c.send_buffer (suc n)
  let d = took offered (suc n) (record c { send_buffer = left })
  if get_length left == 0
      then disable_write d.watcher >>= (λ w. some (record d { watcher = w }))
      else some d

-- The loop calls `HandleWrite` only while the watcher waits for write events.
unfoldable pub write_event : Connection → Option ℕ → Option Connection
write_event c answer = if is_writing c.watcher then handle_write c answer else some c

-- The first part of `SendInLoop`: the attempt to write at once, and what remains.
unfoldable pub attempt : Connection → Buffer → Option ℕ → Option (Connection × Buffer × ℕ)
attempt c buf none = some (c, buf, get_length buf)
attempt c buf (some n) = do
  offered ← get_data buf (get_length buf)
  some (took offered n c, forward buf n, get_length buf - n)

unfoldable pub send_in_loop : Connection → Buffer → Option ℕ → Option Connection
send_in_loop c buf answer = do
  (d, rest, remaining) ←
      (if not (is_writing c.watcher) && (get_length c.send_buffer == 0)
        then attempt c buf answer
        else some (c, buf, get_length buf))
  kept ← if ltb 0 remaining then append_buffer d.send_buffer rest else some d.send_buffer
  w ← if not (is_writing d.watcher) then enable_write d.watcher else some d.watcher
  some (record d { send_buffer = kept; watcher = w })

-- The functors that `Send` and `Close` give to the event loop. That of `Close` owns the connection.
pub data Task : Type 0 where
  sends : Buffer → Task
  closes : Task

abbrev pub is_connected : ConnStatus → Bool
is_connected connected = true
is_connected _ = false

unfoldable pub send : Connection → Buffer → List Task
send c buf = if is_connected c.status then sends buf ∷ [] else []

unfoldable pub close : Connection → Connection × List Task
close c = (record c { owners = suc c.owners }, closes ∷ [])

-- A functor, when the loop calls it.
unfoldable pub run_task : Callback → Connection → Task → Option ℕ → Option Connection
run_task close_cb c (sends buf) answer = send_in_loop c buf answer
run_task close_cb c closes answer = handle_close close_cb c

-- A functor that is destroyed, which is when all functors that the loop took with it have run.
unfoldable pub retire : Task → Connection → Connection
retire (sends buf) c = c
retire closes c = record c { owners = c.owners - 1 }
