-- ===== src/Loop/Lifecycle.antt =====
-- `Init` and `Run` of an event loop. The loop of libevent is a parameter: what it leaves of
-- the state when it returns.
use tiny_game_server.Base.{ℕ, List, Option, some, Bool, true, if◌then◌else◌, ◌>>=◌}
use tiny_game_server.Loop.{running, stopped, Loop, stop}
use tiny_game_server.Loop.Channel.{Channel, new_channel, set_async_task}

-- The one functor of a loop's channel: `ProcessPendingFunctors`.
pub data Functor : Type 0 where
  processes : Functor

-- `Init`, with the sockets that `evutil_socketpair` makes.
unfoldable pub init : ℕ × ℕ → Channel Functor
unfolding new_channel set_async_task
init fds = set_async_task (new_channel fds) processes

-- EVLOOP_NO_EXIT_ON_EMPTY
abbrev pub no_exit_on_empty : ℕ
no_exit_on_empty = 4

module _ {T W : Type 0} (event_loop : ℕ → Loop T W → Loop T W) where
  -- `Run`
  unfoldable pub run : Bool → Loop T W → Loop T W
  run exit_on_empty l =
      let flag = if exit_on_empty then 0 else no_exit_on_empty in
      record (event_loop flag (record l { status = running })) { status = stopped }

module _ {T W : Type 0} (exec : T → W → W × List T) where
  -- The destructor, with what becomes of the base, which is freed.
  unfoldable pub destroy : ℕ → Loop T W → Option (Loop T W × Bool)
  unfolding stop
  destroy fuel l = stop exec fuel l >>= (λ d. some (d, true))
