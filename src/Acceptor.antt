-- ===== src/Acceptor.antt =====
-- src/network/IAcceptor.h, src/network/TCPAcceptor.h and src/network/TCPAcceptor.cpp: the socket that
-- listens. What the operating system is asked for is logged, in order; what `socket` and `accept`
-- return are arguments, and `evutil_inet_ntop` is a parameter. `none` is undefined behaviour.
pub mod Listen
pub mod Watching
use tiny_game_server.Base.{ℕ, suc, ◌-◌, ◌%◌, ◌^◌, List, [], ◌∷◌, ◌++◌, Option, none, some, ◌>>=◌}
use tiny_game_server.Bytes.{Host, store, hton}
use tiny_game_server.Sockets.{
  SocketAddress, af_inet, inaddr_any, port_bytes, Request, makes_nonblocking, keeps_alive,
  reuses_address, reuses_port, closes, binds, listens,
}
use tiny_game_server.Text.{c_str, split_host_port}
use tiny_game_server.Watcher.{
  Watcher, new_watcher, ev_read, set_read_callback, disable_all, destroy,
}
use tiny_game_server.Watcher

-- The lambda that `Accept` gives to the watcher.
pub data Handler : Type 0 where
  handles_accept : Handler

pub record Acceptor : Type 0 where
  pub addr : List ℕ
  pub fd : ℕ
  pub watcher : Option (Watcher Handler)  -- what `fd_watcher_` points to
  pub requests : List Request
  pub pending : ℕ  -- the functors in the loop, which start the watcher

-- `TCPAcceptor(loop, addr)`, with what `socket` returns
unfoldable pub new_acceptor : ℕ → List ℕ → Acceptor
new_acceptor fd addr = record { addr = addr; fd = fd; watcher = none; requests = []; pending = 0 }

-- A watcher that nothing points to any more.
unfoldable pub released : Option (Watcher Handler) → Option (Option (Watcher Handler))
released none = some none
released (some w) = destroy w >>= (λ d. some none)

-- The destructor, and that of `fd_watcher_` after it.
unfoldable pub destroy_acceptor : Acceptor → Option Acceptor
destroy_acceptor a = do
  gone ← released a.watcher
  some (record a { watcher = gone; requests = a.requests ++ (closes a.fd ∷ []) })

unfoldable pub any_address : Host → ℕ → SocketAddress
unfolding port_bytes
any_address host port = record {
  family = af_inet;
  ip = store host 4 (hton host 4 inaddr_any);
  port = port_bytes host port;
}

-- The results of the calls are not looked at.
unfoldable pub listen : Host → Acceptor → Option Acceptor
unfolding any_address
listen host a = do
  (name, port) ← split_host_port a.addr
  some (record a {
    requests =
        a.requests
        ++ (makes_nonblocking a.fd
            ∷ keeps_alive a.fd
            ∷ reuses_address a.fd
            ∷ reuses_port a.fd
            ∷ binds a.fd (any_address host port)
            ∷ listens a.fd
            ∷ []);
  })

-- A watcher of an earlier call is given up.
unfoldable pub accept : Acceptor → Option Acceptor
accept a = do
  gone ← released a.watcher
  some (record a {
    watcher = some (set_read_callback (new_watcher ev_read) handles_accept);
    pending = suc a.pending;
  })

-- The functor of `Accept`.
unfoldable pub start_watcher : Acceptor → Option Acceptor
start_watcher a = do
  w ← a.watcher
  started ← Watcher.start w
  some (record a { watcher = some started; pending = a.pending - 1 })

unfoldable pub stop : Acceptor → Option Acceptor
stop a = do w ← a.watcher; stopped ← disable_all w; some (record a { watcher = some stopped })

-- A connection that `accept` returns: its socket, and the bytes of the address of its peer.
pub record Accepted : Type 0 where
  pub socket : ℕ
  pub peer : List ℕ

-- `HandleAccept`, on the state that the callback changes. `ntop` is what it leaves in the array `buf`.
unfoldable pub handle_accept :
    {S : Type 0}
    → (List ℕ → List ℕ)
    → Option (ℕ → List ℕ → S → Option S)
    → Option Accepted
    → S × Acceptor
    → Option (S × Acceptor)
handle_accept ntop new_connection_cb none (s, a) = some (s, a)
handle_accept ntop none (some c) (s, a) = some (
  s,
  record a { requests = a.requests ++ (makes_nonblocking c.socket ∷ keeps_alive c.socket ∷ []) },
)
handle_accept ntop (some f) (some c) (s, a) = do
  t ← f c.socket (c_str (ntop c.peer)) s
  some (
    t,
    record a { requests = a.requests ++ (makes_nonblocking c.socket ∷ keeps_alive c.socket ∷ []) },
  )
