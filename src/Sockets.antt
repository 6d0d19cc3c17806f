-- ===== src/Sockets.antt =====
-- What src/network/TCPAcceptor.cpp and src/network/TCPConnector.cpp ask the operating system for.
use tiny_game_server.Base.{ℕ, ◌%◌, ◌/◌, ◌^◌, ◌≡◌, ap, ◌∙◌, List, [], ◌∷◌, arith}
use tiny_game_server.Bytes.{Host, big, store, hton}
use tiny_game_server.Bytes.Network.{store-hton}

-- A `sockaddr_in`; the last two members as bytes in memory.
pub record SocketAddress : Type 0 where
  pub family : ℕ
  pub ip : List ℕ
  pub port : List ℕ

abbrev pub af_inet : ℕ
af_inet = 2

abbrev pub inaddr_any : ℕ
inaddr_any = 0

-- Calls on a socket; `listen` has SOMAXCONN as its second argument.
pub data Request : Type 0 where
  makes_nonblocking keeps_alive reuses_address reuses_port listens closes : ℕ → Request
  binds connects : ℕ → SocketAddress → Request

-- `htons` takes its argument as 16 bits.
unfoldable pub port_bytes : Host → ℕ → List ℕ
port_bytes host port = store host 2 (hton host 2 (port % 2 ^ 16))

-- The port is in network order.
pub port_bytes_lem :
    (host : Host) (port : ℕ)
    → port_bytes host port ≡ (port % 2 ^ 16 / 2 ^ 8) ∷ (port % 2 ^ 16 % 2 ^ 8) ∷ []
unfolding port_bytes
port_bytes_lem host port = store-hton host 2 (port % 2 ^ 16) ∙ halves
  where
    halves : store big 2 (port % 2 ^ 16) ≡ (port % 2 ^ 16 / 2 ^ 8) ∷ (port % 2 ^ 16 % 2 ^ 8) ∷ []
    halves = unfold store in ap (λ t. t ∷ (port % 2 ^ 16 % 2 ^ 8) ∷ []) (omega arith)
