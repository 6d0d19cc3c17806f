-- ===== src/Client/Connector.antt =====
-- `Connect` of src/network/TCPConnector.cpp, on its socket. `evutil_inet_pton` is a parameter: the bytes of
-- an address that it can read.
use tiny_game_server.Base.{
  ℕ, ◌/◌, ◌%◌, ◌^◌, ◌<◌, ◌≡◌, refl, List, [], ◌∷◌, ◌++◌, Option, none, some, ◌>>=◌,
}
use tiny_game_server.Bytes.{Host}
use tiny_game_server.Text.{c_str, split_host_port}
use tiny_game_server.Text.Address.{decimal, tens, split_host_port-decimal}
use tiny_game_server.Sockets.{
  SocketAddress, Request, makes_nonblocking, keeps_alive, reuses_address, reuses_port, connects,
  af_inet, port_bytes, port_bytes_lem,
}

module _ (pton : List ℕ → Option (List ℕ)) where
  -- The memory of the address was set to zeros.
  unfoldable pub read_ip : List ℕ → List ℕ
  read_ip name = elim (pton (c_str name)) [ none ↦ 0 ∷ 0 ∷ 0 ∷ 0 ∷ [] | some ip ↦ ip ]

  -- The results of the calls are not looked at.
  unfoldable pub connect_requests : Host → ℕ → List ℕ → Option (List Request)
  unfolding read_ip port_bytes
  connect_requests host fd addr = do
    (name, port) ← split_host_port addr
    let server : SocketAddress = record {
      family = af_inet;
      ip = read_ip name;
      port = port_bytes host port;
    }
    some (
        makes_nonblocking fd
        ∷ keeps_alive fd
        ∷ reuses_address fd
        ∷ reuses_port fd
        ∷ connects fd server
        ∷ [])

  -- The connector asks for a connection to the host of the address, and to the same port, modulo 2^16 and
  -- in network order, that an acceptor with this port in its address listens on.
  pub connect_requests-decimal :
      (host : Host) (fd : ℕ) (name : List ℕ) (w port : ℕ)
      → port < tens w
      → port < 2 ^ 31
      → connect_requests host fd (name ++ (b':' ∷ decimal w port))
        ≡ some (
            makes_nonblocking fd
            ∷ keeps_alive fd
            ∷ reuses_address fd
            ∷ reuses_port fd
            ∷ connects fd (record {
              family = af_inet;
              ip = read_ip name;
              port = (port % 2 ^ 16 / 2 ^ 8) ∷ (port % 2 ^ 16 % 2 ^ 8) ∷ [];
            })
            ∷ [])
  unfolding connect_requests
  connect_requests-decimal host fd name w port h k =
      rw (split_host_port-decimal name w port h k, port_bytes_lem host port) refl
