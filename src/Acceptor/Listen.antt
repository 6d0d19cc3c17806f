-- ===== src/Acceptor/Listen.antt =====
-- What an acceptor listens on.
use tiny_game_server.Base.{
  ℕ, ◌/◌, ◌%◌, ◌^◌, ◌<◌, ◌≡◌, refl, sym, ◌⊎◌, inl, inr, ap, ap₂, ◌∙◌, List, [], ◌∷◌, ◌++◌, none,
  some, arith,
}
use tiny_game_server.Bytes.{Host, big, store}
use tiny_game_server.Bytes.Network.{store-hton}
use tiny_game_server.Text.{no_port, rfind, split_host_port}
use tiny_game_server.Text.Address.{decimal, tens, split_host_port-decimal}
use tiny_game_server.Sockets.{
  Request, makes_nonblocking, keeps_alive, reuses_address, reuses_port, binds, listens, af_inet,
  port_bytes_lem,
}
use tiny_game_server.Acceptor.{Acceptor, any_address, listen}

-- The calls that set a socket up on a port of any interface, with the port in network order.
abbrev pub set_up : ℕ → ℕ → List Request
set_up fd port =
    makes_nonblocking fd
    ∷ keeps_alive fd
    ∷ reuses_address fd
    ∷ reuses_port fd
    ∷ binds fd (record {
      family = af_inet;
      ip = 0 ∷ 0 ∷ 0 ∷ 0 ∷ [];
      port = (port / 2 ^ 8) ∷ (port % 2 ^ 8) ∷ [];
    })
    ∷ listens fd
    ∷ []

any_address_lem :
    (host : Host) (port : ℕ)
    → any_address host port ≡ record {
      family = af_inet;
      ip = 0 ∷ 0 ∷ 0 ∷ 0 ∷ [];
      port = (port % 2 ^ 16 / 2 ^ 8) ∷ (port % 2 ^ 16 % 2 ^ 8) ∷ [];
    }
unfolding any_address
any_address_lem host port =
    ap₂ (λ x y. record { family = af_inet; ip = x; port = y }) (store-hton host 4 0 ∙ zeros)
      (port_bytes_lem host port)
  where
    zeros : store big 4 0 ≡ 0 ∷ 0 ∷ 0 ∷ 0 ∷ []
    zeros = unfold store in refl

pub listen_split :
    (host : Host) (a : Acceptor) (name : List ℕ) (port : ℕ)
    → split_host_port a.addr ≡ some (name, port)
    → listen host a ≡ some (record a { requests = a.requests ++ set_up a.fd (port % 2 ^ 16) })
unfolding listen
listen_split host a name port e = rw e (
    ap
      (λ t. some (record a {
        requests =
            a.requests
            ++ (makes_nonblocking a.fd
                ∷ keeps_alive a.fd
                ∷ reuses_address a.fd
                ∷ reuses_port a.fd
                ∷ binds a.fd t
                ∷ listens a.fd
                ∷ []);
      }))
      (any_address_lem host port))

-- The address ends in a colon and a number below 2^31, in any number of decimal digits, and `p` is that
-- number modulo 2^16; or it has no colon, and `p` is 65535.
abbrev pub NamesPort : List ℕ → ℕ → Type 0
NamesPort addr p =
    ((name : List ℕ) × (w port : ℕ) × (addr ≡ name ++ (b':' ∷ decimal w port))
      × (port < tens w)
      × (port < 2 ^ 31)
      × (p ≡ port % 2 ^ 16))
    ⊎ ((rfind b':' addr ≡ none) × (p ≡ 65535))

-- On a host of either byte order `Listen` asks for a socket on all interfaces, whatever host the
-- address names. The port, in network order, is the number behind the colon modulo 2^16, where that
-- number is below 2^31, in any number of decimal digits, and 65535 where the address has no colon.
pub listen-set_up :
    (host : Host) (a : Acceptor) (p : ℕ)
    → NamesPort a.addr p
    → listen host a ≡ some (record a { requests = a.requests ++ set_up a.fd p })
listen-set_up host a p (inl (name, w, port, e, h, k, q)) =
    listen_split host a name port (ap split_host_port e ∙ split_host_port-decimal name w port h k)
    ∙ ap (λ t. some (record a { requests = a.requests ++ set_up a.fd t })) (sym q)
listen-set_up host a p (inr (e, q)) =
    listen_split host a [] no_port (unfold split_host_port in rw (e, split_host_port) refl)
    ∙ ap (λ t. some (record a { requests = a.requests ++ set_up a.fd t })) wrapped
  where
    wrapped : no_port % 2 ^ 16 ≡ p
    wrapped = omega (arith, q)
