-- ===== src/Tests/Clients.antt =====
-- A client, and the address that it is given.
use tiny_game_server.Base.{
  ℕ, ◌+◌, ◌≤◌, ◌<◌, ◌≡◌, refl, [], ◌∷◌, ◌++◌, none, some, true, arith, ◌>>=◌,
}
use tiny_game_server.Buffer.{Buffer, new_buffer, initial_size}
use tiny_game_server.Buffer.Invariant.{IsValid, size, new_buffer-IsValid}
use tiny_game_server.Connection.Output.{IsSound}
use tiny_game_server.Watcher.{
  is_reading, event_add, new_watcher, set_read_callback, set_write_callback,
}
use tiny_game_server.Watcher.Operations.{HasEvent}
use tiny_game_server.Connection.{Connection, connected, new_connection}
use tiny_game_server.Client.{
  Client, starts, destroy, new_client, connect, send_buffer, disconnect, process, serve, pointee,
  object,
}
use tiny_game_server.Client.Again.{connect_all, process-connect_all}
use tiny_game_server.Client.Order.{ready_client, IsGone, process-connect, process-disconnect}
use tiny_game_server.Text.{codes, split_host_port, rfind, atoi}
use tiny_game_server.Text.Address.{decimal, tens, split_host_port-decimal}

abbrev zeros : ℕ → ℕ → ℕ
zeros n i = 0

abbrev small : Buffer
small = record { memory = 5 ∷ []; capacity = 1; read_index = 0; write_index = 1; junk = zeros }

process-connect_test :
    (send_buffer small (connect (some 3) (new_client [])) ≡ none)
    × ((c : Client) × (conn : Connection) × ((process zeros none
              (λ k. none)
              (connect (some 3) (new_client []))
            >>= process zeros none (λ k. none))
          ≡ some c)
        × (pointee c ≡ some (0, conn))
        × (c.pending ≡ [])
        × (conn.status ≡ connected)
        × (conn.owners ≡ 1)
        × (is_reading conn.watcher ≡ true)
        × HasEvent conn.watcher)
process-connect_test = process-connect zeros [] 3 small (λ k. none) (λ k. none)

abbrev first : Connection
unfolding new_connection
first = new_connection zeros [] 1

first-IsSound : IsSound (record first { watcher = record (first.watcher) { event = some [] } })
unfolding new_connection new_buffer new_watcher set_read_callback set_write_callback
first-IsSound = record {
  valid = (new_buffer-IsValid zeros initial_size (omega arith)).0;
  small = omega arith;
  event = ([], refl);
}

small-IsValid : IsValid small
small-IsValid = record {
  sized = refl;
  ordered = omega arith;
  inside = omega arith;
  narrow = omega arith;
}

fits : size first.send_buffer + size small ≤ first.send_buffer.capacity
unfolding new_connection new_buffer
fits = omega arith

process-disconnect_example :
    let conn : Connection = record first { watcher = record (first.watcher) { event = some [] } } in
    let ready : Client = ready_client [] none conn (event_add ∷ []) in
    ((c d : Client) × ((disconnect ready >>= send_buffer small) ≡ some c)
      × (process zeros none (λ k. some 1) c ≡ some d)
      × IsGone d)
    × ((taken given d : Client) × (disconnect ready ≡ some taken)
        × (send_buffer small (record taken { pending = [] }) ≡ some given)
        × (serve zeros none (λ k. some 1) taken.pending given ≡ some d)
        × (object 0 d ≡ none)
        × (process zeros none (λ k. some 1) d ≡ none))
process-disconnect_example =
    process-disconnect zeros none [] none
      (record first { watcher = record (first.watcher) { event = some [] } }) (event_add ∷ []) small
      (λ k. some 1) (λ k. some 1) first-IsSound small-IsValid fits

split_host_port_test :
    split_host_port (codes "192.168.0.1:10240") ≡ some (codes "192.168.0.1", 10240)
unfolding split_host_port rfind atoi
split_host_port_test = refl

below_tens : 10240 < tens 5
below_tens = omega arith

split_host_port-decimal_example :
    split_host_port (codes "::1" ++ (b':' ∷ decimal 5 10240)) ≡ some (codes "::1", 10240)
split_host_port-decimal_example =
    split_host_port-decimal (codes "::1") 5 10240 below_tens (omega arith)

process-connect_all_example :
    (c : Client) × (process zeros none
        (λ k. none)
        (connect_all (some 5 ∷ some 6 ∷ some 7 ∷ []) (new_client []))
      ≡ some c)
    × (c.sockets ≡ some 7 ∷ (none ∷ (none ∷ [])))
    × (c.pending ≡ starts ∷ (starts ∷ (starts ∷ [])))
    × ((destroy c).0 ≡ none)
process-connect_all_example =
    process-connect_all zeros none (λ k. none) [] (some 5) (some 6 ∷ some 7 ∷ [])
