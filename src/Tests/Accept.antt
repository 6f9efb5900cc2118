-- ===== src/Tests/Accept.antt =====
-- Three clients, the second while there is no address, and a lost connection.
use krelay.Prelude.{◌≡◌, refl, true, false, List, [], ◌∷◌, none, some, codes}
use krelay.Xnet.Addr.{addr_from_host, addr_port_from}
use krelay.Client.Accept.{
  Round, handled, turned_away, listener_closed, accept_loop, run_socks5_server,
}
use krelay.Client.Accept.Clients.{clients, firsts, admitted, accept_loop-clients}

abbrev rounds : List Round
rounds =
    record { lost = false; accepted = some 1; addr = some (addr_from_host (codes "db")) }
    ∷ record { lost = false; accepted = some 2; addr = none }
    ∷ record { lost = true; accepted = some 3; addr = none }
    ∷ []

served :
    accept_loop 53 rounds
    ≡ handled 1 (addr_port_from (addr_from_host (codes "db")) 53)
      ∷ turned_away 2
      ∷ listener_closed
      ∷ []
unfolding accept_loop
served = refl

accept_loop-clients_run :
    (clients (accept_loop 53 rounds) ≡ firsts (admitted rounds))
    × ((run_socks5_server rounds).0 ≡ firsts (admitted rounds))
accept_loop-clients_run = accept_loop-clients 53 rounds
