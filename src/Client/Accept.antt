-- ===== src/Client/Accept.antt =====
-- The accept loops of the client: that of TCP forwarders in `run` of cmd/client/forwarder.go, and
-- runSOCKS5Server of cmd/client/command_proxy.go. A client is a number.
pub mod Clients
pub mod Connect
use krelay.Prelude.{ℕ, Bool, true, false, List, [], ◌∷◌, Option, none, some, if◌then◌else◌}
use krelay.Xnet.Addr.{Addr, AddrPort, addr_port_from}

-- What a round meets: whether the connection to the server is lost, the client that `Accept` returns,
-- or its error, and what `Get` of the getter returns then.
pub record Round : Type 0 where
  pub lost : Bool
  pub accepted : Option ℕ
  pub addr : Option Addr

-- A handler that starts for a client, a client that is closed, and the close of the listener.
pub data Served : Type 0 where
  handled : ℕ → AddrPort → Served
  turned_away : ℕ → Served
  listener_closed : Served

abbrev pub serve : ℕ → ℕ → Option Addr → Served
serve remote_port client none = turned_away client
serve remote_port client (some a) = handled client (addr_port_from a remote_port)

abbrev pub on_accept : ℕ → Option ℕ → Option Addr → List Served → List Served
on_accept remote_port none addr later = listener_closed ∷ []
on_accept remote_port (some client) addr later = serve remote_port client addr ∷ later

-- Without a next round the loop waits in `Accept`.
unfoldable pub accept_loop : ℕ → List Round → List Served
accept_loop remote_port [] = []
accept_loop remote_port (r ∷ rs) =
    let later = accept_loop remote_port rs in
    if r.lost then listener_closed ∷ [] else on_accept remote_port r.accepted r.addr later

-- The clients for which runSOCKS5Server starts handleSOCKS5Conn, and whether it has returned.
abbrev pub on_socks5 : Option ℕ → List ℕ × Bool → List ℕ × Bool
on_socks5 none later = ([], true)
on_socks5 (some client) (clients, done) = (client ∷ clients, done)

unfoldable pub run_socks5_server : List Round → List ℕ × Bool
run_socks5_server [] = ([], false)
run_socks5_server (r ∷ rs) =
    let later = run_socks5_server rs in if r.lost then ([], true) else on_socks5 r.accepted later
