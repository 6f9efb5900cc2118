-- ===== src/Client/Accept/Connect.antt =====
-- A client of a TCP forwarder, against the handler of the server.
use mathlib.Core.Path.{subst}
use krelay.Prelude.{
  ℕ, ◌+◌, ◌<◌, ◌≡◌, refl, sym, ap, ◌∙◌, Bool, true, false, List, [], ◌∷◌, ◌++◌, Option, none, some,
  Bytes, codes, length, All, All-middle, Bool-cases, inl, inr,
}
use krelay.Golib.Reader.{Reader, chunk}
use krelay.Golib.Reader.Laws.{available}
use krelay.Golib.Net.{join_host_port}
use krelay.Xio.{Writer, write_full}
use krelay.Xio.Delivery.{sent}
use krelay.Xnet.Addr.{Addr, AddrPort, addr_port_from, addr_string, protocol_tcp}
use krelay.Xnet.Header.{marshal}
use krelay.Xnet.RequestId.{new_request_id, length-new_request_id}
use krelay.Server.Conn.{DialError, Session, handle_conn}
use krelay.Server.Conn.Requests.{over_tcp}
use krelay.Client.Tunnel.{request}
use krelay.Client.Tunnel.EndToEnd.{output, verdict, open_tunnel-handle_conn}
use krelay.Client.TcpConn.{handle_tcp_conn}
use krelay.Client.TcpConn.Connect.{result_of, open_stream-created}
use krelay.Client.Accept.{
  Round, Served, handled, turned_away, listener_closed, serve, on_accept, accept_loop,
}

-- A handler goes to the forwarder's port.
abbrev GoesTo : ℕ → Served → Type 0
GoesTo port (handled client to) = (a : Addr) × (to ≡ addr_port_from a port)
GoesTo port (turned_away client) = Unit {0}
GoesTo port listener_closed = Unit {0}

serve-GoesTo : (port client : ℕ) (addr : Option Addr) → GoesTo port (serve port client addr)
serve-GoesTo port client none = tt
serve-GoesTo port client (some a) = (a, refl)

on_accept-GoesTo :
    (port : ℕ) (accepted : Option ℕ) (addr : Option Addr) (later : List Served)
    → All (GoesTo port) later
    → All (GoesTo port) (on_accept port accepted addr later)
on_accept-GoesTo port none addr later h = (tt, tt)
on_accept-GoesTo port (some client) addr later h = (serve-GoesTo port client addr, h)

accept_loop-GoesTo : (port : ℕ) (rs : List Round) → All (GoesTo port) (accept_loop port rs)
unfolding accept_loop
accept_loop-GoesTo port [] = tt
accept_loop-GoesTo port (r ∷ rs) =
    let later = accept_loop-GoesTo port rs in
    elim (Bool-cases r.lost) [
      | inl lost ↦ rw lost (tt, tt)
      | inr kept ↦ rw kept (on_accept-GoesTo port r.accepted r.addr (accept_loop port rs) later)
    ]

-- A client for which a TCP forwarder starts a handler, through handleTCPConn and the server: the
-- server dials an address at the remote port of the forwarder, and the copies start exactly if that
-- dial succeeds; else the code of the server's error comes back. This holds if the port is a
-- uint16, the address fits the header, the stream is created, the session of the server is new and
-- can write its acknowledgement, and the server gets what the client wrote and the client what the
-- server wrote.
pub accept_loop-connect :
    (dial : Bytes → Bytes → Option DialError) (ip_text : Bytes → Bytes) (draw : ℕ → ℕ) (port : ℕ)
    (rs : List Round) (before after : List Served) (client : ℕ) (to : AddrPort) (w : Writer)
    (from_server : Reader) (c : Session) (more cs : Bytes) (later : Reader) (ws : List Bool)
    → accept_loop port rs ≡ before ++ handled client to ∷ after
    → port < 65536
    → 12 + length to.addr.bytes < 65536
    → c.actions ≡ []
    → c.writable ≡ true ∷ ws
    → (write_full w (marshal (request (new_request_id draw) protocol_tcp to))).error ≡ false
    → available c.reader
      ≡ sent (write_full w (marshal (request (new_request_id draw) protocol_tcp to))).writes ++ more
    → from_server ≡ chunk (output (handle_conn dial ip_text c).actions ++ cs) ∷ later
    → (a : Addr) × (to ≡ addr_port_from a port)
      × (result_of (
            handle_tcp_conn draw to
              (record { error_stream = true; data_stream = some (w, from_server) }))
          ≡ verdict (dial (codes "tcp") (join_host_port (addr_string ip_text a) port)))
accept_loop-connect dial ip_text draw port rs before after client to w from_server c more cs later
      ws served fits short new can wrote_all arrives comes =
    let all_go = subst (All (GoesTo port)) served (accept_loop-GoesTo port rs) in
    let (a, same) : GoesTo port (handled client to) =
      All-middle (GoesTo port) before after (handled client to) all_go in
    let port_fits : to.port < 65536 = subst (λ x. x.port < 65536) (sym same) fits in
    let opened =
      open_tunnel-handle_conn dial ip_text (request (new_request_id draw) protocol_tcp to)
        (record { writer = w; reader = from_server; written = [] }) c more cs later ws
        (length-new_request_id draw, port_fits, short) over_tcp new can wrote_all arrives comes in
    (
      a,
      same,
      open_stream-created draw to w from_server
          ∙ opened
          ∙ ap
              (λ x.
                verdict (dial (codes "tcp") (join_host_port (addr_string ip_text x.addr) x.port)))
              same,
    )
