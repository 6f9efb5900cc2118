-- ===== src/Client/TcpConn/Connect.antt =====
-- A SOCKS5 client, through handleSOCKS5Conn, against the handler of the server.
use krelay.Prelude.{
  ℕ, ◌+◌, ◌<◌, ◌≡◌, refl, ap, ◌∙◌, Bool, true, false, List, [], ◌∷◌, ◌++◌, Option, some, Bytes,
  codes, length, arith, Result, ok, err,
}
use krelay.Golib.Reader.{Reader, chunk}
use krelay.Golib.Reader.Laws.{available}
use krelay.Golib.Net.{join_host_port}
use krelay.Xio.{Writer, write_full}
use krelay.Xio.Delivery.{sent}
use krelay.Xnet.Addr.{AddrPort, addr_port_from, addr_string, protocol_tcp}
use krelay.Xnet.Header.{Header, marshal}
use krelay.Xnet.RequestId.{new_request_id, length-new_request_id}
use krelay.Server.Conn.{DialError, Session, handle_conn}
use krelay.Server.Conn.Requests.{over_tcp}
use krelay.Client.Socks5.{Conn}
use krelay.Client.Socks5.Wire.{
  Destination, IsDestination, addr_of, greeting, start, domain, ipv4, ipv6,
  socks5_handshake-connect,
}
use krelay.Client.Socks5.Wire as Wire
use krelay.Client.Tunnel.{Stream, TunnelError, request, create_stream, open_tunnel}
use krelay.Client.Tunnel.EndToEnd.{output, verdict, open_tunnel-handle_conn}
use krelay.Client.TcpConn.{
  Created, Outcome, failed, copied, after_open, open_stream, handle_tcp_conn, handled,
  after_handshake, handle_socks5_conn,
}

-- Whether the copies run.
abbrev pub result_of : Outcome → Result TunnelError (Unit {0})
result_of (failed e) = err e
result_of (copied s) = ok tt

result_of-after_open : (x : Result TunnelError (Unit {0}) × Stream) → result_of (after_open x) ≡ x.0
result_of-after_open (err e, s) = refl
result_of-after_open (ok tt, s) = refl

-- The host that a SOCKS5 request names, as text.
abbrev pub host_text : (Bytes → Bytes) → Destination → Bytes
host_text ip_text (ipv4 b) = ip_text b
host_text ip_text (ipv6 b) = ip_text b
host_text ip_text (domain b) = b

addr_string-addr_of :
    (ip_text : Bytes → Bytes) (d : Destination)
    → addr_string ip_text (addr_of d) ≡ host_text ip_text d
unfolding addr_string
addr_string-addr_of ip_text (ipv4 b) = refl
addr_string-addr_of ip_text (ipv6 b) = refl
addr_string-addr_of ip_text (domain b) = refl

addr_of-short : (d : Destination) → IsDestination d → 12 + length (addr_of d).bytes < 65536
addr_of-short (ipv4 b) h = omega arith
addr_of-short (ipv6 b) h = omega arith
addr_of-short (domain b) h = omega arith

-- The header that the handler sends for a destination.
abbrev pub tcp_request : (ℕ → ℕ) → Destination → ℕ → Header
tcp_request draw d port =
    request (new_request_id draw) protocol_tcp (addr_port_from (addr_of d) port)

pub open_stream-created :
    (draw : ℕ → ℕ) (to : AddrPort) (w : Writer) (r : Reader)
    → result_of
        (handle_tcp_conn draw to (record { error_stream = true; data_stream = some (w, r) }))
      ≡ (open_tunnel
          (request (new_request_id draw) protocol_tcp to)
          (record { writer = w; reader = r; written = [] })).0
unfolding handle_tcp_conn open_stream create_stream
open_stream-created draw to w r = result_of-after_open _

-- A SOCKS5 client that asks to connect to a host and a port, through handleSOCKS5Conn and the
-- server: the server dials that host and port, and the copies start exactly if the dial succeeds,
-- from the first byte behind the request on; else the code of the server's error comes back. This
-- holds for a well-formed request with a uint16 port, if the replies to the client can be written,
-- the stream is created, the session of the server is new and can write its acknowledgement, and
-- the server gets what the client wrote and the client what the server wrote.
pub handle_socks5_conn-connect :
    (dial : Bytes → Bytes → Option DialError) (ip_text : Bytes → Bytes) (draw : ℕ → ℕ)
    (v1 v2 reserved port : ℕ) (methods rest : Bytes) (d : Destination) (few : length methods < 256)
    (dest : IsDestination d) (fits : port < 65536) (r : Reader) (ws : List Bool) (rs : List Bytes)
    (sends : available r ≡ greeting v1 methods (Wire.request v2 1 reserved d port rest))
    (w : Writer) (from_server : Reader) (c : Session) (more cs : Bytes) (later : Reader)
    (ws' : List Bool)
    → c.actions ≡ []
    → c.writable ≡ true ∷ ws'
    → (write_full w (marshal (tcp_request draw d port))).error ≡ false
    → available c.reader ≡ sent (write_full w (marshal (tcp_request draw d port))).writes ++ more
    → from_server ≡ chunk (output (handle_conn dial ip_text c).actions ++ cs) ∷ later
    → (conn : Conn) × (out : Outcome) × (handle_socks5_conn draw
          (record { error_stream = true; data_stream = some (w, from_server) })
          (record { reader = r; writable = true ∷ true ∷ ws; replies = rs })
        ≡ handled conn out)
      × (result_of out ≡ verdict (dial (codes "tcp") (join_host_port (host_text ip_text d) port)))
      × (available conn.reader ≡ rest)
unfolding handle_socks5_conn
handle_socks5_conn-connect dial ip_text draw v1 v2 reserved port methods rest d few dest fits r ws
      rs sends w from_server c more cs later ws' new can wrote_all arrives comes =
    let created : Created = record { error_stream = true; data_stream = some (w, from_server) } in
    let (r', ran, left) =
      socks5_handshake-connect v1 v2 1 reserved port methods rest d few dest fits r (true ∷ ws) rs
        sends ws refl refl in
    let to = addr_port_from (addr_of d) port in
    let opened =
      open_tunnel-handle_conn dial ip_text (tcp_request draw d port)
        (record { writer = w; reader = from_server; written = [] }) c more cs later ws'
        (length-new_request_id draw, fits, addr_of-short d dest) over_tcp new can wrote_all arrives
        comes in
    (
      _,
      handle_tcp_conn draw to created,
      ap (after_handshake draw created) ran,
      open_stream-created draw to w from_server
          ∙ opened
          ∙ ap (λ host. verdict (dial (codes "tcp") (join_host_port host port)))
              (addr_string-addr_of ip_text d),
      left,
    )
