-- ===== src/Tests/Client.antt =====
-- A SOCKS5 client and a heartbeat, each against the server.
use krelay.Prelude.{
  ℕ, ◌≡◌, refl, ap, sym, true, false, List, [], ◌∷◌, ◌++◌, Option, some, Bytes, codes, arith,
  if◌then◌else◌, none, equal,
}
use krelay.Golib.Reader.{Reader, chunk, read_exactly}
use krelay.Golib.Reader.Laws.{available}
use krelay.Golib.Strconv.{itoa}
use krelay.Golib.Text.{index_of}
use krelay.Xnet.Addr.{Addr, AddrPort, addr_string, addr_port_from, addr_from_host}
use krelay.Client.Tunnel.{create_stream}
use krelay.Golib.Net.{join_host_port}
use krelay.Xio.{accepts, write_full, write_loop}
use krelay.Xnet.RequestId.{new_request_id, fill_id}
use krelay.Xnet.Header.{marshal, store_fields, from_reader}
use krelay.Golib.Buffer.{splice}
use krelay.Server.Conn.{
  DialError, op_error, dns_error, Session, closed, handle_conn, serve, forward, write_ack,
}
use krelay.Client.Socks5.Wire.{Destination, domain}
use krelay.Client.Socks5.{Conn}
use krelay.Client.Tunnel.EndToEnd.{output, verdict}
use krelay.Client.Accept.{Round, listener_closed, accept_loop}
use krelay.Client.Accept.Connect.{accept_loop-connect}
use krelay.Client.TcpConn.{handle_tcp_conn, Outcome, handled, handle_socks5_conn}
use krelay.Client.TcpConn.Connect.{result_of, host_text, handle_socks5_conn-connect}
use krelay.Client.Heartbeats.{Tick, send_heartbeats}
use krelay.Client.Heartbeats.Served.{send_heartbeats-handle_conn}

abbrev dial : Bytes → Bytes → Option DialError
dial network to =
    if equal to (codes "db:53") then none else some (op_error true ∷ dns_error true false ∷ [])

abbrev ip_text : Bytes → Bytes
ip_text ip = ip

abbrev draw : ℕ → ℕ
draw i = i

-- The header of a stream to `db:53`.
abbrev wire_to_db : Bytes
wire_to_db = 0 ∷ 0 ∷ 14 ∷ 97 ∷ 98 ∷ 99 ∷ 100 ∷ 101 ∷ 0 ∷ 0 ∷ 53 ∷ 1 ∷ 100 ∷ 98 ∷ []

abbrev session : Bytes → Session
session b = record { reader = chunk b ∷ []; writable = true ∷ []; actions = [] }

abbrev db : Destination
db = domain (codes "db")

-- The server's acknowledgement, and the first bytes of the destination.
abbrev from_server : Reader
from_server = chunk (1 ∷ b'o' ∷ b'k' ∷ []) ∷ []

abbrev socks_client : Reader
socks_client =
    chunk (5 ∷ 1 ∷ 0 ∷ []) ∷ chunk (5 ∷ 1 ∷ 0 ∷ 3 ∷ 2 ∷ b'd' ∷ b'b' ∷ 0 ∷ 53 ∷ 7 ∷ []) ∷ []

told_ok : output (handle_conn dial ip_text (session (wire_to_db ++ 7 ∷ []))).actions ≡ 1 ∷ []
unfolding handle_conn serve forward write_ack from_reader read_exactly join_host_port addr_string
    index_of itoa equal
told_ok = refl

handle_socks5_conn-connect_example :
    (conn : Conn) × (out : Outcome) × (handle_socks5_conn draw
        (record { error_stream = true; data_stream = some (accepts 64 ∷ [], from_server) })
        (record { reader = socks_client; writable = true ∷ true ∷ []; replies = [] })
      ≡ handled conn out)
    × (result_of out ≡ verdict (dial (codes "tcp") (join_host_port (host_text ip_text db) 53)))
    × (available conn.reader ≡ 7 ∷ [])
unfolding marshal store_fields splice write_full write_loop new_request_id fill_id
handle_socks5_conn-connect_example =
    handle_socks5_conn-connect dial ip_text draw 5 5 0 53 (0 ∷ []) (7 ∷ []) db (omega arith)
      (omega arith) (omega arith) socks_client [] [] refl (accepts 64 ∷ []) from_server
      (session (wire_to_db ++ 7 ∷ [])) (7 ∷ []) (codes "ok") [] [] refl refl refl refl
      (ap (λ b. chunk (b ++ codes "ok") ∷ []) (sym told_ok))

-- A forwarder to port 53 whose target is the host `db`, with one client and a lost connection.
abbrev rounds : List Round
rounds =
    record { lost = false; accepted = some 1; addr = some (addr_from_host (codes "db")) }
    ∷ record { lost = true; accepted = none; addr = none }
    ∷ []

abbrev to_db : AddrPort
to_db = addr_port_from (addr_from_host (codes "db")) 53

accept_loop-connect_example :
    (a : Addr) × (to_db ≡ addr_port_from a 53)
    × (result_of (
          handle_tcp_conn draw to_db
            (record { error_stream = true; data_stream = some (accepts 64 ∷ [], from_server) }))
        ≡ verdict (dial (codes "tcp") (join_host_port (addr_string ip_text a) 53)))
unfolding accept_loop marshal store_fields splice write_full write_loop new_request_id fill_id
accept_loop-connect_example =
    accept_loop-connect dial ip_text draw 53 rounds [] (listener_closed ∷ []) 1 to_db
      (accepts 64 ∷ []) from_server (session (wire_to_db ++ 7 ∷ [])) (7 ∷ []) (codes "ok") [] []
      refl (omega arith) (omega arith) refl refl refl refl
      (ap (λ b. chunk (b ++ codes "ok") ∷ []) (sym told_ok))

-- The second tick meets a connection on which no stream can be created.
abbrev ticks : List Tick
ticks =
    record {
      draw = draw;
      created = record { error_stream = true; data_stream = some (accepts 9 ∷ accepts 9 ∷ [], []) };
    }
    ∷ record { draw = draw; created = record { error_stream = false; data_stream = none } }
    ∷ []

abbrev beat : List Bytes
beat = (0 ∷ 0 ∷ 12 ∷ 97 ∷ 98 ∷ 99 ∷ 100 ∷ 101 ∷ 2 ∷ []) ∷ (0 ∷ 0 ∷ 0 ∷ []) ∷ []

send_heartbeats-handle_conn_example :
    (handle_conn dial ip_text
      (session (0 ∷ 0 ∷ 12 ∷ 97 ∷ 98 ∷ 99 ∷ 100 ∷ 101 ∷ 2 ∷ 0 ∷ 0 ∷ 0 ∷ []))).actions
    ≡ closed ∷ []
unfolding send_heartbeats create_stream marshal store_fields splice write_full write_loop
    new_request_id fill_id
send_heartbeats-handle_conn_example =
    send_heartbeats-handle_conn dial ip_text ticks [] [] beat
      (session (0 ∷ 0 ∷ 12 ∷ 97 ∷ 98 ∷ 99 ∷ 100 ∷ 101 ∷ 2 ∷ 0 ∷ 0 ∷ 0 ∷ [])) [] refl refl refl
