-- ===== src/Tests/Server.antt =====
-- The server, and a client against it.
use krelay.Prelude.{
  ℕ, ◌≡◌, refl, ap, sym, ◌<◌, Bool, true, false, List, [], ◌∷◌, ◌++◌, append-nil, Option, none,
  some, Bytes, codes, equal, if◌then◌else◌, arith,
}
use krelay.Golib.Reader.{Reader, chunk, read_exactly}
use krelay.Golib.Buffer.{splice}
use krelay.Golib.Reader.Laws.{available}
use krelay.Golib.Strconv.{itoa}
use krelay.Golib.Text.{index_of}
use krelay.Golib.Net.{join_host_port}
use krelay.Xio.{accepts, write_full}
use krelay.Xnet.Addr.{addr_string, addr_from_host}
use krelay.Xnet.Header.{Header, marshal, store_fields, from_reader}
use krelay.Xnet.Ack.{ack_code_ok}
use krelay.Server.Conn.{
  DialError, dns_error, op_error, wrote, closed, Session, ack_code_from_err, write_ack, forward,
  serve, handle_conn, destination,
}
use krelay.Server.Conn.Protocol.{Trace, fresh, ended, handle_conn-Trace}
use krelay.Server.Conn.Requests.{
  Opened, Fits, over_tcp, tunnelled, silent, left_open, opens, handle_conn-marshal,
  handle_conn-silent, handle_conn_heartbeat, handle_conn_unknown,
}
use krelay.Server.Conn.Codes.{ack_code_from_err-bounds}
use krelay.Client.Tunnel.{Stream, open_tunnel}
use krelay.Client.Tunnel.EndToEnd.{output, verdict, open_tunnel-handle_conn}

-- A cluster where one address answers.
abbrev dial : Bytes → Bytes → Option DialError
dial network to =
    if equal to (codes "db:53") then none else some (op_error true ∷ dns_error true false ∷ [])

abbrev ip_text : Bytes → Bytes
ip_text ip = ip

abbrev header : ℕ → ℕ → Header
header protocol port = record {
  version = 0;
  request_id = codes "abcde";
  protocol = protocol;
  port = port;
  addr = addr_from_host (codes "db");
}

abbrev to_db : Header
to_db = header 0 53

abbrev session : Bytes → List Bool → Session
session b ws = record { reader = chunk b ∷ []; writable = ws; actions = [] }

abbrev asking : Session
asking = session (marshal to_db ++ 7 ∷ []) (true ∷ [])

destination_db : destination dial ip_text to_db ≡ codes "db:53"
unfolding join_host_port addr_string index_of itoa
destination_db = refl

handle_conn-Trace_example : Trace dial fresh (handle_conn dial ip_text asking).actions ended
handle_conn-Trace_example = handle_conn-Trace dial ip_text asking refl

opened :
    (h : Header) (rest : Bytes) (ws : List Bool)
    → Fits h
    → Opened h rest (session (marshal h ++ rest) ws)
opened h rest ws fits = record { fits = fits; new = refl; arrived = append-nil (marshal h ++ rest) }

handle_conn-marshal_run :
    (r : Reader) × (available r ≡ 7 ∷ [])
    × ((handle_conn dial ip_text asking).actions
        ≡ tunnelled dial ip_text to_db
            (codes "tcp")
            r
            (dial (codes "tcp") (destination dial ip_text to_db)))
handle_conn-marshal_run =
    handle_conn-marshal dial ip_text to_db (7 ∷ []) asking []
      (opened to_db (7 ∷ []) (true ∷ []) (refl, omega arith, omega arith)) over_tcp refl

abbrev gone : Session
gone = session (marshal to_db ++ []) (false ∷ [])

handle_conn-silent_example :
    ((handle_conn dial ip_text gone).actions ≡ silent dial ip_text to_db (codes "tcp"))
    × (left_open dial false (handle_conn dial ip_text gone).actions
        ≡ opens (dial (codes "tcp") (destination dial ip_text to_db)))
handle_conn-silent_example =
    handle_conn-silent dial ip_text to_db [] gone []
      (opened to_db [] (false ∷ []) (refl, omega arith, omega arith)) over_tcp refl

abbrev heartbeat : Header
heartbeat = header 2 0

abbrev beating : Session
beating = session (marshal heartbeat ++ []) (true ∷ [])

handle_conn_heartbeat_run : (handle_conn dial ip_text beating).actions ≡ closed ∷ []
handle_conn_heartbeat_run =
    handle_conn_heartbeat dial ip_text heartbeat [] beating
      (opened heartbeat [] (true ∷ []) (refl, omega arith, omega arith)) refl

abbrev odd : Header
odd = header 9 1

abbrev asking_oddly : Session
asking_oddly = session (marshal odd ++ []) (true ∷ [])

handle_conn_unknown_run :
    (handle_conn dial ip_text asking_oddly).actions ≡ wrote (6 ∷ []) ∷ closed ∷ []
handle_conn_unknown_run =
    handle_conn_unknown dial ip_text odd [] asking_oddly []
      (opened odd [] (true ∷ []) (refl, omega arith, omega arith)) refl (omega arith)

abbrev unresolved : DialError
unresolved = op_error true ∷ dns_error true false ∷ []

code_of_unresolved : ack_code_from_err unresolved ≡ 3
unfolding ack_code_from_err
code_of_unresolved = refl

ack_code_from_err-bounds_run :
    (ack_code_ok < ack_code_from_err unresolved) × (ack_code_from_err unresolved < 6)
ack_code_from_err-bounds_run = ack_code_from_err-bounds unresolved

-- The client's stream, with the server's answer and the first bytes of the destination.
abbrev stream : Stream
stream = record {
  writer = accepts 64 ∷ [];
  reader = chunk (1 ∷ b'o' ∷ b'k' ∷ []) ∷ [];
  written = [];
}

abbrev wire_to_db : Bytes
wire_to_db = 0 ∷ 0 ∷ 14 ∷ 97 ∷ 98 ∷ 99 ∷ 100 ∷ 101 ∷ 0 ∷ 0 ∷ 53 ∷ 1 ∷ 100 ∷ 98 ∷ []

abbrev listening : Session
listening = session (wire_to_db ++ 7 ∷ []) (true ∷ [])

told_ok : output (handle_conn dial ip_text listening).actions ≡ 1 ∷ []
unfolding handle_conn serve forward write_ack from_reader read_exactly join_host_port addr_string
    index_of itoa equal
told_ok = refl

open_tunnel-handle_conn_example :
    (open_tunnel to_db stream).0 ≡ verdict (dial (codes "tcp") (destination dial ip_text to_db))
unfolding marshal store_fields splice write_full
open_tunnel-handle_conn_example =
    open_tunnel-handle_conn dial ip_text to_db stream listening (7 ∷ []) (codes "ok") [] []
      (refl, omega arith, omega arith) over_tcp refl refl refl refl
      (ap (λ b. chunk (b ++ codes "ok") ∷ []) (sym told_ok))
