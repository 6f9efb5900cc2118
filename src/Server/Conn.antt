-- ===== src/Server/Conn.antt =====
-- handleConn, writeACK and ackCodeFromErr of cmd/server/main.go: one connection of a client.
pub mod Protocol
pub mod Requests
pub mod Codes
use krelay.Prelude.{
  ℕ, Bool, true, false, List, [], ◌∷◌, ◌++◌, Option, none, some, ◌==◌, if◌then◌else◌, Bytes, codes,
  Result, ok, err,
}
use krelay.Golib.Reader.{Reader}
use krelay.Golib.Net.{join_host_port}
use krelay.Xnet.Addr.{addr_string, protocol_tcp, protocol_udp, protocol_keepalive}
use krelay.Xnet.Header.{Header, HeaderError, from_reader}
use krelay.Xnet.Ack.{
  Acknowledgement, ack_marshal, ack_code_ok, ack_code_unknown_error, ack_code_no_such_host,
  ack_code_resolve_timeout, ack_code_connect_timeout, ack_code_unknown_protocol,
}

-- One error of a chain of wrapped errors: a net.DNSError with `IsNotFound` and `IsTimeout`, a
-- net.OpError with the answer of its `Timeout`, or another one.
pub data ErrorLayer : Type 0 where
  dns_error : Bool → Bool → ErrorLayer
  op_error : Bool → ErrorLayer
  other_error : ErrorLayer

-- An error of a dial, from the outside to the inside.
abbrev pub DialError : Type 0
DialError = List ErrorLayer

-- The two calls of `errors.As`: the outermost error of the type.
unfoldable pub as_dns : DialError → Option (Bool × Bool)
as_dns [] = none
as_dns (dns_error not_found timeout ∷ e) = some (not_found, timeout)
as_dns (op_error timeout ∷ e) = as_dns e
as_dns (other_error ∷ e) = as_dns e

unfoldable pub as_op : DialError → Option Bool
as_op [] = none
as_op (dns_error not_found timeout ∷ e) = as_op e
as_op (op_error timeout ∷ e) = some timeout
as_op (other_error ∷ e) = as_op e

abbrev code_of_op : Option Bool → ℕ
code_of_op (some true) = ack_code_connect_timeout
code_of_op _ = ack_code_unknown_error

abbrev pub code_of_dns : Option (Bool × Bool) → Option Bool → ℕ
code_of_dns none op = code_of_op op
code_of_dns (some (true, timeout)) op = ack_code_no_such_host
code_of_dns (some (false, true)) op = ack_code_resolve_timeout
code_of_dns (some (false, false)) op = code_of_op op

unfoldable pub ack_code_from_err : DialError → ℕ
unfolding as_dns as_op
ack_code_from_err e = code_of_dns (as_dns e) (as_op e)

-- What a handler does: it dials an address on a network, writes to the client, hands both
-- connections to the proxy of a protocol, with what the client's stream still holds, and closes the
-- client's connection. To close the connection that a dial opened would be an action of its own.
pub data Action : Type 0 where
  dialed : Bytes → Bytes → Action
  wrote : Bytes → Action
  proxied : ℕ → Bytes → Reader → Action
  closed upstream_closed : Action

-- The client's connection: what its reads will meet and which writes will succeed (none, where no
-- answer is left), and what was done so far.
pub record Session : Type 0 where
  pub reader : Reader
  pub writable : List Bool
  pub actions : List Action

abbrev pub log : Action → Session → Session
log a s = record s { actions = s.actions ++ a ∷ [] }

abbrev pub write_to : Bytes → List Bool → Session → Bool × Session
write_to b [] s = (false, s)
write_to b (false ∷ ws) s = (false, record s { writable = ws })
write_to b (true ∷ ws) s = (true, log (wrote b) (record s { writable = ws }))

-- `true` when the write succeeds.
unfoldable pub write_ack : Acknowledgement → Session → Bool × Session
write_ack ack s = write_to (ack_marshal ack) s.writable s

abbrev pub ack : ℕ → Acknowledgement
ack c = record { code = c }

-- `dial` stands for `DialContext` on a network and an address, `ip_text` for `String` of net.IP.
module _ (dial : Bytes → Bytes → Option DialError) (ip_text : Bytes → Bytes) where
  abbrev pub destination : Header → Bytes
  destination h = join_host_port (addr_string ip_text h.addr) h.port

  abbrev pub start_proxy : Header → Bool × Session → Session
  start_proxy h (false, s) = s
  start_proxy h (true, s) = log (proxied h.protocol h.request_id s.reader) s

  abbrev pub after_dial : Header → Option DialError → Session → Session
  after_dial h (some e) s = (write_ack (ack (ack_code_from_err e)) s).1
  after_dial h none s = start_proxy h (write_ack (ack ack_code_ok) s)

  -- The branch of TCP, and that of UDP.
  unfoldable pub forward : Bytes → Header → Session → Session
  unfolding write_ack
  forward network h s =
      after_dial h (dial network (destination h)) (log (dialed network (destination h)) s)

  unfoldable pub serve : Header → Session → Session
  unfolding write_ack
  serve h s =
      if h.protocol == protocol_tcp
      then forward (codes "tcp") h s
      else if h.protocol == protocol_udp
      then forward (codes "udp") h s
      else if h.protocol == protocol_keepalive
      then s
      else (write_ack (ack ack_code_unknown_protocol) s).1

  abbrev pub after_header : Session → Result HeaderError Header × Reader → Session
  after_header s (err e, r) = record s { reader = r }
  after_header s (ok h, r) = serve h (record s { reader = r })

  unfoldable pub handle_conn : Session → Session
  handle_conn s = log closed (after_header s (from_reader s.reader))
