-- ===== src/Client/Tunnel.antt =====
-- The opening of a stream to the server, which handleTCPConn of cmd/client/tcp.go and handleUDPConn
-- of cmd/client/udp.go share but for the protocol: createStream, the header, the acknowledgement.
pub mod EndToEnd
use krelay.Prelude.{
  ℕ, Bool, true, false, List, [], ◌∷◌, ◌++◌, ◌==◌, Bytes, Option, none, some, Result, ok, err,
  if◌then◌else◌,
}
use krelay.Prelude.Stateful.{Prog, returns, throws, ◌>>=◌, ◌>>◌}
use krelay.Golib.Reader.{ReadError, Reader}
use krelay.Xio.{Writer, write_full, Written}
use krelay.Xnet.Addr.{AddrPort}
use krelay.Xnet.Header.{Header, marshal}
use krelay.Xnet.Ack.{Acknowledgement, ack_from_reader, ack_code_ok}

-- The data stream: how its writes will go, what its reads will meet, and what was written.
pub record Stream : Type 0 where
  pub writer : Writer
  pub reader : Reader
  pub written : List Bytes

pub data TunnelError : Type 0 where
  create_error_stream create_data_stream write_header : TunnelError
  receive_ack : ReadError → TunnelError
  not_connected : ℕ → TunnelError

abbrev pub Opens : Type 0 → Type 0
Opens A = Prog Stream TunnelError A

-- `hdr` of the two handlers; the version is the zero value.
abbrev pub request : Bytes → ℕ → AddrPort → Header
request request_id protocol to = record {
  version = 0;
  request_id = request_id;
  protocol = protocol;
  port = to.port;
  addr = to.addr;
}

abbrev pub after_write : Stream → Written → Result TunnelError (Unit {0}) × Stream
after_write s w = (
  if w.error then err write_header else ok tt,
  record s { writer = w.writer; written = s.written ++ w.writes },
)

unfoldable pub send_header : Header → Opens (Unit {0})
send_header h s = after_write s (write_full s.writer (marshal h))

abbrev pub after_ack :
    Stream → Result ReadError Acknowledgement × Reader → Result TunnelError Acknowledgement × Stream
after_ack s (ok a, r) = (ok a, record s { reader = r })
after_ack s (err e, r) = (err (receive_ack e), record s { reader = r })

unfoldable pub receive : Opens Acknowledgement
receive s = after_ack s (ack_from_reader s.reader)

unfoldable pub check_code : ℕ → Opens (Unit {0})
check_code c = if c == ack_code_ok then returns tt else throws (not_connected c)

-- On a stream that was created.
unfoldable pub open_tunnel : Header → Opens (Unit {0})
open_tunnel h = do send_header h; ack ← receive; check_code ack.code

-- createStream, by what its two calls of `CreateStream` return: the error stream is created first,
-- and closed by the client, which does not write to it.
unfoldable pub create_stream : Bool → Option (Writer × Reader) → Result TunnelError Stream
create_stream false data_stream = err create_error_stream
create_stream true none = err create_data_stream
create_stream true (some (w, r)) = ok (record { writer = w; reader = r; written = [] })
