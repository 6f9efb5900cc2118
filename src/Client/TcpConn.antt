-- ===== src/Client/TcpConn.antt =====
-- handleTCPConn of cmd/client/tcp.go, and handleSOCKS5Conn of cmd/client/command_proxy.go.
pub mod Connect
use krelay.Prelude.{
  ℕ, Bool, true, false, List, [], ◌∷◌, ◌++◌, Option, none, some, Bytes, Result, ok, err,
}
use krelay.Golib.Reader.{Reader}
use krelay.Xio.{Writer}
use krelay.Xnet.Addr.{AddrPort, protocol_tcp}
use krelay.Xnet.Header.{Header}
use krelay.Xnet.RequestId.{new_request_id}
use krelay.Client.Socks5.{Conn, HandshakeError, socks5_handshake}
use krelay.Client.Tunnel.{Stream, TunnelError, request, create_stream, open_tunnel}

-- What the two calls of `CreateStream` return: whether the error stream was created, and the data
-- stream.
pub record Created : Type 0 where
  pub error_stream : Bool
  pub data_stream : Option (Writer × Reader)

-- How a handler ends: with an error before any data was copied, or with the two copies running,
-- between the local connection and a stream. Each handler closes the local connection then.
pub data Outcome : Type 0 where
  failed : TunnelError → Outcome
  copied : Stream → Outcome

abbrev pub after_open : Result TunnelError (Unit {0}) × Stream → Outcome
after_open (err e, s) = failed e
after_open (ok _, s) = copied s

abbrev pub on_stream : Header → Result TunnelError Stream → Outcome
on_stream h (err e) = failed e
on_stream h (ok s) = after_open (open_tunnel h s)

-- A handler by its protocol: that of handleTCPConn, and the same of handleUDPConn.
unfoldable pub open_stream : ℕ → (ℕ → ℕ) → AddrPort → Created → Outcome
unfolding new_request_id create_stream
open_stream protocol draw to c =
    on_stream (request (new_request_id draw) protocol to)
      (create_stream c.error_stream c.data_stream)

unfoldable pub handle_tcp_conn : (ℕ → ℕ) → AddrPort → Created → Outcome
unfolding open_stream
handle_tcp_conn draw to c = open_stream protocol_tcp draw to c

pub data SocksOutcome : Type 0 where
  no_handshake : HandshakeError → SocksOutcome
  handled : Conn → Outcome → SocksOutcome

abbrev pub after_handshake :
    (ℕ → ℕ) → Created → Result HandshakeError AddrPort × Conn → SocksOutcome
after_handshake draw c (err e, conn) = no_handshake e
after_handshake draw c (ok to, conn) = handled conn (handle_tcp_conn draw to c)

unfoldable pub handle_socks5_conn : (ℕ → ℕ) → Created → Conn → SocksOutcome
unfolding handle_tcp_conn
handle_socks5_conn draw c conn = after_handshake draw c (socks5_handshake conn)
