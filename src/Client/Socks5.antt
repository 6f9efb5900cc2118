-- ===== src/Client/Socks5.antt =====
-- `socks5Handshake` of cmd/client/command_proxy.go, with the `bytesReader` of cmd/client/utils.go.
-- What `ReadBytes` returns is a slice of the shared buffer; each is used up, or copied by
-- `copyBuffer`, before the next call writes there, so it is a value here.
pub mod Wire
pub mod Replies
use krelay.Prelude.{
  ℕ, Bool, true, false, List, [], ◌∷◌, ◌++◌, Option, none, some, ◌==◌, if◌then◌else◌, ltb, Bytes,
  get_or, Result, ok, err,
}
use krelay.Prelude.Stateful.{Prog, returns, throws, ◌>>=◌, ◌>>◌}
use krelay.Golib.Endian.{uint16}
use krelay.Golib.Reader.{ReadError, Reader, read_exactly}
use krelay.Xnet.Addr.{Addr, AddrPort, addr_port_from, addr_from_bytes, addr_type_ip, addr_type_host}

-- The local connection: what its reads will meet, which of its writes will succeed, and what was
-- written. With no answer left a write fails.
pub record Conn : Type 0 where
  pub reader : Reader
  pub writable : List Bool
  pub replies : List Bytes

-- `out_of_range` is the panic of `b.buf[:n]`.
pub data HandshakeError : Type 0 where
  read_error : ReadError → HandshakeError
  write_error : HandshakeError
  unsupported_address_type : ℕ → HandshakeError
  unsupported_command : ℕ → HandshakeError
  out_of_range : HandshakeError

abbrev pub Handshake : Type 0 → Type 0
Handshake A = Prog Conn HandshakeError A

abbrev pub max_addr_len : ℕ
max_addr_len = 256

abbrev pub on_reader :
    Conn → Result HandshakeError Bytes × Reader → Result HandshakeError Bytes × Conn
on_reader c (x, r) = (x, record c { reader = r })

-- `ReadBytes`.
unfoldable pub read_bytes : ℕ → Handshake Bytes
read_bytes n c =
    if ltb max_addr_len n
    then (err out_of_range, c)
    else on_reader c (read_exactly read_error n c.reader)

-- `ReadUint16`.
unfoldable pub read_uint16 : Handshake ℕ
read_uint16 = do b ← read_bytes 2; returns (uint16 b)

-- `ReadString`.
unfoldable pub read_string : Handshake Bytes
read_string = do b ← read_bytes 1; read_bytes (get_or b 0 0)

abbrev pub write_as : Bytes → List Bool → Conn → Result HandshakeError (Unit {0}) × Conn
write_as b (true ∷ ws) c = (ok tt, record c { writable = ws; replies = c.replies ++ b ∷ [] })
write_as b (false ∷ ws) c = (err write_error, record c { writable = ws })
write_as b [] c = (err write_error, c)

unfoldable pub write : Bytes → Handshake (Unit {0})
write b c = write_as b c.writable c

-- `_, _ = clientConn.Write(…)` before an error is returned.
unfoldable pub write_and_fail : {A : Type 0} → Bytes → HandshakeError → Handshake A
unfolding write
write_and_fail b e c = (err e, (write b c).1)

abbrev pub method_reply : Bytes
method_reply = 5 ∷ 0 ∷ []

-- A reply with this code and an empty IPv4 address.
abbrev pub reply : ℕ → Bytes
reply code = 5 ∷ code ∷ 0 ∷ 1 ∷ 0 ∷ 0 ∷ 0 ∷ 0 ∷ 0 ∷ 0 ∷ []

-- The switch on the address type.
unfoldable pub read_addr : ℕ → Handshake Addr
read_addr typ =
    if typ == 1
    then (read_bytes 4 >>= λ b. returns (addr_from_bytes addr_type_ip b))
    else if typ == 4
    then (read_bytes 16 >>= λ b. returns (addr_from_bytes addr_type_ip b))
    else if typ == 3
    then (read_string >>= λ b. returns (addr_from_bytes addr_type_host b))
    else write_and_fail (reply 8) (unsupported_address_type typ)

-- The switch on the command.
unfoldable pub answer : ℕ → Handshake (Unit {0})
answer cmd =
    if cmd == 1 then write (reply 0) else write_and_fail (reply 7) (unsupported_command cmd)

unfoldable pub socks5_handshake : Handshake AddrPort
socks5_handshake = do
  head ← read_bytes 2
  methods ← read_bytes (get_or head 1 0)
  write method_reply
  request ← read_bytes 3
  typ ← read_bytes 1
  addr ← read_addr (get_or typ 0 0)
  port ← read_uint16
  answer (get_or request 1 0)
  returns (addr_port_from addr port)
