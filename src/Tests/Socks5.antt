-- ===== src/Tests/Socks5.antt =====
-- SOCKS5 handshakes.
use krelay.Prelude.{ℕ, ◌≡◌, refl, true, [], ◌∷◌, ◌++◌, arith, Bytes, codes, ok, err}
use krelay.Golib.Reader.{Reader, chunk, read_exactly}
use krelay.Golib.Reader.Laws.{available}
use krelay.Xnet.Addr.{addr_port_from}
use krelay.Client.Socks5.{
  Conn, method_reply, reply, socks5_handshake, read_bytes, read_addr, write, write_and_fail,
  unsupported_command,
}
use krelay.Client.Socks5.Wire.{domain, addr_of, socks5_handshake-connect, socks5_handshake-refuse}
use krelay.Client.Socks5.Replies.{Told, socks5_handshake-Told}

-- A greeting with two methods, a request for `a.b:80`, and a byte of the payload.
abbrev bytes_of : ℕ → Bytes
bytes_of cmd = 5 ∷ 2 ∷ 0 ∷ 2 ∷ 5 ∷ cmd ∷ 0 ∷ 3 ∷ 3 ∷ b'a' ∷ b'.' ∷ b'b' ∷ 0 ∷ 80 ∷ 7 ∷ []

abbrev client : ℕ → Reader
client cmd = chunk (bytes_of cmd) ∷ []

socks5_handshake-connect_run :
    (r' : Reader) × (socks5_handshake
        (record { reader = client 1; writable = true ∷ true ∷ []; replies = [] })
      ≡ (
        ok (addr_port_from (addr_of (domain (codes "a.b"))) 80),
        record { reader = r'; writable = []; replies = ([] ++ method_reply ∷ []) ++ reply 0 ∷ [] },
      ))
    × (available r' ≡ 7 ∷ [])
socks5_handshake-connect_run =
    socks5_handshake-connect 5 5 1 0 80 (0 ∷ 2 ∷ []) (7 ∷ []) (domain (codes "a.b")) (omega arith)
      (omega arith) (omega arith) (client 1) (true ∷ []) [] refl [] refl refl

socks5_handshake-refuse_run :
    (r' : Reader) × (socks5_handshake
        (record { reader = client 2; writable = true ∷ true ∷ []; replies = [] })
      ≡ (
        err (unsupported_command 2),
        record { reader = r'; writable = []; replies = ([] ++ method_reply ∷ []) ++ reply 7 ∷ [] },
      ))
    × (available r' ≡ 7 ∷ [])
socks5_handshake-refuse_run =
    socks5_handshake-refuse 5 5 2 0 80 (0 ∷ 2 ∷ []) (7 ∷ []) (domain (codes "a.b")) (omega arith)
      (omega arith) (omega arith) (client 2) (true ∷ []) [] refl [] (omega arith) refl

-- An address type that is not known.
abbrev odd_client : Conn
odd_client = record {
  reader = chunk (5 ∷ 0 ∷ 5 ∷ 1 ∷ 0 ∷ 9 ∷ []) ∷ [];
  writable = true ∷ true ∷ [];
  replies = [];
}

odd_client_refused : (socks5_handshake odd_client).1.replies ≡ method_reply ∷ reply 8 ∷ []
unfolding socks5_handshake read_bytes read_addr read_exactly write write_and_fail
odd_client_refused = refl

socks5_handshake-Told_example : Told [] (socks5_handshake odd_client)
socks5_handshake-Told_example = socks5_handshake-Told odd_client
