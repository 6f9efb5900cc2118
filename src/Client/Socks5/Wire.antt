-- ===== src/Client/Socks5/Wire.antt =====
-- The handshake reads what a SOCKS5 client sends.
use krelay.Prelude.{
  ℕ, ◌≤◌, ◌<◌, ◌≡◌, ◌≢◌, ◌==◌, refl, sym, ap, ◌∙◌, Bool, true, false, List, [], ◌∷◌, ◌++◌, arith,
  Bytes, length, le→ltb, ok, err,
}
use krelay.Prelude.Stateful.{bind_ok, returns, ◌>>=◌}
use krelay.Golib.Endian.{put_uint16, uint16-put_uint16}
use krelay.Golib.Reader.{Reader}
use krelay.Golib.Reader.Laws.{available, read_exactly_enough}
use krelay.Xnet.Addr.{Addr, addr_port_from, addr_from_bytes, addr_type_ip, addr_type_host}
use krelay.Client.Socks5.{
  Conn, read_error, read_bytes, read_uint16, read_string, write, write_and_fail, method_reply,
  reply, read_addr, answer, socks5_handshake, unsupported_command,
}

-- A connection from which these bytes can be read.
abbrev pub Holds : Conn → Bytes → Type 0
Holds c b = available c.reader ≡ b

-- The connection with another reader.
abbrev pub at_reader : Conn → Reader → Conn
at_reader c r = record c { reader = r }

pub read_bytes-Holds :
    (n : ℕ) (xs ys : Bytes) (c : Conn)
    → n ≡ length xs
    → n ≤ 256
    → Holds c (xs ++ ys)
    → (r : Reader) × (read_bytes n c ≡ (ok xs, at_reader c r)) × (available r ≡ ys)
unfolding read_bytes
read_bytes-Holds n xs ys c size fits h =
    let (r, ran, left, _) = read_exactly_enough read_error n c.reader xs ys h size in
    (r, rw (le→ltb 256 n fits, ran) refl, left)

pub read_uint16-Holds :
    (port : ℕ) (ys : Bytes) (c : Conn)
    → port < 65536
    → Holds c (put_uint16 port ++ ys)
    → (r : Reader) × (read_uint16 c ≡ (ok port, at_reader c r)) × (available r ≡ ys)
unfolding read_uint16
read_uint16-Holds port ys c fits h =
    let (r, ran, left) = read_bytes-Holds 2 (put_uint16 port) ys c refl (omega arith) h in
    (
      r,
      bind_ok (read_bytes 2) _ ran
          ∙ ap (λ p. (ok p, at_reader c r)) (uint16-put_uint16 port [] fits),
      left,
    )

-- Where a request wants to go.
pub data Destination : Type 0 where
  ipv4 ipv6 domain : Bytes → Destination

abbrev pub IsDestination : Destination → Type 0
IsDestination (ipv4 b) = length b ≡ 4
IsDestination (ipv6 b) = length b ≡ 16
IsDestination (domain b) = length b < 256

-- ATYP and DST.ADDR of RFC 1928.
abbrev pub encode_type : Destination → ℕ
encode_type (ipv4 b) = 1
encode_type (ipv6 b) = 4
encode_type (domain b) = 3

abbrev pub encode_address : Destination → Bytes
encode_address (ipv4 b) = b
encode_address (ipv6 b) = b
encode_address (domain b) = length b ∷ b

abbrev pub addr_of : Destination → Addr
addr_of (ipv4 b) = addr_from_bytes addr_type_ip b
addr_of (ipv6 b) = addr_from_bytes addr_type_ip b
addr_of (domain b) = addr_from_bytes addr_type_host b

pub read_addr-Holds :
    (d : Destination) (ys : Bytes) (c : Conn)
    → IsDestination d
    → Holds c (encode_address d ++ ys)
    → (r : Reader) × (read_addr (encode_type d) c ≡ (ok (addr_of d), at_reader c r))
      × (available r ≡ ys)
unfolding read_addr
read_addr-Holds (ipv4 b) ys c size h =
    let (r, ran, left) = read_bytes-Holds 4 b ys c (sym size) (omega arith) h in
    (r, bind_ok (read_bytes 4) _ ran, left)
read_addr-Holds (ipv6 b) ys c size h =
    let (r, ran, left) = read_bytes-Holds 16 b ys c (sym size) (omega arith) h in
    (r, bind_ok (read_bytes 16) _ ran, left)
read_addr-Holds (domain b) ys c size h =
    let one : Bytes = length b ∷ [] in
    let (r, ran, left) = read_bytes-Holds 1 one (b ++ ys) c refl (omega arith) h in
    let (r2, ran2, left2) =
      read_bytes-Holds (length b) b ys (at_reader c r) refl (omega arith) left in
    let text : read_string c ≡ (ok b, at_reader c r2) =
      unfold read_string in (bind_ok (read_bytes 1) _ ran ∙ ran2) in
    (r2, bind_ok read_string _ text, left2)

-- What a client sends: a greeting with its methods, and a request behind it.
abbrev pub greeting : ℕ → Bytes → Bytes → Bytes
greeting version methods rest = version ∷ length methods ∷ (methods ++ rest)

abbrev pub request : ℕ → ℕ → ℕ → Destination → ℕ → Bytes → Bytes
request version cmd reserved d port rest =
    version ∷ cmd ∷ reserved ∷ encode_type d ∷ (encode_address d ++ (put_uint16 port ++ rest))

module _ (v1 v2 cmd reserved port : ℕ) (methods rest : Bytes) (d : Destination)
    (few : length methods < 256) (dest : IsDestination d) (fits : port < 65536) (r : Reader)
    (ws : List Bool) (rs : List Bytes)
    (sends : available r ≡ greeting v1 methods (request v2 cmd reserved d port rest)) where
  abbrev pub start : Conn
  start = record { reader = r; writable = true ∷ ws; replies = rs }

  -- All that the client sent is read, and the answer to its command is next.
  handshake_read :
      (r' : Reader) × (socks5_handshake start
        ≡ (answer cmd >>= λ _. returns (addr_port_from (addr_of d) port))
            (record { reader = r'; writable = ws; replies = rs ++ method_reply ∷ [] }))
      × (available r' ≡ rest)
  unfolding socks5_handshake
  handshake_read =
      let head : Bytes = v1 ∷ length methods ∷ [] in
      let opening : Bytes = v2 ∷ cmd ∷ reserved ∷ [] in
      let typ : Bytes = encode_type d ∷ [] in
      let after = request v2 cmd reserved d port rest in
      let (r1, ran1, left1) =
        read_bytes-Holds 2 head (methods ++ after) start refl (omega arith) sends in
      let (r2, ran2, left2) =
        read_bytes-Holds (length methods) methods after (at_reader start r1) refl (omega arith)
          left1 in
      let c2 : Conn = record { reader = r2; writable = ws; replies = rs ++ method_reply ∷ [] } in
      let wrote : write method_reply (at_reader start r2) ≡ (ok tt, c2) = unfold write in refl in
      let target = encode_address d ++ (put_uint16 port ++ rest) in
      let (r3, ran3, left3) =
        read_bytes-Holds 3 opening (encode_type d ∷ target) c2 refl (omega arith) left2 in
      let (r4, ran4, left4) =
        read_bytes-Holds 1 typ target (at_reader c2 r3) refl (omega arith) left3 in
      let (r5, ran5, left5) =
        read_addr-Holds d (put_uint16 port ++ rest) (at_reader c2 r4) dest left4 in
      let (r6, ran6, left6) = read_uint16-Holds port rest (at_reader c2 r5) fits left5 in
      (
        r6,
        bind_ok (read_bytes 2) _ ran1
            ∙ bind_ok (read_bytes (length methods)) _ ran2
            ∙ bind_ok (write method_reply) _ wrote
            ∙ bind_ok (read_bytes 3) _ ran3
            ∙ bind_ok (read_bytes 1) _ ran4
            ∙ bind_ok (read_addr (encode_type d)) _ ran5
            ∙ bind_ok read_uint16 _ ran6,
        left6,
      )

  -- A well-formed CONNECT request gives the destination that it names, leaves what follows it
  -- unread, and is answered by the two success replies, if both writes succeed.
  pub socks5_handshake-connect :
      (ws' : List Bool)
      → cmd ≡ 1
      → ws ≡ true ∷ ws'
      → (r' : Reader) × (socks5_handshake start ≡ (
        ok (addr_port_from (addr_of d) port),
        record { reader = r'; writable = ws'; replies = (rs ++ method_reply ∷ []) ++ reply 0 ∷ [] },
      ))
        × (available r' ≡ rest)
  unfolding answer write
  socks5_handshake-connect ws' connect writes =
      let (r', ran, left) = handshake_read in (r', ran ∙ rw (connect, writes) refl, left)

  -- Any other command is refused by reply 7 once the whole request is read.
  pub socks5_handshake-refuse :
      (ws' : List Bool)
      → cmd ≢ 1
      → ws ≡ true ∷ ws'
      → (r' : Reader) × (socks5_handshake start ≡ (
        err (unsupported_command cmd),
        record { reader = r'; writable = ws'; replies = (rs ++ method_reply ∷ []) ++ reply 7 ∷ [] },
      ))
        × (available r' ≡ rest)
  unfolding answer write_and_fail
  socks5_handshake-refuse ws' other writes =
      let (r', ran, left) = handshake_read in
      let differs : (cmd == 1) ≡ false = ground arith in (r', ran ∙ rw (differs, writes) refl, left)
