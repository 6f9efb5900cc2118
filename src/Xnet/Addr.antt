-- ===== src/Xnet/Addr.antt =====
-- pkg/xnet/addr.go and proto.go. `parse_ip` stands for `net.ParseIP`, which gives the 16-byte form.
use krelay.Prelude.{
  ℕ, Bool, true, false, ◌&&◌, [], ◌∷◌, Option, none, some, ◌==◌, if◌then◌else◌, Bytes, length, take,
  drop, Result, ok, err, equal,
}

-- AddrTypeIP and AddrTypeHost.
abbrev pub addr_type_ip : ℕ
addr_type_ip = 0

abbrev pub addr_type_host : ℕ
addr_type_host = 1

-- ProtocolTCP, ProtocolUDP and ProtocolKeepalive.
abbrev pub protocol_tcp : ℕ
protocol_tcp = 0

abbrev pub protocol_udp : ℕ
protocol_udp = 1

abbrev pub protocol_keepalive : ℕ
protocol_keepalive = 2

pub record Addr : Type 0 where
  pub typ : ℕ
  pub bytes : Bytes

pub record AddrPort : Type 0 where
  pub addr : Addr
  pub port : ℕ

abbrev pub addr_port_from : Addr → ℕ → AddrPort
addr_port_from a p = record { addr = a; port = p }

-- `Addr{}`.
abbrev pub zero_addr : Addr
zero_addr = record { typ = 0; bytes = [] }

abbrev pub addr_marshal : Addr → Bytes
addr_marshal a = a.bytes

-- `String` of Addr; `ip_text` stands for `String` of net.IP.
unfoldable pub addr_string : (Bytes → Bytes) → Addr → Bytes
addr_string ip_text a = if a.typ == addr_type_ip then ip_text a.bytes else a.bytes

abbrev is_nil : Bytes → Bool
is_nil [] = true
is_nil (b ∷ bs) = false

unfoldable pub is_zero : Addr → Bool
is_zero a = is_nil a.bytes

abbrev pub addr_from_bytes : ℕ → Bytes → Addr
addr_from_bytes t b = record { typ = t; bytes = b }

abbrev pub addr_from_host : Bytes → Addr
addr_from_host host = record { typ = addr_type_host; bytes = host }

-- `To4` of net.IP: 4 bytes as they are, and the last 4 of `::ffff:a.b.c.d`.
abbrev v4_in_v6_prefix : Bytes
v4_in_v6_prefix = 0 ∷ 0 ∷ 0 ∷ 0 ∷ 0 ∷ 0 ∷ 0 ∷ 0 ∷ 0 ∷ 0 ∷ 255 ∷ 255 ∷ []

unfoldable pub to4 : Bytes → Option Bytes
to4 ip =
    if length ip == 4
    then some ip
    else if (length ip == 16) && equal (take 12 ip) v4_in_v6_prefix
    then some (drop 12 ip)
    else none

abbrev pub or_else : Option Bytes → Bytes → Bytes
or_else none d = d
or_else (some b) d = b

-- AddrFromIP; the error carries the text that is no address.
abbrev pub addr_of_parsed : Bytes → Option Bytes → Result Bytes Addr
addr_of_parsed s none = err s
addr_of_parsed s (some ip) = ok (record { typ = addr_type_ip; bytes = or_else (to4 ip) ip })

unfoldable pub addr_from_ip : (Bytes → Option Bytes) → Bytes → Result Bytes Addr
addr_from_ip parse_ip s = addr_of_parsed s (parse_ip s)
