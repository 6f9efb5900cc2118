-- ===== src/Ports/Parser.antt =====
-- `Parser.Parse` and `parsePort` of pkg/ports/parser.go, and PortPair of pair.go.
pub mod Pairs
pub mod Named
pub mod Format
use krelay.Prelude.{
  ℕ, zero, suc, ◌+◌, ◌-◌, Bool, true, false, List, [], ◌∷◌, ◌++◌, ◌||◌, Option, none, some,
  if◌then◌else◌, ltb, Bytes, codes, equal, length, take, drop, Result, ok, err, ◌>>=◌,
}
use krelay.Golib.Text.{index_of, split}
use krelay.Golib.Strconv.{parse_uint16}
use krelay.Kube.Object.{Object}
use krelay.Ports.Object.{
  PortWithProtocol, PortsInObject, no_ports, named, numbered, get_ports_from_object,
}

pub record PortPair : Type 0 where
  pub local_port : ℕ
  pub remote_port : ℕ
  pub protocol : Bytes

pub data ParseError : Type 0 where
  unknown_object : ParseError
  unknown_protocol invalid_port_format invalid_port port_name_not_found : Bytes → ParseError
  ambiguous_protocol : ℕ → List Bytes → ParseError

abbrev pub protocol_tcp : Bytes
protocol_tcp = codes "tcp"

abbrev pub protocol_udp : Bytes
protocol_udp = codes "udp"

abbrev or_invalid : Bytes → Option ℕ → Result ParseError ℕ
or_invalid s none = err (invalid_port s)
or_invalid s (some n) = ok n

unfoldable pub parse_port : Bytes → Result ParseError ℕ
parse_port s = or_invalid s (parse_uint16 s)

-- The argument without its protocol, and the protocol, which may be empty.
abbrev pub known_protocol : Bytes → Bytes → Result ParseError (Bytes × Bytes)
known_protocol arg proto =
    if equal proto protocol_tcp || equal proto protocol_udp
    then ok (arg, proto)
    else err (unknown_protocol proto)

abbrev cut_protocol : Bytes → Option ℕ → Result ParseError (Bytes × Bytes)
cut_protocol arg none = ok (arg, [])
cut_protocol arg (some zero) = ok (arg, [])
cut_protocol arg (some (suc i)) =
    if ltb (suc i) (length arg - 1)
    then known_protocol (take (suc i) arg) (drop (suc (suc i)) arg)
    else ok (take (suc i) arg, [])

unfoldable pub split_protocol : Bytes → Result ParseError (Bytes × Bytes)
split_protocol arg = cut_protocol arg (index_of b'@' arg)

-- The local part, which is empty if there is none, and the remote part.
abbrev local_or_zero : Bytes → Bytes
local_or_zero [] = codes "0"
local_or_zero (c ∷ s) = c ∷ s

abbrev parts_of : Bytes → List Bytes → Result ParseError (Bytes × Bytes)
parts_of arg (remote ∷ []) = ok ([], remote)
parts_of arg (local ∷ remote ∷ []) = ok (local_or_zero local, remote)
parts_of arg _ = err (invalid_port_format arg)

unfoldable pub split_ports : Bytes → Result ParseError (Bytes × Bytes)
split_ports arg = parts_of arg (split arg b':')

-- `enforceProtocol` is `len(proto) > 0`.
abbrev pub prefer : Bytes → Bytes → Bytes
prefer [] other = other
prefer (c ∷ proto) other = c ∷ proto

-- The remote port and the protocol of a name.
abbrev of_name : Bytes → Bytes → Option PortWithProtocol → Result ParseError (ℕ × Bytes)
of_name remote proto none = err (port_name_not_found remote)
of_name remote proto (some p) = ok (p.port, prefer proto p.protocol)

-- `protos[0]`, unless there are several.
abbrev of_protocols : ℕ → Option (List Bytes) → Result ParseError (ℕ × Bytes)
of_protocols port none = ok (port, [])
of_protocols port (some []) = ok (port, [])
of_protocols port (some (p ∷ [])) = ok (port, p)
of_protocols port (some (p ∷ q ∷ ps)) = err (ambiguous_protocol port (p ∷ q ∷ ps))

-- The remote port and the protocol of a number.
abbrev of_number : ℕ → Bytes → Option PortsInObject → Result ParseError (ℕ × Bytes)
of_number port (c ∷ proto) all = ok (port, c ∷ proto)
of_number port [] none = ok (port, [])
of_number port [] (some all) = of_protocols port (numbered port all.protocols)

abbrev by_name : Bytes → Bytes → Option PortsInObject → ParseError → Result ParseError (ℕ × Bytes)
by_name remote proto none e = err e
by_name remote proto (some all) e = of_name remote proto (named remote all.names)

abbrev remote_of :
    Bytes → Bytes → Option PortsInObject → Result ParseError ℕ → Result ParseError (ℕ × Bytes)
remote_of remote proto all (err e) = by_name remote proto all e
remote_of remote proto all (ok port) = of_number port proto all

unfoldable pub resolve_remote : Option PortsInObject → Bytes → Bytes → Result ParseError (ℕ × Bytes)
unfolding parse_port
resolve_remote all proto remote = remote_of remote proto all (parse_port remote)

unfoldable pub resolve_local : Bytes → ℕ → Result ParseError ℕ
unfolding parse_port
resolve_local [] remote = ok remote
resolve_local (c ∷ s) remote = parse_port (c ∷ s)

-- One round of the loop of `Parse`.
unfoldable pub parse_arg : Option PortsInObject → Bytes → Result ParseError PortPair
parse_arg all arg = do
  (spec, proto) ← split_protocol arg
  (local, remote) ← split_ports spec
  (remote_port, remote_proto) ← resolve_remote all proto remote
  local_port ← resolve_local local remote_port
  ok (record {
    local_port = local_port;
    remote_port = remote_port;
    protocol = prefer remote_proto protocol_tcp;
  })

unfoldable pub parse_args : Option PortsInObject → List Bytes → Result ParseError (List PortPair)
parse_args all [] = ok []
parse_args all (arg ∷ args) = do
  pair ← parse_arg all arg
  pairs ← parse_args all args
  ok (pair ∷ pairs)

abbrev with_ports : Result (Unit {0}) PortsInObject → Result ParseError (Option PortsInObject)
with_ports (err _) = err unknown_object
with_ports (ok all) = ok (some all)

abbrev pub known_ports : Option Object → Result ParseError (Option PortsInObject)
known_ports none = ok none
known_ports (some obj) = with_ports (get_ports_from_object obj)

-- `Parse` of a parser with these arguments, and with the object if `WithObject` gave one.
unfoldable pub parse : Option Object → List Bytes → Result ParseError (List PortPair)
parse obj args = do all ← known_ports obj; parse_args all args
