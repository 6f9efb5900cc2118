-- ===== src/Client/Forwarders.antt =====
-- `Run` of cmd/client/main.go up to the start of the server's job: the targets, and a forwarder for
-- each of their port pairs; and `listen` of cmd/client/forwarder.go.
pub mod Pairs
use krelay.Prelude.{
  ℕ, Bool, true, false, List, [], ◌∷◌, ◌++◌, Option, none, some, Bytes, codes, equal, if◌then◌else◌,
  Result, ok, err, ◌>>=◌, ◌>>◌, map, ltb, length, not, ◌||◌,
}
use krelay.Golib.Text.{split}
use krelay.Golib.Net.{join_host_port}
use krelay.Xnet.Addr.{addr_from_ip, addr_from_host}
use krelay.Kube.Object.{Object}
use krelay.Ports.Parser.{PortPair, ParseError, parse, protocol_tcp, protocol_udp}
use krelay.RemoteAddr.Getter.{
  Cluster, Getter, GetterError, static_addr, addr_getter_for_object, static_of,
}
use krelay.Client.Targets.{Target, FieldError, validate_fields}

pub record PortForwarder : Type 0 where
  pub addr_getter : Getter
  pub ports : PortPair
  pub listen_addr : Bytes

pub data RunError : Type 0 where
  getter_error : GetterError → RunError
  parse_error : ParseError → RunError
  no_object index_out_of_range : RunError

-- The getter of a target, and the object that the parser knows.
abbrev pub Resolved : Type 0
Resolved = Getter × Option Object

abbrev pub with_object : Option Object → Result GetterError Getter → Result RunError Resolved
with_object o (ok g) = ok (g, o)
with_object o (err e) = err (getter_error e)

abbrev pub of_pairs :
    Getter → Bytes → Result ParseError (List PortPair) → Result RunError (List PortForwarder)
of_pairs g lis_addr (err e) = err (parse_error e)
of_pairs g lis_addr (ok pairs) =
    ok (map (λ pp. record { addr_getter = g; ports = pp; listen_addr = lis_addr }) pairs)

module _ (c : Cluster) where
  abbrev pub ip_target : List Bytes → Result RunError Resolved
  ip_target (kind ∷ address ∷ parts) =
      with_object none (static_of (addr_from_ip c.parse_ip address))
  ip_target _ = err index_out_of_range

  abbrev pub host_target : List Bytes → Result RunError Resolved
  host_target (kind ∷ host ∷ parts) = ok (static_addr (addr_from_host host), none)
  host_target _ = err index_out_of_range

  abbrev pub object_target : Bytes → Option Object → Result RunError Resolved
  object_target ns none = err no_object
  object_target ns (some obj) = with_object (some obj) (addr_getter_for_object c ns obj)

  -- The switch on the first part of the resource.
  abbrev pub by_kind : Target → List Bytes → Result RunError Resolved
  by_kind t [] = err index_out_of_range
  by_kind t (kind ∷ parts) =
      if equal kind (codes "ip")
      then ip_target (kind ∷ parts)
      else if equal kind (codes "host")
      then host_target (kind ∷ parts)
      else object_target t.namespace (c.find_object t.namespace t.resource)

  unfoldable pub resolve : Target → Result RunError Resolved
  unfolding addr_getter_for_object split equal
  resolve t = by_kind t (split t.resource b'/')

  -- One round of the loop over the targets.
  unfoldable pub forward_target : Target → Result RunError (List PortForwarder)
  forward_target t = do (g, o) ← resolve t; of_pairs g t.lis_addr (parse o t.ports)

  unfoldable pub port_forwarders : List Target → Result RunError (List PortForwarder)
  port_forwarders [] = ok []
  port_forwarders (t ∷ ts) = do
    here ← forward_target t
    more ← port_forwarders ts
    ok (here ++ more)

-- The address that `listen` binds, on the network of the protocol; another protocol is an error.
unfoldable pub listen : PortForwarder → Option (Bytes × Bytes)
listen p =
    if equal p.ports.protocol protocol_tcp
    then some (protocol_tcp, join_host_port p.listen_addr p.ports.local_port)
    else if equal p.ports.protocol protocol_udp
    then some (protocol_udp, join_host_port p.listen_addr p.ports.local_port)
    else none
