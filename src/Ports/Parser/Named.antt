-- ===== src/Ports/Parser/Named.antt =====
-- Arguments without a local port and a protocol, resolved on a pod's ports.
use mathlib.Core.List.{flatten}
use krelay.Prelude.{
  ℕ, ◌≤◌, ◌≡◌, List, [], ◌∷◌, Option, none, some, arith, Bytes, ok, err, Result, Lacks,
}
use krelay.Golib.Text.Laws.{index_of-Lacks, split-Lacks}
use krelay.Golib.Strconv.{parse_uint16, itoa, max_uint16}
use krelay.Golib.Strconv.Decimal.{parse_uint16-itoa}
use krelay.Kube.Object.{PodSpec}
use krelay.Ports.Object.{PortWithProtocol, get_ports_from_pod_spec}
use krelay.Ports.Object.Lookup.{protocols_at, last_named, get_ports_from_pod_spec_lem}
use krelay.Ports.Parser.{
  PortPair, ParseError, port_name_not_found, ambiguous_protocol, protocol_tcp, split_protocol,
  split_ports, resolve_remote, resolve_local, prefer, parse_arg,
}
use krelay.Ports.Parser.Format.{itoa-Lacks}

abbrev same_ports : ℕ → Bytes → PortPair
same_ports n proto = record {
  local_port = n;
  remote_port = n;
  protocol = prefer proto protocol_tcp;
}

-- The pair of a number that so many ports have.
abbrev pub of_ports_at : ℕ → List Bytes → Result ParseError PortPair
of_ports_at n [] = ok (same_ports n [])
of_ports_at n (p ∷ []) = ok (same_ports n p)
of_ports_at n (p ∷ q ∷ ps) = err (ambiguous_protocol n (p ∷ q ∷ ps))

-- The pair of a name.
abbrev pub of_port_named : Bytes → Option PortWithProtocol → Result ParseError PortPair
of_port_named s none = err (port_name_not_found s)
of_port_named s (some p) = ok (same_ports p.port p.protocol)

module _ (spec : PodSpec) where
  -- A decimal number with neither a local port nor a protocol forwards that port to itself: by tcp if
  -- no port of the pod has the number, by the port's own protocol (tcp if that is empty) if one has
  -- it, and not at all if several have it, even with the same protocol.
  pub parse_arg-itoa :
      (n : ℕ)
      → n ≤ max_uint16
      → parse_arg (some (get_ports_from_pod_spec spec)) (itoa n)
        ≡ of_ports_at n (protocols_at n (flatten spec.containers))
  unfolding parse_arg split_protocol split_ports resolve_remote resolve_local
  parse_arg-itoa n fits =
      let no_at = itoa-Lacks n b'@' fits (omega arith) in
      let no_colon = itoa-Lacks n b':' fits (omega arith) in
      rw
        (
          index_of-Lacks b'@' (itoa n) no_at,
          split-Lacks (itoa n) b':' no_colon,
          parse_uint16-itoa n fits,
          (get_ports_from_pod_spec_lem spec n []).0,
        )
        (ground arith)

  -- A text that is no decimal uint16 and holds neither `@` nor `:` is the name of a port: the last
  -- port of the pod with that name is forwarded to itself by its own protocol, or by tcp if that is
  -- empty, and without such a port the argument is refused.
  pub parse_arg-name :
      (s : Bytes)
      → parse_uint16 s ≡ none
      → Lacks b'@' s
      → Lacks b':' s
      → parse_arg (some (get_ports_from_pod_spec spec)) s
        ≡ of_port_named s (last_named s none (flatten spec.containers))
  unfolding parse_arg split_protocol split_ports resolve_remote resolve_local
  parse_arg-name s no_number no_at no_colon =
      rw
        (
          index_of-Lacks b'@' s no_at,
          split-Lacks s b':' no_colon,
          no_number,
          (get_ports_from_pod_spec_lem spec 0 s).1,
        )
        (ground arith)
