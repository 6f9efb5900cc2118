-- ===== src/Tests/Ports.antt =====
-- Port specifications.
use mathlib.Core.List.{flatten}
use krelay.Prelude.{
  ℕ, ◌≡◌, refl, List, [], ◌∷◌, none, some, arith, Bytes, codes, equal, ok, All, length, map, inl,
  inr,
}
use krelay.Kube.Object.{ObjectPort, PodSpec, Object, pod}
use krelay.Ports.Object.{named, numbered, get_ports_from_pod_spec, get_ports_from_object}
use krelay.Ports.Object.Lookup.{protocols_at, last_named, extend, get_ports_from_pod_spec_lem}
use krelay.Ports.Parser.{
  PortPair, parse, parse_arg, split_protocol, split_ports, resolve_remote, resolve_local,
  parse_args,
}
use krelay.Ports.Parser.Pairs.{IsPair, parse-IsPair}
use krelay.Ports.Parser.Format.{format_pair, parse-format_pair}
use krelay.Ports.Parser.Named.{of_ports_at, of_port_named, parse_arg-itoa, parse_arg-name}
use krelay.Golib.Strconv.{itoa, parse_uint16}
use krelay.Golib.Text.{to_lower, index_of, split}

abbrev object_port : Bytes → ℕ → Bytes → ObjectPort
object_port name port protocol = record { name = name; port = port; protocol = protocol }

abbrev dns : PodSpec
dns = record {
  containers =
      (object_port (codes "dns-tcp") 53 (codes "TCP")
        ∷ object_port (codes "http") 80 (codes "TCP")
        ∷ [])
      ∷ (object_port (codes "dns") 53 (codes "UDP")
          ∷ object_port (codes "dns") 54 (codes "UDP")
          ∷ [])
      ∷ [];
}

abbrev dns_pod : Object
dns_pod = pod (record { pod_spec = dns; pod_ip = codes "10.0.0.1" })

abbrev pair : ℕ → ℕ → Bytes → PortPair
pair l r p = record { local_port = l; remote_port = r; protocol = p }

abbrev specs : List Bytes
specs = codes "8080:http" ∷ codes ":54" ∷ codes "53@udp" ∷ codes "80@" ∷ []

abbrev pairs : List PortPair
pairs =
    pair 8080 80 (codes "tcp")
    ∷ pair 0 54 (codes "udp")
    ∷ pair 53 53 (codes "udp")
    ∷ pair 80 80 (codes "tcp")
    ∷ []

parse_all : parse (some dns_pod) specs ≡ ok pairs
unfolding parse parse_args get_ports_from_object parse_arg split_protocol split_ports resolve_remote
    resolve_local named numbered equal index_of split parse_uint16 to_lower
parse_all = refl

parse-IsPair_run : All IsPair pairs × (length pairs ≡ length specs)
parse-IsPair_run = parse-IsPair (some dns_pod) specs parse_all

abbrev printable : List PortPair
printable = pair 8080 80 (codes "tcp") ∷ pair 0 65535 (codes "udp") ∷ []

format_printable : map format_pair printable ≡ codes "8080:80@tcp" ∷ codes "0:65535@udp" ∷ []
unfolding itoa
format_printable = refl

parse-format_pair_example : parse (some dns_pod) (map format_pair printable) ≡ ok printable
parse-format_pair_example =
    parse-format_pair (some dns_pod) printable {all = some (get_ports_from_pod_spec dns)}
      (unfold get_ports_from_object in refl)
      ((omega arith, omega arith, inl refl), ((omega arith, omega arith, inr refl), tt))

ambiguous_53 : protocols_at 53 (flatten dns.containers) ≡ codes "tcp" ∷ codes "udp" ∷ []
unfolding flatten to_lower
ambiguous_53 = refl

parse_arg-itoa_run :
    parse_arg (some (get_ports_from_pod_spec dns)) (itoa 53)
    ≡ of_ports_at 53 (protocols_at 53 (flatten dns.containers))
parse_arg-itoa_run = parse_arg-itoa dns 53 (omega arith)

parse_arg-name_run :
    parse_arg (some (get_ports_from_pod_spec dns)) (codes "dns")
    ≡ of_port_named (codes "dns") (last_named (codes "dns") none (flatten dns.containers))
unfolding parse_uint16
parse_arg-name_run = parse_arg-name dns (codes "dns") refl (omega arith) (omega arith)

get_ports_from_pod_spec_example :
    (numbered 53 (get_ports_from_pod_spec dns).protocols
      ≡ extend none (protocols_at 53 (flatten dns.containers)))
    × (named (codes "dns") (get_ports_from_pod_spec dns).names
        ≡ last_named (codes "dns") none (flatten dns.containers))
get_ports_from_pod_spec_example = get_ports_from_pod_spec_lem dns 53 (codes "dns")
