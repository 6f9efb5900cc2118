-- ===== src/Ports/Object.antt =====
-- `getPortsFromObject` and `getPortsFromPodSpec` of pkg/ports/parser.go. A Go map is an association
-- list, the newest entry first.
pub mod Lookup
use krelay.Prelude.{
  ℕ, ◌%◌, ◌≡◌, Bool, true, false, List, [], ◌∷◌, ◌++◌, Option, none, some, ◌==◌, if◌then◌else◌,
  Bytes, equal, Result, ok, err,
}
use krelay.Golib.Endian.{u16}
use krelay.Golib.Text.{to_lower}
use krelay.Kube.Object.{
  ObjectPort, PodSpec, Pod, Service, Workload, Object, pod, service, deployment, stateful_set,
  replica_set, daemon_set, other,
}

pub record PortWithProtocol : Type 0 where
  pub port : ℕ
  pub protocol : Bytes

pub record PortsInObject : Type 0 where
  pub names : List (Bytes × PortWithProtocol)
  pub protocols : List (ℕ × List Bytes)

abbrev pub no_ports : PortsInObject
no_ports = record { names = []; protocols = [] }

-- `m[key]` of a map with names, and of a map with ports.
unfoldable pub named : Bytes → List (Bytes × PortWithProtocol) → Option PortWithProtocol
named k [] = none
named k ((j, v) ∷ m) = if equal j k then some v else named k m

unfoldable pub numbered : ℕ → List (ℕ × List Bytes) → Option (List Bytes)
numbered k [] = none
numbered k ((j, v) ∷ m) = if j == k then some v else numbered k m

-- A missing key reads as the nil slice.
abbrev pub or_nil : Option (List Bytes) → List Bytes
or_nil none = []
or_nil (some ps) = ps

-- One round of the loop over the ports.
unfoldable pub add_port : PortsInObject → ObjectPort → PortsInObject
add_port ret p =
    let po = u16 p.port in
    let proto = to_lower p.protocol in
    record {
      names = (p.name, record { port = po; protocol = proto }) ∷ ret.names;
      protocols = (po, or_nil (numbered po ret.protocols) ++ proto ∷ []) ∷ ret.protocols;
    }

unfoldable pub add_ports : PortsInObject → List ObjectPort → PortsInObject
unfolding add_port
add_ports ret [] = ret
add_ports ret (p ∷ ps) = add_ports (add_port ret p) ps

unfoldable pub add_containers : PortsInObject → List (List ObjectPort) → PortsInObject
unfolding add_ports
add_containers ret [] = ret
add_containers ret (ps ∷ cts) = add_containers (add_ports ret ps) cts

unfoldable pub get_ports_from_pod_spec : PodSpec → PortsInObject
unfolding add_containers
get_ports_from_pod_spec spec = add_containers no_ports spec.containers

-- The error is `unknown object`.
unfoldable pub get_ports_from_object : Object → Result (Unit {0}) PortsInObject
unfolding get_ports_from_pod_spec add_ports
get_ports_from_object (service s) = ok (add_ports no_ports s.service_ports)
get_ports_from_object (pod p) = ok (get_ports_from_pod_spec p.pod_spec)
get_ports_from_object (deployment w) = ok (get_ports_from_pod_spec w.template)
get_ports_from_object (stateful_set w) = ok (get_ports_from_pod_spec w.template)
get_ports_from_object (replica_set w) = ok (get_ports_from_pod_spec w.template)
get_ports_from_object (daemon_set w) = ok (get_ports_from_pod_spec w.template)
get_ports_from_object other = err tt
