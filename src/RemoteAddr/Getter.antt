-- ===== src/RemoteAddr/Getter.antt =====
-- Getter, NewStaticAddr and NewDynamicAddr of pkg/remoteaddr/remoteaddr.go and static.go, `init` of
-- dynamic.go, and addrGetterForObject of cmd/client/utils.go.
pub mod Ip
use krelay.Prelude.{
  ℕ, Bool, true, false, List, [], ◌∷◌, Option, none, some, Bytes, codes, equal, if◌then◌else◌,
  Result, ok, err, ◌>>=◌, not,
}
use krelay.Xnet.Addr.{Addr, zero_addr, addr_from_ip, addr_from_host}
use krelay.Kube.Object.{
  Object, Service, Workload, pod, service, deployment, stateful_set, replica_set, daemon_set, other,
}
use krelay.RemoteAddr.Dynamic.{PodInfo, DynamicAddr, UpdateError, update_pod_ip}

-- What the client asks of the cluster and of libraries: `net.ParseIP`, the pods of a namespace and a
-- selector, whether a watch can be started there, the text of a service's selector, and the object
-- of a namespace and a resource.
pub record Cluster : Type 0 where
  pub parse_ip : Bytes → Option Bytes
  pub list_pods : Bytes → Bytes → Option (List PodInfo)
  pub can_watch : Bytes → Bytes → Bool
  pub selector_text : List (Bytes × Bytes) → Bytes
  pub find_object : Bytes → Bytes → Option Object

-- A dynamic address as `init` leaves it.
pub data Getter : Type 0 where
  static_addr : Addr → Getter
  dynamic_addr : Bytes → Bytes → DynamicAddr → Getter

-- `Get`, which returns no error.
abbrev pub get : Getter → Addr
get (static_addr a) = a
get (dynamic_addr ns selector d) = d.addr

pub data GetterError : Type 0 where
  no_ip : Bytes → GetterError
  init_pod_ip : UpdateError → GetterError
  watch_pods selector_empty unknown_object : GetterError
  bad_selector : Bytes → GetterError

abbrev pub static_of : Result Bytes Addr → Result GetterError Getter
static_of (ok a) = ok (static_addr a)
static_of (err s) = err (no_ip s)

abbrev pub started :
    Bool → Bytes → Bytes → Result UpdateError (Unit {0}) × DynamicAddr → Result GetterError Getter
started watchable ns selector (err e, d) = err (init_pod_ip e)
started false ns selector (ok _, d) = err watch_pods
started true ns selector (ok _, d) = ok (dynamic_addr ns selector d)

module _ (c : Cluster) (ns : Bytes) where
  unfoldable pub new_dynamic_addr : Bytes → Result GetterError Getter
  new_dynamic_addr selector = started (c.can_watch ns selector) ns selector (
      update_pod_ip c.parse_ip (c.list_pods ns selector)
        (record { pod_name = []; addr = zero_addr }))

  -- `len(actual.Spec.Selector) == 0`, and what follows.
  abbrev pub for_selector : List (Bytes × Bytes) → Result GetterError Getter
  for_selector [] = err selector_empty
  for_selector (kv ∷ kvs) = new_dynamic_addr (c.selector_text (kv ∷ kvs))

  abbrev pub for_workload : Result Bytes Bytes → Result GetterError Getter
  for_workload (ok selector) = new_dynamic_addr selector
  for_workload (err e) = err (bad_selector e)

  abbrev pub for_service : Service → Result GetterError Getter
  for_service s =
      if equal s.service_type (codes "ExternalName")
      then ok (static_addr (addr_from_host s.external_name))
      else if not (equal s.cluster_ip (codes "None"))
      then static_of (addr_from_ip c.parse_ip s.cluster_ip)
      else for_selector s.service_selector

  unfoldable pub addr_getter_for_object : Object → Result GetterError Getter
  unfolding new_dynamic_addr
  addr_getter_for_object (pod p) = static_of (addr_from_ip c.parse_ip p.pod_ip)
  addr_getter_for_object (service s) = for_service s
  addr_getter_for_object (replica_set w) = for_workload w.selector
  addr_getter_for_object (deployment w) = for_workload w.selector
  addr_getter_for_object (stateful_set w) = for_workload w.selector
  addr_getter_for_object (daemon_set w) = for_workload w.selector
  addr_getter_for_object other = err unknown_object
