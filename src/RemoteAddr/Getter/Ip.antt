-- ===== src/RemoteAddr/Getter/Ip.antt =====
-- The kind of address that a getter gives.
use mathlib.Core.Path.{subst}
use krelay.Prelude.{
  ◌≡◌, refl, Bool, true, false, List, [], ◌∷◌, Option, none, some, Bytes, codes, equal, Result, ok,
  err, Bool-cases, inl, inr, not,
}
use krelay.Xnet.Addr.{Addr, zero_addr, addr_from_ip, addr_of_parsed, addr_type_ip}
use krelay.Kube.Object.{
  Object, Service, pod, service, deployment, stateful_set, replica_set, daemon_set, other,
}
use krelay.RemoteAddr.Dynamic.{
  PodInfo, DynamicAddr, UpdateError, update_pod_ip, addr_or_zero, point, sort_pods, first_running,
}
use krelay.RemoteAddr.Getter.{
  Cluster, Getter, get, GetterError, static_of, started, new_dynamic_addr, for_selector,
  for_workload, for_service, addr_getter_for_object,
}

abbrev pub is_external : Object → Bool
is_external (service s) = equal s.service_type (codes "ExternalName")
is_external _ = false

abbrev HasIp : Addr → Type 0
HasIp a = a.typ ≡ addr_type_ip

-- A getter, if there is one, gives an IP address.
abbrev GivesIp : Result GetterError Getter → Type 0
GivesIp (ok g) = HasIp (get g)
GivesIp (err e) = Unit

addr_of_parsed-HasIp : (s : Bytes) (o : Option Bytes) → HasIp (addr_or_zero (addr_of_parsed s o))
addr_of_parsed-HasIp s none = refl
addr_of_parsed-HasIp s (some ip) = refl

addr_or_zero-HasIp :
    (parse_ip : Bytes → Option Bytes) (s : Bytes) → HasIp (addr_or_zero (addr_from_ip parse_ip s))
unfolding addr_from_ip
addr_or_zero-HasIp parse_ip s = addr_of_parsed-HasIp s (parse_ip s)

addr_of_parsed-GivesIp : (s : Bytes) (o : Option Bytes) → GivesIp (static_of (addr_of_parsed s o))
addr_of_parsed-GivesIp s none = tt
addr_of_parsed-GivesIp s (some ip) = refl

static_of-GivesIp :
    (parse_ip : Bytes → Option Bytes) (s : Bytes) → GivesIp (static_of (addr_from_ip parse_ip s))
unfolding addr_from_ip
static_of-GivesIp parse_ip s = addr_of_parsed-GivesIp s (parse_ip s)

point-HasIp :
    (parse_ip : Bytes → Option Bytes) (d : DynamicAddr) (o : Option PodInfo)
    → HasIp d.addr
    → HasIp (point parse_ip d o).1.addr
point-HasIp parse_ip d none h = h
point-HasIp parse_ip d (some p) h = addr_or_zero-HasIp parse_ip p.pod_ip

update_pod_ip-HasIp :
    (parse_ip : Bytes → Option Bytes) (a : Option (List PodInfo)) (d : DynamicAddr)
    → HasIp d.addr
    → HasIp (update_pod_ip parse_ip a d).1.addr
unfolding update_pod_ip
update_pod_ip-HasIp parse_ip none d h = h
update_pod_ip-HasIp parse_ip (some ps) d h = point-HasIp parse_ip d (first_running (sort_pods ps)) h

started-GivesIp :
    (watchable : Bool) (ns selector : Bytes) (x : Result UpdateError (Unit {0}) × DynamicAddr)
    → HasIp x.1.addr
    → GivesIp (started watchable ns selector x)
started-GivesIp watchable ns selector (err e, d) h = tt
started-GivesIp false ns selector (ok _, d) h = tt
started-GivesIp true ns selector (ok _, d) h = h

module _ (c : Cluster) (ns : Bytes) where
  new_dynamic_addr-GivesIp : (selector : Bytes) → GivesIp (new_dynamic_addr c ns selector)
  unfolding new_dynamic_addr
  new_dynamic_addr-GivesIp selector = started-GivesIp (c.can_watch ns selector) ns selector _ (
      update_pod_ip-HasIp c.parse_ip (c.list_pods ns selector)
        (record { pod_name = []; addr = zero_addr }) refl)

  for_workload-GivesIp : (s : Result Bytes Bytes) → GivesIp (for_workload c ns s)
  for_workload-GivesIp (ok selector) = new_dynamic_addr-GivesIp selector
  for_workload-GivesIp (err e) = tt

  for_selector-GivesIp : (s : List (Bytes × Bytes)) → GivesIp (for_selector c ns s)
  for_selector-GivesIp [] = tt
  for_selector-GivesIp (kv ∷ kvs) = new_dynamic_addr-GivesIp (c.selector_text (kv ∷ kvs))

  for_service-GivesIp :
      (s : Service)
      → equal s.service_type (codes "ExternalName") ≡ false
      → GivesIp (for_service c ns s)
  for_service-GivesIp s e = rw e (elim (Bool-cases (not (equal s.cluster_ip (codes "None")))) [
    | inl h ↦ rw h (static_of-GivesIp c.parse_ip s.cluster_ip)
    | inr h ↦ rw h (for_selector-GivesIp s.service_selector)
  ])

  addr_getter_for_object-GivesIp :
      (obj : Object) → is_external obj ≡ false → GivesIp (addr_getter_for_object c ns obj)
  unfolding addr_getter_for_object
  addr_getter_for_object-GivesIp (pod p) h = static_of-GivesIp c.parse_ip p.pod_ip
  addr_getter_for_object-GivesIp (service s) h = for_service-GivesIp s h
  addr_getter_for_object-GivesIp (replica_set w) h = for_workload-GivesIp w.selector
  addr_getter_for_object-GivesIp (deployment w) h = for_workload-GivesIp w.selector
  addr_getter_for_object-GivesIp (stateful_set w) h = for_workload-GivesIp w.selector
  addr_getter_for_object-GivesIp (daemon_set w) h = for_workload-GivesIp w.selector
  addr_getter_for_object-GivesIp other h = tt

  -- The getter of every object but an ExternalName service starts with an IP address, so the server
  -- never takes it for the name of a host.
  pub addr_getter_for_object-typ :
      (obj : Object) {g : Getter}
      → addr_getter_for_object c ns obj ≡ ok g
      → is_external obj ≡ false
      → (get g).typ ≡ addr_type_ip
  addr_getter_for_object-typ obj made h = subst GivesIp made (addr_getter_for_object-GivesIp obj h)
