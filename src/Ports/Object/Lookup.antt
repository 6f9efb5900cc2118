-- ===== src/Ports/Object/Lookup.antt =====
-- The two maps of an object's ports, as descriptions of its list of ports.
use krelay.Prelude.{
  ℕ, ◌<◌, ◌≡◌, refl, sym, ap, ◌∙◌, Bool, true, false, List, [], ◌∷◌, ◌++◌, append_assoc, Option,
  none, some, ◌==◌, ==_iff, if◌then◌else◌, arith, Bool-cases, inl, inr, Bytes, equal, ok,
  ok-injective,
}
use mathlib.Core.List.{flatten}
use mathlib.Core.Path.{subst}
use krelay.Golib.Endian.{u16}
use krelay.Golib.Text.{to_lower}
use krelay.Kube.Object.{
  ObjectPort, PodSpec, Object, service, pod, deployment, stateful_set, replica_set, daemon_set,
  other,
}
use krelay.Ports.Object.{
  PortWithProtocol, PortsInObject, no_ports, named, numbered, or_nil, add_port, add_ports,
  add_containers, get_ports_from_pod_spec, get_ports_from_object,
}

-- The protocols of the ports with a number, in the order of the ports.
abbrev pub protocols_at : ℕ → List ObjectPort → List Bytes
protocols_at k [] = []
protocols_at k (p ∷ ps) =
    if u16 p.port == k then to_lower p.protocol ∷ protocols_at k ps else protocols_at k ps

-- The last port with a name, or else `d`.
abbrev pub last_named : Bytes → Option PortWithProtocol → List ObjectPort → Option PortWithProtocol
last_named k d [] = d
last_named k d (p ∷ ps) =
    last_named k
      (if equal p.name k
        then some (record { port = u16 p.port; protocol = to_lower p.protocol })
        else d)
      ps

abbrev pub extend : Option (List Bytes) → List Bytes → Option (List Bytes)
extend o [] = o
extend o (x ∷ xs) = some (or_nil o ++ x ∷ xs)

extend-snoc :
    (o : Option (List Bytes)) (x : Bytes) (xs : List Bytes)
    → extend (some (or_nil o ++ x ∷ [])) xs ≡ extend o (x ∷ xs)
extend-snoc o x [] = refl
extend-snoc o x (y ∷ ys) = ap some (append_assoc (or_nil o) (x ∷ []) (y ∷ ys))

numbered-add_ports :
    (k : ℕ) (ps : List ObjectPort) (ret : PortsInObject)
    → numbered k (add_ports ret ps).protocols
      ≡ extend (numbered k ret.protocols) (protocols_at k ps)
unfolding add_ports numbered
numbered-add_ports k [] ret = refl
numbered-add_ports k (p ∷ ps) ret =
    numbered-add_ports k ps (add_port ret p) ∙ elim (Bool-cases (u16 p.port == k)) [
      | inl here ↦
          let same = (==_iff (u16 p.port) k).0 here in
          let x = to_lower p.protocol in
          rw here (
            ap
              (λ j. extend (some (or_nil (numbered j ret.protocols) ++ x ∷ [])) (protocols_at k ps))
              same
            ∙ extend-snoc (numbered k ret.protocols) x (protocols_at k ps))
      | inr elsewhere ↦ rw elsewhere refl
    ]

named-add_ports :
    (k : Bytes) (ps : List ObjectPort) (ret : PortsInObject)
    → named k (add_ports ret ps).names ≡ last_named k (named k ret.names) ps
unfolding add_ports named
named-add_ports k [] ret = refl
named-add_ports k (p ∷ ps) ret = named-add_ports k ps (add_port ret p)

add_ports-append :
    (ret : PortsInObject) (ps qs : List ObjectPort)
    → add_ports (add_ports ret ps) qs ≡ add_ports ret (ps ++ qs)
unfolding add_ports
add_ports-append ret [] qs = refl
add_ports-append ret (p ∷ ps) qs = add_ports-append (add_port ret p) ps qs

add_containers-flatten :
    (ret : PortsInObject) (cts : List (List ObjectPort))
    → add_containers ret cts ≡ add_ports ret (flatten cts)
unfolding add_containers add_ports flatten
add_containers-flatten ret [] = refl
add_containers-flatten ret (ps ∷ cts) =
    add_containers-flatten (add_ports ret ps) cts ∙ add_ports-append ret ps (flatten cts)

-- The maps of a pod's ports: a number leads to the protocols of all ports with that number, in the
-- order of the containers and their ports, or to nothing if there is none; a name leads to the last
-- port with that name.
pub get_ports_from_pod_spec_lem :
    (spec : PodSpec) (number : ℕ) (name : Bytes)
    → let all = get_ports_from_pod_spec spec in
      let ports = flatten spec.containers in
      (numbered number all.protocols ≡ extend none (protocols_at number ports))
      × (named name all.names ≡ last_named name none ports)
unfolding get_ports_from_pod_spec numbered named
get_ports_from_pod_spec_lem spec number name =
    let ports = flatten spec.containers in
    let same = add_containers-flatten no_ports spec.containers in
    (
      ap (λ a. numbered number a.protocols) same ∙ numbered-add_ports number ports no_ports,
      ap (λ a. named name a.names) same ∙ named-add_ports name ports no_ports,
    )

-- Every name leads to a uint16.
abbrev pub FitNames : PortsInObject → Type 0
FitNames all = (k : Bytes) (p : PortWithProtocol) → named k all.names ≡ some p → p.port < 65536

abbrev Fits : Option PortWithProtocol → Type 0
Fits none = Unit
Fits (some p) = p.port < 65536

last_named-Fits :
    (k : Bytes) (ps : List ObjectPort) (d : Option PortWithProtocol)
    → Fits d
    → Fits (last_named k d ps)
last_named-Fits k [] d h = h
last_named-Fits k (p ∷ ps) d h = last_named-Fits k ps _ (newest (equal p.name k))
  where
    newest :
        (b : Bool)
        → Fits
            (if b then some (record { port = u16 p.port; protocol = to_lower p.protocol }) else d)
    newest true = omega arith
    newest false = h

add_ports-FitNames : (ps : List ObjectPort) → FitNames (add_ports no_ports ps)
add_ports-FitNames ps k p h =
    let found = sym (named-add_ports k ps no_ports) ∙ h in
    subst Fits found (last_named-Fits k ps (named k []) (unfold named in tt))

get_ports_from_pod_spec-FitNames : (spec : PodSpec) → FitNames (get_ports_from_pod_spec spec)
get_ports_from_pod_spec-FitNames spec k p h =
    let found = sym (get_ports_from_pod_spec_lem spec 0 k).1 ∙ h in
    subst Fits found (last_named-Fits k (flatten spec.containers) none tt)

pub get_ports_from_object-FitNames :
    (obj : Object) {all : PortsInObject} → get_ports_from_object obj ≡ ok all → FitNames all
unfolding get_ports_from_object
get_ports_from_object-FitNames (service s) {all} h =
    subst FitNames (ok-injective h) (add_ports-FitNames s.service_ports)
get_ports_from_object-FitNames (pod p) {all} h =
    subst FitNames (ok-injective h) (get_ports_from_pod_spec-FitNames p.pod_spec)
get_ports_from_object-FitNames (deployment w) {all} h =
    subst FitNames (ok-injective h) (get_ports_from_pod_spec-FitNames w.template)
get_ports_from_object-FitNames (stateful_set w) {all} h =
    subst FitNames (ok-injective h) (get_ports_from_pod_spec-FitNames w.template)
get_ports_from_object-FitNames (replica_set w) {all} h =
    subst FitNames (ok-injective h) (get_ports_from_pod_spec-FitNames w.template)
get_ports_from_object-FitNames (daemon_set w) {all} h =
    subst FitNames (ok-injective h) (get_ports_from_pod_spec-FitNames w.template)
get_ports_from_object-FitNames other h = cc
