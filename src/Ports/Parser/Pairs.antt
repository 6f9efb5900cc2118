-- ===== src/Ports/Parser/Pairs.antt =====
-- What `Parse` returns.
use krelay.Prelude.{
  ℕ, suc, ◌≤◌, ◌<◌, ◌≡◌, ◌≢◌, refl, ap, List, [], ◌∷◌, Option, none, some, arith, Bytes, ok, err,
  Result, All, length, >>=-eq-ok, ok-injective,
}
use krelay.Golib.Strconv.{parse_uint16, itoa, max_uint16}
use krelay.Golib.Strconv.Decimal.{parse_uint16_sound, parse_uint16-itoa}
use krelay.Kube.Object.{Object}
use krelay.Ports.Object.{PortsInObject, get_ports_from_object}
use krelay.Ports.Object.Lookup.{FitNames, get_ports_from_object-FitNames}
use mathlib.Core.Path.{subst}
use krelay.Ports.Parser.{
  PortPair, protocol_tcp, split_protocol, split_ports, parse_port, resolve_remote, resolve_local,
  prefer, parse_arg, parse_args, parse, known_ports,
}

-- A pair that can be listened on and dialled.
pub record IsPair (p : PortPair) : Type 0 where
  pub local_fits : p.local_port < 65536
  pub remote_fits : p.remote_port < 65536
  pub has_protocol : p.protocol ≢ []

parse_uint16-le : (s : Bytes) (n : ℕ) → parse_uint16 s ≡ some n → n ≤ max_uint16
parse_uint16-le s n h = (parse_uint16_sound s h).3

parse_port-FitsPort : (s : Bytes) {n : ℕ} → parse_port s ≡ ok n → n < 65536
unfolding parse_port
parse_port-FitsPort s {n} h = ground (arith, parse_uint16-le s n)

-- A number that is written in decimal is its port.
pub parse_port-itoa : (n : ℕ) → n ≤ max_uint16 → parse_port (itoa n) ≡ ok n
unfolding parse_port
parse_port-itoa n h = rw (parse_uint16-itoa n h) refl

abbrev FitsNames : Option PortsInObject → Type 0
FitsNames none = Unit
FitsNames (some all) = FitNames all

resolve_remote-fits :
    (all : Option PortsInObject) (proto remote : Bytes) {n : ℕ} {q : Bytes}
    → FitsNames all
    → resolve_remote all proto remote ≡ ok (n, q)
    → n < 65536
unfolding resolve_remote parse_port
resolve_remote-fits none proto remote {n} {q} h e = ground (arith, parse_uint16-le remote n)
resolve_remote-fits (some all) proto remote {n} {q} h e = grind (arith, parse_uint16-le, h)

resolve_local-fits :
    (local : Bytes) (remote : ℕ) {n : ℕ}
    → remote < 65536
    → resolve_local local remote ≡ ok n
    → n < 65536
unfolding resolve_local
resolve_local-fits [] remote h e = ground arith
resolve_local-fits (c ∷ s) remote {n} h e = ground (arith, parse_uint16-le (c ∷ s) n)

prefer-ne_nil : (proto other : Bytes) → other ≢ [] → prefer proto other ≢ []
prefer-ne_nil [] other h = h
prefer-ne_nil (c ∷ proto) other h = cc

parse_arg-IsPair :
    (all : Option PortsInObject) (arg : Bytes) {p : PortPair}
    → FitsNames all
    → parse_arg all arg ≡ ok p
    → IsPair p
unfolding parse_arg
parse_arg-IsPair all arg {p} names h =
    let ((spec, proto), e1, h1) = >>=-eq-ok (split_protocol arg) _ h in
    let ((local, remote), e2, h2) = >>=-eq-ok (split_ports spec) _ h1 in
    let ((port, q), e3, h3) = >>=-eq-ok (resolve_remote all proto remote) _ h2 in
    let (n, e4, h4) = >>=-eq-ok (resolve_local local port) _ h3 in
    let fits = resolve_remote-fits all proto remote names e3 in
    ground (arith, h4, fits, resolve_local-fits local port fits e4, prefer-ne_nil q protocol_tcp)

parse_args-IsPair :
    (all : Option PortsInObject) (args : List Bytes) {ps : List PortPair}
    → FitsNames all
    → parse_args all args ≡ ok ps
    → All IsPair ps × (length ps ≡ length args)
unfolding parse_args
parse_args-IsPair all [] names h =
    subst (λ l. All IsPair l × (length l ≡ 0)) (ok-injective h) (tt, refl)
parse_args-IsPair all (arg ∷ args) names h =
    let (p, e1, h1) = >>=-eq-ok (parse_arg all arg) _ h in
    let (qs, e2, h2) = >>=-eq-ok (parse_args all args) _ h1 in
    let (valid, size) = parse_args-IsPair all args names e2 in
    subst (λ l. All IsPair l × (length l ≡ suc (length args))) (ok-injective h2)
      ((parse_arg-IsPair all arg names e1, valid), ap suc size)

known_ports-FitsNames :
    (obj : Option Object) {all : Option PortsInObject} → known_ports obj ≡ ok all → FitsNames all
known_ports-FitsNames none h = subst FitsNames (ok-injective h) tt
known_ports-FitsNames (some obj) {all} h = go (get_ports_from_object obj) refl
  where
    go : (x : Result (Unit {0}) PortsInObject) → get_ports_from_object obj ≡ x → FitsNames all
    go (ok found) e =
        subst FitsNames (ok-injective (rw e at h)) (get_ports_from_object-FitNames obj e)
    go (err u) e = cc (rw e at h)

-- If `Parse` succeeds it returns one pair for each argument, whose ports are uint16 values and
-- whose protocol is not empty, whatever the object is.
pub parse-IsPair :
    (obj : Option Object) (args : List Bytes) {ps : List PortPair}
    → parse obj args ≡ ok ps
    → All IsPair ps × (length ps ≡ length args)
unfolding parse
parse-IsPair obj args h =
    let (all, e, h1) = >>=-eq-ok (known_ports obj) _ h in
    parse_args-IsPair all args (known_ports-FitsNames obj e) h1
