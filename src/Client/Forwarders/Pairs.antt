-- ===== src/Client/Forwarders/Pairs.antt =====
-- The forwarders of a command.
use krelay.Prelude.{
  ℕ, suc, ◌+◌, ◌≡◌, refl, ap, ◌∙◌, List, [], ◌∷◌, Option, Bytes, Result, ok, err, >>=-eq-ok,
  ok-injective, All, All-append, length, length-append, map, arith,
}
use mathlib.Core.Path.{subst}
use krelay.Kube.Object.{Object}
use krelay.Ports.Parser.{PortPair, ParseError, parse}
use krelay.Ports.Parser.Pairs.{IsPair, parse-IsPair}
use krelay.RemoteAddr.Getter.{Cluster, Getter}
use krelay.Client.Targets.{Target}
use krelay.Client.Forwarders.{PortForwarder, of_pairs, resolve, forward_target, port_forwarders}

-- The number of port arguments of all targets.
abbrev pub port_count : List Target → ℕ
port_count [] = 0
port_count (t ∷ ts) = length t.ports + port_count ts

abbrev pub IsForwarder : PortForwarder → Type 0
IsForwarder f = IsPair f.ports

abbrev Good : ℕ → List PortForwarder → Type 0
Good n fs = All IsForwarder fs × (length fs ≡ n)

map-IsForwarder :
    (g : Getter) (a : Bytes) (pairs : List PortPair)
    → All IsPair pairs
    → Good
        (length pairs)
        (map (λ pp. record { addr_getter = g; ports = pp; listen_addr = a }) pairs)
map-IsForwarder g a [] h = (tt, refl)
map-IsForwarder g a (pp ∷ pairs) (p, h) =
    let (all, same) = map-IsForwarder g a pairs h in ((p, all), ap suc same)

of_pairs-Good :
    (g : Getter) (a : Bytes) (o : Option Object) (args : List Bytes) {fs : List PortForwarder}
    → of_pairs g a (parse o args) ≡ ok fs
    → Good (length args) fs
of_pairs-Good g a o args {fs} h = go (parse o args) refl h
  where
    go :
        (x : Result ParseError (List PortPair))
        → parse o args ≡ x
        → of_pairs g a x ≡ ok fs
        → Good (length args) fs
    go (err e) parsed h = cc
    go (ok pairs) parsed h =
        let (valid, size) = parse-IsPair o args parsed in
        let (all, same) = map-IsForwarder g a pairs valid in
        subst (Good (length args)) (ok-injective h) (all, same ∙ size)

module _ (c : Cluster) where
  forward_target-Good :
      (t : Target) {fs : List PortForwarder} → forward_target c t ≡ ok fs → Good (length t.ports) fs
  unfolding forward_target
  forward_target-Good t h =
      let ((g, o), _, made) = >>=-eq-ok (resolve c t) _ h in
      of_pairs-Good g t.lis_addr o t.ports made

  -- A command whose targets can all be resolved gets one forwarder for each port argument, and each
  -- forwards a uint16 port to a uint16 port by a protocol that is not empty.
  pub port_forwarders-IsForwarder :
      (ts : List Target) {fs : List PortForwarder}
      → port_forwarders c ts ≡ ok fs
      → All IsForwarder fs × (length fs ≡ port_count ts)
  unfolding port_forwarders
  port_forwarders-IsForwarder [] h = subst (Good 0) (ok-injective h) (tt, refl)
  port_forwarders-IsForwarder (t ∷ ts) {fs} h =
      let (here, made, more_ran) = >>=-eq-ok (forward_target c t) _ h in
      let (more, made', joined) = >>=-eq-ok (port_forwarders c ts) _ more_ran in
      let (valid, size) = forward_target-Good t made in
      let (valid', size') = port_forwarders-IsForwarder ts made' in
      subst (Good (port_count (t ∷ ts))) (ok-injective joined) (
        All-append IsForwarder here more valid valid',
        omega (arith, length-append here more, size, size'),
      )
