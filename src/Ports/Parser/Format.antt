-- ===== src/Ports/Parser/Format.antt =====
-- `Parse` reads what the syntax `LOCAL:REMOTE@PROTOCOL` prints.
use krelay.Prelude.{
  ℕ, suc, ◌-◌, ◌≤◌, ◌<◌, ◌≡◌, ◌≢◌, refl, true, List, [], ◌∷◌, ◌++◌, Option, arith, inl, inr, ◌⊎◌,
  Bytes, equal, ok, All, All-append, All-imp, Lacks, length, drop, ltb, map, lt→ltb, length-append,
  take-append_left,
}
use krelay.Golib.Text.Laws.{index_of-append, split-append, split-Lacks}
use krelay.Golib.Strconv.{itoa, max_uint16}
use krelay.Golib.Strconv.Decimal.{IsDigit, parse_uint16_sound, parse_uint16-itoa}
use krelay.Kube.Object.{Object}
use krelay.Ports.Object.{PortsInObject}
use krelay.Ports.Parser.{
  PortPair, known_protocol, protocol_tcp, protocol_udp, split_protocol, split_ports, parse_port,
  resolve_remote, resolve_local, prefer, parse_arg, parse_args, parse, known_ports,
}
use krelay.Ports.Parser.Pairs.{parse_port-itoa}

-- `LOCAL:REMOTE@PROTOCOL`.
abbrev pub format_pair : PortPair → Bytes
format_pair p = (itoa p.local_port ++ b':' ∷ itoa p.remote_port) ++ b'@' ∷ p.protocol

abbrev pub IsKnown : Bytes → Type 0
IsKnown proto = (proto ≡ protocol_tcp) ⊎ (proto ≡ protocol_udp)

pub itoa-Lacks : (n c : ℕ) → n ≤ max_uint16 → b'9' < c → Lacks c (itoa n)
itoa-Lacks n c fits above =
    let (ne, digits, _, _) = parse_uint16_sound (itoa n) (parse_uint16-itoa n fits) in
    All-imp (λ b (d : IsDigit b). omega arith) (itoa n) digits

append-ne_nil : (l r : Bytes) → (l ++ b':' ∷ r) ≢ []
append-ne_nil [] r = cc
append-ne_nil (c ∷ l) r = cc

drop_behind : (xs ys : Bytes) (c : ℕ) → drop (suc (length xs)) (xs ++ c ∷ ys) ≡ ys
drop_behind [] ys c = refl
drop_behind (x ∷ xs) ys c = drop_behind xs ys c

known :
    (spec : Bytes) {proto : Bytes} → IsKnown proto → known_protocol spec proto ≡ ok (spec, proto)
known spec (inl h) = rw h (unfold equal in refl)
known spec (inr h) = rw h (unfold equal in refl)

IsKnown-pos : {proto : Bytes} → IsKnown proto → 0 < length proto
IsKnown-pos (inl h) = rw h (omega arith)
IsKnown-pos (inr h) = rw h (omega arith)

-- An argument with a protocol behind its first `@`.
split_protocol-append :
    (c : ℕ) (spec proto : Bytes)
    → Lacks b'@' (c ∷ spec)
    → IsKnown proto
    → split_protocol ((c ∷ spec) ++ b'@' ∷ proto) ≡ ok (c ∷ spec, proto)
unfolding split_protocol
split_protocol-append c spec proto h k =
    let arg = (c ∷ spec) ++ b'@' ∷ proto in
    let sized = length-append spec (b'@' ∷ proto) in
    let inside : ltb (suc (length spec)) (length arg - 1) ≡ true =
      lt→ltb (suc (length spec)) (length arg - 1) (omega (arith, sized, IsKnown-pos k)) in
    rw
      (
        index_of-append b'@' (c ∷ spec) proto h,
        inside,
        take-append_left spec (b'@' ∷ proto),
        drop_behind spec proto b'@',
      )
      (known (c ∷ spec) k)

split_ports-append :
    (c : ℕ) (local remote : Bytes)
    → Lacks b':' (c ∷ local)
    → Lacks b':' remote
    → split_ports ((c ∷ local) ++ b':' ∷ remote) ≡ ok (c ∷ local, remote)
unfolding split_ports
split_ports-append c local remote hl hr =
    rw (split-append (c ∷ local) remote b':' hl, split-Lacks remote b':' hr) refl

module _ (s : Bytes) (ne : s ≢ []) where
  split_protocol-format :
      (proto : Bytes)
      → Lacks b'@' s
      → IsKnown proto
      → split_protocol (s ++ b'@' ∷ proto) ≡ ok (s, proto)
  split_protocol-format = go s ne
    where
      go :
          (s : Bytes)
          → s ≢ []
          → (proto : Bytes) → Lacks b'@' s
          → IsKnown proto
          → split_protocol (s ++ b'@' ∷ proto) ≡ ok (s, proto)
      go [] h = absurd (h refl)
      go (c ∷ t) h = split_protocol-append c t

  split_ports-format :
      (remote : Bytes)
      → Lacks b':' s
      → Lacks b':' remote
      → split_ports (s ++ b':' ∷ remote) ≡ ok (s, remote)
  split_ports-format = go s ne
    where
      go :
          (s : Bytes)
          → s ≢ []
          → (remote : Bytes) → Lacks b':' s
          → Lacks b':' remote
          → split_ports (s ++ b':' ∷ remote) ≡ ok (s, remote)
      go [] h = absurd (h refl)
      go (c ∷ t) h = split_ports-append c t

resolve_remote-itoa :
    (all : Option PortsInObject) (n : ℕ) {proto : Bytes}
    → n ≤ max_uint16
    → IsKnown proto
    → resolve_remote all proto (itoa n) ≡ ok (n, proto)
unfolding resolve_remote
resolve_remote-itoa all n fits (inl h) = rw (h, parse_uint16-itoa n fits) refl
resolve_remote-itoa all n fits (inr h) = rw (h, parse_uint16-itoa n fits) refl

resolve_local-parse_port : (s : Bytes) (remote : ℕ) → s ≢ [] → resolve_local s remote ≡ parse_port s
unfolding resolve_local
resolve_local-parse_port [] remote h = absurd (h refl)
resolve_local-parse_port (c ∷ s) remote h = refl

prefer-IsKnown : {proto : Bytes} (other : Bytes) → IsKnown proto → prefer proto other ≡ proto
prefer-IsKnown other (inl h) = rw h
prefer-IsKnown other (inr h) = rw h

-- The numbers and the protocol of an argument are its own, whatever object there is.
parse_arg-format_pair :
    (all : Option PortsInObject) (p : PortPair)
    → p.local_port ≤ max_uint16
    → p.remote_port ≤ max_uint16
    → IsKnown p.protocol
    → parse_arg all (format_pair p) ≡ ok p
unfolding parse_arg
parse_arg-format_pair all p local_fits remote_fits k =
    let l = itoa p.local_port in
    let r = itoa p.remote_port in
    let l_ne = (parse_uint16_sound l (parse_uint16-itoa p.local_port local_fits)).0 in
    let spec_ne : (l ++ b':' ∷ r) ≢ [] = append-ne_nil l r in
    let at_free =
      All-append (λ b. b ≢ b'@') l (b':' ∷ r)
        (itoa-Lacks p.local_port b'@' local_fits (omega arith))
        (omega arith, itoa-Lacks p.remote_port b'@' remote_fits (omega arith)) in
    let l_free = itoa-Lacks p.local_port b':' local_fits (omega arith) in
    let r_free = itoa-Lacks p.remote_port b':' remote_fits (omega arith) in
    rw
      (
        split_protocol-format (l ++ b':' ∷ r) spec_ne p.protocol at_free k,
        split_ports-format l l_ne r l_free r_free,
        resolve_remote-itoa all p.remote_port remote_fits k,
        resolve_local-parse_port l p.remote_port l_ne,
        parse_port-itoa p.local_port local_fits,
        prefer-IsKnown protocol_tcp k,
      )
      refl

abbrev pub IsPrintable : PortPair → Type 0
IsPrintable p = (p.local_port ≤ max_uint16) × (p.remote_port ≤ max_uint16) × IsKnown p.protocol

parse_args-format_pair :
    (all : Option PortsInObject) (ps : List PortPair)
    → All IsPrintable ps
    → parse_args all (map format_pair ps) ≡ ok ps
unfolding parse_args
parse_args-format_pair all [] h = refl
parse_args-format_pair all (p ∷ ps) ((l, r, k), hs) =
    rw (parse_arg-format_pair all p l r k, parse_args-format_pair all ps hs) refl

-- Pairs that are written `LOCAL:REMOTE@PROTOCOL` in decimal, with uint16 ports and the protocol
-- tcp or udp, are read back as they were, with no object and with every object whose ports are known.
pub parse-format_pair :
    (obj : Option Object) (ps : List PortPair) {all : Option PortsInObject}
    → known_ports obj ≡ ok all
    → All IsPrintable ps
    → parse obj (map format_pair ps) ≡ ok ps
unfolding parse
parse-format_pair obj ps {all} h hs = rw h (parse_args-format_pair all ps hs)
