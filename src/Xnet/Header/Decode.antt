-- ===== src/Xnet/Header/Decode.antt =====
-- `FromReader` as a function of the bytes that arrive.
use krelay.Prelude.{
  ℕ, ◌+◌, ◌-◌, ◌<◌, ◌≤◌, ◌≡◌, refl, sym, ap, ◌∙◌, [], ◌∷◌, ◌++◌, arith, Bytes, length, ok, err,
  le→ltb, lt→ltb, ltb, take, drop, take-append-drop, length-take, if◌then◌else◌, AreBytes, All-take,
  Bool-cases, inl, inr, Result,
}
use krelay.Golib.Endian.{uint16}
use krelay.Golib.Reader.{Reader, read_exactly, ReadError, cut_error}
use krelay.Prelude.Stateful.{returns, bind_ok, bind_err}
use krelay.Golib.Reader.Laws.{available, ending, read_exactly_enough, read_exactly_short}
use krelay.Xnet.Header.{
  Header, marshal, from_reader, decode_body, HeaderError, read_total_length, body_too_short,
  read_full_body,
}
use krelay.Xnet.Header.Layout.{wire, marshal-wire}
use krelay.Xnet.Header.RoundTrip.{from_reader_lem}

-- The header that a byte sequence spells, or why it spells none; `e` is how the input ends.
abbrev pub decode : Bytes → ReadError → Result HeaderError Header
decode (v ∷ hi ∷ lo ∷ more) e =
    let total = uint16 (hi ∷ lo ∷ []) in
    if ltb total 12
    then err (body_too_short total)
    else if ltb (length more) (total - 3)
    then err (read_full_body (cut_error more e))
    else ok (decode_body v (take (total - 3) more))
decode short e = err (read_total_length (cut_error short e))

from_reader_cut :
    (r : Reader)
    → length (available r) < 3
    → (from_reader r).0 ≡ err (read_total_length (cut_error (available r) (ending r)))
unfolding from_reader
from_reader_cut r h =
    let (r1, failed) = read_exactly_short read_total_length 3 r h in
    ap (λ x. x.0) (bind_err (read_exactly read_total_length 3) _ failed)

module _ (v hi lo : ℕ) (more : Bytes) (r : Reader) (h : available r ≡ v ∷ hi ∷ lo ∷ more) where
  from_reader_low :
      uint16 (hi ∷ lo ∷ []) < 12 → (from_reader r).0 ≡ err (body_too_short (uint16 (hi ∷ lo ∷ [])))
  unfolding from_reader
  from_reader_low low =
      let opening : Bytes = v ∷ hi ∷ lo ∷ [] in
      let (r1, first, left, same) = read_exactly_enough read_total_length 3 r opening more h refl in
      ap (λ x. x.0) (bind_ok (read_exactly read_total_length 3) _ first)
      ∙ rw (lt→ltb (uint16 (hi ∷ lo ∷ [])) 12 low)

  from_reader_half :
      12 ≤ uint16 (hi ∷ lo ∷ [])
      → length more < uint16 (hi ∷ lo ∷ []) - 3
      → (from_reader r).0 ≡ err (read_full_body (cut_error more (ending r)))
  unfolding from_reader
  from_reader_half long cut =
      let opening : Bytes = v ∷ hi ∷ lo ∷ [] in
      let size = uint16 (hi ∷ lo ∷ []) - 3 in
      let (r1, first, left, same) = read_exactly_enough read_total_length 3 r opening more h refl in
      let (r2, failed) = read_exactly_short read_full_body size r1 (rw left cut) in
      let error = read_full_body (cut_error (available r1) (ending r1)) in
      let same_error : error ≡ read_full_body (cut_error more (ending r)) = rw (left, same) in
      let second =
        bind_err (read_exactly read_full_body size) (λ b. returns (decode_body v b)) failed in
      ap (λ x. x.0) (bind_ok (read_exactly read_total_length 3) _ first)
      ∙ rw (le→ltb (uint16 (hi ∷ lo ∷ [])) 12 long) (ap (λ x. x.0) second ∙ ap err same_error)

  from_reader_whole :
      12 ≤ uint16 (hi ∷ lo ∷ [])
      → uint16 (hi ∷ lo ∷ []) - 3 ≤ length more
      → (from_reader r).0 ≡ ok (decode_body v (take (uint16 (hi ∷ lo ∷ []) - 3) more))
  from_reader_whole long fits =
      let size = uint16 (hi ∷ lo ∷ []) - 3 in
      let parts : available r ≡ v ∷ hi ∷ lo ∷ (take size more ++ drop size more) =
        h ∙ rw (take-append-drop size more) refl in
      let (r', ran, left, same) =
        from_reader_lem v hi lo (take size more) (drop size more) r parts long
          (omega (arith, length-take size more)) in
      ap (λ x. x.0) ran

  from_reader_long : (from_reader r).0 ≡ decode (v ∷ hi ∷ lo ∷ more) (ending r)
  from_reader_long = ground (arith, from_reader_low, from_reader_half, from_reader_whole)

-- What `FromReader` returns depends only on the bytes that arrive and on how the input ends: a
-- header cut short in its first three bytes, a length below 12, a body cut short, or the header.
pub from_reader-decode : (r : Reader) → (from_reader r).0 ≡ decode (available r) (ending r)
from_reader-decode r = go (available r) refl
  where
    go : (bs : Bytes) → available r ≡ bs → (from_reader r).0 ≡ decode bs (ending r)
    go (v ∷ hi ∷ lo ∷ more) h = from_reader_long v hi lo more r h
    go _ h = from_reader_cut r (rw h (omega arith)) ∙ rw h

wire-decode_body :
    (v hi lo : ℕ) (body : Bytes)
    → 9 ≤ length body
    → uint16 (hi ∷ lo ∷ []) ≡ 3 + length body
    → AreBytes (hi ∷ lo ∷ body)
    → wire (decode_body v body) ≡ v ∷ hi ∷ lo ∷ body
wire-decode_body v hi lo (a ∷ b ∷ c ∷ d ∷ e ∷ p ∷ q ∷ s ∷ t ∷ addr) long size bytes = ground arith
wire-decode_body v hi lo _ long size bytes = absurd (omega arith)

module _ (v hi lo : ℕ) (more : Bytes) (r : Reader) (h : available r ≡ v ∷ hi ∷ lo ∷ more) where
  whole-wire :
      {x : Header} {r' : Reader}
      → AreBytes (hi ∷ lo ∷ more)
      → from_reader r ≡ (ok x, r')
      → 12 ≤ uint16 (hi ∷ lo ∷ [])
      → uint16 (hi ∷ lo ∷ []) - 3 ≤ length more
      → available r ≡ wire x ++ available r'
  whole-wire {x} {r'} (hi_byte, (lo_byte, others)) ran long fits =
      let size = uint16 (hi ∷ lo ∷ []) - 3 in
      let parts : available r ≡ v ∷ hi ∷ lo ∷ (take size more ++ drop size more) =
        h ∙ rw (take-append-drop size more) refl in
      let (r2, ran2, left, same) =
        from_reader_lem v hi lo (take size more) (drop size more) r parts long
          (omega (arith, length-take size more)) in
      let read_back =
        wire-decode_body v hi lo (take size more) (omega (arith, length-take size more))
          (omega (arith, length-take size more))
          (hi_byte, (lo_byte, All-take (λ b. b < 256) size more others)) in
      let same_header : x ≡ decode_body v (take size more) = cc in
      let rests : r' ≡ r2 = cc in
      parts
      ∙ ap (λ t. t ++ drop size more) (sym read_back)
      ∙ ap (λ t. wire t ++ drop size more) (sym same_header)
      ∙ ap (λ t. wire x ++ t) (sym left ∙ ap available (sym rests))

  prefix-wire :
      {x : Header} {r' : Reader}
      → AreBytes (hi ∷ lo ∷ more)
      → from_reader r ≡ (ok x, r')
      → available r ≡ wire x ++ available r'
  prefix-wire bytes ran =
      let decoded = sym (from_reader_long v hi lo more r h) ∙ ap (λ t. t.0) ran in
      elim (Bool-cases (ltb (uint16 (hi ∷ lo ∷ [])) 12)) [
        | inl low ↦ absurd (ground (arith, decoded))
        | inr long ↦ elim (Bool-cases (ltb (length more) (uint16 (hi ∷ lo ∷ []) - 3))) [
          | inl cut ↦ absurd (ground (arith, decoded))
          | inr fits ↦ whole-wire bytes ran (ground arith) (ground arith)
        ]
      ]

-- A header that `FromReader` accepts is the one that the consumed bytes are the marshalled form
-- of: marshalling it again gives those bytes, if the input is made of bytes.
pub marshal-from_reader :
    (r : Reader) {x : Header} {r' : Reader}
    → AreBytes (available r)
    → from_reader r ≡ (ok x, r')
    → available r ≡ marshal x ++ available r'
marshal-from_reader r {x} {r'} bytes ran = rw (marshal-wire x) (go (available r) refl bytes)
  where
    go : (bs : Bytes) → available r ≡ bs → AreBytes bs → available r ≡ wire x ++ available r'
    go (v ∷ hi ∷ lo ∷ more) h b = prefix-wire v hi lo more r h b.1 ran
    go _ h b = absurd (ground (arith, from_reader_cut r (rw h (omega arith))))
