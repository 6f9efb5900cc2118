-- ===== src/Xnet/Header/RoundTrip.antt =====
-- `FromReader` against `Marshal`, however the bytes arrive.
use krelay.Prelude.{
  ℕ, ◌+◌, ◌-◌, ◌<◌, ◌≤◌, ◌≡◌, refl, sym, ap, ◌∙◌, [], ◌∷◌, ◌++◌, arith, Bytes, length, ok, le→ltb,
  length-append, replicate, ◌/◌, ◌%◌,
}
use krelay.Golib.Endian.{u16, put_uint16, uint16, uint16-put_uint16}
use krelay.Golib.Buffer.{copy_same}
use krelay.Golib.Reader.{Reader, read_exactly}
use krelay.Prelude.Stateful.{bind_ok}
use krelay.Golib.Reader.Laws.{available, ending, read_exactly_enough}
use krelay.Xnet.Header.{
  Header, marshal, from_reader, decode_body, read_total_length, read_full_body,
}
use krelay.Xnet.Header.Layout.{fit_request_id, marshal-wire}

-- What lies behind the version and the length.
abbrev body : Bytes → Header → Bytes
body id h = id ++ (h.protocol ∷ (put_uint16 h.port ++ (h.addr.typ ∷ h.addr.bytes)))

decode_body-body :
    (id : Bytes) (h : Header)
    → length id ≡ 5
    → h.port < 65536
    → decode_body h.version (body id h) ≡ record h { request_id = id }
decode_body-body (a ∷ b ∷ c ∷ d ∷ e ∷ []) h five fits = rw (uint16-put_uint16 h.port [] fits) refl
decode_body-body [] h five fits = absurd (omega arith)
decode_body-body (a ∷ []) h five fits = absurd (omega arith)
decode_body-body (a ∷ b ∷ []) h five fits = absurd (omega arith)
decode_body-body (a ∷ b ∷ c ∷ []) h five fits = absurd (omega arith)
decode_body-body (a ∷ b ∷ c ∷ d ∷ []) h five fits = absurd (omega arith)
decode_body-body (a ∷ b ∷ c ∷ d ∷ e ∷ f ∷ id) h five fits = absurd (omega arith)

-- One run of `FromReader` over a length that is not too small and a whole body.
pub from_reader_lem :
    (version hi lo : ℕ) (rest tail : Bytes) (r : Reader)
    → available r ≡ version ∷ hi ∷ lo ∷ (rest ++ tail)
    → 12 ≤ uint16 (hi ∷ lo ∷ [])
    → length rest ≡ uint16 (hi ∷ lo ∷ []) - 3
    → (r' : Reader) × (from_reader r ≡ (ok (decode_body version rest), r'))
      × (available r' ≡ tail)
      × (ending r' ≡ ending r)
unfolding from_reader
from_reader_lem version hi lo rest tail r h long size =
    let opening : Bytes = version ∷ hi ∷ lo ∷ [] in
    let (r1, first, left, same) =
      read_exactly_enough read_total_length 3 r opening (rest ++ tail) h refl in
    let (r2, second, left', same') =
      read_exactly_enough read_full_body (uint16 (hi ∷ lo ∷ []) - 3) r1 rest tail left (sym size) in
    let ran : from_reader r ≡ (ok (decode_body version rest), r2) =
      bind_ok (read_exactly read_total_length 3) _ first
      ∙ rw (le→ltb (uint16 (hi ∷ lo ∷ [])) 12 long)
          (bind_ok (read_exactly read_full_body _) _ second) in
    (r2, ran, left', same' ∙ same)

-- A marshalled header is read back as it was and what follows it stays in the reader, in whatever
-- pieces the bytes arrive, if its request id has five bytes, its port is a uint16 and its address
-- is short enough for the length field.
pub from_reader-marshal :
    (h : Header) (rest : Bytes) (r : Reader)
    → length h.request_id ≡ 5
    → h.port < 65536
    → 12 + length h.addr.bytes < 65536
    → available r ≡ marshal h ++ rest
    → (r' : Reader) × (from_reader r ≡ (ok h, r')) × (available r' ≡ rest) × (ending r' ≡ ending r)
from_reader-marshal h rest r five fits short arrives =
    let total = u16 (12 + length h.addr.bytes) in
    let tail = h.protocol ∷ (put_uint16 h.port ++ (h.addr.typ ∷ h.addr.bytes)) in
    let id_whole : fit_request_id h.request_id ≡ h.request_id =
      copy_same (replicate 5 0) h.request_id (sym five) in
    let hi = total / 256 % 256 in
    let lo = total % 256 in
    let laid_out : available r ≡ h.version ∷ hi ∷ lo ∷ (body h.request_id h ++ rest) =
      arrives ∙ rw (marshal-wire h, id_whole) refl in
    let (r', ran, left, same) =
      from_reader_lem h.version hi lo (body h.request_id h) rest r laid_out (omega arith)
        (omega (arith, length-append h.request_id tail)) in
    (r', ran ∙ ap (λ x. (ok x, r')) (decode_body-body h.request_id h five fits), left, same)
