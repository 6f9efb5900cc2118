-- ===== src/Xnet/Header/Layout.antt =====
-- The bytes of a marshalled header.
use krelay.Prelude.{
  ℕ, ◌+◌, ◌≡◌, refl, [], ◌∷◌, ◌++◌, arith, Bytes, length, replicate, replicate-add,
  length-replicate, append_assoc, length-append, sym, ap, ◌∙◌,
}
use krelay.Golib.Endian.{u16, put_uint16}
use krelay.Golib.Buffer.{copy, copy_same, splice_end, length-copy}
use krelay.Xnet.Header.{Header, marshal, store_fields}

-- The request id in its five bytes: cut if it is longer, and padded with zeros if it is shorter.
abbrev pub fit_request_id : Bytes → Bytes
fit_request_id id = copy (replicate 5 0) id

-- The wire format, as a concatenation of its fields.
abbrev pub wire : Header → Bytes
wire h =
    h.version ∷ put_uint16 (u16 (12 + length h.addr.bytes))
    ++ (fit_request_id h.request_id
        ++ (h.protocol ∷ (put_uint16 h.port ++ (h.addr.typ ∷ h.addr.bytes))))

store_fields-wire :
    (version total : ℕ) (id : Bytes) (protocol port typ : ℕ) (tail : Bytes)
    → store_fields version total id protocol port typ (replicate 12 0 ++ tail)
      ≡ version ∷ put_uint16 (u16 total)
        ++ (fit_request_id id ++ (protocol ∷ (put_uint16 port ++ (typ ∷ tail))))
unfolding store_fields
store_fields-wire version total [] protocol port typ tail = refl
store_fields-wire version total (a ∷ []) protocol port typ tail = refl
store_fields-wire version total (a ∷ b ∷ []) protocol port typ tail = refl
store_fields-wire version total (a ∷ b ∷ c ∷ []) protocol port typ tail = refl
store_fields-wire version total (a ∷ b ∷ c ∷ d ∷ []) protocol port typ tail = refl
store_fields-wire version total (a ∷ b ∷ c ∷ d ∷ e ∷ id) protocol port typ tail = refl

-- The fields in front of the address.
abbrev fixed_part : Header → Bytes
fixed_part h =
    h.version ∷ put_uint16 (u16 (12 + length h.addr.bytes))
    ++ (fit_request_id h.request_id ++ (h.protocol ∷ (put_uint16 h.port ++ (h.addr.typ ∷ []))))

fixed_part-append :
    (h : Header) (tail : Bytes)
    → h.version ∷ put_uint16 (u16 (12 + length h.addr.bytes))
        ++ (fit_request_id h.request_id
            ++ (h.protocol ∷ (put_uint16 h.port ++ (h.addr.typ ∷ tail))))
      ≡ fixed_part h ++ tail
fixed_part-append h tail = simp append_assoc

length-fixed_part : (h : Header) → 12 ≡ length (fixed_part h)
length-fixed_part h =
    let id = fit_request_id h.request_id in
    let others = h.protocol ∷ (put_uint16 h.port ++ (h.addr.typ ∷ [])) in
    omega (arith, length-append id others, length-copy (replicate 5 0) h.request_id)

-- Every header is marshalled to its wire format, whatever its request id and address hold.
pub marshal-wire : (h : Header) → marshal h ≡ wire h
unfolding marshal
marshal-wire h =
    let n = length h.addr.bytes in
    rw
      (
        replicate-add {A = ℕ} 12 n 0,
        store_fields-wire h.version (12 + n) h.request_id h.protocol h.port h.addr.typ
            (replicate n 0),
        fixed_part-append h (replicate n 0),
        splice_end (fixed_part h) (replicate n 0) (λ part. copy part h.addr.bytes) 12 (12 + n)
            (length-fixed_part h)
            (omega (arith, length-fixed_part h, length-replicate {A = ℕ} n 0)),
        copy_same (replicate n 0) h.addr.bytes (length-replicate {A = ℕ} n 0),
      )
      (sym (fixed_part-append h h.addr.bytes))

pub length-marshal : (h : Header) → length (marshal h) ≡ 12 + length h.addr.bytes
length-marshal h =
    let bytes = marshal-wire h ∙ fixed_part-append h h.addr.bytes in
    omega (arith, ap length bytes, length-append (fixed_part h) h.addr.bytes, length-fixed_part h)
