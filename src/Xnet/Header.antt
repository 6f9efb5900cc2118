-- ===== src/Xnet/Header.antt =====
-- pkg/xnet/header.go: the header that opens each stream.
pub mod Layout
pub mod RoundTrip
pub mod Decode
use krelay.Prelude.{
  ℕ, ◌+◌, ◌-◌, ◌≡◌, [], ◌∷◌, ◌++◌, ltb, Bytes, length, take, drop, slice, get_or, set, replicate,
  Result, ok, err, Bool, true, false,
}
use krelay.Golib.Endian.{u16, put_uint16, uint16}
use krelay.Golib.Buffer.{copy, splice}
use krelay.Golib.Reader.{ReadError, Reads, read_exactly}
use krelay.Prelude.Stateful.{returns, throws, ◌>>=◌, ◌>>◌}
use krelay.Xnet.Addr.{Addr, addr_marshal, addr_from_bytes}

abbrev pub length_all_mandatory_fields : ℕ
length_all_mandatory_fields = 12

abbrev pub length_request_id : ℕ
length_request_id = 5

pub record Header : Type 0 where
  pub version : ℕ
  pub request_id : Bytes
  pub protocol : ℕ
  pub port : ℕ
  pub addr : Addr

-- The stores of `Marshal` into its buffer, one after the other, up to the address.
unfoldable pub store_fields : ℕ → ℕ → Bytes → ℕ → ℕ → ℕ → Bytes → Bytes
unfolding splice
store_fields version total request_id protocol port typ buf =
    let b1 = set buf 0 version in
    let b2 = splice 1 3 (λ _. put_uint16 (u16 total)) b1 in
    let b3 = splice 3 8 (λ part. copy part request_id) b2 in
    let b4 = set b3 8 protocol in let b5 = splice 9 11 (λ _. put_uint16 port) b4 in set b5 11 typ

unfoldable pub marshal : Header → Bytes
marshal h =
    let addr_bytes = addr_marshal h.addr in
    let total_len = length_all_mandatory_fields + length addr_bytes in
    let buf = replicate total_len 0 in
    let stored = store_fields h.version total_len h.request_id h.protocol h.port h.addr.typ buf in
    splice 12 total_len (λ part. copy part addr_bytes) stored

pub data HeaderError : Type 0 where
  read_total_length : ReadError → HeaderError
  body_too_short : ℕ → HeaderError
  read_full_body : ReadError → HeaderError

abbrev refuse_if : Bool → HeaderError → Reads HeaderError (Unit {0})
refuse_if true e = throws e
refuse_if false e = returns tt

-- The fields of a header from its first byte and the body behind the length.
abbrev pub decode_body : ℕ → Bytes → Header
decode_body version body = record {
  version = version;
  request_id = slice 0 5 body;
  protocol = get_or body 5 0;
  port = uint16 (slice 6 8 body);
  addr = addr_from_bytes (get_or body 8 0) (drop 9 body);
}

unfoldable pub from_reader : Reads HeaderError Header
from_reader = do
  length_buf ← read_exactly read_total_length 3
  let total_len = uint16 (drop 1 length_buf)
  refuse_if (ltb total_len length_all_mandatory_fields) (body_too_short total_len)
  body ← read_exactly read_full_body (total_len - 3)
  returns (decode_body (get_or length_buf 0 0) body)
