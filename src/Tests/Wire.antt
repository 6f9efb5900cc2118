-- ===== src/Tests/Wire.antt =====
-- Headers, acknowledgements and writes.
use krelay.Prelude.{
  ◌≡◌, refl, false, [], ◌∷◌, ◌++◌, arith, Bytes, codes, ok, err, ◌↔◌, length, take, ◌≤◌,
}
use krelay.Golib.Reader.{Reader, chunk, unexpected_eof, read_exactly}
use krelay.Golib.Buffer.{splice}
use krelay.Golib.Reader.Laws.{available, ending}
use krelay.Xnet.Addr.{addr_from_host}
use krelay.Xnet.Header.{Header, marshal, store_fields, from_reader, read_full_body}
use krelay.Xnet.Header.Layout.{wire, marshal-wire}
use krelay.Xnet.Header.RoundTrip.{from_reader-marshal}
use krelay.Xnet.Header.Decode.{decode, from_reader-decode, marshal-from_reader}
use krelay.Xnet.Ack.{Acknowledgement, ack_marshal, ack_from_reader}
use krelay.Xnet.Ack.RoundTrip.{ack_from_reader-ack_marshal}
use krelay.Xio.{Writer, accepts, fails, write_full}
use krelay.Xio.Delivery.{sent, write_full-prefix, stop, go, write_full_total}

abbrev sample : Header
sample = record {
  version = 0;
  request_id = codes "00000";
  protocol = 1;
  port = 53;
  addr = addr_from_host (codes "a.b");
}

abbrev sample_bytes : Bytes
sample_bytes = 0 ∷ 0 ∷ 15 ∷ 48 ∷ 48 ∷ 48 ∷ 48 ∷ 48 ∷ 1 ∷ 0 ∷ 53 ∷ 1 ∷ b'a' ∷ b'.' ∷ b'b' ∷ []

marshal-sample : marshal sample ≡ sample_bytes
unfolding marshal store_fields splice
marshal-sample = refl

-- The header in three pieces, with a byte of the payload behind it.
abbrev pieces : Reader
pieces =
    chunk (0 ∷ 0 ∷ [])
    ∷ chunk (15 ∷ 48 ∷ 48 ∷ 48 ∷ 48 ∷ 48 ∷ 1 ∷ 0 ∷ [])
    ∷ chunk (53 ∷ 1 ∷ b'a' ∷ b'.' ∷ b'b' ∷ 7 ∷ [])
    ∷ []

abbrev behind : Reader
behind = chunk (7 ∷ []) ∷ []

from_reader-pieces : from_reader pieces ≡ (ok sample, behind)
unfolding from_reader read_exactly
from_reader-pieces = refl

from_reader_cut_short :
    (from_reader (chunk (0 ∷ 0 ∷ 15 ∷ 48 ∷ []) ∷ [])).0 ≡ err (read_full_body unexpected_eof)
unfolding from_reader read_exactly
from_reader_cut_short = refl

from_reader-marshal_example :
    (r' : Reader) × (from_reader pieces ≡ (ok sample, r'))
    × (available r' ≡ 7 ∷ [])
    × (ending r' ≡ ending pieces)
unfolding marshal store_fields splice
from_reader-marshal_example =
    from_reader-marshal sample (7 ∷ []) pieces refl (omega arith) (omega arith) refl

from_reader-decode_example : (from_reader pieces).0 ≡ decode (available pieces) (ending pieces)
from_reader-decode_example = from_reader-decode pieces

marshal-from_reader_example : available pieces ≡ marshal sample ++ available behind
marshal-from_reader_example = marshal-from_reader pieces (omega arith) from_reader-pieces

marshal-wire_run : marshal sample ≡ wire sample
marshal-wire_run = marshal-wire sample

abbrev refused : Acknowledgement
refused = record { code = 3 }

ack_from_reader-ack_marshal_run :
    (r' : Reader) × (ack_from_reader (chunk (ack_marshal refused ++ 1 ∷ []) ∷ [])
      ≡ (ok refused, r'))
    × (available r' ≡ (1 ∷ []) ++ available [])
ack_from_reader-ack_marshal_run = ack_from_reader-ack_marshal refused (1 ∷ []) []

abbrev text : Bytes
text = codes "abc"

-- Two short writes and a failure.
abbrev broken_writer : Writer
broken_writer = accepts 1 ∷ fails 1 ∷ accepts 9 ∷ []

write_full-broken : sent (write_full broken_writer text).writes ≡ codes "ab"
unfolding write_full
write_full-broken = refl

write_full-prefix_run :
    (sent (write_full broken_writer text).writes ≡ take (write_full broken_writer text).n text)
    × ((write_full broken_writer text).n ≤ length text)
    × (((write_full broken_writer text).error ≡ false)
        ↔ ((write_full broken_writer text).n ≡ length text))
write_full-prefix_run = write_full-prefix broken_writer text

abbrev slow_writer : Writer
slow_writer = accepts 1 ∷ accepts 1 ∷ accepts 1 ∷ []

write_full_total_run : (write_full slow_writer text).error ≡ false
write_full_total_run = write_full_total slow_writer text (go (go (go stop)))
