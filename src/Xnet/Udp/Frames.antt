-- ===== src/Xnet/Udp/Frames.antt =====
-- One packet on the stream.
use krelay.Prelude.{
  ℕ, ◌+◌, ◌-◌, ◌≤◌, ◌<◌, ◌≡◌, refl, sym, ◌∙◌, [], ◌∷◌, ◌++◌, arith, Bytes, length, ok, err, le→ltb,
  ltb, take_all, false, ◌/◌, ◌%◌,
}
use krelay.Golib.Endian.{u16, put_uint16, uint16}
use krelay.Golib.Reader.{Reader, read_exactly}
use krelay.Prelude.Stateful.{bind_ok, bind_err}
use krelay.Golib.Reader.Laws.{available, ending, read_exactly_enough, read_exactly_short}
use krelay.Xnet.Udp.{udp_conn_read, udp_buffer_size, read_udp_from_stream, stream_error}

-- A packet with its length in front.
abbrev pub frame : Bytes → Bytes
frame d = put_uint16 (u16 (length d)) ++ d

-- A packet that fits the buffer behind the length is framed whole.
pub udp_conn_read-frame :
    (capacity : ℕ) (d : Bytes) → length d + 2 ≤ capacity → udp_conn_read capacity d ≡ frame d
unfolding udp_conn_read
udp_conn_read-frame capacity d h = rw (take_all (capacity - 2) d (omega arith)) refl

-- The length that a whole prefix tells, and the packet behind it.
read_udp_lem :
    (capacity hi lo : ℕ) (d rest : Bytes) (r : Reader)
    → available r ≡ hi ∷ lo ∷ (d ++ rest)
    → length d ≡ uint16 (hi ∷ lo ∷ [])
    → length d ≤ capacity
    → (r' : Reader) × (read_udp_from_stream capacity r ≡ (ok d, r'))
      × (available r' ≡ rest)
      × (ending r' ≡ ending r)
unfolding read_udp_from_stream
read_udp_lem capacity hi lo d rest r h size fits =
    let opening : Bytes = hi ∷ lo ∷ [] in
    let n = uint16 (hi ∷ lo ∷ []) in
    let (r1, first, left, same) = read_exactly_enough stream_error 2 r opening (d ++ rest) h refl in
    let (r2, second, left', same') = read_exactly_enough stream_error n r1 d rest left (sym size) in
    let in_range : ltb capacity n ≡ false = le→ltb capacity n (omega arith) in
    (r2, bind_ok (read_exactly stream_error 2) _ first ∙ rw in_range second, left', same' ∙ same)

-- A framed packet is read back, in whatever pieces it arrives, and the bytes behind it stay.
pub read_udp_from_stream-frame :
    (d rest : Bytes) (r : Reader)
    → length d < 65536
    → available r ≡ frame d ++ rest
    → (r' : Reader) × (read_udp_from_stream udp_buffer_size r ≡ (ok d, r'))
      × (available r' ≡ rest)
      × (ending r' ≡ ending r)
read_udp_from_stream-frame d rest r short h =
    read_udp_lem udp_buffer_size (u16 (length d) / 256 % 256) (u16 (length d) % 256) d rest r h
      (omega arith) (omega arith)

-- At the end of the bytes the read fails as the reader does.
pub read_udp_from_stream-end :
    (capacity : ℕ) (r : Reader)
    → available r ≡ []
    → (r' : Reader) × (read_udp_from_stream capacity r ≡ (err (stream_error (ending r)), r'))
unfolding read_udp_from_stream
read_udp_from_stream-end capacity r h =
    let (r1, failed) = read_exactly_short stream_error 2 r (rw h (omega arith)) in
    (r1, bind_err (read_exactly stream_error 2) _ (failed ∙ rw h refl))
