-- ===== src/Xnet/Udp.antt =====
-- pkg/xnet/udp.go: UDP packets with their length in front, on a stream, and the two copy loops of
-- `ProxyUDP`.
pub mod Frames
pub mod Loops
pub mod Delivery
pub mod Pieces
pub mod Idle
pub mod Total
pub mod Relay
pub mod Session
use krelay.Prelude.{
  ℕ, zero, suc, ◌+◌, ◌-◌, Bool, true, false, List, [], ◌∷◌, ◌++◌, ltb, Bytes, length, take, drop,
  Result, ok, err, Option, none, some, if◌then◌else◌, not, ◌&&◌,
}
use krelay.Golib.Endian.{u16, put_uint16, uint16}
use krelay.Golib.Reader.{ReadError, timed_out, Reader, Reads, read_exactly}
use krelay.Prelude.Stateful.{returns, throws, ◌>>=◌, ◌>>◌}
use krelay.Xio.{Writer, write_full}

-- UDPBufferSize of pkg/constants.
abbrev pub udp_buffer_size : ℕ
udp_buffer_size = 65538

-- `Read` and `ReadFrom` of UDPConn on a packet that arrives, into a buffer of `capacity` bytes: the
-- packet is cut to what fits behind the length.
unfoldable pub udp_conn_read : ℕ → Bytes → Bytes
udp_conn_read capacity packet =
    let n = length (take (capacity - 2) packet) in put_uint16 (u16 n) ++ take (capacity - 2) packet

-- `buf[:length]` of a longer length panics.
pub data StreamError : Type 0 where
  stream_error : ReadError → StreamError
  slice_out_of_range : StreamError

abbrev pub check_range : Bool → Reads StreamError (Unit {0})
check_range true = throws slice_out_of_range
check_range false = returns tt

-- ReadUDPFromStream with a buffer of `capacity` bytes; it returns `buf[:n]`.
unfoldable pub read_udp_from_stream : ℕ → Reads StreamError Bytes
read_udp_from_stream capacity = do
  length_buf ← read_exactly stream_error 2
  let length = uint16 length_buf
  check_range (ltb capacity length)
  read_exactly stream_error length
