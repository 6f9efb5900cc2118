-- ===== src/Tests/Udp.antt =====
-- UDP packets on the stream.
use krelay.Prelude.{
  true, inr, ◌≡◌, ◌≢◌, refl, false, List, [], ◌∷◌, some, arith, Bytes, codes, map, take,
}
use krelay.Golib.Reader.{Reader, chunk, fault, timed_out, eof, read_exactly}
use krelay.Xio.{Writer, accepts, write_full}
use krelay.Xnet.Udp.{stream_error, read_udp_from_stream, udp_conn_read}
use krelay.Xnet.Udp.Loops.{
  Copied, packet, read_failed, write_failed, up_loop, down_loop, reply_loop,
}
use krelay.Xnet.Udp.Delivery.{frames, down_loop-frames, down_loop-timed_out}
use krelay.Xnet.Udp.Idle.{Schedule, breaks, pause, burst, down_loop-Schedule}
use krelay.Xnet.Udp.Total.{down_loop_total}
use krelay.Client.UdpConn.{write_data}
use krelay.Client.UdpConn.Upward.{down_loop-write_data}
use krelay.Xnet.Udp.Relay.{reply_loop-up_loop}

abbrev packets : List Bytes
packets = codes "hi" ∷ [] ∷ codes "you" ∷ []

abbrev framed : Bytes
framed = 0 ∷ 2 ∷ b'h' ∷ b'i' ∷ 0 ∷ 0 ∷ 0 ∷ 3 ∷ b'y' ∷ b'o' ∷ b'u' ∷ []

frames-packets : frames packets ≡ framed
frames-packets = refl

-- A stream that takes a frame in two calls.
abbrev stream : Writer
stream = accepts 1 ∷ accepts 9 ∷ accepts 9 ∷ accepts 9 ∷ []

abbrev arriving : Reader
arriving = chunk (0 ∷ []) ∷ chunk (2 ∷ b'h' ∷ b'i' ∷ 0 ∷ 0 ∷ 0 ∷ []) ∷ chunk (3 ∷ codes "you") ∷ []

up_loop-packets : (up_loop (map packet packets) stream []).exit ≢ write_failed
unfolding up_loop write_full udp_conn_read
up_loop-packets = cc

reply_loop-up_loop_example : reply_loop 9 5 arriving ≡ some (take 5 packets)
unfolding up_loop write_full udp_conn_read
reply_loop-up_loop_example =
    reply_loop-up_loop 9 5 packets stream [] arriving (omega arith) (omega arith) up_loop-packets
      refl

abbrev socket : Writer
socket = accepts 65535 ∷ accepts 65535 ∷ []

down_loop-frames_run :
    down_loop 9 arriving socket []
    ≡ some (record {
      writes = codes "hi" ∷ codes "you" ∷ [];
      resets = 3;
      exit = read_failed (stream_error eof);
    })
down_loop-frames_run =
    down_loop-frames 9 packets arriving socket [] (omega arith) (omega arith) refl refl
      (omega arith)

-- A second between the two bytes of a length: the packets behind it are not found.
abbrev interrupted : Reader
interrupted = chunk (0 ∷ []) ∷ fault timed_out ∷ chunk (2 ∷ b'h' ∷ b'i' ∷ 0 ∷ []) ∷ []

down_loop-interrupted :
    down_loop 9 interrupted socket (false ∷ [])
    ≡ down_loop 8 (chunk (2 ∷ b'h' ∷ b'i' ∷ 0 ∷ []) ∷ []) socket []
unfolding down_loop read_udp_from_stream write_full read_exactly
down_loop-interrupted = refl

down_loop-timed_out_run :
    down_loop 9 interrupted socket (false ∷ [])
    ≡ down_loop 8 (chunk (2 ∷ b'h' ∷ b'i' ∷ 0 ∷ []) ∷ []) socket []
down_loop-timed_out_run =
    down_loop-timed_out 8 (0 ∷ []) (chunk (2 ∷ b'h' ∷ b'i' ∷ 0 ∷ []) ∷ []) socket [] (omega arith)

-- Two packets, a pause, an empty one, two pauses, and then a timeout with the alarm done.
abbrev pausing : Reader
pausing =
    chunk (0 ∷ 2 ∷ b'h' ∷ [])
    ∷ chunk (b'i' ∷ 0 ∷ [])
    ∷ chunk (3 ∷ codes "you")
    ∷ fault timed_out
    ∷ chunk (0 ∷ 0 ∷ [])
    ∷ fault timed_out
    ∷ fault timed_out
    ∷ fault timed_out
    ∷ []

to_pausing : Schedule 3 (codes "hi" ∷ codes "you" ∷ [] ∷ []) timed_out pausing
to_pausing =
    burst (codes "hi" ∷ codes "you" ∷ [])
      ((0 ∷ 2 ∷ b'h' ∷ []) ∷ (b'i' ∷ 0 ∷ []) ∷ (3 ∷ codes "you") ∷ []) (omega arith) refl
      (omega arith)
      (pause (
        burst ([] ∷ []) ((0 ∷ 0 ∷ []) ∷ []) (omega arith) refl (omega arith)
          (pause (pause breaks))))

down_loop-Schedule_example :
    down_loop 7 pausing socket (false ∷ false ∷ false ∷ true ∷ [])
    ≡ some (record {
      writes = codes "hi" ∷ codes "you" ∷ [];
      resets = 3;
      exit = read_failed (stream_error timed_out);
    })
down_loop-Schedule_example =
    down_loop-Schedule 7 socket (true ∷ []) to_pausing (omega arith) (omega arith) (inr refl)

down_loop_total_example : (c : Copied) × (down_loop 20 interrupted socket [] ≡ some c)
down_loop_total_example = down_loop_total 20 interrupted socket [] (omega arith)

abbrev upstream : Writer
upstream = accepts 3 ∷ accepts 9 ∷ accepts 9 ∷ accepts 9 ∷ []

down_loop-write_data_example :
    down_loop 9 arriving socket []
    ≡ some (record {
      writes = codes "hi" ∷ codes "you" ∷ [];
      resets = 3;
      exit = read_failed (stream_error eof);
    })
unfolding write_data write_full udp_conn_read
down_loop-write_data_example =
    down_loop-write_data 9 packets upstream arriving socket [] (omega arith) (omega arith) refl refl
      refl (omega arith)
