-- ===== src/Xnet/Udp/Loops.antt =====
-- The copy loops of `ProxyUDP` and of the client's `handleUDPConn`, each over the fuel that its
-- rounds take, what its reader will meet, how the writes will go, and what `a.Done()` answers.
use mathlib.Core.Option
use krelay.Prelude.{
  ℕ, zero, suc, Bool, true, false, List, [], ◌∷◌, ◌++◌, Bytes, Result, ok, err, not, ◌&&◌, Option,
  none, some, if◌then◌else◌,
}
use krelay.Golib.Reader.{ReadError, timed_out, closed, Reader}
use krelay.Xio.{Writer, write_full}
use krelay.Xnet.Udp.{
  udp_conn_read, read_udp_from_stream, StreamError, stream_error, udp_buffer_size,
}

-- Why a loop returned.
pub data Exit : Type 0 where
  read_failed : StreamError → Exit
  write_failed : Exit

-- What the loop handed to its connection, one item for each write that went out, how often it
-- called `a.Reset()`, and why it returned.
pub record Copied : Type 0 where
  pub writes : List Bytes
  pub resets : ℕ
  pub exit : Exit

abbrev pub stopped : Exit → Copied
stopped e = record { writes = []; resets = 0; exit = e }

abbrev pub log_round : List Bytes → Copied → Copied
log_round bs c = record c { writes = bs ++ c.writes; resets = suc c.resets }

-- `isTimeoutError(err)`.
abbrev pub is_timeout : StreamError → Bool
is_timeout (stream_error timed_out) = true
is_timeout _ = false

-- The next answer of `a.Done()`: once the alarm is done it stays done.
abbrev pub next_done : List Bool → Bool
next_done [] = true
next_done (b ∷ bs) = b

abbrev pub later_done : List Bool → List Bool
later_done [] = []
later_done (b ∷ bs) = bs

-- What a round does with what it read, where `again` is the rest of the loop.
abbrev pub down_round :
    (Reader → Writer → List Bool → Option Copied)
    → Writer
    → List Bool
    → Result StreamError Bytes × Reader
    → Option Copied
down_round again w done (err e, r) =
    if is_timeout e && not (next_done done)
    then again r w (later_done done)
    else some (stopped (read_failed e))
down_round again w done (ok packet, r) =
    let sent = write_full w packet in
    let rest = Option.map (log_round sent.writes) (again r sent.writer done) in
    if sent.error then some (record (stopped write_failed) { writes = sent.writes }) else rest

-- The first goroutine of `ProxyUDP`: from the client's stream to the destination.
unfoldable pub down_loop : ℕ → Reader → Writer → List Bool → Option Copied
down_loop zero r w done = none
down_loop (suc fuel) r w done =
    down_round (down_loop fuel) w done (read_udp_from_stream udp_buffer_size r)

-- The reading goroutine of `handleUDPConn`: from the stream to the local client, whose socket takes
-- the first `room` packets. The result is the packets that it got.
abbrev pub reply_round :
    (ℕ → Reader → Option (List Bytes)) → ℕ → Result StreamError Bytes × Reader → Option (List Bytes)
reply_round again room (err e, r) = some []
reply_round again zero (ok packet, r) = some []
reply_round again (suc room) (ok packet, r) = Option.map (◌∷◌ packet) (again room r)

unfoldable pub reply_loop : ℕ → ℕ → Reader → Option (List Bytes)
reply_loop zero room r = none
reply_loop (suc fuel) room r =
    reply_round (reply_loop fuel) room (read_udp_from_stream udp_buffer_size r)

-- What the destination's socket will meet: a packet, or a failed read.
pub data PacketEvent : Type 0 where
  packet : Bytes → PacketEvent
  no_packet : ReadError → PacketEvent

abbrev pub is_timeout_read : ReadError → Bool
is_timeout_read timed_out = true
is_timeout_read _ = false

-- The second goroutine of `ProxyUDP`: from the destination to the client's stream. A socket with
-- no event left is closed.
unfoldable pub up_loop : List PacketEvent → Writer → List Bool → Copied
up_loop [] w done = stopped (read_failed (stream_error closed))
up_loop (no_packet e ∷ ps) w done =
    let again = up_loop ps w (later_done done) in
    if is_timeout_read e && not (next_done done)
    then again
    else stopped (read_failed (stream_error e))
up_loop (packet p ∷ ps) w done =
    let sent = write_full w (udp_conn_read udp_buffer_size p) in
    let rest = log_round sent.writes (up_loop ps sent.writer done) in
    if sent.error then record (stopped write_failed) { writes = sent.writes } else rest
