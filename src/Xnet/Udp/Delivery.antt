-- ===== src/Xnet/Udp/Delivery.antt =====
-- What the copy loops deliver.
use krelay.Prelude.{
  ℕ, zero, suc, ◌≤◌, ◌<◌, ◌≡◌, refl, ap, ◌∙◌, List, [], ◌∷◌, ◌++◌, arith, Bytes, length, some, All,
  Bool, false, take,
}
use krelay.Golib.Reader.{Reader, eof, timed_out, chunk, fault, read_exactly}
use krelay.Golib.Reader.Laws.{available, ending}
use krelay.Xio.{Writer, accepts, fails}
use krelay.Xio.Delivery.{write_full_whole, write_full_empty}
use krelay.Xnet.Udp.{udp_buffer_size, read_udp_from_stream, stream_error}
use krelay.Xnet.Udp.Frames.{frame, read_udp_from_stream-frame, read_udp_from_stream-end}
use krelay.Xnet.Udp.Loops.{read_failed, down_loop, down_round, reply_loop, reply_round}

abbrev pub IsPacket : Bytes → Type 0
IsPacket d = length d < 65536

-- Packets in their frames, one behind the other.
abbrev pub frames : List Bytes → Bytes
frames [] = []
frames (d ∷ ds) = frame d ++ frames ds

-- The client's socket gets the framed packets in order, empty ones too, up to the first that it
-- refuses, if no read fails before the end of the stream and the loop may run once more than there
-- are packets.
pub reply_loop-frames :
    (fuel room : ℕ) (ds : List Bytes) (r : Reader)
    → length ds < fuel
    → All IsPacket ds
    → available r ≡ frames ds
    → reply_loop fuel room r ≡ some (take room ds)
unfolding reply_loop
reply_loop-frames zero room ds r h _ _ = elim h [ ]
reply_loop-frames (suc fuel) zero [] r h _ arrives =
    let (r', failed) = read_udp_from_stream-end udp_buffer_size r arrives in
    ap (reply_round (reply_loop fuel) zero) failed
reply_loop-frames (suc fuel) (suc room) [] r h _ arrives =
    let (r', failed) = read_udp_from_stream-end udp_buffer_size r arrives in
    ap (reply_round (reply_loop fuel) (suc room)) failed
reply_loop-frames (suc fuel) zero (d ∷ ds) r h (p, ps) arrives =
    let (r', ran, left, same) = read_udp_from_stream-frame d (frames ds) r p arrives in
    ap (reply_round (reply_loop fuel) zero) ran
reply_loop-frames (suc fuel) (suc room) (d ∷ ds) r h (p, ps) arrives =
    let (r', ran, left, same) = read_udp_from_stream-frame d (frames ds) r p arrives in
    ap (reply_round (reply_loop fuel) (suc room)) ran
    ∙ rw (reply_loop-frames fuel room ds r' (omega arith) ps left)

-- A socket that takes each of these packets whole. An empty packet makes no call.
abbrev pub Swallows : List Bytes → Writer → Type 0
Swallows [] w = Unit
Swallows ([] ∷ ds) w = Swallows ds w
Swallows ((b ∷ d) ∷ ds) (accepts k ∷ w) = (length (b ∷ d) ≤ k) × Swallows ds w
Swallows ((b ∷ d) ∷ ds) _ = ⊥

-- The packets that hold a byte.
abbrev pub non_empty : List Bytes → List Bytes
non_empty [] = []
non_empty ([] ∷ ds) = non_empty ds
non_empty ((b ∷ d) ∷ ds) = (b ∷ d) ∷ non_empty ds

-- If no read fails before the end of the stream, the socket takes each packet whole, and the loop may
-- run once more than there are packets, the destination gets each framed packet as one write of its
-- own, in order, except that empty packets are not sent at all; the alarm is reset once for each
-- packet, and the loop returns at the end of the stream.
pub down_loop-frames :
    (fuel : ℕ) (ds : List Bytes) (r : Reader) (w : Writer) (done : List Bool)
    → length ds < fuel
    → All IsPacket ds
    → available r ≡ frames ds
    → ending r ≡ eof
    → Swallows ds w
    → down_loop fuel r w done
      ≡ some (record {
        writes = non_empty ds;
        resets = length ds;
        exit = read_failed (stream_error eof);
      })
unfolding down_loop
down_loop-frames zero ds r w done h _ _ _ _ = elim h [ ]
down_loop-frames (suc fuel) [] r w done h _ arrives ends _ =
    let (r', failed) = read_udp_from_stream-end udp_buffer_size r arrives in
    ap (down_round (down_loop fuel) w done) failed ∙ rw ends refl
down_loop-frames (suc fuel) ([] ∷ ds) r w done h (p, ps) arrives ends room =
    let (r', ran, left, same) = read_udp_from_stream-frame [] (frames ds) r p arrives in
    let later = down_loop-frames fuel ds r' w done (omega arith) ps left (same ∙ ends) room in
    ap (down_round (down_loop fuel) w done) ran ∙ rw (write_full_empty w, later) refl
down_loop-frames (suc fuel) ((b ∷ d) ∷ ds) r (accepts k ∷ w) done h (p, ps) arrives ends
      (fits, room) =
    let (r', ran, left, same) = read_udp_from_stream-frame (b ∷ d) (frames ds) r p arrives in
    let later = down_loop-frames fuel ds r' w done (omega arith) ps left (same ∙ ends) room in
    ap (down_round (down_loop fuel) (accepts k ∷ w) done) ran
    ∙ rw (write_full_whole (b ∷ d) k w (omega arith) fits, later) refl
down_loop-frames (suc fuel) ((b ∷ d) ∷ ds) r [] done h _ _ _ room = elim room [ ]
down_loop-frames (suc fuel) ((b ∷ d) ∷ ds) r (fails _ ∷ w) done h _ _ _ room = elim room [ ]

-- A timeout behind fewer than two bytes, with the alarm not done: the loop goes on with what comes
-- after the timeout as if it were the start of a frame. With no byte in front that is right; a
-- first byte of a length that came before the timeout is lost.
pub down_loop-timed_out :
    (fuel : ℕ) (cut : Bytes) (r : Reader) (w : Writer) (done : List Bool)
    → length cut < 2
    → down_loop (suc fuel) (chunk cut ∷ fault timed_out ∷ r) w (false ∷ done)
      ≡ down_loop fuel r w done
unfolding down_loop read_udp_from_stream read_exactly
down_loop-timed_out fuel [] r w done h = refl
down_loop-timed_out fuel (b ∷ []) r w done h = refl
down_loop-timed_out fuel (b ∷ c ∷ cut) r w done h = absurd (omega arith)
