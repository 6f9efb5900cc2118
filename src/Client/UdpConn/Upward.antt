-- ===== src/Client/UdpConn/Upward.antt =====
-- From the local client over the stream to the destination's socket.
use krelay.Prelude.{
  ℕ, ◌<◌, ◌≡◌, ◌≢◌, refl, ap, ◌∙◌, List, [], ◌∷◌, ◌++◌, arith, Bytes, length, some, All, Bool, true,
  false, inl, inr, Bool-cases,
}
use krelay.Golib.Reader.{Reader, eof}
use krelay.Golib.Reader.Laws.{available, ending}
use krelay.Xio.{Writer, write_full}
use krelay.Xio.Delivery.{sent, sent-append, write_full-sent}
use krelay.Xnet.Udp.{udp_buffer_size, udp_conn_read, stream_error}
use krelay.Xnet.Udp.Frames.{frame, udp_conn_read-frame}
use krelay.Xnet.Udp.Loops.{read_failed, down_loop}
use krelay.Xnet.Udp.Delivery.{frames, IsPacket, Swallows, non_empty, down_loop-frames}
use krelay.Client.UdpConn.{DataEvent, datum, write_data}

-- The packets of a client as `ReadFrom` of the listener gives them.
abbrev pub data_of : List Bytes → List DataEvent
data_of [] = []
data_of (p ∷ ps) = datum (udp_conn_read udp_buffer_size p) ∷ data_of ps

write_data-frames :
    (ps : List Bytes) (w : Writer)
    → All IsPacket ps
    → (write_data (data_of ps) w).done ≢ true
    → sent (write_data (data_of ps) w).writes ≡ frames ps
unfolding write_data
write_data-frames [] w _ went = refl
write_data-frames (p ∷ ps) w (h, hs) went =
    let frame_of = udp_conn_read-frame udp_buffer_size p (omega arith) in
    let written = write_full w (udp_conn_read udp_buffer_size p) in
    elim (Bool-cases written.error) [
      | inl failed ↦ absurd (went (rw failed))
      | inr fine ↦
          let rest = write_data-frames ps written.writer hs (λ e. went (rw fine e)) in
          rw fine (
            sent-append written.writes _
            ∙ ap (λ t. t ++ sent (write_data (data_of ps) written.writer).writes)
                (write_full-sent w (udp_conn_read udp_buffer_size p) fine ∙ frame_of)
            ∙ ap (frame p ++◌) rest)
    ]

-- The packets of a local client reach the destination's socket as they were, each as one write, in
-- order, but for empty ones, if no write to the stream failed, the stream carries what was written and
-- then ends, in whatever pieces, and the socket takes each packet.
pub down_loop-write_data :
    (fuel : ℕ) (ps : List Bytes) (w : Writer) (r : Reader) (socket : Writer) (done : List Bool)
    → length ps < fuel
    → All IsPacket ps
    → (write_data (data_of ps) w).done ≡ false
    → available r ≡ sent (write_data (data_of ps) w).writes
    → ending r ≡ eof
    → Swallows ps socket
    → down_loop fuel r socket done
      ≡ some (record {
        writes = non_empty ps;
        resets = length ps;
        exit = read_failed (stream_error eof);
      })
down_loop-write_data fuel ps w r socket done enough hs goes_on carried ends room =
    let carried' = carried ∙ write_data-frames ps w hs (λ e. absurd cc) in
    down_loop-frames fuel ps r socket done enough hs carried' ends room
