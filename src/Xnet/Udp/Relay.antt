-- ===== src/Xnet/Udp/Relay.antt =====
-- From the destination's socket over the stream to the local client.
use krelay.Prelude.{
  ℕ, ◌<◌, ◌≡◌, ◌≢◌, refl, ap, ◌∙◌, List, [], ◌∷◌, ◌++◌, arith, Bytes, length, some, All, map, Bool,
  inl, inr, Bool-cases, take,
}
use krelay.Golib.Reader.{Reader}
use krelay.Golib.Reader.Laws.{available}
use krelay.Xio.{Writer, write_full}
use krelay.Xio.Delivery.{sent, sent-append, write_full-sent}
use krelay.Xnet.Udp.{udp_buffer_size, udp_conn_read}
use krelay.Xnet.Udp.Frames.{frame, udp_conn_read-frame}
use krelay.Xnet.Udp.Loops.{write_failed, packet, up_loop, reply_loop}
use krelay.Xnet.Udp.Delivery.{frames, IsPacket, reply_loop-frames}

-- Unless a write failed, the stream gets the packets in their frames, in order, however the writes
-- split them.
pub up_loop-frames :
    (ps : List Bytes) (w : Writer) (done : List Bool)
    → All IsPacket ps
    → (up_loop (map packet ps) w done).exit ≢ write_failed
    → sent (up_loop (map packet ps) w done).writes ≡ frames ps
unfolding up_loop
up_loop-frames [] w done _ went = refl
up_loop-frames (p ∷ ps) w done (h, hs) went =
    let frame_of = udp_conn_read-frame udp_buffer_size p (omega arith) in
    let written = write_full w (udp_conn_read udp_buffer_size p) in
    elim (Bool-cases written.error) [
      | inl failed ↦ absurd (went (rw failed))
      | inr fine ↦
          let rest = up_loop-frames ps written.writer done hs (λ e. went (rw fine e)) in
          rw fine (
            sent-append written.writes _
            ∙ ap (λ t. t ++ sent (up_loop (map packet ps) written.writer done).writes)
                (write_full-sent w (udp_conn_read udp_buffer_size p) fine ∙ frame_of)
            ∙ ap (frame p ++◌) rest)
    ]

-- The packets that the destination sends arrive at the local client as they were, empty ones
-- too, in order, up to the first that its socket refuses, if the stream carries what the server
-- wrote with no failed write and no failed read, in whatever pieces.
pub reply_loop-up_loop :
    (fuel room : ℕ) (ps : List Bytes) (w : Writer) (done : List Bool) (r : Reader)
    → length ps < fuel
    → All IsPacket ps
    → (up_loop (map packet ps) w done).exit ≢ write_failed
    → available r ≡ sent (up_loop (map packet ps) w done).writes
    → reply_loop fuel room r ≡ some (take room ps)
reply_loop-up_loop fuel room ps w done r enough hs went carried =
    reply_loop-frames fuel room ps r enough hs (carried ∙ up_loop-frames ps w done hs went)
