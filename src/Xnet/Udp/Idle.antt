-- ===== src/Xnet/Udp/Idle.antt =====
-- The loop of ProxyUDP that reads from the client, through pauses of the client.
use krelay.Prelude.{
  ℕ, zero, suc, ◌+◌, ◌<◌, ◌≡◌, ◌≢◌, refl, ap, ◌∙◌, List, [], ◌∷◌, ◌++◌, inl, inr, some, arith,
  Bytes, length, length-append, All, Bool, true, false, ◌⊎◌,
}
use krelay.Golib.Reader.{
  ReadError, eof, unexpected_eof, closed, broken, timed_out, fault, Reader, fill, read_full,
  read_exactly,
}
use krelay.Xio.{Writer, accepts, fails}
use krelay.Xio.Delivery.{write_full_whole, write_full_empty}
use krelay.Xnet.Udp.{read_udp_from_stream, stream_error}
use krelay.Xnet.Udp.Pieces.{join, arriving, HoldsByte, read_udp_pieces}
use krelay.Xnet.Udp.Loops.{
  Copied, Exit, stopped, log_round, read_failed, next_done, down_loop, down_round,
}
use krelay.Xnet.Udp.Delivery.{IsPacket, frames, Swallows, non_empty}

-- What packets add to what is copied behind them.
abbrev pub ahead : List Bytes → Copied → Copied
ahead [] c = c
ahead ([] ∷ ds) c = log_round [] (ahead ds c)
ahead ((b ∷ d) ∷ ds) c = log_round ((b ∷ d) ∷ []) (ahead ds c)

-- The loop sends the packets of a burst, and then goes on with what follows it.
down_loop_burst :
    {c : Copied} (m fuel : ℕ) (ps ds cs : List Bytes) (r : Reader) (w : Writer) (done : List Bool)
    → All HoldsByte cs
    → join cs ≡ frames ps
    → All IsPacket ps
    → Swallows (ps ++ ds) w
    → m + length ps < fuel
    → ((fuel' : ℕ) (w' : Writer) → m < fuel' → Swallows ds w' → down_loop fuel' r w' done ≡ some c)
    → down_loop fuel (arriving cs r) w done ≡ some (ahead ps c)
unfolding down_loop
down_loop_burst m fuel [] ds [] r w done full same small room h next =
    next fuel w (omega arith) room
down_loop_burst m fuel [] ds ([] ∷ cs) r w done (byte, full) same small room h next = elim byte [ ]
down_loop_burst m fuel [] ds ((b ∷ c) ∷ cs) r w done full same small room h next = absurd cc
down_loop_burst m zero (p ∷ ps) ds cs r w done full same small room h next = elim h [ ]
down_loop_burst m (suc fuel) ([] ∷ ps) ds cs r w done full same (short, small) room h next =
    let (cs', ran, full', left) = read_udp_pieces [] (frames ps) cs r full short same in
    let later =
      down_loop_burst m fuel ps ds cs' r w done full' left small room (omega arith) next in
    ap (down_round (down_loop fuel) w done) ran ∙ rw (write_full_empty w, later) refl
down_loop_burst m (suc fuel) ((b ∷ d) ∷ ps) ds cs r (accepts k ∷ w) done full same (short, small)
      (fits, room) h next =
    let (cs', ran, full', left) = read_udp_pieces (b ∷ d) (frames ps) cs r full short same in
    let later =
      down_loop_burst m fuel ps ds cs' r w done full' left small room (omega arith) next in
    ap (down_round (down_loop fuel) (accepts k ∷ w) done) ran
    ∙ rw (write_full_whole (b ∷ d) k w (omega arith) fits, later) refl
down_loop_burst m (suc fuel) ((b ∷ d) ∷ ps) ds cs r [] done full same small room h next =
    elim room [ ]
down_loop_burst m (suc fuel) ((b ∷ d) ∷ ps) ds cs r (fails _ ∷ w) done full same small room h next =
    elim room [ ]

-- What a client sends that pauses only between its packets: after the pauses, the packets, and how
-- the reader fails behind them.
pub data Schedule : ℕ → List Bytes → ReadError → Reader → Type 0 where
  no_more : Schedule 0 [] eof []
  breaks : {e : ReadError} {r : Reader} → Schedule 0 [] e (fault e ∷ r)
  pause :
      {k : ℕ} {ds : List Bytes} {e : ReadError} {r : Reader}
      → Schedule k ds e r
      → Schedule (suc k) ds e (fault timed_out ∷ r)
  burst :
      {k : ℕ} {ds : List Bytes} {e : ReadError} {r : Reader} (ps cs : List Bytes)
      → All HoldsByte cs
      → join cs ≡ frames ps
      → All IsPacket ps
      → Schedule k ds e r
      → Schedule k (ps ++ ds) e (arriving cs r)

-- The alarm is not done at these rounds.
abbrev pub awake : ℕ → List Bool → List Bool
awake zero done = done
awake (suc k) done = false ∷ awake k done

-- The error does not let the loop go on.
abbrev pub IsLast : ReadError → List Bool → Type 0
IsLast e done = (e ≢ timed_out) ⊎ (next_done done ≡ true)

ends_at :
    (fuel : ℕ) (e : ReadError) (r : Reader) (w : Writer) (done : List Bool)
    → IsLast e done
    → down_loop (suc fuel) (fault e ∷ r) w done
      ≡ some (record { writes = []; resets = 0; exit = read_failed (stream_error e) })
unfolding down_loop read_udp_from_stream read_exactly read_full fill
ends_at fuel eof r w done last = refl
ends_at fuel unexpected_eof r w done last = refl
ends_at fuel closed r w done last = refl
ends_at fuel broken r w done last = refl
ends_at fuel timed_out r w done (inl other) = absurd (other refl)
ends_at fuel timed_out r w done (inr over) = rw over refl

nothing_comes :
    (fuel : ℕ) (w : Writer) (done : List Bool)
    → down_loop (suc fuel) [] w done ≡ some (stopped (read_failed (stream_error eof)))
unfolding down_loop read_udp_from_stream read_exactly read_full fill
nothing_comes fuel w done = refl

ahead-append : (ps ds : List Bytes) (c : Copied) → ahead ps (ahead ds c) ≡ ahead (ps ++ ds) c
ahead-append [] ds c = refl
ahead-append ([] ∷ ps) ds c = ap (log_round []) (ahead-append ps ds c)
ahead-append ((b ∷ p) ∷ ps) ds c = ap (log_round ((b ∷ p) ∷ [])) (ahead-append ps ds c)

ahead-stopped :
    (ds : List Bytes) (x : Exit)
    → ahead ds (stopped x) ≡ record { writes = non_empty ds; resets = length ds; exit = x }
ahead-stopped [] x = refl
ahead-stopped ([] ∷ ds) x = ap (log_round []) (ahead-stopped ds x)
ahead-stopped ((b ∷ d) ∷ ds) x = ap (log_round ((b ∷ d) ∷ [])) (ahead-stopped ds x)

pause_round :
    (fuel : ℕ) (r : Reader) (w : Writer) (done : List Bool)
    → down_loop (suc fuel) (fault timed_out ∷ r) w (false ∷ done) ≡ down_loop fuel r w done
unfolding down_loop read_udp_from_stream read_exactly read_full fill
pause_round fuel r w done = refl

Schedule-ahead :
    {k : ℕ} {ds : List Bytes} {e : ReadError} {r : Reader} (fuel : ℕ) (w : Writer)
    (done : List Bool)
    → Schedule k ds e r
    → k + length ds < fuel
    → Swallows ds w
    → IsLast e done
    → down_loop fuel r w (awake k done) ≡ some (ahead ds (stopped (read_failed (stream_error e))))
Schedule-ahead zero w done s h room last = elim h [ ]
Schedule-ahead (suc fuel) w done no_more h room last = nothing_comes fuel w done
Schedule-ahead (suc fuel) w done (breaks {e} {r}) h room last = ends_at fuel e r w done last
Schedule-ahead (suc fuel) w done (pause {k} {ds} {e} {r} s) h room last =
    pause_round fuel r w (awake k done) ∙ Schedule-ahead fuel w done s (omega arith) room last
Schedule-ahead (suc fuel) w done (burst {k} {ds} {e} {r} ps cs full same small s) h room last =
    down_loop_burst (k + length ds) (suc fuel) ps ds cs r w (awake k done) full same small room
      (omega (arith, length-append ps ds))
      (λ fuel' w' h' room'. Schedule-ahead fuel' w' done s h' room' last)
    ∙ ap some (ahead-append ps ds (stopped (read_failed (stream_error e))))

-- A client that pauses between its packets: at each read that ends by a timeout without a byte, while
-- the alarm is not done, the loop goes on reading; it sends every packet that holds a byte, in order, as
-- one write of its own, and resets the alarm once for each packet. It returns at the first other failed
-- read, with its error: the end of the stream, another error, or a timeout when the alarm is done. The
-- conditions: no pause falls into a packet, though packets may be cut into pieces and joined at will
-- between the pauses; each packet is shorter than 65536 bytes; the alarm is not done at the pauses; the
-- socket takes each packet whole; and the loop may run once more than there are packets and pauses.
pub down_loop-Schedule :
    {k : ℕ} {ds : List Bytes} {e : ReadError} {r : Reader} (fuel : ℕ) (w : Writer)
    (done : List Bool)
    → Schedule k ds e r
    → k + length ds < fuel
    → Swallows ds w
    → IsLast e done
    → down_loop fuel r w (awake k done)
      ≡ some (record {
        writes = non_empty ds;
        resets = length ds;
        exit = read_failed (stream_error e);
      })
down_loop-Schedule {k} {ds} {e} fuel w done s h room last =
    Schedule-ahead fuel w done s h room last ∙ ap some (ahead-stopped ds _)
