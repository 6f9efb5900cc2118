-- ===== src/Xnet/Udp/Total.antt =====
-- The copy loops return, whatever their readers hold: each round takes something from the reader.
use mathlib.Core.Option
use krelay.Prelude.{
  ℕ, zero, suc, ◌≤◌, ◌<◌, ◌≡◌, refl, ap, List, [], ◌∷◌, arith, Bytes, Result, ok, err, Option, some,
  Bool, true, false, ◌&&◌, not, ltb, if◌then◌else◌,
}
use krelay.Golib.Reader.{Reader, ReadEvent, eof, chunk, fault, read_exactly}
use krelay.Prelude.Stateful.{◌>>◌}
use krelay.Golib.Reader.Laws.{weight, continue-weight, read_exactly-weight, read_exactly-weight_lt}
use krelay.Golib.Endian.{uint16}
use krelay.Xio.{Writer, write_full}
use krelay.Xnet.Udp.{check_range, udp_buffer_size, read_udp_from_stream, stream_error, StreamError}
use krelay.Xnet.Udp.Frames.{read_udp_from_stream-end}
use krelay.Xnet.Udp.Loops.{
  read_failed, Copied, stopped, is_timeout, next_done, later_done, down_loop, down_round,
}

check_range-weight :
    (b : Bool) (n : ℕ) (r : Reader)
    → weight ((check_range b >> read_exactly stream_error n) r).1 ≤ weight r
check_range-weight true n r = omega arith
check_range-weight false n r = read_exactly-weight stream_error n r

read_udp-weight :
    (capacity : ℕ) (r : Reader)
    → 0 < weight r
    → weight (read_udp_from_stream capacity r).1 < weight r
unfolding read_udp_from_stream
read_udp-weight capacity r h =
    let first = read_exactly stream_error 2 r in
    let later =
      continue-weight
        (λ (b : Bytes).
          check_range (ltb capacity (uint16 b)) >> read_exactly stream_error (uint16 b))
        first (λ b. check_range-weight (ltb capacity (uint16 b)) (uint16 b)) in
    omega (arith, later, read_exactly-weight_lt stream_error 1 r h)

abbrev Returns {ℓ} : {A : Type ℓ} → Option A → Type ℓ
Returns {A} o = (a : A) × (o ≡ some a)

if-Returns {ℓ} :
    {A : Type ℓ} (b : Bool) {x y : Option A} → Returns x → Returns y → Returns (if b then x else y)
if-Returns true hx hy = hx
if-Returns false hx hy = hy

weight_pos : (e : ReadEvent) (r : Reader) → 0 < weight (e ∷ r)
weight_pos (chunk c) r = omega arith
weight_pos (fault e) r = omega arith

map-Returns {ℓ κ} :
    {A : Type ℓ} {B : Type κ} (f : A → B) (o : Option A) → Returns o → Returns (Option.map f o)
map-Returns f o (a, h) = (f a, ap (Option.map f) h)

module _ (again : Reader → Writer → List Bool → Option Copied) where
  down_round-Returns :
      (w : Writer) (done : List Bool) (x : Result StreamError Bytes × Reader)
      → ((w' : Writer) (done' : List Bool) → Returns (again x.1 w' done'))
      → Returns (down_round again w done x)
  down_round-Returns w done (ok d, r) h =
      if-Returns (write_full w d).error (_, refl) (map-Returns _ _ (h (write_full w d).writer done))
  down_round-Returns w done (err e, r) h =
      if-Returns (is_timeout e && not (next_done done)) (h w (later_done done)) (_, refl)

-- The loop towards the destination returns: as many rounds as the reader holds events and bytes
-- are enough, whatever the writes and the alarm do.
pub down_loop_total :
    (fuel : ℕ) (r : Reader) (w : Writer) (done : List Bool)
    → weight r < fuel
    → (c : Copied) × (down_loop fuel r w done ≡ some c)
unfolding down_loop
down_loop_total zero r w done h = elim h [ ]
down_loop_total (suc fuel) [] w done h =
    let (r', failed) = read_udp_from_stream-end udp_buffer_size [] refl in
    (stopped (read_failed (stream_error eof)), ap (down_round (down_loop fuel) w done) failed)
down_loop_total (suc fuel) (e ∷ r) w done h =
    let lighter = read_udp-weight udp_buffer_size (e ∷ r) (weight_pos e r) in
    down_round-Returns (down_loop fuel) w done (read_udp_from_stream udp_buffer_size (e ∷ r))
      (λ w' done'.
        down_loop_total fuel (read_udp_from_stream udp_buffer_size (e ∷ r)).1 w' done'
          (omega arith))
