-- ===== src/Xnet/Udp/Pieces.antt =====
-- A packet on the stream whose pieces all arrive in front of an event.
use krelay.Prelude.{
  ℕ, zero, suc, ◌-◌, ◌≤◌, ◌<◌, ◌≡◌, refl, sym, ap, ◌∙◌, List, [], ◌∷◌, ◌++◌, inl, inr, none, arith,
  leb, leb→le, not-leb→lt, Bool-cases, Bytes, length, take, drop, length-append, length-drop,
  take-append_ge, drop-append_ge, take-append_le, drop-append_le, take-append_left,
  drop-append_left, ok, All, false, ltb, le→ltb, ◌/◌, ◌%◌,
}
use krelay.Golib.Endian.{u16, uint16}
use krelay.Golib.Reader.{ReadError, chunk, Reader, fill, read_full, read_exactly}
use krelay.Prelude.Stateful.{bind_ok}
use krelay.Xnet.Udp.{udp_buffer_size, read_udp_from_stream, stream_error}
use krelay.Xnet.Udp.Frames.{frame}
use krelay.Xnet.Udp.Delivery.{IsPacket}

-- Pieces that arrive one behind the other.
abbrev pub join : List Bytes → Bytes
join [] = []
join (c ∷ cs) = c ++ join cs

abbrev pub arriving : List Bytes → Reader → Reader
arriving [] r = r
arriving (c ∷ cs) r = chunk c ∷ arriving cs r

abbrev pub HoldsByte : Bytes → Type 0
HoldsByte c = 0 < length c

-- The reader behind the first bytes of some pieces: the others, and what follows, to the event.
abbrev Remains : List Bytes → Reader → ℕ → Type 0
Remains cs r n =
    (cs' : List Bytes) × ((fill n (arriving cs r)).error ≡ none)
    × ((fill n (arriving cs r)).got ≡ take n (join cs))
    × ((fill n (arriving cs r)).rest ≡ arriving cs' r)
    × All HoldsByte cs'
    × (join cs' ≡ drop n (join cs))

fill-Remains :
    (n : ℕ) (cs : List Bytes) (r : Reader)
    → All HoldsByte cs
    → n ≤ length (join cs)
    → Remains cs r n
unfolding fill
fill-Remains zero cs r full h = (cs, refl, refl, refl, full, refl)
fill-Remains (suc k) [] r full h = elim h [ ]
fill-Remains (suc k) (c ∷ cs) r (byte, full) h = elim (Bool-cases (leb (length c) (suc k))) [
  | inl fits ↦
      let le = leb→le (length c) (suc k) fits in
      let (cs', e, g, a, full', d) =
        fill-Remains (suc k - length c) cs r full (omega (arith, length-append c (join cs))) in
      rw fits (
        cs',
        e,
        ap (c ++◌) g ∙ sym (take-append_ge (suc k) c _ le),
        a,
        full',
        d ∙ sym (drop-append_ge (suc k) c _ le),
      )
  | inr more ↦
      let lt = not-leb→lt (length c) (suc k) more in
      rw more (
        drop (suc k) c ∷ cs,
        refl,
        sym (take-append_le (suc k) c _ (omega arith)),
        refl,
        (omega (arith, length-drop (suc k) c), full),
        sym (drop-append_le (suc k) c _ (omega arith)),
      )
]

read_pieces :
    {E : Type 0} (wrap : ReadError → E) (n : ℕ) (cs : List Bytes) (r : Reader) (xs ys : Bytes)
    → All HoldsByte cs
    → join cs ≡ xs ++ ys
    → n ≡ length xs
    → (cs' : List Bytes) × (read_exactly wrap n (arriving cs r) ≡ (ok xs, arriving cs' r))
      × All HoldsByte cs'
      × (join cs' ≡ ys)
unfolding read_exactly read_full
read_pieces wrap n cs r xs ys full h e =
    let fits : n ≤ length (join cs) = omega (arith, ap length h, length-append xs ys) in
    let (cs', no_error, got, left, full', same) = fill-Remains n cs r full fits in
    let first : take n (join cs) ≡ xs = rw (h, e) (take-append_left xs ys) in
    let others : drop n (join cs) ≡ ys = rw (h, e) (drop-append_left xs ys) in
    (cs', ground arith, full', same ∙ others)

-- A framed packet is read back, and what follows it in the pieces stays.
pub read_udp_pieces :
    (d rest : Bytes) (cs : List Bytes) (r : Reader)
    → All HoldsByte cs
    → IsPacket d
    → join cs ≡ frame d ++ rest
    → (cs' : List Bytes) × (read_udp_from_stream udp_buffer_size (arriving cs r)
        ≡ (ok d, arriving cs' r))
      × All HoldsByte cs'
      × (join cs' ≡ rest)
unfolding read_udp_from_stream
read_udp_pieces d rest cs r full short h =
    let hi = u16 (length d) / 256 % 256 in
    let lo = u16 (length d) % 256 in
    let n = uint16 (hi ∷ lo ∷ []) in
    let size : n ≡ length d = omega arith in
    let (c1, first, f1, left) =
      read_pieces stream_error 2 cs r (hi ∷ lo ∷ []) (d ++ rest) full h refl in
    let (c2, second, f2, left') = read_pieces stream_error n c1 r d rest f1 left size in
    let in_range : ltb udp_buffer_size n ≡ false = le→ltb udp_buffer_size n (omega arith) in
    (c2, bind_ok (read_exactly stream_error 2) _ first ∙ rw in_range second, f2, left')
