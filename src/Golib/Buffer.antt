-- ===== src/Golib/Buffer.antt =====
-- `make`, `copy` and stores into a part of a buffer.
use krelay.Prelude.{
  ℕ, suc, ◌+◌, ◌≡◌, refl, ap, [], ◌∷◌, ◌++◌, ◌-◌, arith, append-nil, length-append, drop-length,
  take-length, take-append_left, drop-append_left, Bytes, length, take, drop, slice,
}

-- `copy(dst, src)` stores as many bytes as both hold.
abbrev pub copy : Bytes → Bytes → Bytes
copy [] src = []
copy (d ∷ dst) [] = d ∷ dst
copy (d ∷ dst) (s ∷ src) = s ∷ copy dst src

-- A store into `buf[lo:hi]`, by what it makes of that part.
unfoldable pub splice : ℕ → ℕ → (Bytes → Bytes) → Bytes → Bytes
splice lo hi f buf = take lo buf ++ (f (slice lo hi buf) ++ drop hi buf)

pub length-copy : (dst src : Bytes) → length (copy dst src) ≡ length dst
length-copy [] src = refl
length-copy (d ∷ dst) [] = refl
length-copy (d ∷ dst) (s ∷ src) = ap suc (length-copy dst src)

-- A copy into a buffer of the same length gives the source.
pub copy_same : (dst src : Bytes) → length dst ≡ length src → copy dst src ≡ src
copy_same [] [] h = refl
copy_same [] (s ∷ src) h = ground arith
copy_same (d ∷ dst) [] h = ground arith
copy_same (d ∷ dst) (s ∷ src) h = ap (◌∷◌ s) (copy_same dst src (omega arith))

-- A store into the rest of a buffer, behind its first part.
pub splice_end :
    (xs mid : Bytes) (f : Bytes → Bytes) (lo hi : ℕ)
    → lo ≡ length xs
    → hi ≡ length xs + length mid
    → splice lo hi f (xs ++ mid) ≡ xs ++ f mid
unfolding splice
splice_end xs mid f lo hi e e' =
    let span : hi - lo ≡ length mid = omega arith in
    let no_more : drop hi (xs ++ mid) ≡ [] =
      rw (e', ← length-append xs mid) (drop-length (xs ++ mid)) in
    rw
      (
        no_more,
        span,
        e,
        take-append_left xs mid,
        drop-append_left xs mid,
        take-length mid,
        append-nil,
      )
      refl
