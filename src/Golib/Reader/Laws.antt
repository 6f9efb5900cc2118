-- ===== src/Golib/Reader/Laws.antt =====
-- However the bytes arrive, `ReadFull` depends on what they are together.
use mathlib.Core.Path.{ap₂}
use krelay.Prelude.{
  ℕ, zero, suc, ◌-◌, ◌≤◌, ◌<◌, ◌≡◌, refl, sym, ap, ◌∙◌, [], ◌∷◌, ◌++◌, inl, inr, none, some, arith,
  leb, leb→le, le→leb, not-leb→lt, Bool-cases, Bytes, length, take, drop, length-append,
  length-drop, length-take, take-append-drop, ◌+◌, take-append_ge, drop-append_ge, take-append_le,
  take-append_left, drop-append_left, drop-append_le, ok, err, Result,
}
use krelay.Golib.Reader.{
  ReadError, eof, chunk, fault, Reader, fill, read_full, read_exactly, cut_error, Reads,
}
use krelay.Prelude.Stateful.{continue}

-- The bytes in front of the first failed call.
abbrev pub available : Reader → Bytes
available [] = []
available (chunk c ∷ r) = c ++ available r
available (fault e ∷ r) = []

-- How the reader fails once those are used up.
abbrev pub ending : Reader → ReadError
ending [] = eof
ending (chunk c ∷ r) = ending r
ending (fault e ∷ r) = e

fill_enough :
    (n : ℕ) (r : Reader)
    → n ≤ length (available r)
    → ((fill n r).error ≡ none)
      × ((fill n r).got ≡ take n (available r))
      × (available (fill n r).rest ≡ drop n (available r))
      × (ending (fill n r).rest ≡ ending r)
unfolding fill
fill_enough zero r h = (refl, refl, refl, refl)
fill_enough (suc k) [] h = elim h [ ]
fill_enough (suc k) (fault e ∷ r) h = elim h [ ]
fill_enough (suc k) (chunk c ∷ r) h = elim (Bool-cases (leb (length c) (suc k))) [
  | inl fits ↦
      let le = leb→le (length c) (suc k) fits in
      let (e, g, a, d) =
        fill_enough (suc k - length c) r (omega (arith, length-append c (available r))) in
      rw fits (
        e,
        ap (c ++◌) g ∙ sym (take-append_ge (suc k) c _ le),
        a ∙ sym (drop-append_ge (suc k) c _ le),
        d,
      )
  | inr more ↦
      let lt = not-leb→lt (length c) (suc k) more in
      rw more (
        refl,
        sym (take-append_le (suc k) c _ (omega arith)),
        sym (drop-append_le (suc k) c _ (omega arith)),
        refl,
      )
]

fill_short :
    (n : ℕ) (r : Reader)
    → length (available r) < n
    → ((fill n r).got ≡ available r) × ((fill n r).error ≡ some (ending r))
unfolding fill
fill_short zero r h = elim h [ ]
fill_short (suc k) [] h = (refl, refl)
fill_short (suc k) (fault e ∷ r) h = (refl, refl)
fill_short (suc k) (chunk c ∷ r) h =
    let total = length-append c (available r) in
    let fits = le→leb (length c) (suc k) (omega (arith, total)) in
    let (g, e) = fill_short (suc k - length c) r (omega (arith, total)) in rw fits (ap (c ++◌) g, e)

-- Enough bytes in front: `ReadFull` returns the first `n` of them, and leaves the others.
pub read_exactly_enough :
    {E : Type 0} (wrap : ReadError → E) (n : ℕ) (r : Reader) (xs ys : Bytes)
    → available r ≡ xs ++ ys
    → n ≡ length xs
    → (r' : Reader) × (read_exactly wrap n r ≡ (ok xs, r'))
      × (available r' ≡ ys)
      × (ending r' ≡ ending r)
unfolding read_exactly read_full
read_exactly_enough wrap n r xs ys h e =
    let fits : n ≤ length (available r) = omega (arith, ap length h, length-append xs ys) in
    let (no_error, got, left, same) = fill_enough n r fits in
    let first : take n (available r) ≡ xs = rw (h, e) (take-append_left xs ys) in
    let others : drop n (available r) ≡ ys = rw (h, e) (drop-append_left xs ys) in
    ((fill n r).rest, ground arith, left ∙ others, same)

-- Too few: the call fails, with `EOF` only where no byte came.
pub read_exactly_short :
    {E : Type 0} (wrap : ReadError → E) (n : ℕ) (r : Reader)
    → length (available r) < n
    → (r' : Reader) × (read_exactly wrap n r
        ≡ (err (wrap (cut_error (available r) (ending r))), r'))
unfolding read_exactly read_full
read_exactly_short wrap n r h = let (got, e) = fill_short n r h in ((fill n r).rest, ground arith)

-- How much a reader still holds: its events and its bytes.
abbrev pub weight : Reader → ℕ
weight [] = 0
weight (chunk c ∷ r) = suc (length c + weight r)
weight (fault e ∷ r) = suc (weight r)

fill-weight : (n : ℕ) (r : Reader) → weight (fill n r).rest ≤ weight r
unfolding fill
fill-weight zero r = omega arith
fill-weight (suc k) [] = omega arith
fill-weight (suc k) (fault e ∷ r) = omega arith
fill-weight (suc k) (chunk c ∷ r) =
    ground (arith, fill-weight (suc k - length c) r, length-drop (suc k) c)

fill-weight_lt : (k : ℕ) (r : Reader) → 0 < weight r → weight (fill (suc k) r).rest < weight r
unfolding fill
fill-weight_lt k [] h = elim h [ ]
fill-weight_lt k (fault e ∷ r) h = omega arith
fill-weight_lt k (chunk c ∷ r) h =
    ground (arith, fill-weight (suc k - length c) r, length-drop (suc k) c)

-- A read takes nothing back.
pub read_exactly-weight :
    {E : Type 0} (wrap : ReadError → E) (n : ℕ) (r : Reader)
    → weight (read_exactly wrap n r).1 ≤ weight r
unfolding read_exactly
read_exactly-weight wrap n r = ground (arith, fill-weight n r)

-- A read of a byte or more takes something from a reader that holds something, also if it fails.
pub read_exactly-weight_lt :
    {E : Type 0} (wrap : ReadError → E) (k : ℕ) (r : Reader)
    → 0 < weight r
    → weight (read_exactly wrap (suc k) r).1 < weight r
unfolding read_exactly
read_exactly-weight_lt wrap k r h = ground (arith, fill-weight_lt k r h)

-- Nor does a computation that goes on with a result, if what follows takes nothing back.
pub continue-weight :
    {E A B : Type 0} (f : A → Reads E B) (x : Result E A × Reader)
    → ((a : A) (r : Reader) → weight (f a r).1 ≤ weight r)
    → weight (continue f x).1 ≤ weight x.1
continue-weight f (ok a, r) h = h a r
continue-weight f (err e, r) h = omega arith

-- A read that succeeds returns the next bytes of the reader, as many as it was asked for.
pub read_exactly-ok :
    {E : Type 0} (wrap : ReadError → E) (n : ℕ) (r : Reader) {xs : Bytes} {r' : Reader}
    → read_exactly wrap n r ≡ (ok xs, r')
    → (available r ≡ xs ++ available r') × (length xs ≡ n)
read_exactly-ok wrap n r {xs} {r'} h = elim (Bool-cases (leb n (length (available r)))) [
  | inl fits ↦
      let le = leb→le n (length (available r)) fits in
      let first = take n (available r) in
      let others = drop n (available r) in
      let parts = sym (take-append-drop n (available r)) in
      let size : length first ≡ n = omega (arith, length-take n (available r)) in
      let (r2, ran, left, _) = read_exactly_enough wrap n r first others parts (sym size) in
      let same : xs ≡ first = cc in
      let same_rest : r' ≡ r2 = cc in
      (parts ∙ ap₂ ◌++◌ (sym same) (sym left ∙ ap available (sym same_rest)), ap length same ∙ size)
  | inr short ↦
      let (r2, failed) = read_exactly_short wrap n r (not-leb→lt n (length (available r)) short) in
      absurd (ground arith)
]
