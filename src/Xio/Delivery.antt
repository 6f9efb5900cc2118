-- ===== src/Xio/Delivery.antt =====
-- What `WriteFull` delivers.
use krelay.Prelude.{
  ℕ, zero, suc, ◌+◌, ◌≤◌, ◌<◌, ◌≡◌, refl, ap, ◌∙◌, false, List, [], ◌∷◌, ◌++◌, ltb, arith, Bytes,
  length, take, drop, min, Bool-cases, inl, inr, length-drop, take-length, append_assoc, sym, ◌↔◌,
  append-nil, le→ltb, lt→ltb, take_all, ==_refl,
}
use native.Mathlib.Nat.{zero-add, add-zero, suc-add}
use krelay.Xio.{accepts, fails, Writer, write_loop, write_full}

-- The bytes that the calls took, in order.
abbrev pub sent : List Bytes → Bytes
sent [] = []
sent (b ∷ bs) = b ++ sent bs

pub sent-append : (xs ys : List Bytes) → sent (xs ++ ys) ≡ sent xs ++ sent ys
sent-append [] ys = refl
sent-append (b ∷ xs) ys = ap (b ++◌) (sent-append xs ys) ∙ sym (append_assoc b (sent xs) (sent ys))

take_further : (n k : ℕ) (p : Bytes) → take (n + k) p ≡ take n p ++ take k (drop n p)
take_further zero k p = rw zero-add
take_further (suc n) zero [] = rw add-zero
take_further (suc n) (suc k) [] = rw suc-add
take_further (suc n) k (b ∷ p) = rw suc-add (ap (◌∷◌ b) (take_further n k p))

take-min : (k : ℕ) (p : Bytes) → take (min k (length p)) p ≡ take k p
take-min zero p = let e : min 0 (length p) ≡ 0 = omega arith in rw e
take-min (suc k) [] = let e : min (suc k) 0 ≡ 0 = omega arith in rw e
take-min (suc k) (b ∷ p) =
    let e : min (suc k) (suc (length p)) ≡ suc (min k (length p)) = omega arith in
    rw e (ap (◌∷◌ b) (take-min k p))

-- One call that takes at most `k` bytes behind the first `n`.
module _ (p : Bytes) (n k : ℕ) where
  taken : take n p ++ take k (drop n p) ≡ take (n + min k (length (drop n p))) p
  taken = rw (take_further n (min k (length (drop n p))) p, take-min k (drop n p)) refl

  taken_le : n ≤ length p → n + min k (length (drop n p)) ≤ length p
  taken_le h = omega (arith, length-drop n p)

write_loop_lem :
    (p : Bytes) (n : ℕ) (w : Writer)
    → n ≤ length p
    → (take n p ++ sent (write_loop p n w).writes ≡ take (write_loop p n w).n p)
      × ((write_loop p n w).n ≤ length p)
unfolding write_loop
write_loop_lem p n [] h = (append-nil _, h)
write_loop_lem p n (fails k ∷ w) h = elim (Bool-cases (ltb n (length p))) [
  | inl more ↦
      rw more (ap (take n p ++◌) (append-nil (take k (drop n p))) ∙ taken p n k, taken_le p n k h)
  | inr done ↦ rw done (append-nil _, h)
]
write_loop_lem p n (accepts k ∷ w) h =
    let next = n + min k (length (drop n p)) in
    let (all, bound) = write_loop_lem p next w (taken_le p n k h) in
    elim (Bool-cases (ltb n (length p))) [
      | inl more ↦ rw more (
        sym (append_assoc (take n p) (take k (drop n p)) _)
            ∙ ap (λ t. t ++ sent (write_loop p next w).writes) (taken p n k)
            ∙ all,
        bound,
      )
      | inr done ↦ rw done (append-nil _, h)
    ]

-- `WriteFull` hands over a prefix of its argument in order, as long as the count that it returns,
-- and reports `ErrShortWrite` exactly when that is not all of it.
pub write_full-prefix :
    (w : Writer) (p : Bytes)
    → (sent (write_full w p).writes ≡ take (write_full w p).n p)
      × ((write_full w p).n ≤ length p)
      × (((write_full w p).error ≡ false) ↔ ((write_full w p).n ≡ length p))
unfolding write_full
write_full-prefix w p =
    let (all, bound) = write_loop_lem p 0 w (omega arith) in (all, bound, ground arith)

-- With no error all bytes were handed over.
pub write_full-sent :
    (w : Writer) (p : Bytes) → (write_full w p).error ≡ false → sent (write_full w p).writes ≡ p
write_full-sent w p h =
    let (all, bound, exact) = write_full-prefix w p in all ∙ rw (exact.0 h) (take-length p)

-- A writer whose first `k` calls each take a byte or more, with no error.
pub data Progresses : ℕ → Writer → Type 0 where
  stop : {w : Writer} → Progresses 0 w
  go : {k m : ℕ} {w : Writer} → Progresses k w → Progresses (suc k) (accepts (suc m) ∷ w)

write_loop_done :
    (p : Bytes) (w : Writer) (n : ℕ)
    → length p ≤ n
    → write_loop p n w ≡ record { n = n; writes = []; writer = w }
unfolding write_loop
write_loop_done p [] n h = refl
write_loop_done p (accepts k ∷ w) n h = rw (le→ltb n (length p) h)
write_loop_done p (fails k ∷ w) n h = rw (le→ltb n (length p) h)

write_loop_total :
    (p : Bytes) (n : ℕ) {k : ℕ} {w : Writer}
    → n ≤ length p
    → length p ≤ n + k
    → Progresses k w
    → (write_loop p n w).n ≡ length p
unfolding write_loop
write_loop_total p n le enough (stop {w}) =
    ap (λ l. l.n) (write_loop_done p w n (omega arith)) ∙ omega arith
write_loop_total p n le enough (go {k} {m} {w} h) =
    let next = n + min (suc m) (length (drop n p)) in
    ground (
      arith,
      length-drop n p,
      write_loop_total p next (taken_le p n (suc m) le) (omega (arith, length-drop n p)) h,
    )

-- A writer that takes at least one byte at each of as many calls as there are bytes gets all of
-- them, and no error is reported.
pub write_full_total :
    (w : Writer) (p : Bytes) → Progresses (length p) w → (write_full w p).error ≡ false
unfolding write_full
write_full_total w p h =
    let all = write_loop_total p 0 (omega arith) (omega arith) h in ground arith

-- A call that can take all of it at once is the only one.
pub write_full_whole :
    (p : Bytes) (k : ℕ) (w : Writer)
    → 0 < length p
    → length p ≤ k
    → write_full (accepts k ∷ w) p
      ≡ record { n = length p; error = false; writes = p ∷ []; writer = w }
unfolding write_full write_loop
write_full_whole p k w some_byte fits =
    let all : 0 + min k (length p) ≡ length p = omega arith in
    rw
      (
        all,
        lt→ltb 0 (length p) some_byte,
        write_loop_done p w (length p) (omega arith),
        take_all k p fits,
        ==_refl (length p),
      )
      refl

-- Nothing to write: no call is made.
pub write_full_empty :
    (w : Writer) → write_full w [] ≡ record { n = 0; error = false; writes = []; writer = w }
unfolding write_full
write_full_empty w = rw (write_loop_done [] w 0 (omega arith)) refl
