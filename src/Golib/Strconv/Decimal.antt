-- ===== src/Golib/Strconv/Decimal.antt =====
-- What `ParseUint` accepts, and that it reads what `Itoa` prints.
use native.Mathlib.Nat.{pow-suc}
use krelay.Prelude.{
  ℕ, zero, suc, ◌+◌, ◌-◌, ◌*◌, ◌/◌, ◌%◌, ◌≤◌, ◌<◌, ◌^◌, ◌≡◌, ◌≢◌, refl, ◌∙◌, [], ◌∷◌, some, arith,
  Bytes, All, ltb, Bool-cases, inl, inr, ltb→lt, ap, sym,
}
use krelay.Golib.Strconv.{max_uint16, scan, parse_uint16, digits, itoa}

abbrev pub IsDigit : ℕ → Type 0
IsDigit c = (b'0' ≤ c) × (c ≤ b'9')

-- The number that digits spell behind `n`, without a bound.
abbrev pub value_from : ℕ → Bytes → ℕ
value_from n [] = n
value_from n (c ∷ s) = value_from (n * 10 + (c - b'0')) s

le-value_from : (n : ℕ) (s : Bytes) → n ≤ value_from n s
le-value_from n [] = omega arith
le-value_from n (c ∷ s) = omega (arith, le-value_from (n * 10 + (c - b'0')) s)

scan_sound :
    (s : Bytes) (n v : ℕ)
    → n ≤ max_uint16
    → scan s n ≡ some v
    → All IsDigit s × (v ≡ value_from n s) × (v ≤ max_uint16)
unfolding scan
scan_sound [] n v fits h = ground arith
scan_sound (c ∷ s) n v fits h = ground (arith, scan_sound s (n * 10 + (c - b'0')) v)

scan_complete :
    (s : Bytes) (n : ℕ)
    → All IsDigit s
    → value_from n s ≤ max_uint16
    → scan s n ≡ some (value_from n s)
unfolding scan
scan_complete [] n ds fits = refl
scan_complete (c ∷ s) n (d, ds) fits =
    let n1 = n * 10 + (c - b'0') in ground (arith, le-value_from n1 s, scan_complete s n1 ds fits)

abbrev pub IsNumeral : Bytes → ℕ → Type 0
IsNumeral s v = (s ≢ []) × All IsDigit s × (v ≡ value_from 0 s) × (v ≤ max_uint16)

pub parse_uint16_sound : (s : Bytes) {v : ℕ} → parse_uint16 s ≡ some v → IsNumeral s v
unfolding parse_uint16
parse_uint16_sound [] h = cc
parse_uint16_sound (c ∷ s) {v} h =
    let (all_digits, exact, fits) = scan_sound (c ∷ s) 0 v (omega arith) h in
    (cc, all_digits, exact, fits)

pub parse_uint16_complete : (s : Bytes) {v : ℕ} → IsNumeral s v → parse_uint16 s ≡ some v
unfolding parse_uint16
parse_uint16_complete [] (ne, _, _, _) = absurd (ne refl)
parse_uint16_complete (c ∷ s) {v} (ne, all_digits, exact, fits) =
    scan_complete (c ∷ s) 0 all_digits (omega arith) ∙ ap some (sym exact)

scan_first_digit : (n : ℕ) (out : Bytes) → n < 10 → scan ((b'0' + n) ∷ out) 0 ≡ scan out n
unfolding scan
scan_first_digit n out h = ground arith

scan_next_digit :
    (n : ℕ) (out : Bytes) → n ≤ max_uint16 → scan ((b'0' + n % 10) ∷ out) (n / 10) ≡ scan out n
unfolding scan
scan_next_digit n out h = ground arith

scan-digits :
    (k n : ℕ) (out : Bytes) → n < 10 ^ k → n ≤ max_uint16 → scan (digits k n out) 0 ≡ scan out n
unfolding digits
scan-digits zero n out small fits = let e : n ≡ 0 = omega arith in rw e
scan-digits (suc k) n out small fits = elim (Bool-cases (ltb n 10)) [
  | inl one ↦ rw one (scan_first_digit n out (ltb→lt n 10 one))
  | inr more ↦
      let tenth : n / 10 < 10 ^ k = omega (arith, pow-suc 10 k) in
      rw more (
        scan-digits k (n / 10) ((b'0' + n % 10) ∷ out) tenth (omega arith)
        ∙ scan_next_digit n out fits)
]

digits-ne_nil : (k n c : ℕ) (out : Bytes) → digits k n (c ∷ out) ≢ []
unfolding digits
digits-ne_nil zero n c out = cc
digits-ne_nil (suc k) n c out = ground (arith, digits-ne_nil k (n / 10) (b'0' + n % 10) (c ∷ out))

itoa-ne_nil : (n : ℕ) → itoa n ≢ []
unfolding itoa
itoa-ne_nil n = ground (arith, digits-ne_nil 4 (n / 10) (b'0' + n % 10) [])

parse_uint16-scan : (s : Bytes) → s ≢ [] → parse_uint16 s ≡ scan s 0
unfolding parse_uint16
parse_uint16-scan [] h = absurd (h refl)
parse_uint16-scan (c ∷ s) h = refl

scan-itoa : (n : ℕ) → n ≤ max_uint16 → scan (itoa n) 0 ≡ some n
unfolding itoa scan
scan-itoa n fits = scan-digits 5 n [] (omega arith) fits

-- A uint16 is read back from its decimal digits.
pub parse_uint16-itoa : (n : ℕ) → n ≤ max_uint16 → parse_uint16 (itoa n) ≡ some n
parse_uint16-itoa n fits = parse_uint16-scan (itoa n) (itoa-ne_nil n) ∙ scan-itoa n fits
