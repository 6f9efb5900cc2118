-- ===== src/Client/ErrorStream/Pattern.antt =====
-- Which messages on the error stream close the connection.
use mathlib.Core.Path.{subst}
use krelay.Prelude.{
  ℕ, suc, ltb, length, ◌≡◌, ◌≢◌, ◌↔◌, refl, sym, ap, ◌∙◌, Bool, true, false, not, ◌&&◌, [], ◌∷◌,
  ◌++◌, Option, none, some, ◌==◌, Bytes, codes, Lacks, arith, Bool-cases, inl, inr, append-nil,
}
use krelay.Golib.Reader.{ReadError, Reader}
use krelay.Client.ErrorStream.{
  star, literal, match_path, err_msg, read_all, report, sandbox_pattern, closes_after, gets_past,
  forwarding_failed, read_failed, closes_connection,
}

-- A text without a slash, then one that goes on.
abbrev Skips : (Bytes → Bool) → Bytes → Type 0
Skips rest s = (a : Bytes) × (t : Bytes) × Lacks b'/' a × (s ≡ a ++ t) × (rest t ≡ true)

star-Skips : (rest : Bytes → Bool) (s : Bytes) → star rest s ≡ true → Skips rest s
star-Skips rest [] h = ([], [], tt, refl, h)
star-Skips rest (c ∷ s) h = elim (Bool-cases (rest (c ∷ s))) [
  | inl e ↦ ([], c ∷ s, tt, refl, e)
  | inr e ↦
      let (no_slash, later) : (c ≢ b'/') × (star rest s ≡ true) = ground arith in
      let (a, t, lacks, same, goes) = star-Skips rest s later in
      (c ∷ a, t, (no_slash, lacks), ap (◌∷◌ c) same, goes)
]

Skips-star :
    (rest : Bytes → Bool) (a t : Bytes) → Lacks b'/' a → rest t ≡ true → star rest (a ++ t) ≡ true
Skips-star rest [] [] _ h = h
Skips-star rest [] (c ∷ t) _ h = rw h refl
Skips-star rest (c ∷ a) t (no_slash, lacks) h =
    let later = Skips-star rest a t lacks h in ground arith

abbrev is_plain : Bytes → Bool
is_plain [] = true
is_plain (c ∷ s) = not (c == b'*') && is_plain s

match_path-literal :
    (c : ℕ) (ps s : Bytes)
    → not (c == b'*') ≡ true
    → match_path (c ∷ ps) s ≡ literal c (match_path ps) s
unfolding match_path
match_path-literal c ps s h = let other : (c == b'*') ≡ false = ground arith in rw other

match_path-star : (ps s : Bytes) → match_path (b'*' ∷ ps) s ≡ star (match_path ps) s
unfolding match_path
match_path-star ps s = refl

-- A part of the pattern without a star stands for itself.
plain_reads :
    (w ps s : Bytes)
    → is_plain w ≡ true
    → match_path (w ++ ps) s ≡ true
    → (t : Bytes) × (s ≡ w ++ t) × (match_path ps t ≡ true)
plain_reads [] ps s _ h = (s, refl, h)
plain_reads (c ∷ w) ps [] plain h =
    let (first, _) : (not (c == b'*') ≡ true) × (is_plain w ≡ true) = ground arith in
    absurd (cc (h, match_path-literal c (w ++ ps) [] first))
plain_reads (c ∷ w) ps (d ∷ s) plain h =
    let (first, more) : (not (c == b'*') ≡ true) × (is_plain w ≡ true) = ground arith in
    let read : literal c (match_path (w ++ ps)) (d ∷ s) ≡ true =
      sym (match_path-literal c (w ++ ps) (d ∷ s) first) ∙ h in
    let (same, goes) : (c ≡ d) × (match_path (w ++ ps) s ≡ true) = ground arith in
    let (t, e, g) = plain_reads w ps s more goes in
    (t, ap (λ x. x ∷ s) (sym same) ∙ ap (◌∷◌ c) e, g)

reads_plain :
    (w ps t : Bytes)
    → is_plain w ≡ true
    → match_path ps t ≡ true
    → match_path (w ++ ps) (w ++ t) ≡ true
reads_plain [] ps t _ h = h
reads_plain (c ∷ w) ps t plain h =
    let (first, more) : (not (c == b'*') ≡ true) × (is_plain w ≡ true) = ground arith in
    let later = reads_plain w ps t more h in
    match_path-literal c (w ++ ps) (c ∷ (w ++ t)) first ∙ ground arith

match_path-nil : (s : Bytes) → match_path [] s ≡ true → s ≡ []
unfolding match_path
match_path-nil [] h = refl
match_path-nil (c ∷ s) h = absurd cc

-- A text that the two words cut.
abbrev pub IsCut : Bytes → Bytes → Bytes → Type 0
IsCut w v m = (a : Bytes) × (b : Bytes) × Lacks b'/' a × Lacks b'/' b × (m ≡ a ++ (w ++ (b ++ v)))

abbrev two_stars : Bytes → Bytes → Bytes
two_stars w v = b'*' ∷ (w ++ (b'*' ∷ (v ++ [])))

module _ (w v : Bytes) (plain : is_plain w ≡ true) (plain' : is_plain v ≡ true) where
  two_stars-IsCut : (m : Bytes) → match_path (two_stars w v) m ≡ true → IsCut w v m
  two_stars-IsCut m h =
      let rest = w ++ (b'*' ∷ (v ++ [])) in
      let (a, t, lacks, e, goes) =
        star-Skips (match_path rest) m (sym (match_path-star rest m) ∙ h) in
      let (u, e1, goes1) = plain_reads w (b'*' ∷ (v ++ [])) t plain goes in
      let (b, x, lacks', e2, goes2) =
        star-Skips (match_path (v ++ [])) u (sym (match_path-star (v ++ []) u) ∙ goes1) in
      let (z, e3, goes3) = plain_reads v [] x plain' goes2 in
      let ends : x ≡ v = e3 ∙ ap (λ y. v ++ y) (match_path-nil z goes3) ∙ append-nil v in
      (
        a,
        b,
        lacks,
        lacks',
        e ∙ ap (λ y. a ++ y) (e1 ∙ ap (λ y. w ++ y) (e2 ∙ ap (λ y. b ++ y) ends)),
      )

  IsCut-two_stars : (m : Bytes) → IsCut w v m → match_path (two_stars w v) m ≡ true
  unfolding match_path
  IsCut-two_stars m (a, b, lacks, lacks', e) =
      let rest = w ++ (b'*' ∷ (v ++ [])) in
      let in_v : match_path (v ++ []) v ≡ true =
        subst (λ y. match_path (v ++ []) y ≡ true) (append-nil v)
          (reads_plain v [] [] plain' refl) in
      let in_star : match_path (b'*' ∷ (v ++ [])) (b ++ v) ≡ true =
        Skips-star (match_path (v ++ [])) b v lacks' in_v in
      let in_w : match_path rest (w ++ (b ++ v)) ≡ true =
        reads_plain w (b'*' ∷ (v ++ [])) (b ++ v) plain in_star in
      subst (λ y. match_path (two_stars w v) y ≡ true) (sym e)
        (Skips-star (match_path rest) a (w ++ (b ++ v)) lacks in_w)

-- A message that names a sandbox whose network namespace is closed.
abbrev pub IsSandboxMessage : Bytes → Type 0
IsSandboxMessage = IsCut (codes "network namespace for sandbox ") (codes " is closed")

nothing_matches : match_path sandbox_pattern [] ≡ false
unfolding match_path
nothing_matches = refl

report_message : (c : ℕ) (m : Bytes) → report (c ∷ m, none) ≡ some (forwarding_failed (c ∷ m))
unfolding report
report_message c m = let full : ltb 0 (suc (length m)) ≡ true = ground arith in rw full refl

report_nothing : report ([], none) ≡ none
unfolding report
report_nothing = refl

report_error : (m : Bytes) (e : ReadError) → report (m, some e) ≡ some (read_failed e)
unfolding report
report_error m e = refl

-- A message that matches is sent first.
closes_after-received :
    (error_text : ReadError → Bytes) (received : Bool) (m : Bytes × Option ReadError)
    → closes_after error_text received m
      ≡ (received && match_path sandbox_pattern (err_msg error_text m))
closes_after-received error_text received (m, some e) =
    ap (λ o. gets_past received o && match_path sandbox_pattern (error_text e)) (report_error m e)
closes_after-received error_text true ([], none) =
    ap (λ o. gets_past true o && match_path sandbox_pattern []) report_nothing
closes_after-received error_text false ([], none) =
    ap (λ o. gets_past false o && match_path sandbox_pattern []) report_nothing ∙ nothing_matches
closes_after-received error_text received (c ∷ m, none) =
    ap (λ o. gets_past received o && match_path sandbox_pattern (c ∷ m)) (report_message c m)

and-cases : (a b : Bool) → ((a && b) ≡ true) ↔ ((a ≡ true) × (b ≡ true))
and-cases a b = ((λ h. ground arith), (λ h. ground arith))

-- The goroutine of the error stream closes the connection exactly when the handler receives what is
-- sent on `errCh`, and the message of the error stream, or the text of its read error, is some text
-- without a slash, `network namespace for sandbox `, a name without a slash, and ` is closed`.
pub closes_connection_lem :
    (error_text : ReadError → Bytes) (received : Bool) (r : Reader)
    → (closes_connection error_text received r ≡ true)
      ↔ ((received ≡ true) × IsSandboxMessage (err_msg error_text (read_all r)))
unfolding closes_connection
closes_connection_lem error_text received r =
    let m = err_msg error_text (read_all r) in
    let w = codes "network namespace for sandbox " in
    let v = codes " is closed" in
    let same = closes_after-received error_text received (read_all r) in
    let (parts, whole) = and-cases received (match_path sandbox_pattern m) in
    (
      (λ h. let (a, b) = parts (sym same ∙ h) in (a, two_stars-IsCut w v refl refl m b)),
      (λ (a, c). same ∙ whole (a, IsCut-two_stars w v refl refl m c)),
    )
