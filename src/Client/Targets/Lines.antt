-- ===== src/Client/Targets/Lines.antt =====
-- Each line of a targets file stands for itself.
use krelay.Prelude.{
  ℕ, ◌+◌, ◌≡◌, refl, sym, ap, ◌∙◌, List, [], ◌∷◌, ◌++◌, append_assoc, append-nil, Option, none,
  some, if◌then◌else◌, Bytes, Result, ok, err, ◌>>=◌, Bool-cases, inl, inr,
}
use krelay.Golib.Text.{trim_space, fields}
use krelay.Client.Targets.{
  FieldError, Target, Scan, Flags, LineError, bad_flags, bad_fields, default_listen_addr,
  is_skipped, target_of, validate_fields, with_fields, with_flags, scan_line, scan_lines,
  parse_targets_file, reset,
}

module _ (parse_ip : Bytes → Option Bytes) (parse_flags : Bytes → Bytes → List Bytes → Option Flags)
    (default_namespace : Bytes) where
  -- The target of a line with that number, from its text and the defaults alone.
  abbrev checked : ℕ → Flags → Result FieldError (Unit {0}) → Result LineError (List Target)
  checked n f (err e) = err (bad_fields n e)
  checked n f (ok _) = ok (target_of f f.remain)

  abbrev flagged : ℕ → Option Flags → Result LineError (List Target)
  flagged n none = err (bad_flags n)
  flagged n (some f) = checked n f (validate_fields parse_ip f.remain)

  abbrev line_targets : ℕ → Bytes → Result LineError (List Target)
  line_targets n line =
      if is_skipped line
      then ok []
      else flagged n (parse_flags default_namespace default_listen_addr (fields line))

  -- The targets of the lines that follow line `n`.
  abbrev pub targets_from : ℕ → List Bytes → Result LineError (List Target)
  targets_from n [] = ok []
  targets_from n (line ∷ lines) = line_targets (n + 1) (trim_space line) >>= λ here.
      targets_from (n + 1) lines >>= λ more. ok (here ++ more)

  abbrev prepend : List Target → Result LineError (List Target) → Result LineError (List Target)
  prepend before r = r >>= λ more. ok (before ++ more)

  abbrev found : Result LineError Scan → Result LineError (List Target)
  found r = r >>= λ s. ok s.ret

  -- A round of the loop against the line on its own.
  abbrev Follows : Scan → Result LineError Scan → Result LineError (List Target) → Type 0
  Follows s (ok s') (ok ts) = (s'.ret ≡ s.ret ++ ts) × (s'.line_no ≡ s.line_no + 1)
  Follows s (err e) (err e') = e ≡ e'
  Follows s _ _ = ⊥

  module _ (s : Scan) where
    abbrev fresh : Scan
    fresh = reset parse_ip parse_flags default_namespace (record s { line_no = s.line_no + 1 })

    with_fields-Follows :
        (f : Flags) (r : Result FieldError (Unit {0}))
        → Follows s
            (with_fields parse_ip parse_flags default_namespace fresh f r)
            (checked (s.line_no + 1) f r)
    with_fields-Follows f (ok _) = (refl, refl)
    with_fields-Follows f (err e) = refl

    with_flags-Follows :
        (o : Option Flags)
        → Follows s
            (with_flags parse_ip parse_flags default_namespace fresh o)
            (flagged (s.line_no + 1) o)
    with_flags-Follows none = refl
    with_flags-Follows (some f) = with_fields-Follows f (validate_fields parse_ip f.remain)

    scan_line-Follows :
        (line : Bytes)
        → Follows s
            (scan_line parse_ip parse_flags default_namespace line s)
            (line_targets (s.line_no + 1) line)
    unfolding scan_line
    scan_line-Follows line = elim (Bool-cases (is_skipped line)) [
      | inl e ↦ rw e (sym (append-nil s.ret), refl)
      | inr e ↦
          rw e
            (with_flags-Follows (parse_flags default_namespace default_listen_addr (fields line)))
    ]

  prepend-append :
      (before here : List Target) (r : Result LineError (List Target))
      → prepend (before ++ here) r ≡ prepend before (r >>= λ more. ok (here ++ more))
  prepend-append before here (ok more) = ap ok (append_assoc before here more)
  prepend-append before here (err e) = refl

  scan_lines-continue :
      (lines : List Bytes) (s : Scan) (x : Result LineError Scan)
      (t : Result LineError (List Target))
      → Follows s x t
      → ((s' : Scan)
          → found (scan_lines parse_ip parse_flags default_namespace lines s')
            ≡ prepend s'.ret (targets_from s'.line_no lines))
      → found (x >>= scan_lines parse_ip parse_flags default_namespace lines)
        ≡ prepend s.ret
            (t >>= λ here. targets_from (s.line_no + 1) lines >>= λ more. ok (here ++ more))
  scan_lines-continue lines s (ok s') (ok here) (ret, n) later =
      later s'
      ∙ ap (λ l. prepend l (targets_from s'.line_no lines)) ret
      ∙ ap (λ k. prepend (s.ret ++ here) (targets_from k lines)) n
      ∙ prepend-append s.ret here (targets_from (s.line_no + 1) lines)
  scan_lines-continue lines s (err e) (err e') same later = ap err same
  scan_lines-continue lines s (ok s') (err e) h later = elim h [ ]
  scan_lines-continue lines s (err e) (ok here) h later = elim h [ ]

  scan_lines_lem :
      (lines : List Bytes) (s : Scan)
      → found (scan_lines parse_ip parse_flags default_namespace lines s)
        ≡ prepend s.ret (targets_from s.line_no lines)
  unfolding scan_lines
  scan_lines_lem [] s = ap ok (sym (append-nil s.ret))
  scan_lines_lem (line ∷ lines) s =
      scan_lines-continue lines s
        (scan_line parse_ip parse_flags default_namespace (trim_space line) s)
        (line_targets (s.line_no + 1) (trim_space line)) (scan_line-Follows s (trim_space line))
        (scan_lines_lem lines)

  prepend_nil : (r : Result LineError (List Target)) → prepend [] r ≡ r
  prepend_nil (ok more) = refl
  prepend_nil (err e) = refl

  -- A targets file gives the targets of its lines, in order, each from its own text and the defaults:
  -- the flags of a line do not reach the next. The first line that is refused ends it, and the error
  -- tells its number, where blank lines and comments count too.
  pub parse_targets_file_lem :
      (lines : List Bytes)
      → parse_targets_file parse_ip parse_flags default_namespace lines ≡ targets_from 0 lines
  unfolding parse_targets_file
  parse_targets_file_lem lines =
      scan_lines_lem lines (record {
        ns = default_namespace;
        listen_addr = default_listen_addr;
        ret = [];
        line_no = 0;
      })
      ∙ prepend_nil (targets_from 0 lines)
