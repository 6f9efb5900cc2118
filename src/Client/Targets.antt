-- ===== src/Client/Targets.antt =====
-- validateFields and parseTargetsFile of cmd/client/utils.go. `parse_ip` stands for `net.ParseIP`, and
-- `parse_flags` for the flag set of pflag: from the values of its two variables, the namespace and
-- the address to listen on, and a line's fields, it gives the new values and the other arguments.
pub mod Lines
use krelay.Prelude.{
  ℕ, zero, suc, ◌+◌, Bool, true, false, List, [], ◌∷◌, ◌++◌, Option, none, some, ltb, leb, ◌||◌,
  if◌then◌else◌, Bytes, codes, equal, length, Result, ok, err, ◌>>=◌, ◌>>◌,
}
use krelay.Golib.Text.{split, has_prefix, trim_space, fields}

pub data FieldError : Type 0 where
  invalid_syntax : FieldError
  unknown_resource invalid_ip : Bytes → FieldError
  index_out_of_range : FieldError

-- `net.ParseIP(resourceParts[1]) == nil`.
abbrev refuse_no_ip : Bytes → Option Bytes → Result FieldError (Unit {0})
refuse_no_ip s none = err (invalid_ip s)
refuse_no_ip s (some ip) = ok tt

module _ (parse_ip : Bytes → Option Bytes) where
  abbrev pub check_ip : List Bytes → Result FieldError (Unit {0})
  check_ip (kind ∷ address ∷ parts) = refuse_no_ip address (parse_ip address)
  check_ip _ = err index_out_of_range

  -- The tests on the parts of the resource; `strings.Split` gives at least one.
  abbrev pub check_parts : Bytes → List Bytes → Result FieldError (Unit {0})
  check_parts resource [] = err index_out_of_range
  check_parts resource (kind ∷ parts) =
      if ltb 2 (length (kind ∷ parts))
      then err (unknown_resource resource)
      else if equal kind (codes "ip")
      then check_ip (kind ∷ parts)
      else ok tt

  unfoldable pub validate_fields : List Bytes → Result FieldError (Unit {0})
  unfolding split equal
  validate_fields [] = err invalid_syntax
  validate_fields (resource ∷ []) = err invalid_syntax
  validate_fields (resource ∷ port ∷ ports) = check_parts resource (split resource b'/')

pub record Target : Type 0 where
  pub resource : Bytes
  pub ports : List Bytes
  pub namespace : Bytes
  pub lis_addr : Bytes

-- The flag variables, which live across the lines, what was found, and the number of lines.
pub record Scan : Type 0 where
  pub ns : Bytes
  pub listen_addr : Bytes
  pub ret : List Target
  pub line_no : ℕ

-- The flags left, and the values of the variables.
pub record Flags : Type 0 where
  pub flag_ns : Bytes
  pub flag_address : Bytes
  pub remain : List Bytes

pub data LineError : Type 0 where
  bad_flags : ℕ → LineError
  bad_fields : ℕ → FieldError → LineError

abbrev pub default_listen_addr : Bytes
default_listen_addr = codes "127.0.0.1"

-- A line that is passed over.
abbrev is_empty : Bytes → Bool
is_empty [] = true
is_empty (c ∷ s) = false

unfoldable pub is_skipped : Bytes → Bool
unfolding has_prefix
is_skipped line = is_empty line || (has_prefix line (codes "//") || has_prefix line (codes "#"))

-- The target of the arguments that are left; `validateFields` has seen that there are some.
abbrev pub target_of : Flags → List Bytes → List Target
target_of f [] = []
target_of f (resource ∷ ports) =
    record { resource = resource; ports = ports; namespace = f.flag_ns; lis_addr = f.flag_address }
    ∷ []

module _ (parse_ip : Bytes → Option Bytes) (parse_flags : Bytes → Bytes → List Bytes → Option Flags)
    (default_namespace : Bytes) where
  abbrev pub with_fields : Scan → Flags → Result FieldError (Unit {0}) → Result LineError Scan
  with_fields s f (err e) = err (bad_fields s.line_no e)
  with_fields s f (ok _) = ok (record s {
    ns = f.flag_ns;
    listen_addr = f.flag_address;
    ret = s.ret ++ target_of f f.remain;
  })

  abbrev pub with_flags : Scan → Option Flags → Result LineError Scan
  with_flags s none = err (bad_flags s.line_no)
  with_flags s (some f) = with_fields s f (validate_fields parse_ip f.remain)

  abbrev pub reset : Scan → Scan
  reset s = record s { ns = default_namespace; listen_addr = default_listen_addr }

  -- One round of the loop, on a line without its white space.
  unfoldable pub scan_line : Bytes → Scan → Result LineError Scan
  unfolding is_skipped fields validate_fields
  scan_line line s =
      let counted = record s { line_no = s.line_no + 1 } in
      let fresh = reset counted in
      if is_skipped line
      then ok counted
      else with_flags fresh (parse_flags fresh.ns fresh.listen_addr (fields line))

  -- The loop, on the lines that the scanner gives.
  unfoldable pub scan_lines : List Bytes → Scan → Result LineError Scan
  unfolding scan_line trim_space
  scan_lines [] s = ok s
  scan_lines (line ∷ lines) s = scan_line (trim_space line) s >>= scan_lines lines

  unfoldable pub parse_targets_file : List Bytes → Result LineError (List Target)
  unfolding scan_lines
  parse_targets_file lines = do
    s ← scan_lines lines (record {
      ns = default_namespace;
      listen_addr = default_listen_addr;
      ret = [];
      line_no = 0;
    })
    ok s.ret
