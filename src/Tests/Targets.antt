-- ===== src/Tests/Targets.antt =====
-- A targets file.
use krelay.Prelude.{
  ◌≡◌, refl, List, [], ◌∷◌, Option, some, Bytes, codes, equal, if◌then◌else◌, ok, err,
}
use krelay.Golib.Text.{split, has_prefix, trim_space, trim_left, trim_right, fields, fields_from}
use krelay.Client.Targets.{
  Target, Flags, index_out_of_range, validate_fields, is_skipped, scan_line, scan_lines,
  parse_targets_file, default_listen_addr,
}
use krelay.Client.Targets.Lines.{targets_from, parse_targets_file_lem}

abbrev parse_ip : Bytes → Option Bytes
parse_ip s = some s

-- A flag set that knows `-n NAMESPACE` in front of the arguments.
abbrev parse_flags : Bytes → Bytes → List Bytes → Option Flags
parse_flags ns address (a ∷ b ∷ args) =
    if equal a (codes "-n")
    then some (record { flag_ns = b; flag_address = address; remain = args })
    else some (record { flag_ns = ns; flag_address = address; remain = a ∷ b ∷ args })
parse_flags ns address args = some (record { flag_ns = ns; flag_address = address; remain = args })

abbrev target : Bytes → Bytes → Bytes → Target
target resource port ns = record {
  resource = resource;
  ports = port ∷ [];
  namespace = ns;
  lis_addr = default_listen_addr;
}

abbrev file : List Bytes
file = codes "# targets" ∷ codes "-n web svc/front 80" ∷ codes "" ∷ codes "  pod/db 5432" ∷ []

-- The namespace of the second line does not reach the last.
parse-file :
    parse_targets_file parse_ip parse_flags (codes "default") file
    ≡ ok (
        target (codes "svc/front") (codes "80") (codes "web")
        ∷ target (codes "pod/db") (codes "5432") (codes "default")
        ∷ [])
unfolding parse_targets_file scan_lines scan_line is_skipped has_prefix trim_space trim_left
    trim_right fields fields_from validate_fields split equal
parse-file = refl

-- A resource `ip` without an address is an index out of range.
validate_bare_ip : validate_fields parse_ip (codes "ip" ∷ codes "80" ∷ []) ≡ err index_out_of_range
unfolding validate_fields split equal
validate_bare_ip = refl

parse_targets_file_lem_example :
    parse_targets_file parse_ip parse_flags (codes "default") file
    ≡ targets_from parse_ip parse_flags (codes "default") 0 file
parse_targets_file_lem_example = parse_targets_file_lem parse_ip parse_flags (codes "default") file
