-- ===== src/Tests/Copying.antt =====
-- The end of a handler of the client, and its error stream.
use krelay.Prelude.{◌≡◌, refl, true, false, [], ◌∷◌, none, some, Bytes, codes, ◌↔◌, ◌⊎◌, inl}
use krelay.Golib.Reader.{ReadError, Reader, chunk}
use krelay.Client.ErrorStream.{
  read_all, report, forwarding_failed, err_msg, match_path, closes_connection,
}
use krelay.Client.ErrorStream.Pattern.{IsSandboxMessage, closes_connection_lem}
use krelay.Client.Copying.{
  finished, ended, failed, reported, Handler, start, leave, after_read, Step, refused, opened,
  remote_done, local_done, sees_remote, reads_error, takes_nothing, Reach, here, next,
}
use krelay.Client.Copying.Ends.{finished_cases, report_lost}

abbrev error_text : ReadError → Bytes
error_text e = codes "read error"

-- The message comes in two pieces.
abbrev gone : Reader
gone = chunk (codes "network namespace for sa") ∷ chunk (codes "ndbox 7 is closed") ∷ []

gone_closes : closes_connection error_text true gone ≡ true
unfolding closes_connection match_path read_all report
gone_closes = refl

refused_stays : closes_connection error_text true (chunk (codes "connection refused") ∷ []) ≡ false
unfolding closes_connection match_path read_all report
refused_stays = refl

-- Nobody receives, as behind an acknowledgement that refuses.
unreceived_stays : closes_connection error_text false gone ≡ false
unfolding closes_connection match_path read_all report
unreceived_stays = refl

refused_reports :
    report (read_all (chunk (codes "no") ∷ [])) ≡ some (forwarding_failed (codes "no"))
unfolding report read_all
refused_reports = refl

closes_connection_lem_example :
    (closes_connection error_text true gone ≡ true)
    ↔ ((true ≡ true) × IsSandboxMessage (err_msg error_text (read_all gone)))
closes_connection_lem_example = closes_connection_lem error_text true gone

-- The client ends its side, then the remote its own.
abbrev done : Handler
done = record {
  main = finished;
  from_remote = ended;
  to_remote = ended;
  error_reader = reported;
  stream_closed = true;
  client_closed = true;
  result = none;
}

to_done : Reach start done
unfolding start
to_done =
    let r = next here (opened refl) in
    let r = next r (local_done refl) in
    let r = next r (remote_done refl) in
    let r = next r (reads_error none refl) in
    let r = next r (sees_remote refl (inl refl)) in next r (takes_nothing refl refl)

finished_cases_example :
    (((done.from_remote ≡ ended) ⊎ (done.from_remote ≡ failed)) ⊎ (done.to_remote ≡ failed))
    × (done.error_reader ≡ reported)
    × (done.client_closed ≡ true)
finished_cases_example = finished_cases to_done refl (λ e. absurd cc)

-- The acknowledgement refuses, and the server's kubelet has something to say.
abbrev stuck : Handler
stuck = after_read (some (forwarding_failed (codes "no"))) (leave start)

to_stuck : Reach start stuck
unfolding start
to_stuck =
    next (next here (refused refl)) (reads_error (some (forwarding_failed (codes "no"))) refl)

report_lost_example : ¬ Step stuck start
unfolding start
report_lost_example = report_lost to_stuck refl refl refl start
