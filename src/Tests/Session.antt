-- ===== src/Tests/Session.antt =====
-- A UDP session that nobody uses: the alarm ends it, and upConn stays open.
use krelay.Prelude.{◌≡◌, refl, true, false, not, inl, inr}
use krelay.Xnet.Udp.Session.{
  returned, finished, Session, start, set_down, set_up, select_up, down_ends, up_times_out,
  selects_up, sees_down, quiet, goes_off, Reach, here, next, Settles,
}
use krelay.Xnet.Udp.Session.Ends.{finished_closed}
use krelay.Xnet.Udp.Session.Settled.{session_ends}

abbrev late : Session
late = record start { alarm_done = true }

to_late : Reach start late
to_late = next here goes_off

session_ends_example :
    (t : Session) × Settles late t × (t.main ≡ finished) × (t.down ≡ returned) × (t.up ≡ returned)
unfolding start
session_ends_example = session_ends to_late (λ e. absurd cc) (inr (inr (refl, refl)))

abbrev over : Session
over = record (set_down returned (select_up (set_up returned late))) { main = finished }

to_over : Reach start over
unfolding start select_up
to_over =
    let r = next to_late (quiet (up_times_out refl refl refl)) in
    let r = next r (quiet (selects_up refl refl)) in
    let r = next r (quiet (down_ends refl refl (inl refl))) in next r (quiet (sees_down refl refl))

finished_closed_example :
    (over.down ≡ returned) × (over.up ≡ returned) × (over.up_closed ≡ not over.read_closed)
finished_closed_example = finished_closed to_over refl

left_open : over.up_closed ≡ false
unfolding start select_up
left_open = refl
