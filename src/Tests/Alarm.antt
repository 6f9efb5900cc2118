-- ===== src/Tests/Alarm.antt =====
-- An alarm of five units that goes off.
use krelay.Prelude.{◌+◌, ◌≡◌, ◌≤◌, refl, true, false, arith}
use krelay.Alarm.{
  selecting, draining, Alarm, start, elapse, new_timer, ring, close_done, stop, receive_reset,
  reset_timer, starts, rings, closes, rearms, passes, resets, runs, Reach, here, next,
}
use krelay.Alarm.Rings.{done_late, reset_returns, done_stuck, goes_off, SoonReady}

abbrev armed : Alarm
armed = new_timer 5 (start 0)

-- Two units behind the start a `Reset` comes.
abbrev reset_at_2 : Alarm
reset_at_2 = reset_timer 5 (receive_reset (elapse 2 armed))

abbrev rung : Alarm
rung = close_done (ring (elapse 5 reset_at_2))

to_armed : Reach 5 (start 0) armed
unfolding start
to_armed = next here (runs (starts refl))

to_reset : Reach 5 (start 0) reset_at_2
unfolding new_timer elapse receive_reset
to_reset = next (next (next to_armed (passes 2)) (resets refl)) (runs (rearms refl))

reset_selects : reset_at_2.runner ≡ selecting
unfolding reset_timer stop receive_reset elapse new_timer start
reset_selects = refl

to_rung : Reach 5 (start 0) rung
unfolding reset_timer stop receive_reset elapse new_timer start ring
to_rung =
    next (next (next to_reset (passes 5)) (runs (rings {t = 7} refl refl (omega arith))))
      (runs (closes refl))

rung_done : rung.done ≡ true
unfolding close_done stop ring
rung_done = refl

rung_now : rung.now ≡ 7
unfolding reset_timer stop receive_reset elapse new_timer start ring close_done
rung_now = refl

done_late_example : rung.last_reset + 5 ≤ rung.now
done_late_example = done_late 0 to_rung rung_done

reset_returns_example : SoonReady 5 reset_at_2
reset_returns_example = reset_returns 0 to_reset

done_stuck_example : ((elapse 9 rung).done ≡ true) × ((elapse 9 rung).runner ≡ draining false)
done_stuck_example = done_stuck 0 to_rung rung_done (passes 9)

goes_off_run : (b : Alarm) × Reach 5 reset_at_2 b × (b.now ≡ reset_at_2.now + 5) × (b.done ≡ true)
goes_off_run = goes_off 0 to_reset reset_selects
