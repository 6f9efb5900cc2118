-- ===== src/Tests/Idle.antt =====
-- A server with a timeout of 4 that serves one connection and then shuts down.
use krelay.Prelude.{ℕ, ◌+◌, ◌≡◌, ◌≢◌, ◌≤◌, refl, arith}
use krelay.Server.Idle.{
  State, Reach, here, next, passes, accept, counts, begins, leaves, finishes, ticks, start, elapse,
  count, begin, leave, finish, look, decide, waiting, idle, looked, listening, closed_by_monitor,
  returned, connect_count, connect_touch, disconnect_touch, disconnect_count,
}
use krelay.Server.Idle.Invariant.{in_hand}
use krelay.Server.Idle.Shutdown.{
  active_conns_lem, active_conns_zero, decide_closes, timeout_zero, idle_shuts_down,
}

abbrev state : ℕ → ℕ → State
state now last = record {
  now = now;
  tracker = record { active_conns = 0; last_activity = last };
  accepting = waiting;
  monitor = idle;
  listener = listening;
  running = 0;
  leaving = 0;
  served_until = last;
}

-- A connection that is served from 10 until 13.
served_one : Reach 4 (start 10) (state 13 13)
unfolding start elapse count begin leave finish connect_count connect_touch disconnect_touch
    disconnect_count
served_one =
    next
      (next
        (next (next (next (next here (accept refl refl)) (counts refl)) (begins refl)) (passes 3))
        (leaves (omega arith)))
      (finishes (omega arith))

abbrev behind_look : State
behind_look = record (state 17 13) { monitor = looked 13 }

looking : Reach 4 (start 10) behind_look
unfolding elapse look
looking = next (next served_one (passes 4)) (ticks (omega arith) refl)

active_conns_lem_run :
    (state 13 13).tracker.active_conns
    ≡ (state 13 13).running + (state 13 13).leaving + in_hand waiting
active_conns_lem_run = active_conns_lem 10 served_one

active_conns_zero_run :
    ((state 13 13).running ≡ 0) × ((state 13 13).leaving ≡ 0) × ((state 13 13).served_until ≤ 13)
active_conns_zero_run = active_conns_zero 10 served_one refl

decide_closes_example :
    (behind_look.tracker.last_activity + 4 ≤ behind_look.now) × (13 + 4 ≤ behind_look.now)
unfolding decide
decide_closes_example = decide_closes 10 looking refl refl refl

unwatched : Reach 0 (start 10) (record (start 10) { now = 99 })
unfolding elapse start
unwatched = next here (passes 89)

timeout_zero_run : (record (start 10) { now = 99 }).listener ≢ closed_by_monitor
timeout_zero_run = timeout_zero 10 unwatched

idle_shuts_down_example :
    (t : State) × Reach 4 (state 13 13) t
    × (t.now ≡ (state 13 13).now + 4)
    × (t.accepting ≡ returned)
    × (t.listener ≡ closed_by_monitor)
idle_shuts_down_example = idle_shuts_down 10 served_one (omega arith) refl refl refl
