-- ===== src/Server/Idle.antt =====
-- idleTracker and the accept loop of cmd/server/main.go as a step relation. The goroutines are the
-- accept loop, the monitor and one handler for each connection; a step is one atomic operation of
-- one of them, or time that passes. Reading the clock and the operation on an atomic variable that
-- follows it are one step. Times are nanoseconds.
pub mod Invariant
pub mod Shutdown
use krelay.Prelude.{ℕ, zero, suc, ◌+◌, ◌-◌, ◌≡◌, ◌<◌, Bool, true, false, leb, ltb, if◌then◌else◌}

-- `activeConns` and `lastActivity`.
pub record IdleTracker : Type 0 where
  pub active_conns : ℕ
  pub last_activity : ℕ

-- The two operations of `onConnect`, in order, then those of `onDisconnect`.
unfoldable pub connect_count : IdleTracker → IdleTracker
connect_count t = record t { active_conns = t.active_conns + 1 }

unfoldable pub connect_touch : ℕ → IdleTracker → IdleTracker
connect_touch now t = record t { last_activity = now }

unfoldable pub disconnect_touch : ℕ → IdleTracker → IdleTracker
disconnect_touch now t = record t { last_activity = now }

unfoldable pub disconnect_count : IdleTracker → IdleTracker
disconnect_count t = record t { active_conns = t.active_conns - 1 }

-- Where the accept loop is: in `Accept`, in front of `onConnect`, in the middle of it, or returned.
pub data Accepting : Type 0 where
  waiting accepted counted returned : Accepting

-- Where the monitor is: waiting for a tick; behind a load of `activeConns` that gave 0, with the
-- time until which a connection had been served; or returned.
pub data Monitor : Type 0 where
  idle stopped : Monitor
  looked : ℕ → Monitor

pub data Listener : Type 0 where
  listening closed_by_monitor closed_by_loop : Listener

-- Handlers are running until `onDisconnect`, and leaving in the middle of it. `served_until` is no
-- variable of the program: it is the last time at which a handler was running.
pub record State : Type 0 where
  pub now : ℕ
  pub tracker : IdleTracker
  pub accepting : Accepting
  pub monitor : Monitor
  pub listener : Listener
  pub running : ℕ
  pub leaving : ℕ
  pub served_until : ℕ

-- `newIdleTracker`, and the start of the goroutines.
unfoldable pub start : ℕ → State
start now = record {
  now = now;
  tracker = record { active_conns = 0; last_activity = now };
  accepting = waiting;
  monitor = idle;
  listener = listening;
  running = 0;
  leaving = 0;
  served_until = 0;
}

-- The load of `activeConns` at a tick.
unfoldable pub look : State → State
look s = if ltb 0 s.tracker.active_conns then s else record s { monitor = looked s.served_until }

-- The load of `lastActivity`, and what the monitor does then.
unfoldable pub decide : ℕ → State → State
decide timeout s =
    if leb timeout (s.now - s.tracker.last_activity)
    then record s { monitor = stopped; listener = closed_by_monitor }
    else record s { monitor = idle }

abbrev pub served : ℕ → ℕ → ℕ → ℕ
served n now until = if ltb 0 n then now else until

unfoldable pub elapse : ℕ → State → State
elapse d s = record s {
  now = s.now + d;
  served_until = served s.running (s.now + d) s.served_until;
}

unfoldable pub begin : State → State
unfolding connect_touch
begin s = record s {
  accepting = waiting;
  tracker = connect_touch s.now s.tracker;
  running = s.running + 1;
  served_until = s.now;
}

unfoldable pub leave : State → State
unfolding disconnect_touch
leave s = record s {
  tracker = disconnect_touch s.now s.tracker;
  running = s.running - 1;
  leaving = s.leaving + 1;
}

unfoldable pub finish : State → State
unfolding disconnect_count
finish s = record s { tracker = disconnect_count s.tracker; leaving = s.leaving - 1 }

unfoldable pub count : State → State
unfolding connect_count
count s = record s { accepting = counted; tracker = connect_count s.tracker }

-- With a timeout that is not positive the monitor returns at once, so it makes no step.
pub data Step (timeout : ℕ) (s : State) : State → Type 0 where
  passes : (d : ℕ) → Step timeout s (elapse d s)
  accept :
      s.accepting ≡ waiting
      → s.listener ≡ listening
      → Step timeout s (record s { accepting = accepted })
  counts : s.accepting ≡ accepted → Step timeout s (count s)
  begins : s.accepting ≡ counted → Step timeout s (begin s)
  leaves : 0 < s.running → Step timeout s (leave s)
  finishes : 0 < s.leaving → Step timeout s (finish s)
  ticks : 0 < timeout → s.monitor ≡ idle → Step timeout s (look s)
  decides : (served_then : ℕ) → s.monitor ≡ looked served_then → Step timeout s (decide timeout s)
  ends :
      s.accepting ≡ waiting
      → s.listener ≡ closed_by_monitor
      → Step timeout s (record s { accepting = returned })
  fails :
      s.accepting ≡ waiting
      → Step timeout s
          (record s { accepting = returned; monitor = stopped; listener = closed_by_loop })

pub data Reach (timeout : ℕ) (s : State) : State → Type 0 where
  here : Reach timeout s s
  next : {t u : State} → Reach timeout s t → Step timeout t u → Reach timeout s u
