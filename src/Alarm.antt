-- ===== src/Alarm.antt =====
-- pkg/alarm/alarm.go as a step relation: the goroutine of `Start`, the callers of `Reset`, and time
-- that passes. Timers are those of Go 1.23 and later, whose `Stop` takes back a value that nobody
-- received.
pub mod Invariant
pub mod Rings
use krelay.Prelude.{ℕ, ◌+◌, ◌≡◌, ◌≤◌, Bool, true, false}

-- A time.Timer: it goes off at a time, or is not set (never, or stopped, or its value was received).
pub data Timer : Type 0 where
  unset : Timer
  set_for : ℕ → Timer

-- `Stop`: whether the timer was set.
unfoldable pub stop : Timer → Bool × Timer
stop unset = (false, unset)
stop (set_for t) = (true, unset)

-- Where the goroutine is: in front of `NewTimer`, in the `select`, behind a receive from `a.reset`,
-- behind a receive from `t.C`, in the receive of `stopTimer` (before it goes on to `return`, or to
-- `t.Reset`), or returned.
pub data Runner : Type 0 where
  starting selecting resetting ringing returned : Runner
  draining : Bool → Runner

-- `last_reset` is no variable of the program: it is the time at which the goroutine started or a
-- `Reset` was last received.
pub record Alarm : Type 0 where
  pub now : ℕ
  pub runner : Runner
  pub timer : Timer
  pub done : Bool
  pub last_reset : ℕ

-- `New` and `Start`.
unfoldable pub start : ℕ → Alarm
start now = record { now = now; runner = starting; timer = unset; done = false; last_reset = now }

unfoldable pub elapse : ℕ → Alarm → Alarm
elapse n a = record a { now = a.now + n }

-- `t := time.NewTimer(a.d)`.
unfoldable pub new_timer : ℕ → Alarm → Alarm
new_timer d a = record a { runner = selecting; timer = set_for (a.now + d); last_reset = a.now }

-- `<-t.C`.
unfoldable pub ring : Alarm → Alarm
ring a = record a { runner = ringing; timer = unset }

-- `stopTimer` and the `return` behind it.
abbrev pub then_return : Bool × Timer → Alarm → Alarm
then_return (true, t) a = record a { runner = returned; timer = t }
then_return (false, t) a = record a { runner = draining false; timer = t }

-- `close(a.done); stopTimer(t)`.
unfoldable pub close_done : Alarm → Alarm
unfolding stop
close_done a = then_return (stop a.timer) (record a { done = true })

-- A `Reset` that the goroutine receives.
unfoldable pub receive_reset : Alarm → Alarm
receive_reset a = record a { runner = resetting; last_reset = a.now }

abbrev pub rearm : ℕ → Alarm → Alarm
rearm d a = record a { runner = selecting; timer = set_for (a.now + d) }

-- `stopTimer` and the `t.Reset(a.d)` behind it.
abbrev pub then_reset : ℕ → Bool × Timer → Alarm → Alarm
then_reset d (true, t) a = rearm d a
then_reset d (false, t) a = record a { runner = draining true; timer = t }

-- `stopTimer(t); t.Reset(a.d)`.
unfoldable pub reset_timer : ℕ → Alarm → Alarm
unfolding stop
reset_timer d a = then_reset d (stop a.timer) a

-- Steps of the goroutine alone.
pub data Own (d : ℕ) (a : Alarm) : Alarm → Type 0 where
  starts : a.runner ≡ starting → Own d a (new_timer d a)
  rings : {t : ℕ} → a.runner ≡ selecting → a.timer ≡ set_for t → t ≤ a.now → Own d a (ring a)
  closes : a.runner ≡ ringing → Own d a (close_done a)
  rearms : a.runner ≡ resetting → Own d a (reset_timer d a)
  drained :
      {t : ℕ}
      → a.runner ≡ draining false
      → a.timer ≡ set_for t
      → t ≤ a.now
      → Own d a (record a { runner = returned; timer = unset })
  drained_again :
      {t : ℕ} → a.runner ≡ draining true → a.timer ≡ set_for t → t ≤ a.now → Own d a (rearm d a)

pub data Step (d : ℕ) (a : Alarm) : Alarm → Type 0 where
  passes : (n : ℕ) → Step d a (elapse n a)
  resets : a.runner ≡ selecting → Step d a (receive_reset a)
  runs : {b : Alarm} → Own d a b → Step d a b

pub data Reach (d : ℕ) (a : Alarm) : Alarm → Type 0 where
  here : Reach d a a
  next : {b c : Alarm} → Reach d a b → Step d b c → Reach d a c
