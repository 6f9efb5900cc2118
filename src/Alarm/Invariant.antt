-- ===== src/Alarm/Invariant.antt =====
-- What holds in every reachable state of an alarm.
use mathlib.Core.Path.{subst}
use krelay.Prelude.{ℕ, ◌+◌, ◌≡◌, ◌≤◌, refl, sym, Bool, true, false, arith, ◌⊎◌, inl, inr}
use krelay.Alarm.{
  Timer, unset, set_for, stop, Runner, starting, selecting, resetting, ringing, draining, Alarm,
  start, elapse, new_timer, ring, close_done, receive_reset, then_reset, then_return, reset_timer,
  Own, starts, rings, closes, rearms, drained, drained_again, Step, passes, resets, runs, Reach,
  here, next,
}

-- The timer is set in the select and behind a reset, and unset behind the ring; only the ring is
-- followed by the receive of `stopTimer`, and it is for ever.
pub data Sound (d now last : ℕ) : Runner → Timer → Bool → Type 0 where
  at_start : {t : Timer} → Sound d now last starting t false
  at_select : {t : ℕ} → last + d ≤ t → t ≤ now + d → Sound d now last selecting (set_for t) false
  at_reset : {t : ℕ} → last ≤ now → Sound d now last resetting (set_for t) false
  at_ring : last + d ≤ now → Sound d now last ringing unset false
  at_drain : last + d ≤ now → Sound d now last (draining false) unset true

elapse-Sound :
    {d now last : ℕ} {r : Runner} {t : Timer} {b : Bool} (n : ℕ)
    → Sound d now last r t b
    → Sound d (now + n) last r t b
elapse-Sound n at_start = at_start
elapse-Sound n (at_select h u) = at_select h (omega arith)
elapse-Sound n (at_reset h) = at_reset (omega arith)
elapse-Sound n (at_ring h) = at_ring (omega arith)
elapse-Sound n (at_drain h) = at_drain (omega arith)

new_timer-Sound :
    {d now last : ℕ} {r : Runner} {t : Timer} {b : Bool}
    → r ≡ starting
    → Sound d now last r t b
    → Sound d now now selecting (set_for (now + d)) b
new_timer-Sound e at_start = at_select (omega arith) (omega arith)
new_timer-Sound e (at_select h u) = absurd cc
new_timer-Sound e (at_reset h) = absurd cc
new_timer-Sound e (at_ring h) = absurd cc
new_timer-Sound e (at_drain h) = absurd cc

ring-Sound :
    {d now last : ℕ} {r : Runner} {t : Timer} {b : Bool} {deadline : ℕ}
    → r ≡ selecting
    → t ≡ set_for deadline
    → deadline ≤ now
    → Sound d now last r t b
    → Sound d now last ringing unset b
ring-Sound e te due at_start = absurd cc
ring-Sound {deadline} e te due (at_select {t = t'} h u) =
    let same : t' ≡ deadline = cc in at_ring (omega arith)
ring-Sound e te due (at_reset h) = absurd cc
ring-Sound e te due (at_ring h) = absurd cc
ring-Sound e te due (at_drain h) = absurd cc

receive_reset-Sound :
    {d now last : ℕ} {r : Runner} {t : Timer} {b : Bool}
    → r ≡ selecting
    → Sound d now last r t b
    → Sound d now now resetting t b
receive_reset-Sound e at_start = absurd cc
receive_reset-Sound e (at_select h u) = at_reset (omega arith)
receive_reset-Sound e (at_reset h) = absurd cc
receive_reset-Sound e (at_ring h) = absurd cc
receive_reset-Sound e (at_drain h) = absurd cc

-- `stopTimer` finds the timer set behind a reset, and unset behind the ring.
pub stop_set :
    {d now last : ℕ} {r : Runner} {t : Timer} {b : Bool}
    → r ≡ resetting
    → Sound d now last r t b
    → (stop t ≡ (true, unset)) × (b ≡ false) × (last ≤ now)
unfolding stop
stop_set e at_start = absurd cc
stop_set e (at_select h u) = absurd cc
stop_set e (at_reset h) = (refl, refl, h)
stop_set e (at_ring h) = absurd cc
stop_set e (at_drain h) = absurd cc

pub stop_unset :
    {d now last : ℕ} {r : Runner} {t : Timer} {b : Bool}
    → r ≡ ringing
    → Sound d now last r t b
    → (stop t ≡ (false, unset)) × (last + d ≤ now)
unfolding stop
stop_unset e at_start = absurd cc
stop_unset e (at_select h u) = absurd cc
stop_unset e (at_reset h) = absurd cc
stop_unset e (at_ring h) = (refl, h)
stop_unset e (at_drain h) = absurd cc

-- The receive of `stopTimer` never ends.
pub never_drained :
    {d now last : ℕ} {r : Runner} {t : Timer} {b : Bool} {again : Bool} {deadline : ℕ}
    → r ≡ draining again
    → t ≡ set_for deadline
    → Sound d now last r t b
    → ⊥
never_drained e te at_start = cc
never_drained e te (at_select h u) = cc
never_drained e te (at_reset h) = cc
never_drained e te (at_ring h) = cc
never_drained e te (at_drain h) = cc

-- Once done, the goroutine is in that receive, and the alarm is late enough.
pub done-Sound :
    {d now last : ℕ} {r : Runner} {t : Timer} {b : Bool}
    → b ≡ true
    → Sound d now last r t b
    → (r ≡ draining false) × (last + d ≤ now)
done-Sound e at_start = absurd cc
done-Sound e (at_select h u) = absurd cc
done-Sound e (at_reset h) = absurd cc
done-Sound e (at_ring h) = absurd cc
done-Sound e (at_drain h) = (refl, h)

abbrev pub IsSound : ℕ → Alarm → Type 0
IsSound d a = Sound d a.now a.last_reset a.runner a.timer a.done

Own-IsSound : {d : ℕ} {a b : Alarm} → IsSound d a → Own d a b → IsSound d b
unfolding new_timer ring close_done reset_timer
Own-IsSound i (starts e) = new_timer-Sound e i
Own-IsSound i (rings e te due) = ring-Sound e te due i
Own-IsSound {d} {a} i (closes e) =
    let (stopped, due) = stop_unset e i in
    subst (λ x. IsSound d (then_return x (record a { done = true }))) (sym stopped) (at_drain due)
Own-IsSound {d} {a} i (rearms e) =
    let (stopped, still, early) = stop_set e i in
    subst (λ x. IsSound d (then_reset d x a)) (sym stopped)
      (subst (λ b. Sound d a.now a.last_reset selecting (set_for (a.now + d)) b) (sym still)
        (at_select (omega arith) (omega arith)))
Own-IsSound i (drained e te _) = absurd (never_drained e te i)
Own-IsSound i (drained_again e te _) = absurd (never_drained e te i)

pub Step-IsSound : {d : ℕ} {a b : Alarm} → IsSound d a → Step d a b → IsSound d b
unfolding elapse receive_reset
Step-IsSound i (passes n) = elapse-Sound n i
Step-IsSound i (resets e) = receive_reset-Sound e i
Step-IsSound i (runs own) = Own-IsSound i own

start-IsSound : (d now : ℕ) → IsSound d (start now)
unfolding start
start-IsSound d now = at_start

pub Reach-IsSound : {d : ℕ} (now : ℕ) {a : Alarm} → Reach d (start now) a → IsSound d a
Reach-IsSound {d} now here = start-IsSound d now
Reach-IsSound now (next r step) = Step-IsSound (Reach-IsSound now r) step

pub Sound-cases :
    {d now last : ℕ} {r : Runner} {t : Timer} {b : Bool}
    → Sound d now last r t b
    → (r ≡ starting) ⊎ ((r ≡ selecting) ⊎ ((r ≡ resetting) ⊎ ((r ≡ ringing) ⊎ (b ≡ true))))
Sound-cases at_start = inl refl
Sound-cases (at_select h u) = inr (inl refl)
Sound-cases (at_reset h) = inr (inr (inl refl))
Sound-cases (at_ring h) = inr (inr (inr (inl refl)))
Sound-cases (at_drain h) = inr (inr (inr (inr refl)))

-- In the select the timer is set, for a time at most the duration away.
pub set_soon :
    {d now last : ℕ} {r : Runner} {t : Timer} {b : Bool}
    → r ≡ selecting
    → Sound d now last r t b
    → (deadline : ℕ) × (t ≡ set_for deadline) × (deadline ≤ now + d)
set_soon e at_start = absurd cc
set_soon e (at_select {t} h u) = (t, refl, u)
set_soon e (at_reset h) = absurd cc
set_soon e (at_ring h) = absurd cc
set_soon e (at_drain h) = absurd cc
