-- ===== src/Alarm/Rings.antt =====
-- When an alarm goes off, and what it keeps others from.
use krelay.Prelude.{ℕ, ◌+◌, ◌≡◌, ◌≤◌, refl, ap, Bool, true, false, ◌⊎◌, inl, inr}
use krelay.Alarm.{
  Timer, unset, stop, selecting, draining, Alarm, start, elapse, new_timer, ring, then_return,
  close_done, then_reset, reset_timer, Own, starts, rings, closes, rearms, drained, drained_again,
  Step, passes, resets, runs, Reach, here, next,
}
use krelay.Alarm.Invariant.{
  IsSound, Sound-cases, set_soon, done-Sound, stop_set, never_drained, Reach-IsSound,
}

-- An alarm is done only when its whole duration has passed since its start and since the last
-- `Reset` that was received.
pub done_late :
    {d : ℕ} (now : ℕ) {a : Alarm} → Reach d (start now) a → a.done ≡ true → a.last_reset + d ≤ a.now
done_late now r is_done = (done-Sound is_done (Reach-IsSound now r)).1

-- A `Reset` returns at once.
abbrev pub IsReady : Alarm → Type 0
IsReady a = (a.runner ≡ selecting) ⊎ (a.done ≡ true)

-- The state, or the one behind a step that the goroutine makes without anyone's help.
abbrev pub SoonReady : ℕ → Alarm → Type 0
SoonReady d a = IsReady a ⊎ ((b : Alarm) × Own d a b × IsReady b)

then_return-done : (x : Bool × Timer) (a : Alarm) → (then_return x a).done ≡ a.done
then_return-done (true, t) a = refl
then_return-done (false, t) a = refl

close_done-done : (a : Alarm) → (close_done a).done ≡ true
unfolding close_done
close_done-done a = then_return-done (stop a.timer) (record a { done = true })

then_return-now : (x : Bool × Timer) (a : Alarm) → (then_return x a).now ≡ a.now
then_return-now (true, t) a = refl
then_return-now (false, t) a = refl

close_done-now : (a : Alarm) → (close_done a).now ≡ a.now
unfolding close_done
close_done-now a = then_return-now (stop a.timer) (record a { done = true })

reset_timer-selecting :
    (d : ℕ) (a : Alarm) → stop a.timer ≡ (true, unset) → (reset_timer d a).runner ≡ selecting
unfolding reset_timer
reset_timer-selecting d a e = ap (λ x. (then_reset d x a).runner) e

-- No caller of `Reset` is kept waiting: in every reachable state a `Reset` returns at once, or does
-- so behind one step that the goroutine makes without anyone's help.
pub reset_returns : {d : ℕ} (now : ℕ) {a : Alarm} → Reach d (start now) a → SoonReady d a
unfolding new_timer
reset_returns {d} now {a} r =
    let i = Reach-IsSound now r in
    elim (Sound-cases i) [
      | inl e ↦ inr (new_timer d a, starts e, inl refl)
      | inr (inl e) ↦ inl (inl e)
      | inr (inr (inl e)) ↦
          inr (reset_timer d a, rearms e, inl (reset_timer-selecting d a (stop_set e i).0))
      | inr (inr (inr (inl e))) ↦ inr (close_done a, closes e, inr (close_done-done a))
      | inr (inr (inr (inr e))) ↦ inl (inr e)
    ]

no_move : {d : ℕ} {a b : Alarm} → a.runner ≡ draining false → IsSound d a → Own d a b → ⊥
no_move e i (starts e') = cc
no_move e i (rings e' _ _) = cc
no_move e i (closes e') = cc
no_move e i (rearms e') = cc
no_move e i (drained e' te _) = never_drained e' te i
no_move e i (drained_again e' te _) = never_drained e' te i

-- An alarm that is done stays done, and its goroutine waits for ever in the receive of `stopTimer`:
-- every step from such a state leaves it there, so it never returns.
pub done_stuck :
    {d : ℕ} (now : ℕ) {a b : Alarm}
    → Reach d (start now) a
    → a.done ≡ true
    → Step d a b
    → (b.done ≡ true) × (b.runner ≡ draining false)
unfolding elapse
done_stuck now r is_done (passes n) = (is_done, (done-Sound is_done (Reach-IsSound now r)).0)
done_stuck now r is_done (resets e) = absurd (cc ((done-Sound is_done (Reach-IsSound now r)).0, e))
done_stuck {d} now {a} r is_done (runs own) =
    let i = Reach-IsSound now r in absurd (no_move (done-Sound is_done i).0 i own)

-- An alarm that is not reset goes off: from every reachable state in the select it can be done once
-- its duration has passed, by steps of its own goroutine.
pub goes_off :
    {d : ℕ} (now : ℕ) {a : Alarm}
    → Reach d (start now) a
    → a.runner ≡ selecting
    → (b : Alarm) × Reach d a b × (b.now ≡ a.now + d) × (b.done ≡ true)
unfolding elapse ring
goes_off {d} now {a} r in_select =
    let (t, is_set, soon) = set_soon in_select (Reach-IsSound now r) in
    let later = elapse d a in
    let to1 : Reach d a later = next here (passes d) in
    let to2 : Reach d a (ring later) = next to1 (runs (rings in_select is_set soon)) in
    (
      close_done (ring later),
      next to2 (runs (closes refl)),
      close_done-now (ring later),
      close_done-done (ring later),
    )
