-- ===== src/Server/Idle/Shutdown.antt =====
-- When the monitor closes the listener.
use mathlib.Core.Path.{subst}
use krelay.Prelude.{
  ℕ, ◌+◌, ◌-◌, ◌≡◌, ◌≢◌, ◌<◌, ◌≤◌, refl, false, arith, inl, inr, Bool-cases, leb, leb→le, le→leb,
}
use krelay.Server.Idle.{
  waiting, returned, idle, stopped, looked, listening, closed_by_monitor, State, start, look,
  decide, elapse, begin, leave, finish, count, Step, passes, accept, counts, begins, leaves,
  finishes, ticks, decides, ends, fails, Reach, here, next,
}
use krelay.Server.Idle.Invariant.{in_hand, Stamped, none_running, Reach-IsSound}

-- In every reachable state `activeConns` counts the handlers that have not finished and the
-- connection that the accept loop is about to hand over.
pub active_conns_lem :
    {timeout : ℕ} (now : ℕ) {s : State}
    → Reach timeout (start now) s
    → s.tracker.active_conns ≡ s.running + s.leaving + in_hand s.accepting
active_conns_lem now r = (Reach-IsSound now r).counted_all

-- Where `activeConns` is 0 in a reachable state, no handler runs or is leaving, and `lastActivity` is
-- not earlier than the last moment at which one ran.
pub active_conns_zero :
    {timeout : ℕ} (now : ℕ) {s : State}
    → Reach timeout (start now) s
    → s.tracker.active_conns ≡ 0
    → (s.running ≡ 0) × (s.leaving ≡ 0) × (s.served_until ≤ s.tracker.last_activity)
active_conns_zero now r none =
    let i = Reach-IsSound now r in
    let (running, leaving) = none_running i none in (running, leaving, i.rested running)

decide_keeps :
    (timeout : ℕ) (s : State)
    → leb timeout (s.now - s.tracker.last_activity) ≡ false
    → (decide timeout s).listener ≡ s.listener
unfolding decide
decide_keeps timeout s e = rw e refl

-- When the monitor of a reachable state closes the listener, the last activity is a whole timeout
-- ago, and so is the end of the service of all connections that came before the monitor found
-- `activeConns` to be 0.
pub decide_closes :
    {timeout : ℕ} (now : ℕ) {s : State} {served_then : ℕ}
    → Reach timeout (start now) s
    → s.monitor ≡ looked served_then
    → s.listener ≡ listening
    → (decide timeout s).listener ≡ closed_by_monitor
    → (s.tracker.last_activity + timeout ≤ s.now) × (served_then + timeout ≤ s.now)
unfolding decide
decide_closes {timeout} now {s} {served_then} r looking open_before closes =
    let i = Reach-IsSound now r in
    let before : served_then ≤ s.tracker.last_activity =
      subst (λ m. Stamped m s.tracker.last_activity) looking i.seen in
    elim (Bool-cases (leb timeout (s.now - s.tracker.last_activity))) [
      | inl e ↦
          let quiet = leb→le timeout (s.now - s.tracker.last_activity) e in
          (omega (arith, i.clock), omega (arith, i.clock))
      | inr e ↦ cc (open_before, decide_keeps timeout s e, closes)
    ]

-- Without a timeout the monitor is never behind a load, and closes nothing.
abbrev Unwatched : State → Type 0
Unwatched s = ((t : ℕ) → s.monitor ≢ looked t) × (s.listener ≢ closed_by_monitor)

Step-Unwatched : {s t : State} → Unwatched s → Step 0 s t → Unwatched t
unfolding elapse count begin leave finish
Step-Unwatched u (passes d) = u
Step-Unwatched u (accept _ _) = u
Step-Unwatched u (counts _) = u
Step-Unwatched u (begins _) = u
Step-Unwatched u (leaves _) = u
Step-Unwatched u (finishes _) = u
Step-Unwatched u (ticks pos _) = elim pos [ ]
Step-Unwatched (unlooked, _) (decides t e) = absurd (unlooked t e)
Step-Unwatched u (ends _ _) = u
Step-Unwatched u (fails _) = ((λ t h. absurd cc), λ h. absurd cc)

Reach-Unwatched : (now : ℕ) {s : State} → Reach 0 (start now) s → Unwatched s
unfolding start
Reach-Unwatched now here = ((λ t h. absurd cc), λ h. absurd cc)
Reach-Unwatched now (next r step) = Step-Unwatched (Reach-Unwatched now r) step

-- With a timeout of 0 the monitor never closes the listener.
pub timeout_zero : (now : ℕ) {s : State} → Reach 0 (start now) s → s.listener ≢ closed_by_monitor
timeout_zero now r = (Reach-Unwatched now r).1

looks :
    (s : State) → s.tracker.active_conns ≡ 0 → look s ≡ record s { monitor = looked s.served_until }
unfolding look
looks s e = rw e refl

decides_yes :
    (timeout : ℕ) (s : State)
    → s.tracker.last_activity + timeout ≤ s.now
    → decide timeout s ≡ record s { monitor = stopped; listener = closed_by_monitor }
unfolding decide
decides_yes timeout s h = rw (le→leb timeout (s.now - s.tracker.last_activity) (omega arith)) refl

-- From every reachable state in which nothing is counted and the monitor and the accept loop wait,
-- the server can shut down once another timeout has passed: the monitor's next look closes the
-- listener, and the accept loop returns.
pub idle_shuts_down :
    {timeout : ℕ} (now : ℕ) {s : State}
    → Reach timeout (start now) s
    → 0 < timeout
    → s.tracker.active_conns ≡ 0
    → s.monitor ≡ idle
    → s.accepting ≡ waiting
    → (t : State) × Reach timeout s t
      × (t.now ≡ s.now + timeout)
      × (t.accepting ≡ returned)
      × (t.listener ≡ closed_by_monitor)
unfolding elapse
idle_shuts_down {timeout} now {s} r pos none at_tick at_accept =
    let i = Reach-IsSound now r in
    let s1 = elapse timeout s in
    let s2 = record s1 { monitor = looked s1.served_until } in
    let s3 = record s2 { monitor = stopped; listener = closed_by_monitor } in
    let to1 : Reach timeout s s1 = next here (passes timeout) in
    let to2 : Reach timeout s s2 =
      next to1 (subst (Step timeout s1) (looks s1 none) (ticks pos at_tick)) in
    let to3 : Reach timeout s s3 = next to2 (
      subst (Step timeout s2) (decides_yes timeout s2 (omega (arith, i.clock)))
        (decides s1.served_until refl)) in
    (record s3 { accepting = returned }, next to3 (ends at_accept refl), refl, refl, refl)
