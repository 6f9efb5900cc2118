-- ===== src/Server/Idle/Invariant.antt =====
-- What holds in every reachable state of the server.
use krelay.Prelude.{
  ℕ, ◌+◌, ◌-◌, ◌≡◌, ◌<◌, ◌≤◌, refl, ap, ◌∙◌, arith, inl, inr, Bool-cases, ltb, leb,
}
use krelay.Server.Idle.{
  Accepting, accepted, counted, returned, Monitor, idle, stopped, looked, Listener,
  closed_by_monitor, closed_by_loop, State, start, look, decide, elapse, begin, leave, finish,
  count, served, Step, passes, accept, counts, begins, leaves, finishes, ticks, decides, ends,
  fails, Reach, here, next, connect_count, connect_touch, disconnect_touch, disconnect_count,
}

-- A connection that is counted before its handler runs.
abbrev pub in_hand : Accepting → ℕ
in_hand counted = 1
in_hand _ = 0

-- What the monitor saw is not later than the last activity.
abbrev pub Stamped : Monitor → ℕ → Type 0
Stamped (looked served_then) last = served_then ≤ last
Stamped _ last = Unit

-- While no handler runs, the last activity is not before the last service; while one runs, the last
-- service is now.
pub record IsSound (s : State) : Type 0 where
  pub counted_all : s.tracker.active_conns ≡ s.running + s.leaving + in_hand s.accepting
  pub clock : s.tracker.last_activity ≤ s.now
  pub rested : s.running ≡ 0 → s.served_until ≤ s.tracker.last_activity
  pub serving : 0 < s.running → s.served_until ≡ s.now
  pub seen : Stamped s.monitor s.tracker.last_activity

Stamped-later : (m : Monitor) (last now : ℕ) → last ≤ now → Stamped m last → Stamped m now
Stamped-later idle last now h s = tt
Stamped-later stopped last now h s = tt
Stamped-later (looked t) last now h s = omega (arith, s)

served-rested : (n now until : ℕ) → n ≡ 0 → served n now until ≡ until
served-rested n now until h = ground arith

served-serving : (n now until : ℕ) → 0 < n → served n now until ≡ now
served-serving n now until h = ground arith

module _ {s : State} (i : IsSound s) where
  elapse-IsSound : (d : ℕ) → IsSound (elapse d s)
  unfolding elapse
  elapse-IsSound d = record {
    counted_all = i.counted_all;
    clock = omega (arith, i.clock);
    rested = λ h. rw (served-rested s.running (s.now + d) s.served_until h) (i.rested h);
    serving = λ h. served-serving s.running (s.now + d) s.served_until h;
    seen = i.seen;
  }

  count-IsSound : s.accepting ≡ accepted → IsSound (count s)
  unfolding count connect_count
  count-IsSound e = record {
    counted_all =
        let all : s.tracker.active_conns ≡ s.running + s.leaving + 0 =
          i.counted_all ∙ ap (λ a. s.running + s.leaving + in_hand a) e in
        omega arith;
    clock = i.clock;
    rested = i.rested;
    serving = i.serving;
    seen = i.seen;
  }

  begin-IsSound : s.accepting ≡ counted → IsSound (begin s)
  unfolding begin connect_touch
  begin-IsSound e = record {
    counted_all =
        let all : s.tracker.active_conns ≡ s.running + s.leaving + 1 =
          i.counted_all ∙ ap (λ a. s.running + s.leaving + in_hand a) e in
        omega arith;
    clock = omega arith;
    rested = λ h. omega arith;
    serving = λ h. refl;
    seen = Stamped-later s.monitor s.tracker.last_activity s.now i.clock i.seen;
  }

  leave-IsSound : 0 < s.running → IsSound (leave s)
  unfolding leave disconnect_touch
  leave-IsSound pos = record {
    counted_all = omega (arith, i.counted_all);
    clock = omega arith;
    rested = λ h. omega (arith, i.serving pos);
    serving = λ h. i.serving pos;
    seen = Stamped-later s.monitor s.tracker.last_activity s.now i.clock i.seen;
  }

  finish-IsSound : 0 < s.leaving → IsSound (finish s)
  unfolding finish disconnect_count
  finish-IsSound pos = record {
    counted_all = omega (arith, i.counted_all);
    clock = i.clock;
    rested = i.rested;
    serving = i.serving;
    seen = i.seen;
  }

  -- With no connection counted, no handler runs, so the service ended before the last activity.
  pub none_running : s.tracker.active_conns ≡ 0 → (s.running ≡ 0) × (s.leaving ≡ 0)
  none_running h = (omega (arith, i.counted_all), omega (arith, i.counted_all))

  at_monitor-IsSound :
      (m : Monitor) (l : Listener)
      → Stamped m s.tracker.last_activity
      → IsSound (record s { monitor = m; listener = l })
  at_monitor-IsSound m l h = record {
    counted_all = i.counted_all;
    clock = i.clock;
    rested = i.rested;
    serving = i.serving;
    seen = h;
  }

  at_loop-IsSound :
      (a : Accepting) (m : Monitor) (l : Listener)
      → in_hand s.accepting ≡ in_hand a
      → Stamped m s.tracker.last_activity
      → IsSound (record s { accepting = a; monitor = m; listener = l })
  at_loop-IsSound a m l same h = record {
    counted_all = i.counted_all ∙ ap (s.running + s.leaving +◌) same;
    clock = i.clock;
    rested = i.rested;
    serving = i.serving;
    seen = h;
  }

  look-IsSound : IsSound (look s)
  unfolding look
  look-IsSound = elim (Bool-cases (ltb 0 s.tracker.active_conns)) [
    | inl e ↦ rw e i
    | inr e ↦ rw e (
        at_monitor-IsSound (looked s.served_until) s.listener
          (i.rested (none_running (ground arith)).0))
  ]

  decide-IsSound : (timeout : ℕ) → IsSound (decide timeout s)
  unfolding decide
  decide-IsSound timeout = elim (Bool-cases (leb timeout (s.now - s.tracker.last_activity))) [
    | inl e ↦ rw e (at_monitor-IsSound stopped closed_by_monitor tt)
    | inr e ↦ rw e (at_monitor-IsSound idle s.listener tt)
  ]

Step-IsSound : {timeout : ℕ} {s t : State} → IsSound s → Step timeout s t → IsSound t
Step-IsSound i (passes d) = elapse-IsSound i d
Step-IsSound {s = s} i (accept e _) =
    at_loop-IsSound i accepted s.monitor s.listener (ap in_hand e) i.seen
Step-IsSound i (counts e) = count-IsSound i e
Step-IsSound i (begins e) = begin-IsSound i e
Step-IsSound i (leaves pos) = leave-IsSound i pos
Step-IsSound i (finishes pos) = finish-IsSound i pos
Step-IsSound i (ticks _ _) = look-IsSound i
Step-IsSound {timeout} i (decides _ _) = decide-IsSound i timeout
Step-IsSound {s = s} i (ends e _) =
    at_loop-IsSound i returned s.monitor s.listener (ap in_hand e) i.seen
Step-IsSound {s = s} i (fails e) =
    at_loop-IsSound i returned stopped closed_by_loop (ap in_hand e) tt

start-IsSound : (now : ℕ) → IsSound (start now)
unfolding start
start-IsSound now = record {
  counted_all = refl;
  clock = omega arith;
  rested = λ h. omega arith;
  serving = λ h. elim h [ ];
  seen = tt;
}

pub Reach-IsSound : {timeout : ℕ} (now : ℕ) {s : State} → Reach timeout (start now) s → IsSound s
Reach-IsSound now here = start-IsSound now
Reach-IsSound now (next r step) = Step-IsSound (Reach-IsSound now r) step
