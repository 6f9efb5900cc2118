-- ===== src/Xnet/Udp/Session/Settled.antt =====
-- ProxyUDP ends without the peers.
use mathlib.Core.Path.{subst}
use krelay.Prelude.{ℕ, zero, suc, ◌≡◌, ◌≢◌, refl, true, false, ◌⊎◌, inl, inr}
use krelay.Xnet.Udp.Session.{
  Loop, reading, writing, resetting, returned, Main, selecting, waiting_up, waiting_down, finished,
  Session, start, set_down, set_up, read_frame, select_down, select_up, down_reads, down_ends,
  down_writes, down_resets, up_ends, up_times_out, up_resets, selects_down, selects_up, sees_up,
  sees_down, Reach, Settles, still, then_settles,
}
use krelay.Xnet.Udp.Session.Ends.{
  IsSound, Quiet-IsSound, Reach-IsSound, knows_up, knows_down, knows_end,
}

Settles-append : {s t u : Session} → Settles s t → Settles t u → Settles s u
Settles-append a still = a
Settles-append a (then_settles b q) = then_settles (Settles-append a b) q

Settles-IsSound : {s t : Session} → IsSound s → Settles s t → IsSound t
Settles-IsSound i still = i
Settles-IsSound i (then_settles a q) = Quiet-IsSound (Settles-IsSound i a) q

-- The loop that reads frames returns.
abbrev DownReturns : Session → Type 0
DownReturns s = (n : ℕ) × Settles s (record s { down = returned; frames = n })

abbrev GivesUp : Session → Type 0
GivesUp s = (s.read_closed ≡ true) ⊎ (s.alarm_done ≡ true)

after_reset : (s : Session) → s.down ≡ resetting → DownReturns (set_down reading s) → DownReturns s
after_reset s e (n, path) = (n, Settles-append (then_settles still (down_resets e)) path)

after_write :
    (s : Session)
    → s.down ≡ writing
    → s.up_closed ≡ false
    → DownReturns (set_down reading s)
    → DownReturns s
after_write s e o later =
    let (n, path) = after_reset (set_down resetting s) refl later in
    (n, Settles-append (then_settles still (down_writes e o)) path)

drain :
    (n : ℕ) (s : Session)
    → s.frames ≡ n
    → s.down ≡ reading
    → GivesUp s
    → s.up_closed ≡ false
    → DownReturns s
drain zero s has e ends o = (s.frames, then_settles still (down_ends e has ends))
drain (suc k) s has e ends o =
    let (n, path) =
      after_write (read_frame k s) refl o
        (drain k (record s { down = reading; frames = k }) refl refl ends o) in
    (n, Settles-append (then_settles still (down_reads e has)) path)

down_returns :
    (s : Session) {l : Loop} → s.down ≡ l → GivesUp s → s.up_closed ≡ false → DownReturns s
down_returns s {l = reading} e ends o = drain s.frames s refl e ends o
down_returns s {l = writing} e ends o =
    after_write s e o (drain s.frames (set_down reading s) refl refl ends o)
down_returns s {l = resetting} e ends o =
    after_reset s e (drain s.frames (set_down reading s) refl refl ends o)
down_returns s {l = returned} e ends o =
    (s.frames, subst (λ l. Settles s (record s { down = l })) e still)

-- The loop that reads packets returns, unless it is in a write to the client.
abbrev UpEnds : Session → Type 0
UpEnds s = (s.up_closed ≡ true) ⊎ ((s.packets ≡ 0) × (s.alarm_done ≡ true))

up_reading : (s : Session) → s.up ≡ reading → UpEnds s → Settles s (set_up returned s)
up_reading s e (inl c) = then_settles still (up_ends e c)
up_reading s e (inr (none_left, late)) = then_settles still (up_times_out e none_left late)

up_returns :
    (s : Session) {l : Loop} → s.up ≡ l → l ≢ writing → UpEnds s → Settles s (set_up returned s)
up_returns s {l = reading} e n ends = up_reading s e ends
up_returns s {l = writing} e n ends = absurd (n refl)
up_returns s {l = resetting} e n ends =
    Settles-append (then_settles still (up_resets e)) (up_reading (set_up reading s) refl ends)
up_returns s {l = returned} e n ends = subst (λ l. Settles s (set_up l s)) e still

abbrev Finishes : Session → Type 0
Finishes s = (t : Session) × Settles s t × (t.main ≡ finished)

Finishes-after : {s t : Session} → Settles s t → Finishes t → Finishes s
Finishes-after a (u, b, e) = (u, Settles-append a b, e)

wait_up : (s : Session) → s.main ≡ waiting_up → s.up ≢ writing → s.up_closed ≡ true → Finishes s
wait_up s e n c = (_, then_settles (up_returns s refl n (inl c)) (sees_up e refl), refl)

wait_down :
    (s : Session) → s.main ≡ waiting_down → s.read_closed ≡ true → s.up_closed ≡ false → Finishes s
wait_down s e c o =
    let (n, path) = down_returns s refl (inl c) o in (_, then_settles path (sees_down e refl), refl)

down_ended :
    (s : Session) (m : Main)
    → s.main ≡ m
    → IsSound s
    → s.down ≡ returned
    → s.up ≢ writing
    → Finishes s
unfolding select_down
down_ended s selecting e i d n =
    Finishes-after (then_settles still (selects_down e d)) (wait_up (select_down s) refl n refl)
down_ended s waiting_up e i d n = let (_, c) = knows_up e i in wait_up s e n c
down_ended s waiting_down e i d n = (_, then_settles still (sees_down e d), refl)
down_ended s finished e i d n = (s, still, e)

up_ended : (s : Session) (m : Main) → s.main ≡ m → IsSound s → s.up ≡ returned → Finishes s
unfolding select_up
up_ended s selecting e i d =
    let to_wait = then_settles still (selects_up e d) in
    let (_, c, o) = knows_down refl (Settles-IsSound i to_wait) in
    Finishes-after to_wait (wait_down (select_up s) refl c o)
up_ended s waiting_up e i d = (_, then_settles still (sees_up e d), refl)
up_ended s waiting_down e i d = let (_, c, o) = knows_down e i in wait_down s e c o
up_ended s finished e i d = (s, still, e)

-- What makes ProxyUDP end: one of its loops has returned, or the alarm is done and no packet waits.
abbrev pub IsEnding : Session → Type 0
IsEnding s = (s.down ≡ returned) ⊎ ((s.up ≡ returned) ⊎ ((s.packets ≡ 0) × (s.alarm_done ≡ true)))

can_finish : (s : Session) → IsSound s → s.up ≢ writing → IsEnding s → Finishes s
can_finish s i n (inl d) = down_ended s s.main refl i d n
can_finish s i n (inr (inl u)) = up_ended s s.main refl i u
can_finish s i n (inr (inr late)) =
    let path = up_returns s refl n (inr late) in
    Finishes-after path (up_ended (set_up returned s) s.main refl (Settles-IsSound i path) refl)

-- Once one of its loops has returned, or the alarm is done and no packet of the destination waits,
-- ProxyUDP can end by its own steps, with both loops returned, unless it is in a write to the client,
-- which has no time limit.
pub session_ends :
    {s : Session}
    → Reach start s
    → s.up ≢ writing
    → IsEnding s
    → (t : Session) × Settles s t × (t.main ≡ finished) × (t.down ≡ returned) × (t.up ≡ returned)
session_ends {s} r n ending =
    let i = Reach-IsSound r in
    let (t, path, e) = can_finish s i n ending in
    let (d, u, _) = knows_end e (Settles-IsSound i path) in (t, path, e, d, u)
