-- ===== src/Xnet/Udp/Session/Ends.antt =====
-- How ProxyUDP ends, and which connection it leaves open.
use krelay.Prelude.{◌≡◌, ◌≢◌, refl, sym, ap, ◌∙◌, Bool, true, false, not, ◌⊎◌, inl, inr}
use krelay.Xnet.Udp.Session.{
  Loop, reading, writing, resetting, returned, Main, selecting, waiting_up, waiting_down, finished,
  Session, start, select_down, select_up, Quiet, down_reads, down_ends, down_writes,
  down_write_fails, down_resets, up_ends, up_times_out, up_resets, selects_down, selects_up,
  sees_up, sees_down, Step, quiet, frame_comes, packet_comes, goes_off, up_reads, up_writes,
  down_fails, up_fails, Reach, here, next,
}

-- What ProxyUDP knows at each place, by the two loops and what it has closed.
pub data Knows (down up : Loop) (read_closed up_closed : Bool) : Main → Type 0 where
  at_select :
      read_closed ≡ false → up_closed ≡ false → Knows down up read_closed up_closed selecting
  at_up :
      down ≡ returned
      → read_closed ≡ false
      → up_closed ≡ true
      → Knows down up read_closed up_closed waiting_up
  at_down :
      up ≡ returned
      → read_closed ≡ true
      → up_closed ≡ false
      → Knows down up read_closed up_closed waiting_down
  at_end :
      down ≡ returned
      → up ≡ returned
      → up_closed ≡ not read_closed
      → Knows down up read_closed up_closed finished

abbrev pub IsSound : Session → Type 0
IsSound s = Knows s.down s.up s.read_closed s.up_closed s.main

module _ {down up : Loop} {r u : Bool} where
  -- A step of a loop that had not returned.
  down_moves :
      {m : Main} (down' : Loop) → down ≢ returned → Knows down up r u m → Knows down' up r u m
  down_moves down' n (at_select a b) = at_select a b
  down_moves down' n (at_up d a b) = absurd (n d)
  down_moves down' n (at_down e a b) = at_down e a b
  down_moves down' n (at_end d e c) = absurd (n d)

  up_moves : {m : Main} (up' : Loop) → up ≢ returned → Knows down up r u m → Knows down up' r u m
  up_moves up' n (at_select a b) = at_select a b
  up_moves up' n (at_up d a b) = at_up d a b
  up_moves up' n (at_down e a b) = absurd (n e)
  up_moves up' n (at_end d e c) = absurd (n e)

  pub down_first :
      {m : Main}
      → m ≡ selecting
      → down ≡ returned
      → Knows down up r u m
      → Knows down up r true waiting_up
  down_first e d (at_select a b) = at_up d a refl
  down_first e d (at_up _ _ _) = absurd cc
  down_first e d (at_down _ _ _) = absurd cc
  down_first e d (at_end _ _ _) = absurd cc

  up_first :
      {m : Main}
      → m ≡ selecting
      → up ≡ returned
      → Knows down up r u m
      → Knows down up true u waiting_down
  up_first e d (at_select a b) = at_down d refl b
  up_first e d (at_up _ _ _) = absurd cc
  up_first e d (at_down _ _ _) = absurd cc
  up_first e d (at_end _ _ _) = absurd cc

  up_last :
      {m : Main} → m ≡ waiting_up → up ≡ returned → Knows down up r u m → Knows down up r u finished
  up_last e d (at_select _ _) = absurd cc
  up_last e d (at_up d' a b) = at_end d' d (b ∙ sym (ap not a))
  up_last e d (at_down _ _ _) = absurd cc
  up_last e d (at_end _ _ _) = absurd cc

  down_last :
      {m : Main}
      → m ≡ waiting_down
      → down ≡ returned
      → Knows down up r u m
      → Knows down up r u finished
  down_last e d (at_select _ _) = absurd cc
  down_last e d (at_up _ _ _) = absurd cc
  down_last e d (at_down e' a b) = at_end d e' (b ∙ sym (ap not a))
  down_last e d (at_end _ _ _) = absurd cc

  pub knows_up : {m : Main} → m ≡ waiting_up → Knows down up r u m → (down ≡ returned) × (u ≡ true)
  knows_up e (at_select _ _) = absurd cc
  knows_up e (at_up d a b) = (d, b)
  knows_up e (at_down _ _ _) = absurd cc
  knows_up e (at_end _ _ _) = absurd cc

  pub knows_down :
      {m : Main}
      → m ≡ waiting_down
      → Knows down up r u m
      → (up ≡ returned) × (r ≡ true) × (u ≡ false)
  knows_down e (at_select _ _) = absurd cc
  knows_down e (at_up _ _ _) = absurd cc
  knows_down e (at_down d a b) = (d, a, b)
  knows_down e (at_end _ _ _) = absurd cc

  pub knows_end :
      {m : Main}
      → m ≡ finished
      → Knows down up r u m
      → (down ≡ returned) × (up ≡ returned) × (u ≡ not r)
  knows_end e (at_select _ _) = absurd cc
  knows_end e (at_up _ _ _) = absurd cc
  knows_end e (at_down _ _ _) = absurd cc
  knows_end e (at_end d e' c) = (d, e', c)

busy : {l : Loop} → (l ≡ reading) ⊎ (l ≡ writing) → l ≢ returned
busy (inl e) h = absurd cc
busy (inr e) h = absurd cc

pub Quiet-IsSound : {s t : Session} → IsSound s → Quiet s t → IsSound t
unfolding select_down select_up
Quiet-IsSound i (down_reads e _) = down_moves writing (λ h. absurd cc) i
Quiet-IsSound i (down_ends e _ _) = down_moves returned (λ h. absurd cc) i
Quiet-IsSound i (down_writes e _) = down_moves resetting (λ h. absurd cc) i
Quiet-IsSound i (down_write_fails e _) = down_moves returned (λ h. absurd cc) i
Quiet-IsSound i (down_resets e) = down_moves reading (λ h. absurd cc) i
Quiet-IsSound i (up_ends e _) = up_moves returned (λ h. absurd cc) i
Quiet-IsSound i (up_times_out e _ _) = up_moves returned (λ h. absurd cc) i
Quiet-IsSound i (up_resets e) = up_moves reading (λ h. absurd cc) i
Quiet-IsSound i (selects_down e d) = down_first e d i
Quiet-IsSound i (selects_up e d) = up_first e d i
Quiet-IsSound i (sees_up e d) = up_last e d i
Quiet-IsSound i (sees_down e d) = down_last e d i

Step-IsSound : {s t : Session} → IsSound s → Step s t → IsSound t
Step-IsSound i (quiet q) = Quiet-IsSound i q
Step-IsSound i frame_comes = i
Step-IsSound i packet_comes = i
Step-IsSound i goes_off = i
Step-IsSound i (up_reads e _ _) = up_moves writing (λ h. absurd cc) i
Step-IsSound i (up_writes e) = up_moves resetting (λ h. absurd cc) i
Step-IsSound i (down_fails e) = down_moves returned (busy e) i
Step-IsSound i (up_fails e) = up_moves returned (busy e) i

pub Reach-IsSound : {s : Session} → Reach start s → IsSound s
unfolding start
Reach-IsSound here = at_select refl refl
Reach-IsSound (next r step) = Step-IsSound (Reach-IsSound r) step

-- ProxyUDP returns only when both loops have returned, and then it has closed upConn exactly if it has
-- not closed downConn for reading.
pub finished_closed :
    {s : Session}
    → Reach start s
    → s.main ≡ finished
    → (s.down ≡ returned) × (s.up ≡ returned) × (s.up_closed ≡ not s.read_closed)
finished_closed r e = knows_end e (Reach-IsSound r)
