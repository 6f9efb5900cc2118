-- ===== src/Xnet/Udp/Session.antt =====
-- ProxyUDP of pkg/xnet/udp.go as a step relation: its two loops, the goroutine that waits for them,
-- the alarm and the two peers. Of the packets only their number is modelled; Loops has their bytes.
pub mod Ends
pub mod Settled
use krelay.Prelude.{ℕ, suc, ◌≡◌, ◌⊎◌, Bool, true, false, not}

-- Where a loop is: in its read, in the write of a packet, in `a.Reset()`, or behind the close of its
-- channel.
pub data Loop : Type 0 where
  reading writing resetting returned : Loop

-- Where ProxyUDP is: in the `select`, in the receive from the channel of one loop, or at its end.
pub data Main : Type 0 where
  selecting waiting_up waiting_down finished : Main

-- `down` reads from the client and `up` from the destination; `frames` and `packets` have arrived for
-- them and were not read. `read_closed` is that of downConn, and `up_closed` that of upConn.
pub record Session : Type 0 where
  pub main : Main
  pub down : Loop
  pub up : Loop
  pub frames : ℕ
  pub packets : ℕ
  pub alarm_done : Bool
  pub read_closed : Bool
  pub up_closed : Bool

unfoldable pub start : Session
start = record {
  main = selecting;
  down = reading;
  up = reading;
  frames = 0;
  packets = 0;
  alarm_done = false;
  read_closed = false;
  up_closed = false;
}

abbrev pub set_down : Loop → Session → Session
set_down l s = record s { down = l }

abbrev pub set_up : Loop → Session → Session
set_up l s = record s { up = l }

abbrev pub read_frame : ℕ → Session → Session
read_frame n s = record s { down = writing; frames = n }

-- The two branches of the `select`.
unfoldable pub select_down : Session → Session
select_down s = record s { main = waiting_up; up_closed = true }

unfoldable pub select_up : Session → Session
select_up s = record s { main = waiting_down; read_closed = true }

-- Steps that need nothing from the peers. A read of the client's side fails when nothing is left and
-- its reading end is closed or the alarm is done, since every read has a time limit; a packet to the
-- destination is taken by the kernel; and `Reset` returns, as Alarm shows.
pub data Quiet (s : Session) : Session → Type 0 where
  down_reads : {n : ℕ} → s.down ≡ reading → s.frames ≡ suc n → Quiet s (read_frame n s)
  down_ends :
      s.down ≡ reading
      → s.frames ≡ 0
      → (s.read_closed ≡ true) ⊎ (s.alarm_done ≡ true)
      → Quiet s (set_down returned s)
  down_writes : s.down ≡ writing → s.up_closed ≡ false → Quiet s (set_down resetting s)
  down_write_fails : s.down ≡ writing → s.up_closed ≡ true → Quiet s (set_down returned s)
  down_resets : s.down ≡ resetting → Quiet s (set_down reading s)
  up_ends : s.up ≡ reading → s.up_closed ≡ true → Quiet s (set_up returned s)
  up_times_out : s.up ≡ reading → s.packets ≡ 0 → s.alarm_done ≡ true → Quiet s (set_up returned s)
  up_resets : s.up ≡ resetting → Quiet s (set_up reading s)
  selects_down : s.main ≡ selecting → s.down ≡ returned → Quiet s (select_down s)
  selects_up : s.main ≡ selecting → s.up ≡ returned → Quiet s (select_up s)
  sees_up : s.main ≡ waiting_up → s.up ≡ returned → Quiet s (record s { main = finished })
  sees_down : s.main ≡ waiting_down → s.down ≡ returned → Quiet s (record s { main = finished })

-- All steps: something arrives, the alarm goes off, a packet of the destination is read and goes to
-- the client, or a read or a write fails.
pub data Step (s : Session) : Session → Type 0 where
  quiet : {t : Session} → Quiet s t → Step s t
  frame_comes : Step s (record s { frames = suc s.frames })
  packet_comes : Step s (record s { packets = suc s.packets })
  goes_off : Step s (record s { alarm_done = true })
  up_reads :
      {n : ℕ}
      → s.up ≡ reading
      → s.up_closed ≡ false
      → s.packets ≡ suc n
      → Step s (record s { up = writing; packets = n })
  up_writes : s.up ≡ writing → Step s (set_up resetting s)
  down_fails : (s.down ≡ reading) ⊎ (s.down ≡ writing) → Step s (set_down returned s)
  up_fails : (s.up ≡ reading) ⊎ (s.up ≡ writing) → Step s (set_up returned s)

pub data Reach (s : Session) : Session → Type 0 where
  here : Reach s s
  next : {t u : Session} → Reach s t → Step t u → Reach s u

pub data Settles (s : Session) : Session → Type 0 where
  still : Settles s s
  then_settles : {t u : Session} → Settles s t → Quiet t u → Settles s u
