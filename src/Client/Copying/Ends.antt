-- ===== src/Client/Copying/Ends.antt =====
-- How the handler ends, and what its end leaves.
use krelay.Prelude.{◌≡◌, ◌≢◌, refl, Bool, true, false, Option, none, some, ◌⊎◌, inl, inr}
use krelay.Client.ErrorStream.{Report}
use krelay.Client.Copying.{
  Main, opening, selecting, receiving, finished, Copy, idle, running, ended, failed, ErrorReader,
  reading, reported, sending, Handler, start, after_read, Step, refused, opened, remote_done,
  client_fails, local_done, local_fails, sees_remote, sees_local, reads_error, takes, takes_nothing,
  Reach, here, next,
}

-- A copy that does not run any more.
abbrev pub Over : Copy → Type 0
Over c = (c ≡ ended) ⊎ (c ≡ failed)

-- What lets the handler leave the `select`.
abbrev Left : Copy → Copy → Type 0
Left from to = Over from ⊎ (to ≡ failed)

-- What holds at each place of the handler.
data Knows (from to : Copy) (r : ErrorReader) (closed : Bool) : Main → Type 0 where
  at_open : from ≡ idle → to ≡ idle → closed ≡ false → Knows from to r closed opening
  at_select : closed ≡ false → Knows from to r closed selecting
  at_receive : Left from to → closed ≡ false → Knows from to r closed receiving
  at_refused : from ≡ idle → to ≡ idle → closed ≡ true → Knows from to r closed finished
  at_end : Left from to → r ≡ reported → closed ≡ true → Knows from to r closed finished

keep-Left : {from to : Copy} (to' : Copy) → to ≡ running → Left from to → Left from to'
keep-Left to' e (inl o) = inl o
keep-Left to' e (inr o) = absurd cc

module _ {from to : Copy} {r : ErrorReader} {closed : Bool} where
  refuse : {m : Main} → m ≡ opening → Knows from to r closed m → Knows from to r true finished
  refuse e (at_open f t c) = at_refused f t refl
  refuse e (at_select c) = absurd cc
  refuse e (at_receive o c) = absurd cc
  refuse e (at_refused f t c) = absurd cc
  refuse e (at_end o d c) = absurd cc

  begin :
      {m : Main} → m ≡ opening → Knows from to r closed m → Knows running running r closed selecting
  begin e (at_open f t c) = at_select c
  begin e (at_select c) = absurd cc
  begin e (at_receive o c) = absurd cc
  begin e (at_refused f t c) = absurd cc
  begin e (at_end o d c) = absurd cc

  end_from :
      {m : Main} {from' : Copy}
      → from ≡ running
      → Over from'
      → Knows from to r closed m
      → Knows from' to r closed m
  end_from e over (at_open f t c) = absurd cc
  end_from e over (at_select c) = at_select c
  end_from e over (at_receive o c) = at_receive (inl over) c
  end_from e over (at_refused f t c) = absurd cc
  end_from e over (at_end o d c) = at_end (inl over) d c

  end_to :
      {m : Main} (to' : Copy) → to ≡ running → Knows from to r closed m → Knows from to' r closed m
  end_to to' e (at_open f t c) = absurd cc
  end_to to' e (at_select c) = at_select c
  end_to to' e (at_receive o c) = at_receive (keep-Left to' e o) c
  end_to to' e (at_refused f t c) = absurd cc
  end_to to' e (at_end o d c) = at_end (keep-Left to' e o) d c

  see :
      {m : Main}
      → m ≡ selecting
      → Left from to
      → Knows from to r closed m
      → Knows from to r closed receiving
  see e o (at_open f t c) = absurd cc
  see e o (at_select c) = at_receive o c
  see e o (at_receive o' c) = absurd cc
  see e o (at_refused f t c) = absurd cc
  see e o (at_end o' d c) = absurd cc

  read_error :
      {m : Main} (r' : ErrorReader)
      → r ≡ reading
      → Knows from to r closed m
      → Knows from to r' closed m
  read_error r' e (at_open f t c) = at_open f t c
  read_error r' e (at_select c) = at_select c
  read_error r' e (at_receive o c) = at_receive o c
  read_error r' e (at_refused f t c) = at_refused f t c
  read_error r' e (at_end o d c) = absurd cc

  take :
      {m : Main} (r' : ErrorReader)
      → m ≡ receiving
      → r' ≡ reported
      → Knows from to r closed m
      → Knows from to r' true finished
  take r' e d (at_open f t c) = absurd cc
  take r' e d (at_select c) = absurd cc
  take r' e d (at_receive o c) = at_end o d refl
  take r' e d (at_refused f t c) = absurd cc
  take r' e d (at_end o d' c) = absurd cc

  -- A handler that is finished, or not.
  finish_cases :
      {m : Main}
      → m ≡ finished
      → Knows from to r closed m
      → ((from ≡ idle) × (to ≡ idle) × (closed ≡ true))
        ⊎ (Left from to × (r ≡ reported) × (closed ≡ true))
  finish_cases e (at_open f t c) = absurd cc
  finish_cases e (at_select c) = absurd cc
  finish_cases e (at_receive o c) = absurd cc
  finish_cases e (at_refused f t c) = inl (f, t, c)
  finish_cases e (at_end o d c) = inr (o, d, c)

abbrev IsSound : Handler → Type 0
IsSound h = Knows h.from_remote h.to_remote h.error_reader h.client_closed h.main

read-IsSound :
    (h : Handler) (r : Option Report)
    → h.error_reader ≡ reading
    → IsSound h
    → IsSound (after_read r h)
read-IsSound h none e i = read_error reported e i
read-IsSound h (some r) e i = read_error (sending r) e i

Step-IsSound : {h j : Handler} → IsSound h → Step h j → IsSound j
Step-IsSound i (refused e) = refuse e i
Step-IsSound i (opened e) = begin e i
Step-IsSound i (remote_done e) = end_from e (inl refl) i
Step-IsSound i (client_fails e) = end_from e (inr refl) i
Step-IsSound i (local_done e) = end_to ended e i
Step-IsSound i (local_fails e) = end_to failed e i
Step-IsSound i (sees_remote e d) = see e (inl d) i
Step-IsSound i (sees_local e d) = see e (inr d) i
Step-IsSound {h} i (reads_error r e) = read-IsSound h r e i
Step-IsSound i (takes e _) = take reported e refl i
Step-IsSound {h} i (takes_nothing e d) = take h.error_reader e d i

Reach-IsSound : {h : Handler} → Reach start h → IsSound h
unfolding start
Reach-IsSound here = at_open refl refl refl
Reach-IsSound (next r step) = Step-IsSound (Reach-IsSound r) step

-- A handler of a TCP connection that has begun its copies does not end before one of three things:
-- its reads from the stream have ended, at the end of the remote's data or by an error; a write to the
-- client's connection has failed; or the copy to the stream has ended by an error that is not that of
-- a closed connection. When it ends, the client's connection is closed and the goroutine of the error
-- stream is not left waiting for a receiver.
pub finished_cases :
    {h : Handler}
    → Reach start h
    → h.main ≡ finished
    → h.from_remote ≢ idle
    → (((h.from_remote ≡ ended) ⊎ (h.from_remote ≡ failed)) ⊎ (h.to_remote ≡ failed))
      × (h.error_reader ≡ reported)
      × (h.client_closed ≡ true)
finished_cases r e started = elim (finish_cases e (Reach-IsSound r)) [
  | inl (f, _, _) ↦ absurd (started f)
  | inr (o, d, c) ↦ (o, d, c)
]

no_step :
    {h : Handler} {report : Report}
    → h.main ≡ finished
    → h.from_remote ≡ idle
    → h.to_remote ≡ idle
    → h.error_reader ≡ sending report
    → (j : Handler) → ¬ Step h j
no_step e f t d j (refused o) = cc
no_step e f t d j (opened o) = cc
no_step e f t d j (remote_done o) = cc
no_step e f t d j (client_fails o) = cc
no_step e f t d j (local_done o) = cc
no_step e f t d j (local_fails o) = cc
no_step e f t d j (sees_remote o _) = cc
no_step e f t d j (sees_local o _) = cc
no_step e f t d j (reads_error r o) = cc
no_step e f t d j (takes o _) = cc
no_step e f t d j (takes_nothing o _) = cc

-- A handler that returns in front of its copies, because the header or the acknowledgement failed,
-- never takes the report of the error stream: once the goroutine is in its send nothing can happen
-- any more, so it waits for ever.
pub report_lost :
    {h : Handler} {report : Report}
    → Reach start h
    → h.main ≡ finished
    → h.from_remote ≡ idle
    → h.error_reader ≡ sending report
    → (j : Handler) → ¬ Step h j
report_lost r e f d j = elim (finish_cases e (Reach-IsSound r)) [
  | inl (_, t, _) ↦ no_step e f t d j
  | inr (_, d', _) ↦ absurd cc
]
