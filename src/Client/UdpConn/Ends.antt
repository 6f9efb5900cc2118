-- ===== src/Client/UdpConn/Ends.antt =====
-- What the end of a UDP handler tells.
use krelay.Prelude.{ℕ, suc, ◌≡◌, ◌≢◌, refl, ap, Option, none, some, ◌⊎◌, inl, inr}
use krelay.Client.ErrorStream.{Report}
use krelay.Client.Copying.{Copy, idle, running, ended, ErrorReader, reading, reported, sending}
use krelay.Client.UdpConn.{
  Main, opening, waiting, finishing, finished, UdpHandler, start, after_error, take_report, tell,
  Step, refused, opened, reader_ends, writer_ends, write_fails, reads_error, takes, takes_nothing,
  tells, Reach, here, next,
}

-- What holds at each place of the handler.
data Knows (reader : Copy) (r : ErrorReader) (told : ℕ) : Main → Type 0 where
  at_open : reader ≡ idle → told ≡ 0 → Knows reader r told opening
  at_wait : told ≡ 0 → Knows reader r told waiting
  at_finish : (reader ≡ idle) ⊎ (r ≡ reported) → told ≡ 0 → Knows reader r told finishing
  at_end : (reader ≡ idle) ⊎ (r ≡ reported) → told ≡ 1 → Knows reader r told finished

module _ {reader : Copy} {r : ErrorReader} {told : ℕ} where
  refuse : {m : Main} → m ≡ opening → Knows reader r told m → Knows reader r told finishing
  refuse e (at_open i t) = at_finish (inl i) t
  refuse e (at_wait t) = absurd cc
  refuse e (at_finish o t) = absurd cc
  refuse e (at_end o t) = absurd cc

  run : {m : Main} → m ≡ opening → Knows reader r told m → Knows running r told waiting
  run e (at_open i t) = at_wait t
  run e (at_wait t) = absurd cc
  run e (at_finish o t) = absurd cc
  run e (at_end o t) = absurd cc

  end_reader : {m : Main} → reader ≡ running → Knows reader r told m → Knows ended r told m
  end_reader e (at_open i t) = absurd cc
  end_reader e (at_wait t) = at_wait t
  end_reader e (at_finish (inl i) t) = absurd cc
  end_reader e (at_finish (inr d) t) = at_finish (inr d) t
  end_reader e (at_end (inl i) t) = absurd cc
  end_reader e (at_end (inr d) t) = at_end (inr d) t

  read_error :
      {m : Main} (r' : ErrorReader) → r ≡ reading → Knows reader r told m → Knows reader r' told m
  read_error r' e (at_open i t) = at_open i t
  read_error r' e (at_wait t) = at_wait t
  read_error r' e (at_finish (inl i) t) = at_finish (inl i) t
  read_error r' e (at_finish (inr d) t) = absurd cc
  read_error r' e (at_end (inl i) t) = at_end (inl i) t
  read_error r' e (at_end (inr d) t) = absurd cc

  take :
      {m : Main} (r' : ErrorReader)
      → m ≡ waiting
      → r' ≡ reported
      → Knows reader r told m
      → Knows reader r' told finishing
  take r' e d (at_open i t) = absurd cc
  take r' e d (at_wait t) = at_finish (inr d) t
  take r' e d (at_finish o t) = absurd cc
  take r' e d (at_end o t) = absurd cc

  tell_end : {m : Main} → m ≡ finishing → Knows reader r told m → Knows reader r (suc told) finished
  tell_end e (at_open i t) = absurd cc
  tell_end e (at_wait t) = absurd cc
  tell_end e (at_finish o t) = at_end o (ap suc t)
  tell_end e (at_end o t) = absurd cc

  end_cases :
      {m : Main}
      → Knows reader r told m
      → ((m ≢ finished) × (told ≡ 0))
        ⊎ ((m ≡ finished) × (told ≡ 1) × ((reader ≡ idle) ⊎ (r ≡ reported)))
  end_cases (at_open i t) = inl ((λ e. absurd cc), t)
  end_cases (at_wait t) = inl ((λ e. absurd cc), t)
  end_cases (at_finish o t) = inl ((λ e. absurd cc), t)
  end_cases (at_end o t) = inr (refl, t, o)

abbrev IsSound : UdpHandler → Type 0
IsSound h = Knows h.reader h.error_reader h.told h.main

error-IsSound :
    (h : UdpHandler) (r : Option Report)
    → h.error_reader ≡ reading
    → IsSound h
    → IsSound (after_error r h)
error-IsSound h none e i = read_error reported e i
error-IsSound h (some r) e i = read_error (sending r) e i

Step-IsSound : {h j : UdpHandler} → IsSound h → Step h j → IsSound j
unfolding take_report tell
Step-IsSound i (refused e) = refuse e i
Step-IsSound i (opened e) = run e i
Step-IsSound i (reader_ends e) = end_reader e i
Step-IsSound i (writer_ends _ _) = i
Step-IsSound i (write_fails _) = i
Step-IsSound {h} i (reads_error r e) = error-IsSound h r e i
Step-IsSound i (takes e _) = take reported e refl i
Step-IsSound {h} i (takes_nothing e d) = take h.error_reader e d i
Step-IsSound i (tells e) = tell_end e i

Reach-IsSound : {h : UdpHandler} → Reach start h → IsSound h
unfolding start
Reach-IsSound here = at_open refl refl
Reach-IsSound (next r step) = Step-IsSound (Reach-IsSound r) step

-- A UDP handler tells the forwarder that its client is finished exactly once, as the last thing that
-- it does, whichever way it ends; and one that has begun its goroutines does so only when the
-- goroutine of the error stream waits for no receiver any more.
pub told_once :
    {h : UdpHandler}
    → Reach start h
    → ((h.main ≢ finished) × (h.told ≡ 0))
      ⊎ ((h.main ≡ finished) × (h.told ≡ 1) × ((h.reader ≡ idle) ⊎ (h.error_reader ≡ reported)))
told_once r = end_cases (Reach-IsSound r)
