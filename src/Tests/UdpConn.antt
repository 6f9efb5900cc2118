-- ===== src/Tests/UdpConn.antt =====
-- A UDP handler whose stream is refused, and one that runs.
use krelay.Prelude.{◌≡◌, ◌≢◌, refl, none, ◌⊎◌, [], ◌∷◌, codes}
use krelay.Xio.{accepts, write_full}
use krelay.Client.Copying.{idle, reported, ended}
use krelay.Client.UdpConn.{
  datum, up_closed, write_data, finishing, finished, UdpHandler, start, begin, tell, opened,
  reader_ends, writer_ends, reads_error, takes_nothing, tells, Reach, here, next,
}
use krelay.Client.UdpConn.Ends.{told_once}

abbrev ran : UdpHandler
ran = tell (record (begin start) {
  main = finishing;
  reader = ended;
  writer = ended;
  error_reader = reported;
})

to_ran : Reach start ran
unfolding start
to_ran =
    let r = next here (opened refl) in
    let r = next r (reader_ends refl) in
    let r = next r (writer_ends refl refl) in
    let r = next r (reads_error none refl) in
    let r = next r (takes_nothing refl refl) in next r (tells refl)

told_once_example :
    ((ran.main ≢ finished) × (ran.told ≡ 0))
    ⊎ ((ran.main ≡ finished)
        × (ran.told ≡ 1)
        × ((ran.reader ≡ idle) ⊎ (ran.error_reader ≡ reported)))
told_once_example = told_once to_ran

refused_told : (tell (record start { main = finishing })).told ≡ 1
unfolding tell start
refused_told = refl

-- What comes behind the close of `upClosed` is not written.
stops :
    (write_data (datum (codes "ab") ∷ up_closed ∷ datum (codes "c") ∷ []) (accepts 9 ∷ [])).writes
    ≡ codes "ab" ∷ []
unfolding write_data write_full
stops = refl
