-- ===== src/Tests/Tcp.antt =====
-- A client that sends two bytes, ends its side and closes, while the upstream says nothing.
use mathlib.Core.List.{flatten, IsPrefix}
use krelay.Prelude.{◌++◌, ◌≡◌, refl, true, [], ◌∷◌, inl}
use krelay.Xnet.Tcp.{
  announced, finished, Proxy, flip, start, at_near, at_far, go_to, put, receive, close_end,
  select_near, End, holding, copying, stopped, IsAnnounced, is_announced, by_peer, by_close_read,
  reads, read_ends, announces, closes, selects, finishes, quiet, sends, ends, gets, writes,
  near_step, far_step, Reach, here, next, Settles,
}
use krelay.Xnet.Tcp.Flow.{delivered_prefix, all_passed}
use krelay.Xnet.Tcp.Exit.{finished_quiet}
use krelay.Xnet.Tcp.Exit.Settled.{IsSettled, both_return}

abbrev client_end : End → End
client_end e = record e { ended = true }

abbrev sent : Proxy
sent = at_near client_end (at_near (receive (7 ∷ 8 ∷ [])) start)

abbrev held : Proxy
held = at_near (λ e. record e { broker = holding (7 ∷ 8 ∷ []); inbox = [] }) sent

abbrev written : Proxy
written = at_far (put (7 ∷ 8 ∷ [])) (at_near (go_to copying) held)

abbrev drained : Proxy
drained = written

to_drained : Reach start drained
unfolding start
to_drained =
    let r = next here (near_step (sends (7 ∷ 8 ∷ []) refl)) in
    let r = next r (near_step ends) in
    let r = next r (near_step (quiet (reads refl refl refl))) in
    next r (near_step (writes refl refl))

abbrev client_done : Proxy
client_done = at_near (go_to announced) (at_near (go_to stopped) written)

to_client_done : Reach start client_done
unfolding start
to_client_done =
    let r = next to_drained (near_step (quiet (read_ends refl (by_peer refl refl)))) in
    next r (near_step (quiet (announces refl)))

abbrev upstream_got : End → End
upstream_got e = record e { pending = []; delivered = (7 ∷ 8 ∷ []) ∷ [] }

abbrev got : Proxy
got = flip (at_near upstream_got (flip client_done))

to_got : Reach start got
unfolding start
to_got = next to_client_done (far_step (gets refl))

delivered_prefix_example :
    IsPrefix (flatten got.far.delivered) (flatten got.near.arrived)
    × IsPrefix (flatten got.near.delivered) (flatten got.far.arrived)
delivered_prefix_example = delivered_prefix to_got

abbrev far_done : Proxy
far_done = flip (at_near (go_to announced) (at_near (go_to stopped) (flip (select_near got))))

to_far_done : Reach start far_done
unfolding start select_near
to_far_done =
    let r = next to_got (near_step (quiet (selects refl is_announced))) in
    let r = next r (far_step (quiet (read_ends refl (by_close_read refl refl)))) in
    next r (far_step (quiet (announces refl)))

to_finished : Reach start (record far_done { main = finished })
unfolding start select_near
to_finished = next to_far_done (near_step (quiet (finishes refl is_announced)))

finished_quiet_run : IsAnnounced far_done.near.broker × IsAnnounced far_done.far.broker
finished_quiet_run = finished_quiet to_finished refl

both_return_example : (q : Proxy) × Settles client_done q × IsSettled q
both_return_example = both_return to_client_done (inl is_announced)

-- The client has closed before the upstream got its bytes: the last close throws them away.
abbrev both_announced : Proxy
both_announced =
    flip (at_near (go_to announced) (at_near (go_to stopped) (flip (select_near client_done))))

abbrev thrown_away : Proxy
thrown_away = flip (at_near close_end (flip both_announced))

to_thrown_away : Reach start thrown_away
unfolding start select_near
to_thrown_away =
    let r = next to_client_done (near_step (quiet (selects refl is_announced))) in
    let r = next r (far_step (quiet (read_ends refl (by_close_read refl refl)))) in
    let r = next r (far_step (quiet (announces refl))) in next r (far_step (quiet (closes refl)))

lost : (thrown_away.far.pending ≡ []) × (thrown_away.far.delivered ≡ [])
unfolding start select_near close_end
lost = (refl, refl)

all_passed_example :
    flatten drained.near.arrived ≡ flatten (drained.far.delivered ++ drained.far.pending)
unfolding start
all_passed_example = all_passed to_drained refl refl refl
