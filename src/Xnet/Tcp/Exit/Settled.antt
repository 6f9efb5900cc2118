-- ===== src/Xnet/Tcp/Exit/Settled.antt =====
-- Once a broker has announced its end, the proxy ends without the peers.
use mathlib.Core.Path.{subst}
use krelay.Prelude.{◌≡◌, refl, sym, ap, ◌∙◌, Bool, true, false, List, [], ◌∷◌, Bytes, ◌⊎◌, inl, inr}
use krelay.Xnet.Tcp.{
  Broker, copying, stopped, announced, returned, holding, Proxy, flip, flip_main, Main, selecting,
  waiting_near, waiting_far, finished, start, at_near, go_to, close_end, select_near, IsAnnounced,
  is_announced, is_returned, by_close, by_close_read, NearQuiet, reads, read_ends, write_fails,
  announces, closes, selects, finishes, Quiet, near_quiet, far_quiet, quiet, near_step, far_step,
  Reach, Settles, still, then_settles,
}
use krelay.Xnet.Tcp.Exit.{
  IsSound, sound, flip-IsSound, Step-IsSound, Reach-IsSound, finished_announced, waiting_ended,
}

-- ProxyTCP and both brokers have returned, and both connections are closed.
abbrev pub IsSettled : Proxy → Type 0
IsSettled p =
    (p.main ≡ finished)
    × ((p.near.broker ≡ returned) × (p.near.closed ≡ true))
    × ((p.far.broker ≡ returned) × (p.far.closed ≡ true))

Settles-append : {p q r : Proxy} → Settles p q → Settles q r → Settles p r
Settles-append s still = s
Settles-append s (then_settles s' step) = then_settles (Settles-append s s') step

Settles-IsSound : {p q : Proxy} → IsSound p → Settles p q → IsSound q
Settles-IsSound i still = i
Settles-IsSound i (then_settles s (near_quiet step)) =
    Step-IsSound (Settles-IsSound i s) (near_step (quiet step))
Settles-IsSound i (then_settles s (far_quiet step)) =
    Step-IsSound (Settles-IsSound i s) (far_step (quiet step))

flip_main-flip_main : (m : Main) → flip_main (flip_main m) ≡ m
flip_main-flip_main selecting = refl
flip_main-flip_main waiting_near = refl
flip_main-flip_main waiting_far = refl
flip_main-flip_main finished = refl

flip-flip : (p : Proxy) → flip (flip p) ≡ p
flip-flip p = ap (λ m. record p { main = m }) (flip_main-flip_main p.main)

Quiet-flip : {p q : Proxy} → Quiet p q → Quiet (flip p) (flip q)
Quiet-flip {p} {q} (near_quiet step) =
    far_quiet (subst (λ x. NearQuiet x q) (sym (flip-flip p)) step)
Quiet-flip {p} (far_quiet {q} step) =
    subst (λ x. Quiet (flip p) x) (sym (flip-flip q)) (near_quiet step)

Settles-flip : {p q : Proxy} → Settles p q → Settles (flip p) (flip q)
Settles-flip still = still
Settles-flip (then_settles s step) = then_settles (Settles-flip s) (Quiet-flip step)

-- The proxy can settle.
abbrev CanSettle : Proxy → Type 0
CanSettle p = (q : Proxy) × Settles p q × IsSettled q

unflip : (p : Proxy) {q : Proxy} → Settles (flip p) q → Settles p (flip q)
unflip p {q} s = subst (λ x. Settles x (flip q)) (flip-flip p) (Settles-flip s)

CanSettle-flip : (p : Proxy) → CanSettle (flip p) → CanSettle p
CanSettle-flip p (q, s, (e, near, far)) = (flip q, unflip p s, (ap flip_main e, far, near))

announced_cases : {b : Broker} → IsAnnounced b → (b ≡ announced) ⊎ (b ≡ returned)
announced_cases is_announced = inl refl
announced_cases is_returned = inr refl

-- The near broker closes its connection.
close_near :
    (p : Proxy)
    → IsSound p
    → IsAnnounced p.near.broker
    → (q : Proxy) × Settles p q
      × (q.main ≡ p.main)
      × ((q.near.broker ≡ returned) × (q.near.closed ≡ true))
      × (q.far ≡ p.far)
unfolding close_end
close_near p (sound fit _ _) a = elim (announced_cases a) [
  | inl e ↦
      (at_near close_end p, then_settles still (near_quiet (closes e)), refl, (refl, refl), refl)
  | inr e ↦ (p, still, refl, (e, fit e), refl)
]

-- The far broker, which may get no more and writes to a connection that is closed, announces its end.
abbrev FarEnds : Proxy → Type 0
FarEnds p =
    (q : Proxy) × Settles p q × (q.main ≡ p.main) × (q.near ≡ p.near) × IsAnnounced q.far.broker

announce_far : (p : Proxy) → p.far.broker ≡ stopped → FarEnds p
announce_far p e = (
  flip (at_near (go_to announced) (flip p)),
  then_settles still (far_quiet (announces e)),
  flip_main-flip_main p.main,
  refl,
  is_announced,
)

stop_far : (p : Proxy) → Quiet p (flip (at_near (go_to stopped) (flip p))) → FarEnds p
stop_far p step =
    let (q, s, e, n, a) = announce_far (flip (at_near (go_to stopped) (flip p))) refl in
    (q, Settles-append (then_settles still step) s, e ∙ flip_main-flip_main p.main, n, a)

drain_far :
    (p : Proxy)
    → p.far.broker ≡ copying
    → p.near.closed ≡ true
    → p.far.read_closed ≡ true
    → (closed : Bool) (inbox : List Bytes) → p.far.closed ≡ closed
    → p.far.inbox ≡ inbox
    → FarEnds p
drain_far p e c r true inbox d has = stop_far p (far_quiet (read_ends e (by_close d)))
drain_far p e c r false [] d has = stop_far p (far_quiet (read_ends e (by_close_read has r)))
drain_far p e c r false (b ∷ bs) d has =
    let step = far_quiet (reads e d has) in
    let p' = flip (at_near (λ e. record e { broker = holding b; inbox = bs }) (flip p)) in
    let (q, s, m, n, a) = stop_far p' (far_quiet (write_fails refl c)) in
    (q, Settles-append (then_settles still step) s, m ∙ flip_main-flip_main p.main, n, a)

end_far :
    (p : Proxy) {b : Broker}
    → p.far.broker ≡ b
    → p.near.closed ≡ true
    → p.far.read_closed ≡ true
    → FarEnds p
end_far p {b = copying} e c r = drain_far p e c r (p.far.closed) (p.far.inbox) refl refl
end_far p {b = holding b} e c r = stop_far p (far_quiet (write_fails e c))
end_far p {b = stopped} e c r = announce_far p e
end_far p {b = announced} e c r = (p, still, refl, refl, subst IsAnnounced (sym e) is_announced)
end_far p {b = returned} e c r = (p, still, refl, refl, subst IsAnnounced (sym e) is_returned)

close_far :
    (p : Proxy)
    → IsSound p
    → IsAnnounced p.far.broker
    → (q : Proxy) × Settles p q
      × (q.main ≡ p.main)
      × ((q.far.broker ≡ returned) × (q.far.closed ≡ true))
      × (q.near ≡ p.near)
close_far p i a =
    let (q, s, m, far, same) = close_near (flip p) (flip-IsSound i) a in
    (flip q, unflip p s, ap flip_main m ∙ flip_main-flip_main p.main, far, same)

-- When ProxyTCP is at its end.
settle_end : (p : Proxy) → IsSound p → p.main ≡ finished → CanSettle p
settle_end p i e =
    let (near_done, far_done) = finished_announced i e in
    let (q, s, m, near, same) = close_near p i near_done in
    let (r, s', m', far, same') =
      close_far q (Settles-IsSound i s) (subst (λ x. IsAnnounced x.broker) (sym same) far_done) in
    (
      r,
      Settles-append s s',
      (m' ∙ m ∙ e, subst (λ x. (x.broker ≡ returned) × (x.closed ≡ true)) (sym same') near, far),
    )

-- When it waits for the far broker.
settle_far : (p : Proxy) → IsSound p → p.main ≡ waiting_far → CanSettle p
settle_far p i e =
    let (near_done, read_closed) = waiting_ended i e in
    let (q, s, m, (_, closed), same) = close_near p i near_done in
    let (r, s', m', _, far_done) =
      end_far q refl closed (subst (λ x. x.read_closed ≡ true) (sym same) read_closed) in
    let to_end = then_settles (Settles-append s s') (near_quiet (finishes (m' ∙ m ∙ e) far_done)) in
    let (z, s'', done) =
      settle_end (record r { main = finished }) (Settles-IsSound i to_end) refl in
    (z, Settles-append to_end s'', done)

settle : (p : Proxy) (m : Main) → p.main ≡ m → IsSound p → IsAnnounced p.near.broker → CanSettle p
unfolding select_near
settle p selecting e i a =
    let step = then_settles still (near_quiet (selects e a)) in
    let (q, s, done) = settle_far (select_near p) (Settles-IsSound i step) refl in
    (q, Settles-append step s, done)
settle p waiting_far e i a = settle_far p i e
settle p waiting_near e i a =
    CanSettle-flip p (settle_far (flip p) (flip-IsSound i) (ap flip_main e))
settle p finished e i a = settle_end p i e

-- Once one of the brokers has announced the end of its copying, the proxy can end by its own steps,
-- whatever the peers do not send, end or take: ProxyTCP and both brokers return, and both connections
-- are closed.
pub both_return :
    {p : Proxy}
    → Reach start p
    → IsAnnounced p.near.broker ⊎ IsAnnounced p.far.broker
    → (q : Proxy) × Settles p q × IsSettled q
both_return {p} r (inl a) = settle p p.main refl (Reach-IsSound r) a
both_return {p} r (inr a) =
    CanSettle-flip p (settle (flip p) (flip_main p.main) refl (flip-IsSound (Reach-IsSound r)) a)
