-- ===== src/Xnet/Tcp/Exit.antt =====
-- What ProxyTCP knows of its brokers, and when it returns.
pub mod Settled
use mathlib.Core.Path.{subst}
use krelay.Prelude.{ℕ, ◌≡◌, refl, sym, ap, ◌∙◌, Bool, true, false, List, [], ◌∷◌, ◌++◌, Bytes}
use krelay.Xnet.Tcp.{
  Broker, copying, stopped, announced, returned, holding, End, Proxy, flip, flip_main, Main,
  selecting, waiting_near, waiting_far, finished, start, at_near, go_to, put, close_end,
  select_near, IsAnnounced, is_announced, is_returned, ReadEnds, by_close_read, NearQuiet,
  read_ends, write_fails, announces, closes, selects, finishes, Quiet, near_quiet, far_quiet,
  NearStep, quiet, sends, ends, gets, reads, writes, read_breaks, write_breaks, Step, near_step,
  far_step, Reach, here, next,
}

-- The connection is closed exactly behind the return of its broker.
abbrev pub IsFit : End → Type 0
IsFit e = e.broker ≡ returned → e.closed ≡ true

-- What ProxyTCP knows at the place where it is.
pub data Knows (near far : End) : Main → Type 0 where
  at_select : Knows near far selecting
  at_far : IsAnnounced near.broker → far.read_closed ≡ true → Knows near far waiting_far
  at_near' : IsAnnounced far.broker → near.read_closed ≡ true → Knows near far waiting_near
  at_end : IsAnnounced near.broker → IsAnnounced far.broker → Knows near far finished

pub data IsSound (p : Proxy) : Type 0 where
  sound : IsFit p.near → IsFit p.far → Knows p.near p.far p.main → IsSound p

id : {A : Type 0} → A → A
id a = a

-- A change of the near end that leaves it announced if it was.
near-Knows :
    {near far near' : End} {m : Main}
    → (IsAnnounced near.broker → IsAnnounced near'.broker)
    → near'.read_closed ≡ near.read_closed
    → Knows near far m
    → Knows near' far m
near-Knows keep same at_select = at_select
near-Knows keep same (at_far a c) = at_far (keep a) c
near-Knows keep same (at_near' a c) = at_near' a (same ∙ c)
near-Knows keep same (at_end a b) = at_end (keep a) b

far-Knows :
    {near far far' : End} {m : Main}
    → (IsAnnounced far.broker → IsAnnounced far'.broker)
    → far'.read_closed ≡ far.read_closed
    → Knows near far m
    → Knows near far' m
far-Knows keep same at_select = at_select
far-Knows keep same (at_far a c) = at_far a (same ∙ c)
far-Knows keep same (at_near' a c) = at_near' (keep a) c
far-Knows keep same (at_end a b) = at_end a (keep b)

selects-Knows :
    {near far : End} {m : Main}
    → m ≡ selecting
    → IsAnnounced near.broker
    → Knows near far m
    → Knows near (record far { read_closed = true; linger_zero = near.is_client }) waiting_far
selects-Knows e a k = at_far a refl

finishes-Knows :
    {near far : End} {m : Main}
    → m ≡ waiting_far
    → IsAnnounced far.broker
    → Knows near far m
    → Knows near far finished
finishes-Knows e b at_select = absurd cc
finishes-Knows e b (at_far a c) = at_end a b
finishes-Knows e b (at_near' a c) = absurd cc
finishes-Knows e b (at_end a c) = absurd cc

-- The broker was not announced.
from : {b b' c : Broker} → b ≡ c → (IsAnnounced c → ⊥) → IsAnnounced b → IsAnnounced b'
from e not a = absurd (not (subst IsAnnounced e a))

not_copying : IsAnnounced copying → ⊥
not_copying a = elim a [ ]

not_holding : {b : Bytes} → IsAnnounced (holding b) → ⊥
not_holding a = elim a [ ]

not_stopped : IsAnnounced stopped → ⊥
not_stopped a = elim a [ ]

NearQuiet-IsSound : {p q : Proxy} → IsSound p → NearQuiet p q → IsSound q
unfolding select_near close_end
NearQuiet-IsSound (sound f g k) (reads e _ _) =
    sound (λ r. absurd cc) g (near-Knows (from e not_copying) refl k)
NearQuiet-IsSound (sound f g k) (read_ends e _) =
    sound (λ r. absurd cc) g (near-Knows (from e not_copying) refl k)
NearQuiet-IsSound (sound f g k) (write_fails e _) =
    sound (λ r. absurd cc) g (near-Knows (from e not_holding) refl k)
NearQuiet-IsSound (sound f g k) (announces e) =
    sound (λ r. absurd cc) g (near-Knows (from e not_stopped) refl k)
NearQuiet-IsSound (sound f g k) (closes e) =
    sound (λ _. refl) g (near-Knows (λ _. is_returned) refl k)
NearQuiet-IsSound (sound f g k) (selects e a) = sound f g (selects-Knows e a k)
NearQuiet-IsSound (sound f g k) (finishes e a) = sound f g (finishes-Knows e a k)

NearStep-IsSound : {p q : Proxy} → IsSound p → NearStep p q → IsSound q
NearStep-IsSound i (quiet step) = NearQuiet-IsSound i step
NearStep-IsSound (sound f g k) (sends b _) = sound f g (near-Knows id refl k)
NearStep-IsSound (sound f g k) ends = sound f g (near-Knows id refl k)
NearStep-IsSound (sound f g k) (gets _) = sound f g (near-Knows id refl k)
NearStep-IsSound (sound f g k) (writes e _) =
    sound (λ r. absurd cc) g (far-Knows id refl (near-Knows (from e not_holding) refl k))
NearStep-IsSound (sound f g k) (read_breaks e) =
    sound (λ r. absurd cc) g (near-Knows (from e not_copying) refl k)
NearStep-IsSound (sound f g k) (write_breaks n e _) =
    sound (λ r. absurd cc) g (far-Knows id refl (near-Knows (from e not_holding) refl k))

flip-Knows : {near far : End} {m : Main} → Knows near far m → Knows far near (flip_main m)
flip-Knows at_select = at_select
flip-Knows (at_far a c) = at_near' a c
flip-Knows (at_near' a c) = at_far a c
flip-Knows (at_end a b) = at_end b a

pub flip-IsSound : {p : Proxy} → IsSound p → IsSound (flip p)
flip-IsSound (sound f g k) = sound g f (flip-Knows k)

pub Step-IsSound : {p q : Proxy} → IsSound p → Step p q → IsSound q
Step-IsSound i (near_step step) = NearStep-IsSound i step
Step-IsSound i (far_step step) = flip-IsSound (NearStep-IsSound (flip-IsSound i) step)

pub Reach-IsSound : {p : Proxy} → Reach start p → IsSound p
unfolding start
Reach-IsSound here = sound (λ r. absurd cc) (λ r. absurd cc) at_select
Reach-IsSound (next r step) = Step-IsSound (Reach-IsSound r) step

waiting_knows :
    {near far : End} {m : Main}
    → m ≡ waiting_far
    → Knows near far m
    → IsAnnounced near.broker × (far.read_closed ≡ true)
waiting_knows e at_select = absurd cc
waiting_knows e (at_far a c) = (a, c)
waiting_knows e (at_near' a c) = absurd cc
waiting_knows e (at_end a b) = absurd cc

both_announced :
    {near far : End} {m : Main}
    → m ≡ finished
    → Knows near far m
    → IsAnnounced near.broker × IsAnnounced far.broker
both_announced e at_select = absurd cc
both_announced e (at_far a c) = absurd cc
both_announced e (at_near' a c) = absurd cc
both_announced e (at_end a b) = (a, b)

pub finished_announced :
    {p : Proxy}
    → IsSound p
    → p.main ≡ finished
    → IsAnnounced p.near.broker × IsAnnounced p.far.broker
finished_announced (sound _ _ k) e = both_announced e k

pub waiting_ended :
    {p : Proxy}
    → IsSound p
    → p.main ≡ waiting_far
    → IsAnnounced p.near.broker × (p.far.read_closed ≡ true)
waiting_ended (sound _ _ k) e = waiting_knows e k

-- ProxyTCP returns only when both brokers have announced the end of their copying.
pub finished_quiet :
    {p : Proxy}
    → Reach start p
    → p.main ≡ finished
    → IsAnnounced p.near.broker × IsAnnounced p.far.broker
finished_quiet r = finished_announced (Reach-IsSound r)
