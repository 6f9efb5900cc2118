-- ===== src/RemoteAddr/Dynamic/Watch.antt =====
-- What the watch leaves in a dynamic address.
use mathlib.Core.Path.{subst}
use krelay.Prelude.{
  ◌≡◌, refl, ap, ◌∙◌, true, false, List, [], ◌∷◌, ◌++◌, Option, none, some, ◌⊎◌, inl, inr, Bytes,
  Bool-cases, equal, equal_iff, All, Option-cases, not, ◌&&◌,
}
use krelay.RemoteAddr.Dynamic.{
  PodInfo, DynamicAddr, sort_pods, first_running, update_pod_ip, points_to, point, poll, poll_from,
  EventType, added, modified, deleted, bookmark, error, WatchEvent, Watched, watching, panicked,
  is_modified, pod_event, by_type, handle_event, next_event, watch_for_updates,
}
use krelay.RemoteAddr.Dynamic.Newest.{Has, Picked, first_running-Picked}

abbrev Answers : Type 0
Answers = List (Option (List PodInfo))

-- The list is one of the answers, or one of those of an event.
abbrev pub Answered : List PodInfo → Answers → Type 0
Answered ps [] = ⊥
Answered ps (a ∷ answers) = (a ≡ some ps) ⊎ Answered ps answers

abbrev pub Offered : List PodInfo → List WatchEvent → Type 0
Offered ps [] = ⊥
Offered ps (ev ∷ evs) = Answered ps ev.answers ⊎ Offered ps evs

abbrev pub state_of : Watched → DynamicAddr
state_of (watching d) = d
state_of (panicked d) = d

module _ (parse_ip : Bytes → Option Bytes) where
  -- The state is the old one, or that of the newest running pod of a list of the kind.
  abbrev pub Current : (List PodInfo → Type 0) → DynamicAddr → DynamicAddr → Type 0
  Current From d d' =
      (d' ≡ d)
      ⊎ ((ps : List PodInfo) × (p : PodInfo) × From ps
          × Picked ps (some p)
          × (d' ≡ points_to parse_ip p))

  Current-imp :
      {From Wide : List PodInfo → Type 0} {d d' : DynamicAddr}
      → ((ps : List PodInfo) → From ps → Wide ps)
      → Current From d d'
      → Current Wide d d'
  Current-imp f (inl same) = inl same
  Current-imp f (inr (ps, p, from, picked, e)) = inr (ps, p, f ps from, picked, e)

  -- A state that comes from one that is current itself.
  Current-trans :
      {From : List PodInfo → Type 0} {d d' d'' : DynamicAddr}
      → Current From d d'
      → Current From d' d''
      → Current From d d''
  Current-trans before (inr after) = inr after
  Current-trans (inl same) (inl same') = inl (same' ∙ same)
  Current-trans (inr (ps, p, from, picked, e)) (inl same') = inr (ps, p, from, picked, same' ∙ e)

  poll_found :
      (ps : List PodInfo) (o : Option PodInfo) (answers : Answers) (d : DynamicAddr)
      → first_running (sort_pods ps) ≡ o
      → ((d : DynamicAddr) → Current (λ qs. Answered qs answers) d (poll parse_ip answers d))
      → Current
          (λ qs. Answered qs (some ps ∷ answers))
          d
          (poll_from parse_ip (poll parse_ip answers) (point parse_ip d o))
  poll_found ps none answers d e later = Current-imp (λ qs h. inr h) (later d)
  poll_found ps (some p) answers d e later =
      inr (ps, p, inl refl, subst (Picked ps) e (first_running-Picked ps), refl)

  poll-Current :
      (answers : Answers) (d : DynamicAddr)
      → Current (λ ps. Answered ps answers) d (poll parse_ip answers d)
  unfolding poll update_pod_ip
  poll-Current [] d = inl refl
  poll-Current (none ∷ answers) d = Current-imp (λ ps h. inr h) (poll-Current answers d)
  poll-Current (some ps ∷ answers) d =
      poll_found ps (first_running (sort_pods ps)) answers d refl (poll-Current answers)

  pod_event-Current :
      (t : EventType) (o : Option PodInfo) (answers : Answers) (d : DynamicAddr)
      → Current (λ ps. Answered ps answers) d (state_of (pod_event parse_ip t o answers d))
  unfolding pod_event
  pod_event-Current t none answers d = inl refl
  pod_event-Current t (some p) answers d = elim (Bool-cases (not (equal p.name d.pod_name))) [
    | inl e ↦ rw e (inl refl)
    | inr e ↦ rw e (elim (Bool-cases (is_modified t && not p.deleting && p.running)) [
      | inl e' ↦ rw e' (inl refl)
      | inr e' ↦ rw e' (poll-Current answers d)
    ])
  ]

  handle_event-Current :
      (ev : WatchEvent) (d : DynamicAddr)
      → Current (λ ps. Answered ps ev.answers) d (state_of (handle_event parse_ip ev d))
  unfolding handle_event
  handle_event-Current ev d = go ev.event_type
    where
      go :
          (t : EventType)
          → Current
              (λ ps. Answered ps ev.answers)
              d
              (state_of (by_type parse_ip t ev.object ev.answers d))
      go bookmark = inl refl
      go error = inl refl
      go added = pod_event-Current added ev.object ev.answers d
      go modified = pod_event-Current modified ev.object ev.answers d
      go deleted = pod_event-Current deleted ev.object ev.answers d

  next_event-Current :
      (evs : List WatchEvent) (From : List PodInfo → Type 0) (d : DynamicAddr) (w : Watched)
      → ((ps : List PodInfo) → Offered ps evs → From ps)
      → Current From d (state_of w)
      → ((d : DynamicAddr)
          → Current (λ ps. Offered ps evs) d (state_of (watch_for_updates parse_ip evs d)))
      → Current From d (state_of (next_event parse_ip (watch_for_updates parse_ip evs) w))
  next_event-Current evs From d (watching d') widen before later =
      Current-trans before (Current-imp widen (later d'))
  next_event-Current evs From d (panicked d') widen before later = before

  -- Whatever the watch delivers, the address is the one from the start, or that of a newest running
  -- pod of one of the lists that the polls got, with its name; also when the watch panics.
  pub watch_for_updates-Current :
      (evs : List WatchEvent) (d : DynamicAddr)
      → Current (λ ps. Offered ps evs) d (state_of (watch_for_updates parse_ip evs d))
  unfolding watch_for_updates
  watch_for_updates-Current [] d = inl refl
  watch_for_updates-Current (ev ∷ evs) d =
      next_event-Current evs (λ ps. Offered ps (ev ∷ evs)) d (handle_event parse_ip ev d)
        (λ ps h. inr h) (Current-imp (λ ps h. inl h) (handle_event-Current ev d))
        (watch_for_updates-Current evs)

-- An answer that gives no running pod.
abbrev pub Unavailable : Option (List PodInfo) → Type 0
Unavailable none = Unit
Unavailable (some ps) = (x : PodInfo) → Has x ps → x.running ≡ false

Unavailable-none : (ps : List PodInfo) → Unavailable (some ps) → first_running (sort_pods ps) ≡ none
Unavailable-none ps idle = elim (Option-cases (first_running (sort_pods ps))) [
  | inl e ↦ e
  | inr (p, e) ↦
      let (has, runs, _) = subst (Picked ps) e (first_running-Picked ps) in
      absurd (cc (idle p has, runs))
]

running-some :
    (ps : List PodInfo) (q : PodInfo)
    → Has q ps
    → q.running ≡ true
    → (r : PodInfo) × (first_running (sort_pods ps) ≡ some r) × Picked ps (some r)
running-some ps q has runs = elim (Option-cases (first_running (sort_pods ps))) [
  | inl e ↦ absurd (cc (subst (Picked ps) e (first_running-Picked ps) q has, runs))
  | inr (r, e) ↦ (r, e, subst (Picked ps) e (first_running-Picked ps))
]

module _ (parse_ip : Bytes → Option Bytes) where
  poll-append :
      (fails answers : Answers) (d : DynamicAddr)
      → All Unavailable fails
      → poll parse_ip (fails ++ answers) d ≡ poll parse_ip answers d
  unfolding poll update_pod_ip
  poll-append [] answers d h = refl
  poll-append (none ∷ fails) answers d (_, h) = poll-append fails answers d h
  poll-append (some ps ∷ fails) answers d (idle, h) =
      ap (λ o. poll_from parse_ip (poll parse_ip (fails ++ answers)) (point parse_ip d o))
        (Unavailable-none ps idle)
      ∙ poll-append fails answers d h

  poll-some :
      (ps : List PodInfo) (answers : Answers) (d : DynamicAddr) (r : PodInfo)
      → first_running (sort_pods ps) ≡ some r
      → poll parse_ip (some ps ∷ answers) d ≡ points_to parse_ip r
  unfolding poll update_pod_ip
  poll-some ps answers d r e =
      ap (λ o. poll_from parse_ip (poll parse_ip answers) (point parse_ip d o)) e

  -- When the current pod is deleted, the address becomes that of a newest running pod of the first
  -- list with a running pod, however many lists failed or had none before it within the poll's time.
  pub handle_event_deleted :
      (ev : WatchEvent) (d : DynamicAddr) (p q : PodInfo) (ps : List PodInfo)
      (fails answers : Answers)
      → ev.event_type ≡ deleted
      → ev.object ≡ some p
      → p.name ≡ d.pod_name
      → ev.answers ≡ fails ++ some ps ∷ answers
      → All Unavailable fails
      → Has q ps
      → q.running ≡ true
      → (r : PodInfo) × Picked ps (some r)
        × (handle_event parse_ip ev d ≡ watching (points_to parse_ip r))
  unfolding handle_event pod_event
  handle_event_deleted ev d p q ps fails answers is_deleted about same offers failing has runs =
      let (r, found, picked) = running-some ps q has runs in
      let current : equal p.name d.pod_name ≡ true = (equal_iff p.name d.pod_name).1 same in
      let polled : poll parse_ip ev.answers d ≡ points_to parse_ip r =
        ap (λ a. poll parse_ip a d) offers
        ∙ poll-append fails (some ps ∷ answers) d failing
        ∙ poll-some ps answers d r found in
      (r, picked, rw (is_deleted, about, current) (ap watching polled))
