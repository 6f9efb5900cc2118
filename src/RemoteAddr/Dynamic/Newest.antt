-- ===== src/RemoteAddr/Dynamic/Newest.antt =====
-- The pod that `updatePodIP` picks.
use mathlib.Core.Path.{subst}
use krelay.Prelude.{
  ◌≡◌, ◌≤◌, refl, sym, ap, ◌∙◌, true, false, List, [], ◌∷◌, Option, none, some, arith, ◌⊎◌, inl,
  inr, Bool-cases, leb, if◌then◌else◌, leb→le, not-leb→lt,
}
use krelay.RemoteAddr.Dynamic.{
  PodInfo, less, insert, insert_all, reverse_onto, sort_pods, first_running,
}

abbrev pub Has : PodInfo → List PodInfo → Type 0
Has x [] = ⊥
Has x (p ∷ ps) = (x ≡ p) ⊎ Has x ps

-- Oldest first: the slice from the right to the left.
abbrev Rising : List PodInfo → Type 0
Rising [] = Unit
Rising (p ∷ ps) = ((x : PodInfo) → Has x ps → p.created ≤ x.created) × Rising ps

insert-less :
    (p q : PodInfo) (qs : List PodInfo)
    → ((q.created ≤ p.created) × (insert p (q ∷ qs) ≡ q ∷ insert p qs))
      ⊎ ((p.created ≤ q.created) × (insert p (q ∷ qs) ≡ p ∷ q ∷ qs))
unfolding insert less
insert-less p q qs = elim (Bool-cases (leb q.created p.created)) [
  | inl e ↦ inl (leb→le q.created p.created e, rw e refl)
  | inr e ↦ inr (omega (arith, not-leb→lt q.created p.created e), rw e refl)
]

Has-insert : (x p : PodInfo) (qs : List PodInfo) → Has x (insert p qs) → Has x (p ∷ qs)
unfolding insert
Has-insert x p [] h = h
Has-insert x p (q ∷ qs) h = elim (insert-less p q qs) [
  | inl (_, e) ↦ elim (subst (Has x) e h) [
    | inl same ↦ inr (inl same)
    | inr more ↦ elim (Has-insert x p qs more) [ inl same ↦ inl same | inr old ↦ inr (inr old) ]
  ]
  | inr (_, e) ↦ subst (Has x) e h
]

insert-Has : (x p : PodInfo) (qs : List PodInfo) → Has x (p ∷ qs) → Has x (insert p qs)
unfolding insert
insert-Has x p [] h = h
insert-Has x p (q ∷ qs) h = elim (insert-less p q qs) [
  | inl (_, e) ↦ subst (Has x) (sym e) (elim h [
    | inl same ↦ inr (insert-Has x p qs (inl same))
    | inr (inl same) ↦ inl same
    | inr (inr old) ↦ inr (insert-Has x p qs (inr old))
  ])
  | inr (_, e) ↦ subst (Has x) (sym e) h
]

insert-Rising : (p : PodInfo) (qs : List PodInfo) → Rising qs → Rising (insert p qs)
unfolding insert
insert-Rising p [] h = ((λ x has. absurd has), tt)
insert-Rising p (q ∷ qs) (low, rising) = elim (insert-less p q qs) [
  | inl (le, e) ↦ subst Rising (sym e) (
    (λ x has. elim (Has-insert x p qs has) [ inl same ↦ rw same le | inr old ↦ low x old ]),
    insert-Rising p qs rising,
  )
  | inr (le, e) ↦ subst Rising (sym e) (
    (λ x has. elim has [ inl same ↦ rw same le | inr old ↦ omega (arith, le, low x old) ]),
    (low, rising),
  )
]

insert_all-Rising : (done ps : List PodInfo) → Rising done → Rising (insert_all done ps)
unfolding insert_all
insert_all-Rising done [] h = h
insert_all-Rising done (p ∷ ps) h = insert_all-Rising (insert p done) ps (insert-Rising p done h)

-- The pods of a list and those that are already in place are those of the sorted one.
Has-insert_all :
    (x : PodInfo) (done ps : List PodInfo) → Has x (insert_all done ps) → Has x done ⊎ Has x ps
unfolding insert_all
Has-insert_all x done [] h = inl h
Has-insert_all x done (p ∷ ps) h = elim (Has-insert_all x (insert p done) ps h) [
  | inl old ↦ elim (Has-insert x p done old) [ inl same ↦ inr (inl same) | inr before ↦ inl before ]
  | inr more ↦ inr (inr more)
]

insert_all-Has :
    (x : PodInfo) (done ps : List PodInfo) → Has x done ⊎ Has x ps → Has x (insert_all done ps)
unfolding insert_all
insert_all-Has x done [] (inl h) = h
insert_all-Has x done [] (inr h) = elim h [ ]
insert_all-Has x done (p ∷ ps) (inl h) =
    insert_all-Has x (insert p done) ps (inl (insert-Has x p done (inr h)))
insert_all-Has x done (p ∷ ps) (inr (inl h)) =
    insert_all-Has x (insert p done) ps (inl (insert-Has x p done (inl h)))
insert_all-Has x done (p ∷ ps) (inr (inr h)) = insert_all-Has x (insert p done) ps (inr h)

abbrev or_this : Option PodInfo → PodInfo → Option PodInfo
or_this (some q) p = some q
or_this none p = if p.running then some p else none

abbrev or_later : Option PodInfo → Option PodInfo → Option PodInfo
or_later (some q) o = some q
or_later none o = o

or_later-none : (o : Option PodInfo) → or_later o none ≡ o
or_later-none none = refl
or_later-none (some p) = refl

abbrev last_running : List PodInfo → Option PodInfo
last_running [] = none
last_running (p ∷ ps) = or_this (last_running ps) p

or_later-or_this :
    (o : Option PodInfo) (p : PodInfo) (ps : List PodInfo)
    → or_later o (first_running (p ∷ ps)) ≡ or_later (or_this o p) (first_running ps)
unfolding first_running
or_later-or_this (some q) p ps = refl
or_later-or_this none p ps = elim (Bool-cases p.running) [ inl e ↦ rw e refl | inr e ↦ rw e refl ]

first_running-reverse_onto :
    (ps acc : List PodInfo)
    → first_running (reverse_onto ps acc) ≡ or_later (last_running ps) (first_running acc)
unfolding reverse_onto
first_running-reverse_onto [] acc = refl
first_running-reverse_onto (p ∷ ps) acc =
    first_running-reverse_onto ps (p ∷ acc) ∙ or_later-or_this (last_running ps) p acc

-- A newest running pod of a list, or none where none is running.
abbrev pub Picked : List PodInfo → Option PodInfo → Type 0
Picked ps none = (x : PodInfo) → Has x ps → x.running ≡ false
Picked ps (some p) =
    Has p ps
    × (p.running ≡ true)
    × ((x : PodInfo) → Has x ps → x.running ≡ true → x.created ≤ p.created)

or_this-Picked :
    (p : PodInfo) (ps : List PodInfo) (o : Option PodInfo)
    → ((x : PodInfo) → Has x ps → p.created ≤ x.created)
    → Picked ps o
    → Picked (p ∷ ps) (or_this o p)
or_this-Picked p ps (some q) low (has, runs, newest) =
    (inr has, runs, λ x h r. elim h [ inl same ↦ rw same (low q has) | inr more ↦ newest x more r ])
or_this-Picked p ps none low idle = elim (Bool-cases p.running) [
  | inl e ↦
      subst (λ b. Picked (p ∷ ps) (if b then some p else none)) (sym e)
        (
          inl refl,
          e,
          λ x h r. elim h [ inl same ↦ rw same (omega arith) | inr more ↦ cc (idle x more, r) ],
        )
  | inr e ↦
      subst (λ b. Picked (p ∷ ps) (if b then some p else none)) (sym e)
        (λ x h. elim h [ inl same ↦ ap (λ q. q.running) same ∙ e | inr more ↦ idle x more ])
]

last_running-Picked : (ps : List PodInfo) → Rising ps → Picked ps (last_running ps)
last_running-Picked [] h = λ x has. absurd has
last_running-Picked (p ∷ ps) (low, rising) =
    or_this-Picked p ps (last_running ps) low (last_running-Picked ps rising)

Picked-same :
    (ps qs : List PodInfo) (o : Option PodInfo)
    → ((x : PodInfo) → Has x ps → Has x qs)
    → ((x : PodInfo) → Has x qs → Has x ps)
    → Picked ps o
    → Picked qs o
Picked-same ps qs none to from idle = λ x h. idle x (from x h)
Picked-same ps qs (some p) to from (has, runs, newest) =
    (to p has, runs, λ x h r. newest x (from x h) r)

-- The pod that the loop behind the sort finds is a running pod of the list than which no running pod
-- is newer, and it finds none only where no pod is running.
pub first_running-Picked : (ps : List PodInfo) → Picked ps (first_running (sort_pods ps))
unfolding sort_pods first_running
first_running-Picked ps =
    let rising = insert_all-Rising [] ps tt in
    let same = first_running-reverse_onto (insert_all [] ps) [] in
    Picked-same (insert_all [] ps) ps _
      (λ x h. elim (Has-insert_all x [] ps h) [ inl old ↦ absurd old | inr new ↦ new ])
      (λ x h. insert_all-Has x [] ps (inr h))
      (subst (Picked (insert_all [] ps))
        (sym (same ∙ or_later-none (last_running (insert_all [] ps))))
        (last_running-Picked (insert_all [] ps) rising))
