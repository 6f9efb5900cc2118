-- ===== src/Client/UdpForwarder/Sessions.antt =====
-- Clients that come, end and come again.
use mathlib.Core.Path.{subst}
use krelay.Prelude.{
  ℕ, ◌≡◌, refl, sym, ap, ◌∙◌, false, List, [], ◌∷◌, Option, none, some, Bytes, equal, equal_iff,
  ◌==◌, ==_iff, if◌then◌else◌, Bool-cases, Option-cases, ◌⊎◌, inl, inr, arith,
}
use krelay.Client.UdpForwarder.{
  get_item, delete_item, Event, packet, exits, finished, Forwarding, start, on_event, and_then,
  run_loop,
}
use krelay.Client.UdpForwarder.Table.{received_on, get_item-delete_item}
use krelay.Client.UdpForwarder.Routed.{IsRouted, add, route-IsRouted}
use krelay.Client.UdpForwarder.Routing.{start-IsRouted}

-- A packet of a client, or the end of its handler, whose exit is followed by the removal of the client
-- from the table before the next packet is read.
pub data ClientEvent : Type 0 where
  sends : Bytes → Bytes → ClientEvent
  ends : Bytes → ClientEvent

-- The events of the loop, by the channel that the client has.
abbrev pub end_events : Bytes → Option ℕ → List Event
end_events key none = []
end_events key (some ch) = exits ch ∷ finished key ∷ []

abbrev pub events_of : ClientEvent → Forwarding → List Event
events_of (sends key d) s = packet key d ∷ []
events_of (ends key) s = end_events key (get_item key s.track)

unfoldable pub run_clients : List ClientEvent → Forwarding → Option Forwarding
run_clients [] s = some s
run_clients (c ∷ cs) s = and_then (run_clients cs) (run_loop (events_of c s) s)

-- The packets of a client since its last end.
abbrev pub forget : (Bytes → List Bytes) → Bytes → Bytes → List Bytes
forget want k key = if equal key k then [] else want key

abbrev pub since : List ClientEvent → (Bytes → List Bytes) → Bytes → List Bytes
since [] want = want
since (sends k d ∷ cs) want = since cs (add want k d)
since (ends k ∷ cs) want = since cs (forget want k)

get_item-delete_same :
    (k : Bytes) (items : List (Bytes × ℕ)) → get_item k (delete_item k items) ≡ none
unfolding get_item delete_item
get_item-delete_same k [] = refl
get_item-delete_same k ((k', ch) ∷ items) = elim (Bool-cases (equal k k')) [
  | inl e ↦ rw e (get_item-delete_same k items)
  | inr e ↦ rw e (rw e (get_item-delete_same k items))
]

module _ {want : Bytes → List Bytes} {s : Forwarding} (i : IsRouted want s) (k : Bytes) where
  abbrev closed : ℕ → Forwarding
  closed c = record s { exited = c ∷ s.exited; track = delete_item k s.track }

  -- An entry behind the end is that of another client.
  closed-cases :
      (key : Bytes) (ch c : ℕ)
      → get_item key (closed c).track ≡ some ch
      → (equal key k ≡ false) × (get_item key s.track ≡ some ch)
  closed-cases key ch c h = elim (Bool-cases (equal key k)) [
    | inl e ↦
        let same : key ≡ k = (equal_iff key k).0 e in
        let gone : get_item key (delete_item k s.track) ≡ none =
          subst (λ x. get_item x (delete_item k s.track) ≡ none) (sym same)
            (get_item-delete_same k s.track) in
        absurd (cc (gone, h))
    | inr e ↦ (e, sym (get_item-delete_item key k s.track e) ∙ h)
  ]

  closed-IsRouted : (c : ℕ) → get_item k s.track ≡ some c → IsRouted (forget want k) (closed c)
  closed-IsRouted c has = record {
    live = λ key ch h.
        let (other, old) = closed-cases key ch c h in
        elim (Bool-cases (ch == c)) [
          | inl e ↦
              let at_c : get_item key s.track ≡ some c = old ∙ ap some ((==_iff ch c).0 e) in
              let same : key ≡ k = i.own key k c at_c has in
              absurd (cc ((equal_iff key k).1 same, other))
          | inr e ↦ rw e (i.live key ch old)
        ];
    fresh = λ ch h.
        let low = i.below k c has in
        let apart : (ch == c) ≡ false = ground arith in rw apart (i.fresh ch h);
    absent = λ key h. elim (Bool-cases (equal key k)) [
      | inl e ↦ rw e refl
      | inr e ↦ rw e (i.absent key (sym (get_item-delete_item key k s.track e) ∙ h))
    ];
    routed =
        λ key ch h. let (other, old) = closed-cases key ch c h in rw other (i.routed key ch old);
    below = λ key ch h. let (_, old) = closed-cases key ch c h in i.below key ch old;
    own = λ key k' ch h h'.
        let (_, old) = closed-cases key ch c h in
        let (_, old') = closed-cases k' ch c h' in i.own key k' ch old old';
    unused = i.unused;
  }

  -- A client that has no channel.
  idle-IsRouted : get_item k s.track ≡ none → IsRouted (forget want k) s
  idle-IsRouted has = record {
    live = i.live;
    fresh = i.fresh;
    absent = λ key h. elim (Bool-cases (equal key k)) [
      | inl e ↦ rw e refl
      | inr e ↦ rw e (i.absent key h)
    ];
    routed = λ key ch h. elim (Bool-cases (equal key k)) [
      | inl e ↦
          let at_k : get_item k s.track ≡ some ch =
            subst (λ x. get_item x s.track ≡ some ch) ((equal_iff key k).0 e) h in
          absurd (cc (at_k, has))
      | inr e ↦ rw e (i.routed key ch h)
    ];
    below = i.below;
    own = i.own;
    unused = i.unused;
  }

  ends-IsRouted :
      (o : Option ℕ)
      → get_item k s.track ≡ o
      → (t : Forwarding) × (run_loop (end_events k o) s ≡ some t) × IsRouted (forget want k) t
  unfolding run_loop on_event
  ends-IsRouted none has = (s, refl, idle-IsRouted has)
  ends-IsRouted (some c) has = (closed c, refl, closed-IsRouted c has)

  sends-IsRouted :
      (d : Bytes)
      → (t : Forwarding) × (run_loop (packet k d ∷ []) s ≡ some t) × IsRouted (add want k d) t
  unfolding run_loop on_event
  sends-IsRouted d =
      let (t, ran, i') = route-IsRouted i k d (get_item k s.track) refl in
      (t, ap (and_then (run_loop [])) ran, i')

run_clients-IsRouted :
    (cs : List ClientEvent) {want : Bytes → List Bytes} (s : Forwarding)
    → IsRouted want s
    → (t : Forwarding) × (run_clients cs s ≡ some t) × IsRouted (since cs want) t
unfolding run_clients
run_clients-IsRouted [] s i = (s, refl, i)
run_clients-IsRouted (sends k d ∷ cs) s i =
    let (s1, ran, i1) = sends-IsRouted i k d in
    let (t, ran', i') = run_clients-IsRouted cs s1 i1 in
    (t, ap (and_then (run_clients cs)) ran ∙ ran', i')
run_clients-IsRouted (ends k ∷ cs) s i =
    let (s1, ran, i1) = ends-IsRouted i k (get_item k s.track) refl in
    let (t, ran', i') = run_clients-IsRouted cs s1 i1 in
    (t, ap (and_then (run_clients cs)) ran ∙ ran', i')

-- Handlers that exit do not block the loop, if each client is removed from the table before the next
-- packet is read: every packet is received, and the channel that the table holds for a client received
-- exactly its packets since the last end of its handler, in order; a client without a channel has sent
-- none since then.
pub run_clients-packets :
    (cs : List ClientEvent) (key : Bytes)
    → (t : Forwarding) × (run_clients cs start ≡ some t)
      × ((get_item key t.track ≡ none) × (since cs (λ k. []) key ≡ [])
          ⊎ (ch : ℕ) × (get_item key t.track ≡ some ch)
            × (received_on ch t.received ≡ since cs (λ k. []) key))
run_clients-packets cs key =
    let (t, ran, i) = run_clients-IsRouted cs start start-IsRouted in
    (
      t,
      ran,
      elim (Option-cases (get_item key t.track)) [
        | inl e ↦ inl (e, i.absent key e)
        | inr (ch, e) ↦ inr (ch, e, i.routed key ch e)
      ],
    )
