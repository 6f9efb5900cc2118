-- ===== src/Client/UdpForwarder/Routed.antt =====
-- Each client keeps a channel of its own: what one packet does.
use mathlib.Core.Path.{subst}
use krelay.Prelude.{
  ℕ, ◌+◌, ◌≡◌, ◌<◌, ◌≤◌, refl, sym, ap, ◌∙◌, true, false, List, [], ◌∷◌, ◌++◌, append-nil, Option,
  none, some, Bytes, equal, equal_iff, ◌==◌, ==_iff, if◌then◌else◌, arith, Bool-cases, ◌⊎◌, inl,
  inr,
}
use krelay.Client.UdpForwarder.{get_item, set_item, Forwarding, is_exited, route}
use krelay.Client.UdpForwarder.Table.{received_on, get_item-set_item, received_on-append}

-- Each client of which packets are wanted has a channel of its own, below the next one, whose handler
-- runs and which received exactly those packets; nothing was received on the channels to come.
pub record IsRouted (want : Bytes → List Bytes) (s : Forwarding) : Type 0 where
  pub live : (key : Bytes) (ch : ℕ) → get_item key s.track ≡ some ch → is_exited ch s.exited ≡ false
  pub fresh : (ch : ℕ) → s.next_channel ≤ ch → is_exited ch s.exited ≡ false
  pub absent : (key : Bytes) → get_item key s.track ≡ none → want key ≡ []
  pub routed :
      (key : Bytes) (ch : ℕ) → get_item key s.track ≡ some ch → received_on ch s.received ≡ want key
  pub below : (key : Bytes) (ch : ℕ) → get_item key s.track ≡ some ch → ch < s.next_channel
  pub own :
      (key k : Bytes) (ch : ℕ)
      → get_item key s.track ≡ some ch
      → get_item k s.track ≡ some ch
      → key ≡ k
  pub unused : (ch : ℕ) → s.next_channel ≤ ch → received_on ch s.received ≡ []

-- One more packet of a client.
abbrev pub add : (Bytes → List Bytes) → Bytes → Bytes → Bytes → List Bytes
add want k d key = want key ++ (if equal key k then d ∷ [] else [])

add_received :
    (ch c : ℕ) (d : Bytes) (rs : List (ℕ × Bytes))
    → received_on ch (rs ++ (c, d) ∷ []) ≡ received_on ch rs ++ (if ch == c then d ∷ [] else [])
add_received ch c d rs = received_on-append ch rs ((c, d) ∷ [])

module _ {want : Bytes → List Bytes} {s : Forwarding} (i : IsRouted want s) (k d : Bytes) where
  -- A packet of a client that has a channel.
  module _ (c : ℕ) (has : get_item k s.track ≡ some c) where
    same_test : (key : Bytes) (ch : ℕ) → get_item key s.track ≡ some ch → (ch == c) ≡ equal key k
    same_test key ch h = elim (Bool-cases (equal key k)) [
      | inl e ↦
          let key_is_k : key ≡ k = (equal_iff key k).0 e in
          let at_k : get_item k s.track ≡ some ch =
            subst (λ x. get_item x s.track ≡ some ch) key_is_k h in
          let same : ch ≡ c = cc (at_k, has) in (==_iff ch c).1 same ∙ sym e
      | inr e ↦ elim (Bool-cases (ch == c)) [
        | inl e' ↦
            let at_c : get_item key s.track ≡ some c = h ∙ ap some ((==_iff ch c).0 e') in
            let key_is_k : key ≡ k = i.own key k c at_c has in
            absurd (cc ((equal_iff key k).1 key_is_k, e))
        | inr e' ↦ e' ∙ sym e
      ]
    ]

    known-IsRouted : IsRouted (add want k d) (record s { received = s.received ++ (c, d) ∷ [] })
    known-IsRouted = record {
      live = i.live;
      fresh = i.fresh;
      absent = λ key h. elim (Bool-cases (equal key k)) [
        | inl e ↦
            let at_k : get_item k s.track ≡ none =
              subst (λ x. get_item x s.track ≡ none) ((equal_iff key k).0 e) h in
            absurd (cc (at_k, has))
        | inr e ↦ rw e (append-nil (want key) ∙ i.absent key h)
      ];
      routed = λ key ch h.
          add_received ch c d s.received
          ∙ rw (same_test key ch h)
              (ap (◌++ (if equal key k then d ∷ [] else [])) (i.routed key ch h));
      below = i.below;
      own = i.own;
      unused = λ ch h.
          let low = i.below k c has in
          let apart : (ch == c) ≡ false = ground arith in
          add_received ch c d s.received
          ∙ rw apart (append-nil (received_on ch s.received) ∙ i.unused ch h);
    }

  -- The first packet of a client.
  module _ (has : get_item k s.track ≡ none) where
    abbrev opened : Forwarding
    opened = record s {
      track = set_item k s.next_channel s.track;
      next_channel = s.next_channel + 1;
      received = s.received ++ (s.next_channel, d) ∷ [];
    }

    -- An entry behind it is the new one, or an old one.
    opened-cases :
        (key : Bytes) (ch : ℕ)
        → get_item key opened.track ≡ some ch
        → ((equal key k ≡ true) × (ch ≡ s.next_channel))
          ⊎ ((equal key k ≡ false) × (get_item key s.track ≡ some ch))
    opened-cases key ch h =
        let looked = sym (get_item-set_item key k s.next_channel s.track) ∙ h in
        elim (Bool-cases (equal key k)) [
          | inl e ↦ inl (
            e,
            cc (ap (λ b. if b then some s.next_channel else get_item key s.track) (sym e) ∙ looked),
          )
          | inr e ↦ inr (
            e,
            ap (λ b. if b then some s.next_channel else get_item key s.track) (sym e) ∙ looked,
          )
        ]

    opened-none :
        (key : Bytes)
        → get_item key opened.track ≡ none
        → (equal key k ≡ false) × (get_item key s.track ≡ none)
    opened-none key h =
        let looked = sym (get_item-set_item key k s.next_channel s.track) ∙ h in
        elim (Bool-cases (equal key k)) [
          | inl e ↦ absurd (
              cc (
                ap (λ b. if b then some s.next_channel else get_item key s.track) (sym e) ∙ looked))
          | inr e ↦ (
            e,
            ap (λ b. if b then some s.next_channel else get_item key s.track) (sym e) ∙ looked,
          )
        ]

    no_packets : (key : Bytes) → equal key k ≡ true → want key ≡ []
    no_packets key e =
        i.absent key (subst (λ x. get_item x s.track ≡ none) (sym ((equal_iff key k).0 e)) has)

    new-IsRouted : IsRouted (add want k d) opened
    new-IsRouted = record {
      live = λ key ch h. elim (opened-cases key ch h) [
        | inl (_, new) ↦ i.fresh ch (omega arith)
        | inr (_, old) ↦ i.live key ch old
      ];
      fresh = λ ch h. i.fresh ch (omega arith);
      absent = λ key h.
          let (e, old) = opened-none key h in rw e (append-nil (want key) ∙ i.absent key old);
      routed = λ key ch h. elim (opened-cases key ch h) [
        | inl (e, new) ↦
            let at_new : (ch == s.next_channel) ≡ true = (==_iff ch s.next_channel).1 new in
            let fresh : received_on ch s.received ≡ [] = i.unused ch (omega arith) in
            let got : received_on ch (s.received ++ (s.next_channel, d) ∷ []) ≡ d ∷ [] =
              add_received ch s.next_channel d s.received ∙ rw (at_new, fresh) refl in
            let sent : add want k d key ≡ d ∷ [] = rw (e, no_packets key e) refl in got ∙ sym sent
        | inr (e, old) ↦
            let low = i.below key ch old in
            let apart : (ch == s.next_channel) ≡ false = ground arith in
            let got : received_on ch (s.received ++ (s.next_channel, d) ∷ []) ≡ want key =
              add_received ch s.next_channel d s.received
              ∙ rw apart (append-nil (received_on ch s.received) ∙ i.routed key ch old) in
            let sent : add want k d key ≡ want key = rw e (append-nil (want key)) in got ∙ sym sent
      ];
      below = λ key ch h. elim (opened-cases key ch h) [
        | inl (_, new) ↦ omega arith
        | inr (_, old) ↦ omega (arith, i.below key ch old)
      ];
      own = λ key k' ch h h'. elim (opened-cases key ch h) [
        | inl (e, new) ↦ elim (opened-cases k' ch h') [
          | inl (e', _) ↦ (equal_iff key k).0 e ∙ sym ((equal_iff k' k).0 e')
          | inr (_, old') ↦ absurd (omega (arith, new, i.below k' ch old'))
        ]
        | inr (_, old) ↦ elim (opened-cases k' ch h') [
          | inl (_, new') ↦ absurd (omega (arith, new', i.below key ch old))
          | inr (_, old') ↦ i.own key k' ch old old'
        ]
      ];
      unused = λ ch h.
          let apart : (ch == s.next_channel) ≡ false = ground arith in
          add_received ch s.next_channel d s.received
          ∙ rw apart (append-nil (received_on ch s.received) ∙ i.unused ch (omega arith));
    }

  pub route-IsRouted :
      (o : Option ℕ)
      → get_item k s.track ≡ o
      → (t : Forwarding) × (route k d o s ≡ some t) × IsRouted (add want k d) t
  route-IsRouted (some c) has = (
    record s { received = s.received ++ (c, d) ∷ [] },
    ap (λ b. if b then none else some (record s { received = s.received ++ (c, d) ∷ [] }))
        (i.live k c has),
    known-IsRouted c has,
  )
  route-IsRouted none has = (
    opened has,
    ap (λ b. if b then none else some (opened has)) (i.fresh s.next_channel (omega arith)),
    new-IsRouted has,
  )
