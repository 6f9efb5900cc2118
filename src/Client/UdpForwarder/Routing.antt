-- ===== src/Client/UdpForwarder/Routing.antt =====
-- Which handler gets which packets, while no handler exits.
use krelay.Prelude.{
  ℕ, ◌≡◌, refl, sym, ap, ◌∙◌, List, [], ◌∷◌, ◌++◌, append-nil, append_assoc, none, some, Bytes,
  Option-cases, ◌⊎◌, inl, inr,
}
use krelay.Client.UdpForwarder.{
  get_item, Event, packet, Forwarding, start, on_event, and_then, run_loop,
}
use krelay.Client.UdpForwarder.Table.{packets_of, received_on, packets_of-append}
use krelay.Client.UdpForwarder.Routed.{IsRouted, route-IsRouted}

abbrev pub packet_events : List (Bytes × Bytes) → List Event
packet_events [] = []
packet_events ((k, d) ∷ ps) = packet k d ∷ packet_events ps

-- What is wanted may be told in another way.
IsRouted-ext :
    {want want' : Bytes → List Bytes} {s : Forwarding}
    → ((key : Bytes) → want key ≡ want' key)
    → IsRouted want s
    → IsRouted want' s
IsRouted-ext same i = record {
  live = i.live;
  fresh = i.fresh;
  absent = λ key h. sym (same key) ∙ i.absent key h;
  routed = λ key ch h. i.routed key ch h ∙ same key;
  below = i.below;
  own = i.own;
  unused = i.unused;
}

run_loop-IsRouted :
    (done ps : List (Bytes × Bytes)) (s : Forwarding)
    → IsRouted (λ key. packets_of key done) s
    → (t : Forwarding) × (run_loop (packet_events ps) s ≡ some t)
      × IsRouted (λ key. packets_of key (done ++ ps)) t
unfolding run_loop on_event
run_loop-IsRouted done [] s i =
    (s, refl, IsRouted-ext (λ key. ap (packets_of key) (sym (append-nil done))) i)
run_loop-IsRouted done ((k, d) ∷ ps) s i =
    let (s1, ran, i1) = route-IsRouted i k d (get_item k s.track) refl in
    let i2 : IsRouted (λ key. packets_of key (done ++ (k, d) ∷ [])) s1 =
      IsRouted-ext (λ key. sym (packets_of-append key done ((k, d) ∷ []))) i1 in
    let (t, ran', i') = run_loop-IsRouted (done ++ (k, d) ∷ []) ps s1 i2 in
    (
      t,
      ap (and_then (run_loop (packet_events ps))) ran ∙ ran',
      IsRouted-ext (λ key. ap (packets_of key) (append_assoc done ((k, d) ∷ []) ps)) i',
    )

pub start-IsRouted : IsRouted (λ key. []) start
unfolding start get_item
start-IsRouted = record {
  live = λ key ch h. cc;
  fresh = λ ch h. refl;
  absent = λ key h. refl;
  routed = λ key ch h. cc;
  below = λ key ch h. absurd cc;
  own = λ key k ch h h'. absurd cc;
  unused = λ ch h. refl;
}

-- As long as no handler exits the loop is never blocked, and it keeps clients apart: for each client
-- that sent packets the table holds a channel, on which exactly the packets of that client were
-- received, in order; a client without a channel sent none.
pub run_loop-packets :
    (ps : List (Bytes × Bytes)) (key : Bytes)
    → (t : Forwarding) × (run_loop (packet_events ps) start ≡ some t)
      × ((get_item key t.track ≡ none) × (packets_of key ps ≡ [])
          ⊎ (ch : ℕ) × (get_item key t.track ≡ some ch)
            × (received_on ch t.received ≡ packets_of key ps))
run_loop-packets ps key =
    let (t, ran, i) = run_loop-IsRouted [] ps start start-IsRouted in
    (
      t,
      ran,
      elim (Option-cases (get_item key t.track)) [
        | inl e ↦ inl (e, i.absent key e)
        | inr (ch, e) ↦ inr (ch, e, i.routed key ch e)
      ],
    )
