-- ===== src/Tests/UdpForwarder.antt =====
-- Two clients of a UDP forwarder.
use krelay.Prelude.{ℕ, ◌≡◌, refl, List, [], ◌∷◌, none, some, Bytes, codes, equal, ◌⊎◌}
use krelay.Client.UdpForwarder.{
  get_item, delete_item, set_item, packet, exits, Forwarding, start, on_event, run_loop,
}
use krelay.Client.UdpForwarder.Table.{packets_of, received_on}
use krelay.Client.UdpForwarder.Routing.{packet_events, run_loop-packets}
use krelay.Client.UdpForwarder.Sessions.{ClientEvent, sends, ends, run_clients, run_clients-packets}

abbrev packets : List (Bytes × Bytes)
packets = (codes "a", codes "1") ∷ (codes "b", codes "2") ∷ (codes "a", codes "3") ∷ []

routed :
    run_loop (packet_events packets) start
    ≡ some (record {
      track = (codes "b", 1) ∷ (codes "a", 0) ∷ [];
      next_channel = 2;
      received = (0, codes "1") ∷ (1, codes "2") ∷ (0, codes "3") ∷ [];
      exited = [];
    })
unfolding run_loop on_event start get_item set_item delete_item equal
routed = refl

-- A packet of a client whose handler has exited and is still in the table blocks the loop.
blocked :
    run_loop (packet (codes "a") (codes "1") ∷ exits 0 ∷ packet (codes "a") (codes "2") ∷ []) start
    ≡ none
unfolding run_loop on_event start get_item set_item delete_item equal
blocked = refl

run_loop-packets_run :
    (t : Forwarding) × (run_loop (packet_events packets) start ≡ some t)
    × ((get_item (codes "a") t.track ≡ none) × (packets_of (codes "a") packets ≡ [])
        ⊎ (ch : ℕ) × (get_item (codes "a") t.track ≡ some ch)
          × (received_on ch t.received ≡ packets_of (codes "a") packets))
run_loop-packets_run = run_loop-packets packets (codes "a")

-- The first client comes again behind the end of its handler.
abbrev comings : List ClientEvent
comings =
    sends (codes "a") (codes "1")
    ∷ sends (codes "b") (codes "2")
    ∷ ends (codes "a")
    ∷ sends (codes "a") (codes "3")
    ∷ []

run_clients-packets_example :
    (t : Forwarding) × (run_clients comings start ≡ some t)
    × ((get_item (codes "a") t.track ≡ none) × (codes "3" ∷ [] ≡ [])
        ⊎ (ch : ℕ) × (get_item (codes "a") t.track ≡ some ch)
          × (received_on ch t.received ≡ codes "3" ∷ []))
unfolding equal
run_clients-packets_example = run_clients-packets comings (codes "a")
