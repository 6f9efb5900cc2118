-- ===== src/Client/UdpForwarder.antt =====
-- connTrack of cmd/client/conntrack.go, and the UDP loop of `run` of cmd/client/forwarder.go. A
-- channel is a number, new ones count up; the goroutine that the loop starts for a channel receives
-- on it until it exits.
pub mod Table
pub mod Routed
pub mod Routing
pub mod Sessions
use krelay.Prelude.{
  ℕ, ◌+◌, Bool, true, false, List, [], ◌∷◌, ◌++◌, Option, none, some, Bytes, equal, ◌==◌, ◌||◌,
  if◌then◌else◌,
}

-- `Get`, `Delete` and `Set` on the map from the text of an address to a channel.
unfoldable pub get_item : Bytes → List (Bytes × ℕ) → Option ℕ
get_item key [] = none
get_item key ((k, ch) ∷ items) =
    let later = get_item key items in if equal key k then some ch else later

unfoldable pub delete_item : Bytes → List (Bytes × ℕ) → List (Bytes × ℕ)
delete_item key [] = []
delete_item key ((k, ch) ∷ items) =
    let rest = delete_item key items in if equal key k then rest else (k, ch) ∷ rest

unfoldable pub set_item : Bytes → ℕ → List (Bytes × ℕ) → List (Bytes × ℕ)
unfolding delete_item
set_item key ch items = (key, ch) ∷ delete_item key items

-- What the loop meets: a packet of a client, the exit of the handler of a channel, and the removal
-- of a client from the table, which that handler asks for.
pub data Event : Type 0 where
  packet : Bytes → Bytes → Event
  exits : ℕ → Event
  finished : Bytes → Event

-- The table, the next channel, what was received on the channels, and those whose handler exited.
pub record Forwarding : Type 0 where
  pub track : List (Bytes × ℕ)
  pub next_channel : ℕ
  pub received : List (ℕ × Bytes)
  pub exited : List ℕ

unfoldable pub start : Forwarding
start = record { track = []; next_channel = 0; received = []; exited = [] }

abbrev pub is_exited : ℕ → List ℕ → Bool
is_exited ch [] = false
is_exited ch (c ∷ cs) = (ch == c) || is_exited ch cs

-- `dataCh <- data`: without a receiver the loop is blocked for ever.
abbrev pub send : ℕ → Bytes → Forwarding → Option Forwarding
send ch data_bytes s =
    if is_exited ch s.exited
    then none
    else some (record s { received = s.received ++ (ch, data_bytes) ∷ [] })

abbrev pub route : Bytes → Bytes → Option ℕ → Forwarding → Option Forwarding
route key data_bytes (some ch) s = send ch data_bytes s
route key data_bytes none s =
    send s.next_channel data_bytes
      (record s { track = set_item key s.next_channel s.track; next_channel = s.next_channel + 1 })

unfoldable pub on_event : Event → Forwarding → Option Forwarding
unfolding get_item set_item
on_event (packet key data_bytes) s = route key data_bytes (get_item key s.track) s
on_event (exits ch) s = some (record s { exited = ch ∷ s.exited })
on_event (finished key) s = some (record s { track = delete_item key s.track })

abbrev pub and_then : (Forwarding → Option Forwarding) → Option Forwarding → Option Forwarding
and_then again none = none
and_then again (some s) = again s

-- `none` where the loop is blocked.
unfoldable pub run_loop : List Event → Forwarding → Option Forwarding
unfolding on_event
run_loop [] s = some s
run_loop (ev ∷ evs) s = and_then (run_loop evs) (on_event ev s)
