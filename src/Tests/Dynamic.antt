-- ===== src/Tests/Dynamic.antt =====
-- A dynamic address with three pods.
use krelay.Prelude.{
  ℕ, ◌≡◌, refl, ap, ◌⊎◌, Bool, true, false, List, [], ◌∷◌, Option, none, some, inl, inr, Bytes,
  codes, equal,
}
use krelay.RemoteAddr.Dynamic.{
  PodInfo, DynamicAddr, less, insert, insert_all, reverse_onto, sort_pods, first_running,
  update_pod_ip, poll, points_to, deleted, modified, WatchEvent, watching, pod_event, handle_event,
  watch_for_updates,
}
use krelay.RemoteAddr.Dynamic.Newest.{Picked, first_running-Picked}
use krelay.RemoteAddr.Dynamic.Watch.{
  Current, Offered, state_of, watch_for_updates-Current, handle_event_deleted,
}

abbrev pod : Bytes → Bool → ℕ → PodInfo
pod name running created = record {
  name = name;
  running = running;
  pod_ip = name;
  created = created;
  deleting = false;
}

abbrev old : PodInfo
old = pod (codes "old") true 10

abbrev young : PodInfo
young = pod (codes "young") true 20

abbrev starting : PodInfo
starting = pod (codes "starting") false 30

abbrev pods : List PodInfo
pods = old ∷ starting ∷ young ∷ []

-- Stands for `net.ParseIP`: a text is its own address.
abbrev parse_ip : Bytes → Option Bytes
parse_ip s = some s

first_running-pods : first_running (sort_pods pods) ≡ some young
unfolding sort_pods insert insert_all reverse_onto first_running less
first_running-pods = refl

first_running-Picked_example : Picked pods (first_running (sort_pods pods))
first_running-Picked_example = first_running-Picked pods

abbrev at_old : DynamicAddr
at_old = points_to parse_ip old

abbrev gone : WatchEvent
gone = record {
  event_type = deleted;
  object = some old;
  answers = none ∷ some (starting ∷ []) ∷ some (starting ∷ young ∷ []) ∷ [];
}

abbrev still_there : WatchEvent
still_there = record { event_type = modified; object = some old; answers = some pods ∷ [] }

watch-gone :
    watch_for_updates parse_ip (still_there ∷ gone ∷ []) at_old
    ≡ watching (points_to parse_ip young)
unfolding watch_for_updates handle_event pod_event poll update_pod_ip sort_pods insert insert_all
    reverse_onto first_running less equal
watch-gone = refl

watch_for_updates-Current_example :
    Current parse_ip
      (λ ps. Offered ps (still_there ∷ gone ∷ []))
      at_old
      (state_of (watch_for_updates parse_ip (still_there ∷ gone ∷ []) at_old))
watch_for_updates-Current_example =
    watch_for_updates-Current parse_ip (still_there ∷ gone ∷ []) at_old

starting-idle : (x : PodInfo) → (x ≡ starting) ⊎ ⊥ → x.running ≡ false
starting-idle x (inl same) = ap (λ p. p.running) same
starting-idle x (inr h) = elim h [ ]

handle_event_deleted_example :
    (r : PodInfo) × Picked (starting ∷ young ∷ []) (some r)
    × (handle_event parse_ip gone at_old ≡ watching (points_to parse_ip r))
handle_event_deleted_example =
    handle_event_deleted parse_ip gone at_old old young (starting ∷ young ∷ [])
      (none ∷ some (starting ∷ []) ∷ []) [] refl refl refl refl (tt, (starting-idle, tt))
      (inr (inl refl)) refl
