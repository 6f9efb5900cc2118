-- ===== src/RemoteAddr/Dynamic.antt =====
-- dynamicAddr of pkg/remoteaddr/dynamic.go: the address of the newest running pod of a selector. The
-- answers of the pod client's `List`, and the events of its watch, are arguments; `parse_ip` stands
-- for `net.ParseIP`. `sort.Slice` is the insertion sort that it runs on up to 12 items; longer lists
-- come out in the same order but for pods of the same age.
pub mod Newest
pub mod Watch
use krelay.Prelude.{
  ℕ, Bool, true, false, List, [], ◌∷◌, Option, none, some, Bytes, Result, ok, err, leb, not, ◌&&◌,
  equal, if◌then◌else◌,
}
use krelay.Xnet.Addr.{Addr, zero_addr, addr_from_ip}

-- What is read of a pod: its name, whether its phase is `Running`, its IP address, its creation time
-- and whether its deletion has begun.
pub record PodInfo : Type 0 where
  pub name : Bytes
  pub running : Bool
  pub pod_ip : Bytes
  pub created : ℕ
  pub deleting : Bool

pub record DynamicAddr : Type 0 where
  pub pod_name : Bytes
  pub addr : Addr

-- The function that `updatePodIP` passes to `sort.Slice`.
unfoldable pub less : PodInfo → PodInfo → Bool
less p q = leb q.created p.created

-- A pod moves to the left as long as it is less than its neighbour; the list is that part of the
-- slice that is sorted, from the right to the left.
unfoldable pub insert : PodInfo → List PodInfo → List PodInfo
unfolding less
insert p [] = p ∷ []
insert p (q ∷ qs) = let moved = insert p qs in if less p q then q ∷ moved else p ∷ q ∷ qs

unfoldable pub insert_all : List PodInfo → List PodInfo → List PodInfo
insert_all done [] = done
insert_all done (p ∷ ps) = insert_all (insert p done) ps

unfoldable pub reverse_onto : List PodInfo → List PodInfo → List PodInfo
reverse_onto [] acc = acc
reverse_onto (p ∷ ps) acc = reverse_onto ps (p ∷ acc)

unfoldable pub sort_pods : List PodInfo → List PodInfo
unfolding insert_all reverse_onto
sort_pods ps = reverse_onto (insert_all [] ps) []

-- The loop behind the sort.
unfoldable pub first_running : List PodInfo → Option PodInfo
first_running [] = none
first_running (p ∷ ps) = if p.running then some p else first_running ps

pub data UpdateError : Type 0 where
  list_pods no_running_pods : UpdateError

-- The error of AddrFromIP is dropped, and with it comes the zero address.
abbrev pub addr_or_zero : Result Bytes Addr → Addr
addr_or_zero (ok a) = a
addr_or_zero (err s) = zero_addr

module _ (parse_ip : Bytes → Option Bytes) where
  abbrev pub points_to : PodInfo → DynamicAddr
  points_to p = record { pod_name = p.name; addr = addr_or_zero (addr_from_ip parse_ip p.pod_ip) }

  abbrev pub point : DynamicAddr → Option PodInfo → Result UpdateError (Unit {0}) × DynamicAddr
  point d none = (err no_running_pods, d)
  point d (some p) = (ok tt, points_to p)

  -- `updatePodIP`, by the answer of `List`; the resource version is left out.
  unfoldable pub update_pod_ip :
      Option (List PodInfo) → DynamicAddr → Result UpdateError (Unit {0}) × DynamicAddr
  unfolding sort_pods first_running
  update_pod_ip none d = (err list_pods, d)
  update_pod_ip (some ps) d = point d (first_running (sort_pods ps))

  -- The poll tries again after an error, until its time is up: one answer for each try.
  abbrev pub poll_from :
      (DynamicAddr → DynamicAddr) → Result UpdateError (Unit {0}) × DynamicAddr → DynamicAddr
  poll_from again (ok _, d) = d
  poll_from again (err _, d) = again d

  unfoldable pub poll : List (Option (List PodInfo)) → DynamicAddr → DynamicAddr
  unfolding update_pod_ip
  poll [] d = d
  poll (answer ∷ answers) d = poll_from (poll answers) (update_pod_ip answer d)

pub data EventType : Type 0 where
  added modified deleted bookmark error : EventType

-- An event, its object if that is a pod, and the answers that a poll for it will get.
pub record WatchEvent : Type 0 where
  pub event_type : EventType
  pub object : Option PodInfo
  pub answers : List (Option (List PodInfo))

-- Where the object is no pod the code reads the name of a nil pod.
pub data Watched : Type 0 where
  watching panicked : DynamicAddr → Watched

abbrev pub is_modified : EventType → Bool
is_modified modified = true
is_modified _ = false

module _ (parse_ip : Bytes → Option Bytes) where
  -- The tests on a pod, and the poll.
  unfoldable pub pod_event :
      EventType → Option PodInfo → List (Option (List PodInfo)) → DynamicAddr → Watched
  pod_event t none answers d = panicked d
  pod_event t (some p) answers d =
      if not (equal p.name d.pod_name)
      then watching d
      else if is_modified t && not p.deleting && p.running
      then watching d
      else watching (poll parse_ip answers d)

  abbrev pub by_type :
      EventType → Option PodInfo → List (Option (List PodInfo)) → DynamicAddr → Watched
  by_type bookmark object answers d = watching d
  by_type error object answers d = watching d
  by_type added object answers d = pod_event added object answers d
  by_type modified object answers d = pod_event modified object answers d
  by_type deleted object answers d = pod_event deleted object answers d

  -- One round of the loop of `watchForUpdates`.
  unfoldable pub handle_event : WatchEvent → DynamicAddr → Watched
  unfolding pod_event
  handle_event ev d = by_type ev.event_type ev.object ev.answers d

  abbrev pub next_event : (DynamicAddr → Watched) → Watched → Watched
  next_event again (watching d) = again d
  next_event again (panicked d) = panicked d

  unfoldable pub watch_for_updates : List WatchEvent → DynamicAddr → Watched
  unfolding handle_event
  watch_for_updates [] d = watching d
  watch_for_updates (ev ∷ evs) d = next_event (watch_for_updates evs) (handle_event ev d)
