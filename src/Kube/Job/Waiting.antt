-- ===== src/Kube/Job/Waiting.antt =====
-- The pod that the wait finds.
use krelay.Prelude.{
  ◌≡◌, refl, ap, Bool, true, false, List, [], ◌∷◌, ◌++◌, Option, none, some, Bytes, ok,
  ok-injective, All, Bool-cases, inl, inr,
}
use krelay.Kube.Job.{
  PodEvent, pod_deleted, watch_error, other_event, pod_changed, any_running, wait_events,
  wait_for_server_job_pod,
}

-- An event that the wait passes over.
abbrev pub Undecided : PodEvent → Type 0
Undecided other_event = Unit
Undecided (pod_changed name statuses) = any_running statuses ≡ false
Undecided _ = ⊥

-- The events in which a pod of this name is the first to run.
abbrev pub RunsFirst : Bytes → List PodEvent → Type 0
RunsFirst name evs =
    (before : List PodEvent) × (statuses : List Bool) × (after : List PodEvent) × (evs
      ≡ before ++ pod_changed name statuses ∷ after)
    × All Undecided before
    × (any_running statuses ≡ true)

later-RunsFirst :
    {name : Bytes} (ev : PodEvent) (evs : List PodEvent)
    → Undecided ev
    → RunsFirst name evs
    → RunsFirst name (ev ∷ evs)
later-RunsFirst ev evs u (before, statuses, after, e, all, runs) =
    (ev ∷ before, statuses, after, ap (◌∷◌ ev) e, (u, all), runs)

wait_events-RunsFirst :
    (evs : List PodEvent) {name : Bytes} → wait_events evs ≡ ok name → RunsFirst name evs
unfolding wait_events
wait_events-RunsFirst [] h = cc
wait_events-RunsFirst (pod_deleted ∷ evs) h = cc
wait_events-RunsFirst (watch_error ∷ evs) h = cc
wait_events-RunsFirst (other_event ∷ evs) h =
    later-RunsFirst other_event evs tt (wait_events-RunsFirst evs h)
wait_events-RunsFirst (pod_changed pod statuses ∷ evs) {name} h =
    elim (Bool-cases (any_running statuses)) [
      | inl e ↦
          let same : pod ≡ name = ok-injective (rw e at h) in
          ([], statuses, evs, ap (λ n. pod_changed n statuses ∷ evs) same, tt, e)
      | inr e ↦
          let rest : wait_events evs ≡ ok name = rw e at h in
          later-RunsFirst (pod_changed pod statuses) evs e (wait_events-RunsFirst evs rest)
    ]

-- If the wait for the server's pod succeeds, the watch was started and delivered an event in which a
-- container of the pod of that name runs, and before it no deletion, no error and no running pod.
pub wait_for_server_job_pod-RunsFirst :
    (watch : Option (List PodEvent)) {name : Bytes}
    → wait_for_server_job_pod watch ≡ ok name
    → (evs : List PodEvent) × (watch ≡ some evs) × RunsFirst name evs
unfolding wait_for_server_job_pod
wait_for_server_job_pod-RunsFirst none h = cc
wait_for_server_job_pod-RunsFirst (some evs) h = (evs, refl, wait_events-RunsFirst evs h)
