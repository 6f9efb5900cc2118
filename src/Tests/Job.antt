-- ===== src/Tests/Job.antt =====
-- A job whose pod starts slowly.
use krelay.Prelude.{◌≡◌, refl, Bool, true, false, List, [], ◌∷◌, some, codes, ok}
use krelay.Kube.Job.{
  PodEvent, other_event, pod_changed, wait_events, wait_for_server_job_pod, Answers, created,
  removed, not_found, delete_failed, not_removed, stream_closed, connect, run_server_job, close_job,
  ServerJob,
}
use krelay.Kube.Job.Cleanup.{Clean, run_server_job-Clean}
use krelay.Kube.Job.Waiting.{RunsFirst, wait_for_server_job_pod-RunsFirst}

abbrev slow_start : List PodEvent
slow_start =
    pod_changed (codes "p") (false ∷ []) ∷ other_event ∷ pod_changed (codes "p") (true ∷ []) ∷ []

abbrev answers : Bool → Answers
answers dial = record {
  rest_config = true;
  client_set = true;
  built = some (codes "default");
  created_name = some (codes "krelay-server-x");
  pod_events = some slow_start;
  rest_client = true;
  dialer = true;
  dial = dial;
  deletion = not_found;
}

wait-slow_start : wait_for_server_job_pod (some slow_start) ≡ ok (codes "p")
unfolding wait_for_server_job_pod wait_events
wait-slow_start = refl

wait_for_server_job_pod-RunsFirst_run :
    (evs : List PodEvent) × (some slow_start ≡ some evs) × RunsFirst (codes "p") evs
wait_for_server_job_pod-RunsFirst_run =
    wait_for_server_job_pod-RunsFirst (some slow_start) wait-slow_start

run_server_job_undialed :
    (run_server_job (answers false) []).1
    ≡ created (codes "default") (codes "krelay-server-x")
      ∷ removed (codes "default") (codes "krelay-server-x")
      ∷ []
unfolding run_server_job connect wait_for_server_job_pod wait_events
run_server_job_undialed = refl

run_server_job-Clean_example : Clean not_found (run_server_job (answers false) [])
run_server_job-Clean_example = run_server_job-Clean (answers false)

abbrev job : ServerJob
job = record { namespace = codes "ns"; name = codes "j"; pod_name = codes "p" }

close_job_logs :
    close_job delete_failed job [] ≡ stream_closed ∷ not_removed (codes "ns") (codes "j") ∷ []
unfolding close_job
close_job_logs = refl
