-- ===== src/Kube/Job/Cleanup.antt =====
-- A job does not outlive a failed start, if it can be deleted.
use krelay.Prelude.{
  ◌≡◌, refl, Bool, true, false, List, [], ◌∷◌, Option, none, some, Bytes, Result, ok, err,
}
use krelay.Prelude.Stateful.{returns, ◌>>=◌, ◌>>◌}
use krelay.Kube.Job.{
  WaitError, wait_for_server_job_pod, JobAction, created, removed, not_removed, Deletion, deleted,
  not_found, delete_failed, remove_server_job, Answers, JobError, no_config, no_client_set,
  not_built, not_created, no_rest_client, no_dialer, not_dialed, Does, ServerJob, check, demand,
  act, check_or_clean, pod_or_clean, connect, run_server_job,
}

-- Nothing was created; or one job was, and asked once to be deleted: it is gone, unless the deletion
-- failed.
pub data CleanedUp : Deletion → List JobAction → Type 0 where
  nothing_created : {d : Deletion} → CleanedUp d []
  deleted_again : {ns name : Bytes} → CleanedUp deleted (created ns name ∷ removed ns name ∷ [])
  gone_already : {ns name : Bytes} → CleanedUp not_found (created ns name ∷ removed ns name ∷ [])
  left_behind :
      {ns name : Bytes} → CleanedUp delete_failed (created ns name ∷ not_removed ns name ∷ [])

-- With a handle the job was created, and not asked to be deleted.
abbrev pub Clean : Deletion → Result JobError ServerJob × List JobAction → Type 0
Clean d (ok j, log) = log ≡ created j.namespace j.name ∷ []
Clean d (err e, log) = CleanedUp d log

-- `connect` by the outcome of each of its calls.
abbrev pub connect_by :
    Deletion → Bytes → Bytes → Result WaitError Bytes → Bool → Bool → Bool → Does ServerJob
connect_by x ns name w rest_client dialer dial = do
  pod ← pod_or_clean x ns name w
  check_or_clean x ns name rest_client no_rest_client
  check_or_clean x ns name dialer no_dialer
  check_or_clean x ns name dial not_dialed
  returns (record { namespace = ns; name = name; pod_name = pod })

remove_server_job-CleanedUp :
    (x : Deletion) (ns name : Bytes)
    → CleanedUp x (created ns name ∷ remove_server_job x ns name ∷ [])
remove_server_job-CleanedUp deleted ns name = deleted_again
remove_server_job-CleanedUp not_found ns name = gone_already
remove_server_job-CleanedUp delete_failed ns name = left_behind

connect_by-Clean :
    (x : Deletion) (ns name : Bytes) (w : Result WaitError Bytes) (b c d : Bool)
    → Clean x (connect_by x ns name w b c d (created ns name ∷ []))
connect_by-Clean x ns name (err e) b c d = remove_server_job-CleanedUp x ns name
connect_by-Clean x ns name (ok pod) false c d = remove_server_job-CleanedUp x ns name
connect_by-Clean x ns name (ok pod) true false d = remove_server_job-CleanedUp x ns name
connect_by-Clean x ns name (ok pod) true true false = remove_server_job-CleanedUp x ns name
connect_by-Clean x ns name (ok pod) true true true = refl

connect-Clean :
    (a : Answers) (ns name : Bytes) → Clean a.deletion (connect a ns name (created ns name ∷ []))
unfolding connect
connect-Clean a ns name =
    connect_by-Clean a.deletion ns name (wait_for_server_job_pod a.pod_events) a.rest_client
      a.dialer a.dial

-- `run_server_job` by the outcome of the calls up to the creation.
abbrev pub create_by : Answers → Bool → Bool → Option Bytes → Option Bytes → Does ServerJob
create_by a config clients built name = do
  check config no_config
  check clients no_client_set
  ns ← demand built not_built
  n ← demand name not_created
  act (created ns n)
  connect a ns n

create_by-Clean :
    (a : Answers) (b c : Bool) (built name : Option Bytes)
    → Clean a.deletion (create_by a b c built name [])
create_by-Clean a false c built name = nothing_created
create_by-Clean a true false built name = nothing_created
create_by-Clean a true true none name = nothing_created
create_by-Clean a true true (some ns) none = nothing_created
create_by-Clean a true true (some ns) (some n) = connect-Clean a ns n

-- RunServerJob, by the answers of the cluster. If it returns a handle, it has created that job and no
-- other, and not asked for its deletion. If it fails, it has created nothing, or it has created one job
-- and asked once for its deletion, whichever call failed: the job is gone if the deletion is answered
-- without an error or with `not found`, and with any other error it stays and the error is logged.
pub run_server_job-Clean : (a : Answers) → Clean a.deletion (run_server_job a [])
unfolding run_server_job
run_server_job-Clean a = create_by-Clean a a.rest_config a.client_set a.built a.created_name
