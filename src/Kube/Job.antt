-- ===== src/Kube/Job.antt =====
-- RunServerJob and ServerJob.Close of pkg/kube/flags.go, waitForServerJobPod and removeServerJob of
-- pkg/kube/utils.go: the server's job, by the answers of the cluster's API.
pub mod Cleanup
pub mod Waiting
use krelay.Prelude.{
  ℕ, Bool, true, false, List, [], ◌∷◌, ◌++◌, Option, none, some, Bytes, Result, ok, err,
  if◌then◌else◌, ◌||◌,
}
use krelay.Prelude.Stateful.{Prog, returns, throws, ◌>>=◌, ◌>>◌}

-- An event of the watch of the job's pods; an added or modified pod comes with its name and, for each
-- container, whether it runs.
pub data PodEvent : Type 0 where
  pod_deleted watch_error other_event : PodEvent
  pod_changed : Bytes → List Bool → PodEvent

pub data WaitError : Type 0 where
  watch_failed deleted_before_ready watch_reported_error timed_out_waiting : WaitError

abbrev pub any_running : List Bool → Bool
any_running [] = false
any_running (b ∷ bs) = b || any_running bs

-- The loop over the events; the channel is closed behind the last.
unfoldable pub wait_events : List PodEvent → Result WaitError Bytes
wait_events [] = err timed_out_waiting
wait_events (pod_deleted ∷ evs) = err deleted_before_ready
wait_events (watch_error ∷ evs) = err watch_reported_error
wait_events (other_event ∷ evs) = wait_events evs
wait_events (pod_changed name statuses ∷ evs) =
    let later = wait_events evs in if any_running statuses then ok name else later

unfoldable pub wait_for_server_job_pod : Option (List PodEvent) → Result WaitError Bytes
unfolding wait_events
wait_for_server_job_pod none = err watch_failed
wait_for_server_job_pod (some evs) = wait_events evs

-- What is done to the cluster, and to the stream connection: a job is created; it was asked to be
-- deleted and is no longer there; it was asked to be deleted, which failed, and the error is logged.
pub data JobAction : Type 0 where
  created removed not_removed : Bytes → Bytes → JobAction
  stream_closed : JobAction

-- The answer to `Jobs().Delete`: no error, an error for which `k8serr.IsNotFound` holds, or another
-- error.
pub data Deletion : Type 0 where
  deleted not_found delete_failed : Deletion

abbrev pub remove_server_job : Deletion → Bytes → Bytes → JobAction
remove_server_job deleted ns name = removed ns name
remove_server_job not_found ns name = removed ns name
remove_server_job delete_failed ns name = not_removed ns name

-- The answers: whether there is a configuration and a client set, the namespace of the job that is
-- built, the name that the API gives it, the events of its pods, whether the REST client and the
-- dialer can be made, whether the dial succeeds, and what the deletion of the job is answered, which a
-- run asks for once at most.
pub record Answers : Type 0 where
  pub rest_config : Bool
  pub client_set : Bool
  pub built : Option Bytes
  pub created_name : Option Bytes
  pub pod_events : Option (List PodEvent)
  pub rest_client : Bool
  pub dialer : Bool
  pub dial : Bool
  pub deletion : Deletion

pub data JobError : Type 0 where
  no_config no_client_set not_built not_created no_rest_client no_dialer not_dialed : JobError
  not_running : WaitError → JobError

-- A handle on a job, and on the connection to its pod.
pub record ServerJob : Type 0 where
  pub namespace : Bytes
  pub name : Bytes
  pub pod_name : Bytes

abbrev pub Does : Type 0 → Type 0
Does A = Prog (List JobAction) JobError A

abbrev pub check : Bool → JobError → Does (Unit {0})
check true e = returns tt
check false e = throws e

abbrev pub demand : Option Bytes → JobError → Does Bytes
demand (some b) e = returns b
demand none e = throws e

abbrev pub act : JobAction → Does (Unit {0})
act a log = (ok tt, log ++ a ∷ [])

-- `cleanup` and the error behind it.
abbrev pub cleanup : {A : Type 0} → Deletion → Bytes → Bytes → JobError → Does A
cleanup d ns name e log = (err e, log ++ remove_server_job d ns name ∷ [])

abbrev pub check_or_clean : Deletion → Bytes → Bytes → Bool → JobError → Does (Unit {0})
check_or_clean d ns name true e = returns tt
check_or_clean d ns name false e = cleanup d ns name e

abbrev pub pod_or_clean : Deletion → Bytes → Bytes → Result WaitError Bytes → Does Bytes
pod_or_clean d ns name (ok pod) = returns pod
pod_or_clean d ns name (err e) = cleanup d ns name (not_running e)

-- What follows the creation of the job.
unfoldable pub connect : Answers → Bytes → Bytes → Does ServerJob
unfolding wait_for_server_job_pod
connect a ns name = do
  pod ← pod_or_clean a.deletion ns name (wait_for_server_job_pod a.pod_events)
  check_or_clean a.deletion ns name a.rest_client no_rest_client
  check_or_clean a.deletion ns name a.dialer no_dialer
  check_or_clean a.deletion ns name a.dial not_dialed
  returns (record { namespace = ns; name = name; pod_name = pod })

unfoldable pub run_server_job : Answers → Does ServerJob
unfolding connect
run_server_job a = do
  check a.rest_config no_config
  check a.client_set no_client_set
  ns ← demand a.built not_built
  name ← demand a.created_name not_created
  act (created ns name)
  connect a ns name

-- `Close`.
unfoldable pub close_job : Deletion → ServerJob → List JobAction → List JobAction
close_job d j log = log ++ stream_closed ∷ remove_server_job d j.namespace j.name ∷ []
