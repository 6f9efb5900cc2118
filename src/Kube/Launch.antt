-- ===== src/Kube/Launch.antt =====
-- RunServerJob of pkg/kube/flags.go with the configuration, the job and the dialer that it makes.
pub mod Namespace
use krelay.Prelude.{ℕ, Bool, true, false, List, [], ◌∷◌, Option, none, some, Bytes, Result, ok, err}
use krelay.Kube.Config.{
  RestConfig, Cache, to_rest_config, to_client_set, Dialer, DialerError, create_dialer,
}
use krelay.Kube.ServerPod.{Job, ServerFlags, BuildError, Json, build_server_job}
use krelay.Kube.Job.{
  PodEvent, Deletion, deleted, Answers, JobAction, JobError, ServerJob, run_server_job,
}

-- What the libraries and the cluster answer: the configuration that the flags load, the client set of
-- a configuration, the name of a job that is created, the events of its pods, whether a REST client,
-- a round tripper and a tunneling dialer can be made, whether a dial succeeds, and the answer to the
-- deletion of a job.
pub record Environment : Type 0 where
  pub loaded : Option RestConfig
  pub new_client : RestConfig → Option Bytes
  pub json : Json
  pub read_file : Bytes → Option Bytes
  pub create : Job → Option Bytes
  pub pod_events : Bytes → Bytes → Option (List PodEvent)
  pub rest_client : RestConfig → Bool
  pub websockets : Bytes
  pub round_tripper : RestConfig → Bool
  pub tunneling : RestConfig → Bool
  pub dial : Dialer → Bool
  pub delete : Bytes → Bytes → Deletion

abbrev pub is_some {ℓ} : {A : Type ℓ} → Option A → Bool
is_some none = false
is_some (some a) = true

abbrev pub holds {ℓ} : {A : Type ℓ} → (A → Bool) → Option A → Bool
holds test none = false
holds test (some a) = test a

abbrev pub is_ok {ℓ κ} : {A : Type ℓ} {E : Type κ} → Result E A → Bool
is_ok (ok a) = true
is_ok (err e) = false

abbrev pub namespace_of : Result BuildError Job → Option Bytes
namespace_of (err e) = none
namespace_of (ok job) = some job.namespace

abbrev pub name_of : (Job → Option Bytes) → Result BuildError Job → Option Bytes
name_of create (err e) = none
name_of create (ok job) = create job

abbrev pub events_of :
    (Bytes → Bytes → Option (List PodEvent)) → Option Bytes → Option Bytes → Option (List PodEvent)
events_of watch (some ns) (some name) = watch ns name
events_of watch ns name = none

-- Without a job nothing is asked to be deleted.
abbrev pub deletion_of : (Bytes → Bytes → Deletion) → Option Bytes → Option Bytes → Deletion
deletion_of delete (some ns) (some name) = delete ns name
deletion_of delete ns name = deleted

abbrev pub dialer_for : Environment → Option RestConfig → Result DialerError Dialer
dialer_for e none = create_dialer e.websockets false false
dialer_for e (some c) = create_dialer e.websockets (e.round_tripper c) (e.tunneling c)

abbrev pub dialed : (Dialer → Bool) → Result DialerError Dialer → Bool
dialed dial (err e) = false
dialed dial (ok d) = dial d

-- The answers that the calls of RunServerJob meet.
unfoldable pub answers : Environment → ServerFlags → Cache → Answers
unfolding to_rest_config to_client_set build_server_job create_dialer
answers e f cache =
    let (config, cache') : Option RestConfig × Cache = to_rest_config e.loaded cache in
    let job = build_server_job e.json e.read_file f in
    let name = name_of e.create job in
    let dialer = dialer_for e config in
    record {
      rest_config = is_some config;
      client_set = is_some ((to_client_set e.new_client e.loaded cache').0);
      built = namespace_of job;
      created_name = name;
      pod_events = events_of e.pod_events (namespace_of job) name;
      rest_client = holds e.rest_client config;
      dialer = is_ok dialer;
      dial = dialed e.dial dialer;
      deletion = deletion_of e.delete (namespace_of job) name;
    }

unfoldable pub launch :
    Environment → ServerFlags → Cache → Result JobError ServerJob × List JobAction
unfolding answers run_server_job
launch e f cache = run_server_job (answers e f cache) []
