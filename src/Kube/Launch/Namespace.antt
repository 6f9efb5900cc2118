-- ===== src/Kube/Launch/Namespace.antt =====
-- Where the job of the server lives.
use mathlib.Core.Path.{subst}
use krelay.Prelude.{
  ◌≡◌, refl, sym, ap, ◌∙◌, Bool, true, false, List, [], ◌∷◌, Option, none, some, Bytes, Result, ok,
  err,
}
use krelay.Kube.ServerPod.{ServerPod, Job, ServerFlags, BuildError, server_pod, build_server_job}
use krelay.Kube.ServerPod.Patched.{IsJobOf, build_server_job-IsJobOf}
use krelay.Kube.Config.{Cache}
use krelay.Kube.Job.{
  Deletion, WaitError, wait_for_server_job_pod, Answers, JobAction, JobError, created, ServerJob,
  connect, run_server_job,
}
use krelay.Kube.Job.Cleanup.{Clean, connect_by, create_by, run_server_job-Clean}
use krelay.Kube.Launch.{Environment, namespace_of, name_of, answers, launch}

-- A handle tells the namespace and the name that the calls answered.
abbrev Tells : Option Bytes → Option Bytes → Result JobError ServerJob × List JobAction → Type 0
Tells built name (ok j, log) = (built ≡ some j.namespace) × (name ≡ some j.name)
Tells built name (err e, log) = Unit {0}

connect_by-Tells :
    (x : Deletion) (ns name : Bytes) (w : Result WaitError Bytes) (b c d : Bool)
    (log : List JobAction)
    → Tells (some ns) (some name) (connect_by x ns name w b c d log)
connect_by-Tells x ns name (err e) b c d log = tt
connect_by-Tells x ns name (ok pod) false c d log = tt
connect_by-Tells x ns name (ok pod) true false d log = tt
connect_by-Tells x ns name (ok pod) true true false log = tt
connect_by-Tells x ns name (ok pod) true true true log = (refl, refl)

create_by-Tells :
    (a : Answers) (b c : Bool) (built name : Option Bytes) (log : List JobAction)
    → Tells built name (create_by a b c built name log)
unfolding connect
create_by-Tells a false c built name log = tt
create_by-Tells a true false built name log = tt
create_by-Tells a true true none name log = tt
create_by-Tells a true true (some ns) none log = tt
create_by-Tells a true true (some ns) (some n) log =
    connect_by-Tells a.deletion ns n (wait_for_server_job_pod a.pod_events) a.rest_client a.dialer
      a.dial _

handle_lem :
    (a : Answers) {j : ServerJob} {log : List JobAction}
    → run_server_job a [] ≡ (ok j, log)
    → (a.built ≡ some j.namespace) × (a.created_name ≡ some j.name)
unfolding run_server_job
handle_lem a ran =
    subst (Tells a.built a.created_name) ran
      (create_by-Tells a a.rest_config a.client_set a.built a.created_name [])

job_built :
    (x : Result BuildError Job) {ns : Bytes}
    → namespace_of x ≡ some ns
    → (job : Job) × (x ≡ ok job) × (job.namespace ≡ ns)
job_built (err e) h = absurd cc
job_built (ok job) h = (job, refl, cc)

-- RunServerJob, with the job that buildServerJob makes: a handle is on a job in the namespace of the
-- patched pod, under the name that the API gave to the job around that pod; that job is all that was
-- created, and it was not removed.
pub launch-IsJobOf :
    (e : Environment) (f : ServerFlags) (cache : Cache) {j : ServerJob} {log : List JobAction}
    → launch e f cache ≡ (ok j, log)
    → (pod : ServerPod) × (job : Job) × (server_pod e.json e.read_file f ≡ ok pod)
      × IsJobOf pod job
      × (e.create job ≡ some j.name)
      × (j.namespace ≡ pod.namespace)
      × (log ≡ created pod.namespace j.name ∷ [])
unfolding launch answers
launch-IsJobOf e f cache {j} {log} ran =
    let a = answers e f cache in
    let (named, called) = handle_lem a ran in
    let (job, built, same) = job_built (build_server_job e.json e.read_file f) named in
    let (pod, patched, around) = build_server_job-IsJobOf e.json e.read_file f built in
    let here : j.namespace ≡ pod.namespace = sym same ∙ around.same_namespace in
    let clean : log ≡ created j.namespace j.name ∷ [] =
      subst (Clean a.deletion) ran (run_server_job-Clean a) in
    (
      pod,
      job,
      patched,
      around,
      subst (λ x. name_of e.create x ≡ some j.name) built called,
      here,
      clean ∙ ap (λ ns. created ns j.name ∷ []) here,
    )
