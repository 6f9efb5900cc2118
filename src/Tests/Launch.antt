-- ===== src/Tests/Launch.antt =====
-- A server's job whose pod is patched into another namespace.
use krelay.Prelude.{◌≡◌, refl, true, false, List, [], ◌∷◌, none, some, codes, equal, ok}
use krelay.Golib.Text.{to_lower}
use krelay.Kube.Config.{to_rest_config, to_client_set, create_dialer}
use krelay.Kube.ServerPod.{
  ServerPod, Job, ServerFlags, orig_pod, patch_pod, server_pod, build_server_job,
}
use krelay.Kube.ServerPod.Patched.{IsJobOf}
use krelay.Kube.Job.{
  pod_changed, deleted, created, ServerJob, JobAction, connect, run_server_job,
  wait_for_server_job_pod, wait_events,
}
use krelay.Kube.Launch.{Environment, answers, launch}
use krelay.Kube.Launch.Namespace.{launch-IsJobOf}

abbrev moved : ServerPod
moved = record (orig_pod (codes "img")) { namespace = codes "prod" }

abbrev environment : Environment
environment = record {
  loaded = some (record { group_version = none; api_path = []; serializer = none; others = [] });
  new_client = λ c. some c.api_path;
  json = record {
    to_json = λ b. some b;
    marshal = λ p. some p.namespace;
    merge = λ orig patch. some patch;
    unmarshal = λ b. some moved;
  };
  read_file = λ path. none;
  create = λ job. some (codes "krelay-server-x");
  pod_events = λ ns name. some (pod_changed (codes "p") (true ∷ []) ∷ []);
  rest_client = λ c. true;
  websockets = codes "FALSE";
  round_tripper = λ c. true;
  tunneling = λ c. false;
  dial = λ d. true;
  delete = λ ns name. deleted;
}

abbrev flags : ServerFlags
flags = record { server_image = codes "img"; patch = codes "{}"; patch_file = [] }

abbrev handle : ServerJob
handle = record { namespace = codes "prod"; name = codes "krelay-server-x"; pod_name = codes "p" }

abbrev log : List JobAction
log = created (codes "prod") (codes "krelay-server-x") ∷ []

launched : launch environment flags none ≡ (ok handle, log)
unfolding launch answers run_server_job connect wait_for_server_job_pod wait_events to_rest_config
    to_client_set create_dialer equal to_lower build_server_job server_pod patch_pod
launched = refl

launch-IsJobOf_example :
    (pod : ServerPod) × (job : Job) × (server_pod environment.json environment.read_file flags
      ≡ ok pod)
    × IsJobOf pod job
    × (environment.create job ≡ some handle.name)
    × (handle.namespace ≡ pod.namespace)
    × (log ≡ created pod.namespace handle.name ∷ [])
launch-IsJobOf_example = launch-IsJobOf environment flags none launched
