-- ===== src/Kube/ServerPod/Patched.antt =====
-- What a patch changes in the job, and what it does not.
use mathlib.Core.Path.{subst}
use krelay.Prelude.{
  ◌≡◌, refl, true, [], Option, some, Bytes, codes, ok, >>=-eq-ok, ok-injective, ltb, length,
}
use krelay.Kube.ServerPod.{
  ServerPod, Job, ServerFlags, pod_labels, orig_pod, Json, patch_pod, job_of, server_pod,
  build_server_job,
}

-- The job around a pod.
pub record IsJobOf (pod : ServerPod) (job : Job) : Type 0 where
  pub server_labels : job.labels ≡ pod_labels
  pub generated_name : job.generate_name ≡ codes "krelay-server-"
  pub no_retry : job.backoff_limit ≡ 0
  pub cleaned_up : job.ttl_seconds_after_finished ≡ 10
  pub same_namespace : job.namespace ≡ pod.namespace
  pub same_labels : job.template_labels ≡ pod.labels
  pub same_annotations : job.template_annotations ≡ pod.annotations
  pub same_spec : job.template_spec ≡ pod.spec

job_of-IsJobOf : (pod : ServerPod) → IsJobOf pod (job_of pod)
job_of-IsJobOf pod = record {
  server_labels = refl;
  generated_name = refl;
  no_retry = refl;
  cleaned_up = refl;
  same_namespace = refl;
  same_labels = refl;
  same_annotations = refl;
  same_spec = refl;
}

module _ (j : Json) where
  -- Whatever the patch is, the job that is built has the labels of the server, a name that the API
  -- generates from the server's, no retries, and is cleaned up by the cluster after it finished: the
  -- patch changes the pod alone, and the job lives in the namespace of the patched pod.
  pub build_server_job-IsJobOf :
      (read_file : Bytes → Option Bytes) (f : ServerFlags) {job : Job}
      → build_server_job j read_file f ≡ ok job
      → (pod : ServerPod) × (server_pod j read_file f ≡ ok pod) × IsJobOf pod job
  unfolding build_server_job
  build_server_job-IsJobOf read_file f built =
      let (pod, patched, made) = >>=-eq-ok (server_pod j read_file f) _ built in
      (pod, patched, subst (IsJobOf pod) (ok-injective made) (job_of-IsJobOf pod))

  patch_pod_neutral :
      (patch : Bytes) (pod : ServerPod) {json orig : Bytes}
      → j.to_json patch ≡ some json
      → j.marshal pod ≡ some orig
      → j.merge orig json ≡ some orig
      → j.unmarshal orig ≡ some pod
      → patch_pod j patch pod ≡ ok pod
  unfolding patch_pod
  patch_pod_neutral patch pod to_json marshal merge unmarshal =
      rw (to_json, marshal, merge, unmarshal)

  -- A patch on the command line goes before a patch file, which is then not even read. If it merges
  -- into the pod without a change, the job is the one without any patch.
  pub build_server_job_neutral :
      (read_file read_file' : Bytes → Option Bytes) (image patch patch_file : Bytes)
      {json orig : Bytes}
      → ltb 0 (length patch) ≡ true
      → j.to_json patch ≡ some json
      → j.marshal (orig_pod image) ≡ some orig
      → j.merge orig json ≡ some orig
      → j.unmarshal orig ≡ some (orig_pod image)
      → build_server_job j read_file
          (record { server_image = image; patch = patch; patch_file = patch_file })
        ≡ build_server_job j read_file'
            (record { server_image = image; patch = []; patch_file = [] })
  unfolding build_server_job server_pod
  build_server_job_neutral read_file read_file' image patch patch_file given to_json marshal merge
        unmarshal =
      rw (given, patch_pod_neutral patch (orig_pod image) to_json marshal merge unmarshal)
