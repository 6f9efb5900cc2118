-- ===== src/Kube/ServerPod.antt =====
-- buildServerJob of pkg/kube/flags.go and patchPod of pkg/kube/utils.go. YAML, JSON and merge patches
-- are those of libraries.
pub mod Patched
use krelay.Prelude.{
  ℕ, Bool, true, false, ◌||◌, List, [], ◌∷◌, ◌++◌, Option, none, some, Bytes, codes, Result, ok,
  err, ◌>>=◌, if◌then◌else◌, ltb, length,
}

abbrev pub Labels : Type 0
Labels = List (Bytes × Bytes)

pub record Container : Type 0 where
  pub name : Bytes
  pub image : Bytes
  pub image_pull_policy : Bytes
  pub read_only_root_filesystem : Option Bool
  pub allow_privilege_escalation : Option Bool

pub record SpreadConstraint : Type 0 where
  pub max_skew : ℕ
  pub topology_key : Bytes
  pub when_unsatisfiable : Bytes
  pub match_labels : Labels

-- The fields that the code sets, and what a patch adds in one more.
pub record ServerPodSpec : Type 0 where
  pub restart_policy : Bytes
  pub automount_service_account_token : Option Bool
  pub enable_service_links : Option Bool
  pub run_as_non_root : Option Bool
  pub containers : List Container
  pub topology_spread_constraints : List SpreadConstraint
  pub others : Bytes

pub record ServerPod : Type 0 where
  pub namespace : Bytes
  pub labels : Labels
  pub annotations : Labels
  pub spec : ServerPodSpec

pub record Job : Type 0 where
  pub namespace : Bytes
  pub generate_name : Bytes
  pub labels : Labels
  pub backoff_limit : ℕ
  pub ttl_seconds_after_finished : ℕ
  pub template_labels : Labels
  pub template_annotations : Labels
  pub template_spec : ServerPodSpec

pub record ServerFlags : Type 0 where
  pub server_image : Bytes
  pub patch : Bytes
  pub patch_file : Bytes

abbrev pub server_name : Bytes
server_name = codes "krelay-server"

abbrev pub ttl_seconds : ℕ
ttl_seconds = 10

abbrev pub job_backoff_limit : ℕ
job_backoff_limit = 0

abbrev pub pod_labels : Labels
pod_labels = (codes "app.kubernetes.io/name", server_name) ∷ (codes "app", server_name) ∷ []

abbrev pub server_container : Bytes → Container
server_container image = record {
  name = server_name;
  image = image;
  image_pull_policy = codes "Always";
  read_only_root_filesystem = some true;
  allow_privilege_escalation = some false;
}

unfoldable pub orig_pod : Bytes → ServerPod
orig_pod image = record {
  namespace = codes "default";
  labels = pod_labels;
  annotations = (codes "cluster-autoscaler.kubernetes.io/safe-to-evict", codes "true") ∷ [];
  spec = record {
    restart_policy = codes "Never";
    automount_service_account_token = some false;
    enable_service_links = some false;
    run_as_non_root = some true;
    containers = server_container image ∷ [];
    topology_spread_constraints =
        record {
          max_skew = 1;
          topology_key = codes "kubernetes.io/hostname";
          when_unsatisfiable = codes "ScheduleAnyway";
          match_labels = (codes "app", server_name) ∷ [];
        }
        ∷ [];
    others = [];
  };
}

pub data PatchError : Type 0 where
  convert_patch marshal_pod apply_patch unmarshal_pod : PatchError

pub data BuildError : Type 0 where
  read_patch_file : BuildError
  patch_server_pod : PatchError → BuildError

abbrev pub or_err {ℓ κ} : {A : Type ℓ} {E : Type κ} → E → Option A → Result E A
or_err e none = err e
or_err e (some a) = ok a

-- `yaml.ToJSON`, `json.Marshal`, `jsonpatch.MergePatch` and `json.Unmarshal`.
pub record Json : Type 0 where
  pub to_json : Bytes → Option Bytes
  pub marshal : ServerPod → Option Bytes
  pub merge : Bytes → Bytes → Option Bytes
  pub unmarshal : Bytes → Option ServerPod

unfoldable pub patch_pod : Json → Bytes → ServerPod → Result PatchError ServerPod
patch_pod j patch pod = do
  patch_json ← or_err convert_patch (j.to_json patch)
  orig ← or_err marshal_pod (j.marshal pod)
  after ← or_err apply_patch (j.merge orig patch_json)
  or_err unmarshal_pod (j.unmarshal after)

abbrev pub wrap_patch : Result PatchError ServerPod → Result BuildError ServerPod
wrap_patch (ok p) = ok p
wrap_patch (err e) = err (patch_server_pod e)

abbrev pub job_of : ServerPod → Job
job_of p = record {
  namespace = p.namespace;
  generate_name = server_name ++ codes "-";
  labels = pod_labels;
  backoff_limit = job_backoff_limit;
  ttl_seconds_after_finished = ttl_seconds;
  template_labels = p.labels;
  template_annotations = p.annotations;
  template_spec = p.spec;
}

module _ (j : Json) (read_file : Bytes → Option Bytes) where
  abbrev pub patch_bytes : ServerFlags → Result BuildError Bytes
  patch_bytes f =
      if ltb 0 (length f.patch) then ok f.patch else or_err read_patch_file (read_file f.patch_file)

  unfoldable pub server_pod : ServerFlags → Result BuildError ServerPod
  unfolding patch_pod
  server_pod f =
      let orig = orig_pod f.server_image in
      if ltb 0 (length f.patch) || ltb 0 (length f.patch_file)
      then patch_bytes f >>= (λ b. wrap_patch (patch_pod j b orig))
      else ok orig

  unfoldable pub build_server_job : ServerFlags → Result BuildError Job
  unfolding server_pod
  build_server_job f = server_pod f >>= (λ p. ok (job_of p))
