-- ===== src/Tests/ServerPod.antt =====
-- The configuration and the job of the server.
use krelay.Prelude.{
  ◌≡◌, refl, true, false, [], Option, none, some, Bytes, codes, equal, ok, err, if◌then◌else◌,
}
use krelay.Golib.Text.{to_lower}
use krelay.Kube.Config.{
  RestConfig, set_kubernetes_defaults, to_rest_config, to_client_set, create_dialer, spdy,
  websocket_or_spdy,
}
use krelay.Kube.Config.Cached.{IsComplete, to_rest_config-cached}
use krelay.Kube.ServerPod.{
  ServerPod, ServerFlags, Json, orig_pod, patch_pod, server_pod, build_server_job, job_of,
  read_patch_file,
}
use krelay.Kube.ServerPod.Patched.{IsJobOf, build_server_job-IsJobOf, build_server_job_neutral}

abbrev plain : RestConfig
plain = record { group_version = none; api_path = []; serializer = none; others = codes "host" }

abbrev complete : RestConfig
complete = set_kubernetes_defaults plain

defaults_set : complete.api_path ≡ codes "/api"
unfolding set_kubernetes_defaults equal
defaults_set = refl

loads : to_rest_config (some plain) none ≡ (some complete, some complete)
unfolding to_rest_config
loads = refl

to_rest_config-cached_run :
    IsComplete complete
    × (to_rest_config none (some complete) ≡ (some complete, some complete))
    × (to_client_set (λ c. some c.others) none (some complete)
        ≡ (some (codes "host"), some complete))
unfolding set_kubernetes_defaults
to_rest_config-cached_run = to_rest_config-cached (some plain) none (λ c. some c.others) loads

websockets_off : create_dialer (codes "False") true false ≡ ok spdy
unfolding create_dialer equal to_lower
websockets_off = refl

websockets_default : create_dialer [] true true ≡ ok websocket_or_spdy
unfolding create_dialer equal to_lower
websockets_default = refl

-- A library that knows one pod and one namespace.
abbrev moved : ServerPod
moved = record (orig_pod (codes "img")) { namespace = codes "prod" }

abbrev json : Json
json = record {
  to_json = λ b. some b;
  marshal = λ p. some (codes "pod");
  merge = λ orig patch. if equal patch (codes "{}") then some orig else some patch;
  unmarshal = λ b. if equal b (codes "pod") then some (orig_pod (codes "img")) else some moved;
}

abbrev no_file : Bytes → Option Bytes
no_file path = none

abbrev with_patch : Bytes → ServerFlags
with_patch patch = record { server_image = codes "img"; patch = patch; patch_file = [] }

builds : build_server_job json no_file (with_patch (codes "{ns}")) ≡ ok (job_of moved)
unfolding build_server_job server_pod patch_pod equal
builds = refl

unread :
    build_server_job json no_file (record (with_patch []) { patch_file = codes "p" })
    ≡ err read_patch_file
unfolding build_server_job server_pod
unread = refl

build_server_job-IsJobOf_run :
    (pod : ServerPod) × (server_pod json no_file (with_patch (codes "{ns}")) ≡ ok pod)
    × IsJobOf pod (job_of moved)
build_server_job-IsJobOf_run =
    build_server_job-IsJobOf json no_file (with_patch (codes "{ns}")) builds

build_server_job_neutral_run :
    build_server_job json no_file (with_patch (codes "{}"))
    ≡ build_server_job json (λ path. some path) (with_patch [])
unfolding equal
build_server_job_neutral_run =
    build_server_job_neutral json no_file (λ path. some path) (codes "img") (codes "{}") [] refl
      refl refl refl refl
