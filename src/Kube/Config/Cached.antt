-- ===== src/Kube/Config/Cached.antt =====
-- One configuration for all clients.
use mathlib.Core.Path.{subst}
use krelay.Prelude.{◌≡◌, ◌≢◌, refl, [], ◌∷◌, Option, none, some, Bytes, codes, equal, if◌then◌else◌}
use krelay.Kube.Config.{
  RestConfig, set_kubernetes_defaults, or_default, without_conversion, Cache, load, to_rest_config,
  to_client_set,
}

-- A configuration that a REST client can be made of.
pub record IsComplete (c : RestConfig) : Type 0 where
  pub has_version : c.group_version ≡ some ([], codes "v1")
  pub has_path : c.api_path ≢ []
  pub has_serializer : c.serializer ≢ none

or_default-none : (d : Bytes) (s : Option Bytes) → or_default d s ≢ none
or_default-none d none = λ h. absurd cc
or_default-none d (some s) = λ h. absurd cc

default_path : (path : Bytes) → (if equal path [] then codes "/api" else path) ≢ []
unfolding equal
default_path [] = λ h. absurd cc
default_path (c ∷ path) = λ h. absurd cc

set_kubernetes_defaults-IsComplete : (c : RestConfig) → IsComplete (set_kubernetes_defaults c)
unfolding set_kubernetes_defaults
set_kubernetes_defaults-IsComplete c = record {
  has_version = refl;
  has_path = default_path c.api_path;
  has_serializer = or_default-none without_conversion c.serializer;
}

load-IsComplete :
    (loaded : Option RestConfig) {c : RestConfig} {cache : Cache}
    → load loaded ≡ (some c, cache)
    → IsComplete c × (cache ≡ some c)
load-IsComplete none e = absurd cc
load-IsComplete (some d) {c} {cache} e =
    let same : set_kubernetes_defaults d ≡ c = cc in
    let kept : cache ≡ some c = cc in
    (subst IsComplete same (set_kubernetes_defaults-IsComplete d), kept)

-- The first configuration that ToRESTConfig returns is complete, and every later call, of it or of
-- ToClientSet, uses that same one, whatever the kubeconfig has become.
pub to_rest_config-cached :
    (loaded later : Option RestConfig) (new_client : RestConfig → Option Bytes) {c : RestConfig}
    {cache : Cache}
    → to_rest_config loaded none ≡ (some c, cache)
    → IsComplete c
      × (to_rest_config later cache ≡ (some c, cache))
      × (to_client_set new_client later cache ≡ (new_client c, cache))
unfolding to_rest_config to_client_set
to_rest_config-cached loaded later new_client {c} {cache} e =
    let (complete, kept) = load-IsComplete loaded e in (complete, rw kept refl, rw kept refl)
