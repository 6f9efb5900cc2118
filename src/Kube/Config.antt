-- ===== src/Kube/Config.antt =====
-- ToRESTConfig and ToClientSet of pkg/kube/flags.go, setKubernetesDefaults and createDialer of
-- pkg/kube/utils.go.
pub mod Cached
use krelay.Prelude.{
  ℕ, Bool, true, false, not, ◌||◌, List, [], ◌∷◌, Option, none, some, Bytes, codes, equal, Result,
  ok, err, if◌then◌else◌,
}
use krelay.Golib.Text.{to_lower}

-- The fields of a rest.Config that the defaults touch, and all the others in one.
pub record RestConfig : Type 0 where
  pub group_version : Option (Bytes × Bytes)
  pub api_path : Bytes
  pub serializer : Option Bytes
  pub others : Bytes

-- `scheme.Codecs.WithoutConversion()`.
abbrev pub without_conversion : Bytes
without_conversion = codes "without conversion"

abbrev pub or_default : Bytes → Option Bytes → Option Bytes
or_default d none = some d
or_default d (some s) = some s

unfoldable pub set_kubernetes_defaults : RestConfig → RestConfig
unfolding equal
set_kubernetes_defaults c = record c {
  group_version = some ([], codes "v1");
  api_path = if equal c.api_path [] then codes "/api" else c.api_path;
  serializer = or_default without_conversion c.serializer;
}

-- The field `restCfg` of the flags.
abbrev pub Cache : Type 0
Cache = Option RestConfig

-- `loaded` is what the flags of the kubeconfig give, if they are asked.
abbrev pub load : Option RestConfig → Option RestConfig × Cache
load none = (none, none)
load (some c) = let c' = set_kubernetes_defaults c in (some c', some c')

unfoldable pub to_rest_config : Option RestConfig → Cache → Option RestConfig × Cache
unfolding set_kubernetes_defaults
to_rest_config loaded (some c) = (some c, some c)
to_rest_config loaded none = load loaded

-- `new_client` stands for `kubernetes.NewForConfig`.
abbrev pub client_for {ℓ} :
    {C : Type ℓ} → (RestConfig → Option C) → Option RestConfig × Cache → Option C × Cache
client_for new_client (none, cache) = (none, cache)
client_for new_client (some c, cache) = (new_client c, cache)

unfoldable pub to_client_set {ℓ} :
    {C : Type ℓ} → (RestConfig → Option C) → Option RestConfig → Cache → Option C × Cache
unfolding to_rest_config
to_client_set new_client loaded cache = client_for new_client (to_rest_config loaded cache)

-- A dialer: SPDY alone, or a websocket that falls back to SPDY on some errors.
pub data Dialer : Type 0 where
  spdy : Dialer
  websocket_or_spdy : Dialer

pub data DialerError : Type 0 where
  no_round_tripper no_tunneling_dialer : DialerError

-- By the value of the variable KUBECTL_PORT_FORWARD_WEBSOCKETS, and whether the round tripper and the
-- tunneling dialer can be made.
unfoldable pub create_dialer : Bytes → Bool → Bool → Result DialerError Dialer
unfolding equal to_lower
create_dialer websockets round_tripper tunneling =
    if not round_tripper
    then err no_round_tripper
    else if equal (to_lower websockets) (codes "false")
    then ok spdy
    else if not tunneling
    then err no_tunneling_dialer
    else ok websocket_or_spdy

-- How a dial fails, and whether SPDY is tried then.
pub data DialFailure : Type 0 where
  upgrade_failure https_proxy_error other_failure : DialFailure

abbrev pub should_fallback : DialFailure → Bool
should_fallback upgrade_failure = true
should_fallback https_proxy_error = true
should_fallback other_failure = false
