-- ===== src/Client/Run.antt =====
-- `Run` of cmd/client/main.go, and `Run` of the proxy command in cmd/client/command_proxy.go.
pub mod Protocol
use krelay.Prelude.{
  ℕ, Bool, true, false, not, List, [], ◌∷◌, ◌++◌, Option, none, some, Bytes, codes, equal,
  if◌then◌else◌, Result, ok, err, ◌>>=◌, ◌>>◌, map, ltb, length, refuse_if, ◌==◌,
}
use krelay.Kube.Job.{JobAction, Answers, JobError, ServerJob, run_server_job, close_job}
use krelay.RemoteAddr.Getter.{Cluster}
use krelay.Client.Targets.{
  Flags, Target, LineError, FieldError, validate_fields, parse_targets_file,
}
use krelay.Client.Forwarders.{PortForwarder, RunError, port_forwarders, listen}

pub record Options : Type 0 where
  pub address : Bytes
  pub targets_file : Bytes

-- What the program meets: the namespace of the kubeconfig, the lines of the standard input and of the
-- files that can be opened, the parser of flags, the cluster, whether there is a client set, whether
-- an address can be bound next to those that are, and the answers to RunServerJob.
pub record World : Type 0 where
  pub namespace : Option Bytes
  pub stdin : List Bytes
  pub open_file : Bytes → Option (List Bytes)
  pub parse_flags : Bytes → Bytes → List Bytes → Option Flags
  pub cluster : Cluster
  pub client_set : Bool
  pub binds : List (Bytes × Bytes) → Bytes × Bytes → Bool
  pub answers : Answers

pub data Failure : Type 0 where
  no_namespace file_and_args too_few_args no_client_set nothing_bound : Failure
  not_opened : Bytes → Failure
  bad_file : LineError → Failure
  bad_args : FieldError → Failure
  bad_target : RunError → Failure
  job_failed : JobError → Failure

pub data RunAction : Type 0 where
  bound : Bytes × Bytes → RunAction
  job : JobAction → RunAction
  heartbeats_started socks5_started listener_closed : RunAction
  forwarder_started : PortForwarder → RunAction

abbrev pub wrap {ℓ κ μ} : {A : Type ℓ} {D : Type κ} {E : Type μ} → (D → E) → Result D A → Result E A
wrap f (ok a) = ok a
wrap f (err e) = err (f e)

abbrev pub demand {ℓ κ} : {A : Type ℓ} {E : Type κ} → E → Option A → Result E A
demand e none = err e
demand e (some a) = ok a

-- The target of the command line; `validateFields` has seen that there are two arguments.
abbrev pub target_of_args : Options → Bytes → List Bytes → List Target
target_of_args o ns [] = []
target_of_args o ns (resource ∷ ports) =
    record { resource = resource; ports = ports; namespace = ns; lis_addr = o.address } ∷ []

abbrev pub any_bound : List (Option (Bytes × Bytes)) → Bool
any_bound [] = false
any_bound (none ∷ bs) = any_bound bs
any_bound (some b ∷ bs) = true

-- What was bound, in order.
abbrev pub bound_of : List (Option (Bytes × Bytes)) → List RunAction
bound_of [] = []
bound_of (none ∷ bs) = bound_of bs
bound_of (some b ∷ bs) = bound b ∷ bound_of bs

module _ (w : World) where
  abbrev pub lines_of : Bytes → Result Failure (List Bytes)
  lines_of file =
      if equal file (codes "-") then ok w.stdin else demand (not_opened file) (w.open_file file)

  abbrev pub file_targets : Options → Bytes → List Bytes → Result Failure (List Target)
  file_targets o ns args = do
    refuse_if (not (length args == 0)) file_and_args
    lines ← lines_of o.targets_file
    wrap bad_file (parse_targets_file w.cluster.parse_ip w.parse_flags ns lines)

  abbrev pub arg_targets : Options → Bytes → List Bytes → Result Failure (List Target)
  arg_targets o ns args = do
    refuse_if (ltb (length args) 2) too_few_args
    wrap bad_args (validate_fields w.cluster.parse_ip args)
    ok (target_of_args o ns args)

  unfoldable pub choose_targets : Options → Bytes → List Bytes → Result Failure (List Target)
  unfolding parse_targets_file validate_fields equal
  choose_targets o ns args =
      if ltb 0 (length o.targets_file) then file_targets o ns args else arg_targets o ns args

  -- All that comes in front of the first listener.
  unfoldable pub prepare : Options → List Bytes → Result Failure (List PortForwarder)
  unfolding choose_targets port_forwarders
  prepare o args = do
    ns ← demand no_namespace w.namespace
    targets ← choose_targets o ns args
    refuse_if (not w.client_set) no_client_set
    wrap bad_target (port_forwarders w.cluster targets)

  abbrev pub try_bind : List (Bytes × Bytes) → Option (Bytes × Bytes) → Option (Bytes × Bytes)
  try_bind taken none = none
  try_bind taken (some at) = if w.binds taken at then some at else none

  abbrev pub take_up : List (Bytes × Bytes) → Option (Bytes × Bytes) → List (Bytes × Bytes)
  take_up taken none = taken
  take_up taken (some at) = at ∷ taken

  -- The loop over `listen`: for each forwarder the address that it got; its error is only logged.
  unfoldable pub listen_all :
      List (Bytes × Bytes) → List PortForwarder → List (Option (Bytes × Bytes))
  unfolding listen
  listen_all taken [] = []
  listen_all taken (p ∷ ps) =
      let here = try_bind taken (listen p) in here ∷ listen_all (take_up taken here) ps

  -- Behind RunServerJob; the `select` at the end is left by a lost connection or an interrupt.
  abbrev pub after_job :
      List PortForwarder
      → List RunAction
      → Result JobError ServerJob × List JobAction
      → Result Failure (Unit {0}) × List RunAction
  after_job ps log (err e, acts) = (err (job_failed e), log ++ map job acts)
  after_job ps log (ok j, acts) = (
    ok tt,
    log
        ++ (map job acts
            ++ (heartbeats_started
                ∷ (map forwarder_started ps ++ map job (close_job w.answers.deletion j [])))),
  )

  abbrev pub after_listen :
      List PortForwarder
      → List (Option (Bytes × Bytes))
      → Result Failure (Unit {0}) × List RunAction
  after_listen ps bs =
      if any_bound bs
      then after_job ps (bound_of bs) (run_server_job w.answers [])
      else (err nothing_bound, bound_of bs)

  abbrev pub after_prepare :
      Result Failure (List PortForwarder) → Result Failure (Unit {0}) × List RunAction
  after_prepare (err e) = (err e, [])
  after_prepare (ok ps) = after_listen ps (listen_all [] ps)

  unfoldable pub run : Options → List Bytes → Result Failure (Unit {0}) × List RunAction
  unfolding prepare listen_all run_server_job close_job
  run o args = after_prepare (prepare o args)

  abbrev pub after_proxy_job :
      Bytes × Bytes
      → Result JobError ServerJob × List JobAction
      → Result Failure (Unit {0}) × List RunAction
  after_proxy_job at (err e, acts) =
      (err (job_failed e), bound at ∷ (map job acts ++ listener_closed ∷ []))
  after_proxy_job at (ok j, acts) = (
    ok tt,
    bound at
        ∷ (map job acts
            ++ (heartbeats_started
                ∷ socks5_started
                ∷ (map job (close_job w.answers.deletion j []) ++ listener_closed ∷ []))),
  )

  -- Of the proxy command.
  unfoldable pub run_proxy : Bytes → Result Failure (Unit {0}) × List RunAction
  unfolding run_server_job close_job
  run_proxy listen_addr =
      let at : Bytes × Bytes = (codes "tcp", listen_addr) in
      if w.binds [] at
      then after_proxy_job at (run_server_job w.answers [])
      else (err nothing_bound, [])
