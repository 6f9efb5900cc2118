-- ===== src/Tests/Run.antt =====
-- Runs of the client that forwards a port of a host, and of the proxy command.
use krelay.Prelude.{
  ◌≡◌, refl, Bool, true, false, not, List, [], ◌∷◌, none, some, Bytes, codes, equal, err,
}
use krelay.Golib.Text.{split, index_of, to_lower}
use krelay.Golib.Strconv.{parse_uint16, itoa}
use krelay.Golib.Net.{join_host_port}
use krelay.Ports.Parser.{
  parse, parse_arg, parse_args, split_protocol, split_ports, resolve_remote, resolve_local,
}
use krelay.Kube.Job.{
  pod_changed, deleted, wait_events, wait_for_server_job_pod, Answers, created, removed,
  stream_closed, connect, run_server_job, close_job, not_dialed,
}
use krelay.RemoteAddr.Getter.{Cluster}
use krelay.Client.Targets.{validate_fields}
use krelay.Client.Forwarders.{resolve, forward_target, port_forwarders, listen}
use krelay.Client.Run.{
  Options, World, bound, job, heartbeats_started, socks5_started, listener_closed, job_failed,
  too_few_args, choose_targets, prepare, listen_all, run, run_proxy,
}
use krelay.Client.Run.Protocol.{fresh, Leaves, run-Leaves, run_proxy-Leaves}

abbrev answers : Bool → Answers
answers dial = record {
  rest_config = true;
  client_set = true;
  built = some (codes "ns");
  created_name = some (codes "j");
  pod_events = some (pod_changed (codes "p") (true ∷ []) ∷ []);
  rest_client = true;
  dialer = true;
  dial = dial;
  deletion = deleted;
}

abbrev cluster : Cluster
cluster = record {
  parse_ip = λ s. some s;
  list_pods = λ ns selector. none;
  can_watch = λ ns selector. false;
  selector_text = λ kvs. [];
  find_object = λ ns resource. none;
}

-- One address is taken.
abbrev world : Bool → World
world dial = record {
  namespace = some (codes "ns");
  stdin = [];
  open_file = λ path. none;
  parse_flags = λ ns address fields. none;
  cluster = cluster;
  client_set = true;
  binds = λ taken (network, at). not (equal at (codes "::1:80"));
  answers = answers dial;
}

abbrev options : Options
options = record { address = codes "127.0.0.1"; targets_file = [] }

abbrev args : List Bytes
args = codes "host/db" ∷ codes "80" ∷ []

undialed : run (world false) options args ≡ (
  err (job_failed not_dialed),
  bound (codes "tcp", codes "127.0.0.1:80")
      ∷ job (created (codes "ns") (codes "j"))
      ∷ job (removed (codes "ns") (codes "j"))
      ∷ [],
)
unfolding run prepare choose_targets listen_all listen validate_fields run_server_job connect
    wait_for_server_job_pod wait_events port_forwarders forward_target resolve equal split index_of
    to_lower parse_uint16 parse parse_arg parse_args split_protocol split_ports resolve_remote
    resolve_local join_host_port itoa
undialed = refl

no_args : run (world true) options [] ≡ (err too_few_args, [])
unfolding run prepare choose_targets
no_args = refl

run-Leaves_example : Leaves deleted fresh (run (world false) options args).1
run-Leaves_example = run-Leaves (world false) options args

run_proxy-Leaves_example : Leaves deleted fresh (run_proxy (world true) (codes "127.0.0.1:1080")).1
run_proxy-Leaves_example = run_proxy-Leaves (world true) (codes "127.0.0.1:1080")

proxy_ends :
    (run_proxy (world true) (codes "127.0.0.1:1080")).1
    ≡ bound (codes "tcp", codes "127.0.0.1:1080")
      ∷ job (created (codes "ns") (codes "j"))
      ∷ heartbeats_started
      ∷ socks5_started
      ∷ job stream_closed
      ∷ job (removed (codes "ns") (codes "j"))
      ∷ listener_closed
      ∷ []
unfolding run_proxy equal run_server_job connect wait_for_server_job_pod wait_events close_job
proxy_ends = refl
