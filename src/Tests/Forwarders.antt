-- ===== src/Tests/Forwarders.antt =====
-- A cluster with a headless service, and the forwarders of two targets.
use krelay.Prelude.{
  ℕ, ◌≡◌, refl, true, false, List, [], ◌∷◌, some, Bytes, codes, equal, ok, All, length, codes,
}
use krelay.Golib.Text.{split, index_of, to_lower}
use krelay.Golib.Strconv.{parse_uint16, itoa}
use krelay.Golib.Net.{join_host_port}
use krelay.Xnet.Addr.{addr_type_ip, addr_from_host}
use krelay.Kube.Object.{Object, service}
use krelay.Ports.Object.{get_ports_from_object, named, numbered}
use krelay.Ports.Parser.{
  parse, parse_arg, parse_args, split_protocol, split_ports, resolve_remote, resolve_local,
}
use krelay.RemoteAddr.Dynamic.{
  PodInfo, less, insert, insert_all, reverse_onto, sort_pods, first_running, update_pod_ip,
  points_to,
}
use krelay.RemoteAddr.Getter.{
  Cluster, Getter, static_addr, dynamic_addr, get, new_dynamic_addr, addr_getter_for_object,
}
use krelay.RemoteAddr.Getter.Ip.{addr_getter_for_object-typ}
use krelay.Client.Targets.{Target}
use krelay.Client.Forwarders.{PortForwarder, resolve, forward_target, port_forwarders, listen}
use krelay.Client.Forwarders.Pairs.{IsForwarder, port_count, port_forwarders-IsForwarder}

abbrev replica : PodInfo
replica = record {
  name = codes "db-0";
  running = true;
  pod_ip = 10 ∷ 0 ∷ 0 ∷ 7 ∷ [];
  created = 1;
  deleting = false;
}

abbrev headless : Object
headless = service (record {
  service_type = codes "ClusterIP";
  external_name = [];
  cluster_ip = codes "None";
  service_selector = (codes "app", codes "db") ∷ [];
  service_ports = record { name = codes "sql"; port = 5432; protocol = codes "TCP" } ∷ [];
})

-- Every text is its own IP address here.
abbrev cluster : Cluster
cluster = record {
  parse_ip = λ s. some s;
  list_pods = λ ns selector. some (replica ∷ []);
  can_watch = λ ns selector. true;
  selector_text = λ kvs. codes "app=db";
  find_object = λ ns resource. some headless;
}

abbrev db_getter : Getter
db_getter = dynamic_addr (codes "prod") (codes "app=db") (points_to cluster.parse_ip replica)

getter-headless : addr_getter_for_object cluster (codes "prod") headless ≡ ok db_getter
unfolding addr_getter_for_object new_dynamic_addr update_pod_ip sort_pods insert insert_all
    reverse_onto first_running less equal
getter-headless = refl

addr_getter_for_object-typ_run : (get db_getter).typ ≡ addr_type_ip
unfolding equal
addr_getter_for_object-typ_run =
    addr_getter_for_object-typ cluster (codes "prod") headless getter-headless refl

abbrev targets : List Target
targets =
    record {
      resource = codes "svc/db";
      ports = codes "sql" ∷ [];
      namespace = codes "prod";
      lis_addr = codes "127.0.0.1";
    }
    ∷ record {
      resource = codes "host/example";
      ports = codes "8080:80" ∷ codes "53@udp" ∷ [];
      namespace = codes "prod";
      lis_addr = codes "0.0.0.0";
    }
    ∷ []

abbrev forwarder : Getter → ℕ → ℕ → Bytes → Bytes → PortForwarder
forwarder g local remote protocol address = record {
  addr_getter = g;
  ports = record { local_port = local; remote_port = remote; protocol = protocol };
  listen_addr = address;
}

abbrev example_getter : Getter
example_getter = static_addr (addr_from_host (codes "example"))

abbrev forwarders : List PortForwarder
forwarders =
    forwarder db_getter 5432 5432 (codes "tcp") (codes "127.0.0.1")
    ∷ forwarder example_getter 8080 80 (codes "tcp") (codes "0.0.0.0")
    ∷ forwarder example_getter 53 53 (codes "udp") (codes "0.0.0.0")
    ∷ []

port_forwarders-targets : port_forwarders cluster targets ≡ ok forwarders
unfolding port_forwarders forward_target resolve addr_getter_for_object new_dynamic_addr
    update_pod_ip sort_pods insert insert_all reverse_onto first_running less equal split index_of
    to_lower parse_uint16 get_ports_from_object named numbered parse parse_arg parse_args
    split_protocol split_ports resolve_remote resolve_local
port_forwarders-targets = refl

port_forwarders-IsForwarder_example :
    All IsForwarder forwarders × (length forwarders ≡ port_count targets)
port_forwarders-IsForwarder_example =
    port_forwarders-IsForwarder cluster targets port_forwarders-targets

listen-udp :
    listen (forwarder example_getter 53 53 (codes "udp") (codes "0.0.0.0"))
    ≡ some (codes "udp", codes "0.0.0.0:53")
unfolding listen equal join_host_port index_of itoa
listen-udp = refl
