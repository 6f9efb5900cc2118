-- ===== src/Lib.antt =====
-- krelay forwards TCP and UDP traffic from a local machine into a Kubernetes cluster. The client
-- (cmd/client) opens streams to a server pod (cmd/server) over one connection. Each stream starts
-- with a header that names the destination (pkg/xnet/header.go), the server answers with an
-- acknowledgement (pkg/xnet/ack.go), and then bytes are copied both ways; UDP packets travel on
-- the stream with their length in front (pkg/xnet/udp.go). What is forwarded where comes from
-- the command line (pkg/ports/parser.go) or from a SOCKS5 client (cmd/client/command_proxy.go).
--
-- What models which part:
--   Prelude          results, the state-and-error programs, lists over the native numbers
--   Golib            the parts of the Go library that the code calls: byte order, readers, buffers,
--                    strings, strconv
--   Xio              WriteFull of pkg/xio/write.go (write_full)
--   Xnet/Addr        pkg/xnet/addr.go and proto.go
--   Xnet/Header      Header with Marshal (marshal) and FromReader (from_reader), pkg/xnet/header.go
--   Xnet/Ack         Acknowledgement with Marshal and FromReader, pkg/xnet/ack.go
--   Xnet/Udp         ReadUDPFromStream, UDPConn.Read and the copy loops of ProxyUDP in
--                    pkg/xnet/udp.go, and the reading loop of handleUDPConn in cmd/client/udp.go
--   Xnet/Udp/Session  ProxyUDP as a whole, as a step relation
--   Kube/Object      the fields of Kubernetes objects that the code reads
--   Kube/Config      ToRESTConfig and ToClientSet of pkg/kube/flags.go, setKubernetesDefaults and
--                    createDialer of utils.go
--   Kube/ServerPod   buildServerJob of pkg/kube/flags.go, patchPod of utils.go
--   Kube/Job         RunServerJob and Close of pkg/kube/flags.go, waitForServerJobPod and
--                    removeServerJob of utils.go
--   Ports            getPortsFromObject, getPortsFromPodSpec and Parser.Parse of pkg/ports/parser.go
--   Xnet/RequestId   NewRequestID of pkg/xnet/header.go
--   Xnet/Tcp         ProxyTCP and tcpBroker of pkg/xnet/tcp.go as a step relation: Stream and Flow are
--                    what they pass on, Exit how they end
--   Alarm            pkg/alarm/alarm.go as a step relation with time
--   Server/Conn      handleConn, writeACK and ackCodeFromErr of cmd/server/main.go; Conn/Protocol is
--                    the machine of what may happen on one connection
--   Server/Idle      idleTracker and the accept loop of cmd/server/main.go as a step relation
--   Kube/Launch      RunServerJob with the two: the answers that its calls meet
--   RemoteAddr       dynamicAddr of pkg/remoteaddr/dynamic.go (Dynamic), and the getters with
--                    addrGetterForObject of cmd/client/utils.go (Getter)
--   Client/Targets   validateFields and parseTargetsFile of cmd/client/utils.go
--   Client/Forwarders  the loop over the targets in Run of cmd/client/main.go, and listen of
--                    cmd/client/forwarder.go
--   Client/UdpForwarder  connTrack of cmd/client/conntrack.go and the UDP loop of run in
--                    cmd/client/forwarder.go
--   Client/UdpConn   handleUDPConn of cmd/client/udp.go: its stream, its writing goroutine and its end
--   Client/Tunnel    createStream of cmd/client/utils.go and the opening of a stream in
--                    cmd/client/tcp.go and udp.go
--   Client/TcpConn   handleTCPConn of cmd/client/tcp.go up to the copying, and handleSOCKS5Conn of
--                    cmd/client/command_proxy.go
--   Client/ErrorStream  the goroutine of createStream in cmd/client/utils.go
--   Client/Copying   handleTCPConn of cmd/client/tcp.go from the creation of its stream on, as a step
--                    relation
--   Client/Accept    the TCP loop of run in cmd/client/forwarder.go, runSOCKS5Server of
--                    cmd/client/command_proxy.go
--   Client/Run       Run of cmd/client/main.go and of cmd/client/command_proxy.go
--   Client/Heartbeats  sendHeartbeats of cmd/client/utils.go
--   Client/Socks5    socks5Handshake of cmd/client/command_proxy.go, bytesReader of utils.go
--   Tests            runs on concrete inputs
--
-- How the code is modelled. A byte is a number below 256 and a string a list of bytes. A reader is
-- the list of what its reads will meet, chunks of bytes and errors, so a theorem about every reader
-- is one about every way in which the input is cut into pieces. A writer is the list of how its
-- calls will go: each takes some bytes, or takes some and fails. A method that reads or writes takes
-- the state and returns a result together with the next state; an error keeps the state it left.
--
-- Fuel. The read loop of io.ReadFull recurses on the events of the reader. The copy loops take one
-- unit for each round and return nothing when it runs out. Each round uses up an event or a byte
-- of the reader, so as many rounds as it holds events and bytes are enough. All other loops
-- recurse on the list of what they go through: the events of a watch, the lines of a file, the
-- packets that come.
--
-- Concurrency. The idle tracker of the server, the alarm, both proxies and the handlers of TCP and
-- UDP connections in the client are step relations whose steps are single atomic operations of
-- their goroutines; what a kernel or a peer may do is a step of its own. The UDP forwarder and the
-- copy loops with their bytes are each one goroutine, and what the others do to it comes as events
-- or answers. Handlers hand over to the proxies of xnet by an action.
--
-- Parameters. net.ParseIP, net.IP.String, the dial, pflag, JSON, YAML and merge patches, the pod
-- client and the rest of the Kubernetes API are arguments: functions, or the list of the answers that
-- they give.
--
-- Not modelled: the registration of flags and commands, logging, help texts and buffer pools, which
-- pass values to libraries.
pub mod Prelude
pub mod Golib
pub mod Xio
pub mod Xnet
pub mod Kube
pub mod Alarm
pub mod Ports
pub mod RemoteAddr
pub mod Client
pub mod Server
pub mod Tests
