-- ===== src/Lib.antt =====
-- nexus-stun: a node of a WireGuard mesh that finds its public endpoint by STUN, relays packets for
-- peers behind NAT, answers DNS for the node names, and learns of its peers by MQTT heartbeats.
--
-- The program's parts and where they are modelled (paths are from the repository's root):
--
-- * config.go -> Config (the types), Config.Loading (LoadConfig, applyDefaults, GetPeer,
--   GetOtherPeers). Every other part reads the configuration. The file's content, os.ExpandEnv,
--   yaml.Unmarshal and os.Getenv are parameters. Numbers and durations are natural numbers, but the
--   heartbeat interval, which may be negative, is a signed integer (Common.Integers).
-- * stun.go -> Stun (buildBindingRequest, parseBindingResponse, parseXORMappedAddr, parseMappedAddr),
--   Stun.Client (Discover, bindingRequest, detectNATType, RunPeriodicDiscovery and the getters). The
--   network and the clock are one parameter: a world that `exchange` moves on.
-- * relay.go -> Relay (readMessage, sendMessage, readString, writeString on the bytes of a connection),
--   Relay.Server (the map of clients, handleClient's loop body, forwardToPeer), and
--   Relay.Server.Sessions, where the goroutines of handleClient are sessions that take steps in any
--   order over the one registry; Relay.Server.Registry sees the registry as a map from names to
--   connections. Relay.Listening has Start and buildTLSConfig, Relay.Client the client's connection, and
--   Relay.Client.EndToEnd runs client and server together.
-- * dns.go -> Dns (parseDNSName, encodeDNSName), Dns.Server (the packet builders, handleQuery,
--   handleNexusQuery, forwardToUpstream, the records), Dns.Server.Records (an account of the records),
--   Dns.Server.Serving (serveLoop, with the buffer that the goroutines of handleQuery share). Go's net.ParseCIDR and the exchange with an upstream
--   server are parameters.
-- * discovery.go -> Discovery (handleHeartbeat, handlePresence, checkPeerHealth, heartbeatLoop,
--   healthCheckLoop, the getters and the messages that are published); Discovery.Events runs the
--   handlers in any order, Discovery.Loops lets one node handle what another publishes, with
--   encoding/json as a parameter, and Discovery.Directory forgets the order of the entries and LastSeen.
-- * crypto.go -> Crypto (NewNoiseHandshake, WriteMessageA, ReadMessageA, ReadMessageB, Encrypt,
--   Decrypt). SHA-256, Curve25519 and ChaCha20-Poly1305 are one record of parameters, Primitives; what a
--   theorem needs of them is among its hypotheses. GenerateKeys of wireguard.go clamps its key in the
--   same way.
-- * wireguard.go -> WireGuard (the types, and the device as a record of what is called),
--   WireGuard.Keys (NewWireGuardManager, loadOrGenerateKeys, GenerateKeys over a file system that is a
--   parameter), WireGuard.Settings (the text that configures the device),
--   WireGuard.Manager (Start, AddPeer, UpdatePeerEndpoint, getNodeIP, Stop, the getters).
-- * dashboard.go -> Dashboard (the mesh state, the JSON handlers, the clients, broadcast and
--   UpdateMeshState), Dashboard.Sessions (the goroutines of handleWebSocket and of UpdateMeshState as
--   steps in any order), Dashboard.Serving (Start, the routes, RunDashboard).
-- * main.go -> Main: the seven commands, over LoadConfig, GenerateKeys and RunDashboard. Run, Teardown,
--   ShowStatus, ListPeers and RunDNS are called and not defined in the repository, and are parameters.
--
-- Common holds what the parts share: lists and tests on the native numbers, Go's slices and big-endian
-- words (an access out of range is a panic), maps as association lists, the forms of net.IP, and
-- strings.Split, strings.Join and strings.HasSuffix.
--
-- A call returns an Outcome: a value, an error, a panic, or, for a loop that is run on fuel, the end
-- of the fuel. Fuel is used in two places. parseBindingResponse gives its loop the length of the data
-- and one more, since every round moves the offset by four at least. parseDNSName takes the fuel as an
-- argument, since no bound holds for every packet: its recursion through pointers may not end.
--
-- Not modelled: sockets, tickers, logging, the JSON of the dashboard, the broker, the embedded page and the locks of a single
-- call (the steps of Relay.Server.Sessions, Dns.Server.Serving and Dashboard.Sessions are the sections
-- between them); cobra's parsing of flags; GetNet, which hands out netstack's network. Calls of
-- WireGuardManager run one after the other. The DNS cache is never read or written.
pub mod Common
pub mod Config
pub mod Stun
pub mod Relay
pub mod Dns
pub mod Discovery
pub mod Crypto
pub mod WireGuard
pub mod Dashboard
pub mod Main
pub mod Tests
