-- ===== src/Lib.antt =====
-- atreoAGENT: the agent that runs beside a home server, keeps the access-control list of the people its
-- owner has invited, gives each of their devices an address in a WireGuard overlay, confines them with
-- iptables, and acts on what a coordination service relays to it only where a key that the service does
-- not hold has signed it.
--
-- The parts that are modelled, how they interact, and where:
--   internal/atreolink/client.go  Atreolink, Atreolink/Slug: the data that the parts exchange and the slug
--     of an app.
--   internal/acl/store.go  Acl and below: the access-control store. `Store` is the struct, one function
--     per method: Members (pin, ReplaceAll, UpsertMember, SetAllowedApps, SetMemberStatus, RemoveMember,
--     DropMembersFailing), Clients (AddClient, RemoveClient), Apps (SetAppDefinitions, RemoveAppByID),
--     Reconcile (Reconcile, SetAppliedGeneration), Access (IsAppAllowed, IsPortAppAllowed, PortGrants),
--     Persist (Load, Save), Run (the calls as one step). The modules below these have the proofs.
--   internal/wireguard/ip_allocator.go  Wireguard/Allocator: the addresses of the overlay; Unique,
--     Search, History, Canonical and Placed have its invariant, the search of `Allocate`, the histories,
--     the form of the addresses, and which of them lie in the subnet.
--   internal/wireguard/server.go  Wireguard/Addresses: the checks of keys and addresses; Wireguard/Server:
--     the device, its table of peers, and the commands of AddPeer, RemovePeer, Start and Stop; Peers and
--     Harmless have the histories of the first two.
--   internal/overlay/overlay.go  Overlay: the subnets of an installation; Draw has `Reroll` and the file,
--     Legacy `ExpandLegacy`.
--   internal/certs  Certs: registry.go and EnsureCert; Renewal: renewAll of manager.go and its alerts;
--     Served: the certificate that a client is given.
--   internal/relay/frame.go  Relay/Frame: the framing of the association with the relay.
--   internal/canonjson/canonjson.go  Canonjson: the bytes that are signed; Order and Null have its laws.
--   internal/tunnel  Tunnel: Verify (verify.go, and requireAdmin, requireMember of handler.go), which
--     reads the access-control store; Attestation (attestation.go), Lease (iplease.go), Admittance
--     (admittance.go), Liveness (devicestate.go: the watch that drops all peers when no verified state
--     arrives). On them stand the handlers, over one state `Handlers` that has the components of the
--     struct: Wire and State (the messages and the checks of a push: apps, State/Members, and the
--     addresses in State/Addresses), Handlers/Device (HandleDeviceState: the checked push goes into the
--     store, the peers, the firewall and the custom domain), Domain (reconcileCustomDomain and
--     internal/store/customdomain.go), Challenge (HandleChallenge), Provision (HandleProvision) with Transcript
--     (SignProvisionResponse of internal/crypto/keys.go), and Commands (HandleUnpaired, the two commands
--     on the notification key, HandleHeartbeatAck). State/Vouched says what a checked push is worth,
--     Handlers/Applied and Handlers/Kept have a push that is applied and one that is not.
--   internal/firewall/firewall.go  Firewall: the commands that build and clear the two chains.
--   internal/agent/reachability.go  Agent/Reachability: how the agent is reached, and the loop of
--     `reportTransport` in internal/agent/agent.go that reports it; Debounce has its laws.
-- Base has what all of them share: texts as lists of bytes, maps as association lists, base64, results.
--
-- A method that runs under a lock is one step. Go's `int` is an integer without bound, but where the
-- source's arithmetic can wrap (the int64 timestamp of a command) the 64-bit word is written out.
-- Loops are recursion on the list or the counter they run over; only the decimal writer has fuel, one
-- more than the number itself, which has fewer digits, and so has the loop of `Reroll`, one more than
-- the number of random draws, of which each round takes at least one.
--
-- Parameters, since their code is not in the repository: Go's Unicode tables (`Unicode`), crypto/ed25519
-- and crypto/sha256 (`Crypto`), encoding/json (`Codec`, `Parsers`), net/netip (`Address`), package
-- net (`Net` of the overlay and of the server), encoding/hex, compress/gzip and net/url (`Decoders`, `Rpc`),
-- the ACME client and the files of a certificate (`Issuing`, `Files`), and whether a command of
-- iptables, wg or ip succeeds (`Host`). What a theorem relies on of them is a hypothesis of it, such as
-- `SignsTruly`.
--
-- Not modelled: the rest of the agent's wiring, the WebSocket client and the relay's sockets, the HTTP
-- proxy, SMTP and notification servers, the rate limiter (float64 arithmetic), the ACME exchange, the
-- generation and storage of keys, the endpoint and port-mapping clients, configuration, logging, and the command line; these are mostly
-- input and output. Of the files the parts keep, what is read and written is modelled, not the disk. The
-- read loop of the tunnel handles one message after the other, so a handler is one step; what other
-- goroutines do to the components meanwhile is not modelled.
pub mod Base
pub mod Atreolink
pub mod Acl
pub mod Wireguard
pub mod Certs
pub mod Overlay
pub mod Relay
pub mod Canonjson
pub mod Tunnel
pub mod Firewall
pub mod Agent
