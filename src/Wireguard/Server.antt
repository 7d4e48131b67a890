-- ===== src/Wireguard/Server.antt =====
-- internal/wireguard/server.go: the WireGuard device and its peers. The `wg` and `ip` commands are run
-- on a `Host` as in internal/firewall, and recorded with the latest first; package net of Go is a
-- parameter. Each method runs under the lock, so a method is one step.
pub mod Peers
pub mod Harmless
mod Tests
use atreo_agent.Base.{
  ℕ, zero, suc, Bool, true, false, not, ◌||◌, Text, lit, is_empty, ◌==◌, has_prefix, decimal, eqb,
  ltb, length, take, get_elem?, List, [], ◌∷◌, ◌++◌, Option, none, some, Map, lookup, insert,
  delete, if◌then◌else◌,
}
use atreo_agent.Base.Result.{Result, ok, failed, ◌>>=◌, require, need}
use atreo_agent.Base.Base64.{decode, encode}
use atreo_agent.Firewall.{Command, Host, run}
use atreo_agent.Wireguard.Addresses.{
  Net, KeyError, validate_wg_public_key, validate_tunnel_ipv4, validate_tunnel_ipv6,
  derive_tunnel_ipv6, v6_prefix_len,
}
use atreo_agent.Overlay.{legacy_gateway_v4, legacy_gateway_v6}

pub record Peer : Type 0 where
  pub public_key : Text
  pub tunnel_ip : Text
  pub tunnel_ipv6 : Text

-- The keys' directory is left out, and so is the allocator, which the server does not call.
pub record Server : Type 0 where
  pub listen_port : ℕ
  pub server_ip : Text
  pub subnet : Text
  pub server_ipv6 : Text
  pub subnet_v6 : Text
  pub iface : Text
  pub public_key : Text
  pub peers : Map Peer
  pub running : Bool

-- `TunnelIPv6`
unfoldable pub tunnel_ipv6 : Net → Server → Text → Text
unfolding derive_tunnel_ipv6 validate_tunnel_ipv6
tunnel_ipv6 n s ip =
    if is_empty s.server_ipv6 then [] else elim (derive_tunnel_ipv6 n s.server_ipv6 ip) [
      | none ↦ []
      | some v6 ↦ if validate_tunnel_ipv6 n v6 then v6 else []
    ]

-- `AllowedIPs`
unfoldable pub allowed_ips : Server → Text
allowed_ips s = if is_empty s.subnet_v6 then s.subnet else s.subnet ++ b',' ∷ s.subnet_v6

-- `PublicKey`
unfoldable pub public_key_base64 : Server → Text
public_key_base64 s = encode s.public_key

pub data PeerError : Type 0 where
  bad_key : KeyError → PeerError
  bad_tunnel_ip wg_failed : PeerError

-- The server, the commands run so far, and the error if there is one.
abbrev pub Ran : Type 0
Ran = Server × List Command × Option PeerError

unfoldable pub set_peer_args : Text → Text → Text → Text → List Text
set_peer_args iface key ip v6 =
    lit "set"
    ∷ iface
    ∷ lit "peer"
    ∷ key
    ∷ lit "allowed-ips"
    ∷ (if is_empty v6 then ip ++ lit "/32" else (ip ++ lit "/32") ++ b',' ∷ v6 ++ lit "/128")
    ∷ []

unfoldable pub drop_peer_args : Text → Text → List Text
drop_peer_args iface key = lit "set" ∷ iface ∷ lit "peer" ∷ key ∷ lit "remove" ∷ []

unfoldable pub route_args : Text → Text → Text → List Text
route_args verb iface ip = lit "route" ∷ verb ∷ (ip ++ lit "/32") ∷ lit "dev" ∷ iface ∷ []

unfoldable pub route6_args : Text → Text → Text → List Text
route6_args verb iface v6 =
    lit "-6" ∷ lit "route" ∷ verb ∷ (v6 ++ lit "/128") ∷ lit "dev" ∷ iface ∷ []

module _ (h : Host) (n : Net) where
  -- The routes of one peer, whose failures are only logged.
  unfoldable pub run_routes : Text → Text → Text → Text → List Command → List Command
  unfolding route_args route6_args
  run_routes verb iface ip v6 log =
      let log1 = (run h (lit "ip") (route_args verb iface ip) log).0 in
      if is_empty v6 then log1 else (run h (lit "ip") (route6_args verb iface v6) log1).0

  -- `AddPeer` past its two checks.
  unfoldable pub install_peer : Text → Text → Server → List Command → Ran
  unfolding set_peer_args run_routes
  install_peer key ip s log =
      let v6 = tunnel_ipv6 n s ip in
      let (log1, good) = run h (lit "wg") (set_peer_args s.iface key ip v6) log in
      if not good then (s, log1, some wg_failed) else (
        record s {
          peers =
              insert key (record { public_key = key; tunnel_ip = ip; tunnel_ipv6 = v6 }) s.peers;
        },
        run_routes (lit "replace") s.iface ip v6 log1,
        none,
      )

  unfoldable pub add_peer : Text → Text → Server → List Command → Ran
  unfolding install_peer validate_tunnel_ipv4
  add_peer key ip s log = elim (validate_wg_public_key key) [
    | failed e ↦ (s, log, some (bad_key e))
    | ok _ ↦
        if validate_tunnel_ipv4 n ip
        then install_peer key ip s log
        else (s, log, some bad_tunnel_ip)
  ]

  -- `RemovePeer`; what the commands come to is only logged, and the result is always nil.
  unfoldable pub remove_peer : Text → Server → List Command → Server × List Command
  unfolding drop_peer_args run_routes
  remove_peer key s log = elim (lookup key s.peers) [
    | none ↦ (s, log)
    | some peer ↦ (
      record s { peers = delete key s.peers },
      run_routes (lit "del") s.iface peer.tunnel_ip peer.tunnel_ipv6
          (run h (lit "wg") (drop_peer_args s.iface key) log).0,
    )
  ]

  unfoldable pub link_del : Text → List Text
  link_del iface = lit "link" ∷ lit "del" ∷ iface ∷ []

  unfoldable pub addr_add : Text → Text → List Text
  addr_add iface addr = lit "addr" ∷ lit "add" ∷ addr ∷ lit "dev" ∷ iface ∷ []

  -- A command that must succeed: otherwise the interface is deleted, and the start has failed.
  unfoldable pub must :
      Text → Text → List Text → List Command → Result (List Command) (List Command)
  unfolding link_del
  must iface bin args log =
      let (log1, good) = run h bin args log in
      if good then ok log1 else failed (run h (lit "ip") (link_del iface) log1).0

  -- The addresses that may be missing: the old gateway, and the two of IPv6.
  unfoldable pub legacy_alias : Server → List Command → List Command
  unfolding addr_add
  legacy_alias s log =
      if s.server_ip == legacy_gateway_v4
      then log
      else (run h (lit "ip") (addr_add s.iface (legacy_gateway_v4 ++ lit "/24")) log).0

  unfoldable pub v6_addresses : Server → List Command → List Command
  unfolding addr_add
  v6_addresses s log =
      let addr = s.server_ipv6 ++ b'/' ∷ decimal (v6_prefix_len n s.subnet_v6) in
      let log1 = (run h (lit "ip") (addr_add s.iface addr) log).0 in
      if is_empty s.server_ipv6
      then log
      else if s.server_ipv6 == legacy_gateway_v6
      then log1
      else (run h (lit "ip") (addr_add s.iface (legacy_gateway_v6 ++ lit "/64")) log1).0

  unfoldable pub succeeded : List Command × Bool → Result (List Command) (List Command)
  succeeded (log, true) = ok log
  succeeded (log, false) = failed log

  -- The commands of `Start` after the private key is on disk at `key_file`.
  unfoldable pub bring_up : Text → Server → List Command → Result (List Command) (List Command)
  unfolding must succeeded legacy_alias v6_addresses link_del addr_add
  bring_up key_file s log = do
    let log0 = (run h (lit "ip") (link_del s.iface) log).0
    log1 ← succeeded (
        run h (lit "ip") (lit "link" ∷ lit "add" ∷ s.iface ∷ lit "type" ∷ lit "wireguard" ∷ [])
          log0)
    log2 ←
        must s.iface (lit "wg")
          (lit "set"
            ∷ s.iface
            ∷ lit "private-key"
            ∷ key_file
            ∷ lit "listen-port"
            ∷ decimal s.listen_port
            ∷ [])
          log1
    log3 ← must s.iface (lit "ip") (addr_add s.iface (s.server_ip ++ lit "/24")) log2
    must s.iface (lit "ip") (lit "link" ∷ lit "set" ∷ s.iface ∷ lit "up" ∷ [])
        (v6_addresses s (legacy_alias s log3))

  -- `Start`; `written` tells whether the file of the private key could be written.
  unfoldable pub start : Bool → Text → Server → List Command → Server × List Command × Bool
  unfolding bring_up
  start written key_file s log =
      if s.running || not written then (s, log, false) else elim (bring_up key_file s log) [
        | ok log' ↦ (record s { running = true }, log', true)
        | failed log' ↦ (s, log', false)
      ]

  -- `Stop`
  unfoldable pub stop : Server → List Command → Server × List Command
  unfolding link_del
  stop s log =
      if s.running
      then (record s { running = false }, (run h (lit "ip") (link_del s.iface) log).0)
      else (s, log)
