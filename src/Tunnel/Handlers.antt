-- ===== src/Tunnel/Handlers.antt =====
-- `Handlers` of internal/tunnel/handler.go, and the steps on the shared components of which the handlers
-- are made. A handler is one step; the goroutines that send upstream are the messages that they send.
pub mod Device
pub mod Applied
pub mod Kept
mod Samples
mod Tests
use atreo_agent.Base.{
  ℕ, ◌*◌, ◌/◌, ◌^◌, Bool, true, false, not, ◌&&◌, ◌||◌, Text, lit, is_empty, ◌==◌, List, [], ◌∷◌,
  ◌++◌, Option, none, some, Map, if◌then◌else◌,
}
use atreo_agent.Base.Int.{ℤ, pos, ltb_ℤ}
use atreo_agent.Base.Result.{Result, ok, failed, ◌>>=◌}
use atreo_agent.Atreolink.{Unicode, App, AdmittanceCertificate, ClientRecord, MemberAclEntry}
use atreo_agent.Acl.{Store, StoreError}
use atreo_agent.Acl.Apps.{apps_by_id}
use atreo_agent.Acl.Reconcile.{Report, reconcile, set_applied_generation}
use atreo_agent.Acl.Persist.{FileRead, contents, PersistedState, saved}
use atreo_agent.Wireguard.Allocator.{IpAllocator, release}
use atreo_agent.Wireguard.Addresses.{Net}
use atreo_agent.Wireguard.Server.{Server, add_peer, remove_peer}
use atreo_agent.Firewall.{Command, Host, Manager}
use atreo_agent.Tunnel.Verify.{TunnelMessage}
use atreo_agent.Tunnel.Admittance.{build_admittance_message}
use atreo_agent.Tunnel.Liveness.{LivenessState, mark_liveness}
use atreo_agent.Tunnel.Wire.{Decoders, DeviceState, DsCustomDomain}
use atreo_agent.Tunnel.State.{
  Libraries, Identity, StateError, undecoded, wrong_device, no_owner, no_address, store_refused,
  check_apps,
}
use atreo_agent.Tunnel.State.Members.{check_members}
use atreo_agent.Tunnel.State.Addresses.{address_members, members_with_v6}
use atreo_agent.Tunnel.Domain.{Domains, DomainWorld, reconcile_custom_domain}

-- `nonceEntry`; the time is in nanoseconds.
pub record NonceEntry : Type 0 where
  pub nonce : Text
  pub member_id : Text
  pub client_key : Text
  pub created_at : ℕ

-- The components that the handlers share, the commands run so far, the file of the ACL, and
-- `nonceStore`.
pub record Handlers : Type 0 where
  pub acl : Store
  pub allocator : IpAllocator
  pub server : Server
  pub log : List Command
  pub firewall : Manager
  pub domains : Domains
  pub live : LivenessState
  pub acl_file : FileRead PersistedState
  pub nonces : Map NonceEntry

-- The callback of `SetFirewallReconcile`; its error is only logged.
abbrev pub FirewallReconcile : Type 0
FirewallReconcile = Store → Manager → List Command → Manager × List Command

-- What surrounds the handlers. `domain` is `none` without a certificate manager; `saves` tells whether
-- the ACL can be written, `sends` whether there is a connection upstream; the clock is in nanoseconds.
pub record World : Type 0 where
  pub unicode : Unicode
  pub host : Host
  pub net : Net
  pub firewall_reconcile : Option FirewallReconcile
  pub domain : Option DomainWorld
  pub saves : Bool
  pub sends : Bool
  pub now : ℕ

module _ (w : World) where
  -- The pruned clients: kernel peer and address are gone.
  unfoldable pub drop_removed : List Text → Handlers → Handlers
  drop_removed [] h = h
  drop_removed (key ∷ keys) h =
      let (server, log) = remove_peer w.host w.net key h.server h.log in
      drop_removed keys
        (record h { server = server; log = log; allocator = release key h.allocator })

  unfoldable pub suspend_clients : List ClientRecord → Handlers → Handlers
  suspend_clients [] h = h
  suspend_clients (c ∷ cs) h =
      let (server, log) = remove_peer w.host w.net c.wg_public_key h.server h.log in
      suspend_clients cs
        (if is_empty c.wg_public_key then h else record h { server = server; log = log })

  -- An error of `AddPeer` is logged.
  unfoldable pub install_clients : List ClientRecord → Handlers → Handlers
  install_clients [] h = h
  install_clients (c ∷ cs) h =
      let (server, log, err) = add_peer w.host w.net c.wg_public_key c.tunnel_ip h.server h.log in
      install_clients cs (
        if is_empty c.wg_public_key || is_empty c.tunnel_ip
        then h
        else record h { server = server; log = log })

  unfoldable pub install_members : List MemberAclEntry → Handlers → Handlers
  unfolding suspend_clients install_clients
  install_members [] h = h
  install_members (m ∷ ms) h = install_members ms (
      if m.status == lit "suspended"
      then suspend_clients m.clients h
      else install_clients m.clients h)

  unfoldable pub reconcile_firewall : Handlers → Handlers
  reconcile_firewall h = elim w.firewall_reconcile [
    | none ↦ h
    | some f ↦ let (m, log) = f h.acl h.firewall h.log in record h { firewall = m; log = log }
  ]

  -- `Save`; its failure is logged.
  unfoldable pub save : Handlers → Handlers
  save h = if w.saves then record h { acl_file = contents (saved h.acl) } else h
