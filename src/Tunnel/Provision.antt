-- ===== src/Tunnel/Provision.antt =====
-- internal/tunnel/handler.go: `HandleProvision`.
pub mod Once
pub mod Vetted
pub mod Provided
use atreo_agent.Base.{
  ℕ, ◌+◌, ◌*◌, ◌/◌, Bool, true, false, not, Text, lit, is_empty, ◌==◌, ltb, decimal, List, [], ◌∷◌,
  ◌++◌, Option, none, some, Map, lookup, insert, delete, if◌then◌else◌,
}
use atreo_agent.Base.Result.{Result, ok, failed, ◌>>=◌, require, need, map_error}
use atreo_agent.Atreolink.{ClientRecord}
use atreo_agent.Acl.{Store}
use atreo_agent.Acl.Clients.{add_client, remove_client}
use atreo_agent.Wireguard.Allocator.{allocate, release}
use atreo_agent.Wireguard.Server.{PeerError, add_peer, tunnel_ipv6, allowed_ips, public_key_base64}
use atreo_agent.Tunnel.Verify.{
  TunnelMessage, VerifyError, CommandEnvelopeFields, member_auth, verify_command,
}
use atreo_agent.Tunnel.Lease.{TunnelIpLease, LeaseError, mint_tunnel_ip_lease}
use atreo_agent.Tunnel.Wire.{int64, joined}
use atreo_agent.Tunnel.Transcript.{
  ProvisionTranscriptInput, TranscriptError, sign_provision_response,
}
use atreo_agent.Tunnel.Challenge.{
  ProvisionPayload, ProvisionResponsePayload, short_lived_ttl, Rpc, ProvisionError, no_tunnel_host,
  bad_payload, no_nonce, nonce_expired, nonce_mismatch, no_randomness, no_address, unknown_member,
  command_refused, peer_refused, unsigned, unleased, or_else, member_command,
}
use atreo_agent.Tunnel.State.{Libraries, Identity}
use atreo_agent.Tunnel.Handlers.{Handlers, NonceEntry, World, save}

abbrev pub wg_quick_persistent_keepalive : ℕ
wg_quick_persistent_keepalive = 25

module _ (l : Libraries) (i : Identity) (w : World) (q : Rpc) where
  -- The checks of `HandleProvision` on a nonce that was found.
  unfoldable pub check_provision :
      Store → TunnelMessage → ProvisionPayload → NonceEntry → Result {0, 0} ProvisionError Unit
  unfolding member_command
  check_provision s msg p e = do
    _ ← require (not (ltb (e.created_at + short_lived_ttl) w.now)) nonce_expired
    _ ← require (p.nonce == e.nonce) nonce_mismatch
    map_error command_refused (
        member_command l i w q s msg e.member_id p.fields (
          joined (lit "wg:provision")
            (e.member_id ∷ p.client_id ∷ p.nonce ∷ l.digits (int64 p.fields.timestamp) ∷ [])))

  unfoldable pub endpoint_of : Handlers → Text
  endpoint_of h = elim q.relay [
    | some endpoint ↦ endpoint
    | none ↦ q.tunnel_host ++ b':' ∷ decimal h.server.listen_port
  ]

  -- From the signature to the response.
  unfoldable pub respond :
      TunnelMessage → NonceEntry → Text → Text → Handlers → Result ProvisionError TunnelMessage
  unfolding endpoint_of
  respond msg e key ip h = do
    let v6 = tunnel_ipv6 w.net h.server ip
    sig ← map_error unsigned (
        sign_provision_response l.crypto q.hex i.private_key (record {
          nonce_hex = e.nonce;
          client_pub_key_b64 = key;
          device_id = i.device_id;
          server_pub_key_b64 = public_key_base64 h.server;
          tunnel_ip = ip;
          tunnel_ipv6 = v6;
          endpoint = endpoint_of h;
          allowed_ips = allowed_ips h.server;
          persistent_keepalive = wg_quick_persistent_keepalive;
        }))
    lease ←
        map_error unleased
          (mint_tunnel_ip_lease l.crypto l.codec l.first i.device_id key ip i.private_key)
    ok (record {
      type = lit "wg:provision:response";
      correlation_id = msg.correlation_id;
      payload = q.write_response (record {
        server_public_key = public_key_base64 h.server;
        tunnel_ip = ip;
        tunnel_ipv6 = v6;
        listen_port = h.server.listen_port;
        endpoint = endpoint_of h;
        allowed_ips = allowed_ips h.server;
        persistent_keepalive = wg_quick_persistent_keepalive;
        nas_signature = sig;
        ip_lease = lease;
      });
      signer_id = [];
      signature = [];
    })

  -- The peer is installed, or what was done before is undone.
  unfoldable pub install_peer :
      TunnelMessage
      → NonceEntry
      → Text
      → Text
      → Handlers
      → Handlers × Result ProvisionError TunnelMessage
  unfolding respond
  install_peer msg e key ip h =
      let (server, log, err) = add_peer w.host w.net key ip h.server h.log in
      let h' = record h { server = server; log = log } in
      elim err [
        | some why ↦ (
          record h' {
            acl = (remove_client w.unicode e.member_id key h.acl).0;
            allocator = release key h.allocator;
          },
          failed (peer_refused why),
        )
        | none ↦ (save w h', respond msg e key ip h')
      ]

  -- The client of an address goes into the store.
  unfoldable pub record_client :
      TunnelMessage
      → NonceEntry
      → Text
      → Text
      → Handlers
      → Handlers × Result ProvisionError TunnelMessage
  unfolding install_peer
  record_client msg e key ip h =
      let c : ClientRecord = record {
        wg_public_key = key;
        tunnel_ip = ip;
        tunnel_ipv6 = tunnel_ipv6 w.net h.server ip;
        label = [];
        platform = [];
        endpoint_type = [];
      } in
      let (s, known) = add_client w.unicode e.member_id c h.acl in
      if known
      then install_peer msg e key ip (record h { acl = s })
      else (record h { acl = s; allocator = release key h.allocator }, failed unknown_member)

  unfoldable pub provide :
      TunnelMessage → NonceEntry → Text → Handlers → Handlers × Result ProvisionError TunnelMessage
  unfolding record_client
  provide msg e key h =
      let (a, given) = allocate key h.allocator in
      let h' = record h { allocator = a } in
      elim given [ none ↦ (h', failed no_address) | some ip ↦ record_client msg e key ip h' ]

  -- With the nonce, which is used up whatever comes of it.
  unfoldable pub redeem :
      TunnelMessage
      → ProvisionPayload
      → Option NonceEntry
      → Handlers
      → Handlers × Result ProvisionError TunnelMessage
  unfolding check_provision provide or_else
  redeem msg p none h = (h, failed no_nonce)
  redeem msg p (some e) h = elim (check_provision h.acl msg p e) [
    | failed err ↦ (h, failed err)
    | ok _ ↦ provide msg e (or_else p.client_key e.client_key) h
  ]

  -- `LoadAndDelete`
  unfoldable pub with_nonce :
      TunnelMessage
      → ProvisionPayload
      → Text
      → Handlers
      → Handlers × Result ProvisionError TunnelMessage
  unfolding redeem
  with_nonce msg p id h =
      redeem msg p (lookup id h.nonces) (record h { nonces = delete id h.nonces })

  -- `HandleProvision`
  unfoldable pub handle_provision :
      TunnelMessage → Handlers → Handlers × Result ProvisionError TunnelMessage
  unfolding with_nonce or_else
  handle_provision msg h =
      if is_empty q.tunnel_host
      then (h, failed no_tunnel_host)
      else elim (q.provision msg.payload) [
        | none ↦ (h, failed bad_payload)
        | some p ↦ with_nonce msg p (or_else p.challenge_correl_id msg.correlation_id) h
      ]
