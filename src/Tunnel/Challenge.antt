-- ===== src/Tunnel/Challenge.antt =====
-- internal/tunnel/handler.go: `HandleChallenge`, the reaper of the nonces, and what it shares with
-- `HandleProvision`. The JSON of the payloads, the random nonce and the relay are parameters.
use atreo_agent.Base.{
  ℕ, ◌+◌, ◌*◌, ◌/◌, Text, lit, is_empty, ltb, [], ◌∷◌, Option, none, some, Map, insert,
  if◌then◌else◌,
}
use atreo_agent.Base.Result.{Result, ok, failed, ◌>>=◌, need, map_error}
use atreo_agent.Acl.{Store}
use atreo_agent.Wireguard.Server.{PeerError}
use atreo_agent.Tunnel.Verify.{
  TunnelMessage, VerifyError, CommandEnvelopeFields, member_auth, verify_command,
}
use atreo_agent.Tunnel.Lease.{TunnelIpLease, LeaseError}
use atreo_agent.Tunnel.Wire.{int64, joined}
use atreo_agent.Tunnel.Transcript.{TranscriptError}
use atreo_agent.Tunnel.State.{Libraries, Identity}
use atreo_agent.Tunnel.Handlers.{Handlers, NonceEntry, World}

pub record ChallengePayload : Type 0 where
  pub fields : CommandEnvelopeFields
  pub membership_id : Text
  pub member_id : Text
  pub client_id : Text
  pub client_key : Text
  pub identity_key : Text

pub record ProvisionPayload : Type 0 where
  pub fields : CommandEnvelopeFields
  pub member_id : Text
  pub membership_id : Text
  pub client_id : Text
  pub client_key : Text
  pub nonce : Text
  pub identity_key : Text
  pub challenge_correl_id : Text

pub record ProvisionResponsePayload : Type 0 where
  pub server_public_key : Text
  pub tunnel_ip : Text
  pub tunnel_ipv6 : Text
  pub listen_port : ℕ
  pub endpoint : Text
  pub allowed_ips : Text
  pub persistent_keepalive : ℕ
  pub nas_signature : Text
  pub ip_lease : TunnelIpLease

-- Five minutes: `shortLivedTTL`, and the age of a nonce that a provision may use.
abbrev pub short_lived_ttl : ℕ
short_lived_ttl = 5 * 60 * 1_000_000_000

-- The decoders and writers of the payloads, encoding/hex, and `tunnelHost`; `relay` is what the
-- callback of `SetRelayEndpoint` gives, `none` when it is not set or not in use.
pub record Rpc : Type 0 where
  pub challenge : Text → Option ChallengePayload
  pub provision : Text → Option ProvisionPayload
  pub write_nonce : Text → Text
  pub write_response : ProvisionResponsePayload → Text
  pub hex : Text → Option Text
  pub tunnel_host : Text
  pub relay : Option Text

pub data ProvisionError : Type 0 where
  no_tunnel_host bad_payload no_nonce nonce_expired nonce_mismatch : ProvisionError
  no_randomness no_address unknown_member : ProvisionError
  command_refused : VerifyError → ProvisionError
  peer_refused : PeerError → ProvisionError
  unsigned : TranscriptError → ProvisionError
  unleased : LeaseError → ProvisionError

-- `if a == "" { a = b }`
unfoldable pub or_else : Text → Text → Text
or_else a b = if is_empty a then b else a

-- `Range` with `Delete`: what was created before the cutoff goes.
unfoldable pub reap : ℕ → Map NonceEntry → Map NonceEntry
reap now [] = []
reap now ((id, e) ∷ m) =
    let rest = reap now m in
    if ltb (e.created_at + short_lived_ttl) now then rest else (id, e) ∷ rest

module _ (l : Libraries) (i : Identity) (w : World) (q : Rpc) where
  -- `verifyCommand` for a member, by the clock in seconds.
  unfoldable pub member_command :
      Store → TunnelMessage → Text → CommandEnvelopeFields → Text → Result {0, 0} VerifyError Unit
  member_command s msg member fields intent =
      verify_command l.crypto l.codec s (w.now / 1_000_000_000) msg (member_auth member) fields
        intent

  -- The checks of `HandleChallenge`: the member, and the payload.
  unfoldable pub check_challenge :
      Store → TunnelMessage → Result ProvisionError (Text × ChallengePayload)
  unfolding member_command or_else
  check_challenge s msg = do
    payload ← need (q.challenge msg.payload) bad_payload
    let member = or_else payload.membership_id payload.member_id
    let intent =
        joined (lit "wg:challenge") (member ∷ l.digits (int64 payload.fields.timestamp) ∷ [])
    _ ← map_error command_refused (member_command s msg member payload.fields intent)
    ok (member, payload)

  -- `HandleChallenge`; `nonce` is what `GenerateNonce` gives.
  unfoldable pub handle_challenge :
      Option Text → TunnelMessage → Handlers → Handlers × Result ProvisionError TunnelMessage
  unfolding check_challenge
  handle_challenge nonce msg h = elim (check_challenge h.acl msg) [
    | failed e ↦ (h, failed e)
    | ok found ↦ elim nonce [
      | none ↦ (h, failed no_randomness)
      | some nonce ↦ (
        record h {
          nonces =
              insert msg.correlation_id
                (record {
                  nonce = nonce;
                  member_id = found.0;
                  client_key = found.1.client_key;
                  created_at = w.now;
                })
                h.nonces;
        },
        ok (record {
          type = lit "wg:challenge:nonce";
          correlation_id = msg.correlation_id;
          payload = q.write_nonce nonce;
          signer_id = [];
          signature = [];
        }),
      )
    ]
  ]
