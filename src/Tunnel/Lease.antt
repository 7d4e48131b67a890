-- ===== src/Tunnel/Lease.antt =====
-- internal/tunnel/iplease.go: the agent's own signature on which tunnel address a client has.
pub mod Binding
use atreo_agent.Base.{
  ℕ, Bool, true, not, ◌||◌, Text, lit, is_empty, ◌==◌, eqb, length, List, Option, none, some,
}
use atreo_agent.Base.Result.{Result, ok, failed, ◌>>=◌, require, need}
use atreo_agent.Base.Base64.{encode, decode}
use atreo_agent.Canonjson.{Json, string, object, field, end, Codec, CanonError, marshal}
use atreo_agent.Tunnel.{Crypto, private_key_size}

pub record TunnelIpLease : Type 0 where
  pub device_id : Text
  pub wg_public_key : Text
  pub tunnel_ip : Text
  pub nas_signature : Text

pub data LeaseError : Type 0 where
  nil_lease empty_field wrong_signer_size bad_body : LeaseError
  wrong_device wrong_key empty_ip : LeaseError
  empty_signature bad_signature_encoding no_key bad_signature : LeaseError

unfoldable pub lease_value : Text → Text → Text → Json
lease_value device wg ip = object (
    field (lit "deviceId") (string device)
      (field (lit "wgPublicKey") (string wg) (field (lit "tunnelIp") (string ip) end)))

module _ (k : Crypto) (c : Codec) (first : Json → Text) where
  unfoldable pub lease_signed_bytes : Text → Text → Text → Result CanonError Text
  lease_signed_bytes device wg ip = marshal c first (lease_value device wg ip)

  unfoldable pub lease_body : Text → Text → Text → Result LeaseError Text
  lease_body device wg ip = elim (lease_signed_bytes device wg ip) [
    | ok body ↦ ok body
    | failed e ↦ failed bad_body
  ]

  -- `MintTunnelIPLease`
  unfoldable pub mint_tunnel_ip_lease : Text → Text → Text → Text → Result LeaseError TunnelIpLease
  mint_tunnel_ip_lease device wg ip signer = do
    _ ← require (not (is_empty device || (is_empty wg || is_empty ip))) empty_field
    _ ← require (eqb (length signer) private_key_size) wrong_signer_size
    body ← lease_body device wg ip
    ok (record {
      device_id = device;
      wg_public_key = wg;
      tunnel_ip = ip;
      nas_signature = encode (k.sign signer body);
    })

  -- `VerifyTunnelIPLease`; `none` for the key is nil.
  unfoldable pub verify_tunnel_ip_lease :
      Option TunnelIpLease → Text → Text → Option Text → Result {0, 0} LeaseError Unit
  verify_tunnel_ip_lease lease device wg nas_pub = do
    l ← need lease nil_lease
    _ ← require (l.device_id == device) wrong_device
    _ ← require (l.wg_public_key == wg) wrong_key
    _ ← require (not (is_empty l.tunnel_ip)) empty_ip
    _ ← require (not (is_empty l.nas_signature)) empty_signature
    sig ← need (decode l.nas_signature) bad_signature_encoding
    body ← lease_body l.device_id l.wg_public_key l.tunnel_ip
    key ← need nas_pub no_key
    require (k.verify key body sig) bad_signature
