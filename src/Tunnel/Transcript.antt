-- ===== src/Tunnel/Transcript.antt =====
-- internal/crypto/keys.go: the bytes that the agent signs for a client, `serverTranscriptV2` and
-- `SignProvisionResponse`. encoding/hex is a parameter.
use atreo_agent.Base.{ℕ, Text, lit, ◌++◌, Option, decimal}
use atreo_agent.Base.Result.{Result, ok, ◌>>=◌, need}
use atreo_agent.Base.Base64.{encode, decode}
use atreo_agent.Tunnel.{Crypto}

pub record ProvisionTranscriptInput : Type 0 where
  pub nonce_hex : Text
  pub client_pub_key_b64 : Text
  pub device_id : Text
  pub server_pub_key_b64 : Text
  pub tunnel_ip : Text
  pub tunnel_ipv6 : Text
  pub endpoint : Text
  pub allowed_ips : Text
  pub persistent_keepalive : ℕ

pub data TranscriptError : Type 0 where
  bad_nonce bad_client_key bad_server_key : TranscriptError

-- What goes into the hash, one write after the other.
unfoldable pub transcript_bytes : Text → Text → Text → ProvisionTranscriptInput → Text
transcript_bytes nonce client server t =
    lit "atreos-wg-server-v2"
    ++ nonce
    ++ client
    ++ t.device_id
    ++ server
    ++ t.tunnel_ip
    ++ t.tunnel_ipv6
    ++ t.endpoint
    ++ t.allowed_ips
    ++ decimal t.persistent_keepalive

module _ (k : Crypto) (hex : Text → Option Text) where
  unfoldable pub server_transcript_v2 : ProvisionTranscriptInput → Result TranscriptError Text
  server_transcript_v2 t = do
    nonce ← need (hex t.nonce_hex) bad_nonce
    client ← need (decode t.client_pub_key_b64) bad_client_key
    server ← need (decode t.server_pub_key_b64) bad_server_key
    ok (k.sha256 (transcript_bytes nonce client server t))

  unfoldable pub sign_provision_response :
      Text → ProvisionTranscriptInput → Result TranscriptError Text
  unfolding server_transcript_v2
  sign_provision_response key t = do
    transcript ← server_transcript_v2 t
    ok (encode (k.sign key transcript))
