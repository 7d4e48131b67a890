-- ===== src/Tunnel/Wire.antt =====
-- internal/atreolink/client.go and internal/tunnel/handler.go: the pushed device state, and the payloads of
-- the signed envelopes. `json.Unmarshal` into each payload is a parameter.
use atreo_agent.Base.{ℕ, ◌-◌, ◌^◌, Text, List, [], ◌∷◌, ◌++◌, Option, ltb, if◌then◌else◌}
use atreo_agent.Base.Int.{ℤ, pos, negsuc}
use atreo_agent.Atreolink.{App, JoinAttestation, AdmittanceCertificate}
use atreo_agent.Tunnel.Verify.{TunnelMessage, CommandEnvelopeFields}
use atreo_agent.Tunnel.Lease.{TunnelIpLease}

pub record DsEnvelope : Type 0 where
  pub payload : Text
  pub signer_id : Text
  pub signature : Text

unfoldable pub as_message : DsEnvelope → Text → TunnelMessage
as_message e type = record {
  type = type;
  correlation_id = [];
  payload = e.payload;
  signer_id = e.signer_id;
  signature = e.signature;
}

pub record DsClient : Type 0 where
  pub wg_public_key : Text
  pub label : Text
  pub platform : Text
  pub registration_envelope : Option DsEnvelope
  pub ip_lease : Option TunnelIpLease
  pub endpoint_type : Text

pub record DsMember : Type 0 where
  pub member_id : Text
  pub user_id : Text
  pub member_name : Text
  pub email : Text
  pub role : Text
  pub identity_key : Text
  pub join_attestation : Option JoinAttestation
  pub admittance : Option AdmittanceCertificate
  pub status_envelope : Option DsEnvelope
  pub permissions_envelope : Option DsEnvelope
  pub clients : List DsClient

pub record DsApp : Type 0 where
  pub id : Text
  pub name : Text
  pub slug : Text
  pub internal_url : Text
  pub icon : Text
  pub envelope : Option DsEnvelope

pub record DsCustomDomain : Type 0 where
  pub envelope : DsEnvelope

pub record DeviceState : Type 0 where
  pub device_id : Text
  pub generation : ℤ
  pub members : List DsMember
  pub apps : List DsApp
  pub custom_domain : Option DsCustomDomain

pub record ClientRegisterPayload : Type 0 where
  pub fields : CommandEnvelopeFields
  pub device_id : Text
  pub member_id : Text
  pub public_key : Text
  pub client_name : Text
  pub platform : Text

pub record MemberPermissionsPayload : Type 0 where
  pub fields : CommandEnvelopeFields
  pub device_id : Text
  pub member_id : Text
  pub allowed_app_ids : List Text

pub record MemberStatusPayload : Type 0 where
  pub fields : CommandEnvelopeFields
  pub device_id : Text
  pub member_id : Text
  pub status : Text
  pub changed_at : Text

pub record AppUpsertedPayload : Type 0 where
  pub fields : CommandEnvelopeFields
  pub device_id : Text
  pub app : App

pub record CustomDomainSetPayload : Type 0 where
  pub fields : CommandEnvelopeFields
  pub device_id : Text
  pub parent_zone : Text
  pub acted_at : Text

-- `json.Unmarshal`, gzip behind an `io.LimitReader`, and the scheme and the host that
-- `url.Parse` finds.
pub record Decoders : Type 0 where
  pub base64_string : Text → Option Text
  pub gunzip : ℕ → Text → Option Text
  pub state : Text → Option DeviceState
  pub app : Text → Option AppUpsertedPayload
  pub status : Text → Option MemberStatusPayload
  pub permissions : Text → Option MemberPermissionsPayload
  pub registration : Text → Option ClientRegisterPayload
  pub custom_domain : Text → Option CustomDomainSetPayload
  pub url : Text → Option (Text × Text)

-- The int64 of a 64-bit word.
unfoldable pub int64 : ℕ → ℤ
int64 w = if ltb w (2 ^ 63) then pos w else negsuc (2 ^ 64 - 1 - w)

-- The parts of an intent, with a dash between them.
unfoldable pub joined : Text → List Text → Text
joined part [] = part
joined part (next ∷ parts) = part ++ b'-' ∷ joined next parts
