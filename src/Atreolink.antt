-- ===== src/Atreolink.antt =====
-- internal/atreolink/client.go: the data that the coordination service and the agent exchange, and
-- the slug of an app. A Go slice that is nil and one that is empty are both the empty list here.
pub mod Slug
use atreo_agent.Base.{Bool, Text, lit, List, Option, is_empty, ◌==◌, if◌then◌else◌}
use atreo_agent.Base.Int.{ℤ}
pub use Slug.{Unicode}
unfoldable pub use Slug.{slugify}

pub record App : Type 0 where
  pub id : Text
  pub name : Text
  pub slug : Text
  pub internal_url : Text
  pub icon : Text
  pub type : Text
  pub port : ℤ
  pub protocol : Text

unfoldable pub is_port_app : App → Bool
is_port_app a = a.type == lit "port"

unfoldable pub effective_slug : Unicode → App → Text
effective_slug u a = if is_empty a.slug then slugify u a.name else a.slug

pub record JoinAttestation : Type 0 where
  pub invite_payload : Text
  pub owner_sig : Text
  pub acceptance_sig : Text

pub record AdmittanceCertificate : Type 0 where
  pub member_id : Text
  pub identity_key : Text
  pub nas_pubkey : Text
  pub admitted_at : ℤ
  pub attestation_hash : Text
  pub initial_allowed_app_ids : List Text
  pub signature : Text

pub record ClientRecord : Type 0 where
  pub wg_public_key : Text
  pub tunnel_ip : Text
  pub tunnel_ipv6 : Text
  pub label : Text
  pub platform : Text
  pub endpoint_type : Text

pub record MemberAclEntry : Type 0 where
  pub member_id : Text
  pub user_id : Text
  pub member_name : Text
  pub email : Text
  pub role : Text
  pub identity_key : Text
  pub identity_key_proof : Option Text
  pub join_attestation : Option JoinAttestation
  pub admittance : Option AdmittanceCertificate
  pub clients : List ClientRecord
  pub allowed_apps : List App
  pub status : Text
