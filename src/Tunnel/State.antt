-- ===== src/Tunnel/State.antt =====
-- internal/tunnel/devicestate.go: `HandleDeviceState`, in the stages of the source. First the checks of every
-- item of the push, which change nothing.
pub mod Members
pub mod Addresses
pub mod Vouched
use atreo_agent.Base.{
  ℕ, ◌/◌, Bool, true, false, not, ◌&&◌, ◌||◌, Text, lit, is_empty, ◌==◌, eqb, length, List, [], ◌∷◌,
  ◌++◌, Option, none, some, Map, lookup, if◌then◌else◌,
}
use atreo_agent.Base.Int.{ℤ, pos, is_port}
use atreo_agent.Base.Result.{Result, ok, failed, ◌>>=◌, require, need, map_error}
use atreo_agent.Base.Base64.{encode, decode}
use atreo_agent.Canonjson.{Json, Codec}
use atreo_agent.Atreolink.{App, AdmittanceCertificate, is_port_app}
use atreo_agent.Acl.{Store, StoreError}
use atreo_agent.Acl.Apps.{apps_by_id}
use atreo_agent.Tunnel.{Crypto, public_key_size}
use atreo_agent.Tunnel.Verify.{
  VerifyError, CommandEnvelopeFields, attested_auth, verify_authorization,
}
use atreo_agent.Tunnel.Attestation.{Parsers, InviteError}
use atreo_agent.Tunnel.Admittance.{AdmittanceError}
use atreo_agent.Tunnel.Wire.{
  Decoders, DsEnvelope, as_message, DsApp, AppUpsertedPayload, int64, joined,
}

pub data AppError : Type 0 where
  port_out_of_range protocol_not_allowed bad_url scheme_not_allowed no_host : AppError

pub data StateError : Type 0 where
  undecoded wrong_device no_owner : StateError
  app_payload : StateError
  app_signature : VerifyError → StateError
  app_invalid : AppError → StateError
  member_admittance : AdmittanceError → StateError
  no_admission bad_invite_encoding bad_identity_key : StateError
  member_admission : InviteError → StateError
  status_payload status_other_member status_invalid : StateError
  status_signature : VerifyError → StateError
  permissions_payload permissions_other_member : StateError
  permissions_signature : VerifyError → StateError
  client_payload client_mismatch : StateError
  client_signature : VerifyError → StateError
  no_address : StateError
  store_refused : StoreError → StateError

-- The libraries that the handler calls.
pub record Libraries : Type 0 where
  pub crypto : Crypto
  pub codec : Codec
  pub first : Json → Text
  pub digits : ℤ → Text
  pub invites : Parsers
  pub decoders : Decoders

-- `deviceID`, and the key pair of `keyManager`.
pub record Identity : Type 0 where
  pub device_id : Text
  pub private_key : Text

unfoldable pub nas_key : Libraries → Identity → Text
nas_key l i = l.crypto.public_of i.private_key

unfoldable pub nas_key_base64 : Libraries → Identity → Text
unfolding nas_key
nas_key_base64 l i = encode (nas_key l i)

-- `validateInternalURL`
unfoldable pub validate_internal_url : Decoders → Text → Result {0, 0} AppError Unit
validate_internal_url d raw = do
  url ← need (d.url raw) bad_url
  _ ← require (url.0 == lit "http" || url.0 == lit "https") scheme_not_allowed
  require (not (is_empty url.1)) no_host

unfoldable pub allowed_protocol : Text → Bool
allowed_protocol p = p == lit "tcp" || (p == lit "udp" || (p == lit "http" || p == lit "https"))

-- `validateApp`
unfoldable pub validate_app : Decoders → App → Result {0, 0} AppError Unit
unfolding validate_internal_url allowed_protocol
validate_app d a =
    if is_port_app a
    then (do
      _ ← require (is_port a.port) port_out_of_range
      require (allowed_protocol a.protocol) protocol_not_allowed)
    else validate_internal_url d a.internal_url

-- `decodeEd25519`; its two errors are one here.
unfoldable pub decode_ed25519 : Text → Option Text
decode_ed25519 b64 = elim (decode b64) [
  | none ↦ none
  | some raw ↦ if eqb (length raw) public_key_size then some raw else none
]

module _ (l : Libraries) (i : Identity) (s : Store) (owner : Text) where
  -- `verifyAuthorization` of an envelope under a key that is at hand.
  unfoldable pub signed_by :
      Text → Text → DsEnvelope → CommandEnvelopeFields → Text → Result {0, 0} VerifyError Unit
  signed_by key type env fields intent =
      verify_authorization l.crypto l.codec s (as_message env type) (attested_auth key) fields
        intent

  unfoldable pub app_intent : AppUpsertedPayload → Text
  app_intent ap = joined (lit "app:upserted") (i.device_id ∷ ap.app.id ∷ [])

  -- One round of the loop over the apps.
  unfoldable pub check_app : DsApp → Result StateError (List App)
  check_app da = elim da.envelope [
    | none ↦ ok []
    | some env ↦ do
      ap ← need (l.decoders.app env.payload) app_payload
      _ ←
          map_error app_signature
            (signed_by owner (lit "app:upserted") env ap.fields (app_intent ap))
      _ ← map_error app_invalid (validate_app l.decoders ap.app)
      ok (ap.app ∷ [])
  ]

  unfoldable pub check_apps : List DsApp → Result StateError (List App)
  check_apps [] = ok []
  check_apps (da ∷ das) = do found ← check_app da; rest ← check_apps das; ok (found ++ rest)

-- The apps of the catalogue with these ids, in the order of the ids.
unfoldable pub picked : Map App → List Text → List App
picked by_id [] = []
picked by_id (id ∷ ids) = elim (lookup id by_id) [
  | none ↦ picked by_id ids
  | some a ↦ a ∷ picked by_id ids
]
