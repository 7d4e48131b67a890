-- ===== src/Tunnel/State/Vouched.antt =====
-- internal/tunnel/devicestate.go: what the checks of `HandleDeviceState` establish of an app and of a member
-- that pass them.
pub mod Admissions
pub mod Catalogue
pub mod Checks
pub mod Permissions
use atreo_agent.Base.{
  ℕ, Bool, true, false, not, ◌&&◌, ◌||◌, Text, lit, is_empty, ◌==◌, ==_iff, List, [], ◌∷◌, ◌++◌,
  Option, none, some, Map, lookup, insert, lookup-insert, All, any, All-append, ◌≡◌, ◌⊎◌, refl,
  arith, subst, Option-cases, Bool-cases, inl, inr,
}
use atreo_agent.Base.Result.{
  Result, ok, failed, ◌>>=◌, require, need, map_error, OnOk, OnOk-of, OnOk-bind, OnOk-need,
  OnOk-map_error, OnOk-require, OnOk-known, Result-cases,
}
use atreo_agent.Atreolink.{
  App, JoinAttestation, AdmittanceCertificate, ClientRecord, MemberAclEntry,
}
use atreo_agent.Acl.{Store, is_admin_role}
use atreo_agent.Acl.Apps.{apps_by_id}
use atreo_agent.Tunnel.Attestation.{InvitePayload, verify_join_attestation}
use atreo_agent.Tunnel.Admittance.{verify_admittance_certificate}
use atreo_agent.Tunnel.Wire.{
  DsEnvelope, DsApp, DsClient, DsMember, AppUpsertedPayload, ClientRegisterPayload,
  MemberPermissionsPayload, MemberStatusPayload, int64, joined,
}
use atreo_agent.Tunnel.State.{
  StateError, status_invalid, bad_identity_key, permissions_payload, permissions_other_member,
  permissions_signature, app_payload, app_signature, app_invalid, Libraries, Identity, nas_key,
  nas_key_base64, signed_by, app_intent, check_app, check_apps, validate_app, decode_ed25519,
  picked,
}
use atreo_agent.Tunnel.State.Members.{
  Admission, Checked, base_entry, stored_certificate, certified, minted, invited, admission,
  admission_of, status_intent, permissions_intent, check_status, check_permissions, client_intent,
  note_lease, client_record, check_client, check_clients, check_member, check_members,
}

-- The id of the app is one of these.
abbrev pub Listed : List Text → App → Type 0
Listed ids a = any (λ id. id == a.id) ids ≡ true

module _ (l : Libraries) (i : Identity) (s : Store) (owner : Text) where
  -- An envelope for this device and this app, under the owner's key, carries the app; the app is valid.
  pub record AppSigned (a : App) : Type 0 where
    pub env : DsEnvelope
    pub payload : AppUpsertedPayload
    pub decodes : l.decoders.app env.payload ≡ some payload
    pub carries : payload.app ≡ a
    pub signed :
        signed_by l i s owner owner
          (lit "app:upserted")
          env
          payload.fields
          (app_intent l i s owner payload)
        ≡ ok tt
    pub valid : validate_app l.decoders a ≡ ok tt

module _ (l : Libraries) (i : Identity) (s : Store) (owner : Text) (now : ℕ) where
  -- Why a member is in: it is an admin, or the agent's own certificate names it and its key, or the
  -- owner's invite and its acceptance verify for its key.
  pub data Entitled (role id identity : Text) : Type 0 where
    by_role : is_admin_role role ≡ true → Entitled role id identity
    by_certificate :
        (cert : AdmittanceCertificate) {u : Unit {0}}
        → verify_admittance_certificate l.crypto l.codec l.first l.digits
            (some cert)
            id
            identity
            (nas_key_base64 l i)
            (some (nas_key l i))
          ≡ ok u
        → Entitled role id identity
    by_invite :
        (e : MemberAclEntry) (inv : InvitePayload)
        → e.identity_key ≡ identity
        → verify_join_attestation l.crypto l.codec l.invites e (some owner) (nas_key_base64 l i) now
          ≡ ok inv
        → Entitled role id identity

  -- An envelope under the owner's key gives the member this status.
  pub record StatusSigned (id status : Text) : Type 0 where
    pub env : DsEnvelope
    pub payload : MemberStatusPayload
    pub decodes : l.decoders.status env.payload ≡ some payload
    pub member : payload.member_id ≡ id
    pub carries : payload.status ≡ status
    pub signed :
        signed_by l i s owner owner
          (lit "member:status")
          env
          payload.fields
          (status_intent l i s owner now payload)
        ≡ ok tt

  -- An envelope under the member's own key registers the client's key for the member on this device.
  pub record Registered (id identity wg : Text) : Type 0 where
    pub key : Text
    pub env : DsEnvelope
    pub payload : ClientRegisterPayload
    pub identity_decodes : decode_ed25519 identity ≡ some key
    pub decodes : l.decoders.registration env.payload ≡ some payload
    pub member : payload.member_id ≡ id
    pub carries : payload.public_key ≡ wg
    pub signed :
        signed_by l i s owner key (lit "wg:client-register") env payload.fields (
          joined
            (lit "wg:client-register")
            (i.device_id ∷ id ∷ wg ∷ l.digits (int64 payload.fields.timestamp) ∷ []))
        ≡ ok tt

  -- Where a list of app ids granted to the member stands: in an envelope for it under the owner's key, in
  -- a certificate of the agent, or in an invite of the owner; each names the member or its key.
  pub data Grants (id identity : Text) (ids : List Text) : Type 0 where
    envelope_grants :
        (env : DsEnvelope) (pp : MemberPermissionsPayload) {u : Unit {0}}
        → l.decoders.permissions env.payload ≡ some pp
        → pp.member_id ≡ id
        → signed_by l i s owner owner
            (lit "member:permissions")
            env
            pp.fields
            (permissions_intent l i s owner now pp)
          ≡ ok u
        → pp.allowed_app_ids ≡ ids
        → Grants id identity ids
    certificate_grants :
        (cert : AdmittanceCertificate) {u : Unit {0}}
        → verify_admittance_certificate l.crypto l.codec l.first l.digits
            (some cert)
            id
            identity
            (nas_key_base64 l i)
            (some (nas_key l i))
          ≡ ok u
        → cert.initial_allowed_app_ids ≡ ids
        → Grants id identity ids
    invite_grants :
        (e : MemberAclEntry) (inv : InvitePayload)
        → e.identity_key ≡ identity
        → verify_join_attestation l.crypto l.codec l.invites e (some owner) (nas_key_base64 l i) now
          ≡ ok inv
        → inv.allowed_app_ids ≡ ids
        → Grants id identity ids

  -- What is allowed to a member is listed by a grant, or it is the catalogue and the member an admin.
  abbrev pub Permitted : List App → Text → Text → Text → List App → Type 0
  Permitted catalogue role id identity allowed =
      ((is_admin_role role ≡ true) × (allowed ≡ catalogue))
      ⊎ ((ids : List Text) × Grants id identity ids × All (Listed ids) allowed)

  pub record Vouched (catalogue : List App) (m : MemberAclEntry) : Type 0 where
    pub entitled : Entitled m.role m.member_id m.identity_key
    pub status : (m.status ≡ lit "active") ⊎ StatusSigned m.member_id m.status
    pub clients : All (λ c. Registered m.member_id m.identity_key c.wg_public_key) m.clients
    pub apps : All (AppSigned l i s owner) m.allowed_apps
    pub permissions : Permitted catalogue m.role m.member_id m.identity_key m.allowed_apps
