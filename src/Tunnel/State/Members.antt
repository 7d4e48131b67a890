-- ===== src/Tunnel/State/Members.antt =====
-- internal/tunnel/devicestate.go: the checks of `HandleDeviceState` on one member of the push, and the loop
-- over the members. Nothing is changed yet.
use atreo_agent.Base.{
  ℕ, ◌/◌, ◌&&◌, ◌||◌, Text, lit, ◌==◌, List, [], ◌∷◌, ◌++◌, Option, none, some, Map, insert,
  if◌then◌else◌,
}
use atreo_agent.Base.Int.{pos}
use atreo_agent.Base.Result.{Result, ok, failed, ◌>>=◌, require, need, map_error}
use atreo_agent.Base.Base64.{decode}
use atreo_agent.Atreolink.{
  App, JoinAttestation, AdmittanceCertificate, ClientRecord, MemberAclEntry,
}
use atreo_agent.Acl.{Store, is_admin_role, lookup_by_member_id}
use atreo_agent.Tunnel.Attestation.{InvitePayload, verify_join_attestation}
use atreo_agent.Tunnel.Admittance.{mint_admittance_certificate, verify_admittance_certificate}
use atreo_agent.Tunnel.Lease.{verify_tunnel_ip_lease}
use atreo_agent.Tunnel.Wire.{
  DsClient, DsMember, ClientRegisterPayload, MemberPermissionsPayload, MemberStatusPayload, int64,
  joined,
}
use atreo_agent.Tunnel.State.{
  StateError, member_admittance, no_admission, bad_invite_encoding, bad_identity_key,
  member_admission, status_payload, status_other_member, status_invalid, status_signature,
  permissions_payload, permissions_other_member, permissions_signature, client_payload,
  client_mismatch, client_signature, Libraries, Identity, nas_key, nas_key_base64, decode_ed25519,
  signed_by, picked,
}

-- What is known of a member that may be admitted. `pending` is the certificate to announce upstream.
pub record Admission : Type 0 where
  pub certificate : Option AdmittanceCertificate
  pub initial_app_ids : List Text
  pub pending : List AdmittanceCertificate

-- The entry before any check.
unfoldable pub base_entry : DsMember → MemberAclEntry
base_entry dm = record {
  member_id = dm.member_id;
  user_id = dm.user_id;
  member_name = dm.member_name;
  email = dm.email;
  role = dm.role;
  identity_key = dm.identity_key;
  identity_key_proof = none;
  join_attestation = none;
  admittance = none;
  clients = [];
  allowed_apps = [];
  status = lit "active";
}

unfoldable pub stored_certificate : Store → Text → Option AdmittanceCertificate
stored_certificate s id = elim (lookup_by_member_id s id) [ none ↦ none | some m ↦ m.admittance ]

-- The result of the checks on one member: its entry, what to announce, and the leases so far.
pub record Checked : Type 0 where
  pub entry : MemberAclEntry
  pub pending : List AdmittanceCertificate
  pub leases : Map Text

module _ (l : Libraries) (i : Identity) (s : Store) (owner : Text) (now : ℕ) where
  -- A certificate that is at hand, from the push or from the store.
  unfoldable pub certified :
      DsMember → AdmittanceCertificate → List AdmittanceCertificate → Result StateError Admission
  unfolding nas_key nas_key_base64
  certified dm cert pending = do
    _ ← map_error member_admittance (
        verify_admittance_certificate l.crypto l.codec l.first l.digits (some cert) dm.member_id
          dm.identity_key (nas_key_base64 l i) (some (nas_key l i)))
    ok (record {
      certificate = some cert;
      initial_app_ids = cert.initial_allowed_app_ids;
      pending = pending;
    })

  -- A certificate for a member whose invite has been verified.
  unfoldable pub minted : DsMember → JoinAttestation → InvitePayload → Result StateError Admission
  unfolding nas_key_base64
  minted dm att inv = do
    bytes ← need (decode att.invite_payload) bad_invite_encoding
    cert ← map_error member_admittance (
        mint_admittance_certificate l.crypto l.codec l.first l.digits dm.member_id dm.identity_key
          (nas_key_base64 l i) bytes inv.allowed_app_ids i.private_key (pos (now / 1_000_000_000)))
    ok (record {
      certificate = some cert;
      initial_app_ids = cert.initial_allowed_app_ids;
      pending = cert ∷ [];
    })

  -- Neither the push nor the store has a certificate: the chain of the invite is verified.
  unfoldable pub invited : DsMember → Result StateError Admission
  unfolding base_entry nas_key_base64 minted
  invited dm = do
    att ← need dm.join_attestation no_admission
    inv ← map_error member_admission (
        verify_join_attestation l.crypto l.codec l.invites
          (record (base_entry dm) { join_attestation = some att }) (some owner) (nas_key_base64 l i)
          now)
    minted dm att inv

  -- The admission of a member that is no admin.
  unfoldable pub admission : DsMember → Result StateError Admission
  admission dm = elim dm.admittance [
    | some cert ↦ certified dm cert []
    | none ↦ elim (stored_certificate s dm.member_id) [
      | some cert ↦ certified dm cert (cert ∷ [])
      | none ↦ invited dm
    ]
  ]

  unfoldable pub admission_of : DsMember → Result StateError Admission
  unfolding admission
  admission_of dm =
      if is_admin_role dm.role
      then ok (record { certificate = none; initial_app_ids = []; pending = [] })
      else admission dm

  unfoldable pub status_intent : MemberStatusPayload → Text
  status_intent sp =
      joined (lit "member:status")
        (i.device_id ∷ sp.member_id ∷ sp.status ∷ l.digits (int64 sp.fields.timestamp) ∷ [])

  unfoldable pub check_status : DsMember → Result StateError Text
  unfolding signed_by status_intent
  check_status dm = elim dm.status_envelope [
    | none ↦ ok (lit "active")
    | some env ↦ do
      sp ← need (l.decoders.status env.payload) status_payload
      _ ← require (sp.member_id == dm.member_id) status_other_member
      _ ← require (sp.status == lit "active" || sp.status == lit "suspended") status_invalid
      _ ←
          map_error status_signature
            (signed_by l i s owner owner (lit "member:status") env sp.fields (status_intent sp))
      ok sp.status
  ]

  unfoldable pub permissions_intent : MemberPermissionsPayload → Text
  permissions_intent pp =
      joined (lit "member:permissions")
        (i.device_id ∷ pp.member_id ∷ l.digits (int64 pp.fields.timestamp) ∷ [])

  unfoldable pub check_permissions :
      List App → Map App → DsMember → List Text → Result StateError (List App)
  unfolding signed_by permissions_intent
  check_permissions apps by_id dm initial = elim dm.permissions_envelope [
    | none ↦ ok (if is_admin_role dm.role then apps else picked by_id initial)
    | some env ↦ do
      pp ← need (l.decoders.permissions env.payload) permissions_payload
      _ ← require (pp.member_id == dm.member_id) permissions_other_member
      _ ← map_error permissions_signature (
          signed_by l i s owner owner (lit "member:permissions") env pp.fields
            (permissions_intent pp))
      ok (picked by_id pp.allowed_app_ids)
  ]

  unfoldable pub client_intent : DsClient → ClientRegisterPayload → Text
  client_intent dc cp =
      joined (lit "wg:client-register")
        (i.device_id ∷ cp.member_id ∷ dc.wg_public_key ∷ l.digits (int64 cp.fields.timestamp) ∷ [])

  -- A lease that does not verify is passed over.
  unfoldable pub note_lease : DsClient → Map Text → Map Text
  unfolding nas_key
  note_lease dc leases = elim dc.ip_lease [
    | none ↦ leases
    | some lease ↦
        elim (verify_tunnel_ip_lease l.crypto l.codec l.first (some lease) i.device_id
          dc.wg_public_key (some (nas_key l i))) [
            | failed e ↦ leases
            | ok _ ↦ insert dc.wg_public_key lease.tunnel_ip leases
          ]
  ]

  unfoldable pub client_record : DsClient → ClientRecord
  client_record dc = record {
    wg_public_key = dc.wg_public_key;
    tunnel_ip = [];
    tunnel_ipv6 = [];
    label = dc.label;
    platform = dc.platform;
    endpoint_type = dc.endpoint_type;
  }

  -- One round of the loop over the clients; `key` is the member's identity key.
  unfoldable pub check_client :
      DsMember → Text → Map Text → DsClient → Result StateError (List ClientRecord × Map Text)
  unfolding signed_by client_intent note_lease client_record
  check_client dm key leases dc = elim dc.registration_envelope [
    | none ↦ ok ([], leases)
    | some env ↦ do
      cp ← need (l.decoders.registration env.payload) client_payload
      _ ←
          map_error client_signature (
            signed_by l i s owner key (lit "wg:client-register") env cp.fields
              (client_intent dc cp))
      _ ←
          require (cp.member_id == dm.member_id && cp.public_key == dc.wg_public_key)
            client_mismatch
      ok (client_record dc ∷ [], note_lease dc leases)
  ]

  unfoldable pub check_clients :
      DsMember → Text → Map Text → List DsClient → Result StateError (List ClientRecord × Map Text)
  check_clients dm key leases [] = ok ([], leases)
  check_clients dm key leases (dc ∷ dcs) = do
    one ← check_client dm key leases dc
    rest ← check_clients dm key one.1 dcs
    ok (one.0 ++ rest.0, rest.1)

  unfoldable pub check_member : List App → Map App → Map Text → DsMember → Result StateError Checked
  unfolding base_entry
  check_member apps by_id leases dm = do
    adm ← admission_of dm
    key ← need (decode_ed25519 dm.identity_key) bad_identity_key
    status ← check_status dm
    allowed ← check_permissions apps by_id dm adm.initial_app_ids
    found ← check_clients dm key leases dm.clients
    ok (record {
      entry = record (base_entry dm) {
        admittance = adm.certificate;
        status = status;
        allowed_apps = allowed;
        clients = found.0;
      };
      pending = adm.pending;
      leases = found.1;
    })

  -- The loop over the members.
  unfoldable pub check_members :
      List App
      → Map App
      → Map Text
      → List DsMember
      → Result StateError (List MemberAclEntry × List AdmittanceCertificate × Map Text)
  check_members apps by_id leases [] = ok ([], [], leases)
  check_members apps by_id leases (dm ∷ dms) = do
    one ← check_member apps by_id leases dm
    rest ← check_members apps by_id one.leases dms
    ok (one.entry ∷ rest.0, one.pending ++ rest.1, rest.2)
