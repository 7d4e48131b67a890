-- ===== src/Tunnel/State/Vouched/Admissions.antt =====
-- internal/tunnel/devicestate.go: the branches by which a member is admitted.
use atreo_agent.Base.{
  ◌/◌, none, not, eqb, length, is_empty, ℕ, true, ◌||◌, Text, List, [], ◌∷◌, some, ◌≡◌, ◌⊎◌, refl,
  Option-cases, Bool-cases, inl, inr,
}
use atreo_agent.Base.Int.{ℤ, pos}
use atreo_agent.Base.Base64.{encode, decode}
use atreo_agent.Base.Result.{ok, OnOk, OnOk-of, OnOk-bind, OnOk-need, OnOk-map_error, OnOk-require}
use atreo_agent.Atreolink.{JoinAttestation, AdmittanceCertificate, MemberAclEntry}
use atreo_agent.Acl.{Store, is_admin_role}
use atreo_agent.Tunnel.{Crypto, private_key_size}
use atreo_agent.Canonjson.{Json, Codec}
use atreo_agent.Tunnel.Attestation.{InvitePayload, verify_join_attestation}
use atreo_agent.Tunnel.Admittance.{
  empty_binding, empty_attestation, wrong_signer_size, cert_body, mint_admittance_certificate,
  verify_admittance_certificate,
}
use atreo_agent.Tunnel.Wire.{DsMember}
use atreo_agent.Tunnel.State.{
  member_admittance, bad_invite_encoding, Libraries, Identity, nas_key, nas_key_base64,
}
use atreo_agent.Tunnel.State.Members.{
  Admission, base_entry, stored_certificate, certified, minted, invited, admission, admission_of,
}
use atreo_agent.Tunnel.State.Vouched.{
  Entitled, by_role, by_certificate, by_invite, Grants, certificate_grants, invite_grants,
}

-- The certificate lists the apps that it is minted for.
mint-lists :
    (k : Crypto) (c : Codec) (first : Json → Text) (digits : ℤ → Text)
    (member identity nas attestation : Text) (apps : List Text) (signer : Text) (now : ℤ)
    → OnOk
        (λ cert. apps ≡ cert.initial_allowed_app_ids)
        (mint_admittance_certificate k c first digits member identity nas attestation apps signer
          now)
unfolding mint_admittance_certificate
mint-lists k c first digits member identity nas attestation apps signer now =
    let P : AdmittanceCertificate → Type 0 = λ cert. apps ≡ cert.initial_allowed_app_ids in
    OnOk-require P (not (is_empty member || (is_empty identity || is_empty nas))) empty_binding _
      λ u e1. OnOk-require P (not (is_empty attestation)) empty_attestation _ λ v e2.
        OnOk-require P (eqb (length signer) private_key_size) wrong_signer_size _ λ w e3.
          OnOk-bind P
            (cert_body k c first digits (record {
              member_id = member;
              identity_key = identity;
              nas_pubkey = nas;
              admitted_at = now;
              attestation_hash = encode (k.sha256 attestation);
              initial_allowed_app_ids = apps;
              signature = [];
            }))
            _ λ body e4. refl

module _ (l : Libraries) (i : Identity) (s : Store) (owner : Text) (now : ℕ) where
  -- What holds of an admission, branch by branch.
  module _ {κ} (dm : DsMember) (P : Admission → Type κ) where
    invited-by :
        ((att : JoinAttestation) (inv : InvitePayload)
          → verify_join_attestation l.crypto l.codec l.invites
              (record (base_entry dm) { join_attestation = some att })
              (some owner)
              (nas_key_base64 l i)
              now
            ≡ ok inv
          → OnOk P (minted l i s owner now dm att inv))
        → OnOk P (invited l i s owner now dm)
    unfolding invited
    invited-by mint = elim (Option-cases dm.join_attestation) [
      | inl absent ↦ rw (absent, invited) tt
      | inr (att, given) ↦
          rw (given, invited) (OnOk-map_error P _ _ _ λ inv good. mint att inv good)
    ]

    admission_of-by :
        (is_admin_role dm.role ≡ true
          → P (record { certificate = none; initial_app_ids = []; pending = [] }))
        → ((cert : AdmittanceCertificate) (pending : List AdmittanceCertificate)
            → OnOk P (certified l i s owner now dm cert pending))
        → OnOk P (invited l i s owner now dm)
        → OnOk P (admission_of l i s owner now dm)
    unfolding admission_of admission
    admission_of-by for_admin by_cert by_invitation = elim (Bool-cases (is_admin_role dm.role)) [
      | inl admin ↦ rw (admin, admission_of) (for_admin admin)
      | inr member ↦ elim (Option-cases dm.admittance) [
        | inr (cert, e) ↦ rw (member, e, admission_of, admission) (by_cert cert [])
        | inl no_cert ↦ elim (Option-cases (stored_certificate s dm.member_id)) [
          | inr (cert, e) ↦
              rw (member, no_cert, e, admission_of, admission) (by_cert cert (cert ∷ []))
          | inl nothing ↦ rw (member, no_cert, nothing, admission_of, admission) by_invitation
        ]
      ]
    ]

  module _ (dm : DsMember) where
    abbrev pub Entitles : Admission → Type 0
    Entitles adm =
        Entitled l i s owner now dm.role dm.member_id dm.identity_key
        × ((is_admin_role dm.role ≡ true)
            ⊎ Grants l i s owner now dm.member_id dm.identity_key adm.initial_app_ids)

    certificate-Entitles :
        (cert : AdmittanceCertificate) (pending : List AdmittanceCertificate) {u : Unit {0}}
        → verify_admittance_certificate l.crypto l.codec l.first l.digits
            (some cert)
            dm.member_id
            dm.identity_key
            (nas_key_base64 l i)
            (some (nas_key l i))
          ≡ ok u
        → Entitles (record {
          certificate = some cert;
          initial_app_ids = cert.initial_allowed_app_ids;
          pending = pending;
        })
    certificate-Entitles cert pending e =
        (by_certificate cert e, inr (certificate_grants cert e refl))

    invite-Entitles :
        (att : JoinAttestation) (inv : InvitePayload) (cert : AdmittanceCertificate)
        → verify_join_attestation l.crypto l.codec l.invites
            (record (base_entry dm) { join_attestation = some att })
            (some owner)
            (nas_key_base64 l i)
            now
          ≡ ok inv
        → inv.allowed_app_ids ≡ cert.initial_allowed_app_ids
        → Entitles (record {
          certificate = some cert;
          initial_app_ids = cert.initial_allowed_app_ids;
          pending = cert ∷ [];
        })
    unfolding base_entry
    invite-Entitles att inv cert e lists =
        let m : MemberAclEntry = record (base_entry dm) { join_attestation = some att } in
        (by_invite m inv refl e, inr (invite_grants m inv refl e lists))

    minted-Entitled :
        (att : JoinAttestation) (inv : InvitePayload)
        → verify_join_attestation l.crypto l.codec l.invites
            (record (base_entry dm) { join_attestation = some att })
            (some owner)
            (nas_key_base64 l i)
            now
          ≡ ok inv
        → OnOk Entitles (minted l i s owner now dm att inv)
    unfolding minted
    minted-Entitled att inv good =
        OnOk-need Entitles (decode att.invite_payload) bad_invite_encoding _ λ bytes e1.
          OnOk-map_error Entitles member_admittance
            (mint_admittance_certificate l.crypto l.codec l.first l.digits dm.member_id
              dm.identity_key (nas_key_base64 l i) bytes inv.allowed_app_ids i.private_key
              (pos (now / 1_000_000_000)))
            _
            λ cert e2. invite-Entitles att inv cert good (
              OnOk-of
                (λ (c : AdmittanceCertificate). inv.allowed_app_ids ≡ c.initial_allowed_app_ids) e2
                (mint-lists l.crypto l.codec l.first l.digits dm.member_id dm.identity_key
                  (nas_key_base64 l i) bytes inv.allowed_app_ids i.private_key
                  (pos (now / 1_000_000_000))))

    certified-Entitled :
        (cert : AdmittanceCertificate) (pending : List AdmittanceCertificate)
        → OnOk Entitles (certified l i s owner now dm cert pending)
    unfolding certified
    certified-Entitled cert pending =
        OnOk-map_error Entitles _ _ _ λ u e. certificate-Entitles cert pending e

    pub admission_of-Entitled : OnOk Entitles (admission_of l i s owner now dm)
    admission_of-Entitled =
        admission_of-by dm Entitles (λ admin. (by_role admin, inl admin)) certified-Entitled
          (invited-by dm Entitles minted-Entitled)
