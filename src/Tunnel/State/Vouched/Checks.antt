-- ===== src/Tunnel/State/Vouched/Checks.antt =====
-- internal/tunnel/devicestate.go: the members that pass.
use atreo_agent.Base.{
  ℕ, true, ◌&&◌, ◌||◌, Text, lit, ◌==◌, ==_iff, List, [], ◌∷◌, some, Map, lookup, All, All-append,
  ◌≡◌, ◌⊎◌, refl, arith, subst, Option-cases, inl, inr,
}
use atreo_agent.Base.Result.{ok, OnOk, OnOk-of, OnOk-bind, OnOk-need, OnOk-map_error, OnOk-require}
use atreo_agent.Atreolink.{App, AdmittanceCertificate, ClientRecord, MemberAclEntry}
use atreo_agent.Acl.{Store}
use atreo_agent.Acl.Apps.{apps_by_id}
use atreo_agent.Tunnel.Wire.{
  DsEnvelope, DsClient, DsMember, ClientRegisterPayload, MemberStatusPayload, int64, joined,
}
use atreo_agent.Tunnel.State.{
  status_invalid, bad_identity_key, Libraries, Identity, signed_by, decode_ed25519, picked,
}
use atreo_agent.Tunnel.State.Members.{
  Admission, Checked, base_entry, admission_of, status_intent, check_status, check_permissions,
  client_intent, note_lease, client_record, check_client, check_clients, check_member,
  check_members,
}
use atreo_agent.Tunnel.State.Vouched.{AppSigned, StatusSigned, Registered, Permitted, Vouched}
use atreo_agent.Tunnel.State.Vouched.Admissions.{Entitles, admission_of-Entitled}
use atreo_agent.Tunnel.State.Vouched.Permissions.{check_permissions-by, check_permissions-Permitted}
use atreo_agent.Tunnel.State.Vouched.Catalogue.{apps_by_id-All, picked-All}

module _ (l : Libraries) (i : Identity) (s : Store) (owner : Text) (now : ℕ) where
  module _ (dm : DsMember) where
    status_signed :
        (env : DsEnvelope) (sp : MemberStatusPayload) {u : Unit {0}}
        → l.decoders.status env.payload ≡ some sp
        → (sp.member_id == dm.member_id) ≡ true
        → signed_by l i s owner owner
            (lit "member:status")
            env
            sp.fields
            (status_intent l i s owner now sp)
          ≡ ok u
        → (sp.status ≡ lit "active") ⊎ StatusSigned l i s owner now dm.member_id sp.status
    status_signed env sp decodes same signed = inr (record {
      env = env;
      payload = sp;
      decodes = decodes;
      member = (==_iff sp.member_id dm.member_id).0 same;
      carries = refl;
      signed = signed;
    })

    abbrev StatusKnown : Text → Type 0
    StatusKnown status = (status ≡ lit "active") ⊎ StatusSigned l i s owner now dm.member_id status

    check_status-signed : OnOk StatusKnown (check_status l i s owner now dm)
    unfolding check_status
    check_status-signed = elim (Option-cases dm.status_envelope) [
      | inl default ↦ rw (default, check_status) (inl refl)
      | inr (env, given) ↦
          rw (given, check_status)
            (OnOk-need StatusKnown _ _ _ λ sp e1. OnOk-require StatusKnown _ _ _ λ v same.
              OnOk-require StatusKnown (sp.status == lit "active" || sp.status == lit "suspended")
                status_invalid _
                λ w known. OnOk-map_error StatusKnown _ _ _ λ u e4. status_signed env sp e1 same e4)
    ]

    module _ (apps : List App) (all : All (AppSigned l i s owner) apps) where
      picked-AppSigned :
          (ids : List Text) → All (AppSigned l i s owner) (picked (apps_by_id apps []) ids)
      picked-AppSigned ids =
          picked-All (AppSigned l i s owner) (apps_by_id apps []) ids
            (apps_by_id-All (AppSigned l i s owner) apps [] all λ id a e. absurd (empty id a e))
        where
          empty : (id : Text) (a : App) → lookup id [] ≡ some a → ⊥
          empty id a e = unfold lookup in cc

      check_permissions-AppSigned :
          (initial : List Text)
          → OnOk
              (All (AppSigned l i s owner))
              (check_permissions l i s owner now apps (apps_by_id apps []) dm initial)
      check_permissions-AppSigned initial =
          check_permissions-by l i s owner now dm (All (AppSigned l i s owner)) apps
            (apps_by_id apps []) initial (λ admin. all) (λ member. picked-AppSigned initial)
            λ env pp decodes same signed. picked-AppSigned pp.allowed_app_ids

    abbrev Registers : List ClientRecord × Map Text → Type 0
    Registers found =
        All (λ c. Registered l i s owner now dm.member_id dm.identity_key c.wg_public_key) found.0

    module _ (key : Text) (keyed : decode_ed25519 dm.identity_key ≡ some key) where
      client_registered :
          (dc : DsClient) (env : DsEnvelope) (cp : ClientRegisterPayload) (leases : Map Text)
          {u : Unit {0}}
          → l.decoders.registration env.payload ≡ some cp
          → signed_by l i s owner key
              (lit "wg:client-register")
              env
              cp.fields
              (client_intent l i s owner now dc cp)
            ≡ ok u
          → (cp.member_id == dm.member_id && cp.public_key == dc.wg_public_key) ≡ true
          → Registers (client_record l i s owner now dc ∷ [], leases)
      unfolding client_intent client_record
      client_registered dc env cp leases decodes signed same =
          let member : cp.member_id ≡ dm.member_id =
            ground (arith, ==_iff cp.member_id dm.member_id) in
          (
            record {
              key = key;
              env = env;
              payload = cp;
              identity_decodes = keyed;
              decodes = decodes;
              member = member;
              carries = ground (arith, ==_iff cp.public_key dc.wg_public_key);
              signed =
                  subst
                    (λ id.
                      signed_by l i s owner key (lit "wg:client-register") env cp.fields (
                        joined (lit "wg:client-register") (
                          i.device_id
                          ∷ id
                          ∷ dc.wg_public_key
                          ∷ l.digits (int64 cp.fields.timestamp)
                          ∷ []))
                      ≡ ok tt)
                    member signed;
            },
            tt,
          )

      check_client-Registers :
          (leases : Map Text) (dc : DsClient)
          → OnOk Registers (check_client l i s owner now dm key leases dc)
      unfolding check_client
      check_client-Registers leases dc = elim (Option-cases dc.registration_envelope) [
        | inl absent ↦ rw (absent, check_client) tt
        | inr (env, given) ↦
            rw (given, check_client)
              (OnOk-need Registers _ _ _ λ cp e1. OnOk-map_error Registers _ _ _ λ u e2.
                OnOk-require Registers _ _ _ λ v same.
                  client_registered dc env cp (note_lease l i s owner now dc leases) e1 e2 same)
      ]

      check_clients-Registers :
          (leases : Map Text) (dcs : List DsClient)
          → OnOk Registers (check_clients l i s owner now dm key leases dcs)
      unfolding check_clients
      check_clients-Registers leases [] = tt
      check_clients-Registers leases (dc ∷ dcs) = OnOk-bind Registers _ _ λ one e.
          OnOk-bind Registers _ _ λ rest e'.
            All-append
              (λ c. Registered l i s owner now dm.member_id dm.identity_key c.wg_public_key) one.0
              rest.0 (OnOk-of Registers e (check_client-Registers leases dc))
              (OnOk-of Registers e' (check_clients-Registers one.1 dcs))

    vouch :
        (apps : List App) (adm : Admission) (status : Text) (allowed : List App)
        (found : List ClientRecord × Map Text)
        → Entitles l i s owner now dm adm
        → StatusKnown status
        → Registers found
        → All (AppSigned l i s owner) allowed
        → Permitted l i s owner now apps dm.role dm.member_id dm.identity_key allowed
        → Vouched l i s owner now apps (record (base_entry dm) {
          admittance = adm.certificate;
          status = status;
          allowed_apps = allowed;
          clients = found.0;
        })
    unfolding base_entry
    vouch apps adm status allowed found entitled known registered signed permitted = record {
      entitled = entitled.0;
      status = known;
      clients = registered;
      apps = signed;
      permissions = permitted;
    }

    check_member-Vouched :
        (apps : List App) (leases : Map Text)
        → All (AppSigned l i s owner) apps
        → OnOk
            (λ r. Vouched l i s owner now apps r.entry)
            (check_member l i s owner now apps (apps_by_id apps []) leases dm)
    unfolding check_member
    check_member-Vouched apps leases all =
        let P : Checked → Type 0 = λ r. Vouched l i s owner now apps r.entry in
        OnOk-bind P (admission_of l i s owner now dm) _ λ adm e1.
          let entitled : Entitles l i s owner now dm adm =
            OnOk-of (Entitles l i s owner now dm) e1 (admission_of-Entitled l i s owner now dm) in
          OnOk-need P (decode_ed25519 dm.identity_key) bad_identity_key _ λ key e2.
            OnOk-bind P (check_status l i s owner now dm) _ λ status e3.
              OnOk-bind P
                (check_permissions l i s owner now apps (apps_by_id apps []) dm adm.initial_app_ids)
                _
                λ allowed e4.
                  OnOk-bind P (check_clients l i s owner now dm key leases dm.clients) _ λ found e5.
                    vouch apps adm status allowed found entitled
                      (OnOk-of StatusKnown e3 check_status-signed)
                      (OnOk-of Registers e5 (check_clients-Registers key e2 leases dm.clients))
                      (OnOk-of (All (AppSigned l i s owner)) e4
                        (check_permissions-AppSigned apps all adm.initial_app_ids))
                      (OnOk-of (Permitted l i s owner now apps dm.role dm.member_id dm.identity_key)
                        e4
                        (check_permissions-Permitted l i s owner now dm apps adm.initial_app_ids
                          entitled.1))

  pub check_members-Vouched :
      (apps : List App) (leases : Map Text) (dms : List DsMember)
      → All (AppSigned l i s owner) apps
      → OnOk
          (λ found. All (Vouched l i s owner now apps) found.0)
          (check_members l i s owner now apps (apps_by_id apps []) leases dms)
  unfolding check_members
  check_members-Vouched apps leases [] all = tt
  check_members-Vouched apps leases (dm ∷ dms) all =
      let P : List MemberAclEntry × List AdmittanceCertificate × Map Text → Type 0 =
        λ found. All (Vouched l i s owner now apps) found.0 in
      OnOk-bind P (check_member l i s owner now apps (apps_by_id apps []) leases dm) _ λ one e.
        OnOk-bind P (check_members l i s owner now apps (apps_by_id apps []) one.leases dms) _
          λ rest e'. (
            OnOk-of (λ (r : Checked). Vouched l i s owner now apps r.entry) e
                (check_member-Vouched dm apps leases all),
            OnOk-of P e' (check_members-Vouched apps one.leases dms all),
          )
