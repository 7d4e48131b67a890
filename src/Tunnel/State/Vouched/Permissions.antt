-- ===== src/Tunnel/State/Vouched/Permissions.antt =====
-- internal/tunnel/devicestate.go: what the permissions of a member come from.
use atreo_agent.Base.{
  ℕ, true, false, Text, lit, ◌==◌, ==_iff, List, [], ◌∷◌, some, Map, lookup, insert, lookup-insert,
  All, any, ◌≡◌, ◌⊎◌, refl, arith, subst, Option-cases, Bool-cases, inl, inr,
}
use atreo_agent.Base.Result.{ok, OnOk, OnOk-need, OnOk-map_error, OnOk-require}
use atreo_agent.Atreolink.{App}
use atreo_agent.Acl.{Store, is_admin_role}
use atreo_agent.Acl.Apps.{apps_by_id}
use atreo_agent.Tunnel.Wire.{DsEnvelope, DsMember, MemberPermissionsPayload}
use atreo_agent.Tunnel.State.{
  permissions_payload, permissions_other_member, permissions_signature, Libraries, Identity,
  signed_by, picked,
}
use atreo_agent.Tunnel.State.Members.{permissions_intent, check_permissions}
use atreo_agent.Tunnel.State.Vouched.{Listed, Grants, envelope_grants, Permitted}

-- An app stands in the map under its own id.
apps_by_id-keyed :
    (apps : List App) (m : Map App)
    → ((id : Text) (a : App) → lookup id m ≡ some a → id ≡ a.id)
    → (id : Text) (a : App) → lookup id (apps_by_id apps m) ≡ some a
    → id ≡ a.id
unfolding apps_by_id
apps_by_id-keyed [] m base id a e = base id a e
apps_by_id-keyed (b ∷ apps) m base id a e =
    apps_by_id-keyed apps (insert b.id b m)
      (λ id' a' e'. elim (Bool-cases (b.id == id')) [
        | inl same ↦
            subst (λ (c : App). id' ≡ c.id) {x = b} {y = a'}
              (ground (arith, lookup-insert b.id id' b m)) (ground (arith, ==_iff b.id id'))
        | inr other ↦ base id' a' (ground (arith, lookup-insert b.id id' b m))
      ])
      id a e

weaken-Listed :
    (id : Text) (ids : List Text) (apps : List App)
    → All (Listed ids) apps
    → All (Listed (id ∷ ids)) apps
unfolding any
weaken-Listed id ids [] h = tt
weaken-Listed id ids (a ∷ apps) h = (
  elim (Bool-cases (id == a.id)) [ inl same ↦ rw same refl | inr other ↦ rw other h.0 ],
  weaken-Listed id ids apps h.1,
)

picked-Listed :
    (by_id : Map App) (ids : List Text)
    → ((id : Text) (a : App) → lookup id by_id ≡ some a → id ≡ a.id)
    → All (Listed ids) (picked by_id ids)
unfolding picked any
picked-Listed by_id [] keyed = tt
picked-Listed by_id (id ∷ ids) keyed = elim (Option-cases (lookup id by_id)) [
  | inl gone ↦ rw (gone, picked) (weaken-Listed id ids _ (picked-Listed by_id ids keyed))
  | inr (a, e) ↦
      rw (e, picked)
        (
          rw ((==_iff id a.id).1 (keyed id a e)) refl,
          weaken-Listed id ids _ (picked-Listed by_id ids keyed),
        )
]

picked_apps-Listed :
    (apps : List App) (ids : List Text) → All (Listed ids) (picked (apps_by_id apps []) ids)
picked_apps-Listed apps ids =
    picked-Listed (apps_by_id apps []) ids
      (apps_by_id-keyed apps [] λ id a e. absurd (empty id a e))
  where
    empty : (id : Text) (a : App) → lookup id [] ≡ some a → ⊥
    empty id a e = unfold lookup in cc

module _ (l : Libraries) (i : Identity) (s : Store) (owner : Text) (now : ℕ) where
  -- What holds of the apps allowed to a member, branch by branch.
  pub check_permissions-by {κ} :
      (dm : DsMember) (P : List App → Type κ) (apps : List App) (by_id : Map App)
      (initial : List Text)
      → (is_admin_role dm.role ≡ true → P apps)
      → (is_admin_role dm.role ≡ false → P (picked by_id initial))
      → ((env : DsEnvelope) (pp : MemberPermissionsPayload)
          → l.decoders.permissions env.payload ≡ some pp
          → (pp.member_id == dm.member_id) ≡ true
          → signed_by l i s owner owner
              (lit "member:permissions")
              env
              pp.fields
              (permissions_intent l i s owner now pp)
            ≡ ok tt
          → P (picked by_id pp.allowed_app_ids))
      → OnOk P (check_permissions l i s owner now apps by_id dm initial)
  unfolding check_permissions
  check_permissions-by dm P apps by_id initial for_admin at_first by_envelope =
      elim (Option-cases dm.permissions_envelope) [
        | inl absent ↦ elim (Bool-cases (is_admin_role dm.role)) [
          | inl admin ↦ rw (absent, admin, check_permissions) (for_admin admin)
          | inr member ↦ rw (absent, member, check_permissions) (at_first member)
        ]
        | inr (env, given) ↦
            rw (given, check_permissions)
              (OnOk-need P (l.decoders.permissions env.payload) permissions_payload _ λ pp e1.
                OnOk-require P (pp.member_id == dm.member_id) permissions_other_member _ λ v same.
                  OnOk-map_error P permissions_signature
                    (signed_by l i s owner owner (lit "member:permissions") env pp.fields
                      (permissions_intent l i s owner now pp))
                    _ λ u e3. by_envelope env pp e1 same e3)
      ]

  module _ (dm : DsMember) where
    abbrev P : List App → List App → Type 0
    P catalogue = Permitted l i s owner now catalogue dm.role dm.member_id dm.identity_key

    listed_by_envelope :
        (apps : List App) (env : DsEnvelope) (pp : MemberPermissionsPayload) {u : Unit {0}}
        → l.decoders.permissions env.payload ≡ some pp
        → (pp.member_id == dm.member_id) ≡ true
        → signed_by l i s owner owner
            (lit "member:permissions")
            env
            pp.fields
            (permissions_intent l i s owner now pp)
          ≡ ok u
        → P apps (picked (apps_by_id apps []) pp.allowed_app_ids)
    listed_by_envelope apps env pp decodes same signed = inr (
      pp.allowed_app_ids,
      envelope_grants env pp decodes ((==_iff pp.member_id dm.member_id).0 same) signed refl,
      picked_apps-Listed apps pp.allowed_app_ids,
    )

    listed_at_first :
        (apps : List App) (initial : List Text)
        → (is_admin_role dm.role ≡ true)
          ⊎ Grants l i s owner now dm.member_id dm.identity_key initial
        → is_admin_role dm.role ≡ false
        → P apps (picked (apps_by_id apps []) initial)
    listed_at_first apps initial (inl admin) member = absurd cc
    listed_at_first apps initial (inr granted) member =
        inr (initial, granted, picked_apps-Listed apps initial)

    pub check_permissions-Permitted :
        (apps : List App) (initial : List Text)
        → (is_admin_role dm.role ≡ true)
          ⊎ Grants l i s owner now dm.member_id dm.identity_key initial
        → OnOk (P apps) (check_permissions l i s owner now apps (apps_by_id apps []) dm initial)
    check_permissions-Permitted apps initial origin =
        check_permissions-by dm (P apps) apps (apps_by_id apps []) initial
          (λ admin. inl (admin, refl)) (listed_at_first apps initial origin)
          λ env pp decodes same signed. listed_by_envelope apps env pp decodes same signed
