-- ===== src/Tunnel/Handlers/Device.antt =====
-- `HandleDeviceState` of internal/tunnel/devicestate.go: the whole handler, from its stages.
use atreo_agent.Base.{
  ℕ, ◌*◌, ◌/◌, ◌^◌, true, not, ◌&&◌, Text, lit, is_empty, ◌==◌, List, [], ◌∷◌, Option, none, some,
  Map, if◌then◌else◌,
}
use atreo_agent.Base.Int.{pos, ltb_ℤ}
use atreo_agent.Base.Result.{Result, ok, failed, ◌>>=◌}
use atreo_agent.Atreolink.{App, AdmittanceCertificate, MemberAclEntry}
use atreo_agent.Acl.{Store, StoreError}
use atreo_agent.Acl.Apps.{apps_by_id}
use atreo_agent.Acl.Reconcile.{Report, reconcile, set_applied_generation}
use atreo_agent.Tunnel.Verify.{TunnelMessage}
use atreo_agent.Tunnel.Admittance.{build_admittance_message}
use atreo_agent.Tunnel.Liveness.{mark_liveness}
use atreo_agent.Tunnel.Wire.{Decoders, DeviceState, DsCustomDomain}
use atreo_agent.Tunnel.State.{
  Libraries, Identity, StateError, undecoded, wrong_device, no_owner, no_address, store_refused,
  check_apps,
}
use atreo_agent.Tunnel.State.Members.{check_members}
use atreo_agent.Tunnel.State.Addresses.{address_members, members_with_v6}
use atreo_agent.Tunnel.Domain.{reconcile_custom_domain}
use atreo_agent.Tunnel.Handlers.{
  Handlers, World, drop_removed, install_members, reconcile_firewall, save,
}

pub data Outcome : Type 0 where
  applied ignored : Outcome
  refused : StateError → Outcome

-- `decodeDeviceState`
unfoldable pub decode_device_state : Decoders → TunnelMessage → Option DeviceState
decode_device_state d msg =
    if msg.type == lit "device:state:gz"
    then elim (d.base64_string msg.payload) [
      | none ↦ none
      | some bytes ↦ elim (d.gunzip (8 * 2 ^ 20) bytes) [ none ↦ none | some raw ↦ d.state raw ]
    ]
    else d.state msg.payload

-- What the checks of a push come to.
pub record Push : Type 0 where
  pub apps : List App
  pub members : List MemberAclEntry
  pub pending : List AdmittanceCertificate
  pub leases : Map Text

unfoldable pub check_push :
    Libraries → Identity → Store → Text → ℕ → DeviceState → Result StateError Push
check_push l i s owner now st = do
  apps ← check_apps l i s owner st.apps
  found ← check_members l i s owner now apps (apps_by_id apps []) [] st.members
  ok (record { apps = apps; members = found.0; pending = found.1; leases = found.2 })

module _ (l : Libraries) (i : Identity) (w : World) where
  unfoldable pub reconcile_domain : Text → Option DsCustomDomain → Handlers → Handlers
  reconcile_domain owner cd h = elim w.domain [
    | none ↦ h
    | some dw ↦ record h { domains = reconcile_custom_domain l i h.acl owner dw cd h.domains }
  ]

  -- From the first change that outlives the call: the store has been reconciled to `s`.
  unfoldable pub finish :
      DeviceState → Text → List MemberAclEntry → Report → Store → Handlers → Handlers
  finish st owner members rep s h =
      let h1 = drop_removed w rep.client_keys (record h { acl = s }) in
      let h2 = install_members w members h1 in
      let h3 = reconcile_domain owner st.custom_domain (reconcile_firewall w h2) in
      let h4 = record h3 { acl = set_applied_generation st.generation (some w.now) h3.acl } in
      let h5 = save w h4 in record h5 { live = mark_liveness true w.now h5.live }

  -- The messages of the last loop; a certificate whose message cannot be built is passed over.
  unfoldable pub announcements : List AdmittanceCertificate → List TunnelMessage
  announcements [] = []
  announcements (cert ∷ certs) =
      let rest = announcements certs in
      elim (build_admittance_message l.crypto l.codec l.first l.digits i.device_id (some cert)
        i.private_key (pos (w.now / 1_000_000_000))) [ failed e ↦ rest | ok msg ↦ msg ∷ rest ]

  -- The end of the handler, from what the store came to.
  unfoldable pub conclude :
      DeviceState
      → Text
      → Push
      → List MemberAclEntry
      → Handlers
      → Store × (Report × Option StoreError)
      → Handlers × Outcome × List TunnelMessage
  conclude st owner push members h (s, (rep, some e)) = (h, refused (store_refused e), [])
  conclude st owner push members h (s, (rep, none)) = (
    finish st owner members rep s h,
    applied,
    (if w.sends then announcements push.pending else []),
  )

  -- The addressed members against the store.
  unfoldable pub commit :
      DeviceState
      → Text
      → Push
      → List MemberAclEntry
      → Handlers
      → Handlers × Outcome × List TunnelMessage
  unfolding conclude
  commit st owner push members h =
      conclude st owner push members h (reconcile w.unicode members push.apps h.acl)

  -- A push whose items all passed.
  unfoldable pub apply_push :
      DeviceState → Text → Push → Handlers → Handlers × Outcome × List TunnelMessage
  apply_push st owner push h =
      let (a, addressed) = address_members push.leases push.members h.allocator in
      let h' = record h { allocator = a } in
      elim addressed [
        | none ↦ (h', refused no_address, [])
        | some ms ↦ commit st owner push (members_with_v6 w.net h.server ms) h'
      ]

  -- The push against the pinned key, `none` when there is none.
  unfoldable pub judge :
      DeviceState → Option Text → Handlers → Handlers × Outcome × List TunnelMessage
  judge st none h = (h, refused no_owner, [])
  judge st (some owner) h = elim (check_push l i h.acl owner w.now st) [
    | failed e ↦ (h, refused e, [])
    | ok push ↦ apply_push st owner push h
  ]

  unfoldable pub handle_state : DeviceState → Handlers → Handlers × Outcome × List TunnelMessage
  handle_state st h =
      if not (is_empty st.device_id) && not (st.device_id == i.device_id)
      then (h, refused wrong_device, [])
      else if ltb_ℤ st.generation h.acl.generation
      then (h, ignored, [])
      else judge st h.acl.pinned_admin_pub_key h

  -- `HandleDeviceState`
  unfoldable pub handle_device_state :
      TunnelMessage → Handlers → Handlers × Outcome × List TunnelMessage
  handle_device_state msg h = elim (decode_device_state l.decoders msg) [
    | none ↦ (h, refused undecoded, [])
    | some st ↦ handle_state st h
  ]
