-- ===== src/Tunnel/Handlers/Applied.antt =====
-- `HandleDeviceState` of internal/tunnel/devicestate.go: what holds of the members of the store after a push
-- that was applied.
use atreo_agent.Base.{
  ℕ, not, ◌&&◌, Text, is_empty, ◌==◌, List, [], ◌∷◌, Option, none, some, Map, All, OnSome, ◌≡◌,
  refl, sym, subst, Bool-cases, Option-cases, inl, inr,
}
use atreo_agent.Base.Int.{ltb_ℤ}
use atreo_agent.Base.Base64.{encode}
use atreo_agent.Base.Result.{OnOk, OnOk-of, OnOk-bind, Result-cases}
use atreo_agent.Atreolink.{App, AdmittanceCertificate, ClientRecord, MemberAclEntry}
use atreo_agent.Acl.{Store, rebuild_indexes}
use atreo_agent.Acl.Apps.{apps_by_id}
use atreo_agent.Acl.Reconcile.{report, set_applied_generation}
use atreo_agent.Acl.Run.Pinned.{Carries, validate-Carries}
use atreo_agent.Wireguard.Allocator.{IpAllocator}
use atreo_agent.Wireguard.Allocator.Unique.{IsValid}
use atreo_agent.Wireguard.Addresses.{Net}
use atreo_agent.Wireguard.Server.{Server}
use atreo_agent.Tunnel.Verify.{TunnelMessage}
use atreo_agent.Tunnel.Wire.{DeviceState}
use atreo_agent.Tunnel.State.{Libraries, Identity, check_apps}
use atreo_agent.Tunnel.State.Members.{check_members}
use atreo_agent.Tunnel.State.Vouched.{AppSigned, Registered, Vouched}
use atreo_agent.Tunnel.State.Vouched.Catalogue.{check_apps-AppSigned}
use atreo_agent.Tunnel.State.Vouched.Checks.{check_members-Vouched}
use atreo_agent.Tunnel.State.Addresses.{
  address_clients, cons_member, address_members, clients_with_v6, members_with_v6,
}
use atreo_agent.Tunnel.State.Addresses.Given.{ByKey, address_clients-ByKey, clients_with_v6-ByKey}
use atreo_agent.Tunnel.Handlers.Kept.{OnApplied, finish-kept, reconcile-cases}
use atreo_agent.Tunnel.Handlers.{Handlers, World}
use atreo_agent.Tunnel.Handlers.Device.{
  Push, decode_device_state, check_push, conclude, commit, apply_push, judge, handle_state,
  handle_device_state,
}

module _ (l : Libraries) (i : Identity) (s : Store) (owner : Text) (now : ℕ) where
  abbrev V : List App → MemberAclEntry → Type 0
  V = Vouched l i s owner now

  reclient-Vouched :
      (apps : List App) (m : MemberAclEntry) (cs : List ClientRecord)
      → V apps m
      → ByKey (Registered l i s owner now m.member_id m.identity_key) cs
      → V apps (record m { clients = cs })
  reclient-Vouched apps m cs v h = record {
    entitled = v.entitled;
    status = v.status;
    clients = h;
    apps = v.apps;
    permissions = v.permissions;
  }

  cons_member-Vouched :
      (apps : List App) (m : MemberAclEntry) (r : IpAllocator × Option (List MemberAclEntry))
      → V apps m
      → IsValid r.0 × OnSome (All (V apps)) r.1
      → IsValid (cons_member m r).0 × OnSome (All (V apps)) (cons_member m r).1
  unfolding cons_member
  cons_member-Vouched apps m (a, none) v h = h
  cons_member-Vouched apps m (a, some ms) v h = (h.0, (v, h.1))

  address_members-Vouched :
      (apps : List App) (leases : Map Text) (ms : List MemberAclEntry) (a : IpAllocator)
      → IsValid a
      → All (V apps) ms
      → IsValid (address_members leases ms a).0
        × OnSome (All (V apps)) (address_members leases ms a).1
  unfolding address_members
  address_members-Vouched apps leases [] a v h = (v, tt)
  address_members-Vouched apps leases (m ∷ ms) a v h =
      let Q = Registered l i s owner now m.member_id m.identity_key in
      let r = address_clients leases m.clients a in
      let one = address_clients-ByKey Q leases m.clients a v h.0.clients in
      elim (Option-cases r.1) [
        | inl full ↦ rw (full, address_members) (one.0, tt)
        | inr (cs, e) ↦
            rw (e, address_members)
              (cons_member-Vouched apps (record m { clients = cs }) (address_members leases ms r.0)
                (reclient-Vouched apps m cs h.0 (rw e at one.1))
                (address_members-Vouched apps leases ms r.0 one.0 h.1))
      ]

  members_with_v6-Vouched :
      (apps : List App) (n : Net) (server : Server) (ms : List MemberAclEntry)
      → All (V apps) ms
      → All (V apps) (members_with_v6 n server ms)
  unfolding members_with_v6
  members_with_v6-Vouched apps n server [] h = tt
  members_with_v6-Vouched apps n server (m ∷ ms) h = (
    reclient-Vouched apps m (clients_with_v6 n server m.clients) h.0 (
        clients_with_v6-ByKey (Registered l i s owner now m.member_id m.identity_key) n server
          m.clients h.0.clients),
    members_with_v6-Vouched apps n server ms h.1,
  )

  -- The members and the apps of a push that passed.
  abbrev PushVouched : Push → Type 0
  PushVouched push = All (V push.apps) push.members × All (AppSigned l i s owner) push.apps

  check_push-Vouched : (st : DeviceState) → OnOk PushVouched (check_push l i s owner now st)
  unfolding check_push
  check_push-Vouched st = OnOk-bind PushVouched (check_apps l i s owner st.apps) _ λ apps e1.
      let signed =
        OnOk-of (All (AppSigned l i s owner)) e1 (check_apps-AppSigned l i s owner st.apps) in
      OnOk-bind PushVouched (check_members l i s owner now apps (apps_by_id apps []) [] st.members)
        _
        λ found e2. (
          OnOk-of
              (λ (found : List MemberAclEntry × List AdmittanceCertificate × Map Text).
                All (V apps) found.0)
              e2 (check_members-Vouched l i s owner now apps [] st.members signed),
          signed,
        )

-- What holds of the store after an apply of `st` under the pinned key `owner`, where `old` is the store
-- before: every member is entitled to be one and its clients, apps and permissions are signed for,
-- every app is signed for, an admin entry carries the pinned key.
pub record SoundStore (l : Libraries) (i : Identity) (now : ℕ) (old : Store) (owner : Text)
    (st : DeviceState) (s : Store) : Type 0 where
  pub members : All (Vouched l i old owner now s.apps) s.members
  pub apps : All (AppSigned l i old owner) s.apps
  pub admins : All (Carries (encode owner)) s.members
  pub pinned : s.pinned_admin_pub_key ≡ some owner
  pub current : s.generation ≡ st.generation

module _ (l : Libraries) (i : Identity) (w : World) (st : DeviceState) (owner : Text) where
  abbrev Sound : Store → Handlers → Type 0
  Sound old h = SoundStore l i w.now old owner st h.acl × IsValid h.allocator

  commit-Sound :
      (push : Push) (ms : List MemberAclEntry) (h : Handlers)
      → h.acl.pinned_admin_pub_key ≡ some owner
      → IsValid h.allocator
      → All (Vouched l i h.acl owner w.now push.apps) ms
      → All (AppSigned l i h.acl owner) push.apps
      → OnApplied (Sound h.acl) (commit l i w st owner push ms h)
  unfolding commit
  commit-Sound push ms h pinned v vm va = elim (reconcile-cases w.unicode ms push.apps h.acl) [
    | inl (e, bad) ↦ rw (bad, commit, conclude) tt
    | inr (fine, good) ↦
        let s = rebuild_indexes w.unicode (record h.acl { members = ms; apps = push.apps }) in
        let done = finish-kept l i w st owner ms (report ms push.apps h.acl) s h v in
        let sound : SoundStore l i w.now h.acl owner st
            (set_applied_generation st.generation (some w.now) s) =
          unfold set_applied_generation rebuild_indexes in
          record {
            members = vm;
            apps = va;
            admins = validate-Carries h.acl ms owner fine pinned;
            pinned = pinned;
            current = refl;
          } in
        subst (λ r. OnApplied (Sound h.acl) (conclude l i w st owner push ms h r)) (sym good)
          (unfold conclude in
            (subst (SoundStore l i w.now h.acl owner st) (sym done.0) sound, done.1))
  ]

  apply_push-Sound :
      (push : Push) (h : Handlers)
      → h.acl.pinned_admin_pub_key ≡ some owner
      → IsValid h.allocator
      → PushVouched l i h.acl owner w.now push
      → OnApplied (Sound h.acl) (apply_push l i w st owner push h)
  unfolding apply_push
  apply_push-Sound push h pinned v p =
      let r = address_members push.leases push.members h.allocator in
      let given =
        address_members-Vouched l i h.acl owner w.now push.apps push.leases push.members h.allocator
          v p.0 in
      elim (Option-cases r.1) [
        | inl full ↦ rw (full, apply_push) tt
        | inr (ms, e) ↦
            rw (e, apply_push)
              (commit-Sound push (members_with_v6 w.net h.server ms) (record h { allocator = r.0 })
                pinned given.0
                (members_with_v6-Vouched l i h.acl owner w.now push.apps w.net h.server ms
                  (rw e at given.1))
                p.1)
      ]

  judge-Sound :
      (key : Option Text) (h : Handlers)
      → key ≡ some owner
      → h.acl.pinned_admin_pub_key ≡ some owner
      → IsValid h.allocator
      → OnApplied (Sound h.acl) (judge l i w st key h)
  unfolding judge
  judge-Sound key h e pinned v = elim (Result-cases (check_push l i h.acl owner w.now st)) [
    | inl (err, bad) ↦ rw (e, bad, judge) tt
    | inr (push, good) ↦
        rw (e, good, judge)
          (apply_push-Sound push h pinned v (
            OnOk-of (PushVouched l i h.acl owner w.now) good
              (check_push-Vouched l i h.acl owner w.now st)))
  ]

  handle_state-Sound :
      (h : Handlers)
      → h.acl.pinned_admin_pub_key ≡ some owner
      → IsValid h.allocator
      → OnApplied (Sound h.acl) (handle_state l i w st h)
  unfolding handle_state
  handle_state-Sound h pinned v =
      elim (Bool-cases (not (is_empty st.device_id) && not (st.device_id == i.device_id))) [
        | inl other ↦ rw (other, handle_state) tt
        | inr ours ↦ elim (Bool-cases (ltb_ℤ st.generation h.acl.generation)) [
          | inl old ↦ rw (ours, old, handle_state) tt
          | inr new ↦
              rw (ours, new, handle_state)
                (judge-Sound h.acl.pinned_admin_pub_key h pinned pinned v)
        ]
      ]

-- Once a push is applied, whatever the service sent, by the key pinned at the agent and with a valid
-- pool of addresses: every member of the store is an admin, or is named with its key by the agent's
-- own certificate, or by an invite that the owner signed and the member's acceptance; every client
-- was registered for its member and this device under the member's own key; a status other than
-- active, every app of the catalogue and every app allowed to a member is signed under the pinned key
-- for this device, and the apps are valid; each app allowed to a member is listed in an envelope
-- for that member under the pinned key, in a certificate of the agent that names it and its key,
-- or in an invite of the owner that it accepted, or the member is an admin and all apps of the
-- catalogue are allowed to it; an admin's entry carries the pinned key; the pin is the same, the
-- generation is that of the push, and the pool is valid.
pub handle_device_state-Sound :
    (l : Libraries) (i : Identity) (w : World) (msg : TunnelMessage) (st : DeviceState)
    (owner : Text) (h : Handlers)
    → decode_device_state l.decoders msg ≡ some st
    → h.acl.pinned_admin_pub_key ≡ some owner
    → IsValid h.allocator
    → OnApplied
        (λ h'. SoundStore l i w.now h.acl owner st h'.acl × IsValid h'.allocator)
        (handle_device_state l i w msg h)
unfolding handle_device_state
handle_device_state-Sound l i w msg st owner h e pinned v =
    rw (e, handle_device_state) (handle_state-Sound l i w st owner h pinned v)
