-- ===== src/Tunnel/Handlers/Kept.antt =====
-- `HandleDeviceState` of internal/tunnel/devicestate.go: what the steps of an apply leave alone, and what a push
-- that is not applied leaves alone.
use atreo_agent.Base.{
  not, ◌&&◌, ◌||◌, Text, lit, is_empty, ◌==◌, List, [], ◌∷◌, Option, none, some, ◌≡◌, ◌⊎◌, refl,
  sym, ap, ◌∙◌, subst, arith, Bool-cases, Option-cases, inl, inr,
}
use atreo_agent.Base.Int.{ltb_ℤ}
use atreo_agent.Base.Result.{Result-cases}
use atreo_agent.Atreolink.{Unicode, App, ClientRecord, MemberAclEntry}
use atreo_agent.Acl.{Store, StoreError, validate_admin_pin, rebuild_indexes}
use atreo_agent.Acl.Reconcile.{Report, report, reconcile, nothing_removed, set_applied_generation}
use atreo_agent.Wireguard.Allocator.{IpAllocator, release}
use atreo_agent.Wireguard.Allocator.Unique.{IsValid, release-IsValid}
use atreo_agent.Wireguard.Server.{add_peer, remove_peer}
use atreo_agent.Tunnel.Verify.{TunnelMessage}
use atreo_agent.Tunnel.Wire.{DeviceState, DsCustomDomain}
use atreo_agent.Tunnel.State.{Libraries, Identity}
use atreo_agent.Tunnel.State.Addresses.{address_members, members_with_v6}
use atreo_agent.Tunnel.Handlers.{
  Handlers, World, drop_removed, install_members, suspend_clients, install_clients,
  reconcile_firewall, save,
}
use atreo_agent.Tunnel.Handlers.Device.{
  Outcome, applied, ignored, refused, Push, decode_device_state, check_push, reconcile_domain,
  finish, conclude, commit, apply_push, judge, handle_state, handle_device_state,
}

-- The store and the allocator are the same.
abbrev pub SameState : Handlers → Handlers → Type 0
SameState h h' = (h'.acl ≡ h.acl) × (h'.allocator ≡ h.allocator)

module _ (w : World) where
  drop_removed-kept :
      (keys : List Text) (h : Handlers)
      → IsValid h.allocator
      → ((drop_removed w keys h).acl ≡ h.acl) × IsValid (drop_removed w keys h).allocator
  unfolding drop_removed
  drop_removed-kept [] h v = (refl, v)
  drop_removed-kept (key ∷ keys) h v =
      drop_removed-kept keys
        (record h {
          server = (remove_peer w.host w.net key h.server h.log).0;
          log = (remove_peer w.host w.net key h.server h.log).1;
          allocator = release key h.allocator;
        })
        (release-IsValid h.allocator v key)

  suspend_clients-kept :
      (cs : List ClientRecord) (h : Handlers) → SameState h (suspend_clients w cs h)
  unfolding suspend_clients
  suspend_clients-kept [] h = (refl, refl)
  suspend_clients-kept (c ∷ cs) h = elim (Bool-cases (is_empty c.wg_public_key)) [
    | inl keyless ↦ rw (keyless, suspend_clients) (suspend_clients-kept cs h)
    | inr keyed ↦
        rw (keyed, suspend_clients)
          (suspend_clients-kept cs (record h {
            server = (remove_peer w.host w.net c.wg_public_key h.server h.log).0;
            log = (remove_peer w.host w.net c.wg_public_key h.server h.log).1;
          }))
  ]

  install_clients-kept :
      (cs : List ClientRecord) (h : Handlers) → SameState h (install_clients w cs h)
  unfolding install_clients
  install_clients-kept [] h = (refl, refl)
  install_clients-kept (c ∷ cs) h =
      elim (Bool-cases (is_empty c.wg_public_key || is_empty c.tunnel_ip)) [
        | inl skip ↦ rw (skip, install_clients) (install_clients-kept cs h)
        | inr keyed ↦
            let r = add_peer w.host w.net c.wg_public_key c.tunnel_ip h.server h.log in
            rw (keyed, install_clients)
              (install_clients-kept cs (record h { server = r.0; log = r.1 }))
      ]

  install_members-kept :
      (ms : List MemberAclEntry) (h : Handlers) → SameState h (install_members w ms h)
  unfolding install_members
  install_members-kept [] h = (refl, refl)
  install_members-kept (m ∷ ms) h = elim (Bool-cases (m.status == lit "suspended")) [
    | inl out ↦
        let one = suspend_clients-kept m.clients h in
        let rest = install_members-kept ms (suspend_clients w m.clients h) in
        rw (out, install_members) (rest.0 ∙ one.0, rest.1 ∙ one.1)
    | inr on ↦
        let one = install_clients-kept m.clients h in
        let rest = install_members-kept ms (install_clients w m.clients h) in
        rw (on, install_members) (rest.0 ∙ one.0, rest.1 ∙ one.1)
  ]

  reconcile_firewall-kept : (h : Handlers) → SameState h (reconcile_firewall w h)
  unfolding reconcile_firewall
  reconcile_firewall-kept h = elim (Option-cases w.firewall_reconcile) [
    | inl unset ↦ rw (unset, reconcile_firewall) (refl, refl)
    | inr (f, wired) ↦ rw (wired, reconcile_firewall) (refl, refl)
  ]

  save-kept : (h : Handlers) → SameState h (save w h)
  unfolding save
  save-kept h = ground arith

module _ (l : Libraries) (i : Identity) (w : World) where
  reconcile_domain-kept :
      (owner : Text) (cd : Option DsCustomDomain) (h : Handlers)
      → SameState h (reconcile_domain l i w owner cd h)
  unfolding reconcile_domain
  reconcile_domain-kept owner cd h = elim (Option-cases w.domain) [
    | inl unset ↦ rw (unset, reconcile_domain) (refl, refl)
    | inr (dw, wired) ↦ rw (wired, reconcile_domain) (refl, refl)
  ]

  -- What a whole apply does to the store and to the allocator.
  pub finish-kept :
      (st : DeviceState) (owner : Text) (members : List MemberAclEntry) (rep : Report) (s : Store)
      (h : Handlers)
      → IsValid h.allocator
      → ((finish l i w st owner members rep s h).acl
          ≡ set_applied_generation st.generation (some w.now) s)
        × IsValid (finish l i w st owner members rep s h).allocator
  unfolding finish
  finish-kept st owner members rep s h v =
      let dropped = drop_removed-kept w rep.client_keys (record h { acl = s }) v in
      let h1 = drop_removed w rep.client_keys (record h { acl = s }) in
      let installed = install_members-kept w members h1 in
      let h2 = install_members w members h1 in
      let walled = reconcile_firewall-kept w h2 in
      let served = reconcile_domain-kept owner st.custom_domain (reconcile_firewall w h2) in
      let h3 = reconcile_domain l i w owner st.custom_domain (reconcile_firewall w h2) in
      let h4 = record h3 { acl = set_applied_generation st.generation (some w.now) h3.acl } in
      let stored = save-kept w h4 in
      let same_store : h3.acl ≡ s = served.0 ∙ walled.0 ∙ installed.0 ∙ dropped.0 in
      let same_pool : (save w h4).allocator ≡ h1.allocator =
        stored.1 ∙ served.1 ∙ walled.1 ∙ installed.1 in
      (
        stored.0 ∙ ap (set_applied_generation st.generation (some w.now)) same_store,
        subst IsValid (sym same_pool) dropped.1,
      )

-- What holds after an apply, and what holds when nothing was applied.
abbrev pub Answer : Type 0
Answer = Handlers × Outcome × List TunnelMessage

abbrev pub OnApplied : (Handlers → Type 0) → Answer → Type 0
OnApplied P (h, applied, msgs) = P h
OnApplied P (h, ignored, msgs) = Unit
OnApplied P (h, refused e, msgs) = Unit

-- Besides the pool of addresses nothing has changed, and nothing is sent.
abbrev pub Untouched : Handlers → Answer → Type 0
Untouched h (h', applied, msgs) = Unit
Untouched h (h', ignored, msgs) = (record h' { allocator = h.allocator } ≡ h) × (msgs ≡ [])
Untouched h (h', refused e, msgs) = (record h' { allocator = h.allocator } ≡ h) × (msgs ≡ [])

-- The store refuses the members because of the pin, or takes them.
pub reconcile-cases :
    (u : Unicode) (ms : List MemberAclEntry) (apps : List App) (s : Store)
    → ((e : StoreError) × (reconcile u ms apps s ≡ (s, (nothing_removed, some e))))
      ⊎ ((validate_admin_pin s ms ≡ none)
          × (reconcile u ms apps s ≡ (
            rebuild_indexes u (record s { members = ms; apps = apps }),
            (report ms apps s, none),
          )))
unfolding reconcile
reconcile-cases u ms apps s = elim (Option-cases (validate_admin_pin s ms)) [
  | inl fine ↦ inr (fine, rw (fine, reconcile))
  | inr (e, bad) ↦ inl (e, rw (bad, reconcile))
]

module _ (l : Libraries) (i : Identity) (w : World) where
  commit-Untouched :
      (st : DeviceState) (owner : Text) (push : Push) (ms : List MemberAclEntry) (h : Handlers)
      (a : IpAllocator)
      → Untouched h (commit l i w st owner push ms (record h { allocator = a }))
  unfolding commit
  commit-Untouched st owner push ms h a = elim (reconcile-cases w.unicode ms push.apps h.acl) [
    | inl (e, bad) ↦ rw (bad, commit, conclude) (refl, refl)
    | inr (fine, good) ↦ rw (good, commit, conclude) tt
  ]

  apply_push-Untouched :
      (st : DeviceState) (owner : Text) (push : Push) (h : Handlers)
      → Untouched h (apply_push l i w st owner push h)
  unfolding apply_push
  apply_push-Untouched st owner push h =
      let r = address_members push.leases push.members h.allocator in
      elim (Option-cases r.1) [
        | inl full ↦ rw (full, apply_push) (refl, refl)
        | inr (ms, e) ↦
            rw (e, apply_push)
              (commit-Untouched st owner push (members_with_v6 w.net h.server ms) h r.0)
      ]

  judge-Untouched :
      (st : DeviceState) (pinned : Option Text) (h : Handlers)
      → Untouched h (judge l i w st pinned h)
  unfolding judge
  judge-Untouched st none h = (refl, refl)
  judge-Untouched st (some owner) h = elim (Result-cases (check_push l i h.acl owner w.now st)) [
    | inl (e, bad) ↦ rw (bad, judge) (refl, refl)
    | inr (push, good) ↦ rw (good, judge) (apply_push-Untouched st owner push h)
  ]

  handle_state-Untouched : (st : DeviceState) (h : Handlers) → Untouched h (handle_state l i w st h)
  unfolding handle_state
  handle_state-Untouched st h =
      elim (Bool-cases (not (is_empty st.device_id) && not (st.device_id == i.device_id))) [
        | inl other ↦ rw (other, handle_state) (refl, refl)
        | inr ours ↦ elim (Bool-cases (ltb_ℤ st.generation h.acl.generation)) [
          | inl old ↦ rw (ours, old, handle_state) (refl, refl)
          | inr new ↦ rw (ours, new, handle_state) (judge-Untouched st h.acl.pinned_admin_pub_key h)
        ]
      ]

  -- A push that is not applied, because it does not decode, is for another device, is older than the
  -- applied state, or fails any check, or because the pool is full or the store refuses it, leaves the
  -- store, the peers and the commands, the firewall, the custom domain, the liveness state and the file
  -- as they were, and nothing is sent. Only the pool of addresses may differ.
  pub handle_device_state-Untouched :
      (msg : TunnelMessage) (h : Handlers) → Untouched h (handle_device_state l i w msg h)
  unfolding handle_device_state
  handle_device_state-Untouched msg h = elim (Option-cases (decode_device_state l.decoders msg)) [
    | inl garbled ↦ rw (garbled, handle_device_state) (refl, refl)
    | inr (st, e) ↦ rw (e, handle_device_state) (handle_state-Untouched st h)
  ]
