-- ===== src/Tunnel/Provision/Provided.antt =====
-- internal/tunnel/handler.go: what a provision that succeeds has checked, and what it leaves.
use atreo_agent.Base.{
  Text, is_empty, ==_refl, List, [], Option, none, some, lookup, delete, lookup-insert, OnSome, ◌≡◌,
  refl, subst, ◌∙◌, arith, Bool-cases, Option-cases, inl, inr,
}
use atreo_agent.Base.Result.{Result, ok, failed, OnOk-of, Result-cases}
use atreo_agent.Atreolink.{ClientRecord}
use atreo_agent.Acl.Clients.{add_client}
use atreo_agent.Firewall.{Command}
use atreo_agent.Wireguard.Allocator.{IpAllocator, allocate, assign, first_free}
use atreo_agent.Wireguard.Server.{Server, add_peer, tunnel_ipv6}
use atreo_agent.Wireguard.Server.Peers.{adds, step, result, table, meaning, updated, table-step}
use atreo_agent.Tunnel.Verify.{TunnelMessage}
use atreo_agent.Tunnel.State.{Libraries, Identity}
use atreo_agent.Tunnel.Handlers.{Handlers, NonceEntry, World, save}
use atreo_agent.Tunnel.Challenge.{ProvisionPayload, ProvisionError, Rpc, or_else}
use atreo_agent.Tunnel.Provision.{
  check_provision, respond, install_peer, record_client, provide, redeem, with_nonce,
  handle_provision,
}
use atreo_agent.Tunnel.Provision.Vetted.{Vetted, check_provision-Vetted}
use atreo_agent.Tunnel.Provision.Once.{Answered}

abbrev pub OnProvided : (Handlers → Type 0) → Answered → Type 0
OnProvided P (h, ok msg) = P h
OnProvided P (h, failed e) = Unit

allocate-held :
    (key : Text) (a : IpAllocator)
    → OnSome (λ ip. lookup key (allocate key a).0.allocated ≡ some ip) (allocate key a).1
unfolding allocate assign
allocate-held key a = elim (Option-cases (lookup key a.allocated)) [
  | inr (old, held) ↦ rw (held, allocate) held
  | inl new ↦ elim (Option-cases (first_free 253 2 a)) [
    | inl full ↦ rw (new, full, allocate) tt
    | inr (ip, e) ↦
        rw (new, e, allocate) (ground (arith, lookup-insert key key ip a.allocated, ==_refl key))
  ]
]

add_peer-table_self :
    (w : World) (key ip : Text) (s : Server) (log : List Command)
    → (add_peer w.host w.net key ip s log).2 ≡ none
    → table (add_peer w.host w.net key ip s log).0 key ≡ some ip
unfolding step result meaning updated
add_peer-table_self w key ip s log fine =
    let one = table-step w.host w.net (adds key ip) (s, log) key in
    one ∙ rw (fine, meaning, ==_refl key)

-- The key is a peer at this address, which the allocator holds for it.
abbrev Installed : Text → Text → Handlers → Type 0
Installed key ip h = (table h.server key ≡ some ip) × (lookup key h.allocator.allocated ≡ some ip)

-- The store may be written: nothing of this changes.
save-Installed :
    (w : World) (key ip : Text) (h : Handlers) → Installed key ip h → Installed key ip (save w h)
unfolding save
save-Installed w key ip h v = elim (Bool-cases w.saves) [
  | inl on ↦ rw (on, save) v
  | inr off ↦ rw (off, save) v
]

on_answer :
    (P : Handlers → Type 0) (h : Handlers) (r : Result ProvisionError TunnelMessage)
    → P h
    → OnProvided P (h, r)
on_answer P h (ok m) p = p
on_answer P h (failed e) p = tt

module _ (l : Libraries) (i : Identity) (w : World) (q : Rpc) (msg : TunnelMessage) where
  install_peer-Installed :
      (e : NonceEntry) (key ip : Text) (h : Handlers)
      → lookup key h.allocator.allocated ≡ some ip
      → OnProvided (Installed key ip) (install_peer l i w q msg e key ip h)
  unfolding install_peer
  install_peer-Installed e key ip h held =
      let r = add_peer w.host w.net key ip h.server h.log in
      let h' : Handlers = record h { server = r.0; log = r.1 } in
      elim (Option-cases r.2) [
        | inr (why, bad) ↦ rw (bad, install_peer) tt
        | inl fine ↦
            let done : Installed key ip h' =
              (add_peer-table_self w key ip h.server h.log fine, held) in
            rw (fine, install_peer)
              (on_answer (Installed key ip) (save w h') (respond l i w q msg e key ip h')
                (save-Installed w key ip h' done))
      ]

  record_client-Installed :
      (e : NonceEntry) (key ip : Text) (h : Handlers)
      → lookup key h.allocator.allocated ≡ some ip
      → OnProvided (Installed key ip) (record_client l i w q msg e key ip h)
  unfolding record_client
  record_client-Installed e key ip h held =
      let c : ClientRecord = record {
        wg_public_key = key;
        tunnel_ip = ip;
        tunnel_ipv6 = tunnel_ipv6 w.net h.server ip;
        label = [];
        platform = [];
        endpoint_type = [];
      } in
      let r = add_client w.unicode e.member_id c h.acl in
      elim (Bool-cases r.1) [
        | inl known ↦
            rw (known, record_client)
              (install_peer-Installed e key ip (record h { acl = r.0 }) held)
        | inr unknown ↦ rw (unknown, record_client) tt
      ]

  -- What a provision that succeeded has checked in `h`, and what it has left in `h'`.
  pub record Provided (h h' : Handlers) : Type 0 where
    pub payload : ProvisionPayload
    pub entry : NonceEntry
    pub ip : Text
    pub decodes : q.provision msg.payload ≡ some payload
    pub found :
        lookup (or_else payload.challenge_correl_id msg.correlation_id) h.nonces ≡ some entry
    pub vetted : Vetted l i w q h.acl msg payload entry
    pub peer : table h'.server (or_else payload.client_key entry.client_key) ≡ some ip
    pub held : lookup (or_else payload.client_key entry.client_key) h'.allocator.allocated ≡ some ip

  provide-Provided :
      (h h0 : Handlers) (p : ProvisionPayload) (e : NonceEntry)
      → q.provision msg.payload ≡ some p
      → lookup (or_else p.challenge_correl_id msg.correlation_id) h.nonces ≡ some e
      → check_provision l i w q h.acl msg p e ≡ ok tt
      → OnProvided (Provided h) (provide l i w q msg e (or_else p.client_key e.client_key) h0)
  unfolding provide
  provide-Provided h h0 p e decodes found checked =
      let key = or_else p.client_key e.client_key in
      let r = allocate key h0.allocator in
      let held = allocate-held key h0.allocator in
      elim (Option-cases r.1) [
        | inl full ↦ rw (full, provide) tt
        | inr (ip, given) ↦
            rw (given, provide)
              (widen key ip
                (λ h' v. record {
                  payload = p;
                  entry = e;
                  ip = ip;
                  decodes = decodes;
                  found = found;
                  vetted =
                      OnOk-of (λ u. Vetted l i w q h.acl msg p e) checked
                        (check_provision-Vetted l i w q h.acl msg p e);
                  peer = v.0;
                  held = v.1;
                })
                (record_client l i w q msg e key ip (record h0 { allocator = r.0 }))
                (record_client-Installed e key ip (record h0 { allocator = r.0 })
                  (rw given at held)))
      ]
    where
      widen :
          (key ip : Text)
          → ((h' : Handlers) → Installed key ip h' → Provided h h')
          → (r : Answered) → OnProvided (Installed key ip) r
          → OnProvided (Provided h) r
      widen key ip f (h', ok m) v = f h' v
      widen key ip f (h', failed err) v = tt

  redeem-Provided :
      (h h0 : Handlers) (p : ProvisionPayload) (e : Option NonceEntry)
      → h0.acl ≡ h.acl
      → q.provision msg.payload ≡ some p
      → lookup (or_else p.challenge_correl_id msg.correlation_id) h.nonces ≡ e
      → OnProvided (Provided h) (redeem l i w q msg p e h0)
  unfolding redeem
  redeem-Provided h h0 p none same decodes found = tt
  redeem-Provided h h0 p (some e) same decodes found =
      elim (Result-cases (check_provision l i w q h0.acl msg p e)) [
        | inl (err, bad) ↦ rw (bad, redeem) tt
        | inr (u, good) ↦
            rw (good, redeem)
              (provide-Provided h h0 p e decodes found
                (subst (λ s. check_provision l i w q s msg p e ≡ ok tt) same good))
      ]

  -- A provision that succeeds had a nonce under its id that was issued at most five minutes before, for
  -- a member whose key in the store signed this nonce freshly; afterwards the client's key is a peer of
  -- the device at the very address that the allocator holds for it.
  pub handle_provision-Provided :
      (h : Handlers) → OnProvided (Provided h) (handle_provision l i w q msg h)
  unfolding handle_provision with_nonce
  handle_provision-Provided h = elim (Bool-cases (is_empty q.tunnel_host)) [
    | inl unset ↦ rw (unset, handle_provision) tt
    | inr set ↦ elim (Option-cases (q.provision msg.payload)) [
      | inl garbled ↦ rw (set, garbled, handle_provision) tt
      | inr (p, e) ↦
          let own = or_else p.challenge_correl_id msg.correlation_id in
          rw (set, e, handle_provision, with_nonce)
            (redeem-Provided h (record h { nonces = delete own h.nonces }) p (lookup own h.nonces)
              refl e refl)
    ]
  ]
