-- ===== src/Tunnel/Provision/Once.antt =====
-- internal/tunnel/handler.go: that a nonce serves one provision, and what a provision that succeeds has
-- checked and done.
use atreo_agent.Base.{
  Bool, true, false, Text, is_empty, ==_refl, List, [], ◌∷◌, Option, none, some, lookup, delete,
  lookup-delete, ◌≡◌, refl, arith, Bool-cases, Option-cases, inl, inr,
}
use atreo_agent.Base.Result.{Result, ok, failed, Result-cases}
use atreo_agent.Atreolink.{ClientRecord}
use atreo_agent.Acl.Clients.{add_client}
use atreo_agent.Wireguard.Allocator.{allocate}
use atreo_agent.Wireguard.Server.{add_peer, tunnel_ipv6}
use atreo_agent.Tunnel.Verify.{TunnelMessage}
use atreo_agent.Tunnel.State.{Libraries, Identity}
use atreo_agent.Tunnel.Handlers.{Handlers, NonceEntry, World, save}
use atreo_agent.Tunnel.Challenge.{ProvisionPayload, ProvisionError, Rpc, or_else}
use atreo_agent.Tunnel.Provision.{
  check_provision, install_peer, record_client, provide, redeem, with_nonce, handle_provision,
}

abbrev pub Answered : Type 0
Answered = Handlers × Result ProvisionError TunnelMessage

unfoldable pub succeeds : Answered → Bool
succeeds (h, ok msg) = true
succeeds (h, failed e) = false

-- A message, and the world in which it is handled.
unfoldable pub provisions :
    Libraries → Identity → Rpc → List (World × TunnelMessage) → Handlers → Handlers
provisions l i q [] h = h
provisions l i q ((w, msg) ∷ rest) h = provisions l i q rest (handle_provision l i w q msg h).0

module _ (l : Libraries) (i : Identity) (w : World) (q : Rpc) where
  save-nonces : (h : Handlers) → (save w h).nonces ≡ h.nonces
  unfolding save
  save-nonces h = ground arith

  install_peer-nonces :
      (msg : TunnelMessage) (e : NonceEntry) (key ip : Text) (h : Handlers)
      → (install_peer l i w q msg e key ip h).0.nonces ≡ h.nonces
  unfolding install_peer
  install_peer-nonces msg e key ip h =
      let r = add_peer w.host w.net key ip h.server h.log in
      elim (Option-cases r.2) [
        | inl fine ↦ rw (fine, install_peer) (save-nonces (record h { server = r.0; log = r.1 }))
        | inr (why, bad) ↦ rw (bad, install_peer) refl
      ]

  record_client-nonces :
      (msg : TunnelMessage) (e : NonceEntry) (key ip : Text) (h : Handlers)
      → (record_client l i w q msg e key ip h).0.nonces ≡ h.nonces
  unfolding record_client
  record_client-nonces msg e key ip h =
      let c : ClientRecord = record {
        wg_public_key = key;
        tunnel_ip = ip;
        tunnel_ipv6 = tunnel_ipv6 w.net h.server ip;
        label = [];
        platform = [];
        endpoint_type = [];
      } in
      let r = add_client w.unicode e.member_id c h.acl in
      elim (Bool-cases r.1) [
        | inl known ↦
            rw (known, record_client) (install_peer-nonces msg e key ip (record h { acl = r.0 }))
        | inr unknown ↦ rw (unknown, record_client) refl
      ]

  provide-nonces :
      (msg : TunnelMessage) (e : NonceEntry) (key : Text) (h : Handlers)
      → (provide l i w q msg e key h).0.nonces ≡ h.nonces
  unfolding provide
  provide-nonces msg e key h =
      let r = allocate key h.allocator in
      elim (Option-cases r.1) [
        | inl full ↦ rw (full, provide) refl
        | inr (ip, given) ↦
            rw (given, provide) (record_client-nonces msg e key ip (record h { allocator = r.0 }))
      ]

  redeem-nonces :
      (msg : TunnelMessage) (p : ProvisionPayload) (e : Option NonceEntry) (h : Handlers)
      → (redeem l i w q msg p e h).0.nonces ≡ h.nonces
  unfolding redeem
  redeem-nonces msg p none h = refl
  redeem-nonces msg p (some e) h = elim (Result-cases (check_provision l i w q h.acl msg p e)) [
    | inl (err, bad) ↦ rw (bad, redeem) refl
    | inr (u, good) ↦ rw (good, redeem) (provide-nonces msg e (or_else p.client_key e.client_key) h)
  ]

  -- Whatever a provision does, it adds no nonce, and it leaves none under its own id.
  handle_provision-nonces :
      (msg : TunnelMessage) (h : Handlers) (id : Text)
      → lookup id h.nonces ≡ none
      → lookup id (handle_provision l i w q msg h).0.nonces ≡ none
  unfolding handle_provision with_nonce
  handle_provision-nonces msg h id gone = elim (Bool-cases (is_empty q.tunnel_host)) [
    | inl unset ↦ rw (unset, handle_provision) gone
    | inr set ↦ elim (Option-cases (q.provision msg.payload)) [
      | inl garbled ↦ rw (set, garbled, handle_provision) gone
      | inr (p, e) ↦
          let own = or_else p.challenge_correl_id msg.correlation_id in
          let h' = record h { nonces = delete own h.nonces } in
          rw (set, e, handle_provision, with_nonce)
            (rw (redeem-nonces msg p (lookup own h.nonces) h')
              (ground (arith, lookup-delete own id h.nonces)))
    ]
  ]

  own_nonce_gone :
      (msg : TunnelMessage) (h : Handlers) (p : ProvisionPayload)
      → is_empty q.tunnel_host ≡ false
      → q.provision msg.payload ≡ some p
      → lookup
          (or_else p.challenge_correl_id msg.correlation_id)
          (handle_provision l i w q msg h).0.nonces
        ≡ none
  unfolding handle_provision with_nonce
  own_nonce_gone msg h p set e =
      let own = or_else p.challenge_correl_id msg.correlation_id in
      let h' = record h { nonces = delete own h.nonces } in
      rw (set, e, handle_provision, with_nonce)
        (rw (redeem-nonces msg p (lookup own h.nonces) h')
          (ground (arith, lookup-delete own own h.nonces, ==_refl own)))

  gone_refused :
      (msg : TunnelMessage) (h : Handlers)
      → ((p : ProvisionPayload)
          → q.provision msg.payload ≡ some p
          → lookup (or_else p.challenge_correl_id msg.correlation_id) h.nonces ≡ none)
      → succeeds (handle_provision l i w q msg h) ≡ false
  unfolding handle_provision with_nonce redeem succeeds
  gone_refused msg h gone = elim (Bool-cases (is_empty q.tunnel_host)) [
    | inl unset ↦ rw (unset, handle_provision, succeeds)
    | inr set ↦ elim (Option-cases (q.provision msg.payload)) [
      | inl garbled ↦ rw (set, garbled, handle_provision, succeeds)
      | inr (p, e) ↦ rw (set, e, gone p e, handle_provision, with_nonce, redeem, succeeds)
    ]
  ]

module _ (l : Libraries) (i : Identity) (q : Rpc) where
  provisions-nonces :
      (rest : List (World × TunnelMessage)) (h : Handlers) (id : Text)
      → lookup id h.nonces ≡ none
      → lookup id (provisions l i q rest h).nonces ≡ none
  unfolding provisions
  provisions-nonces [] h id gone = gone
  provisions-nonces ((w, msg) ∷ rest) h id gone =
      provisions-nonces rest (handle_provision l i w q msg h).0 id
        (handle_provision-nonces l i w q msg h id gone)

  -- A provision message works at most once: after it was handled, with success or not, and after any
  -- further provision messages, with no challenge in between, the same message is refused, at whatever
  -- time.
  pub replay-refused :
      (w w' : World) (msg : TunnelMessage) (rest : List (World × TunnelMessage)) (h : Handlers)
      → succeeds
          (handle_provision l i w' q msg (provisions l i q rest (handle_provision l i w q msg h).0))
        ≡ false
  unfolding succeeds handle_provision
  replay-refused w w' msg rest h = elim (Bool-cases (is_empty q.tunnel_host)) [
    | inl unset ↦ rw (unset, handle_provision, succeeds)
    | inr set ↦
        gone_refused l i w' q msg (provisions l i q rest (handle_provision l i w q msg h).0) λ p e.
          provisions-nonces rest (handle_provision l i w q msg h).0
            (or_else p.challenge_correl_id msg.correlation_id)
            (own_nonce_gone l i w q msg h p set e)
  ]
