-- ===== src/Tunnel/Commands/Owner.antt =====
-- internal/tunnel/handler.go: who can make the agent give up its pairing.
use atreo_agent.Base.{
  ◌/◌, true, false, Text, lit, is_empty, ◌==◌, ◌||◌, [], ◌∷◌, some, ◌≡◌, inl, inr,
}
use atreo_agent.Base.Result.{ok, OnOk, OnOk-of, OnOk-need, OnOk-require, map_error, Result-cases}
use atreo_agent.Base.Base64.{IsBytes}
use atreo_agent.Acl.{Store}
use atreo_agent.Acl.Run.Pinned.{PinHonoured}
use atreo_agent.Tunnel.Verify.{TunnelMessage, admin_auth, verify_command, verify_signature_against}
use atreo_agent.Tunnel.Verify.Signed.{verify_command-pinned}
use atreo_agent.Tunnel.Wire.{int64, joined}
use atreo_agent.Tunnel.State.{Libraries, Identity}
use atreo_agent.Tunnel.Handlers.{World}
use atreo_agent.Tunnel.Commands.{
  DevicePayload, bad_payload, wrong_device, command_refused, Process, Payloads, admin_command,
  handle_unpaired,
}

module _ (l : Libraries) (i : Identity) (w : World) (q : Payloads) (owner : Text)
    (bytes : IsBytes owner) where
  abbrev Signs : TunnelMessage → Type 0
  Signs msg = verify_signature_against l.crypto l.codec msg owner ≡ ok tt

  admin_command-signed :
      (intent : Text) (s : Store) (msg : TunnelMessage)
      → PinHonoured s
      → s.pinned_admin_pub_key ≡ some owner
      → OnOk (λ u. Signs msg) (admin_command l i w q intent s msg)
  unfolding admin_command
  admin_command-signed intent s msg honoured pinned =
      OnOk-need (λ u. Signs msg) (q.device msg.payload) bad_payload _
        λ payload e1.
          OnOk-require (λ u. Signs msg)
            (is_empty payload.device_id || payload.device_id == i.device_id) wrong_device _
            λ v e2. last payload
    where
      last :
          (payload : DevicePayload)
          → OnOk
              (λ u. Signs msg)
              (map_error command_refused (
                verify_command l.crypto l.codec s
                  (w.now / 1_000_000_000)
                  msg
                  admin_auth
                  payload.fields
                  (joined intent (i.device_id ∷ l.digits (int64 payload.fields.timestamp) ∷ []))))
      last payload =
          let expected =
            joined intent (i.device_id ∷ l.digits (int64 payload.fields.timestamp) ∷ []) in
          elim (Result-cases (
            verify_command l.crypto l.codec s (w.now / 1_000_000_000) msg admin_auth payload.fields
              expected)) [
                | inl (e, bad) ↦ rw bad tt
                | inr (u, good) ↦
                    rw good
                      (verify_command-pinned l.crypto l.codec s (w.now / 1_000_000_000) msg
                        payload.fields expected owner honoured pinned bytes good).0
              ]

  -- In a store whose admin entries carry the pinned key, only a message whose signature verifies under
  -- the pinned key makes the agent stop: if a running agent no longer runs after the command, the
  -- message carries such a signature.
  pub handle_unpaired-signed :
      (msg : TunnelMessage) (p : Process)
      → PinHonoured p.handlers.acl
      → p.handlers.acl.pinned_admin_pub_key ≡ some owner
      → p.running ≡ true
      → (handle_unpaired l i w q msg p).0.running ≡ false
      → Signs msg
  unfolding handle_unpaired
  handle_unpaired-signed msg p honoured pinned on off =
      elim (Result-cases (admin_command l i w q (lit "unpair-device") p.handlers.acl msg)) [
        | inl (e, bad) ↦ absurd (clash (rw (bad, handle_unpaired, on) at off))
        | inr (u, good) ↦
            OnOk-of (λ u. Signs msg) good
              (admin_command-signed (lit "unpair-device") p.handlers.acl msg honoured pinned)
      ]
    where
      clash : (true ≡ false) → ⊥
      clash e = cc
