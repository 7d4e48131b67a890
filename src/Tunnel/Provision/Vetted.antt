-- ===== src/Tunnel/Provision/Vetted.antt =====
-- internal/tunnel/handler.go: what the checks of `HandleProvision` establish.
use atreo_agent.Base.{
  ℕ, ◌+◌, ◌/◌, true, false, not, Text, lit, ◌==◌, ltb, [], ◌∷◌, ◌≡◌, arith, inl, inr,
}
use atreo_agent.Base.Result.{ok, map_error, OnOk, OnOk-of, OnOk-require, Result-cases}
use atreo_agent.Acl.{Store}
use atreo_agent.Canonjson.{Codec}
use atreo_agent.Tunnel.{Crypto}
use atreo_agent.Tunnel.Verify.{
  TunnelMessage, CommandEnvelopeFields, member_auth, authorise, require_member, verify_command,
  verify_envelope, acl_lookup, is_fresh,
}
use atreo_agent.Tunnel.Wire.{int64, joined}
use atreo_agent.Tunnel.State.{Libraries, Identity}
use atreo_agent.Tunnel.Handlers.{NonceEntry, World}
use atreo_agent.Tunnel.Challenge.{
  ProvisionPayload, Rpc, short_lived_ttl, member_command, command_refused,
}
use atreo_agent.Tunnel.Provision.{check_provision}

-- A fresh command of a member: its intent, its time, its signer, and the signature under the key that
-- the store has for the member.
pub record Commanded (k : Crypto) (c : Codec) (s : Store) (now : ℕ) (msg : TunnelMessage)
    (id : Text) (env : CommandEnvelopeFields) (intent : Text) : Type 0 where
  pub meant : (env.intent == intent) ≡ true
  pub recent : is_fresh now env.timestamp ≡ true
  pub signer : (msg.signer_id == id) ≡ true
  pub signature : verify_envelope k c msg (acl_lookup s) ≡ ok tt

module _ (k : Crypto) (c : Codec) (s : Store) (now : ℕ) (msg : TunnelMessage) (id : Text)
    (env : CommandEnvelopeFields) (intent : Text) where
  verify_command-Commanded :
      OnOk
        (λ u. Commanded k c s now msg id env intent)
        (verify_command k c s now msg (member_auth id) env intent)
  unfolding verify_command authorise require_member
  verify_command-Commanded =
      let P = λ (u : Unit). Commanded k c s now msg id env intent in
      OnOk-require P (env.intent == intent) _ _ λ u1 meant.
        OnOk-require P (is_fresh now env.timestamp) _ _ λ u2 recent.
          OnOk-require P (msg.signer_id == id) _ _ λ u3 signer. last meant recent signer
    where
      last :
          (env.intent == intent) ≡ true
          → is_fresh now env.timestamp ≡ true
          → (msg.signer_id == id) ≡ true
          → OnOk
              (λ u. Commanded k c s now msg id env intent)
              (verify_envelope k c msg (acl_lookup s))
      last meant recent signer = elim (Result-cases (verify_envelope k c msg (acl_lookup s))) [
        | inl (e, bad) ↦ rw bad tt
        | inr (u, good) ↦
            rw good (record { meant = meant; recent = recent; signer = signer; signature = good })
      ]

module _ (l : Libraries) (i : Identity) (w : World) (q : Rpc) (s : Store) (msg : TunnelMessage)
    (p : ProvisionPayload) (e : NonceEntry) where
  -- The nonce was issued at most five minutes before, the message has it, and the member for whom it
  -- was issued signed the message.
  pub record Vetted : Type 0 where
    pub live : ltb (e.created_at + short_lived_ttl) w.now ≡ false
    pub same : (p.nonce == e.nonce) ≡ true
    pub command : Commanded l.crypto l.codec s (w.now / 1_000_000_000) msg e.member_id p.fields (
        joined
          (lit "wg:provision")
          (e.member_id ∷ p.client_id ∷ p.nonce ∷ l.digits (int64 p.fields.timestamp) ∷ []))

  pub check_provision-Vetted : OnOk (λ u. Vetted) (check_provision l i w q s msg p e)
  unfolding check_provision member_command
  check_provision-Vetted =
      OnOk-require (λ u. Vetted) (not (ltb (e.created_at + short_lived_ttl) w.now)) _ _
        λ u1 live.
          OnOk-require (λ u. Vetted) (p.nonce == e.nonce) _ _ λ u2 same. last (ground arith) same
    where
      last :
          ltb (e.created_at + short_lived_ttl) w.now ≡ false
          → (p.nonce == e.nonce) ≡ true
          → OnOk
              (λ u. Vetted)
              (map_error command_refused (
                verify_command l.crypto l.codec s
                  (w.now / 1_000_000_000)
                  msg
                  (member_auth e.member_id)
                  p.fields
                  (joined (lit "wg:provision") (
                    e.member_id
                    ∷ p.client_id
                    ∷ p.nonce
                    ∷ l.digits (int64 p.fields.timestamp)
                    ∷ []))))
      last live same =
          let expected =
            joined (lit "wg:provision")
              (e.member_id ∷ p.client_id ∷ p.nonce ∷ l.digits (int64 p.fields.timestamp) ∷ []) in
          let found =
            verify_command-Commanded l.crypto l.codec s (w.now / 1_000_000_000) msg e.member_id
              p.fields expected in
          elim (Result-cases (
            verify_command l.crypto l.codec s (w.now / 1_000_000_000) msg (member_auth e.member_id)
              p.fields expected)) [
                | inl (err, bad) ↦ rw bad tt
                | inr (u, good) ↦ rw good (record {
                  live = live;
                  same = same;
                  command =
                      OnOk-of
                        (λ u.
                          Commanded l.crypto l.codec s (w.now / 1_000_000_000) msg e.member_id
                            p.fields expected)
                        good found;
                })
              ]
