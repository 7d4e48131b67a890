-- ===== src/Tunnel/Verify/Signed.antt =====
-- internal/tunnel/verify.go: whose signature a message that passed must carry.
use atreo_agent.Base.{
  ℕ, zero, suc, OnSome, Bool, true, false, ◌||◌, Text, is_empty, ◌==◌, ==_iff, eqb, length, List,
  [], ◌∷◌, Option, none, some, get_elem?, All, ◌≡◌, refl, sym, ap, subst, ◌∙◌, Option-cases,
  Bool-cases, inl, inr, eqb_iff,
}
use atreo_agent.Base.Result.{ok, failed, OnOk, OnOk-of, Result-cases}
use atreo_agent.Base.Base64.{encode, decode, IsBytes, decode-encode}
use atreo_agent.Canonjson.{Codec, Json}
use atreo_agent.Canonjson.Order.{Same, marshal_raw-Same}
use atreo_agent.Atreolink.{MemberAclEntry}
use atreo_agent.Acl.{Store, is_admin_role, at_index, lookup_by_member_id}
use atreo_agent.Acl.Run.Pinned.{Carries, PinHonoured}
use atreo_agent.Tunnel.{Crypto, public_key_size}
use atreo_agent.Tunnel.Verify.{
  TunnelMessage, VerifyError, Verdict, canonical, verify_envelope, verify_signature_against,
  acl_lookup, require_admin, admin_auth, authorise, CommandEnvelopeFields, is_fresh, verify_command,
}

-- The key that the base64 text stands for, of the size of a public key, under which the message verifies.
abbrev pub KeyedBy : Crypto → Codec → TunnelMessage → Text → Type 0
KeyedBy k c msg b64 =
    (key : Text) × (decode b64 ≡ some key)
    × (length key ≡ public_key_size)
    × (verify_signature_against k c msg key ≡ ok tt)

module _ (k : Crypto) (c : Codec) (msg : TunnelMessage) where
  -- The check against a key, where everything before the signature itself is in order.
  checked :
      (key sig canon : Text)
      → (is_empty msg.signer_id || is_empty msg.signature) ≡ false
      → decode msg.signature ≡ some sig
      → canonical c msg.payload ≡ ok canon
      → k.verify key canon sig ≡ true
      → verify_signature_against k c msg key ≡ ok tt
  unfolding verify_signature_against
  checked key sig canon named es ec v = rw (named, es, ec, v, verify_signature_against) refl

  envelope :
      (find : Text → Option Text)
      → OnOk
          (λ u. (b64 : Text) × (find msg.signer_id ≡ some b64) × KeyedBy k c msg b64)
          (verify_envelope k c msg find)
  unfolding verify_envelope
  envelope find = elim (Bool-cases (is_empty msg.signer_id || is_empty msg.signature)) [
    | inl blank ↦ rw (blank, verify_envelope) tt
    | inr named ↦ elim (Option-cases (find msg.signer_id)) [
      | inl unknown ↦ rw (named, unknown, verify_envelope) tt
      | inr (b64, found) ↦ elim (Bool-cases (is_empty b64)) [
        | inl keyless ↦ rw (named, found, keyless, verify_envelope) tt
        | inr keyed ↦ elim (Option-cases (decode b64)) [
          | inl garbled ↦ rw (named, found, keyed, garbled, verify_envelope) tt
          | inr (key, dk) ↦ elim (Bool-cases (eqb (length key) public_key_size)) [
            | inr wrong ↦ rw (named, found, keyed, dk, wrong, verify_envelope) tt
            | inl size ↦ elim (Option-cases (decode msg.signature)) [
              | inl garbled ↦ rw (named, found, keyed, dk, size, garbled, verify_envelope) tt
              | inr (sig, ds) ↦ elim (Result-cases (canonical c msg.payload)) [
                | inl (e, bad) ↦ rw (named, found, keyed, dk, size, ds, bad, verify_envelope) tt
                | inr (canon, good) ↦ elim (Bool-cases (k.verify key canon sig)) [
                  | inr forged ↦
                      rw (named, found, keyed, dk, size, ds, good, forged, verify_envelope) tt
                  | inl v ↦
                      rw (named, found, keyed, dk, size, ds, good, v, verify_envelope)
                        (
                          b64,
                          refl,
                          (
                            key,
                            dk,
                            (eqb_iff (length key) public_key_size).0 size,
                            checked key sig canon named ds good v,
                          ),
                        )
                ]
              ]
            ]
          ]
        ]
      ]
    ]
  ]

  module _ (s : Store) where
    acl_lookup-of :
        (id : Text) (m : MemberAclEntry)
        → lookup_by_member_id s id ≡ some m
        → acl_lookup s id ≡ some m.identity_key
    unfolding acl_lookup
    acl_lookup-of id m e = rw (e, acl_lookup) refl

    -- An accepted message of an admin is signed with the key of the signer's entry, an admin's or owner's.
    admin :
        OnOk
          (λ u.
            (m : MemberAclEntry) × (lookup_by_member_id s msg.signer_id ≡ some m)
            × (is_admin_role m.role ≡ true)
            × KeyedBy k c msg m.identity_key)
          (require_admin k c s msg)
    unfolding require_admin
    admin = elim (Bool-cases (is_empty msg.signer_id)) [
      | inl blank ↦ rw (blank, require_admin) tt
      | inr named ↦ elim (Option-cases (lookup_by_member_id s msg.signer_id)) [
        | inl unknown ↦ rw (named, unknown, require_admin) tt
        | inr (m, found) ↦ elim (Bool-cases (is_admin_role m.role)) [
          | inr guest ↦ rw (named, found, guest, require_admin) tt
          | inl role ↦ elim (Result-cases (verify_envelope k c msg (acl_lookup s))) [
            | inl (e, bad) ↦ rw (named, found, role, bad, require_admin) tt
            | inr (u, good) ↦
                rw (named, found, role, good, require_admin)
                  (m, refl, role, of_entry m found (OnOk-of _ good (envelope (acl_lookup s))))
          ]
        ]
      ]
    ]
      where
        of_entry :
            (m : MemberAclEntry)
            → lookup_by_member_id s msg.signer_id ≡ some m
            → (b64 : Text) × (acl_lookup s msg.signer_id ≡ some b64) × KeyedBy k c msg b64
            → KeyedBy k c msg m.identity_key
        of_entry m found (b64, e, keyed) =
            subst (KeyedBy k c msg) (same b64 (sym e ∙ acl_lookup-of msg.signer_id m found)) keyed
          where
            same : (b64 : Text) → some b64 ≡ some m.identity_key → b64 ≡ m.identity_key
            same b64 h = cc

-- An entry that a lookup finds is one of the members.
All-get_elem? :
    (P : MemberAclEntry → Type 0) (ms : List MemberAclEntry) (i : ℕ) (m : MemberAclEntry)
    → All P ms
    → get_elem? ms i ≡ some m
    → P m
All-get_elem? P [] i m h e = cc
All-get_elem? P (x ∷ ms) zero m h e = subst (OnSome P) e h.0
All-get_elem? P (x ∷ ms) (suc i) m h e = All-get_elem? P ms i m h.1 e

All-at_index :
    (P : MemberAclEntry → Type 0) (s : Store) (o : Option ℕ) (m : MemberAclEntry)
    → All P s.members
    → at_index s o ≡ some m
    → P m
unfolding at_index
All-at_index P s none m h e = cc
All-at_index P s (some i) m h e = All-get_elem? P s.members i m h e

-- In a store whose admin and owner entries carry the pinned key, which is a list of bytes, a
-- command that only an admin may give is accepted only if its signature verifies under the pinned
-- key, its intent is the expected one and its timestamp is fresh.
pub verify_command-pinned :
    (k : Crypto) (c : Codec) (s : Store) (now : ℕ) (msg : TunnelMessage)
    (env : CommandEnvelopeFields) (expected key : Text)
    → PinHonoured s
    → s.pinned_admin_pub_key ≡ some key
    → IsBytes key
    → verify_command k c s now msg admin_auth env expected ≡ ok tt
    → (verify_signature_against k c msg key ≡ ok tt)
      × (env.intent ≡ expected)
      × (is_fresh now env.timestamp ≡ true)
unfolding verify_command authorise lookup_by_member_id
verify_command-pinned k c s now msg env expected key honoured pinned bytes h =
    elim (Bool-cases (env.intent == expected)) [
      | inr other ↦ absurd (clash (rw (other, verify_command) at h))
      | inl intent ↦ elim (Bool-cases (is_fresh now env.timestamp)) [
        | inr stale ↦ absurd (clash (rw (intent, stale, verify_command) at h))
        | inl fresh ↦
            let (m, found, role, keyed) =
              OnOk-of _ (rw (intent, fresh, verify_command) at h) (admin k c msg s) in
            let carries = All-at_index (Carries (encode key)) s _ m (honoured key pinned) found in
            (by_pin m carries role keyed, (==_iff env.intent expected).0 intent, fresh)
      ]
    ]
  where
    clash : {e : VerifyError} → ◌≡◌ {A = Verdict} (failed e) (ok tt) → ⊥
    clash e = cc

    by_pin :
        (m : MemberAclEntry)
        → Carries (encode key) m
        → is_admin_role m.role ≡ true
        → KeyedBy k c msg m.identity_key
        → verify_signature_against k c msg key ≡ ok tt
    by_pin m carries role (found_key, e, size, v) =
        subst (λ x. verify_signature_against k c msg x ≡ ok tt)
          (same found_key (sym e ∙ ap decode (carries role) ∙ decode-encode key bytes)) v
      where
        same : (a : Text) → some a ≡ some key → a ≡ key
        same a h = cc

-- The payload of a message may be replaced by another document that decodes to the same tree up to
-- the order of fields, and of which the decoder says alike whether more follows: the envelope gets
-- the same verdict.
pub verify_envelope-reordered :
    (k : Crypto) (c : Codec) (msg : TunnelMessage) (find : Text → Option Text) (other : Text)
    (a b : Json) (more : Bool)
    → c.decode msg.payload ≡ some (a, more)
    → c.decode other ≡ some (b, more)
    → Same a b
    → verify_envelope k c (record msg { payload = other }) find ≡ verify_envelope k c msg find
unfolding verify_envelope canonical
verify_envelope-reordered k c msg find other a b more ea eb same = rw canonical_same refl
  where
    canonical_same : canonical c other ≡ canonical c msg.payload
    canonical_same = rw (marshal_raw-Same c msg.payload other a b more ea eb same, canonical) refl
