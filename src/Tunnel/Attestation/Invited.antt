-- ===== src/Tunnel/Attestation/Invited.antt =====
-- internal/tunnel/attestation.go: what an accepted attestation shows.
use atreo_agent.Base.{
  ℕ, ◌+◌, ◌≤◌, true, false, ◌||◌, Text, is_empty, ◌==◌, ==_iff, eqb, eqb_iff, leb, length, some,
  ◌≡◌, refl, subst, ◌⊎◌, arith, Option-cases, Bool-cases, inl, inr,
}
use atreo_agent.Base.Result.{ok, OnOk, OnOk-of, Result-cases}
use atreo_agent.Base.Base64.{decode}
use atreo_agent.Canonjson.{Codec}
use atreo_agent.Atreolink.{JoinAttestation, MemberAclEntry}
use atreo_agent.Tunnel.{Crypto, public_key_size}
use atreo_agent.Tunnel.Attestation.{
  InvitePayload, Parsers, invite_expiry_skew, canonical_payload, owner_signed, check_expiry,
  check_scope, public_key, check_acceptance, acceptance_of, verify_join_attestation,
}

-- The owner's key signs the canonical payload, and the payload is what was parsed.
pub record SignedByOwner (k : Crypto) (c : Codec) (p : Parsers) (att : JoinAttestation)
    (owner : Text) (inv : InvitePayload) : Type 0 where
  pub bytes : Text
  pub canon : Text
  pub sig : Text
  pub bytes_of : decode att.invite_payload ≡ some bytes
  pub canon_of : canonical_payload c bytes ≡ ok canon
  pub sig_of : decode att.owner_sig ≡ some sig
  pub verifies : k.verify owner canon sig ≡ true
  pub parsed : p.payload bytes ≡ some inv

-- Made for this agent, and without a date or not five minutes past it.
pub record InScope (p : Parsers) (inv : InvitePayload) (nas : Text) (now : ℕ) : Type 0 where
  pub for_agent : inv.nas_pubkey ≡ nas
  pub known_agent : is_empty nas ≡ false
  pub in_time :
      (is_empty inv.expires_at ≡ true)
      ⊎ ((t : ℕ) × (p.time inv.expires_at ≡ some t) × (now ≤ t + invite_expiry_skew))

-- The key of the invite signs the member's key.
pub record AcceptedBy (k : Crypto) (inv : InvitePayload) (member : MemberAclEntry)
    (acceptance : Text) : Type 0 where
  pub invite_pub : Text
  pub member_pub : Text
  pub sig : Text
  pub invite_pub_of : decode inv.invite_pub ≡ some invite_pub
  pub member_pub_of : decode member.identity_key ≡ some member_pub
  pub member_pub_size : length member_pub ≡ public_key_size
  pub sig_of : decode acceptance ≡ some sig
  pub verifies : k.verify invite_pub member_pub sig ≡ true

owner :
    (k : Crypto) (c : Codec) (p : Parsers) (att : JoinAttestation) (key : Text)
    → OnOk (SignedByOwner k c p att key) (owner_signed k c p (some att) (some key))
unfolding owner_signed
owner k c p att key =
    elim (Bool-cases
      (is_empty att.invite_payload || (is_empty att.owner_sig || is_empty att.acceptance_sig))) [
        | inl bad ↦ rw (bad, owner_signed) tt
        | inr filled ↦ elim (Option-cases (decode att.invite_payload)) [
          | inl bad ↦ rw (filled, bad, owner_signed) tt
          | inr (bytes, hb) ↦ elim (Result-cases (canonical_payload c bytes)) [
            | inl (err, bad) ↦ rw (filled, hb, bad, owner_signed) tt
            | inr (canon, hc) ↦ elim (Option-cases (decode att.owner_sig)) [
              | inl bad ↦ rw (filled, hb, hc, bad, owner_signed) tt
              | inr (sig, hs) ↦ elim (Bool-cases (k.verify key canon sig)) [
                | inr bad ↦ rw (filled, hb, hc, hs, bad, owner_signed) tt
                | inl v ↦ elim (Option-cases (p.payload bytes)) [
                  | inl bad ↦ rw (filled, hb, hc, hs, v, bad, owner_signed) tt
                  | inr (inv, hp) ↦
                      rw (filled, hb, hc, hs, v, hp, owner_signed)
                        (record {
                          bytes = bytes;
                          canon = canon;
                          sig = sig;
                          bytes_of = hb;
                          canon_of = hc;
                          sig_of = hs;
                          verifies = v;
                          parsed = hp;
                        })
                ]
              ]
            ]
          ]
        ]
      ]

in_time :
    (p : Parsers) (expires : Text) (now : ℕ)
    → OnOk
        (λ u.
          (is_empty expires ≡ true)
          ⊎ ((t : ℕ) × (p.time expires ≡ some t) × (now ≤ t + invite_expiry_skew)))
        (check_expiry p expires now)
unfolding check_expiry
in_time p expires now = elim (Bool-cases (is_empty expires)) [
  | inl undated ↦ rw (undated, check_expiry) (inl refl)
  | inr dated ↦ elim (Option-cases (p.time expires)) [
    | inl bad ↦ rw (dated, bad, check_expiry) tt
    | inr (t, e) ↦ elim (Bool-cases (leb now (t + invite_expiry_skew))) [
      | inr late ↦ rw (dated, e, late, check_expiry) tt
      | inl early ↦ rw (dated, e, early, check_expiry) (inr (t, refl, ground arith))
    ]
  ]
]

scope :
    (p : Parsers) (inv : InvitePayload) (nas : Text) (now : ℕ)
    → OnOk (λ u. InScope p inv nas now) (check_scope p inv nas now)
unfolding check_scope
scope p inv nas now = elim (Bool-cases (is_empty inv.invite_pub)) [
  | inl bad ↦ rw (bad, check_scope) tt
  | inr hi ↦ elim (Result-cases (check_expiry p inv.expires_at now)) [
    | inl (err, bad) ↦ rw (hi, bad, check_scope) tt
    | inr (u, ht) ↦ elim (Bool-cases (is_empty nas)) [
      | inl bad ↦ rw (hi, ht, bad, check_scope) tt
      | inr hk ↦ elim (Bool-cases (is_empty inv.nas_pubkey)) [
        | inl bad ↦ rw (hi, ht, hk, bad, check_scope) tt
        | inr hn ↦ elim (Bool-cases (inv.nas_pubkey == nas)) [
          | inr bad ↦ rw (hi, ht, hk, hn, bad, check_scope) tt
          | inl he ↦
              rw (hi, ht, hk, hn, he, check_scope)
                (record {
                  for_agent = (==_iff inv.nas_pubkey nas).0 he;
                  known_agent = hk;
                  in_time = OnOk-of _ ht (in_time p inv.expires_at now);
                })
        ]
      ]
    ]
  ]
]

key_of :
    (b64 : Text)
    → OnOk (λ key. (decode b64 ≡ some key) × (length key ≡ public_key_size)) (public_key b64)
unfolding public_key
key_of b64 = elim (Option-cases (decode b64)) [
  | inl bad ↦ rw (bad, public_key) tt
  | inr (key, e) ↦ elim (Bool-cases (eqb (length key) public_key_size)) [
    | inr wrong ↦ rw (e, wrong, public_key) tt
    | inl size ↦ rw (e, size, public_key) (refl, (eqb_iff (length key) public_key_size).0 size)
  ]
]

acceptance :
    (k : Crypto) (inv : InvitePayload) (member : MemberAclEntry) (text : Text)
    → OnOk (λ u. AcceptedBy k inv member text) (check_acceptance k inv member text)
unfolding check_acceptance
acceptance k inv member text = elim (Result-cases (public_key inv.invite_pub)) [
  | inl (err, bad) ↦ rw (bad, check_acceptance) tt
  | inr (invite, hi) ↦ elim (Result-cases (public_key member.identity_key)) [
    | inl (err, bad) ↦ rw (hi, bad, check_acceptance) tt
    | inr (own, hm) ↦ elim (Option-cases (decode text)) [
      | inl bad ↦ rw (hi, hm, bad, check_acceptance) tt
      | inr (sig, hs) ↦ elim (Bool-cases (k.verify invite own sig)) [
        | inr bad ↦ rw (hi, hm, hs, bad, check_acceptance) tt
        | inl v ↦
            rw (hi, hm, hs, v, check_acceptance)
              (record {
                invite_pub = invite;
                member_pub = own;
                sig = sig;
                invite_pub_of = (OnOk-of _ hi (key_of inv.invite_pub)).0;
                member_pub_of = (OnOk-of _ hm (key_of member.identity_key)).0;
                member_pub_size = (OnOk-of _ hm (key_of member.identity_key)).1;
                sig_of = hs;
                verifies = v;
              })
      ]
    ]
  ]
]

-- An attestation is accepted only if the pinned owner's key signs its canonical payload, the payload is for
-- this agent and not out of date by more than five minutes, and the key that it names signs the member's
-- identity key; the payload returned is the one signed.
pub verify_join_attestation-Invited :
    (k : Crypto) (c : Codec) (p : Parsers) (member : MemberAclEntry) (att : JoinAttestation)
    (key nas : Text) (now : ℕ)
    → member.join_attestation ≡ some att
    → OnOk
        (λ inv.
          SignedByOwner k c p att key inv
          × InScope p inv nas now
          × AcceptedBy k inv member att.acceptance_sig)
        (verify_join_attestation k c p member (some key) nas now)
unfolding verify_join_attestation
verify_join_attestation-Invited k c p member att key nas now given =
    elim (Result-cases (owner_signed k c p member.join_attestation (some key))) [
      | inl (err, bad) ↦ rw (bad, verify_join_attestation) tt
      | inr (inv, ho) ↦ elim (Result-cases (check_scope p inv nas now)) [
        | inl (err, bad) ↦ rw (ho, bad, verify_join_attestation) tt
        | inr (u, hs) ↦
            elim (Result-cases
              (check_acceptance k inv member (acceptance_of member.join_attestation))) [
                | inl (err, bad) ↦ rw (ho, hs, bad, verify_join_attestation) tt
                | inr (w, ha) ↦
                    rw (ho, hs, ha, verify_join_attestation)
                      ((by_owner inv ho, OnOk-of _ hs (scope p inv nas now), by_invite inv w ha))
              ]
      ]
    ]
  where
    by_owner :
        (inv : InvitePayload)
        → owner_signed k c p member.join_attestation (some key) ≡ ok inv
        → SignedByOwner k c p att key inv
    by_owner inv h =
        OnOk-of _ (subst (λ o. owner_signed k c p o (some key) ≡ ok inv) given h)
          (owner k c p att key)

    by_invite :
        (inv : InvitePayload) (w : Unit)
        → check_acceptance k inv member (acceptance_of member.join_attestation) ≡ ok w
        → AcceptedBy k inv member att.acceptance_sig
    by_invite inv w h =
        unfold acceptance_of in
        OnOk-of _ (subst (λ o. check_acceptance k inv member (acceptance_of o) ≡ ok w) given h)
          (acceptance k inv member att.acceptance_sig)
