-- ===== src/Tunnel/Admittance/Binding.antt =====
-- internal/tunnel/admittance.go: what a certificate that is accepted binds, and that the agent accepts its
-- own.
use atreo_agent.Base.{
  true, ◌||◌, Text, is_empty, ◌==◌, ==_iff, ==_refl, eqb, length, List, [], some, ◌≡◌, refl, arith,
  Option-cases, Bool-cases, inl, inr, eqb_iff,
}
use atreo_agent.Base.Int.{ℤ}
use atreo_agent.Base.Result.{ok, OnOk, Result-cases}
use atreo_agent.Base.Base64.{encode, decode, decode-encode, encode_nonempty}
use atreo_agent.Canonjson.{Json, Codec}
use atreo_agent.Atreolink.{AdmittanceCertificate}
use atreo_agent.Tunnel.{Crypto, private_key_size, SignsTruly}
use atreo_agent.Tunnel.Admittance.{
  certificate_value, cert_signed_bytes, cert_body, mint_admittance_certificate,
  verify_admittance_certificate,
}

-- A certificate of that member, with that key, for that agent, with a signature of `key` on its body.
pub record Certifies (k : Crypto) (c : Codec) (first : Json → Text) (digits : ℤ → Text)
    (cert : AdmittanceCertificate) (member identity nas key : Text) : Type 0 where
  pub of_member : cert.member_id ≡ member
  pub of_identity : cert.identity_key ≡ identity
  pub of_agent : cert.nas_pubkey ≡ nas
  pub body : Text
  pub sig : Text
  pub body_of : cert_body k c first digits cert ≡ ok body
  pub sig_of : decode cert.signature ≡ some sig
  pub verifies : k.verify key body sig ≡ true

module _ (k : Crypto) (c : Codec) (first : Json → Text) (digits : ℤ → Text) where
  -- A certificate is accepted for a member, an identity key, an agent and a key only if it names the three
  -- and carries a signature that verifies under that key over the certificate's body.
  pub verify_admittance_certificate-Certifies :
      (cert : AdmittanceCertificate) (member identity nas key : Text)
      → OnOk
          (λ u. Certifies k c first digits cert member identity nas key)
          (verify_admittance_certificate k c first digits
            (some cert)
            member
            identity
            nas
            (some key))
  unfolding verify_admittance_certificate
  verify_admittance_certificate-Certifies cert member identity nas key =
      elim (Bool-cases (cert.member_id == member)) [
        | inr bad ↦ rw (bad, verify_admittance_certificate) tt
        | inl hm ↦ elim (Bool-cases (cert.identity_key == identity)) [
          | inr bad ↦ rw (hm, bad, verify_admittance_certificate) tt
          | inl hi ↦ elim (Bool-cases (cert.nas_pubkey == nas)) [
            | inr bad ↦ rw (hm, hi, bad, verify_admittance_certificate) tt
            | inl hn ↦ elim (Bool-cases (is_empty cert.signature)) [
              | inl bad ↦ rw (hm, hi, hn, bad, verify_admittance_certificate) tt
              | inr he ↦ elim (Option-cases (decode cert.signature)) [
                | inl bad ↦ rw (hm, hi, hn, he, bad, verify_admittance_certificate) tt
                | inr (sig, hs) ↦ elim (Result-cases (cert_body k c first digits cert)) [
                  | inl (err, bad) ↦ rw (hm, hi, hn, he, hs, bad, verify_admittance_certificate) tt
                  | inr (body, hb) ↦ elim (Bool-cases (k.verify key body sig)) [
                    | inr bad ↦ rw (hm, hi, hn, he, hs, hb, bad, verify_admittance_certificate) tt
                    | inl v ↦
                        rw (hm, hi, hn, he, hs, hb, v, verify_admittance_certificate)
                          (record {
                            of_member = (==_iff cert.member_id member).0 hm;
                            of_identity = (==_iff cert.identity_key identity).0 hi;
                            of_agent = (==_iff cert.nas_pubkey nas).0 hn;
                            body = body;
                            sig = sig;
                            body_of = hb;
                            sig_of = hs;
                            verifies = v;
                          })
                  ]
                ]
              ]
            ]
          ]
        ]
      ]

  -- The body that is signed does not read the signature field.
  cert_body-signature :
      (cert : AdmittanceCertificate) (s : Text)
      → cert_body k c first digits (record cert { signature = s }) ≡ cert_body k c first digits cert
  unfolding cert_body cert_signed_bytes certificate_value
  cert_body-signature cert s = refl

  accepts_own :
      (cert : AdmittanceCertificate) (signer body : Text)
      → SignsTruly k signer
      → cert_body k c first digits cert ≡ ok body
      → length signer ≡ private_key_size
      → verify_admittance_certificate k c first digits
          (some (record cert { signature = encode (k.sign signer body) }))
          cert.member_id
          cert.identity_key
          cert.nas_pubkey
          (some (k.public_of signer))
        ≡ ok tt
  unfolding verify_admittance_certificate
  accepts_own cert signer body truly eb size =
      let signed =
        encode_nonempty (k.sign signer body) (omega (arith, truly.signature_size body)) in
      rw
        (
          ==_refl cert.member_id,
          ==_refl cert.identity_key,
          ==_refl cert.nas_pubkey,
          signed,
          decode-encode (k.sign signer body) (truly.signature_bytes body),
          cert_body-signature cert (encode (k.sign signer body)),
          eb,
          truly.verifies body,
          verify_admittance_certificate,
        )
        refl

  -- With a private key that signs as crypto/ed25519 documents of the keys it makes, a certificate that
  -- the agent mints is accepted for its member, identity key and agent under the agent's public key.
  pub verify-mint_admittance_certificate :
      (member identity nas attestation : Text) (apps : List Text) (signer : Text) (now : ℤ)
      → SignsTruly k signer
      → OnOk
          (λ cert.
            verify_admittance_certificate k c first digits
              (some cert)
              member
              identity
              nas
              (some (k.public_of signer))
            ≡ ok tt)
          (mint_admittance_certificate k c first digits member identity nas attestation apps signer
            now)
  unfolding mint_admittance_certificate
  verify-mint_admittance_certificate member identity nas attestation apps signer now truly =
      let cert : AdmittanceCertificate = record {
        member_id = member;
        identity_key = identity;
        nas_pubkey = nas;
        admitted_at = now;
        attestation_hash = encode (k.sha256 attestation);
        initial_allowed_app_ids = apps;
        signature = [];
      } in
      elim (Bool-cases (is_empty member || (is_empty identity || is_empty nas))) [
        | inl bad ↦ rw (bad, mint_admittance_certificate) tt
        | inr filled ↦ elim (Bool-cases (is_empty attestation)) [
          | inl bad ↦ rw (filled, bad, mint_admittance_certificate) tt
          | inr given ↦ elim (Bool-cases (eqb (length signer) private_key_size)) [
            | inr bad ↦ rw (filled, given, bad, mint_admittance_certificate) tt
            | inl size ↦ elim (Result-cases (cert_body k c first digits cert)) [
              | inl (err, bad) ↦ rw (filled, given, size, bad, mint_admittance_certificate) tt
              | inr (body, eb) ↦
                  rw (filled, given, size, eb, mint_admittance_certificate)
                    (accepts_own cert signer body truly eb
                      ((eqb_iff (length signer) private_key_size).0 size))
            ]
          ]
        ]
      ]
