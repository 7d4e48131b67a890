-- ===== src/Tunnel/Admittance.antt =====
-- internal/tunnel/admittance.go: the agent's own certificate that a member was admitted, and the message
-- that carries it.
pub mod Binding
use atreo_agent.Base.{
  ℕ, Bool, true, not, ◌||◌, Text, lit, is_empty, ◌==◌, eqb, length, List, [], ◌∷◌, ◌++◌, Option,
  none, some,
}
use atreo_agent.Base.Int.{ℤ}
use atreo_agent.Base.Result.{Result, ok, failed, ◌>>=◌, require, need}
use atreo_agent.Base.Base64.{encode, decode}
use atreo_agent.Canonjson.{
  Json, string, number, array, object, Items, nil, item, field, end, Codec, CanonError, marshal,
}
use atreo_agent.Atreolink.{AdmittanceCertificate}
use atreo_agent.Tunnel.{Crypto, private_key_size}
use atreo_agent.Tunnel.Verify.{TunnelMessage}

pub data AdmittanceError : Type 0 where
  nil_certificate empty_binding empty_attestation wrong_signer_size bad_body : AdmittanceError
  wrong_member wrong_identity wrong_agent : AdmittanceError
  empty_signature bad_signature_encoding no_key bad_signature : AdmittanceError

unfoldable pub string_items : List Text → Items
string_items [] = nil
string_items (s ∷ ss) = item (string s) (string_items ss)

-- The decimal text of an int64 is a parameter, `%d` and json.Marshal agree on it.
unfoldable pub certificate_value : (ℤ → Text) → AdmittanceCertificate → Json
unfolding string_items
certificate_value digits cert = object (
    field (lit "memberId") (string cert.member_id) (
      field (lit "identityKey") (string cert.identity_key) (
        field (lit "nasPubkey") (string cert.nas_pubkey) (
          field (lit "admittedAt") (number (digits cert.admitted_at)) (
            field (lit "attestationHash") (string cert.attestation_hash) (
              field (lit "initialAllowedAppIds") (array (string_items cert.initial_allowed_app_ids))
                end))))))

-- The value of the outbound envelope.
unfoldable pub envelope_value : (ℤ → Text) → AdmittanceCertificate → Text → ℤ → Json
unfolding string_items
envelope_value digits cert intent ts = object (
    field (lit "cert")
      (object (
        field (lit "memberId") (string cert.member_id) (
          field (lit "identityKey") (string cert.identity_key) (
            field (lit "nasPubkey") (string cert.nas_pubkey) (
              field (lit "admittedAt") (number (digits cert.admitted_at)) (
                field (lit "attestationHash") (string cert.attestation_hash) (
                  field (lit "initialAllowedAppIds")
                    (array (string_items cert.initial_allowed_app_ids))
                    (field (lit "signature") (string cert.signature) end))))))))
      (field (lit "intent") (string intent) (field (lit "ts") (number (digits ts)) end)))

module _ (k : Crypto) (c : Codec) (first : Json → Text) (digits : ℤ → Text) where
  unfoldable pub cert_signed_bytes : AdmittanceCertificate → Result CanonError Text
  cert_signed_bytes cert = marshal c first (certificate_value digits cert)

  unfoldable pub cert_body : AdmittanceCertificate → Result AdmittanceError Text
  cert_body cert = elim (cert_signed_bytes cert) [ ok body ↦ ok body | failed e ↦ failed bad_body ]

  -- `MintAdmittanceCertificate`; `now` is the clock in seconds.
  unfoldable pub mint_admittance_certificate :
      Text
      → Text
      → Text
      → Text
      → List Text
      → Text
      → ℤ
      → Result AdmittanceError AdmittanceCertificate
  mint_admittance_certificate member identity nas attestation apps signer now = do
    _ ← require (not (is_empty member || (is_empty identity || is_empty nas))) empty_binding
    _ ← require (not (is_empty attestation)) empty_attestation
    _ ← require (eqb (length signer) private_key_size) wrong_signer_size
    let cert : AdmittanceCertificate = record {
      member_id = member;
      identity_key = identity;
      nas_pubkey = nas;
      admitted_at = now;
      attestation_hash = encode (k.sha256 attestation);
      initial_allowed_app_ids = apps;
      signature = [];
    }
    body ← cert_body cert
    ok (record cert { signature = encode (k.sign signer body) })

  -- `VerifyAdmittanceCertificate`
  unfoldable pub verify_admittance_certificate :
      Option AdmittanceCertificate
      → Text
      → Text
      → Text
      → Option Text
      → Result {0, 0} AdmittanceError Unit
  verify_admittance_certificate given member identity nas nas_pub = do
    cert ← need given nil_certificate
    _ ← require (cert.member_id == member) wrong_member
    _ ← require (cert.identity_key == identity) wrong_identity
    _ ← require (cert.nas_pubkey == nas) wrong_agent
    _ ← require (not (is_empty cert.signature)) empty_signature
    sig ← need (decode cert.signature) bad_signature_encoding
    body ← cert_body cert
    key ← need nas_pub no_key
    require (k.verify key body sig) bad_signature

  -- `BuildAdmittanceMessage`
  unfoldable pub build_admittance_message :
      Text → Option AdmittanceCertificate → Text → ℤ → Result AdmittanceError TunnelMessage
  build_admittance_message device given signer now = do
    cert ← need given nil_certificate
    let intent =
        lit "member:admittance-"
        ++ device
        ++ b'-' ∷ cert.member_id
        ++ b'-' ∷ digits cert.admitted_at
    canon ← elim (marshal c first (envelope_value digits cert intent now)) [
      | ok bytes ↦ ok bytes
      | failed e ↦ failed bad_body
    ]
    ok (record {
      type = lit "member:admittance";
      correlation_id = [];
      payload = canon;
      signer_id = device;
      signature = encode (k.sign signer canon);
    })
