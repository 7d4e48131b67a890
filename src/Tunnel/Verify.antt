-- ===== src/Tunnel/Verify.antt =====
-- internal/tunnel/verify.go, and `requireAdmin`, `requireMember` and `aclLookup` of
-- internal/tunnel/handler.go: who signed a message, and whether it may be acted on.
pub mod Signed
pub mod Fresh
use atreo_agent.Base.{
  ℕ, ◌+◌, ◌-◌, ◌%◌, ◌^◌, Bool, true, false, not, ◌||◌, Text, is_empty, ◌==◌, ltb, leb, eqb, length,
  List, Option, none, some, if◌then◌else◌,
}
use atreo_agent.Base.Result.{Result, ok, failed, ◌>>=◌, require, need}
use atreo_agent.Base.Base64.{decode}
use atreo_agent.Canonjson.{Codec, CanonError, marshal_raw}
use atreo_agent.Acl.{Store, is_admin_role, lookup_by_member_id}
use atreo_agent.Atreolink.{MemberAclEntry}
use atreo_agent.Tunnel.{Crypto, public_key_size}

pub record TunnelMessage : Type 0 where
  pub type : Text
  pub correlation_id : Text
  pub payload : Text
  pub signer_id : Text
  pub signature : Text

pub data VerifyError : Type 0 where
  unsigned invalid_signature not_admin intent_mismatch stale_timestamp : VerifyError
  unknown_signer wrong_signer bad_signer_key wrong_key_length bad_signature_encoding : VerifyError
  bad_payload : CanonError → VerifyError

abbrev pub Verdict : Type 0
Verdict = Result VerifyError Unit

unfoldable pub canonical : Codec → Text → Result VerifyError Text
canonical c payload = elim (marshal_raw c payload) [
  | ok bytes ↦ ok bytes
  | failed e ↦ failed (bad_payload e)
]

-- `VerifyEnvelope`; `acl_lookup` gives the signer's key in base64.
unfoldable pub verify_envelope : Crypto → Codec → TunnelMessage → (Text → Option Text) → Verdict
verify_envelope k c msg acl_lookup = do
  _ ← require (not (is_empty msg.signer_id || is_empty msg.signature)) unsigned
  pub_b64 ← need (acl_lookup msg.signer_id) unknown_signer
  _ ← require (not (is_empty pub_b64)) unknown_signer
  key ← need (decode pub_b64) bad_signer_key
  _ ← require (eqb (length key) public_key_size) wrong_key_length
  sig ← need (decode msg.signature) bad_signature_encoding
  canon ← canonical c msg.payload
  require (k.verify key canon sig) invalid_signature

unfoldable pub verify_signature_against : Crypto → Codec → TunnelMessage → Text → Verdict
verify_signature_against k c msg key = do
  _ ← require (not (is_empty msg.signer_id || is_empty msg.signature)) unsigned
  sig ← need (decode msg.signature) bad_signature_encoding
  canon ← canonical c msg.payload
  require (k.verify key canon sig) invalid_signature

unfoldable pub acl_lookup : Store → Text → Option Text
acl_lookup s id = elim (lookup_by_member_id s id) [ none ↦ none | some m ↦ some m.identity_key ]

unfoldable pub require_admin : Crypto → Codec → Store → TunnelMessage → Verdict
require_admin k c s msg = do
  _ ← require (not (is_empty msg.signer_id)) unsigned
  entry ← need (lookup_by_member_id s msg.signer_id) unknown_signer
  _ ← require (is_admin_role entry.role) not_admin
  verify_envelope k c msg (acl_lookup s)

unfoldable pub require_member : Crypto → Codec → Store → TunnelMessage → Text → Verdict
require_member k c s msg id = do
  _ ← require (msg.signer_id == id) wrong_signer
  verify_envelope k c msg (acl_lookup s)

-- The implementations of the interface `CommandAuth`.
pub data CommandAuth : Type 0 where
  admin_auth : CommandAuth
  member_auth member_or_admin_auth attested_auth : Text → CommandAuth

unfoldable pub authorise : Crypto → Codec → Store → CommandAuth → TunnelMessage → Verdict
authorise k c s admin_auth msg = require_admin k c s msg
authorise k c s (member_auth id) msg = require_member k c s msg id
authorise k c s (member_or_admin_auth id) msg =
    if msg.signer_id == id then require_member k c s msg id else require_admin k c s msg
authorise k c s (attested_auth key) msg = verify_signature_against k c msg key

-- The timestamp is an int64, here the 64-bit word of its two's complement.
pub record CommandEnvelopeFields : Type 0 where
  pub intent : Text
  pub timestamp : ℕ

abbrev pub command_timestamp_skew : ℕ
command_timestamp_skew = 120

-- `skew < 0` and `-skew` on such words.
unfoldable pub is_negative : ℕ → Bool
is_negative w = leb (2 ^ 63) w

unfoldable pub negated : ℕ → ℕ
negated w = (2 ^ 64 - w) % 2 ^ 64

unfoldable pub skew : ℕ → ℕ → ℕ
unfolding is_negative negated
skew now ts = let d = (now + (2 ^ 64 - ts)) % 2 ^ 64 in if is_negative d then negated d else d

-- `skew > 120` is false; a word that is still negative is below 120.
unfoldable pub is_fresh : ℕ → ℕ → Bool
is_fresh now ts = is_negative (skew now ts) || leb (skew now ts) command_timestamp_skew

-- `verifyAuthorization`
unfoldable pub verify_authorization :
    Crypto → Codec → Store → TunnelMessage → CommandAuth → CommandEnvelopeFields → Text → Verdict
verify_authorization k c s msg auth env expected = do
  _ ← require (env.intent == expected) intent_mismatch
  authorise k c s auth msg

-- `verifyCommand`; `now` is the clock in seconds.
unfoldable pub verify_command :
    Crypto
    → Codec
    → Store
    → ℕ
    → TunnelMessage
    → CommandAuth
    → CommandEnvelopeFields
    → Text
    → Verdict
verify_command k c s now msg auth env expected = do
  _ ← require (env.intent == expected) intent_mismatch
  _ ← require (is_fresh now env.timestamp) stale_timestamp
  authorise k c s auth msg
