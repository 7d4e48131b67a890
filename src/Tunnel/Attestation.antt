-- ===== src/Tunnel/Attestation.antt =====
-- internal/tunnel/attestation.go: whether the owner invited this member to this agent. The one function of
-- the source is three stages here: the owner's signature, the scope of the invite, the acceptance.
pub mod Invited
mod Tests
use atreo_agent.Base.{
  ℕ, ◌+◌, ◌*◌, Bool, not, ◌||◌, Text, is_empty, ◌==◌, eqb, leb, length, List, [], Option, none,
  some, if◌then◌else◌,
}
use atreo_agent.Base.Result.{Result, ok, failed, ◌>>=◌, require, need}
use atreo_agent.Base.Base64.{decode}
use atreo_agent.Canonjson.{Codec, CanonError, marshal_raw}
use atreo_agent.Atreolink.{JoinAttestation, MemberAclEntry}
use atreo_agent.Tunnel.{Crypto, public_key_size}

pub record InvitePayload : Type 0 where
  pub invite_id : Text
  pub device_id : Text
  pub nas_pubkey : Text
  pub allowed_app_ids : List Text
  pub expires_at : Text
  pub token_hash : Text
  pub invite_pub : Text

-- `json.Unmarshal` into the payload, and `time.Parse` of RFC 3339, in nanoseconds.
pub record Parsers : Type 0 where
  pub payload : Text → Option InvitePayload
  pub time : Text → Option ℕ

pub data InviteError : Type 0 where
  invite_missing bad_payload bad_owner_sig nas_key_unknown invite_expired bad_acceptance_sig :
      InviteError

abbrev pub invite_expiry_skew : ℕ
invite_expiry_skew = 5 * 60 * 1_000_000_000

unfoldable pub canonical_payload : Codec → Text → Result InviteError Text
canonical_payload c bytes = elim (marshal_raw c bytes) [
  | ok canon ↦ ok canon
  | failed e ↦ failed bad_payload
]

-- Up to the parse of the payload.
unfoldable pub owner_signed :
    Crypto
    → Codec
    → Parsers
    → Option JoinAttestation
    → Option Text
    → Result InviteError InvitePayload
owner_signed k c p given owner_pub = do
  att ← need given invite_missing
  _ ←
      require
        (not
          (is_empty att.invite_payload || (is_empty att.owner_sig || is_empty att.acceptance_sig)))
        invite_missing
  bytes ← need (decode att.invite_payload) bad_payload
  canon ← canonical_payload c bytes
  sig ← need (decode att.owner_sig) bad_owner_sig
  key ← need owner_pub bad_owner_sig
  _ ← require (k.verify key canon sig) bad_owner_sig
  need (p.payload bytes) bad_payload

-- `now.After(exp.Add(skew))` is the error.
unfoldable pub check_expiry : Parsers → Text → ℕ → Result {0, 0} InviteError Unit
check_expiry p expires_at now = if is_empty expires_at then ok tt else do
  exp ← need (p.time expires_at) bad_payload
  require (leb now (exp + invite_expiry_skew)) invite_expired

-- From the test of `InvitePub` to that of `NASPubkey`.
unfoldable pub check_scope : Parsers → InvitePayload → Text → ℕ → Result {0, 0} InviteError Unit
check_scope p inv nas now = do
  _ ← require (not (is_empty inv.invite_pub)) bad_payload
  _ ← check_expiry p inv.expires_at now
  _ ← require (not (is_empty nas)) nas_key_unknown
  _ ← require (not (is_empty inv.nas_pubkey)) bad_payload
  require (inv.nas_pubkey == nas) bad_payload

unfoldable pub public_key : Text → Result InviteError Text
public_key b64 = do
  key ← need (decode b64) bad_payload
  _ ← require (eqb (length key) public_key_size) bad_payload
  ok key

unfoldable pub check_acceptance :
    Crypto → InvitePayload → MemberAclEntry → Text → Result {0, 0} InviteError Unit
check_acceptance k inv member acceptance = do
  invite_pub ← public_key inv.invite_pub
  member_pub ← public_key member.identity_key
  sig ← need (decode acceptance) bad_acceptance_sig
  require (k.verify invite_pub member_pub sig) bad_acceptance_sig

unfoldable pub acceptance_of : Option JoinAttestation → Text
acceptance_of none = []
acceptance_of (some att) = att.acceptance_sig

-- `VerifyJoinAttestation`; `none` for the owner's key is nil.
unfoldable pub verify_join_attestation :
    Crypto
    → Codec
    → Parsers
    → MemberAclEntry
    → Option Text
    → Text
    → ℕ
    → Result InviteError InvitePayload
verify_join_attestation k c p member owner_pub nas now = do
  inv ← owner_signed k c p member.join_attestation owner_pub
  _ ← check_scope p inv nas now
  _ ← check_acceptance k inv member (acceptance_of member.join_attestation)
  ok inv
