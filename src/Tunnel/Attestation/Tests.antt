-- ===== src/Tunnel/Attestation/Tests.antt =====
-- The theorem on internal/tunnel/attestation.go at one invited member.
use atreo_agent.Base.{lit, [], some, ◌==◌, ◌≡◌, refl}
use atreo_agent.Base.Result.{ok, OnOk}
use atreo_agent.Base.Base64.{encode, decode}
use atreo_agent.Canonjson.{marshal_raw, write_value, write_string, cut_newline}
use atreo_agent.Atreolink.{JoinAttestation, MemberAclEntry}
use atreo_agent.Tunnel.Tests.{repeat, stamp, crypto, codec, key, ann}
use atreo_agent.Tunnel.Attestation.{
  InvitePayload, Parsers, canonical_payload, owner_signed, check_expiry, check_scope, public_key,
  check_acceptance, acceptance_of, verify_join_attestation,
}
use atreo_agent.Tunnel.Attestation.Invited.{
  SignedByOwner, InScope, AcceptedBy, verify_join_attestation-Invited,
}

abbrev invite : InvitePayload
invite = record {
  invite_id = lit "i";
  device_id = lit "d";
  nas_pubkey = lit "nas";
  allowed_app_ids = [];
  expires_at = lit "soon";
  token_hash = [];
  invite_pub = encode (repeat 32 5);
}

abbrev parsers : Parsers
parsers = record { payload = λ bytes. some invite; time = λ text. some 1000 }

abbrev attestation : JoinAttestation
attestation = record {
  invite_payload = encode (lit "i");
  owner_sig = encode (stamp key (lit "\"i\""));
  acceptance_sig = encode (stamp (repeat 32 5) (repeat 32 6));
}

abbrev bob : MemberAclEntry
bob = record ann { identity_key = encode (repeat 32 6); join_attestation = some attestation }

accepted : verify_join_attestation crypto codec parsers bob (some key) (lit "nas") 2000 ≡ ok invite
unfolding verify_join_attestation owner_signed canonical_payload marshal_raw write_value
    write_string cut_newline check_scope check_expiry check_acceptance public_key acceptance_of
    encode decode ◌==◌
accepted = refl

verify_join_attestation-Invited_example :
    OnOk
      (λ inv.
        SignedByOwner crypto codec parsers attestation key inv
        × InScope parsers inv (lit "nas") 2000
        × AcceptedBy crypto inv bob attestation.acceptance_sig)
      (verify_join_attestation crypto codec parsers bob (some key) (lit "nas") 2000)
verify_join_attestation-Invited_example =
    verify_join_attestation-Invited crypto codec parsers bob attestation key (lit "nas") 2000 refl
