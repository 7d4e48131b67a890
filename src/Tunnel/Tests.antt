-- ===== src/Tunnel/Tests.antt =====
-- The theorems on internal/tunnel with a signature scheme for tests: a signature is 64 times the sum of the
-- message and of the public key's bytes.
use atreo_agent.Base.{
  ℕ, zero, suc, ◌+◌, ◌%◌, ◌^◌, ◌≤◌, ◌<◌, true, false, Text, lit, ◌==◌, ==_refl, length, take, [],
  ◌∷◌, ◌++◌, none, some, All, ◌≡◌, ◌⊎◌, ◌↔◌, refl, subst, arith, lookup, if◌then◌else◌,
}
use atreo_agent.Base.Int.{ℤ, pos}
use atreo_agent.Base.Result.{ok, OnOk}
use atreo_agent.Base.Base64.{encode, decode, IsBytes}
use atreo_agent.Atreolink.{MemberAclEntry, AdmittanceCertificate}
use atreo_agent.Canonjson.{
  Json, string, object, field, end, Codec, marshal_raw, write_value, write_string, cut_newline,
}
use atreo_agent.Canonjson.Order.{Same, objects, swap}
use atreo_agent.Acl.{Store, new_store, is_admin_role, lookup_by_member_id, at_index}
use atreo_agent.Acl.Run.Pinned.{Carries, PinHonoured}
use atreo_agent.Tunnel.{Crypto, SignsTruly}
use atreo_agent.Tunnel.Verify.{
  TunnelMessage, CommandEnvelopeFields, admin_auth, verify_command, verify_envelope,
  verify_signature_against, is_fresh, skew, is_negative, negated, authorise, require_admin,
  acl_lookup, canonical,
}
use atreo_agent.Tunnel.Verify.Fresh.{is_fresh-exact}
use atreo_agent.Tunnel.Verify.Signed.{verify_command-pinned}
use atreo_agent.Tunnel.Lease.{TunnelIpLease, mint_tunnel_ip_lease, verify_tunnel_ip_lease}
use atreo_agent.Tunnel.Lease.Binding.{
  Binds, verify_tunnel_ip_lease-Binds, verify-mint_tunnel_ip_lease,
}
use atreo_agent.Tunnel.Admittance.{verify_admittance_certificate}
use atreo_agent.Tunnel.Admittance.Binding.{Certifies, verify_admittance_certificate-Certifies}
use atreo_agent.Tunnel.Liveness.{
  check_liveness, booted, is_stale, or_else, older_than, mark_liveness, tripping,
}
use atreo_agent.Tunnel.Liveness.Watch.{marks, run, step, Justified, check_liveness-Justified}

abbrev pub sum : Text → ℕ
sum [] = 0
sum (c ∷ s) = c + sum s

abbrev pub repeat : ℕ → ℕ → Text
repeat zero c = []
repeat (suc n) c = c ∷ repeat n c

abbrev pub stamp : Text → Text → Text
stamp key message = repeat 64 ((sum key + sum message) % 256)

abbrev pub crypto : Crypto
crypto = record {
  verify = λ key message sig. sig == stamp key message;
  sign = λ key message. stamp (take 32 key) message;
  public_of = λ key. take 32 key;
  sha256 = λ s. repeat 32 (sum s % 256);
}

pub repeat-IsBytes : (n c : ℕ) → c < 256 → IsBytes (repeat n c)
repeat-IsBytes zero c h = tt
repeat-IsBytes (suc n) c h = (h, repeat-IsBytes n c h)

length-repeat : (n c : ℕ) → length (repeat n c) ≡ n
length-repeat zero c = refl
length-repeat (suc n) c = omega (arith, length-repeat n c)

truly : SignsTruly crypto (repeat 64 9)
truly = record {
  verifies = λ message. ==_refl (stamp (take 32 (repeat 64 9)) message);
  signature_bytes = λ message.
      repeat-IsBytes 64 ((sum (take 32 (repeat 64 9)) + sum message) % 256) (omega arith);
  signature_size = λ message. length-repeat 64 ((sum (take 32 (repeat 64 9)) + sum message) % 256);
}

-- A document is one string for this codec, but for two that are objects.
abbrev ab : Text
ab = lit "{a,b}"

abbrev ba : Text
ba = lit "{b,a}"

abbrev left : Json
left = object (field (lit "a") (string []) (field (lit "b") (string []) end))

abbrev right : Json
right = object (field (lit "b") (string []) (field (lit "a") (string []) end))

abbrev pub codec : Codec
codec = record {
  decode = λ doc.
      if doc == ab
      then some (left, false)
      else if doc == ba
      then some (right, false)
      else some (string doc, false);
  encode_line = λ s. some (34 ∷ s ++ 34 ∷ 10 ∷ []);
}

abbrev first : Json → Text
first j = lit "body"

abbrev digits : ℤ → Text
digits n = lit "0"

abbrev pub key : Text
key = repeat 32 7

abbrev pub ann : MemberAclEntry
ann = record {
  member_id = lit "ann";
  user_id = [];
  member_name = [];
  email = [];
  role = lit "owner";
  identity_key = encode key;
  identity_key_proof = none;
  join_attestation = none;
  admittance = none;
  clients =
      record {
        wg_public_key = lit "k1";
        tunnel_ip = lit "100.64.0.2";
        tunnel_ipv6 = [];
        label = [];
        platform = [];
        endpoint_type = [];
      }
      ∷ [];
  allowed_apps = [];
  status = [];
}

abbrev store : Store
store = record new_store {
  members = ann ∷ [];
  by_member_id = (lit "ann", 0) ∷ [];
  pinned_admin_pub_key = some key;
}

abbrev message : TunnelMessage
message = record {
  type = lit "app:remove";
  correlation_id = [];
  payload = lit "x";
  signer_id = lit "ann";
  signature = encode (stamp key (lit "\"x\""));
}

abbrev fields : CommandEnvelopeFields
fields = record { intent = lit "app:remove-x"; timestamp = 1000 }

honoured : PinHonoured store
honoured k e = subst (λ x. All (Carries (encode x)) (ann ∷ [])) (same k e) ((λ r. refl), tt)
  where
    same : (k : Text) → some key ≡ some k → key ≡ k
    same k h = cc

commanded :
    verify_command crypto codec store 1010 message admin_auth fields (lit "app:remove-x") ≡ ok tt
unfolding verify_command authorise require_admin lookup_by_member_id lookup at_index is_admin_role
    verify_envelope acl_lookup canonical marshal_raw write_value write_string cut_newline is_fresh
    skew is_negative negated encode decode ◌==◌
commanded = refl

verify_command-pinned_example :
    (verify_signature_against crypto codec message key ≡ ok tt)
    × (lit "app:remove-x" ≡ lit "app:remove-x")
    × (is_fresh 1010 1000 ≡ true)
verify_command-pinned_example =
    verify_command-pinned crypto codec store 1010 message fields (lit "app:remove-x") key honoured
      refl (repeat-IsBytes 32 7 (omega arith)) commanded

is_fresh-exact_example : (is_fresh 1000 (1000 + 2 ^ 63) ≡ true) ↔ (
    ((1000 ≤ 1000 + 2 ^ 63 + 120) × (1000 + 2 ^ 63 ≤ 1000 + 120)) ⊎ (1000 + 2 ^ 63 ≡ 1000 + 2 ^ 63))
is_fresh-exact_example =
    is_fresh-exact 1000 (1000 + 2 ^ 63) (omega arith) (omega arith) (omega arith)

same : Same left right
same = objects _ _ (swap (lit "a") (lit "b") (string []) (string []) end (λ e. ground arith))

decoded : codec.decode ab ≡ some (left, false)
unfolding ◌==◌
decoded = refl

decoded_other : codec.decode ba ≡ some (right, false)
unfolding ◌==◌
decoded_other = refl

abbrev lease : TunnelIpLease
lease = record {
  device_id = lit "d";
  wg_public_key = lit "k1";
  tunnel_ip = lit "100.64.0.2";
  nas_signature = encode (stamp key (lit "\"body\""));
}

verify_tunnel_ip_lease-Binds_example :
    OnOk
      (λ u. Binds crypto codec first lease (lit "d") (lit "k1") key)
      (verify_tunnel_ip_lease crypto codec first (some lease) (lit "d") (lit "k1") (some key))
verify_tunnel_ip_lease-Binds_example =
    verify_tunnel_ip_lease-Binds crypto codec first lease (lit "d") (lit "k1") key

verify-mint_tunnel_ip_lease_example :
    OnOk
      (λ l.
        verify_tunnel_ip_lease crypto codec first
          (some l)
          (lit "d")
          (lit "k1")
          (some (crypto.public_of (repeat 64 9)))
        ≡ ok tt)
      (mint_tunnel_ip_lease crypto codec first
        (lit "d")
        (lit "k1")
        (lit "100.64.0.2")
        (repeat 64 9))
verify-mint_tunnel_ip_lease_example =
    verify-mint_tunnel_ip_lease crypto codec first (lit "d") (lit "k1") (lit "100.64.0.2")
      (repeat 64 9) truly

abbrev certificate : AdmittanceCertificate
certificate = record {
  member_id = lit "bob";
  identity_key = lit "bobs";
  nas_pubkey = lit "nas";
  admitted_at = pos 0;
  attestation_hash = [];
  initial_allowed_app_ids = [];
  signature = encode (stamp key (lit "\"body\""));
}

verify_admittance_certificate-Certifies_example :
    OnOk
      (λ u.
        Certifies crypto codec first digits certificate (lit "bob") (lit "bobs") (lit "nas") key)
      (verify_admittance_certificate crypto codec first digits
        (some certificate)
        (lit "bob")
        (lit "bobs")
        (lit "nas")
        (some key))
verify_admittance_certificate-Certifies_example =
    verify_admittance_certificate-Certifies crypto codec first digits certificate (lit "bob")
      (lit "bobs") (lit "nas") key

open_still :
    (check_liveness none 2000 (run (marks true 1000 ∷ []) (booted 0))).0.fail_closed ≡ false
unfolding check_liveness run step booted mark_liveness is_stale or_else older_than tripping
open_still = refl

check_liveness-Justified_example : Justified 2000 none (run (marks true 1000 ∷ []) (booted 0))
check_liveness-Justified_example =
    check_liveness-Justified 0 (marks true 1000 ∷ []) none 2000 open_still
