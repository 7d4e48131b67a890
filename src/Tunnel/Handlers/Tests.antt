-- ===== src/Tunnel/Handlers/Tests.antt =====
-- The theorems on the handlers of internal/tunnel at the samples.
use atreo_agent.Base.{
  true, false, Text, lit, ◌==◌, [], ◌∷◌, some, lookup, insert, All, ◌≡◌, refl, subst, arith,
  decimal, any, delete, has_prefix,
}
use atreo_agent.Base.Result.{ok}
use atreo_agent.Base.Base64.{encode, decode, IsBytes}
use atreo_agent.Acl.{new_store, is_admin_role, lookup_by_member_id, at_index}
use atreo_agent.Canonjson.{marshal, marshal_raw, write_value, write_string, cut_newline}
use atreo_agent.Acl.{validate_admin_pin, check_pin}
use atreo_agent.Acl.Apps.{apps_by_id}
use atreo_agent.Acl.Reconcile.{reconcile}
use atreo_agent.Wireguard.Allocator.{allocate, first_free, assign, is_used, lookup_ip}
use atreo_agent.Tunnel.State.{
  check_apps, check_app, signed_by, app_intent, validate_app, validate_internal_url, decode_ed25519,
}
use atreo_agent.Tunnel.State.Members.{
  check_members, check_member, admission_of, base_entry, check_status, check_permissions,
  check_clients, check_client, client_intent, client_record, note_lease,
}
use atreo_agent.Tunnel.State.Addresses.{
  address_members, members_with_v6, cons_member, address_clients, cons_client, address_client,
  adopt_client, allocate_client, leased,
}
use atreo_agent.Tunnel.Handlers.Device.{
  handle_state, judge, check_push, apply_push, commit, conclude,
}
use atreo_agent.Tunnel.Wire.{as_message}
use atreo_agent.Tunnel.Verify.{verify_authorization}
use atreo_agent.Atreolink.{is_port_app}
use atreo_agent.Acl.Run.Pinned.{Carries, PinHonoured}
use atreo_agent.Certs.{ensure_cert, assert_cert_matches_suffix, normalise_host}
use atreo_agent.Firewall.{run}
use atreo_agent.Wireguard.Allocator.{host}
use atreo_agent.Wireguard.Allocator.Unique.{IsValid}
use atreo_agent.Wireguard.Allocator.History.{fresh-IsValid}
use atreo_agent.Wireguard.Addresses.{validate_wg_public_key, validate_tunnel_ipv4}
use atreo_agent.Wireguard.Server.{public_key_base64, add_peer}
use atreo_agent.Acl.Members.{update_member}
use atreo_agent.Acl.Clients.{add_client, strip_entry, strip_others, put_client}
use atreo_agent.Tunnel.Lease.{lease_signed_bytes, mint_tunnel_ip_lease, lease_body}
use atreo_agent.Tunnel.Tests.{repeat-IsBytes, crypto, codec, key, ann}
use atreo_agent.Tunnel.Verify.{
  verify_signature_against, verify_command, is_fresh, skew, is_negative, negated, authorise,
  require_member, require_admin, verify_envelope, acl_lookup, canonical,
}
use atreo_agent.Tunnel.Wire.{int64, joined}
use atreo_agent.Tunnel.Handlers.Device.{decode_device_state, handle_device_state, applied}
use atreo_agent.Tunnel.Handlers.Kept.{OnApplied, Untouched, handle_device_state-Untouched}
use atreo_agent.Tunnel.Handlers.Applied.{SoundStore, handle_device_state-Sound}
use atreo_agent.Tunnel.Domain.{current_row, install_domain, drop_domain}
use atreo_agent.Tunnel.Domain.Replaced.{replaced_domain-kept}
use atreo_agent.Tunnel.Transcript.{server_transcript_v2, sign_provision_response}
use atreo_agent.Tunnel.Challenge.{or_else, member_command}
use atreo_agent.Tunnel.Provision.{
  handle_provision, with_nonce, redeem, check_provision, provide, record_client, install_peer,
  respond, endpoint_of,
}
use atreo_agent.Tunnel.Provision.Once.{succeeds, provisions, replay-refused}
use atreo_agent.Tunnel.Provision.Provided.{OnProvided, Provided, handle_provision-Provided}
use atreo_agent.Tunnel.Commands.{handle_unpaired, admin_command, unpair}
use atreo_agent.Tunnel.Commands.Owner.{handle_unpaired-signed}
use atreo_agent.Tunnel.Handlers.Samples.{
  signed, push, decoders, libraries, identity, world, store, handlers, pushed, rpc, asked,
  domain_world, domains, second_zone, process, payloads,
}

decoded : decode_device_state decoders pushed ≡ some push
unfolding decode_device_state ◌==◌
decoded = refl

handle_device_state-Sound_example :
    OnApplied
      (λ h. SoundStore libraries identity world.now store key push h.acl × IsValid h.allocator)
      (handle_device_state libraries identity world pushed handlers)
handle_device_state-Sound_example =
    handle_device_state-Sound libraries identity world pushed push key handlers decoded refl
      (fresh-IsValid (lit "100.64.0.1") (lit "100.64.0"))

handle_device_state-Untouched_example :
    Untouched handlers (handle_device_state libraries identity world pushed handlers)
handle_device_state-Untouched_example =
    handle_device_state-Untouched libraries identity world pushed handlers

handle_provision-Provided_example :
    OnProvided
      (Provided libraries identity world rpc asked handlers)
      (handle_provision libraries identity world rpc asked handlers)
handle_provision-Provided_example =
    handle_provision-Provided libraries identity world rpc asked handlers

replay-refused_example :
    succeeds (
      handle_provision libraries identity world rpc asked (
        provisions libraries identity rpc
          ((world, asked) ∷ [])
          (handle_provision libraries identity world rpc asked handlers).0))
    ≡ false
replay-refused_example =
    replay-refused libraries identity rpc world world asked ((world, asked) ∷ []) handlers

installed :
    current_row (install_domain domain_world (lit "new.io") (record { envelope = signed }) domains)
    ≡ some second_zone
unfolding current_row install_domain ◌==◌ ensure_cert has_prefix assert_cert_matches_suffix any
installed = refl

replaced_domain-kept_example :
    lookup
      (lit "old.io")
      (drop_domain domain_world (
        install_domain domain_world (lit "new.io") (record { envelope = signed }) domains)).registry
    ≡ lookup (lit "old.io") domains.registry
unfolding ◌==◌ normalise_host has_prefix
replaced_domain-kept_example =
    replaced_domain-kept domain_world domain_world (lit "new.io") (record { envelope = signed })
      domains second_zone (lit "old.io") installed refl refl

honoured : PinHonoured store
honoured k e = subst (λ x. All (Carries (encode x)) (ann ∷ [])) (same k e) ((λ r. refl), tt)
  where
    same : (k : Text) → some key ≡ some k → key ≡ k
    same k h = cc

key-IsBytes : IsBytes key
key-IsBytes = repeat-IsBytes 32 7 (omega arith)

unpaired : (handle_unpaired libraries identity world payloads asked process).0.running ≡ false
unfolding handle_unpaired admin_command verify_command joined is_fresh skew is_negative negated
    authorise require_admin lookup_by_member_id at_index lookup is_admin_role verify_envelope encode
    decode acl_lookup canonical marshal_raw write_value write_string cut_newline int64 unpair
    verify_signature_against ◌==◌
unpaired = refl

handle_unpaired-signed_example : verify_signature_against crypto codec asked key ≡ ok tt
handle_unpaired-signed_example =
    handle_unpaired-signed libraries identity world payloads key key-IsBytes asked process honoured
      refl refl unpaired

-- The push of one owner is applied.
outcome : (handle_device_state libraries identity world pushed handlers).1 ≡ applied
unfolding handle_device_state decode_device_state handle_state new_store judge check_push check_apps
    check_app signed_by verify_authorization app_intent as_message authorise
    verify_signature_against joined canonical marshal_raw write_value write_string cut_newline
    encode decode validate_app is_port_app validate_internal_url apps_by_id check_members
    check_member admission_of is_admin_role base_entry check_status check_permissions decode_ed25519
    check_clients check_client client_intent client_record note_lease int64 apply_push
    address_members cons_member address_clients cons_client address_client adopt_client
    allocate_client leased allocate first_free assign is_used host lookup_ip commit conclude
    reconcile validate_admin_pin check_pin lookup insert ◌==◌ decimal members_with_v6
outcome = refl

-- The first provision with a nonce is answered.
answered : succeeds (handle_provision libraries identity world rpc asked handlers) ≡ true
unfolding handle_provision succeeds lookup verify_command joined is_fresh is_negative skew negated
    authorise require_member verify_envelope encode decode acl_lookup lookup_by_member_id at_index
    canonical marshal_raw write_value write_string cut_newline verify_signature_against int64
    or_else with_nonce redeem check_provision member_command provide record_client install_peer
    respond endpoint_of allocate first_free assign is_used host decimal insert delete add_client
    strip_others put_client add_peer validate_wg_public_key validate_tunnel_ipv4 has_prefix
    mint_tunnel_ip_lease lease_body sign_provision_response server_transcript_v2 update_member
    strip_entry run public_key_base64 lease_signed_bytes marshal ◌==◌
answered = refl
