-- ===== src/Acl/Tests.antt =====
-- A small access-control list, and the theorems on internal/acl/store.go at it.
use atreo_agent.Base.{
  ◌+◌, true, false, not, ◌&&◌, Text, lit, is_empty, ◌==◌, leb, eqb, List, [], ◌∷◌, inr, none, some,
  copies, any, All, ◌≡◌, refl, subst, arith, if◌then◌else◌, lookup, insert, OnSome,
}
use atreo_agent.Base.Int.{pos}
use atreo_agent.Base.Base64.{encode}
use atreo_agent.Atreolink.{
  Unicode, App, ClientRecord, MemberAclEntry, effective_slug, is_port_app, slugify,
}
use atreo_agent.Acl.{
  Store, new_store, is_admin_role, is_suspended, rebuild_indexes, validate_admin_pin, check_pin,
  lookup_by_tunnel_ip, at_index, index_ips, index_clients, holds_ip,
}
use atreo_agent.Acl.Members.{
  set_pinned_admin_public_key, update_member, upsert_member, unless_violated,
}
use atreo_agent.Acl.Clients.{add_client, strip_others, strip_entry, clashes, has_client_key}
use atreo_agent.Acl.Clients.Owner.{NoClash, entry_of, add_client_owner, refused_add_client}
use atreo_agent.Acl.Reconcile.{reconcile}
use atreo_agent.Acl.Reconcile.Removed.{holds_key, reconcile_removed_keys}
use atreo_agent.Acl.Access.{
  is_app_allowed, proxies, port_grants, is_tcp, is_udp, find_app, member_may_reach,
}
use atreo_agent.Acl.Access.Proxy.{Entitled, is_app_allowed-Entitled, is_app_allowed_complete}
use atreo_agent.Acl.Access.Ports.{opens, may_open, port_grants_open}
use atreo_agent.Acl.Index.{Indexed, rebuild-Indexed, holds_any, last_entry}
use atreo_agent.Acl.Persist.{contents, load, saved, saved_pin}
use atreo_agent.Acl.Persist.RoundTrip.{IsKey, to_seconds, load-saved}
use atreo_agent.Acl.Run.{Call, upsert, add, remove, set_pin, step, run}
use atreo_agent.Acl.Run.Pinned.{AllSanctioned, Carries, PinHonoured, run-PinHonoured}
use atreo_agent.Acl.Run.Fresh.{AllServed, run-Indexed}

-- The ASCII part of Go's tables.
abbrev lower : Text → Text
lower [] = []
lower (c ∷ s) = (if leb b'A' c && leb c b'Z' then c + 32 else c) ∷ lower s

abbrev skip_spaces : Text → Text
skip_spaces [] = []
skip_spaces (c ∷ s) = if eqb c 32 then skip_spaces s else c ∷ s

abbrev turned : Text → Text → Text
turned [] acc = acc
turned (c ∷ s) acc = turned s (c ∷ acc)

abbrev ascii : Unicode
ascii = record {
  to_lower = lower;
  trim_space = λ s. turned (skip_spaces (turned (skip_spaces s) [])) [];
}

abbrev web : App
web = record {
  id = lit "a1";
  name = lit "Photos";
  slug = [];
  internal_url = lit "http://photos:80";
  icon = [];
  type = [];
  port = pos 0;
  protocol = [];
}

abbrev ssh : App
ssh = record {
  id = lit "a2";
  name = lit "Shell";
  slug = lit "shell";
  internal_url = [];
  icon = [];
  type = lit "port";
  port = pos 22;
  protocol = lit "tcp";
}

abbrev client : Text → Text → ClientRecord
client key ip = record {
  wg_public_key = key;
  tunnel_ip = ip;
  tunnel_ipv6 = [];
  label = [];
  platform = [];
  endpoint_type = [];
}

abbrev entry : Text → Text → Text → List ClientRecord → List App → MemberAclEntry
entry id role key clients apps = record {
  member_id = id;
  user_id = id;
  member_name = id;
  email = [];
  role = role;
  identity_key = key;
  identity_key_proof = none;
  join_attestation = none;
  admittance = none;
  clients = clients;
  allowed_apps = apps;
  status = lit "active";
}

-- 32 bytes.
abbrev eight : Text → Text
eight t = 1 ∷ 2 ∷ 3 ∷ 4 ∷ 5 ∷ 6 ∷ 7 ∷ 8 ∷ t

abbrev pin : Text
pin = eight (eight (eight (eight [])))

abbrev ann : MemberAclEntry
ann = entry (lit "ann") (lit "owner") (encode pin) (client (lit "k1") (lit "10.0.0.2") ∷ []) []

abbrev bob : MemberAclEntry
bob =
    entry (lit "bob") (lit "member") (lit "bobs") (client (lit "k2") (lit "10.0.0.3") ∷ [])
      (web ∷ ssh ∷ [])

abbrev two : Store
two = rebuild_indexes ascii (record new_store {
  members = ann ∷ bob ∷ [];
  apps = web ∷ ssh ∷ [];
  pinned_admin_pub_key = some pin;
  last_applied_at = some 1_500_000_000;
})

two-Indexed : Indexed ascii two
two-Indexed = rebuild-Indexed ascii (record new_store {
  members = ann ∷ bob ∷ [];
  apps = web ∷ ssh ∷ [];
  pinned_admin_pub_key = some pin;
  last_applied_at = some 1_500_000_000;
})

two-PinHonoured : PinHonoured two
unfolding rebuild_indexes is_admin_role ◌==◌
two-PinHonoured key e =
    subst (λ k. All (Carries (encode k)) (ann ∷ bob ∷ [])) (same key e)
      ((λ r. refl), ((λ r. cc), tt))
  where
    same : (key : Text) → some pin ≡ some key → pin ≡ key
    same key h = cc

abbrev calls : List Call
calls =
    upsert (entry (lit "eve") (lit "admin") (lit "forged") [] [])
    ∷ add (lit "bob") (client (lit "k3") (lit "10.0.0.2"))
    ∷ set_pin true pin
    ∷ remove (lit "ann")
    ∷ []

-- The pin is set already, so the call that sets it again changes nothing.
sanctioned : AllSanctioned ascii calls two
unfolding run step add_client rebuild_indexes update_member strip_others strip_entry upsert_member
    unless_violated validate_admin_pin check_pin is_admin_role ◌==◌ encode
    set_pinned_admin_public_key
sanctioned = (tt, (tt, ((λ e. absurd cc), (tt, tt))))

run-PinHonoured_example : PinHonoured (run ascii calls two)
run-PinHonoured_example = run-PinHonoured ascii calls two sanctioned two-PinHonoured

served : AllServed ascii calls two
unfolding run step add_client rebuild_indexes update_member strip_others strip_entry upsert_member
    unless_violated validate_admin_pin check_pin is_admin_role ◌==◌ encode
    set_pinned_admin_public_key
served = (tt, (inr refl, (tt, (tt, tt))))

run-Indexed_example : Indexed ascii (run ascii calls two)
run-Indexed_example = run-Indexed ascii calls two served two-Indexed

-- Bob's client moves to Ann's address.
moved : (add_client ascii (lit "bob") (client (lit "k3") (lit "10.0.0.2")) two).1 ≡ true
unfolding add_client rebuild_indexes update_member strip_others strip_entry ◌==◌
moved = refl

add_client_owner_example :
    All
      (NoClash (lit "bob") (client (lit "k3") (lit "10.0.0.2")))
      (add_client ascii (lit "bob") (client (lit "k3") (lit "10.0.0.2")) two).0.members
    × ((m : MemberAclEntry) × (entry_of
            (lit "bob")
            (add_client ascii (lit "bob") (client (lit "k3") (lit "10.0.0.2")) two).0.members
          ≡ some m)
        × (any (has_client_key (lit "k3")) m.clients ≡ true))
add_client_owner_example =
    add_client_owner ascii (lit "bob") (client (lit "k3") (lit "10.0.0.2")) two moved

refused : (add_client ascii (lit "eve") (client (lit "k3") (lit "10.0.0.3")) two).1 ≡ false
unfolding add_client rebuild_indexes update_member strip_others strip_entry ◌==◌
refused = refl

refused_add_client_example :
    All
      (λ m. any (clashes (client (lit "k3") (lit "10.0.0.3"))) m.clients ≡ false)
      (add_client ascii (lit "eve") (client (lit "k3") (lit "10.0.0.3")) two).0.members
    × ((ip slug : Text)
        → is_app_allowed ascii ip slug
            (add_client ascii (lit "eve") (client (lit "k3") (lit "10.0.0.3")) two).0
          ≡ is_app_allowed ascii ip slug two)
refused_add_client_example =
    refused_add_client ascii (lit "eve") (client (lit "k3") (lit "10.0.0.3")) two refl refused

valid : validate_admin_pin two (bob ∷ []) ≡ none
unfolding validate_admin_pin rebuild_indexes check_pin is_admin_role ◌==◌ encode
valid = refl

reconcile_removed_keys_example :
    copies (lit "k1") (reconcile ascii (bob ∷ []) [] two).1.0.client_keys ≡ (
      if not (is_empty (lit "k1"))
        && (holds_key (lit "k1") two.members && not (holds_key (lit "k1") (bob ∷ [])))
      then 1
      else 0)
reconcile_removed_keys_example = reconcile_removed_keys ascii (bob ∷ []) [] two (lit "k1") valid

allowed : is_app_allowed ascii (lit "10.0.0.3") (lit "photos") two ≡ some web
unfolding is_app_allowed lookup_by_tunnel_ip rebuild_indexes lookup at_index index_ips index_clients
    member_may_reach is_suspended is_admin_role proxies is_port_app effective_slug slugify find_app
    insert ◌==◌
allowed = refl

is_app_allowed-Entitled_example : Entitled ascii (lit "10.0.0.3") (lit "photos") two web
is_app_allowed-Entitled_example =
    is_app_allowed-Entitled ascii (lit "10.0.0.3") (lit "photos") two web two-Indexed refl allowed

bobs : last_entry (holds_any (lit "10.0.0.3")) two.members none ≡ some bob
unfolding last_entry holds_any any holds_ip rebuild_indexes ◌==◌
bobs = refl

bob_active : is_suspended bob.status ≡ false
unfolding is_suspended ◌==◌
bob_active = refl

bob_plain : is_admin_role bob.role ≡ false
unfolding is_admin_role ◌==◌
bob_plain = refl

photos : proxies ascii (lit "photos") web ≡ true
unfolding proxies is_port_app effective_slug slugify ◌==◌
photos = refl

is_app_allowed_complete_example :
    is_app_allowed ascii (lit "10.0.0.3") (lit "photos") two ≡ some web
is_app_allowed_complete_example =
    is_app_allowed_complete ascii (lit "10.0.0.3") (lit "photos") two bob 0 web two-Indexed refl
      bobs bob_active bob_plain refl photos tt

port_grants_open_example :
    (opens (λ g. g.tcp) (lit "10.0.0.3") (pos 22) (port_grants two)
      ≡ any (may_open is_tcp (lit "10.0.0.3") (pos 22)) two.members)
    × (opens (λ g. g.udp) (lit "10.0.0.3") (pos 22) (port_grants two)
        ≡ any (may_open is_udp (lit "10.0.0.3") (pos 22)) two.members)
port_grants_open_example = port_grants_open two (lit "10.0.0.3") (pos 22) refl

pin-IsKey : OnSome IsKey two.pinned_admin_pub_key
unfolding rebuild_indexes
pin-IsKey = ground arith

load-saved_example : load ascii (saved_pin two) (contents (saved two)) new_store ≡ (
  rebuild_indexes ascii (record two { last_applied_at = to_seconds two.last_applied_at }),
  none,
)
load-saved_example = load-saved ascii two pin-IsKey
