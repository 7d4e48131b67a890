-- ===== src/Acl/Clients.antt =====
-- internal/acl/store.go: `AddClient` and `RemoveClient`.
pub mod Owner
use atreo_agent.Base.{
  Bool, true, false, not, ◌&&◌, ◌||◌, Text, is_empty, ◌==◌, List, [], ◌∷◌, none, some, any,
  if◌then◌else◌,
}
use atreo_agent.Atreolink.{Unicode, ClientRecord, MemberAclEntry}
use atreo_agent.Acl.{Store, rebuild_indexes}
use atreo_agent.Acl.Members.{or_else, update_member}

-- The record's key, or its address when it has one.
unfoldable pub clashes : ClientRecord → ClientRecord → Bool
clashes rec c =
    c.wg_public_key == rec.wg_public_key
    || (not (is_empty rec.tunnel_ip) && c.tunnel_ip == rec.tunnel_ip)

unfoldable pub without_clashes : ClientRecord → List ClientRecord → List ClientRecord
without_clashes rec [] = []
without_clashes rec (c ∷ cs) =
    let rest = without_clashes rec cs in if clashes rec c then rest else c ∷ rest

-- One round of the first loop of `AddClient`: an entry with another id loses the clashing clients.
unfoldable pub strip_entry : Text → ClientRecord → MemberAclEntry → MemberAclEntry
strip_entry id rec e =
    if e.member_id == id then e else record e { clients = without_clashes rec e.clients }

unfoldable pub strip_others : Text → ClientRecord → List MemberAclEntry → List MemberAclEntry
strip_others id rec [] = []
strip_others id rec (e ∷ es) = strip_entry id rec e ∷ strip_others id rec es

unfoldable pub refresh : ClientRecord → ClientRecord → ClientRecord
refresh rec c = record rec {
  tunnel_ip = or_else rec.tunnel_ip c.tunnel_ip;
  tunnel_ipv6 = or_else rec.tunnel_ipv6 c.tunnel_ipv6;
  label = or_else rec.label c.label;
  platform = or_else rec.platform c.platform;
  endpoint_type = or_else rec.endpoint_type c.endpoint_type;
}

-- The first record with the same key is refreshed; else the new one is appended.
unfoldable pub put_client : ClientRecord → List ClientRecord → List ClientRecord
put_client rec [] = rec ∷ []
put_client rec (c ∷ cs) =
    if c.wg_public_key == rec.wg_public_key then refresh rec c ∷ cs else c ∷ put_client rec cs

-- For an unknown member the clients have been stripped by then, and the indexes are not rebuilt.
unfoldable pub add_client : Unicode → Text → ClientRecord → Store → Store × Bool
add_client u id rec s =
    let stripped = strip_others id rec s.members in
    let put = λ (e : MemberAclEntry). record e { clients = put_client rec e.clients } in
    if is_empty rec.wg_public_key then (s, false) else elim (update_member put id stripped) [
      | none ↦ (record s { members = stripped }, false)
      | some ms ↦ (rebuild_indexes u (record s { members = ms }), true)
    ]

unfoldable pub has_client_key : Text → ClientRecord → Bool
has_client_key key c = c.wg_public_key == key

unfoldable pub without_key : Text → List ClientRecord → List ClientRecord
without_key key [] = []
without_key key (c ∷ cs) =
    let rest = without_key key cs in if has_client_key key c then rest else c ∷ rest

-- Whether the first entry with this id holds the key: the flag `removed`.
unfoldable pub member_has_key : Text → Text → List MemberAclEntry → Bool
member_has_key id key [] = false
member_has_key id key (e ∷ es) =
    if e.member_id == id then any (has_client_key key) e.clients else member_has_key id key es

unfoldable pub remove_client : Unicode → Text → Text → Store → Store × Bool
remove_client u id key s =
    let drop_key = λ (e : MemberAclEntry). record e { clients = without_key key e.clients } in
    elim (update_member drop_key id s.members) [
      | none ↦ (s, false)
      | some ms ↦
          let removed = member_has_key id key s.members in
          let s' = record s { members = ms } in
          ((if removed then rebuild_indexes u s' else s'), removed)
    ]
