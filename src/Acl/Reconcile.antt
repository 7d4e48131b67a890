-- ===== src/Acl/Reconcile.antt =====
-- internal/acl/store.go: `Reconcile`, the wholesale replacement, and the applied generation.
pub mod Removed
use atreo_agent.Base.{
  ℕ, ◌||◌, Text, is_empty, List, [], ◌∷◌, ◌++◌, Option, none, some, Map, insert, has_key,
  if◌then◌else◌,
}
use atreo_agent.Base.Int.{ℤ}
use atreo_agent.Atreolink.{Unicode, App, ClientRecord, MemberAclEntry}
use atreo_agent.Acl.{Store, StoreError, validate_admin_pin, rebuild_indexes}

-- `map[string]struct{}`
abbrev pub TextSet : Type 0
TextSet = Map Unit

unfoldable pub member_ids : List MemberAclEntry → TextSet → TextSet
member_ids [] m = m
member_ids (e ∷ es) m = member_ids es (insert e.member_id tt m)

unfoldable pub client_keys : List ClientRecord → TextSet → TextSet
client_keys [] m = m
client_keys (c ∷ cs) m =
    client_keys cs (if is_empty c.wg_public_key then m else insert c.wg_public_key tt m)

unfoldable pub all_client_keys : List MemberAclEntry → TextSet → TextSet
all_client_keys [] m = m
all_client_keys (e ∷ es) m = all_client_keys es (client_keys e.clients m)

unfoldable pub removed_members : TextSet → List MemberAclEntry → List MemberAclEntry
removed_members next [] = []
removed_members next (e ∷ es) =
    let rest = removed_members next es in if has_key e.member_id next then rest else e ∷ rest

-- `seenRemoved` and `removedClientKeys`, as far as the loops have come.
pub record Removals : Type 0 where
  pub seen : TextSet
  pub keys : List Text

unfoldable pub visit_client : TextSet → ClientRecord → Removals → Removals
visit_client next c r =
    let key = c.wg_public_key in
    if is_empty key || (has_key key next || has_key key r.seen)
    then r
    else record r { seen = insert key tt r.seen; keys = r.keys ++ key ∷ [] }

unfoldable pub visit_clients : TextSet → List ClientRecord → Removals → Removals
visit_clients next [] r = r
visit_clients next (c ∷ cs) r = visit_clients next cs (visit_client next c r)

unfoldable pub visit_members : TextSet → List MemberAclEntry → Removals → Removals
visit_members next [] r = r
visit_members next (e ∷ es) r = visit_members next es (visit_clients next e.clients r)

unfoldable pub removed_client_keys : TextSet → List MemberAclEntry → List Text
unfolding visit_members visit_clients visit_client
removed_client_keys next old = (visit_members next old (record { seen = []; keys = [] })).keys

unfoldable pub app_ids : List App → TextSet → TextSet
app_ids [] m = m
app_ids (a ∷ apps) m = app_ids apps (insert a.id tt m)

unfoldable pub removed_app_ids : TextSet → List App → List Text
removed_app_ids next [] = []
removed_app_ids next (a ∷ apps) =
    let rest = removed_app_ids next apps in if has_key a.id next then rest else a.id ∷ rest

pub record Report : Type 0 where
  pub members : List MemberAclEntry
  pub client_keys : List Text
  pub app_ids : List Text

abbrev pub nothing_removed : Report
nothing_removed = record { members = []; client_keys = []; app_ids = [] }

unfoldable pub report : List MemberAclEntry → List App → Store → Report
report members apps s = record {
  members = removed_members (member_ids members []) s.members;
  client_keys = removed_client_keys (all_client_keys members []) s.members;
  app_ids = removed_app_ids (app_ids apps []) s.apps;
}

-- On a pin violation the store is left as it is and nothing is reported.
unfoldable pub reconcile :
    Unicode → List MemberAclEntry → List App → Store → Store × (Report × Option StoreError)
reconcile u members apps s = elim (validate_admin_pin s members) [
  | some e ↦ (s, (nothing_removed, some e))
  | none ↦ (
    rebuild_indexes u (record s { members = members; apps = apps }),
    (report members apps s, none),
  )
]

unfoldable pub set_applied_generation : ℤ → Option ℕ → Store → Store
set_applied_generation gen at s = record s { generation = gen; last_applied_at = at }
