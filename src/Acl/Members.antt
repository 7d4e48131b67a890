-- ===== src/Acl/Members.antt =====
-- internal/acl/store.go: the admin pin, and the operations on whole member entries.
use atreo_agent.Base.{
  Bool, true, false, Text, is_empty, ◌==◌, List, [], ◌∷◌, Option, none, some, Map, lookup, insert,
  eqb, length, if◌then◌else◌,
}
use atreo_agent.Atreolink.{Unicode, App, ClientRecord, MemberAclEntry}
use atreo_agent.Acl.{
  Store, StoreError, admin_pin_already_set, pin_size, disk, validate_admin_pin, rebuild_indexes,
}

-- `SetPinnedAdminPublicKey`. `written` is the outcome of `persistPinLocked`: the key stays set in
-- memory when the file cannot be written.
unfoldable pub set_pinned_admin_public_key : Bool → Text → Store → Store × Option StoreError
set_pinned_admin_public_key written pub_key s =
    if eqb (length pub_key) 32
    then elim s.pinned_admin_pub_key [
      | some old ↦ (s, some admin_pin_already_set)
      | none ↦
          (record s { pinned_admin_pub_key = some pub_key }, (if written then none else some disk))
    ]
    else (s, some (pin_size (length pub_key)))

-- `ClearPinnedAdminPublicKey`. `removed` tells whether the pin file is gone.
unfoldable pub clear_pinned_admin_public_key : Bool → Store → Store × Option StoreError
clear_pinned_admin_public_key removed s =
    (record s { pinned_admin_pub_key = none }, (if removed then none else some disk))

-- The end of every operation that passes the pin check, and the refusal of the others.
unfoldable pub unless_violated : Option StoreError → Store → Store → Store × Option StoreError
unless_violated none done s = (done, none)
unless_violated (some e) done s = (s, some e)

unfoldable pub replace_all : Unicode → List MemberAclEntry → Store → Store × Option StoreError
unfolding unless_violated
replace_all u members s =
    unless_violated (validate_admin_pin s members)
      (rebuild_indexes u (record s { members = members })) s

-- `if a == "" { a = b }`
unfoldable pub or_else : Text → Text → Text
or_else a b = if is_empty a then b else a

-- One round of `UpsertMember`'s inner loop: the fields that the incoming record leaves blank.
unfoldable pub merge_client : Option ClientRecord → ClientRecord → ClientRecord
merge_client none c = c
merge_client (some prev) c = record c {
  tunnel_ip = or_else c.tunnel_ip prev.tunnel_ip;
  label = or_else c.label prev.label;
  platform = or_else c.platform prev.platform;
  endpoint_type = or_else c.endpoint_type prev.endpoint_type;
}

-- `byKey`: of two records with one key the later stays.
unfoldable pub clients_by_key : List ClientRecord → Map ClientRecord → Map ClientRecord
clients_by_key [] m = m
clients_by_key (c ∷ cs) m = clients_by_key cs (insert c.wg_public_key c m)

unfoldable pub merge_clients : Map ClientRecord → List ClientRecord → List ClientRecord
merge_clients by_key [] = []
merge_clients by_key (c ∷ cs) =
    merge_client (lookup c.wg_public_key by_key) c ∷ merge_clients by_key cs

unfoldable pub merged : List ClientRecord → List ClientRecord → List ClientRecord
merged existing [] = existing
merged existing (c ∷ cs) = merge_clients (clients_by_key existing []) (c ∷ cs)

-- The first entry with the same id is replaced, with its clients merged in; else the new entry is
-- appended.
unfoldable pub put_member : MemberAclEntry → List MemberAclEntry → List MemberAclEntry
put_member m [] = m ∷ []
put_member m (e ∷ es) =
    if e.member_id == m.member_id
    then record m { clients = merged e.clients m.clients } ∷ es
    else e ∷ put_member m es

unfoldable pub upsert_member : Unicode → MemberAclEntry → Store → Store × Option StoreError
unfolding unless_violated
upsert_member u m s =
    unless_violated (validate_admin_pin s (m ∷ []))
      (rebuild_indexes u (record s { members = put_member m s.members })) s

-- The first entry with this id, changed by `f`; `none` when there is no such entry.
unfoldable pub update_member :
    (MemberAclEntry → MemberAclEntry) → Text → List MemberAclEntry → Option (List MemberAclEntry)
update_member f id [] = none
update_member f id (e ∷ es) =
    let rest = update_member f id es in
    if e.member_id == id
    then some (f e ∷ es)
    else elim rest [ none ↦ none | some es' ↦ some (e ∷ es') ]

unfoldable pub set_allowed_apps : Unicode → Text → List App → Store → Store × Bool
set_allowed_apps u id apps s =
    elim (update_member (λ e. record e { allowed_apps = apps }) id s.members) [
      | none ↦ (s, false)
      | some ms ↦ (rebuild_indexes u (record s { members = ms }), true)
    ]

unfoldable pub clients_of : Text → List MemberAclEntry → List ClientRecord
clients_of id [] = []
clients_of id (e ∷ es) = if e.member_id == id then e.clients else clients_of id es

-- The second component is the clients' snapshot and the flag.
unfoldable pub set_member_status :
    Unicode → Text → Text → Store → Store × (List ClientRecord × Bool)
set_member_status u id status s =
    elim (update_member (λ e. record e { status = status }) id s.members) [
      | none ↦ (s, ([], false))
      | some ms ↦ (rebuild_indexes u (record s { members = ms }), (clients_of id s.members, true))
    ]

unfoldable pub drop_member : Text → List MemberAclEntry → List MemberAclEntry
drop_member id [] = []
drop_member id (e ∷ es) = if e.member_id == id then es else e ∷ drop_member id es

unfoldable pub remove_member : Unicode → Text → Store → Store
remove_member u id s = rebuild_indexes u (record s { members = drop_member id s.members })

-- `passes m` stands for `verify(m) == nil`.
unfoldable pub passing : (MemberAclEntry → Bool) → List MemberAclEntry → List MemberAclEntry
passing passes [] = []
passing passes (m ∷ ms) = let rest = passing passes ms in if passes m then m ∷ rest else rest

unfoldable pub failing : (MemberAclEntry → Bool) → List MemberAclEntry → List MemberAclEntry
failing passes [] = []
failing passes (m ∷ ms) = let rest = failing passes ms in if passes m then rest else m ∷ rest

unfoldable pub drop_members_failing :
    Unicode → (MemberAclEntry → Bool) → Store → Store × List MemberAclEntry
drop_members_failing u passes s = elim (failing passes s.members) [
  | [] ↦ (s, [])
  | d ∷ ds ↦ (rebuild_indexes u (record s { members = passing passes s.members }), d ∷ ds)
]
