-- ===== src/Acl.antt =====
-- internal/acl/store.go: the access-control store. This file has its state, the three indexes, the
-- admin pin, and the lookups; the operations and their laws are in the modules below.
--
-- The indexes of the source hold pointers into `s.members`; here they hold positions in that list,
-- which is what such a pointer reads through until the next rebuild. Slices are values: a caller
-- that keeps a slice returned by the store is not modelled. Each method runs under the store's lock,
-- so a method is one step.
pub mod Members
pub mod Clients
pub mod Apps
pub mod Reconcile
pub mod Access
pub mod Index
pub mod Persist
pub mod Run
mod Tests
use atreo_agent.Base.{
  ℕ, ◌+◌, Bool, not, ◌&&◌, ◌||◌, Text, lit, is_empty, ◌==◌, List, [], ◌∷◌, Option, none, some, Map,
  lookup, insert, get_elem?, if◌then◌else◌,
}
use atreo_agent.Base.Int.{ℤ, pos}
use atreo_agent.Base.Base64.{encode}
use atreo_agent.Atreolink.{Unicode, App, ClientRecord, MemberAclEntry}

-- `pinned_admin_pub_key` is `none` for a nil slice; `last_applied_at` is `none` for the zero time,
-- and otherwise nanoseconds.
pub record Store : Type 0 where
  pub members : List MemberAclEntry
  pub apps : List App
  pub by_tunnel_ip : Map ℕ
  pub by_member_id : Map ℕ
  pub by_email_full : Map ℕ
  pub pinned_admin_pub_key : Option Text
  pub generation : ℤ
  pub last_applied_at : Option ℕ

unfoldable pub new_store : Store
new_store = record {
  members = [];
  apps = [];
  by_tunnel_ip = [];
  by_member_id = [];
  by_email_full = [];
  pinned_admin_pub_key = none;
  generation = pos 0;
  last_applied_at = none;
}

-- `role == "admin" || role == "owner"`
unfoldable pub is_admin_role : Text → Bool
is_admin_role role = role == lit "admin" || role == lit "owner"

-- `status != "" && status != "active"`
unfoldable pub is_suspended : Text → Bool
is_suspended status = not (is_empty status) && not (status == lit "active")

pub data StoreError : Type 0 where
  admin_pin_already_set : StoreError
  admin_pin_violation : Text → StoreError
  pin_size : ℕ → StoreError
  disk : StoreError

-- The loop of `validateAdminPinLocked`; the error names the member.
unfoldable pub check_pin : Text → List MemberAclEntry → Option StoreError
check_pin pin [] = none
check_pin pin (m ∷ ms) =
    let rest = check_pin pin ms in
    if not (is_admin_role m.role)
    then rest
    else if is_empty m.identity_key
    then some (admin_pin_violation m.member_id)
    else if m.identity_key == pin
    then rest
    else some (admin_pin_violation m.member_id)

unfoldable pub validate_admin_pin : Store → List MemberAclEntry → Option StoreError
validate_admin_pin s ms = elim s.pinned_admin_pub_key [
  | none ↦ none
  | some pub_key ↦ check_pin (encode pub_key) ms
]

-- The addresses of one member's clients, each mapped to the member's position.
unfoldable pub index_clients : ℕ → List ClientRecord → Map ℕ → Map ℕ
index_clients i [] m = m
index_clients i (c ∷ cs) m =
    let m4 = if is_empty c.tunnel_ip then m else insert c.tunnel_ip i m in
    index_clients i cs (if is_empty c.tunnel_ipv6 then m4 else insert c.tunnel_ipv6 i m4)

unfoldable pub index_ips : ℕ → List MemberAclEntry → Map ℕ → Map ℕ
index_ips i [] m = m
index_ips i (e ∷ es) m = index_ips (i + 1) es (index_clients i e.clients m)

unfoldable pub index_ids : ℕ → List MemberAclEntry → Map ℕ → Map ℕ
index_ids i [] m = m
index_ids i (e ∷ es) m = index_ids (i + 1) es (insert e.member_id i m)

-- `strings.ToLower(strings.TrimSpace(email))`
unfoldable pub email_key : Unicode → Text → Text
email_key u email = u.to_lower (u.trim_space email)

unfoldable pub index_emails : Unicode → ℕ → List MemberAclEntry → Map ℕ → Map ℕ
index_emails u i [] m = m
index_emails u i (e ∷ es) m =
    let key = email_key u e.email in
    index_emails u (i + 1) es (if is_empty key then m else insert key i m)

unfoldable pub rebuild_indexes : Unicode → Store → Store
rebuild_indexes u s = record s {
  by_tunnel_ip = index_ips 0 s.members [];
  by_member_id = index_ids 0 s.members [];
  by_email_full = index_emails u 0 s.members [];
}

-- What a pointer in an index points to.
unfoldable pub at_index : Store → Option ℕ → Option MemberAclEntry
at_index s none = none
at_index s (some i) = get_elem? s.members i

unfoldable pub lookup_by_tunnel_ip : Store → Text → Option MemberAclEntry
lookup_by_tunnel_ip s ip = at_index s (lookup ip s.by_tunnel_ip)

unfoldable pub lookup_by_member_id : Store → Text → Option MemberAclEntry
lookup_by_member_id s id = at_index s (lookup id s.by_member_id)

unfoldable pub lookup_by_email : Unicode → Store → Text → Option MemberAclEntry
lookup_by_email u s email = at_index s (lookup (email_key u email) s.by_email_full)

unfoldable pub holds_ip : Text → ClientRecord → Bool
holds_ip ip c = c.tunnel_ip == ip || c.tunnel_ipv6 == ip

unfoldable pub find_client : Text → List ClientRecord → Option ClientRecord
find_client ip [] = none
find_client ip (c ∷ cs) = if holds_ip ip c then some c else find_client ip cs

unfoldable pub lookup_client_by_ip : Store → Text → Option (Text × ClientRecord)
lookup_client_by_ip s ip = elim (lookup_by_tunnel_ip s ip) [
  | none ↦ none
  | some entry ↦ elim (find_client ip entry.clients) [
    | none ↦ none
    | some c ↦ some (entry.member_id, c)
  ]
]

unfoldable pub first_admin : List MemberAclEntry → Option MemberAclEntry
first_admin [] = none
first_admin (m ∷ ms) = if is_admin_role m.role then some m else first_admin ms

unfoldable pub admin_entry : Store → Option MemberAclEntry
admin_entry s = first_admin s.members
