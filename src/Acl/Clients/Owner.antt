-- ===== src/Acl/Clients/Owner.antt =====
-- Whom a client belongs to after `AddClient` of internal/acl/store.go, and what a refused call leaves.
use atreo_agent.Base.{
  ℕ, zero, suc, Bool, true, false, Text, ◌==◌, ==_iff, is_empty, List, [], ◌∷◌, Option, none, some,
  lookup, get_elem?, any, All, OnSome, ◌≡◌, refl, ap, arith, if◌then◌else◌, inl, inr, Bool-cases,
  Option-cases,
}
use atreo_agent.Atreolink.{Unicode, App, ClientRecord, MemberAclEntry}
use atreo_agent.Acl.{Store, rebuild_indexes, at_index, lookup_by_tunnel_ip}
use atreo_agent.Acl.Members.{update_member}
use atreo_agent.Acl.Clients.{
  clashes, without_clashes, strip_entry, strip_others, refresh, put_client, add_client,
  has_client_key,
}
use atreo_agent.Acl.Access.{
  proxies, find_member_app, find_anywhere, find_app_by_slug, member_may_reach, is_app_allowed,
}

-- Entries with another id hold no client that clashes with the record.
abbrev pub NoClash : Text → ClientRecord → MemberAclEntry → Type 0
NoClash id rec m = (m.member_id == id) ≡ false → any (clashes rec) m.clients ≡ false

without_clashes-any :
    (rec : ClientRecord) (cs : List ClientRecord)
    → any (clashes rec) (without_clashes rec cs) ≡ false
unfolding any without_clashes
without_clashes-any rec [] = refl
without_clashes-any rec (c ∷ cs) = ground (arith, without_clashes-any rec cs)

strip-NoClash :
    (id : Text) (rec : ClientRecord) (ms : List MemberAclEntry)
    → All (NoClash id rec) (strip_others id rec ms)
unfolding strip_others strip_entry
strip-NoClash id rec [] = tt
strip-NoClash id rec (m ∷ ms) = elim (Bool-cases (m.member_id == id)) [
  | inl same ↦ rw same ((λ other. cc), strip-NoClash id rec ms)
  | inr other ↦ rw other ((λ _. without_clashes-any rec m.clients), strip-NoClash id rec ms)
]

-- The entry that `update_member` changes has the id, so it is under no obligation.
update-NoClash :
    (put : MemberAclEntry → MemberAclEntry) (id : Text) (rec : ClientRecord)
    (ms : List MemberAclEntry)
    → ((m : MemberAclEntry) → (put m).member_id ≡ m.member_id)
    → All (NoClash id rec) ms
    → OnSome (All (NoClash id rec)) (update_member put id ms)
unfolding update_member
update-NoClash put id rec [] keep h = tt
update-NoClash put id rec (m ∷ ms) keep h =
    let ih = update-NoClash put id rec ms keep h.1 in
    elim (Bool-cases (m.member_id == id)) [
      | inl hit ↦ rw hit ((λ other. cc (ap (λ i. i == id) (keep m), hit, other)), h.1)
      | inr miss ↦ elim (Option-cases (update_member put id ms)) [
        | inl gone ↦ rw (miss, gone) tt
        | inr (ms', found) ↦ rw (miss, found) (h.0, rw found at ih)
      ]
    ]

-- The first entry with the id holds the record's key afterwards.
put_client-holds :
    (rec : ClientRecord) (cs : List ClientRecord)
    → any (has_client_key rec.wg_public_key) (put_client rec cs) ≡ true
unfolding any put_client has_client_key refresh
put_client-holds rec [] = ground (arith, ==_iff rec.wg_public_key rec.wg_public_key)
put_client-holds rec (c ∷ cs) =
    ground (arith, put_client-holds rec cs, ==_iff rec.wg_public_key rec.wg_public_key)

-- The first entry with this id.
unfoldable pub entry_of : Text → List MemberAclEntry → Option MemberAclEntry
entry_of id [] = none
entry_of id (m ∷ ms) = if m.member_id == id then some m else entry_of id ms

update-entry_of :
    (put : MemberAclEntry → MemberAclEntry) (id : Text) (ms : List MemberAclEntry)
    → ((m : MemberAclEntry) → (put m).member_id ≡ m.member_id)
    → OnSome
        (λ ms'. (m : MemberAclEntry) × (entry_of id ms ≡ some m) × (entry_of id ms' ≡ some (put m)))
        (update_member put id ms)
unfolding update_member entry_of
update-entry_of put id [] keep = tt
update-entry_of put id (m ∷ ms) keep =
    let ih = update-entry_of put id ms keep in
    elim (Bool-cases (m.member_id == id)) [
      | inl hit ↦ rw hit (m, refl, rw (keep m) (rw hit refl))
      | inr miss ↦ elim (Option-cases (update_member put id ms)) [
        | inl gone ↦ rw (miss, gone) tt
        | inr (ms', found) ↦ rw (miss, found) (rw miss (rw found at ih))
      ]
    ]

unknown_member :
    (put : MemberAclEntry → MemberAclEntry) (id : Text) (ms : List MemberAclEntry)
    → update_member put id ms ≡ none
    → All (λ m. (m.member_id == id) ≡ false) ms
unfolding update_member
unknown_member put id [] e = tt
unknown_member put id (m ∷ ms) e = elim (Bool-cases (m.member_id == id)) [
  | inl hit ↦ absurd (some_not_none (rw (hit, if◌then◌else◌) at e))
  | inr miss ↦ elim (Option-cases (update_member put id ms)) [
    | inl gone ↦ (miss, unknown_member put id ms gone)
    | inr (ms', found) ↦ absurd (some_not_none (rw (miss, found) at e))
  ]
]
  where
    some_not_none : {a : List MemberAclEntry} → some a ≡ none → ⊥
    some_not_none h = cc

All-NoClash :
    (id : Text) (rec : ClientRecord) (ms : List MemberAclEntry)
    → All (λ m. (m.member_id == id) ≡ false) ms
    → All (NoClash id rec) ms
    → All (λ m. any (clashes rec) m.clients ≡ false) ms
All-NoClash id rec [] other h = tt
All-NoClash id rec (m ∷ ms) other h = (h.0 other.0, All-NoClash id rec ms other.1 h.1)

abbrev put_rec : ClientRecord → MemberAclEntry → MemberAclEntry
put_rec rec e = record e { clients = put_client rec e.clients }

-- When `AddClient` returns true, the first entry with the id holds the key, and no client of an entry
-- with another id has the record's key, nor its address unless that is blank.
pub add_client_owner :
    (u : Unicode) (id : Text) (rec : ClientRecord) (s : Store)
    → (add_client u id rec s).1 ≡ true
    → All (NoClash id rec) (add_client u id rec s).0.members
      × ((m : MemberAclEntry) × (entry_of id (add_client u id rec s).0.members ≡ some m)
          × (any (has_client_key rec.wg_public_key) m.clients ≡ true))
unfolding add_client rebuild_indexes
add_client_owner u id rec s ok = elim (Bool-cases (is_empty rec.wg_public_key)) [
  | inl blank ↦ absurd (no_flag (rw (blank, add_client) at ok))
  | inr key ↦ elim (Option-cases (update_member (put_rec rec) id (strip_others id rec s.members))) [
    | inl gone ↦ absurd (no_flag (rw (key, gone, add_client) at ok))
    | inr (ms, e) ↦
        let clean =
          update-NoClash (put_rec rec) id rec (strip_others id rec s.members) (λ m. refl)
            (strip-NoClash id rec s.members) in
        let (m, was, now) =
          rw e at (update-entry_of (put_rec rec) id (strip_others id rec s.members) (λ m. refl)) in
        rw (key, e, add_client)
          (rw e at clean, (put_rec rec m, now, put_client-holds rec m.clients))
  ]
]
  where
    no_flag : false ≡ true → ⊥
    no_flag h = cc

abbrev stripped : Text → ClientRecord → Store → Store
stripped id rec s = record s { members = strip_others id rec s.members }

strip_keeps :
    (id : Text) (rec : ClientRecord) (m : MemberAclEntry)
    → ((strip_entry id rec m).status ≡ m.status)
      × ((strip_entry id rec m).role ≡ m.role)
      × ((strip_entry id rec m).allowed_apps ≡ m.allowed_apps)
unfolding strip_entry
strip_keeps id rec m = ground arith

module _ (u : Unicode) (slug id : Text) (rec : ClientRecord) (s : Store) where
  find_member_app-strip :
      (p : App → Bool) (ms : List MemberAclEntry)
      → find_member_app p (strip_others id rec ms) ≡ find_member_app p ms
  unfolding find_member_app strip_others
  find_member_app-strip p [] = refl
  find_member_app-strip p (m ∷ ms) =
      ground (arith, strip_keeps id rec m, find_member_app-strip p ms)

  may_reach-strip :
      (m : MemberAclEntry)
      → member_may_reach u slug (stripped id rec s) (strip_entry id rec m)
        ≡ member_may_reach u slug s m
  unfolding member_may_reach find_app_by_slug find_anywhere
  may_reach-strip m =
      ground (arith, strip_keeps id rec m, find_member_app-strip (proxies u slug) s.members)

  reach_at-strip :
      (ms : List MemberAclEntry) (i : ℕ)
      → (elim (get_elem? (strip_others id rec ms) i) [
        | none ↦ none
        | some m ↦ member_may_reach u slug (stripped id rec s) m
      ])
        ≡ (elim (get_elem? ms i) [ none ↦ none | some m ↦ member_may_reach u slug s m ])
  unfolding strip_others
  reach_at-strip [] i = refl
  reach_at-strip (m ∷ ms) zero = may_reach-strip m
  reach_at-strip (m ∷ ms) (suc i) = reach_at-strip ms i

  allowed-strip :
      (ip : Text) → is_app_allowed u ip slug (stripped id rec s) ≡ is_app_allowed u ip slug s
  unfolding is_app_allowed lookup_by_tunnel_ip at_index
  allowed-strip ip = elim (Option-cases (lookup ip s.by_tunnel_ip)) [
    | inl none_found ↦ rw (none_found, is_app_allowed, lookup_by_tunnel_ip, at_index) refl
    | inr (i, found) ↦
        rw (found, is_app_allowed, lookup_by_tunnel_ip, at_index) (reach_at-strip s.members i)
  ]

-- When `AddClient` refuses a record with a key, for want of the member, no client of any entry clashes
-- with the record any more; and every address may reach what it could reach before, one that the
-- call has just taken from a client included.
pub refused_add_client :
    (u : Unicode) (id : Text) (rec : ClientRecord) (s : Store)
    → is_empty rec.wg_public_key ≡ false
    → (add_client u id rec s).1 ≡ false
    → All (λ m. any (clashes rec) m.clients ≡ false) (add_client u id rec s).0.members
      × ((ip slug : Text)
          → is_app_allowed u ip slug (add_client u id rec s).0 ≡ is_app_allowed u ip slug s)
unfolding add_client
refused_add_client u id rec s key no_member =
    elim (Option-cases (update_member (put_rec rec) id (strip_others id rec s.members))) [
      | inl gone ↦
          let others = unknown_member (put_rec rec) id (strip_others id rec s.members) gone in
          rw (key, gone, add_client)
            (
              All-NoClash id rec _ others (strip-NoClash id rec s.members),
              (λ ip slug. allowed-strip u slug id rec s ip),
            )
      | inr (ms, e) ↦ absurd (flag (rw (key, e, add_client) at no_member))
    ]
  where
    flag : true ≡ false → ⊥
    flag h = cc
