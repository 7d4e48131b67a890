-- ===== src/Acl/Run/Fresh.antt =====
-- The indexes of internal/acl/store.go along a history: which calls leave them those of the members.
use atreo_agent.Base.{
  eqb, length, Option, none, some, ℕ, ◌+◌, Bool, true, false, Text, ◌==◌, is_empty, List, [], ◌∷◌,
  Map, any, ◌≡◌, refl, ◌∙◌, ◌⊎◌, arith, inl, inr, Option-cases, Bool-cases, OnSome, if◌then◌else◌,
}
use atreo_agent.Atreolink.{Unicode, App, ClientRecord, MemberAclEntry}
use atreo_agent.Acl.{Store, validate_admin_pin, index_ips, index_ids, index_emails, index_clients}
use atreo_agent.Acl.Index.{Indexed, rebuild-Indexed}
use atreo_agent.Acl.Members.{
  set_pinned_admin_public_key, clear_pinned_admin_public_key, unless_violated, replace_all,
  upsert_member, update_member, put_member, drop_member, set_allowed_apps, set_member_status,
  remove_member, passing, failing, drop_members_failing,
}
use atreo_agent.Acl.Clients.{
  has_client_key, strip_others, put_client, add_client, without_key, member_has_key, remove_client,
}
use atreo_agent.Acl.Apps.{
  apps_by_id, mirror_members, set_app_definitions, strip_app, remove_app_by_id,
}
use atreo_agent.Acl.Persist.{
  FileRead, missing, unreadable, garbled, contents, PersistedState, LoadError, load_pin, load_acl,
  load_rest, load,
}
use atreo_agent.Acl.Reconcile.{reconcile, set_applied_generation}
use atreo_agent.Acl.Run.{
  Call, set_pin, loads, clear_pin, replace, reconciles, upsert, allow, status, add, drop_client,
  define, drop_app, remove, recheck, applied, step, run,
}

-- Entry by entry the same clients, id and email: all that the indexes are made from.
abbrev SameKeys : List MemberAclEntry → List MemberAclEntry → Type 0
SameKeys [] [] = Unit
SameKeys [] (f ∷ fs) = ⊥
SameKeys (e ∷ es) [] = ⊥
SameKeys (e ∷ es) (f ∷ fs) =
    ((e.clients ≡ f.clients) × (e.member_id ≡ f.member_id) × (e.email ≡ f.email)) × SameKeys es fs

same_ips :
    (es fs : List MemberAclEntry) (i : ℕ) (m : Map ℕ)
    → SameKeys es fs
    → index_ips i es m ≡ index_ips i fs m
unfolding index_ips
same_ips [] [] i m h = refl
same_ips [] (f ∷ fs) i m h = absurd h
same_ips (e ∷ es) [] i m h = absurd h
same_ips (e ∷ es) (f ∷ fs) i m h =
    rw (h.0.0) (same_ips es fs (i + 1) (index_clients i f.clients m) h.1)

same_ids :
    (es fs : List MemberAclEntry) (i : ℕ) (m : Map ℕ)
    → SameKeys es fs
    → index_ids i es m ≡ index_ids i fs m
unfolding index_ids
same_ids [] [] i m h = refl
same_ids [] (f ∷ fs) i m h = absurd h
same_ids (e ∷ es) [] i m h = absurd h
same_ids (e ∷ es) (f ∷ fs) i m h = rw (h.0.1) (same_ids es fs (i + 1) _ h.1)

same_emails :
    (u : Unicode) (es fs : List MemberAclEntry) (i : ℕ) (m : Map ℕ)
    → SameKeys es fs
    → index_emails u i es m ≡ index_emails u i fs m
unfolding index_emails
same_emails u [] [] i m h = refl
same_emails u [] (f ∷ fs) i m h = absurd h
same_emails u (e ∷ es) [] i m h = absurd h
same_emails u (e ∷ es) (f ∷ fs) i m h = rw (h.0.2) (same_emails u es fs (i + 1) _ h.1)

-- An edit in place that keeps what the indexes are made from.
edit-Indexed :
    (u : Unicode) (s : Store) (ms : List MemberAclEntry)
    → SameKeys s.members ms
    → Indexed u s
    → Indexed u (record s { members = ms })
edit-Indexed u s ms same h = record {
  ips = h.ips ∙ same_ips s.members ms 0 [] same;
  ids = h.ids ∙ same_ids s.members ms 0 [] same;
  emails = h.emails ∙ same_emails u s.members ms 0 [] same;
}

SameKeys-refl : (es : List MemberAclEntry) → SameKeys es es
SameKeys-refl [] = tt
SameKeys-refl (e ∷ es) = ((refl, refl, refl), SameKeys-refl es)

SameKeys-mirror :
    (by_id : Map App) (es : List MemberAclEntry) → SameKeys es (mirror_members by_id es)
unfolding mirror_members
SameKeys-mirror by_id [] = tt
SameKeys-mirror by_id (e ∷ es) = ((refl, refl, refl), SameKeys-mirror by_id es)

SameKeys-strip_app : (id : Text) (es : List MemberAclEntry) → SameKeys es (strip_app id es)
unfolding strip_app
SameKeys-strip_app id [] = tt
SameKeys-strip_app id (e ∷ es) = ((refl, refl, refl), SameKeys-strip_app id es)

without_key_none :
    (key : Text) (cs : List ClientRecord)
    → any (has_client_key key) cs ≡ false
    → cs ≡ without_key key cs
unfolding any without_key
without_key_none key [] h = refl
without_key_none key (c ∷ cs) h = ground (arith, without_key_none key cs)

-- Removing a key that the entry does not hold changes nothing.
SameKeys-remove :
    (id key : Text) (es : List MemberAclEntry)
    → member_has_key id key es ≡ false
    → OnSome
        (SameKeys es)
        (update_member (λ e. record e { clients = without_key key e.clients }) id es)
unfolding member_has_key update_member
SameKeys-remove id key [] h = tt
SameKeys-remove id key (m ∷ es) h =
    let f = λ (e : MemberAclEntry). record e { clients = without_key key e.clients } in
    elim (Bool-cases (m.member_id == id)) [
      | inl hit ↦
          let free : any (has_client_key key) m.clients ≡ false = rw (hit, if◌then◌else◌) at h in
          rw hit ((without_key_none key m.clients free, refl, refl), SameKeys-refl es)
      | inr miss ↦
          let ih = SameKeys-remove id key es (rw (miss, if◌then◌else◌) at h) in
          elim (Option-cases (update_member f id es)) [
            | inl gone ↦ rw (miss, gone) tt
            | inr (fs, found) ↦ rw (miss, found) ((refl, refl, refl), rw found at ih)
          ]
    ]

-- A call of `AddClient` that stops on a blank key or is served; any other call.
abbrev pub Served : Unicode → Call → Store → Type 0
Served u (add id rec) s = (is_empty rec.wg_public_key ≡ true) ⊎ ((add_client u id rec s).1 ≡ true)
Served u _ s = Unit

module _ (u : Unicode) (s : Store) (h : Indexed u s) where
  guarded-Indexed :
      (done : Store) (ms : List MemberAclEntry)
      → Indexed u done
      → Indexed u (unless_violated (validate_admin_pin s ms) done s).0
  unfolding unless_violated
  guarded-Indexed done ms hd = elim (Option-cases (validate_admin_pin s ms)) [
    | inl ok ↦ rw ok hd
    | inr (err, bad) ↦ rw bad h
  ]

  reconcile-Indexed :
      (ms : List MemberAclEntry) (apps : List App) → Indexed u (reconcile u ms apps s).0
  unfolding reconcile
  reconcile-Indexed ms apps = elim (Option-cases (validate_admin_pin s ms)) [
    | inl ok ↦ rw (ok, reconcile) (rebuild-Indexed u (record s { members = ms; apps = apps }))
    | inr (err, bad) ↦ rw (bad, reconcile) h
  ]

  allow-Indexed : (id : Text) (apps : List App) → Indexed u (set_allowed_apps u id apps s).0
  unfolding set_allowed_apps
  allow-Indexed id apps =
      elim (Option-cases (update_member (λ e. record e { allowed_apps = apps }) id s.members)) [
        | inl gone ↦ rw (gone, set_allowed_apps) h
        | inr (ms, e) ↦ rw (e, set_allowed_apps) (rebuild-Indexed u (record s { members = ms }))
      ]

  status-Indexed : (id st : Text) → Indexed u (set_member_status u id st s).0
  unfolding set_member_status
  status-Indexed id st =
      elim (Option-cases (update_member (λ e. record e { status = st }) id s.members)) [
        | inl gone ↦ rw (gone, set_member_status) h
        | inr (ms, e) ↦ rw (e, set_member_status) (rebuild-Indexed u (record s { members = ms }))
      ]

  drop_client-Indexed : (id key : Text) → Indexed u (remove_client u id key s).0
  unfolding remove_client
  drop_client-Indexed id key =
      let f = λ (e : MemberAclEntry). record e { clients = without_key key e.clients } in
      elim (Option-cases (update_member f id s.members)) [
        | inl gone ↦ rw (gone, remove_client) h
        | inr (ms, e) ↦ elim (Bool-cases (member_has_key id key s.members)) [
          | inl held ↦ rw (e, held, remove_client) (rebuild-Indexed u (record s { members = ms }))
          | inr free ↦
              rw (e, free, remove_client)
                (edit-Indexed u s ms (rw e at (SameKeys-remove id key s.members free)) h)
        ]
      ]

  add-Indexed :
      (id : Text) (rec : ClientRecord)
      → Served u (add id rec) s
      → Indexed u (add_client u id rec s).0
  unfolding add_client
  add-Indexed id rec v =
      let f = λ (e : MemberAclEntry). record e { clients = put_client rec e.clients } in
      let stripped = strip_others id rec s.members in
      elim (Bool-cases (is_empty rec.wg_public_key)) [
        | inl blank ↦ rw (blank, add_client) h
        | inr key ↦ elim (Option-cases (update_member f id stripped)) [
          | inl gone ↦ absurd (refused (rw (key, gone, add_client) at v))
          | inr (ms, e) ↦ rw (key, e, add_client) (rebuild-Indexed u (record s { members = ms }))
        ]
      ]
    where
      refused : (false ≡ true) ⊎ (false ≡ true) → ⊥
      refused (inl b) = cc
      refused (inr b) = cc

  recheck-Indexed :
      (passes : MemberAclEntry → Bool) (bad : List MemberAclEntry)
      → failing passes s.members ≡ bad
      → Indexed u (drop_members_failing u passes s).0
  unfolding drop_members_failing
  recheck-Indexed passes [] e = rw (e, drop_members_failing) h
  recheck-Indexed passes (m ∷ ms) e =
      rw (e, drop_members_failing)
        (rebuild-Indexed u (record s { members = passing passes s.members }))

set_pin-Indexed :
    (u : Unicode) (written : Bool) (key : Text) (s : Store)
    → Indexed u s
    → Indexed u (set_pinned_admin_public_key written key s).0
unfolding set_pinned_admin_public_key
set_pin-Indexed u written key s h = elim (Bool-cases (eqb (length key) 32)) [
  | inr short ↦ rw (short, set_pinned_admin_public_key) h
  | inl size ↦ elim (Option-cases s.pinned_admin_pub_key) [
    | inr (old, pinned) ↦ rw (size, pinned, set_pinned_admin_public_key) h
    | inl free ↦
        rw (size, free, set_pinned_admin_public_key)
          (record { ips = h.ips; ids = h.ids; emails = h.emails })
  ]
]

load_acl-Indexed :
    (u : Unicode) (acl : FileRead PersistedState) (s : Store)
    → Indexed u s
    → Indexed u (load_acl u acl s).0
unfolding load_acl
load_acl-Indexed u missing s h =
    unfold index_ips index_ids index_emails in record { ips = refl; ids = refl; emails = refl }
load_acl-Indexed u unreadable s h = h
load_acl-Indexed u garbled s h = h
load_acl-Indexed u (contents p) s h = rebuild-Indexed u _

load_rest-Indexed :
    (u : Unicode) (acl : FileRead PersistedState) (s : Store) (r : Option Text × Option LoadError)
    → Indexed u s
    → Indexed u (load_rest u acl s r).0
unfolding load_rest
load_rest-Indexed u acl s (key, some err) h = h
load_rest-Indexed u acl s (key, none) h =
    load_acl-Indexed u acl (record s { pinned_admin_pub_key = key })
      (record { ips = h.ips; ids = h.ids; emails = h.emails })

step-Indexed :
    (u : Unicode) (c : Call) (s : Store) → Served u c s → Indexed u s → Indexed u (step u c s)
unfolding step clear_pinned_admin_public_key set_app_definitions remove_app_by_id
step-Indexed u (set_pin written key) s v h = set_pin-Indexed u written key s h
step-Indexed u (loads pin acl) s v h =
    unfold load in load_rest-Indexed u acl s (load_pin pin s.pinned_admin_pub_key) h
step-Indexed u (clear_pin removed) s v h = record { ips = h.ips; ids = h.ids; emails = h.emails }
step-Indexed u (replace ms) s v h =
    unfold replace_all in guarded-Indexed u s h _ ms (rebuild-Indexed u (record s { members = ms }))
step-Indexed u (reconciles ms apps) s v h = reconcile-Indexed u s h ms apps
step-Indexed u (upsert m) s v h =
    unfold upsert_member in
    guarded-Indexed u s h _ (m ∷ [])
      (rebuild-Indexed u (record s { members = put_member m s.members }))
step-Indexed u (allow id apps) s v h = allow-Indexed u s h id apps
step-Indexed u (status id st) s v h = status-Indexed u s h id st
step-Indexed u (add id rec) s v h = add-Indexed u s h id rec v
step-Indexed u (drop_client id key) s v h = drop_client-Indexed u s h id key
step-Indexed u (define apps) s v h =
    let e = edit-Indexed u s _ (SameKeys-mirror (apps_by_id apps []) s.members) h in
    record { ips = e.ips; ids = e.ids; emails = e.emails }
step-Indexed u (drop_app id) s v h =
    let e = edit-Indexed u s _ (SameKeys-strip_app id s.members) h in
    record { ips = e.ips; ids = e.ids; emails = e.emails }
step-Indexed u (remove id) s v h =
    unfold remove_member in rebuild-Indexed u (record s { members = drop_member id s.members })
step-Indexed u (recheck passes) s v h = recheck-Indexed u s h passes _ refl
step-Indexed u (applied gen at) s v h =
    unfold set_applied_generation in record { ips = h.ips; ids = h.ids; emails = h.emails }

-- Every call of the history is served.
abbrev pub AllServed : Unicode → List Call → Store → Type 0
AllServed u [] s = Unit
AllServed u (c ∷ cs) s = Served u c s × AllServed u cs (step u c s)

-- From a store whose indexes are those of its members, a history in which `AddClient` is never
-- refused for an unknown member leaves the indexes those that a rebuild would make.
pub run-Indexed :
    (u : Unicode) (cs : List Call) (s : Store)
    → AllServed u cs s
    → Indexed u s
    → Indexed u (run u cs s)
unfolding run
run-Indexed u [] s v h = h
run-Indexed u (c ∷ cs) s v h = run-Indexed u cs (step u c s) v.1 (step-Indexed u c s v.0 h)
