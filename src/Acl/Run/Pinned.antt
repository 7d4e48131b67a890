-- ===== src/Acl/Run/Pinned.antt =====
-- The admin pin of internal/acl/store.go: what the check admits, and that every history keeps it.
use atreo_agent.Base.{
  Bool, true, Text, ◌==◌, ==_iff, is_empty, List, [], ◌∷◌, none, some, Map, ◌≡◌, refl, subst, ◌∙◌,
  arith, All, OnSome, eqb, length, inl, inr, Option-cases, Bool-cases,
}
use atreo_agent.Base.Base64.{encode, decode}
use atreo_agent.Atreolink.{Unicode, App, ClientRecord, MemberAclEntry}
use atreo_agent.Acl.{Store, is_admin_role, check_pin, validate_admin_pin, rebuild_indexes}
use atreo_agent.Acl.Members.{
  set_pinned_admin_public_key, clear_pinned_admin_public_key, replace_all, put_member,
  upsert_member, update_member, set_allowed_apps, set_member_status, drop_member, remove_member,
  passing, failing, drop_members_failing,
}
use atreo_agent.Acl.Clients.{
  strip_entry, strip_others, put_client, add_client, without_key, member_has_key, remove_client,
}
use atreo_agent.Acl.Apps.{mirror_members, set_app_definitions, strip_app, remove_app_by_id}
use atreo_agent.Acl.Persist.{
  FileRead, missing, unreadable, garbled, contents, PersistedState, load_pin, load_acl, load_rest,
  load,
}
use atreo_agent.Acl.Reconcile.{reconcile, set_applied_generation}
use atreo_agent.Acl.Run.{
  Call, set_pin, loads, clear_pin, replace, reconciles, upsert, allow, status, add, drop_client,
  define, drop_app, remove, recheck, applied, step, run,
}

-- An admin or owner entry carries the key with this encoding.
abbrev pub Carries : Text → MemberAclEntry → Type 0
Carries pin m = is_admin_role m.role ≡ true → m.identity_key ≡ pin

abbrev pub PinHonoured : Store → Type 0
PinHonoured s =
    (key : Text) → s.pinned_admin_pub_key ≡ some key → All (Carries (encode key)) s.members

check_pin-Carries :
    (pin : Text) (ms : List MemberAclEntry) → check_pin pin ms ≡ none → All (Carries pin) ms
unfolding check_pin
check_pin-Carries pin [] h = tt
check_pin-Carries pin (m ∷ ms) h =
    (λ r. ground (arith, ==_iff m.identity_key pin), check_pin-Carries pin ms (ground arith))

pub validate-Carries :
    (s : Store) (ms : List MemberAclEntry) (key : Text)
    → validate_admin_pin s ms ≡ none
    → s.pinned_admin_pub_key ≡ some key
    → All (Carries (encode key)) ms
unfolding validate_admin_pin
validate-Carries s ms key h e = check_pin-Carries (encode key) ms (rw (e, validate_admin_pin) at h)

-- What the operations do to the list, for a predicate that reads only the role and the key.
module _ (pin : Text) where
  update-Carries :
      (f : MemberAclEntry → MemberAclEntry) (id : Text) (ms : List MemberAclEntry)
      → ((m : MemberAclEntry) → Carries pin m → Carries pin (f m))
      → All (Carries pin) ms
      → OnSome (All (Carries pin)) (update_member f id ms)
  unfolding update_member
  update-Carries f id [] keep h = tt
  update-Carries f id (m ∷ ms) keep h =
      let ih = update-Carries f id ms keep h.1 in
      elim (Bool-cases (m.member_id == id)) [
        | inl hit ↦ rw hit (keep m h.0, h.1)
        | inr miss ↦ elim (Option-cases (update_member f id ms)) [
          | inl gone ↦ rw (miss, gone) tt
          | inr (ms', found) ↦ rw (miss, found) (h.0, rw found at ih)
        ]
      ]

  put-Carries :
      (m : MemberAclEntry) (ms : List MemberAclEntry)
      → Carries pin m
      → All (Carries pin) ms
      → All (Carries pin) (put_member m ms)
  unfolding put_member
  put-Carries m [] c h = (c, tt)
  put-Carries m (e ∷ es) c h = elim (Bool-cases (e.member_id == m.member_id)) [
    | inl hit ↦ rw hit (c, h.1)
    | inr miss ↦ rw miss (h.0, put-Carries m es c h.1)
  ]

  strip-Carries :
      (id : Text) (rec : ClientRecord) (ms : List MemberAclEntry)
      → All (Carries pin) ms
      → All (Carries pin) (strip_others id rec ms)
  unfolding strip_others strip_entry
  strip-Carries id rec [] h = tt
  strip-Carries id rec (m ∷ ms) h = elim (Bool-cases (m.member_id == id)) [
    | inl same ↦ rw same (h.0, strip-Carries id rec ms h.1)
    | inr other ↦ rw other (h.0, strip-Carries id rec ms h.1)
  ]

  mirror-Carries :
      (by_id : Map App) (ms : List MemberAclEntry)
      → All (Carries pin) ms
      → All (Carries pin) (mirror_members by_id ms)
  unfolding mirror_members
  mirror-Carries by_id [] h = tt
  mirror-Carries by_id (m ∷ ms) h = (h.0, mirror-Carries by_id ms h.1)

  strip_app-Carries :
      (id : Text) (ms : List MemberAclEntry)
      → All (Carries pin) ms
      → All (Carries pin) (strip_app id ms)
  unfolding strip_app
  strip_app-Carries id [] h = tt
  strip_app-Carries id (m ∷ ms) h = (h.0, strip_app-Carries id ms h.1)

  drop-Carries :
      (id : Text) (ms : List MemberAclEntry)
      → All (Carries pin) ms
      → All (Carries pin) (drop_member id ms)
  unfolding drop_member
  drop-Carries id [] h = tt
  drop-Carries id (m ∷ ms) h = elim (Bool-cases (m.member_id == id)) [
    | inl hit ↦ rw hit (h.1)
    | inr miss ↦ rw miss (h.0, drop-Carries id ms h.1)
  ]

  passing-Carries :
      (passes : MemberAclEntry → Bool) (ms : List MemberAclEntry)
      → All (Carries pin) ms
      → All (Carries pin) (passing passes ms)
  unfolding passing
  passing-Carries passes [] h = tt
  passing-Carries passes (m ∷ ms) h = elim (Bool-cases (passes m)) [
    | inl ok ↦ rw ok (h.0, passing-Carries passes ms h.1)
    | inr bad ↦ rw bad (passing-Carries passes ms h.1)
  ]

-- A store and its successor with the same pin: what the list operation keeps, the store keeps.
module _ (u : Unicode) (s : Store) (h : PinHonoured s) where
  -- The pin of the new store may be stated through any field that the edit leaves alone.
  edit-Honours :
      (f : MemberAclEntry → MemberAclEntry) (id : Text) (ms : List MemberAclEntry)
      → ((m : MemberAclEntry) (pin : Text) → Carries pin m → Carries pin (f m))
      → update_member f id s.members ≡ some ms
      → PinHonoured (record s { members = ms })
  edit-Honours f id ms keep e key k =
      rw e at (update-Carries (encode key) f id s.members (λ m. keep m (encode key)) (h key k))

  upsert-Honours : (m : MemberAclEntry) → PinHonoured (upsert_member u m s).0
  unfolding upsert_member rebuild_indexes
  upsert-Honours m = elim (Option-cases (validate_admin_pin s (m ∷ []))) [
    | inl ok ↦ rw ok λ key e.
        put-Carries (encode key) m s.members (validate-Carries s (m ∷ []) key ok e).0 (h key e)
    | inr (err, bad) ↦ rw bad h
  ]

  replace_all-Honours : (ms : List MemberAclEntry) → PinHonoured (replace_all u ms s).0
  unfolding replace_all rebuild_indexes
  replace_all-Honours ms = elim (Option-cases (validate_admin_pin s ms)) [
    | inl ok ↦ rw ok λ key e. validate-Carries s ms key ok e
    | inr (err, bad) ↦ rw bad h
  ]

  reconcile-Honours :
      (ms : List MemberAclEntry) (apps : List App) → PinHonoured (reconcile u ms apps s).0
  unfolding reconcile rebuild_indexes
  reconcile-Honours ms apps = elim (Option-cases (validate_admin_pin s ms)) [
    | inl ok ↦ rw (ok, reconcile) λ key e. validate-Carries s ms key ok e
    | inr (err, bad) ↦ rw (bad, reconcile) h
  ]

  allow-Honours : (id : Text) (apps : List App) → PinHonoured (set_allowed_apps u id apps s).0
  unfolding set_allowed_apps rebuild_indexes
  allow-Honours id apps =
      let f = λ (e : MemberAclEntry). record e { allowed_apps = apps } in
      elim (Option-cases (update_member f id s.members)) [
        | inl gone ↦ rw (gone, set_allowed_apps) h
        | inr (ms, e) ↦ rw (e, set_allowed_apps) (edit-Honours f id ms (λ m pin c. c) e)
      ]

  status-Honours : (id st : Text) → PinHonoured (set_member_status u id st s).0
  unfolding set_member_status rebuild_indexes
  status-Honours id st =
      let f = λ (e : MemberAclEntry). record e { status = st } in
      elim (Option-cases (update_member f id s.members)) [
        | inl gone ↦ rw (gone, set_member_status) h
        | inr (ms, e) ↦ rw (e, set_member_status) (edit-Honours f id ms (λ m pin c. c) e)
      ]

  drop_client-Honours : (id key : Text) → PinHonoured (remove_client u id key s).0
  unfolding remove_client rebuild_indexes
  drop_client-Honours id key =
      let f = λ (e : MemberAclEntry). record e { clients = without_key key e.clients } in
      elim (Option-cases (update_member f id s.members)) [
        | inl gone ↦ rw (gone, remove_client) h
        | inr (ms, e) ↦
            rw (e, remove_client)
              (elim (Bool-cases (member_has_key id key s.members)) [
                | inl held ↦ rw held (edit-Honours f id ms (λ m pin c. c) e)
                | inr free ↦ rw free (edit-Honours f id ms (λ m pin c. c) e)
              ])
      ]

  recheck-Honours :
      (passes : MemberAclEntry → Bool) (bad : List MemberAclEntry)
      → failing passes s.members ≡ bad
      → PinHonoured (drop_members_failing u passes s).0
  unfolding drop_members_failing rebuild_indexes
  recheck-Honours passes [] e = rw (e, drop_members_failing) h
  recheck-Honours passes (m ∷ ms) e =
      rw (e, drop_members_failing) λ key k. passing-Carries (encode key) passes s.members (h key k)

add-Honours :
    (u : Unicode) (s : Store) (id : Text) (rec : ClientRecord)
    → PinHonoured s
    → PinHonoured (add_client u id rec s).0
unfolding add_client rebuild_indexes
add-Honours u s id rec h =
    let t = record s { members = strip_others id rec s.members } in
    let f = λ (e : MemberAclEntry). record e { clients = put_client rec e.clients } in
    let ht : PinHonoured t = λ key k. strip-Carries (encode key) id rec s.members (h key k) in
    elim (Bool-cases (is_empty rec.wg_public_key)) [
      | inl blank ↦ rw (blank, add_client) h
      | inr key ↦ elim (Option-cases (update_member f id t.members)) [
        | inl gone ↦ rw (key, gone, add_client) ht
        | inr (ms, e) ↦ rw (key, e, add_client) (edit-Honours u t ht f id ms (λ m pin c. c) e)
      ]
    ]

-- The members that `Load` leaves: those of the file, none without a file, the old ones after an error.
abbrev pub left_members : FileRead PersistedState → List MemberAclEntry → List MemberAclEntry
left_members missing old = []
left_members unreadable old = old
left_members garbled old = old
left_members (contents p) old = p.members

-- `SetPinnedAdminPublicKey` and `Load` do not check the members. A call of the first is sanctioned if
-- the members there agree with the key when no pin is set; one of the second, if the members that it
-- leaves agree with the key in the pin file. Any other call is.
abbrev pub Sanctioned : Call → Store → Type 0
Sanctioned (set_pin written key) s =
    s.pinned_admin_pub_key ≡ none → All (Carries (encode key)) s.members
Sanctioned (loads pin acl) s =
    (b64 key : Text)
    → pin ≡ contents b64
    → decode b64 ≡ some key
    → All (Carries (encode key)) (left_members acl s.members)
Sanctioned _ s = Unit

abbrev pub AllSanctioned : Unicode → List Call → Store → Type 0
AllSanctioned u [] s = Unit
AllSanctioned u (c ∷ cs) s = Sanctioned c s × AllSanctioned u cs (step u c s)

set_pin-Honours :
    (written : Bool) (key : Text) (s : Store)
    → (s.pinned_admin_pub_key ≡ none → All (Carries (encode key)) s.members)
    → PinHonoured s
    → PinHonoured (set_pinned_admin_public_key written key s).0
unfolding set_pinned_admin_public_key
set_pin-Honours written key s agree h = elim (Bool-cases (eqb (length key) 32)) [
  | inr short ↦ rw (short, set_pinned_admin_public_key) h
  | inl size ↦ elim (Option-cases s.pinned_admin_pub_key) [
    | inr (old, pinned) ↦ rw (size, pinned, set_pinned_admin_public_key) h
    | inl free ↦
        rw (size, free, set_pinned_admin_public_key)
          λ key' e. subst (λ k. All (Carries (encode k)) s.members) (same key' e) (agree free)
  ]
]
  where
    same : (key' : Text) → some key ≡ some key' → key ≡ key'
    same key' e = cc

load_acl-Honours :
    (u : Unicode) (acl : FileRead PersistedState) (s : Store)
    → ((key : Text)
        → s.pinned_admin_pub_key ≡ some key
        → All (Carries (encode key)) (left_members acl s.members))
    → PinHonoured (load_acl u acl s).0
unfolding load_acl rebuild_indexes
load_acl-Honours u missing s agree = λ key e. tt
load_acl-Honours u unreadable s agree = agree
load_acl-Honours u garbled s agree = agree
load_acl-Honours u (contents p) s agree = agree

load-Honours :
    (u : Unicode) (pin : FileRead Text) (acl : FileRead PersistedState) (s : Store)
    → Sanctioned (loads pin acl) s
    → PinHonoured s
    → PinHonoured (load u pin acl s).0
unfolding load load_pin load_rest
load-Honours u missing acl s agree h = load_acl-Honours u acl _ (λ key e. absurd (unpinned e))
  where
    unpinned : {key : Text} → none ≡ some key → ⊥
    unpinned e = cc
load-Honours u unreadable acl s agree h = h
load-Honours u garbled acl s agree h = h
load-Honours u (contents b64) acl s agree h = elim (Bool-cases (is_empty b64)) [
  | inl blank ↦ rw blank (load_acl-Honours u acl _ (λ key e. absurd (unpinned e)))
  | inr given ↦ elim (Option-cases (decode b64)) [
    | inl bad ↦ rw (given, bad) h
    | inr (key, decoded) ↦ elim (Bool-cases (eqb (length key) 32)) [
      | inr short ↦ rw (given, decoded, short) h
      | inl size ↦
          rw (given, decoded, size)
            (load_acl-Honours u acl (record s { pinned_admin_pub_key = some key })
              λ key' e. agree b64 key' refl (decoded ∙ e))
    ]
  ]
]
  where
    unpinned : {key : Text} → none ≡ some key → ⊥
    unpinned e = cc

-- Every sanctioned call keeps the pin honoured.
step-PinHonoured :
    (u : Unicode) (c : Call) (s : Store) → Sanctioned c s → PinHonoured s → PinHonoured (step u c s)
unfolding step clear_pinned_admin_public_key set_app_definitions remove_app_by_id
step-PinHonoured u (set_pin written key) s v h = set_pin-Honours written key s v h
step-PinHonoured u (loads pin acl) s v h = load-Honours u pin acl s v h
step-PinHonoured u (clear_pin removed) s v h = λ key e. cc
step-PinHonoured u (replace ms) s v h = replace_all-Honours u s h ms
step-PinHonoured u (reconciles ms apps) s v h = reconcile-Honours u s h ms apps
step-PinHonoured u (upsert m) s v h = upsert-Honours u s h m
step-PinHonoured u (allow id apps) s v h = allow-Honours u s h id apps
step-PinHonoured u (status id st) s v h = status-Honours u s h id st
step-PinHonoured u (add id rec) s v h = add-Honours u s id rec h
step-PinHonoured u (drop_client id key) s v h = drop_client-Honours u s h id key
step-PinHonoured u (define apps) s v h = λ key e. mirror-Carries (encode key) _ s.members (h key e)
step-PinHonoured u (drop_app id) s v h =
    λ key e. strip_app-Carries (encode key) id s.members (h key e)
step-PinHonoured u (remove id) s v h =
    unfold remove_member rebuild_indexes in
    λ key e. drop-Carries (encode key) id s.members (h key e)
step-PinHonoured u (recheck passes) s v h = recheck-Honours u s h passes _ refl
step-PinHonoured u (applied gen at) s v h = unfold set_applied_generation in h

-- From a store whose admin and owner entries carry the pinned key, no history of calls, those that set,
-- clear and load the pin among them, leads to a store where one of them carries another key or none,
-- if at each call of `SetPinnedAdminPublicKey` that finds no pin the members agree with the new key,
-- and at each `Load` the members that it leaves agree with the key of the pin file.
pub run-PinHonoured :
    (u : Unicode) (cs : List Call) (s : Store)
    → AllSanctioned u cs s
    → PinHonoured s
    → PinHonoured (run u cs s)
unfolding run
run-PinHonoured u [] s v h = h
run-PinHonoured u (c ∷ cs) s v h =
    run-PinHonoured u cs (step u c s) v.1 (step-PinHonoured u c s v.0 h)
