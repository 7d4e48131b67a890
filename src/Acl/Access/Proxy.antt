-- ===== src/Acl/Access/Proxy.antt =====
-- Who reaches which app through the proxy: `IsAppAllowed` of internal/acl/store.go against the members.
use atreo_agent.Base.{
  ℕ, zero, suc, Bool, true, false, Text, is_empty, List, [], ◌∷◌, Option, none, some, get_elem?,
  ◌≡◌, ◌⊎◌, inl, inr, arith, Bool-cases, Option-cases, if◌then◌else◌,
}
use atreo_agent.Atreolink.{Unicode, App, MemberAclEntry}
use atreo_agent.Acl.{Store, is_admin_role, is_suspended, lookup_by_tunnel_ip}
use atreo_agent.Acl.Index.{Indexed, last_entry, holds_any, lookup_by_tunnel_ip-last}
use atreo_agent.Acl.Access.{
  find_app, find_member_app, find_anywhere, find_app_by_slug, proxies, member_may_reach,
  is_app_allowed,
}

-- The app stands in the list.
abbrev pub IsIn {ℓ} : {A : Type ℓ} → A → List A → Type ℓ
IsIn a xs = (i : ℕ) × (get_elem? xs i ≡ some a)

find_app_sound :
    (p : App → Bool) (apps : List App) (a : App)
    → find_app p apps ≡ some a
    → (p a ≡ true) × IsIn a apps
unfolding find_app
find_app_sound p [] a e = cc
find_app_sound p (b ∷ apps) a e = elim (Bool-cases (p b)) [
  | inl hit ↦
      let same : some b ≡ some a = rw (hit, if◌then◌else◌) at e in
      (ground (arith, hit, same), (0, same))
  | inr miss ↦
      let (ok, (i, at)) = find_app_sound p apps a (rw (miss, if◌then◌else◌) at e) in
      (ok, (suc i, at))
]

-- No app before the position passes.
abbrev pub NoneBefore : (App → Bool) → List App → ℕ → Type 0
NoneBefore p apps zero = Unit
NoneBefore p [] (suc i) = Unit
NoneBefore p (b ∷ apps) (suc i) = (p b ≡ false) × NoneBefore p apps i

find_app_first :
    (p : App → Bool) (apps : List App) (i : ℕ) (a : App)
    → get_elem? apps i ≡ some a
    → p a ≡ true
    → NoneBefore p apps i
    → find_app p apps ≡ some a
unfolding find_app
find_app_first p [] i a e h alone = cc
find_app_first p (b ∷ apps) zero a e h alone = here e
  where
    here : some b ≡ some a → (if p b then some b else find_app p apps) ≡ some a
    here e = ground (arith, e, h)
find_app_first p (b ∷ apps) (suc i) a e h (miss, alone) =
    rw miss (find_app_first p apps i a e h alone)

find_member_app_sound :
    (p : App → Bool) (ms : List MemberAclEntry) (a : App)
    → find_member_app p ms ≡ some a
    → p a ≡ true
unfolding find_member_app
find_member_app_sound p [] a e = cc
find_member_app_sound p (m ∷ ms) a e = elim (Option-cases (find_app p m.allowed_apps)) [
  | inl gone ↦ find_member_app_sound p ms a (ground (arith, gone))
  | inr (b, found) ↦ ground (arith, found, (find_app_sound p m.allowed_apps b found).0)
]

find_anywhere_sound :
    (p : App → Bool) (s : Store) (a : App) → find_anywhere p s ≡ some a → p a ≡ true
unfolding find_anywhere
find_anywhere_sound p s a e = elim (Option-cases (find_app p s.apps)) [
  | inl gone ↦ find_member_app_sound p s.members a (ground (arith, gone))
  | inr (b, found) ↦ ground (arith, found, (find_app_sound p s.apps b found).0)
]

last_entry_sound :
    (p : MemberAclEntry → Bool) (ms : List MemberAclEntry) (acc : Option MemberAclEntry)
    (m : MemberAclEntry)
    → last_entry p ms acc ≡ some m
    → (acc ≡ some m) ⊎ ((p m ≡ true) × IsIn m ms)
unfolding last_entry
last_entry_sound p [] acc m e = inl e
last_entry_sound p (x ∷ ms) acc m e = elim (Bool-cases (p x)) [
  | inl fits ↦
      shift (last_entry_sound p ms (some x) m (rw (fits, if◌then◌else◌) at e))
        (λ h. inr (ground (arith, fits, h), (0, h)))
  | inr other ↦ shift (last_entry_sound p ms acc m (rw (other, if◌then◌else◌) at e)) (λ h. inl h)
]
  where
    shift :
        {o : Option MemberAclEntry}
        → (o ≡ some m) ⊎ ((p m ≡ true) × IsIn m ms)
        → (o ≡ some m → (acc ≡ some m) ⊎ ((p m ≡ true) × IsIn m (x ∷ ms)))
        → (acc ≡ some m) ⊎ ((p m ≡ true) × IsIn m (x ∷ ms))
    shift (inl h) f = f h
    shift (inr (ok, (i, at))) f = inr (ok, (suc i, at))

-- What a caller from `ip` that reaches `app` under `slug` shows: an entry of the store holds the
-- address, is not suspended, and either is an admin or owner or has the app among its own.
pub record Entitled (u : Unicode) (ip slug : Text) (s : Store) (app : App) : Type 0 where
  pub member : MemberAclEntry
  pub stands : IsIn member s.members
  pub holds : holds_any ip member ≡ true
  pub active : is_suspended member.status ≡ false
  pub fits : proxies u slug app ≡ true
  pub granted : (is_admin_role member.role ≡ true) ⊎ IsIn app member.allowed_apps

may_reach-granted :
    (u : Unicode) (slug : Text) (s : Store) (m : MemberAclEntry) (app : App)
    → member_may_reach u slug s m ≡ some app
    → (is_suspended m.status ≡ false)
      × (proxies u slug app ≡ true)
      × ((is_admin_role m.role ≡ true) ⊎ IsIn app m.allowed_apps)
unfolding member_may_reach find_app_by_slug
may_reach-granted u slug s m app e = elim (Bool-cases (is_suspended m.status)) [
  | inl out ↦ absurd (never (rw (out, member_may_reach, if◌then◌else◌) at e))
  | inr active ↦ elim (Bool-cases (is_admin_role m.role)) [
    | inl admin ↦ (
      active,
      find_anywhere_sound (proxies u slug) s app
          (rw (active, admin, member_may_reach, if◌then◌else◌) at e),
      inl admin,
    )
    | inr plain ↦
        let (ok, at) =
          find_app_sound (proxies u slug) m.allowed_apps app
            (rw (active, plain, member_may_reach, if◌then◌else◌) at e) in
        (active, ok, inr at)
  ]
]
  where
    never : none ≡ some app → ⊥
    never h = cc

-- With the indexes those of the members, `IsAppAllowed` gives an app to an address that is not
-- blank only if an entry with that address is entitled to it: it is not suspended, and is an
-- admin's or owner's or has the app among its own.
pub is_app_allowed-Entitled :
    (u : Unicode) (ip slug : Text) (s : Store) (app : App)
    → Indexed u s
    → is_empty ip ≡ false
    → is_app_allowed u ip slug s ≡ some app
    → Entitled u ip slug s app
unfolding is_app_allowed
is_app_allowed-Entitled u ip slug s app fresh n e = elim (Option-cases (lookup_by_tunnel_ip s ip)) [
  | inl gone ↦ absurd (never (rw (gone, is_app_allowed) at e))
  | inr (m, found) ↦
      let (active, fits, granted) =
        may_reach-granted u slug s m app (rw (found, is_app_allowed) at e) in
      let (holds, stands) = certain m (
        last_entry_sound (holds_any ip) s.members none m
          (rw (lookup_by_tunnel_ip-last u s fresh ip n) at found)) in
      record {
        member = m;
        stands = stands;
        holds = holds;
        active = active;
        fits = fits;
        granted = granted;
      }
]
  where
    never : none ≡ some app → ⊥
    never h = cc

    certain :
        (m : MemberAclEntry)
        → (none ≡ some m) ⊎ ((holds_any ip m ≡ true) × IsIn m s.members)
        → (holds_any ip m ≡ true) × IsIn m s.members
    certain m (inl h) = cc
    certain m (inr h) = h

-- With the indexes those of the members, an address that is not blank reaches, under the slug of a web
-- app of the last entry that holds the address, this very app, provided that no earlier app of the
-- entry is a web app with the same slug, and unless the entry is suspended or an admin's or owner's.
pub is_app_allowed_complete :
    (u : Unicode) (ip slug : Text) (s : Store) (m : MemberAclEntry) (i : ℕ) (app : App)
    → Indexed u s
    → is_empty ip ≡ false
    → last_entry (holds_any ip) s.members none ≡ some m
    → is_suspended m.status ≡ false
    → is_admin_role m.role ≡ false
    → get_elem? m.allowed_apps i ≡ some app
    → proxies u slug app ≡ true
    → NoneBefore (proxies u slug) m.allowed_apps i
    → is_app_allowed u ip slug s ≡ some app
unfolding is_app_allowed member_may_reach
is_app_allowed_complete u ip slug s m i app fresh n last active plain at fits alone =
    let found = find_app_first (proxies u slug) m.allowed_apps i app at fits alone in
    rw (lookup_by_tunnel_ip-last u s fresh ip n, is_app_allowed)
      (rw (last, is_app_allowed) (rw (active, plain) found))
