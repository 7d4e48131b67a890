-- ===== src/Acl/Apps/Catalogue.antt =====
-- The catalogue and its mirrors after `SetAppDefinitions` and `RemoveAppByID` of internal/acl/store.go.
use atreo_agent.Base.{
  ℕ, ◌+◌, Bool, false, Text, ◌==◌, ==_iff, List, [], ◌∷◌, Option, none, some, Map, lookup, insert,
  lookup-insert, length, any, All, ◌≡◌, refl, arith, if◌then◌else◌,
}
use atreo_agent.Atreolink.{App, MemberAclEntry}
use atreo_agent.Acl.{Store}
use atreo_agent.Acl.Apps.{
  apps_by_id, put_app, put_apps, updated_app, mirror_apps, mirror_members, set_app_definitions,
  without_app, count_app, strip_app, count_removals, remove_app_by_id,
}

-- The first app with this id.
unfoldable pub app_of : Text → List App → Option App
app_of id [] = none
app_of id (a ∷ apps) = if a.id == id then some a else app_of id apps

-- The last of the incoming definitions with this id, or what there was.
unfoldable pub newest : Text → List App → Option App → Option App
newest id [] old = old
newest id (a ∷ apps) old = newest id apps (if a.id == id then some a else old)

app_of-put_app :
    (id : Text) (a : App) (apps : List App)
    → app_of id (put_app a apps) ≡ (if a.id == id then some a else app_of id apps)
unfolding app_of put_app
app_of-put_app id a [] = refl
app_of-put_app id a (b ∷ apps) =
    ground (arith, app_of-put_app id a apps, ==_iff a.id id, ==_iff b.id a.id, ==_iff b.id id)

app_of-put_apps :
    (id : Text) (incoming apps : List App)
    → app_of id (put_apps incoming apps) ≡ newest id incoming (app_of id apps)
unfolding put_apps newest
app_of-put_apps id [] apps = refl
app_of-put_apps id (a ∷ incoming) apps =
    rw (app_of-put_apps id incoming (put_app a apps)) (rw (app_of-put_app id a apps))

lookup-apps_by_id :
    (id : Text) (incoming : List App) (m : Map App)
    → lookup id (apps_by_id incoming m) ≡ newest id incoming (lookup id m)
unfolding apps_by_id newest
lookup-apps_by_id id [] m = refl
lookup-apps_by_id id (a ∷ incoming) m =
    rw (lookup-apps_by_id id incoming (insert a.id a m)) (rw (lookup-insert a.id id a m))

-- What a member's app becomes.
unfoldable pub redefined : List App → App → App
redefined incoming a = elim (newest a.id incoming none) [ none ↦ a | some b ↦ b ]

unfoldable pub map_apps : (App → App) → List App → List App
map_apps f [] = []
map_apps f (a ∷ apps) = f a ∷ map_apps f apps

mirror-redefined :
    (incoming apps : List App)
    → mirror_apps (apps_by_id incoming []) apps ≡ map_apps (redefined incoming) apps
unfolding mirror_apps map_apps updated_app redefined
mirror-redefined incoming [] = refl
mirror-redefined incoming (a ∷ apps) =
    rw (mirror-redefined incoming apps, lookup-apps_by_id a.id incoming [], updated_app)
      (unfold lookup in refl)

unfoldable pub map_allowed : (App → App) → List MemberAclEntry → List MemberAclEntry
map_allowed f [] = []
map_allowed f (m ∷ ms) = record m { allowed_apps = map_apps f m.allowed_apps } ∷ map_allowed f ms

mirror_members-redefined :
    (incoming : List App) (ms : List MemberAclEntry)
    → mirror_members (apps_by_id incoming []) ms ≡ map_allowed (redefined incoming) ms
unfolding mirror_members map_allowed
mirror_members-redefined incoming [] = refl
mirror_members-redefined incoming (m ∷ ms) =
    rw (mirror_members-redefined incoming ms, mirror-redefined incoming m.allowed_apps)

-- After `SetAppDefinitions` the catalogue has under each id the last incoming definition, or else
-- what it had; and in every member's list each app is the last incoming definition with its id, or
-- else as it was.
pub set_app_definitions-newest :
    (incoming : List App) (s : Store)
    → ((id : Text)
        → app_of id (set_app_definitions incoming s).apps ≡ newest id incoming (app_of id s.apps))
      × ((set_app_definitions incoming s).members ≡ map_allowed (redefined incoming) s.members)
unfolding set_app_definitions
set_app_definitions-newest incoming s =
    ((λ id. app_of-put_apps id incoming s.apps), mirror_members-redefined incoming s.members)

unfoldable pub has_app : Text → App → Bool
has_app id a = a.id == id

-- How many allowed apps there are over all entries.
unfoldable pub total_allowed : List MemberAclEntry → ℕ
total_allowed [] = 0
total_allowed (m ∷ ms) = length m.allowed_apps + total_allowed ms

without_app-any : (id : Text) (apps : List App) → any (has_app id) (without_app id apps) ≡ false
unfolding any has_app without_app
without_app-any id [] = refl
without_app-any id (a ∷ apps) = ground (arith, without_app-any id apps)

without_app-count :
    (id : Text) (apps : List App) → length (without_app id apps) + count_app id apps ≡ length apps
unfolding without_app count_app
without_app-count id [] = refl
without_app-count id (a ∷ apps) = ground (arith, without_app-count id apps)

strip_app-All :
    (id : Text) (ms : List MemberAclEntry)
    → All (λ m. any (has_app id) m.allowed_apps ≡ false) (strip_app id ms)
      × (total_allowed (strip_app id ms) + count_removals id ms ≡ total_allowed ms)
unfolding strip_app total_allowed count_removals
strip_app-All id [] = (tt, refl)
strip_app-All id (m ∷ ms) =
    let (gone, count) = strip_app-All id ms in
    (
      (without_app-any id m.allowed_apps, gone),
      omega (arith, count, without_app-count id m.allowed_apps),
    )

-- `RemoveAppByID` leaves no app with this id in the catalogue or in a member's list, and returns the
-- number of apps that the members' lists have lost.
pub remove_app_by_id_gone :
    (id : Text) (s : Store)
    → (any (has_app id) (remove_app_by_id id s).0.apps ≡ false)
      × All (λ m. any (has_app id) m.allowed_apps ≡ false) (remove_app_by_id id s).0.members
      × (total_allowed (remove_app_by_id id s).0.members + (remove_app_by_id id s).1
          ≡ total_allowed s.members)
unfolding remove_app_by_id
remove_app_by_id_gone id s =
    let (gone, count) = strip_app-All id s.members in (without_app-any id s.apps, gone, count)
