-- ===== src/Acl/Apps.antt =====
-- internal/acl/store.go: the device's app catalogue and its mirrors in the members' allowed apps.
pub mod Catalogue
use atreo_agent.Base.{
  ℕ, suc, ◌+◌, Text, ◌==◌, List, [], ◌∷◌, none, some, Map, lookup, insert, if◌then◌else◌,
}
use atreo_agent.Atreolink.{App, MemberAclEntry}
use atreo_agent.Acl.{Store}

unfoldable pub apps_by_id : List App → Map App → Map App
apps_by_id [] m = m
apps_by_id (a ∷ apps) m = apps_by_id apps (insert a.id a m)

-- One incoming definition: the first app with its id is replaced, else it is appended.
unfoldable pub put_app : App → List App → List App
put_app a [] = a ∷ []
put_app a (e ∷ es) = if e.id == a.id then a ∷ es else e ∷ put_app a es

unfoldable pub put_apps : List App → List App → List App
put_apps [] apps = apps
put_apps (a ∷ incoming) apps = put_apps incoming (put_app a apps)

unfoldable pub updated_app : Map App → App → App
updated_app by_id a = elim (lookup a.id by_id) [ none ↦ a | some b ↦ b ]

unfoldable pub mirror_apps : Map App → List App → List App
mirror_apps by_id [] = []
mirror_apps by_id (a ∷ apps) = updated_app by_id a ∷ mirror_apps by_id apps

unfoldable pub mirror_members : Map App → List MemberAclEntry → List MemberAclEntry
mirror_members by_id [] = []
mirror_members by_id (m ∷ ms) =
    record m { allowed_apps = mirror_apps by_id m.allowed_apps } ∷ mirror_members by_id ms

-- The members are changed in place: the indexes stay as they are.
unfoldable pub set_app_definitions : List App → Store → Store
set_app_definitions apps s = record s {
  apps = put_apps apps s.apps;
  members = mirror_members (apps_by_id apps []) s.members;
}

unfoldable pub without_app : Text → List App → List App
without_app id [] = []
without_app id (a ∷ apps) = let rest = without_app id apps in if a.id == id then rest else a ∷ rest

unfoldable pub count_app : Text → List App → ℕ
count_app id [] = 0
count_app id (a ∷ apps) = let n = count_app id apps in if a.id == id then suc n else n

unfoldable pub strip_app : Text → List MemberAclEntry → List MemberAclEntry
strip_app id [] = []
strip_app id (m ∷ ms) = record m { allowed_apps = without_app id m.allowed_apps } ∷ strip_app id ms

unfoldable pub count_removals : Text → List MemberAclEntry → ℕ
count_removals id [] = 0
count_removals id (m ∷ ms) = count_app id m.allowed_apps + count_removals id ms

unfoldable pub remove_app_by_id : Text → Store → Store × ℕ
remove_app_by_id id s = (
  record s { apps = without_app id s.apps; members = strip_app id s.members },
  count_removals id s.members,
)
