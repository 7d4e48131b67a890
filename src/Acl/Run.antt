-- ===== src/Acl/Run.antt =====
-- Histories of internal/acl/store.go: every call that changes a store. The laws about all histories are in the
-- modules below.
pub mod Pinned
pub mod Fresh
use atreo_agent.Base.{Bool, Text, List, [], ◌∷◌}
use atreo_agent.Base.Int.{ℤ}
use atreo_agent.Base.{ℕ, Option}
use atreo_agent.Atreolink.{Unicode, App, ClientRecord, MemberAclEntry}
use atreo_agent.Acl.{Store}
use atreo_agent.Acl.Members.{
  set_pinned_admin_public_key, clear_pinned_admin_public_key, replace_all, upsert_member,
  set_allowed_apps, set_member_status, remove_member, drop_members_failing,
}
use atreo_agent.Acl.Clients.{add_client, remove_client}
use atreo_agent.Acl.Apps.{set_app_definitions, remove_app_by_id}
use atreo_agent.Acl.Persist.{FileRead, PersistedState, load}
use atreo_agent.Acl.Reconcile.{reconcile, set_applied_generation}

pub data Call : Type 0 where
  set_pin : Bool → Text → Call
  clear_pin : Bool → Call
  loads : FileRead Text → FileRead PersistedState → Call
  replace : List MemberAclEntry → Call
  reconciles : List MemberAclEntry → List App → Call
  upsert : MemberAclEntry → Call
  allow : Text → List App → Call
  status : Text → Text → Call
  add : Text → ClientRecord → Call
  drop_client : Text → Text → Call
  define : List App → Call
  drop_app : Text → Call
  remove : Text → Call
  recheck : (MemberAclEntry → Bool) → Call
  applied : ℤ → Option ℕ → Call

unfoldable pub step : Unicode → Call → Store → Store
step u (set_pin written key) s = (set_pinned_admin_public_key written key s).0
step u (loads pin acl) s = (load u pin acl s).0
step u (clear_pin removed) s = (clear_pinned_admin_public_key removed s).0
step u (replace ms) s = (replace_all u ms s).0
step u (reconciles ms apps) s = (reconcile u ms apps s).0
step u (upsert m) s = (upsert_member u m s).0
step u (allow id apps) s = (set_allowed_apps u id apps s).0
step u (status id st) s = (set_member_status u id st s).0
step u (add id rec) s = (add_client u id rec s).0
step u (drop_client id key) s = (remove_client u id key s).0
step u (define apps) s = set_app_definitions apps s
step u (drop_app id) s = (remove_app_by_id id s).0
step u (remove id) s = remove_member u id s
step u (recheck passes) s = (drop_members_failing u passes s).0
step u (applied gen at) s = set_applied_generation gen at s

unfoldable pub run : Unicode → List Call → Store → Store
run u [] s = s
run u (c ∷ cs) s = run u cs (step u c s)
