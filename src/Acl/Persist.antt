-- ===== src/Acl/Persist.antt =====
-- internal/acl/store.go: `Load`, `Save`, and the two files. The files' JSON is read and written by
-- encoding/json: a file is modelled by what it decodes to.
pub mod RoundTrip
use atreo_agent.Base.{
  ℕ, ◌*◌, ◌/◌, Text, is_empty, List, [], Option, none, some, eqb, length, if◌then◌else◌,
}
use atreo_agent.Base.Int.{ℤ}
use atreo_agent.Base.Base64.{encode, decode}
use atreo_agent.Atreolink.{Unicode, App, MemberAclEntry}
use atreo_agent.Acl.{Store, rebuild_indexes}

-- What reading and decoding a file comes to.
pub data FileRead {ℓ} (A : Type ℓ) : Type ℓ where
  missing : FileRead A
  unreadable : FileRead A
  garbled : FileRead A
  contents : A → FileRead A

-- `last_applied_at` is RFC 3339, which has whole seconds; `none` is the empty string.
pub record PersistedState : Type 0 where
  pub members : List MemberAclEntry
  pub apps : List App
  pub generation : ℤ
  pub last_applied_at : Option ℕ

pub data LoadError : Type 0 where
  pin_unreadable pin_garbled pin_not_base64 pin_wrong_length : LoadError
  acl_unreadable acl_garbled : LoadError

-- `loadPinLocked`; the file holds the base64 of the key.
unfoldable pub load_pin : FileRead Text → Option Text → Option Text × Option LoadError
load_pin missing old = (none, none)
load_pin unreadable old = (old, some pin_unreadable)
load_pin garbled old = (old, some pin_garbled)
load_pin (contents b64) old = if is_empty b64 then (none, none) else elim (decode b64) [
  | none ↦ (old, some pin_not_base64)
  | some key ↦ if eqb (length key) 32 then (some key, none) else (old, some pin_wrong_length)
]

-- A time in nanoseconds, from the file's seconds; an empty string leaves the old one.
unfoldable pub loaded_time : Option ℕ → Option ℕ → Option ℕ
loaded_time none old = old
loaded_time (some seconds) old = some (seconds * 1_000_000_000)

unfoldable pub saved_time : Option ℕ → Option ℕ
saved_time none = none
saved_time (some t) = some (t / 1_000_000_000)

unfoldable pub load_acl : Unicode → FileRead PersistedState → Store → Store × Option LoadError
load_acl u missing s = (
  record s { members = []; apps = []; by_tunnel_ip = []; by_member_id = []; by_email_full = [] },
  none,
)
load_acl u unreadable s = (s, some acl_unreadable)
load_acl u garbled s = (s, some acl_garbled)
load_acl u (contents p) s = (
  rebuild_indexes u (record s {
    members = p.members;
    apps = p.apps;
    generation = p.generation;
    last_applied_at = loaded_time p.last_applied_at s.last_applied_at;
  }),
  none,
)

-- The pin is read first; when that fails the ACL file is not looked at.
unfoldable pub load_rest :
    Unicode
    → FileRead PersistedState
    → Store
    → Option Text × Option LoadError
    → Store × Option LoadError
load_rest u acl s (key, some err) = (s, some err)
load_rest u acl s (key, none) = load_acl u acl (record s { pinned_admin_pub_key = key })

unfoldable pub load :
    Unicode → FileRead Text → FileRead PersistedState → Store → Store × Option LoadError
load u pin acl s = load_rest u acl s (load_pin pin s.pinned_admin_pub_key)

-- The content that `Save` writes; that the write succeeds is up to the disk.
unfoldable pub saved : Store → PersistedState
saved s = record {
  members = s.members;
  apps = s.apps;
  generation = s.generation;
  last_applied_at = saved_time s.last_applied_at;
}

-- The content of the pin file that `persistPinLocked` writes.
unfoldable pub saved_pin : Store → FileRead Text
saved_pin s = elim s.pinned_admin_pub_key [ none ↦ missing | some key ↦ contents (encode key) ]
