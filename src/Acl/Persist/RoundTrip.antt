-- ===== src/Acl/Persist/RoundTrip.antt =====
-- A restart: `Load` of internal/acl/store.go from the files that `Save` and the pin's write left.
use atreo_agent.Base.{
  ℕ, ◌*◌, ◌/◌, Text, Option, none, some, length, ◌≡◌, refl, ap, ◌∙◌, arith, OnSome,
}
use atreo_agent.Base.Base64.{decode-encode, encode_nonempty, IsBytes}
use atreo_agent.Atreolink.{Unicode}
use atreo_agent.Acl.{Store, new_store, rebuild_indexes}
use atreo_agent.Acl.Persist.{
  contents, load_pin, load_acl, load, load_rest, saved, saved_pin, loaded_time, saved_time,
}

-- A pinned key is 32 bytes.
abbrev pub IsKey : Text → Type 0
IsKey key = IsBytes key × (length key ≡ 32)

-- Whole seconds of a time in nanoseconds.
unfoldable pub to_seconds : Option ℕ → Option ℕ
to_seconds none = none
to_seconds (some t) = some (t / 1_000_000_000 * 1_000_000_000)

load_pin-saved :
    (s : Store) (old : Option Text)
    → OnSome IsKey s.pinned_admin_pub_key
    → load_pin (saved_pin s) old ≡ (s.pinned_admin_pub_key, none)
unfolding load_pin saved_pin
load_pin-saved s old h = go s.pinned_admin_pub_key refl h
  where
    go :
        (o : Option Text)
        → s.pinned_admin_pub_key ≡ o
        → OnSome IsKey o
        → load_pin (saved_pin s) old ≡ (o, none)
    go none e k = rw (e, saved_pin)
    go (some key) e k =
        rw (e, saved_pin)
          (rw (encode_nonempty key (omega (arith, k.1))) (rw (decode-encode key k.0) (rw (k.1))))

applied-saved : (o : Option ℕ) → loaded_time (saved_time o) none ≡ to_seconds o
unfolding loaded_time saved_time to_seconds
applied-saved none = refl
applied-saved (some t) = refl

load_acl-saved :
    (u : Unicode) (s : Store)
    → load_acl u
        (contents (saved s))
        (record new_store { pinned_admin_pub_key = s.pinned_admin_pub_key })
      ≡ (rebuild_indexes u (record s { last_applied_at = to_seconds s.last_applied_at }), none)
unfolding load_acl saved new_store rebuild_indexes
load_acl-saved u s = rw (applied-saved s.last_applied_at)

-- A new store that loads what a store with no pin, or a pin of 32 bytes, has saved is that store again,
-- with its indexes rebuilt and the time of the last apply cut to whole seconds.
pub load-saved :
    (u : Unicode) (s : Store)
    → OnSome IsKey s.pinned_admin_pub_key
    → load u (saved_pin s) (contents (saved s)) new_store
      ≡ (rebuild_indexes u (record s { last_applied_at = to_seconds s.last_applied_at }), none)
unfolding load load_rest new_store
load-saved u s h =
    ap (load_rest u (contents (saved s)) new_store) (load_pin-saved s none h) ∙ load_acl-saved u s
