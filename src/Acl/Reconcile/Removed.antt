-- ===== src/Acl/Reconcile/Removed.antt =====
-- What `Reconcile` of internal/acl/store.go reports as removed.
use atreo_agent.Base.{
  Bool, false, not, ◌&&◌, ◌||◌, Text, ==_iff, is_empty, copies, copies-snoc, List, [], ◌∷◌, none,
  insert, has_key, has_key-insert, lookup, any, ◌≡◌, refl, arith, if◌then◌else◌,
}
use atreo_agent.Atreolink.{Unicode, App, ClientRecord, MemberAclEntry}
use atreo_agent.Acl.{Store, validate_admin_pin}
use atreo_agent.Acl.Clients.{has_client_key}
use atreo_agent.Acl.Reconcile.{
  TextSet, client_keys, all_client_keys, Removals, visit_client, visit_clients, visit_members,
  removed_client_keys, report, reconcile,
}

-- Some client of some entry has this key.
unfoldable pub holds_key : Text → List MemberAclEntry → Bool
holds_key key ms = any (λ m. any (has_client_key key) m.clients) ms

has_key-client_keys :
    (k : Text) (cs : List ClientRecord) (m : TextSet)
    → has_key k (client_keys cs m)
      ≡ (has_key k m || (not (is_empty k) && any (has_client_key k) cs))
unfolding client_keys any has_client_key
has_key-client_keys k [] m = ground arith
has_key-client_keys k (c ∷ cs) m = ground (
  arith,
  has_key-client_keys k cs m,
  has_key-client_keys k cs (insert c.wg_public_key tt m),
  has_key-insert c.wg_public_key k tt m,
  ==_iff c.wg_public_key k,
)

has_key-all_client_keys :
    (k : Text) (ms : List MemberAclEntry) (m : TextSet)
    → has_key k (all_client_keys ms m) ≡ (has_key k m || (not (is_empty k) && holds_key k ms))
unfolding all_client_keys holds_key any
has_key-all_client_keys k [] m = ground arith
has_key-all_client_keys k (e ∷ es) m = ground (
  arith,
  has_key-all_client_keys k es (client_keys e.clients m),
  has_key-client_keys k e.clients m,
)

-- `k` is to be reported for this client.
lost : TextSet → Text → ClientRecord → Bool
lost next k c = has_client_key k c && (not (is_empty k) && not (has_key k next))

-- A key is noted as seen when it has been reported, and then once.
Tallied : Text → Removals → Type 0
Tallied k r = copies k r.keys ≡ (if has_key k r.seen then 1 else 0)

visit_client-seen :
    (next : TextSet) (k : Text) (c : ClientRecord) (r : Removals)
    → Tallied k r
    → Tallied k (visit_client next c r)
      × (has_key k (visit_client next c r).seen ≡ (has_key k r.seen || lost next k c))
unfolding visit_client lost has_client_key Tallied
visit_client-seen next k c r h = ground (
  arith,
  ==_iff c.wg_public_key k,
  copies-snoc k c.wg_public_key r.keys,
  has_key-insert c.wg_public_key k tt r.seen,
)

visit_clients-seen :
    (next : TextSet) (k : Text) (cs : List ClientRecord) (r : Removals)
    → Tallied k r
    → Tallied k (visit_clients next cs r)
      × (has_key k (visit_clients next cs r).seen ≡ (has_key k r.seen || any (lost next k) cs))
unfolding visit_clients any
visit_clients-seen next k [] r h = (h, ground arith)
visit_clients-seen next k (c ∷ cs) r h =
    let (t, seen) = visit_client-seen next k c r h in
    let (t', seen') = visit_clients-seen next k cs (visit_client next c r) t in
    (t', ground (arith, seen, seen'))

visit_members-seen :
    (next : TextSet) (k : Text) (ms : List MemberAclEntry) (r : Removals)
    → Tallied k r
    → Tallied k (visit_members next ms r)
      × (has_key k (visit_members next ms r).seen
          ≡ (has_key k r.seen || any (λ m. any (lost next k) m.clients) ms))
unfolding visit_members any
visit_members-seen next k [] r h = (h, ground arith)
visit_members-seen next k (m ∷ ms) r h =
    let (t, seen) = visit_clients-seen next k m.clients r h in
    let (t', seen') = visit_members-seen next k ms (visit_clients next m.clients r) t in
    (t', ground (arith, seen, seen'))

any-lost :
    (next : TextSet) (k : Text) (cs : List ClientRecord)
    → any (lost next k) cs
      ≡ (any (has_client_key k) cs && (not (is_empty k) && not (has_key k next)))
unfolding any lost
any-lost next k [] = refl
any-lost next k (c ∷ cs) = ground (arith, any-lost next k cs)

any_member_lost :
    (next : TextSet) (k : Text) (ms : List MemberAclEntry)
    → any (λ m. any (lost next k) m.clients) ms
      ≡ (holds_key k ms && (not (is_empty k) && not (has_key k next)))
unfolding any holds_key
any_member_lost next k [] = refl
any_member_lost next k (m ∷ ms) =
    ground (arith, any-lost next k m.clients, any_member_lost next k ms)

none_seen : (k : Text) → has_key {V = Unit {0}} k [] ≡ false
unfolding has_key lookup
none_seen k = refl

removed_client_keys-copies :
    (next : TextSet) (k : Text) (old : List MemberAclEntry)
    → copies k (removed_client_keys next old)
      ≡ (if holds_key k old && (not (is_empty k) && not (has_key k next)) then 1 else 0)
unfolding removed_client_keys Tallied
removed_client_keys-copies next k old =
    let start : Tallied k (record { seen = []; keys = [] }) =
      unfold has_key lookup copies Tallied in refl in
    let (t, seen) = visit_members-seen next k old (record { seen = []; keys = [] }) start in
    ground (arith, t, seen, none_seen k, any_member_lost next k old)

-- When the pin is not violated, `Reconcile` reports a client key once if it is not blank, some client
-- held it before and none holds it now, and never otherwise.
pub reconcile_removed_keys :
    (u : Unicode) (members : List MemberAclEntry) (apps : List App) (s : Store) (k : Text)
    → validate_admin_pin s members ≡ none
    → copies k (reconcile u members apps s).1.0.client_keys
      ≡ (if not (is_empty k) && (holds_key k s.members && not (holds_key k members)) then 1 else 0)
unfolding reconcile report
reconcile_removed_keys u members apps s k ok =
    rw (ok, reconcile)
      (ground (
        arith,
        none_seen k,
        removed_client_keys-copies (all_client_keys members []) k s.members,
        has_key-all_client_keys k members [],
      ))
