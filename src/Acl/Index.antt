-- ===== src/Acl/Index.antt =====
-- What the three indexes of internal/acl/store.go answer, as long as they are those of the members:
-- the last entry that fits.
use atreo_agent.Base.{
  ℕ, suc, ◌+◌, Bool, true, false, Text, ◌==◌, ==_iff, is_empty, List, [], ◌∷◌, Option, none, some,
  Map, lookup, insert, lookup-insert, get_elem?, any, ◌≡◌, refl, ap, ◌∙◌, arith, if◌then◌else◌,
}
use atreo_agent.Atreolink.{Unicode, ClientRecord, MemberAclEntry}
use atreo_agent.Acl.{
  Store, index_clients, index_ips, index_ids, index_emails, email_key, at_index,
  lookup_by_tunnel_ip, lookup_by_member_id, lookup_by_email, holds_ip, rebuild_indexes,
}

-- The indexes are those that `rebuildIndexes` would make.
pub record Indexed (u : Unicode) (s : Store) : Type 0 where
  pub ips : s.by_tunnel_ip ≡ index_ips 0 s.members []
  pub ids : s.by_member_id ≡ index_ids 0 s.members []
  pub emails : s.by_email_full ≡ index_emails u 0 s.members []

-- The last entry that passes the test, or `acc`.
unfoldable pub last_entry :
    (MemberAclEntry → Bool) → List MemberAclEntry → Option MemberAclEntry → Option MemberAclEntry
last_entry p [] acc = acc
last_entry p (e ∷ es) acc = last_entry p es (if p e then some e else acc)

-- The same for positions, from position `i` on.
last_at : (MemberAclEntry → Bool) → ℕ → List MemberAclEntry → Option ℕ → Option ℕ
last_at p i [] acc = acc
last_at p i (e ∷ es) acc = last_at p (i + 1) es (if p e then some i else acc)

-- What a position reads in a list.
read : List MemberAclEntry → Option ℕ → Option MemberAclEntry
read ms none = none
read ms (some i) = get_elem? ms i

read_if :
    (ms : List MemberAclEntry) (b : Bool) (i : ℕ) (e : MemberAclEntry) (acc : Option ℕ)
    → get_elem? ms i ≡ some e
    → read ms (if b then some i else acc) ≡ (if b then some e else read ms acc)
unfolding read
read_if ms true i e acc h = h
read_if ms false i e acc h = refl

-- `es` is what stands in `ms` from position `i` on.
read-last_at :
    (p : MemberAclEntry → Bool) (ms : List MemberAclEntry) (i : ℕ) (es : List MemberAclEntry)
    (acc : Option ℕ)
    → ((k : ℕ) → get_elem? ms (i + k) ≡ get_elem? es k)
    → read ms (last_at p i es acc) ≡ last_entry p es (read ms acc)
unfolding last_at last_entry
read-last_at p ms i [] acc at = refl
read-last_at p ms i (e ∷ es) acc at =
    let here : get_elem? ms i ≡ some e = ap (get_elem? ms) (omega arith) ∙ at 0 in
    let next : (k : ℕ) → get_elem? ms (i + 1 + k) ≡ get_elem? es k =
      λ k. ap (get_elem? ms) (omega arith) ∙ at (suc k) in
    let pick : read ms (if p e then some i else acc) ≡ (if p e then some e else read ms acc) =
      read_if ms (p e) i e acc here in
    read-last_at p ms (i + 1) es (if p e then some i else acc) next ∙ ap (last_entry p es) pick

unfoldable pub holds_any : Text → MemberAclEntry → Bool
holds_any ip m = any (holds_ip ip) m.clients

-- The empty text is no address and no email: it is never put into an index.
index_client :
    (ip : Text) (i : ℕ) (c : ClientRecord) (m : Map ℕ)
    → is_empty ip ≡ false
    → lookup ip (
        let m4 = if is_empty c.tunnel_ip then m else insert c.tunnel_ip i m in
        if is_empty c.tunnel_ipv6 then m4 else insert c.tunnel_ipv6 i m4)
      ≡ (if holds_ip ip c then some i else lookup ip m)
unfolding holds_ip
index_client ip i c m n = ground (
  arith,
  ==_iff c.tunnel_ip ip,
  ==_iff c.tunnel_ipv6 ip,
  lookup-insert c.tunnel_ip ip i m,
  lookup-insert c.tunnel_ipv6 ip i m,
  lookup-insert c.tunnel_ipv6 ip i (insert c.tunnel_ip i m),
)

lookup-index_clients :
    (ip : Text) (i : ℕ) (cs : List ClientRecord) (m : Map ℕ)
    → is_empty ip ≡ false
    → lookup ip (index_clients i cs m) ≡ (if any (holds_ip ip) cs then some i else lookup ip m)
unfolding index_clients any
lookup-index_clients ip i [] m n = refl
lookup-index_clients ip i (c ∷ cs) m n =
    let m4 = if is_empty c.tunnel_ip then m else insert c.tunnel_ip i m in
    let m6 = if is_empty c.tunnel_ipv6 then m4 else insert c.tunnel_ipv6 i m4 in
    rw (lookup-index_clients ip i cs m6 n) (rw (index_client ip i c m n) (ground arith))

lookup-index_ips :
    (ip : Text) (i : ℕ) (es : List MemberAclEntry) (m : Map ℕ)
    → is_empty ip ≡ false
    → lookup ip (index_ips i es m) ≡ last_at (holds_any ip) i es (lookup ip m)
unfolding index_ips last_at holds_any
lookup-index_ips ip i [] m n = refl
lookup-index_ips ip i (e ∷ es) m n =
    rw (lookup-index_ips ip (i + 1) es (index_clients i e.clients m) n)
      (rw (lookup-index_clients ip i e.clients m n))

unfoldable pub has_id : Text → MemberAclEntry → Bool
has_id id m = m.member_id == id

lookup-index_ids :
    (id : Text) (i : ℕ) (es : List MemberAclEntry) (m : Map ℕ)
    → lookup id (index_ids i es m) ≡ last_at (has_id id) i es (lookup id m)
unfolding index_ids last_at has_id
lookup-index_ids id i [] m = refl
lookup-index_ids id i (e ∷ es) m =
    rw (lookup-index_ids id (i + 1) es (insert e.member_id i m))
      (rw (lookup-insert e.member_id id i m))

unfoldable pub has_email : Unicode → Text → MemberAclEntry → Bool
has_email u key m = email_key u m.email == key

lookup-index_emails :
    (u : Unicode) (key : Text) (i : ℕ) (es : List MemberAclEntry) (m : Map ℕ)
    → is_empty key ≡ false
    → lookup key (index_emails u i es m) ≡ last_at (has_email u key) i es (lookup key m)
unfolding index_emails last_at has_email
lookup-index_emails u key i [] m n = refl
lookup-index_emails u key i (e ∷ es) m n =
    let k = email_key u e.email in
    rw (lookup-index_emails u key (i + 1) es (if is_empty k then m else insert k i m) n) (
      ap (last_at (has_email u key) (i + 1) es)
        (unfold has_email in ground (arith, ==_iff k key, lookup-insert k key i m)))

at_index-read : (s : Store) (o : Option ℕ) → at_index s o ≡ read s.members o
unfolding at_index read
at_index-read s none = refl
at_index-read s (some i) = refl

read_all :
    (p : MemberAclEntry → Bool) (ms : List MemberAclEntry)
    → read ms (last_at p 0 ms none) ≡ last_entry p ms none
unfolding read
read_all p ms = read-last_at p ms 0 ms none (λ k. ap (get_elem? ms) (omega arith))

module _ (u : Unicode) (s : Store) (fresh : Indexed u s) where
  -- With the indexes those of the members, `LookupByTunnelIP` of an address that is not blank gives the
  -- last member with a client at that address.
  pub lookup_by_tunnel_ip-last :
      (ip : Text)
      → is_empty ip ≡ false
      → lookup_by_tunnel_ip s ip ≡ last_entry (holds_any ip) s.members none
  unfolding lookup_by_tunnel_ip lookup
  lookup_by_tunnel_ip-last ip n =
      at_index-read s (lookup ip s.by_tunnel_ip)
      ∙ rw (fresh.ips)
          (rw (lookup-index_ips ip 0 s.members [] n) (read_all (holds_any ip) s.members))

  pub lookup_by_member_id-last :
      (id : Text) → lookup_by_member_id s id ≡ last_entry (has_id id) s.members none
  unfolding lookup_by_member_id lookup
  lookup_by_member_id-last id =
      at_index-read s (lookup id s.by_member_id)
      ∙ rw (fresh.ids) (rw (lookup-index_ids id 0 s.members []) (read_all (has_id id) s.members))

  pub lookup_by_email-last :
      (email : Text)
      → is_empty (email_key u email) ≡ false
      → lookup_by_email u s email ≡ last_entry (has_email u (email_key u email)) s.members none
  unfolding lookup_by_email lookup
  lookup_by_email-last email n =
      at_index-read s (lookup (email_key u email) s.by_email_full)
      ∙ rw (fresh.emails) (
          rw (lookup-index_emails u (email_key u email) 0 s.members [] n)
            (read_all (has_email u (email_key u email)) s.members))

pub rebuild-Indexed : (u : Unicode) (s : Store) → Indexed u (rebuild_indexes u s)
unfolding rebuild_indexes
rebuild-Indexed u s = record { ips = refl; ids = refl; emails = refl }
