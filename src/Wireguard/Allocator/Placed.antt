-- ===== src/Wireguard/Allocator/Placed.antt =====
-- internal/wireguard/ip_allocator.go: where the addresses that are held lie. `Load` takes any text that
-- starts with the prefix; all other operations take addresses that `InSubnet` accepts.
use atreo_agent.Base.{
  true, false, not, ◌||◌, Text, ◌==◌, ==_refl, has_prefix, List, [], ◌∷◌, Option, none, some,
  lookup, insert, any, All, ◌≡◌, ◌⊎◌, refl, arith, subst, OnSome, Option-cases, Bool-cases, inl,
  inr,
}
use atreo_agent.Wireguard.Allocator.{
  IpAllocator, is_used, host, dotted, is_reserved, is_canonical_ipv4, in_subnet, assign, release,
  load_entries, new_allocator, subnet_prefix,
}
use atreo_agent.Wireguard.Allocator.Unique.{
  Holds, IsValid, free_unreserved, assign-held, assign-IsValid, release-kept, release-IsValid,
}
use atreo_agent.Wireguard.Allocator.Canonical.{host-canonical}
use atreo_agent.Wireguard.Allocator.Search.{Hosted-prefixed}
use atreo_agent.Wireguard.Allocator.History.{
  Call, step, run, Offered, step-by, reserve-IsValid, assign_free-IsValid, fresh-IsValid,
}

-- The prefix is one of IPv4 addresses.
abbrev IsIpv4 : IpAllocator → Type 0
IsIpv4 a = is_canonical_ipv4 (host a.prefix 0) ≡ true

-- A free host of the subnet passes `InSubnet`.
in_subnet-Offered :
    (a : IpAllocator)
    → IsValid a
    → IsIpv4 a
    → (ip : Text) → is_used ip a ≡ false
    → Offered ip a
    → in_subnet ip a ≡ true
unfolding in_subnet
in_subnet-Offered a v base ip free (inl inside) = inside
in_subnet-Offered a v base ip free (inr hosted) =
    let canonical : is_canonical_ipv4 ip ≡ true =
      rw (hosted.1.1) (host-canonical a.prefix hosted.0 base hosted.1.0) in
    rw (canonical, Hosted-prefixed ip a hosted, free_unreserved a v ip free) refl

module _ (Loaded : Text → Type 0) where
  -- The address of a key passes `InSubnet`, or the state file gave it.
  abbrev pub Placed : IpAllocator → Type 0
  Placed a = (key ip : Text) → Holds a key ip → (in_subnet ip a ≡ true) ⊎ Loaded ip

  record Kept (a : IpAllocator) : Type 0 where
    base : IsIpv4 a
    valid : IsValid a
    placed : Placed a

  assign-Placed :
      (a : IpAllocator)
      → IsValid a
      → Placed a
      → (key ip : Text) → (in_subnet ip a ≡ true) ⊎ Loaded ip
      → Placed (assign key ip a)
  unfolding assign in_subnet is_reserved
  assign-Placed a v p key ip here k i h = elim (assign-held a v key ip k i h) [
    | inl (e, same) ↦ subst (λ x. (in_subnet x a ≡ true) ⊎ Loaded x) same here
    | inr (e, old) ↦ p k i old
  ]

  release-Placed : (a : IpAllocator) → Placed a → (key : Text) → Placed (release key a)
  unfolding release in_subnet is_reserved
  release-Placed a p key = elim (Option-cases (lookup key a.allocated)) [
    | inl gone ↦ rw (gone, release) p
    | inr (ip, held) ↦ rw (held, release) λ k i h. p k i (release-kept a key k i h).1
  ]

  release-IsIpv4 : (a : IpAllocator) → IsIpv4 a → (key : Text) → IsIpv4 (release key a)
  unfolding release
  release-IsIpv4 a base key = elim (Option-cases (lookup key a.allocated)) [
    | inl gone ↦ rw (gone, release) base
    | inr (ip, held) ↦ rw (held, release) base
  ]

  step-Kept : (c : Call) (a : IpAllocator) → Kept a → Kept (step c a)
  unfolding assign in_subnet is_reserved
  step-Kept c a kept =
      step-by Kept a kept
        (λ key ip free offered. record {
          base = kept.base;
          valid = assign_free-IsValid a kept.valid key ip free offered;
          placed =
              assign-Placed a kept.valid kept.placed key ip
                (inl (in_subnet-Offered a kept.valid kept.base ip free offered));
        })
        (λ ip. record {
          base = kept.base;
          valid = reserve-IsValid a kept.valid ip;
          placed = kept.placed;
        })
        (λ key. record {
          base = release-IsIpv4 a kept.base key;
          valid = release-IsValid a kept.valid key;
          placed = release-Placed a kept.placed key;
        })
        c

  run-Kept : (cs : List Call) (a : IpAllocator) → Kept a → Kept (run cs a)
  unfolding run
  run-Kept [] a kept = kept
  run-Kept (c ∷ cs) a kept = run-Kept cs (step c a) (step-Kept c a kept)

  load_entries-Kept :
      (entries : List (Text × Text)) (a : IpAllocator)
      → All (λ e. Loaded e.1) entries
      → Kept a
      → Kept (load_entries entries a)
  unfolding load_entries assign
  load_entries-Kept [] a loaded kept = kept
  load_entries-Kept ((key, ip) ∷ entries) a loaded kept =
      elim (Bool-cases (not (has_prefix ip (dotted a.prefix)) || is_used ip a)) [
        | inl skip ↦ rw skip (load_entries-Kept entries a loaded.1 kept)
        | inr keep ↦ rw keep (
            load_entries-Kept entries (assign key ip a) loaded.1 (record {
              base = kept.base;
              valid = assign-IsValid a kept.valid key ip (ground arith) (ground arith);
              placed = assign-Placed a kept.valid kept.placed key ip (inr loaded.0);
            }))
      ]

-- The file gives the address to some key.
abbrev pub InFile : Option (List (Text × Text)) → Text → Type 0
InFile none ip = ⊥
InFile (some entries) ip = any (λ e. e.1 == ip) entries ≡ true

All-InFile :
    (all entries : List (Text × Text))
    → ((ip : Text) → any (λ e. e.1 == ip) entries ≡ true → InFile (some all) ip)
    → All (λ e. InFile (some all) e.1) entries
unfolding any
All-InFile all [] h = tt
All-InFile all (e ∷ entries) h =
    (h e.1 (rw (==_refl e.1) refl), All-InFile all entries λ ip later. h ip (ground arith))

-- Whatever the state file held, and whatever calls follow, an allocator that could be made for a subnet
-- of IPv4 addresses never has one address under two keys; what a key holds is in use, is neither the
-- server's address nor host 0 or 255, which are always in use, and starts with the text of the
-- subnet's prefix; and it passes `InSubnet`, unless it is an address from the state file.
pub new_allocator-Placed :
    (subnet server : Text) (file : Option (List (Text × Text))) (cs : List Call)
    → OnSome (λ prefix. is_canonical_ipv4 (host prefix 0) ≡ true) (subnet_prefix subnet)
    → OnSome
        (λ a. IsValid (run cs a) × Placed (InFile file) (run cs a))
        (new_allocator subnet server file)
unfolding new_allocator lookup
new_allocator-Placed subnet server file cs base = elim (Option-cases (subnet_prefix subnet)) [
  | inl bad ↦ rw (bad, new_allocator) tt
  | inr (prefix, e) ↦ made prefix e (rw e at base) file
]
  where
    clash : {x : Text} → (none ≡ some x) → ⊥
    clash e = cc

    start :
        (Loaded : Text → Type 0) (prefix : Text)
        → is_canonical_ipv4 (host prefix 0) ≡ true
        → Kept Loaded (record {
          server_ip = server;
          prefix = prefix;
          allocated = [];
          used_ips =
              insert (host prefix 255) true (insert (host prefix 0) true (insert server true []));
        })
    start Loaded prefix v4 = record {
      base = v4;
      valid = fresh-IsValid server prefix;
      placed = λ k i h. absurd (clash h);
    }

    made :
        (prefix : Text)
        → subnet_prefix subnet ≡ some prefix
        → is_canonical_ipv4 (host prefix 0) ≡ true
        → (file : Option (List (Text × Text)))
        → OnSome
            (λ a. IsValid (run cs a) × Placed (InFile file) (run cs a))
            (new_allocator subnet server file)
    made prefix e v4 none =
        let kept = run-Kept (InFile none) cs _ (start (InFile none) prefix v4) in
        rw (e, new_allocator) (kept.valid, kept.placed)
    made prefix e v4 (some entries) =
        let kept = run-Kept (InFile (some entries)) cs _ (
          load_entries-Kept (InFile (some entries)) entries _ (All-InFile entries entries λ ip h. h)
            (start (InFile (some entries)) prefix v4)) in
        rw (e, new_allocator) (kept.valid, kept.placed)
