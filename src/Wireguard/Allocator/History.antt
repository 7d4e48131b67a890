-- ===== src/Wireguard/Allocator/History.antt =====
-- internal/wireguard/ip_allocator.go: the calls of an allocator as one step, and any history of them.
use atreo_agent.Base.{
  true, false, not, ◌||◌, Text, is_empty, ==_iff, has_prefix, List, [], ◌∷◌, none, some, lookup,
  insert, lookup-insert, ◌≡◌, ◌⊎◌, arith, Option-cases, Bool-cases, inl, inr,
}
use atreo_agent.Wireguard.Allocator.{
  IpAllocator, is_used, host, dotted, is_reserved, in_subnet, assign, first_free, allocate,
  mark_used, held_by_other, try_adopt, release, load_entries,
}
use atreo_agent.Wireguard.Allocator.Unique.{IsValid, used-insert, assign-IsValid, release-IsValid}
use atreo_agent.Wireguard.Allocator.Search.{Hosted, Hosted-prefixed, first_free-free}

pub data Call : Type 0 where
  allocates releases : Text → Call
  marks adopts : Text → Text → Call

unfoldable pub step : Call → IpAllocator → IpAllocator
step (allocates key) a = (allocate key a).0
step (releases key) a = release key a
step (marks key ip) a = mark_used key ip a
step (adopts key ip) a = (try_adopt key ip a).0

unfoldable pub run : List Call → IpAllocator → IpAllocator
run [] a = a
run (c ∷ cs) a = run cs (step c a)

-- An address that the allocator may give away: it passed `InSubnet`, or the search came to it.
abbrev pub Offered : Text → IpAllocator → Type 0
Offered ip a = (in_subnet ip a ≡ true) ⊎ Hosted ip a

-- What holds before a call and after each change that a call can make, holds after the call.
module _ {κ} (P : IpAllocator → Type κ) (a : IpAllocator) (before : P a) where
  module _
      (assigned : (key ip : Text) → is_used ip a ≡ false → Offered ip a → P (assign key ip a)) where
    allocate-by : (key : Text) → P (allocate key a).0
    unfolding allocate
    allocate-by key = elim (Option-cases (lookup key a.allocated)) [
      | inr (ip, held) ↦ rw (held, allocate) before
      | inl new ↦ elim (Option-cases (first_free 253 2 a)) [
        | inl full ↦ rw (new, full, allocate) before
        | inr (ip, e) ↦
            let free = rw e at (first_free-free 253 2 a (omega arith)) in
            rw (new, e, allocate) (assigned key ip free.0 (inr free.1))
      ]
    ]

    try_adopt-by : (key ip : Text) → P (try_adopt key ip a).0
    unfolding try_adopt
    try_adopt-by key ip = elim (Bool-cases (is_empty key || not (in_subnet ip a))) [
      | inl out ↦ rw (out, try_adopt) before
      | inr inside ↦ elim (Option-cases (lookup key a.allocated)) [
        | inr (cur, held) ↦ rw (inside, held, try_adopt) before
        | inl new ↦ elim (Bool-cases (held_by_other key ip a.allocated || is_used ip a)) [
          | inl taken ↦ rw (inside, new, taken, try_adopt) before
          | inr free ↦
              rw (inside, new, free, try_adopt)
                (assigned key ip (ground arith) (inl (ground arith)))
        ]
      ]
    ]

    module _ (reserved : (ip : Text) → P (record a { used_ips = insert ip true a.used_ips })) where
      mark_used-by : (key ip : Text) → P (mark_used key ip a)
      unfolding mark_used
      mark_used-by key ip = elim (Bool-cases (in_subnet ip a)) [
        | inr out ↦ rw (out, mark_used) before
        | inl inside ↦ elim (Bool-cases (is_used ip a)) [
          | inl used ↦ rw (inside, used, mark_used) before
          | inr free ↦ elim (Bool-cases (is_empty key)) [
            | inl blank ↦ rw (inside, free, blank, mark_used) (reserved ip)
            | inr named ↦ rw (inside, free, named, mark_used) (assigned key ip free (inl inside))
          ]
        ]
      ]

      pub step-by : ((key : Text) → P (release key a)) → (c : Call) → P (step c a)
      unfolding step
      step-by released (allocates key) = allocate-by key
      step-by released (releases key) = released key
      step-by released (marks key ip) = mark_used-by key ip
      step-by released (adopts key ip) = try_adopt-by key ip

module _ (a : IpAllocator) (v : IsValid a) where
  -- An address that no key is given: it is in use from now on.
  pub reserve-IsValid : (ip : Text) → IsValid (record a { used_ips = insert ip true a.used_ips })
  unfolding is_reserved
  reserve-IsValid ip = record {
    held_used = λ k i h. rw (used-insert ip i a a.allocated) (ground (arith, v.held_used k i h));
    unique = v.unique;
    reserved_used =
        λ i r. rw (used-insert ip i a a.allocated) (ground (arith, v.reserved_used i r));
    held_free = v.held_free;
    held_prefixed = v.held_prefixed;
  }

  subnet-prefixed : (ip : Text) → in_subnet ip a ≡ true → has_prefix ip (dotted a.prefix) ≡ true
  unfolding in_subnet
  subnet-prefixed ip h = ground arith

  pub assign_free-IsValid :
      (key ip : Text) → is_used ip a ≡ false → Offered ip a → IsValid (assign key ip a)
  assign_free-IsValid key ip free (inl inside) =
      assign-IsValid a v key ip free (subnet-prefixed ip inside)
  assign_free-IsValid key ip free (inr hosted) =
      assign-IsValid a v key ip free (Hosted-prefixed ip a hosted)

  pub step-IsValid : (c : Call) → IsValid (step c a)
  step-IsValid c = step-by IsValid a v assign_free-IsValid reserve-IsValid (release-IsValid a v) c

pub load_entries-IsValid :
    (entries : List (Text × Text)) (a : IpAllocator) → IsValid a → IsValid (load_entries entries a)
unfolding load_entries
load_entries-IsValid [] a v = v
load_entries-IsValid ((key, ip) ∷ entries) a v =
    elim (Bool-cases (not (has_prefix ip (dotted a.prefix)) || is_used ip a)) [
      | inl skip ↦ rw skip (load_entries-IsValid entries a v)
      | inr keep ↦ rw keep (
          load_entries-IsValid entries (assign key ip a)
            (assign-IsValid a v key ip (ground arith) (ground arith)))
    ]

pub fresh-IsValid :
    (server prefix : Text)
    → IsValid (record {
      server_ip = server;
      prefix = prefix;
      allocated = [];
      used_ips =
          insert (host prefix 255) true (insert (host prefix 0) true (insert server true []));
    })
unfolding lookup is_used is_reserved
fresh-IsValid server prefix = record {
  held_used = λ k i h. absurd (clash h);
  unique = λ k j i h g. absurd (clash h);
  reserved_used = λ i r. ground (
    arith,
    ==_iff i server,
    ==_iff server i,
    ==_iff i (host prefix 0),
    ==_iff i (host prefix 255),
    ==_iff (host prefix 0) i,
    ==_iff (host prefix 255) i,
    lookup-insert (host prefix 255) i true (insert (host prefix 0) true (insert server true [])),
    lookup-insert (host prefix 0) i true (insert server true []),
    lookup-insert server i true [],
  );
  held_free = λ k i h. absurd (clash h);
  held_prefixed = λ k i h. absurd (clash h);
}
  where
    clash : {x : Text} → (none ≡ some x) → ⊥
    clash e = cc
