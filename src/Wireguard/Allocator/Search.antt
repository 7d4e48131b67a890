-- ===== src/Wireguard/Allocator/Search.antt =====
-- internal/wireguard/ip_allocator.go: what the search of `Allocate` finds, and when it finds nothing.
use atreo_agent.Base.{
  ℕ, zero, suc, ◌+◌, ◌≤◌, ◌<◌, Bool, true, false, Text, ==_refl, has_prefix, has_prefix-append,
  decimal, [], ◌∷◌, Option, none, some, lookup, lookup-insert, ◌≢◌, ◌≡◌, refl, sym, subst, ◌↔◌, ◌⊎◌,
  arith, OnSome, Option-cases, Bool-cases, inl, inr, if◌then◌else◌,
}
use mathlib.Core.List.{append_assoc}
use atreo_agent.Wireguard.Allocator.{
  IpAllocator, is_used, host, dotted, assign, first_free, allocate,
}
use atreo_agent.Wireguard.Allocator.Unique.{Holds, IsValid}

host_inside : (prefix : Text) (i : ℕ) → has_prefix (host prefix i) (dotted prefix) ≡ true
unfolding host dotted
host_inside prefix i =
    subst (λ s. has_prefix s (dotted prefix) ≡ true) (append_assoc prefix (b'.' ∷ []) (decimal i))
      (has_prefix-append (dotted prefix) (decimal i))

-- A host of the subnet.
abbrev pub Hosted : Text → IpAllocator → Type 0
Hosted ip a = (i : ℕ) × ((i < 256) × (ip ≡ host a.prefix i))

pub Hosted-prefixed :
    (ip : Text) (a : IpAllocator) → Hosted ip a → has_prefix ip (dotted a.prefix) ≡ true
Hosted-prefixed ip a (i, (lt, same)) = rw same (host_inside a.prefix i)

-- What the search finds is free and a host of the subnet.
pub first_free-free :
    (n i : ℕ) (a : IpAllocator)
    → i + n ≤ 256
    → OnSome (λ ip. (is_used ip a ≡ false) × Hosted ip a) (first_free n i a)
unfolding first_free
first_free-free zero i a le = tt
first_free-free (suc n) i a le = elim (Bool-cases (is_used (host a.prefix i) a)) [
  | inl used ↦ rw used (first_free-free n (i + 1) a (omega arith))
  | inr free ↦ rw free (free, (i, (omega arith, refl)))
]

-- The hosts from `i` up to `i + n`, that one excluded, are all in use.
abbrev pub AllUsed : IpAllocator → ℕ → ℕ → Type 0
AllUsed a i n = (j : ℕ) → i ≤ j → j < i + n → is_used (host a.prefix j) a ≡ true

pub first_free-none : (n i : ℕ) (a : IpAllocator) → first_free n i a ≡ none → AllUsed a i n
unfolding first_free
first_free-none zero i a e j lo hi = absurd (omega arith)
first_free-none (suc n) i a e j lo hi = elim (Bool-cases (is_used (host a.prefix i) a)) [
  | inl used ↦
      let rest = first_free-none n (i + 1) a (rw (used, if◌then◌else◌) at e) in
      elim (compare_at i j lo) [
        | inl same ↦ subst (λ k. is_used (host a.prefix k) a ≡ true) same used
        | inr above ↦ rest j (omega arith) (omega arith)
      ]
  | inr free ↦ absurd (clash (rw (free, if◌then◌else◌) at e))
]
  where
    clash : {A : Type 0} {x : A} → (some x ≡ none) → ⊥
    clash e = cc

    compare_at : (i j : ℕ) → i ≤ j → (i ≡ j) ⊎ (i < j)
    compare_at i j le = ground arith

pub first_free-full : (n i : ℕ) (a : IpAllocator) → AllUsed a i n → first_free n i a ≡ none
unfolding first_free
first_free-full zero i a full = refl
first_free-full (suc n) i a full =
    rw (full i (omega arith) (omega arith))
      (first_free-full n (i + 1) a (λ j lo hi. full j (omega arith) (omega arith)))

-- `Allocate` fails exactly when the key holds no address and the hosts from 2 to 254 are all in use.
pub allocate-full :
    (key : Text) (a : IpAllocator)
    → ((allocate key a).1 ≡ none) ↔ ((lookup key a.allocated ≡ none) × AllUsed a 2 253)
unfolding allocate
allocate-full key a = (there, back)
  where
    clash : {x : Text} → (some x ≡ none) → ⊥
    clash e = cc

    there : (allocate key a).1 ≡ none → (lookup key a.allocated ≡ none) × AllUsed a 2 253
    there e = elim (Option-cases (lookup key a.allocated)) [
      | inr (ip, held) ↦ absurd (clash (rw (held, allocate) at e))
      | inl new ↦ elim (Option-cases (first_free 253 2 a)) [
        | inr (ip, found) ↦ absurd (clash (rw (new, found, allocate) at e))
        | inl full ↦ (new, first_free-none 253 2 a full)
      ]
    ]

    back : (lookup key a.allocated ≡ none) × AllUsed a 2 253 → (allocate key a).1 ≡ none
    back (new, full) = rw (new, first_free-full 253 2 a full, allocate) refl

allocate-held : (key ip : Text) (a : IpAllocator) → Holds a key ip → allocate key a ≡ (a, some ip)
unfolding allocate
allocate-held key ip a held = rw (held, allocate) refl

-- What `Allocate` left and returned, for a key that held nothing.
abbrev pub Served : Text → IpAllocator → IpAllocator × Option Text → Type 0
Served key a r =
    OnSome
      (λ ip.
        Holds r.0 key ip
        × (allocate key r.0 ≡ (r.0, some ip))
        × ((other : Text) → lookup other a.allocated ≢ some ip))
      r.1

-- When `Allocate`, in an allocator that keeps its invariant, serves a key that held no address,
-- the key holds the returned one, which no key held before, and a second call returns it again and
-- changes nothing.
pub allocate-fresh :
    (key : Text) (a : IpAllocator)
    → IsValid a
    → lookup key a.allocated ≡ none
    → Served key a (allocate key a)
unfolding allocate
allocate-fresh key a v new = elim (Option-cases (first_free 253 2 a)) [
  | inl full ↦ rw (new, full, allocate) tt
  | inr (ip, found) ↦
      let free = rw found at (first_free-free 253 2 a (omega arith)) in
      let held : Holds (assign key ip a) key ip =
        unfold assign in rw (lookup-insert key key ip a.allocated) (rw (==_refl key) refl) in
      let again = allocate-held key ip (assign key ip a) held in
      subst (Served key a) (sym (outcome ip found))
        (held, again, λ other h. taken (v.held_used other ip h) free.0)
]
  where
    outcome :
        (ip : Text) → first_free 253 2 a ≡ some ip → allocate key a ≡ (assign key ip a, some ip)
    outcome ip found = rw (new, found, allocate) refl

    taken : {b : Bool} → b ≡ true → b ≡ false → ⊥
    taken t f = cc
