-- ===== src/Wireguard/Allocator/Unique.antt =====
-- The addresses of internal/wireguard/ip_allocator.go along any history of calls.
use atreo_agent.Base.{
  true, false, not, ◌&&◌, ◌||◌, Text, ◌==◌, ==_iff, has_prefix, none, some, Map, lookup, insert,
  delete, lookup-insert, lookup-delete, ◌≡◌, sym, ap, subst, ◌∙◌, ◌⊎◌, arith, Option-cases,
  Bool-cases, inl, inr, if◌then◌else◌,
}
use atreo_agent.Wireguard.Allocator.{IpAllocator, is_used, dotted, is_reserved, assign, release}

-- The address is held by the key.
abbrev pub Holds : IpAllocator → Text → Text → Type 0
Holds a key ip = lookup key a.allocated ≡ some ip

pub record IsValid (a : IpAllocator) : Type 0 where
  pub held_used : (key ip : Text) → Holds a key ip → is_used ip a ≡ true
  pub unique : (key other ip : Text) → Holds a key ip → Holds a other ip → key ≡ other
  pub reserved_used : (ip : Text) → is_reserved ip a ≡ true → is_used ip a ≡ true
  pub held_free : (key ip : Text) → Holds a key ip → is_reserved ip a ≡ false
  -- The test that `Load` makes; see Placed for the addresses that are in the subnet.
  pub held_prefixed : (key ip : Text) → Holds a key ip → has_prefix ip (dotted a.prefix) ≡ true

-- An address reads as used once it is set, and no other changes.
pub used-insert :
    (ip i : Text) (a : IpAllocator) (m : Map Text)
    → is_used i (record a { allocated = m; used_ips = insert ip true a.used_ips })
      ≡ (ip == i || is_used i a)
unfolding is_used
used-insert ip i a m = rw (lookup-insert ip i true a.used_ips, is_used) (ground arith)

used-delete :
    (ip i : Text) (a : IpAllocator) (m : Map Text)
    → is_used i (record a { allocated = m; used_ips = delete ip a.used_ips })
      ≡ (not (ip == i) && is_used i a)
unfolding is_used
used-delete ip i a m = rw (lookup-delete ip i a.used_ips, is_used) (ground arith)

pub release-kept :
    (a : IpAllocator) (key k i : Text)
    → lookup k (delete key a.allocated) ≡ some i
    → (key == k) ≡ false × Holds a k i
release-kept a key k i h =
    let read = rw (lookup-delete key k a.allocated) at h in
    elim (Bool-cases (key == k)) [
      | inl e ↦ absurd (clash (rw (e, if◌then◌else◌) at read))
      | inr e ↦ (e, rw (e, if◌then◌else◌) at read)
    ]
  where
    clash : (none ≡ some i) → ⊥
    clash e = cc

module _ (a : IpAllocator) (v : IsValid a) where
  -- A free address is not reserved and nobody holds it.
  pub free_unreserved : (ip : Text) → is_used ip a ≡ false → is_reserved ip a ≡ false
  free_unreserved ip free = ground (arith, v.reserved_used ip)

  pub assign-held :
      (key ip k i : Text)
      → Holds (assign key ip a) k i
      → ((key == k) ≡ true × (ip ≡ i)) ⊎ ((key == k) ≡ false × Holds a k i)
  unfolding assign
  assign-held key ip k i h =
      let read = rw (lookup-insert key k ip a.allocated) at h in
      elim (Bool-cases (key == k)) [
        | inl e ↦ inl (e, same (rw (e, if◌then◌else◌) at read))
        | inr e ↦ inr (e, rw (e, if◌then◌else◌) at read)
      ]
    where
      same : some ip ≡ some i → ip ≡ i
      same e = cc

  pub assign-IsValid :
      (key ip : Text)
      → is_used ip a ≡ false
      → has_prefix ip (dotted a.prefix) ≡ true
      → IsValid (assign key ip a)
  unfolding assign is_reserved
  assign-IsValid key ip free inside = record {
    held_used = λ k i h. elim (assign-held key ip k i h) [
      | inl (e, same) ↦
          rw (used-insert ip i a (insert key ip a.allocated)) (ground (arith, ==_iff ip i))
      | inr (e, old) ↦
          rw (used-insert ip i a (insert key ip a.allocated)) (ground (arith, v.held_used k i old))
    ];
    unique = λ k j i h g. elim (assign-held key ip k i h) [
      | inl (e, same) ↦ elim (assign-held key ip j i g) [
        | inl (f, also) ↦ sym ((==_iff key k).0 e) ∙ (==_iff key j).0 f
        | inr (f, old) ↦ absurd (fresh j i same old)
      ]
      | inr (e, old) ↦ elim (assign-held key ip j i g) [
        | inl (f, also) ↦ absurd (fresh k i also old)
        | inr (f, older) ↦ v.unique k j i old older
      ]
    ];
    reserved_used = λ i r.
        rw (used-insert ip i a (insert key ip a.allocated)) (ground (arith, v.reserved_used i r));
    held_free = λ k i h. elim (assign-held key ip k i h) [
      | inl (e, same) ↦ subst (λ x. is_reserved x a ≡ false) same (free_unreserved ip free)
      | inr (e, old) ↦ v.held_free k i old
    ];
    held_prefixed = λ k i h. elim (assign-held key ip k i h) [
      | inl (e, same) ↦ subst (λ x. has_prefix x (dotted a.prefix) ≡ true) same inside
      | inr (e, old) ↦ v.held_prefixed k i old
    ];
  }
    where
      fresh : (k i : Text) → ip ≡ i → Holds a k i → ⊥
      fresh k i same old =
          let used = v.held_used k i old in
          let unused : is_used i a ≡ false = subst (λ x. is_used x a ≡ false) same free in cc

  pub release-IsValid : (key : Text) → IsValid (release key a)
  unfolding release is_reserved
  release-IsValid key = elim (Option-cases (lookup key a.allocated)) [
    | inl gone ↦ rw (gone, release) v
    | inr (ip, held) ↦ rw (held, release) (freed ip held)
  ]
    where
      freed :
          (ip : Text)
          → Holds a key ip
          → IsValid
              (record a { allocated = delete key a.allocated; used_ips = delete ip a.used_ips })
      freed ip held =
          let kept : (k i : Text)
              → lookup k (delete key a.allocated) ≡ some i
              → (key == k) ≡ false × Holds a k i =
            λ k i h. release-kept a key k i h in
          record {
            held_used = λ k i h. rw (used-delete ip i a (delete key a.allocated)) (
                ground (
                  arith,
                  v.held_used k i (kept k i h).1,
                  ==_iff ip i,
                  ==_iff key k,
                  (kept k i h).0,
                  λ (e : ip ≡ i). v.unique key k i (held ∙ ap some e) (kept k i h).1,
                ));
            unique = λ k j i h g. v.unique k j i (kept k i h).1 (kept j i g).1;
            reserved_used = λ i r. rw (used-delete ip i a (delete key a.allocated)) (
                ground (
                  arith,
                  v.reserved_used i r,
                  ==_iff ip i,
                  λ (e : ip ≡ i). subst (λ x. is_reserved x a ≡ false) e (v.held_free key ip held),
                ));
            held_free = λ k i h. v.held_free k i (kept k i h).1;
            held_prefixed = λ k i h. v.held_prefixed k i (kept k i h).1;
          }
