-- ===== src/Wireguard/Tests.antt =====
-- The theorems on internal/wireguard/ip_allocator.go at a small allocator.
use atreo_agent.Base.{
  true, Text, lit, decimal, List, [], ◌∷◌, Option, none, some, lookup, insert, ◌≡◌, ◌↔◌, refl,
  OnSome,
}
use atreo_agent.Wireguard.Allocator.{
  IpAllocator, new_allocator, subnet_prefix, split, is_canonical_ipv4, allocate, host,
}
use atreo_agent.Wireguard.Allocator.Unique.{IsValid}
use atreo_agent.Wireguard.Allocator.History.{
  Call, allocates, marks, adopts, releases, run, fresh-IsValid,
}
use atreo_agent.Wireguard.Allocator.Placed.{InFile, Placed, new_allocator-Placed}
use atreo_agent.Wireguard.Allocator.Search.{AllUsed, allocate-full, allocate-fresh, Served}

abbrev calls : List Call
calls =
    allocates (lit "k2")
    ∷ adopts (lit "k3") (lit "100.64.0.3")
    ∷ releases (lit "k1")
    ∷ marks (lit "k2") (lit "100.64.0.2")
    ∷ []

abbrev file : Option (List (Text × Text))
file = some ((lit "k1", lit "100.64.0.2") ∷ (lit "k0", lit "100.64.0.1") ∷ [])

abbrev empty : IpAllocator
empty = record {
  server_ip = lit "100.64.0.1";
  prefix = lit "100.64.0";
  allocated = [];
  used_ips =
      insert (host (lit "100.64.0") 255) true
        (insert (host (lit "100.64.0") 0) true (insert (lit "100.64.0.1") true []));
}

v4 :
    OnSome
      (λ prefix. is_canonical_ipv4 (host prefix 0) ≡ true)
      (subnet_prefix (lit "100.64.0.0/24"))
unfolding subnet_prefix split is_canonical_ipv4 host decimal
v4 = refl

new_allocator-Placed_example :
    OnSome
      (λ a. IsValid (run calls a) × Placed (InFile file) (run calls a))
      (new_allocator (lit "100.64.0.0/24") (lit "100.64.0.1") file)
new_allocator-Placed_example =
    new_allocator-Placed (lit "100.64.0.0/24") (lit "100.64.0.1") file calls v4

allocate-full_example :
    ((allocate (lit "k1") empty).1 ≡ none)
    ↔ ((lookup (lit "k1") empty.allocated ≡ none) × AllUsed empty 2 253)
allocate-full_example = allocate-full (lit "k1") empty

nobody : lookup (lit "k1") empty.allocated ≡ none
unfolding lookup
nobody = refl

allocate-fresh_example : Served (lit "k1") empty (allocate (lit "k1") empty)
allocate-fresh_example =
    allocate-fresh (lit "k1") empty (fresh-IsValid (lit "100.64.0.1") (lit "100.64.0")) nobody
