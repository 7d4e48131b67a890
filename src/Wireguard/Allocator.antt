-- ===== src/Wireguard/Allocator.antt =====
-- internal/wireguard/ip_allocator.go: tunnel addresses in a /24. Each method runs under the lock, so
-- a method is one step.
pub mod Unique
pub mod Canonical
pub mod Search
pub mod History
pub mod Placed
use atreo_agent.Base.{
  ℕ, zero, suc, ◌+◌, ◌-◌, ◌*◌, Bool, true, false, not, ◌&&◌, ◌||◌, Text, lit, is_empty, ◌==◌,
  has_prefix, decimal, List, [], ◌∷◌, ◌++◌, Option, none, some, Map, lookup, insert, delete, leb,
  eqb, ltb, length, if◌then◌else◌,
}

-- `used_ips` is a map to true; a key that is missing reads as false.
pub record IpAllocator : Type 0 where
  pub server_ip : Text
  pub prefix : Text
  pub allocated : Map Text
  pub used_ips : Map Bool

unfoldable pub is_used : Text → IpAllocator → Bool
is_used ip a = elim (lookup ip a.used_ips) [ none ↦ false | some b ↦ b ]

-- `fmt.Sprintf("%s.%d", prefix, i)`, and `prefix + "." + rest`.
unfoldable pub host : Text → ℕ → Text
host prefix i = prefix ++ b'.' ∷ decimal i

unfoldable pub dotted : Text → Text
dotted prefix = prefix ++ b'.' ∷ []

-- `strings.Split(s, sep)` at one byte: the part before the first separator, and the rest.
abbrev prepend : ℕ → List Text → List Text
prepend c [] = (c ∷ []) ∷ []
prepend c (part ∷ parts) = (c ∷ part) ∷ parts

unfoldable pub split : ℕ → Text → List Text
split sep [] = [] ∷ []
split sep (c ∷ s) = let rest = split sep s in if eqb c sep then [] ∷ rest else prepend c rest

-- `subnetPrefix`: of `a.b.c.d/n` it is `a.b.c`; `none` is the error.
unfoldable pub subnet_prefix : Text → Option Text
unfolding split
subnet_prefix subnet = elim (split b'/' subnet) [
  | ip ∷ mask ∷ [] ↦ elim (split b'.' ip) [
    | a ∷ b ∷ c ∷ d ∷ [] ↦ some (a ++ b'.' ∷ b ++ b'.' ∷ c)
    | _ ↦ none
  ]
  | _ ↦ none
]

-- One octet as `net.IP.String` writes it: a decimal below 256 with no leading zero.
is_digit : ℕ → Bool
is_digit c = leb b'0' c && leb c b'9'

octet_value : ℕ → Text → Option ℕ
unfolding is_digit
octet_value n [] = some n
octet_value n (c ∷ s) =
    let more = octet_value (n * 10 + (c - 48)) s in if is_digit c then more else none

is_octet : Text → Bool
unfolding octet_value
is_octet [] = false
is_octet (c ∷ s) =
    (not (eqb c b'0') || is_empty s)
    && leb (length (c ∷ s)) 3
    && (elim (octet_value 0 (c ∷ s)) [ none ↦ false | some n ↦ ltb n 256 ])

-- `parsed := net.ParseIP(ip); parsed != nil && parsed.To4() != nil && parsed.String() == ip`: four
-- such octets. (What maps to IPv4 in another notation is written back in this one, and differs.)
are_four_octets : List Text → Bool
unfolding is_octet
are_four_octets (a ∷ b ∷ c ∷ d ∷ []) = is_octet a && is_octet b && is_octet c && is_octet d
are_four_octets _ = false

unfoldable pub is_canonical_ipv4 : Text → Bool
unfolding are_four_octets split
is_canonical_ipv4 ip = are_four_octets (split b'.' ip)

unfoldable pub is_reserved : Text → IpAllocator → Bool
is_reserved ip a = ip == a.server_ip || (ip == host a.prefix 0 || ip == host a.prefix 255)

unfoldable pub in_subnet : Text → IpAllocator → Bool
in_subnet ip a = is_canonical_ipv4 ip && has_prefix ip (dotted a.prefix) && not (is_reserved ip a)

-- The allocator gives the address to the key.
unfoldable pub assign : Text → Text → IpAllocator → IpAllocator
assign key ip a = record a {
  allocated = insert key ip a.allocated;
  used_ips = insert ip true a.used_ips;
}

-- The loop of `Allocate` over `n` hosts from `i` on.
unfoldable pub first_free : ℕ → ℕ → IpAllocator → Option Text
first_free zero i a = none
first_free (suc n) i a =
    let ip = host a.prefix i in
    let rest = first_free n (i + 1) a in if is_used ip a then rest else some ip

-- `for i := 2; i < 255; i++`
unfoldable pub allocate : Text → IpAllocator → IpAllocator × Option Text
allocate key a = elim (lookup key a.allocated) [
  | some ip ↦ (a, some ip)
  | none ↦ elim (first_free 253 2 a) [ some ip ↦ (assign key ip a, some ip) | none ↦ (a, none) ]
]

unfoldable pub mark_used : Text → Text → IpAllocator → IpAllocator
mark_used key ip a =
    if not (in_subnet ip a) || is_used ip a
    then a
    else if is_empty key
    then record a { used_ips = insert ip true a.used_ips }
    else assign key ip a

-- The loop of `TryAdopt` over the allocations, whose order does not matter.
unfoldable pub held_by_other : Text → Text → Map Text → Bool
held_by_other key ip [] = false
held_by_other key ip ((k, held) ∷ m) = (held == ip && not (k == key)) || held_by_other key ip m

unfoldable pub try_adopt : Text → Text → IpAllocator → IpAllocator × Bool
try_adopt key ip a =
    if is_empty key || not (in_subnet ip a) then (a, false) else elim (lookup key a.allocated) [
      | some cur ↦ (a, cur == ip)
      | none ↦
          if held_by_other key ip a.allocated || is_used ip a
          then (a, false)
          else (assign key ip a, true)
    ]

unfoldable pub release : Text → IpAllocator → IpAllocator
release key a = elim (lookup key a.allocated) [
  | none ↦ a
  | some ip ↦ record a { allocated = delete key a.allocated; used_ips = delete ip a.used_ips }
]

-- `Lookup`: the empty text for an unknown key.
unfoldable pub lookup_ip : Text → IpAllocator → Text
lookup_ip key a = elim (lookup key a.allocated) [ none ↦ [] | some ip ↦ ip ]

-- The loop of `Load`, over the entries in the order in which Go's map gives them.
unfoldable pub load_entries : List (Text × Text) → IpAllocator → IpAllocator
load_entries [] a = a
load_entries ((key, ip) ∷ entries) a =
    load_entries entries
      (if not (has_prefix ip (dotted a.prefix)) || is_used ip a then a else assign key ip a)

-- `NewIPAllocator`. `none` for the file is a missing one; an unreadable one is an error before any use.
unfoldable pub new_allocator : Text → Text → Option (List (Text × Text)) → Option IpAllocator
new_allocator subnet server_ip file = elim (subnet_prefix subnet) [
  | none ↦ none
  | some prefix ↦
      let fresh : IpAllocator = record {
        server_ip = server_ip;
        prefix = prefix;
        allocated = [];
        used_ips =
            insert (host prefix 255) true (insert (host prefix 0) true (insert server_ip true []));
      } in
      elim file [ none ↦ some fresh | some entries ↦ some (load_entries entries fresh) ]
]
