-- ===== src/Overlay/Tests.antt =====
-- The theorems on internal/overlay for the subnet of index 513, with a package net that knows the range and this
-- subnet.
use atreo_agent.Base.{
  any, ◌||◌, ℕ, decimal, true, false, lit, ◌==◌, eqb, [], ◌∷◌, ◌++◌, map, some, ◌≡◌, refl, arith,
  if◌then◌else◌,
}
use atreo_agent.Base.Result.{ok}
use atreo_agent.Overlay.{
  Cidr, Net, File, holds, base, dotted, subnet_at, load, reroll, gateway_of, legacy_subnet_v4,
}
use atreo_agent.Overlay.Legacy.{expand_legacy, asks, any-expand_legacy}
use atreo_agent.Overlay.Draw.{Reads, load-subnet_at, reroll-Moved}

abbrev range : Cidr
range = record { ip = 100 ∷ 64 ∷ 0 ∷ 0 ∷ []; network = 100 ∷ 64 ∷ 0 ∷ 0 ∷ []; ones = 10 }

abbrev cidr : Cidr
cidr = record { ip = 100 ∷ 66 ∷ 1 ∷ 0 ∷ []; network = 100 ∷ 66 ∷ 1 ∷ 0 ∷ []; ones = 24 }

abbrev net : Net
net = record {
  parse_cidr = λ s. if s == base then some range else some cidr;
  ip_string = λ ip. if ip == 100 ∷ 66 ∷ 1 ∷ 1 ∷ [] then lit "100.66.1.1" else lit "fd00:64:2:1::1";
  net_string = λ ip ones.
      if ip == 100 ∷ 66 ∷ 1 ∷ 0 ∷ [] then lit "100.66.1.0/24" else lit "fd00:64:2:1::/64";
  to4 = λ ip. some ip;
  contains = λ c ip. true;
}

reads : Reads net 66 1
unfolding ◌==◌ dotted decimal
reads = record {
  range = range;
  cidr = cidr;
  parse_base = refl;
  parse_subnet = refl;
  network = refl;
  ones = refl;
  inside = refl;
  print_subnet = refl;
  print_gateway = refl;
  four = refl;
}

load-subnet_at_example : load net (holds (some (subnet_at net 5 513))) ≡ ok (subnet_at net 5 513)
load-subnet_at_example = load-subnet_at net 5 513 (omega arith) reads

abbrev file : File
file = holds (some (subnet_at net 5 513))

differs : ((subnet_at net 7 770).subnet_v4 == lit "100.66.1.0/24") ≡ false
unfolding subnet_at dotted ◌==◌ decimal
differs = refl

current : (subnet_at net 5 513).subnet_v4 ≡ lit "100.66.1.0/24"
unfolding subnet_at dotted decimal
current = refl

reroll-Moved_example :
    (idx : ℕ) × (reroll net true 7 (map some (0 ∷ 513 ∷ []) ++ some 770 ∷ []) file
      ≡ (holds (some (subnet_at net 7 idx)), ok (subnet_at net 7 idx)))
    × (eqb idx 0 ≡ false)
    × (((subnet_at net 7 idx).subnet_v4 == lit "100.66.1.0/24") ≡ false)
reroll-Moved_example =
    reroll-Moved net 7 (lit "100.66.1.0/24") 770 [] refl differs (0 ∷ 513 ∷ []) file
      (subnet_at net 5 513) load-subnet_at_example current

gateway : gateway_of net (lit "100.66.1.0/24") ≡ some (lit "100.66.1.1")
unfolding gateway_of ◌==◌
gateway = refl

any-expand_legacy_example :
    any
      (λ c. c == lit "100.66.1.0/24")
      (expand_legacy net (legacy_subnet_v4 ∷ lit "10.0.0.0/8" ∷ []) (lit "100.66.1.0/24"))
    ≡ (any (λ c. c == lit "100.66.1.0/24") (legacy_subnet_v4 ∷ lit "10.0.0.0/8" ∷ [])
        || any
            (asks (lit "100.66.1.0/24") (lit "100.66.1.1" ++ lit "/32") (lit "100.66.1.0/24"))
            (legacy_subnet_v4 ∷ lit "10.0.0.0/8" ∷ []))
any-expand_legacy_example =
    any-expand_legacy net (legacy_subnet_v4 ∷ lit "10.0.0.0/8" ∷ []) (lit "100.66.1.0/24")
      (lit "100.66.1.0/24") (lit "100.66.1.1") gateway
