-- ===== src/Wireguard/Allocator/Canonical.antt =====
-- internal/wireguard/ip_allocator.go: the hosts of a subnet are addresses as `net.IP.String` writes them.
use atreo_agent.Base.{
  ℕ, zero, suc, ◌<◌, Bool, true, false, not, ◌&&◌, Text, decimal, List, [], ◌∷◌, ◌++◌, eqb, ◌≡◌,
  refl, ◌⊎◌, arith, subst, sym, Bool-cases, inl, inr, any,
}
use atreo_agent.Wireguard.Allocator.{
  host, split, prepend, is_octet, octet_value, is_digit, are_four_octets, is_canonical_ipv4,
}

abbrev Nonempty : List Text → Type 0
Nonempty [] = ⊥
Nonempty (x ∷ xs) = Unit

prepend-Nonempty : (c : ℕ) (xs : List Text) → Nonempty (prepend c xs)
prepend-Nonempty c [] = tt
prepend-Nonempty c (x ∷ xs) = tt

split-Nonempty : (sep : ℕ) (s : Text) → Nonempty (split sep s)
unfolding split
split-Nonempty sep [] = tt
split-Nonempty sep (c ∷ s) = elim (Bool-cases (eqb c sep)) [
  | inl here ↦ rw here tt
  | inr other ↦ rw other (prepend-Nonempty c (split sep s))
]

prepend-append :
    (c : ℕ) (xs ys : List Text) → Nonempty xs → prepend c (xs ++ ys) ≡ prepend c xs ++ ys
prepend-append c [] ys h = absurd h
prepend-append c (x ∷ xs) ys h = refl

-- Splitting at a separator between two texts splits both.
split-append : (sep : ℕ) (s t : Text) → split sep (s ++ sep ∷ t) ≡ split sep s ++ split sep t
unfolding split
split-append sep [] t = rw (same sep) refl
  where
    same : (n : ℕ) → eqb n n ≡ true
    same n = ground arith
split-append sep (c ∷ s) t = elim (Bool-cases (eqb c sep)) [
  | inl here ↦ rw (here, split-append sep s t) refl
  | inr other ↦
      rw (other, split-append sep s t)
        (prepend-append c (split sep s) (split sep t) (split-Nonempty sep s))
]

-- A text without the separator is one part.
split-whole : (sep : ℕ) (s : Text) → any (λ c. eqb c sep) s ≡ false → split sep s ≡ s ∷ []
unfolding split any
split-whole sep [] h = refl
split-whole sep (c ∷ s) h =
    let other : eqb c sep ≡ false = ground arith in
    rw (other, split-whole sep s (ground arith)) refl

last_octet :
    (xs : List Text) (d e : Text)
    → are_four_octets (xs ++ d ∷ []) ≡ true
    → is_octet e ≡ true
    → are_four_octets (xs ++ e ∷ []) ≡ true
unfolding are_four_octets
last_octet (a ∷ b ∷ c ∷ []) d e h good = ground arith
last_octet [] d e h good = absurd cc
last_octet (a ∷ []) d e h good = absurd cc
last_octet (a ∷ b ∷ []) d e h good = absurd cc
last_octet (a ∷ b ∷ c ∷ x ∷ []) d e h good = absurd cc
last_octet (a ∷ b ∷ c ∷ x ∷ y ∷ xs) d e h good = absurd cc

-- A test that is run on every number below a bound.
all_below : (ℕ → Bool) → ℕ → Bool
all_below p zero = true
all_below p (suc n) = let rest = all_below p n in p n && rest

all_below-at : (p : ℕ → Bool) (n i : ℕ) → all_below p n ≡ true → i < n → p i ≡ true
unfolding all_below
all_below-at p zero i h lt = absurd (omega arith)
all_below-at p (suc n) i h lt = elim (at_or_below i n lt) [
  | inl same ↦ subst (λ k. p k ≡ true) (sym same) (ground arith)
  | inr below ↦ all_below-at p n i (ground arith) below
]
  where
    at_or_below : (i n : ℕ) → i < suc n → (i ≡ n) ⊎ (i < n)
    at_or_below i n lt = ground arith

-- The last part of a host is one octet.
abbrev is_part : ℕ → Bool
is_part i = is_octet (decimal i) && not (any (λ c. eqb c b'.') (decimal i))

parts_checked : all_below is_part 256 ≡ true
unfolding all_below is_octet octet_value is_digit decimal any
parts_checked = refl

part-octet : (i : ℕ) → i < 256 → is_octet (decimal i) ≡ true
part-octet i lt =
    let both : is_part i ≡ true = all_below-at is_part 256 i parts_checked lt in ground arith

part-whole : (i : ℕ) → i < 256 → split b'.' (decimal i) ≡ decimal i ∷ []
part-whole i lt =
    let both : is_part i ≡ true = all_below-at is_part 256 i parts_checked lt in
    split-whole b'.' (decimal i) (ground arith)

host-parts :
    (prefix : Text) (i : ℕ)
    → i < 256
    → split b'.' (host prefix i) ≡ split b'.' prefix ++ decimal i ∷ []
unfolding host
host-parts prefix i lt = rw (split-append b'.' prefix (decimal i), part-whole i lt) refl

-- When host 0 of a prefix is a canonical IPv4 address, so is every host.
pub host-canonical :
    (prefix : Text) (i : ℕ)
    → is_canonical_ipv4 (host prefix 0) ≡ true
    → i < 256
    → is_canonical_ipv4 (host prefix i) ≡ true
unfolding is_canonical_ipv4
host-canonical prefix i base lt = rw (host-parts prefix i lt) (
    last_octet (split b'.' prefix) (decimal 0) (decimal i)
      (rw (host-parts prefix 0 (omega arith)) at base) (part-octet i lt))
