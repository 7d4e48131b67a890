-- ===== src/Overlay/Legacy.antt =====
-- internal/overlay/overlay.go: `ExpandLegacy`, for an allowlist that still names the old addresses.
use atreo_agent.Base.{
  Bool, true, false, not, ◌&&◌, ◌||◌, Text, lit, ◌==◌, ==_iff, List, [], ◌∷◌, ◌++◌, Option, none,
  some, Map, lookup, insert, has_key, has_key-insert, any, any-append, ◌≡◌, refl, sym, subst, arith,
  Bool-cases, Option-cases, inl, inr, if◌then◌else◌,
}
use atreo_agent.Overlay.{Net, gateway_of, legacy_subnet_v4, legacy_gateway_v4}

abbrev pub legacy_host : Text
legacy_host = legacy_gateway_v4 ++ lit "/32"

-- `have`
unfoldable pub entries : List Text → Map (Unit {0}) → Map (Unit {0})
entries [] m = m
entries (c ∷ cs) m = entries cs (insert c tt m)

-- What the entry `c` asks for.
unfoldable pub mirror_of : Text → Text → Text → Option Text
mirror_of subnet host c =
    if c == legacy_subnet_v4 then some subnet else if c == legacy_host then some host else none

-- The second loop: the entries that it adds.
unfoldable pub additions : Text → Text → List Text → Map (Unit {0}) → List Text
unfolding mirror_of
additions subnet host [] have = []
additions subnet host (c ∷ cs) have = elim (mirror_of subnet host c) [
  | none ↦ additions subnet host cs have
  | some new ↦
      if has_key new have
      then additions subnet host cs have
      else new ∷ additions subnet host cs (insert new tt have)
]

unfoldable pub expand_legacy : Net → List Text → Text → List Text
unfolding additions entries
expand_legacy n cidrs subnet = elim (gateway_of n subnet) [
  | none ↦ cidrs
  | some gateway ↦ cidrs ++ additions subnet (gateway ++ lit "/32") cidrs (entries cidrs [])
]

-- The entry is the old subnet and `x` is the present one, or it is the old gateway's /32 and `x` is that of
-- the present gateway.
unfoldable pub asks : Text → Text → Text → Text → Bool
asks subnet host x c =
    (c == lit "100.64.0.0/24" && subnet == x) || (c == lit "100.64.0.1/32" && host == x)

asked_new : Option Text → Text → Bool
asked_new none x = false
asked_new (some new) x = new == x

wants : Text → Text → Text → Text → Bool
unfolding mirror_of asked_new
wants subnet host x c = asked_new (mirror_of subnet host c) x

chosen :
    (is_subnet is_host : Bool) (subnet host x : Text)
    → (is_subnet ≡ true → is_host ≡ false)
    → asked_new (if is_subnet then some subnet else if is_host then some host else none) x
      ≡ ((is_subnet && subnet == x) || (is_host && host == x))
unfolding asked_new
chosen true true subnet host x apart = absurd (clash (apart refl))
  where
    clash : (true ≡ false) → ⊥
    clash e = cc
chosen true false subnet host x apart = ground arith
chosen false true subnet host x apart = ground arith
chosen false false subnet host x apart = refl

one_of_two : (c : Text) → (c == legacy_subnet_v4) ≡ true → (c == legacy_host) ≡ false
one_of_two c e =
    subst (λ t. (t == legacy_host) ≡ false) (sym ((==_iff c legacy_subnet_v4).0 e)) apart
  where
    apart : (legacy_subnet_v4 == legacy_host) ≡ false
    apart = unfold ◌==◌ in refl

wants-asks : (subnet host x c : Text) → wants subnet host x c ≡ asks subnet host x c
unfolding wants mirror_of asks
wants-asks subnet host x c =
    chosen (c == legacy_subnet_v4) (c == legacy_host) subnet host x (one_of_two c)

any-wants :
    (subnet host x : Text) (cs : List Text)
    → any (wants subnet host x) cs ≡ any (asks subnet host x) cs
unfolding any
any-wants subnet host x [] = refl
any-wants subnet host x (c ∷ cs) = rw (wants-asks subnet host x c, any-wants subnet host x cs) refl

has_key-entries :
    (x : Text) (cs : List Text) (m : Map (Unit {0}))
    → has_key x (entries cs m) ≡ (has_key x m || any (λ c. c == x) cs)
unfolding entries any
has_key-entries x [] m = ground arith
has_key-entries x (c ∷ cs) m =
    ground (arith, has_key-entries x cs (insert c tt m), has_key-insert c x tt m)

any-additions :
    (subnet host x : Text) (cs : List Text) (have : Map (Unit {0}))
    → any (λ c. c == x) (additions subnet host cs have)
      ≡ (not (has_key x have) && any (wants subnet host x) cs)
unfolding additions wants any
any-additions subnet host x [] have = ground arith
any-additions subnet host x (c ∷ cs) have = elim (Option-cases (mirror_of subnet host c)) [
  | inl nothing ↦ rw (nothing, wants, additions) (any-additions subnet host x cs have)
  | inr (new, e) ↦ elim (Bool-cases (has_key new have)) [
    | inl old ↦
        rw (e, old, wants, additions)
          (ground (arith, any-additions subnet host x cs have, ==_iff new x))
    | inr fresh ↦
        rw (e, fresh, wants, additions)
          (ground (
            arith,
            any-additions subnet host x cs (insert new tt have),
            has_key-insert new x tt have,
            ==_iff new x,
          ))
  ]
]

-- The expanded allowlist holds, besides the entries given, exactly what some entry asks for: the
-- subnet if the old subnet is listed, the gateway's /32 if the old gateway's /32 is listed.
pub any-expand_legacy :
    (n : Net) (cidrs : List Text) (subnet x gateway : Text)
    → gateway_of n subnet ≡ some gateway
    → any (λ c. c == x) (expand_legacy n cidrs subnet)
      ≡ (any (λ c. c == x) cidrs || any (asks subnet (gateway ++ lit "/32") x) cidrs)
unfolding expand_legacy
any-expand_legacy n cidrs subnet x gateway e =
    let host = gateway ++ lit "/32" in
    rw (e, expand_legacy)
      (rw (any-append (λ c. c == x) cidrs (additions subnet host cidrs (entries cidrs []))) (
        ground (
          arith,
          any-additions subnet host x cidrs (entries cidrs []),
          any-wants subnet host x cidrs,
          has_key-entries x cidrs [],
          none_yet x,
        )))
  where
    none_yet : (x : Text) → has_key {V = Unit {0}} x [] ≡ false
    none_yet x = unfold has_key lookup in refl
