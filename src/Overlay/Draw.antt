-- ===== src/Overlay/Draw.antt =====
-- internal/overlay/overlay.go: that `Reroll` comes to an end, and what it leaves in the file.
use atreo_agent.Base.{
  ℕ, zero, suc, ◌+◌, ◌-◌, ◌/◌, ◌%◌, ◌≤◌, ◌<◌, true, false, ◌&&◌, Text, lit, is_empty, ◌==◌, ==_refl,
  eqb, length, List, [], ◌∷◌, ◌++◌, map, Option, some, ◌≡◌, refl, sym, arith, Bool-cases, inl, inr,
}
use atreo_agent.Base.Result.{Result, ok}
use atreo_agent.Overlay.{
  Overlay, Net, OverlayError, File, holds, subnet_at, derive, reroll_loop, reroll, saved, load,
  Cidr, base, dotted, subnet_count, v6_at, v6_from_v4, v6_of_bytes, gateway_of, gateway_or_blank,
  with_host_one, validate, parse_and_migrate,
}

-- The result is the overlay of an index that is not the reserved one, in another subnet.
abbrev pub Moved : Net → ℕ → Text → Result OverlayError Overlay → Type 0
Moved n now current r =
    (idx : ℕ) × (r ≡ ok (subnet_at n now idx))
    × (eqb idx 0 ≡ false)
    × (((subnet_at n now idx).subnet_v4 == current) ≡ false)

module _ (n : Net) (now : ℕ) (current : Text) (idx : ℕ) (rest : List (Option ℕ))
    (drawn : eqb idx 0 ≡ false) (other : ((subnet_at n now idx).subnet_v4 == current) ≡ false) where
  abbrev draws : List ℕ → List (Option ℕ)
  draws before = map some before ++ some idx ∷ rest

  reroll_loop-Moved :
      (before : List ℕ) (fuel : ℕ)
      → length before ≤ fuel
      → Moved n now current (reroll_loop (suc fuel) n now current (draws before))
  unfolding reroll_loop derive
  reroll_loop-Moved [] fuel h = (idx, rw (drawn, reroll_loop, derive) (rw other), drawn, other)
  reroll_loop-Moved (z ∷ before) zero h = absurd (omega arith)
  reroll_loop-Moved (z ∷ before) (suc fuel) h = elim (Bool-cases (eqb z 0)) [
    | inl skip ↦ rw (skip, reroll_loop, derive) (reroll_loop-Moved before (suc fuel) (omega arith))
    | inr taken ↦ elim (Bool-cases ((subnet_at n now z).subnet_v4 == current)) [
      | inl same ↦
          rw (taken, reroll_loop, derive) (rw same (reroll_loop-Moved before fuel (omega arith)))
      | inr differs ↦ (z, rw (taken, reroll_loop, derive) (rw differs), taken, differs)
    ]
  ]

  draws_enough : (before : List ℕ) → length before ≤ length (draws before)
  draws_enough [] = omega arith
  draws_enough (z ∷ before) = omega (arith, draws_enough before)

  -- Suppose the file holds an overlay that loads, and the write works. If among the draws, with no
  -- failed read before it, there is one that is not the reserved index and gives another subnet than
  -- the current one, then `Reroll` returns: it gives the overlay of an index that is not the reserved
  -- one, in a subnet other than the current one, and the file holds this overlay.
  pub reroll-Moved :
      (before : List ℕ) (file : File) (o : Overlay)
      → load n file ≡ ok o
      → o.subnet_v4 ≡ current
      → (idx' : ℕ) × (reroll n true now (draws before) file
          ≡ (holds (some (subnet_at n now idx')), ok (subnet_at n now idx')))
        × (eqb idx' 0 ≡ false)
        × (((subnet_at n now idx').subnet_v4 == current) ≡ false)
  unfolding reroll saved
  reroll-Moved before file o e same =
      let (idx', found, proper, differs) =
        reroll_loop-Moved before (length (draws before)) (draws_enough before) in
      (idx', rw (e, reroll) (rw same (rw (found, saved))), proper, differs)

-- What package net documents of the texts of one subnet 100.b.c.0/24 and of its bytes.
pub record Reads (n : Net) (b c : ℕ) : Type 0 where
  pub range : Cidr
  pub cidr : Cidr
  pub parse_base : n.parse_cidr base ≡ some range
  pub parse_subnet : n.parse_cidr (dotted b c (lit "0/24")) ≡ some cidr
  pub network : cidr.network ≡ 100 ∷ b ∷ c ∷ 0 ∷ []
  pub ones : cidr.ones ≡ 24
  pub inside : n.contains range cidr.ip ≡ true
  pub print_subnet : n.net_string (100 ∷ b ∷ c ∷ 0 ∷ []) 24 ≡ dotted b c (lit "0/24")
  pub print_gateway : n.ip_string (100 ∷ b ∷ c ∷ 1 ∷ []) ≡ dotted b c (lit "1")
  pub four : n.to4 (100 ∷ b ∷ c ∷ 0 ∷ []) ≡ some (100 ∷ b ∷ c ∷ 0 ∷ [])

module _ (n : Net) (now idx : ℕ) (small : idx < subnet_count)
    (r : Reads n (64 + idx / 256) (idx % 256)) where
  v6_from_v4-subnet_at :
      v6_from_v4 n (subnet_at n now idx).subnet_v4 ≡ ok (v6_at n (idx / 256) (idx % 256))
  unfolding v6_from_v4 v6_of_bytes subnet_at
  v6_from_v4-subnet_at =
      let word : (64 + idx / 256 + 65536 - 64) % 65536 ≡ idx / 256 = omega arith in
      rw (r.parse_subnet, v6_from_v4) (rw r.network (rw r.four (rw word)))

  gateway_or_blank-subnet_at :
      gateway_or_blank n (subnet_at n now idx).subnet_v4 ≡ (subnet_at n now idx).gateway_v4
  unfolding gateway_or_blank gateway_of with_host_one subnet_at
  gateway_or_blank-subnet_at =
      rw (r.parse_subnet, gateway_or_blank, gateway_of) (rw r.network r.print_gateway)

  validate-subnet_at : validate n (subnet_at n now idx) ≡ ok tt
  unfolding validate
  validate-subnet_at =
      let o = subnet_at n now idx in
      let parsed : n.parse_cidr o.subnet_v4 ≡ some r.cidr = unfold subnet_at in r.parse_subnet in
      let printed : o.subnet_v4 ≡ n.net_string (100 ∷ (64 + idx / 256) ∷ (idx % 256) ∷ 0 ∷ []) 24 =
        unfold subnet_at in sym r.print_subnet in
      rw (r.parse_base, validate)
        (rw parsed (
          rw (r.ones, r.network)
            (rw (← printed, ==_refl o.subnet_v4, r.inside)
              (rw (gateway_or_blank-subnet_at, ==_refl o.gateway_v4)
                (rw v6_from_v4-subnet_at (
                  unfold subnet_at in
                  rw
                    (
                      ==_refl (v6_at n (idx / 256) (idx % 256)).0,
                      ==_refl (v6_at n (idx / 256) (idx % 256)).1,
                    )
                    refl))))))

  -- An overlay that was drawn, once it is in the file, loads as it is: the checks on the subnet, the
  -- gateway and the IPv6 pairing accept it, given what package net documents of its texts.
  pub load-subnet_at : load n (holds (some (subnet_at n now idx))) ≡ ok (subnet_at n now idx)
  unfolding load parse_and_migrate
  load-subnet_at =
      let o = subnet_at n now idx in
      elim (Bool-cases (is_empty o.subnet_v6 && is_empty o.gateway_v6)) [
        | inl old ↦
            rw old (rw v6_from_v4-subnet_at (unfold subnet_at in rw validate-subnet_at refl))
        | inr new ↦ rw new (rw validate-subnet_at refl)
      ]
