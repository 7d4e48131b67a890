-- ===== src/Firewall/Rules.antt =====
-- internal/firewall/firewall.go: where the two chains end, and when a change of grants is one.
use atreo_agent.Base.{
  Bool, true, false, not, ◌&&◌, ◌||◌, Text, lit, is_empty, ◌==◌, ==_iff, ==_refl, List, [], ◌∷◌,
  ◌++◌, Option, none, some, ◌≡◌, refl, ◌∙◌, ◌↔◌, arith, inl, inr, Bool-cases, if◌then◌else◌,
}
use atreo_agent.Base.Int.{ℤ, pos, negsuc}
use atreo_agent.Firewall.{
  input_chain, forward_chain, FwTable, PortGrant, Manager, Command, Host, is_positive, port_rule,
  port_rules, source, port_grant_rules, append_drop, insert_jump, table_rules, run, run_all,
  apply_table, ints_equal, grants_equal, set_port_grants, apply, apply_tables, tables, teardown, v4,
  v6,
}

-- The command appends a rule to the chain.
unfoldable pub appends : Text → List Text → Bool
appends chain (verb ∷ target ∷ rest) = verb == lit "-A" && target == chain
appends chain _ = false

-- The last such command of a list, or `acc`.
last_append : Text → List (List Text) → Option (List Text) → Option (List Text)
last_append chain [] acc = acc
last_append chain (c ∷ cs) acc = last_append chain cs (if appends chain c then some c else acc)

-- The latest rule that a binary appended to the chain, in a log with the latest command first.
unfoldable pub latest_append : Text → Text → List Command → Option (List Text)
latest_append bin chain [] = none
latest_append bin chain (c ∷ log) =
    if c.bin == bin && appends chain c.args then some c.args else latest_append bin chain log

last_append-append :
    (chain : Text) (xs ys : List (List Text)) (acc : Option (List Text))
    → last_append chain (xs ++ ys) acc ≡ last_append chain ys (last_append chain xs acc)
unfolding last_append
last_append-append chain [] ys acc = refl
last_append-append chain (x ∷ xs) ys acc =
    last_append-append chain xs ys (if appends chain x then some x else acc)

false-true : false ≡ true → ⊥
false-true e = cc

run_all-latest :
    (h : Host) (bin chain : Text) (cs : List (List Text)) (log : List Command)
    → (run_all h bin cs log).1 ≡ true
    → latest_append bin chain (run_all h bin cs log).0
      ≡ last_append chain cs (latest_append bin chain log)
unfolding run_all run latest_append last_append
run_all-latest h bin chain [] log good = refl
run_all-latest h bin chain (args ∷ cs) log good =
    let c : Command = record { bin = bin; args = args } in
    elim (Bool-cases (h.succeeds log c)) [
      | inr bad ↦ absurd (false-true (rw (bad, run_all) at good))
      | inl fine ↦
          rw (fine, run_all)
            (run_all-latest h bin chain cs (c ∷ log) (rw (fine, run_all) at good)
              ∙ rw (==_refl bin) refl)
    ]

skip_rule :
    (chain : Text) (r : List Text) (rs : List (List Text)) (acc : Option (List Text))
    → appends chain r ≡ false
    → last_append chain (r ∷ rs) acc ≡ last_append chain rs acc
unfolding last_append
skip_rule chain r rs acc n = rw n refl

appends-port_rule :
    (chain other src proto : Text) (p : ℤ)
    → (other == chain) ≡ false
    → appends chain (port_rule other src proto p) ≡ false
unfolding appends port_rule ◌==◌
appends-port_rule chain other src proto p n = n

-- Rules for one chain are none of another.
other_port_rules :
    (chain other src proto : Text) (ps : List ℤ) (acc : Option (List Text))
    → (other == chain) ≡ false
    → last_append chain (port_rules other src proto ps) acc ≡ acc
unfolding last_append port_rules
other_port_rules chain other src proto [] acc n = refl
other_port_rules chain other src proto (p ∷ ps) acc n = elim (Bool-cases (is_positive p)) [
  | inr skipped ↦ rw skipped (other_port_rules chain other src proto ps acc n)
  | inl positive ↦ rw positive (
      skip_rule chain (port_rule other src proto p) (port_rules other src proto ps) acc
        (appends-port_rule chain other src proto p n)
      ∙ other_port_rules chain other src proto ps acc n)
]

other_port_grant_rules :
    (chain other : Text) (gs : List PortGrant) (six : Bool) (acc : Option (List Text))
    → (other == chain) ≡ false
    → last_append chain (port_grant_rules other gs six) acc ≡ acc
unfolding port_grant_rules
other_port_grant_rules chain other [] six acc n = unfold last_append in refl
other_port_grant_rules chain other (g ∷ gs) six acc n =
    elim (Bool-cases (is_empty (source six g))) [
      | inl blank ↦ rw blank (other_port_grant_rules chain other gs six acc n)
      | inr given ↦
          let tcp = port_rules other (source six g) (lit "tcp") g.tcp in
          let udp = port_rules other (source six g) (lit "udp") g.udp in
          rw given (
            last_append-append chain (tcp ++ udp) (port_grant_rules other gs six) acc
            ∙ other_port_grant_rules chain other gs six _ n
            ∙ last_append-append chain tcp udp acc
            ∙ other_port_rules chain other (source six g) (lit "udp") g.udp _ n
            ∙ other_port_rules chain other (source six g) (lit "tcp") g.tcp acc n)
    ]

table_rules-input :
    (m : Manager) (t : FwTable) (acc : Option (List Text))
    → last_append input_chain (table_rules m t) acc ≡ some (append_drop input_chain)
unfolding table_rules last_append appends append_drop insert_jump ◌==◌
table_rules-input m t acc = simp (
  last_append-append,
  other_port_grant_rules input_chain forward_chain m.port_grants (t.bin == lit "ip6tables"),
)

table_rules-forward :
    (m : Manager) (t : FwTable) (acc : Option (List Text))
    → last_append forward_chain (table_rules m t) acc ≡ some (append_drop forward_chain)
unfolding table_rules last_append appends append_drop insert_jump ◌==◌
table_rules-forward m t acc = simp (last_append-append)

-- In the log after the rules of a table are in place, the latest rule that the table's binary appended to
-- either chain is the one that drops everything.
pub apply_table-drops :
    (h : Host) (m : Manager) (t : FwTable) (log : List Command)
    → (apply_table h m t log).1 ≡ true
    → (latest_append t.bin input_chain (apply_table h m t log).0 ≡ some (append_drop input_chain))
      × (latest_append t.bin forward_chain (apply_table h m t log).0
          ≡ some (append_drop forward_chain))
unfolding apply_table run
apply_table-drops h m t log good = elim (Bool-cases (run_all h t.bin (table_rules m t) log).1) [
  | inr bad ↦ absurd (false-true (rw (bad, apply_table) at good))
  | inl fine ↦
      let log1 = (run_all h t.bin (table_rules m t) log).0 in
      let jump : Command = record {
        bin = t.bin;
        args = insert_jump (lit "FORWARD") m.cfg.iface forward_chain;
      } in
      elim (Bool-cases (h.succeeds log1 jump)) [
        | inr bad ↦ absurd (false-true (rw (fine, bad, apply_table) at good))
        | inl jumped ↦
            rw (fine, jumped, apply_table)
              (
                after_jump input_chain log1
                    ∙ run_all-latest h t.bin input_chain (table_rules m t) log fine
                    ∙ table_rules-input m t (latest_append t.bin input_chain log),
                after_jump forward_chain log1
                    ∙ run_all-latest h t.bin forward_chain (table_rules m t) log fine
                    ∙ table_rules-forward m t (latest_append t.bin forward_chain log),
              )
      ]
]
  where
    after_jump :
        (chain : Text) (log1 : List Command)
        → latest_append t.bin chain (
            record { bin = t.bin; args = insert_jump (lit "FORWARD") m.cfg.iface forward_chain }
            ∷ log1)
          ≡ latest_append t.bin chain log1
    after_jump chain log1 = unfold latest_append appends insert_jump ◌==◌ in ground arith

ints_equal_iff : (xs ys : List ℤ) → (ints_equal xs ys ≡ true) ↔ (xs ≡ ys)
unfolding ints_equal
ints_equal_iff [] [] = ground arith
ints_equal_iff [] (b ∷ ys) = ground arith
ints_equal_iff (a ∷ xs) [] = ground arith
ints_equal_iff (pos a ∷ xs) (pos b ∷ ys) = ground (arith, ints_equal_iff xs ys)
ints_equal_iff (negsuc a ∷ xs) (negsuc b ∷ ys) = ground (arith, ints_equal_iff xs ys)
ints_equal_iff (pos a ∷ xs) (negsuc b ∷ ys) = ground arith
ints_equal_iff (negsuc a ∷ xs) (pos b ∷ ys) = ground arith

grants_equal_iff : (xs ys : List PortGrant) → (grants_equal xs ys ≡ true) ↔ (xs ≡ ys)
unfolding grants_equal
grants_equal_iff [] [] = ground arith
grants_equal_iff [] (b ∷ ys) = ground arith
grants_equal_iff (a ∷ xs) [] = ground arith
grants_equal_iff (a ∷ xs) (b ∷ ys) = ground (
  arith,
  ==_iff a.source_ip b.source_ip,
  ==_iff a.source_ipv6 b.source_ipv6,
  ints_equal_iff a.tcp b.tcp,
  ints_equal_iff a.udp b.udp,
  grants_equal_iff xs ys,
)

apply-port_grants :
    (h : Host) (m : Manager) (log : List Command) → (apply h m log).0.port_grants ≡ m.port_grants
unfolding apply
apply-port_grants h m log =
    let (log', done) = apply_tables h m tables (teardown h m log) in
    elim (Bool-cases (not (h.on_path v4.bin && h.on_path v6.bin) || is_empty m.cfg.iface)) [
      | inl refused ↦ rw (refused, apply) refl
      | inr tried ↦ elim (Bool-cases done) [
        | inl good ↦ rw (tried, good, apply) refl
        | inr bad ↦ rw (tried, bad, apply) refl
      ]
    ]

set_port_grants-has :
    (h : Host) (grants : List PortGrant) (m : Manager) (log : List Command)
    → (set_port_grants h grants m log).0.port_grants ≡ grants
unfolding set_port_grants
set_port_grants-has h grants m log = elim (Bool-cases (grants_equal m.port_grants grants)) [
  | inl same ↦ rw (same, set_port_grants) ((grants_equal_iff m.port_grants grants).0 same)
  | inr new ↦ elim (Bool-cases m.enabled) [
    | inl on ↦
        rw (new, on, set_port_grants)
          (apply-port_grants h (record m { enabled = true; port_grants = grants }) log)
    | inr off ↦ rw (new, off, set_port_grants) refl
  ]
]

-- Whatever the commands do, `SetPortGrants` leaves the manager with the given grants, and a later call
-- with the same grants changes nothing, runs no command and gives no error.
pub set_port_grants-again :
    (h : Host) (grants : List PortGrant) (m : Manager) (log later : List Command)
    → ((set_port_grants h grants m log).0.port_grants ≡ grants)
      × (set_port_grants h grants (set_port_grants h grants m log).0 later
          ≡ ((set_port_grants h grants m log).0, later, true))
set_port_grants-again h grants m log later =
    let has = set_port_grants-has h grants m log in
    (has, unchanged (set_port_grants h grants m log).0 has)
  where
    unchanged :
        (t : Manager) → t.port_grants ≡ grants → set_port_grants h grants t later ≡ (t, later, true)
    unchanged t e =
        unfold set_port_grants in
        rw ((grants_equal_iff t.port_grants grants).1 e, set_port_grants) refl
