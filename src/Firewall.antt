-- ===== src/Firewall.antt =====
-- internal/firewall/firewall.go: the two chains that confine the tunnel's peers. iptables and ip6tables are
-- parameters: `Host` says whether a command that follows the given ones succeeds. The commands are
-- recorded in the order in which they are run.
pub mod Rules
mod Tests
use atreo_agent.Base.{
  ℕ, zero, suc, Bool, true, false, not, ◌&&◌, ◌||◌, Text, lit, is_empty, ◌==◌, eqb, ltb, decimal,
  List, [], ◌∷◌, ◌++◌, Option, none, some, if◌then◌else◌,
}
use atreo_agent.Base.Int.{ℤ, pos, negsuc}

abbrev pub input_chain : Text
input_chain = lit "ATREOAGENT-WG-INPUT"

abbrev pub forward_chain : Text
forward_chain = lit "ATREOAGENT-WG-FORWARD"

pub record FwTable : Type 0 where
  pub bin : Text
  pub icmp_proto : Text

abbrev pub v4 : FwTable
v4 = record { bin = lit "iptables"; icmp_proto = lit "icmp" }

abbrev pub v6 : FwTable
v6 = record { bin = lit "ip6tables"; icmp_proto = lit "ipv6-icmp" }

abbrev pub tables : List FwTable
tables = v4 ∷ v6 ∷ []

pub record Config : Type 0 where
  pub iface : Text
  pub allowed_tcp_ports : List ℤ

pub record PortGrant : Type 0 where
  pub source_ip : Text
  pub source_ipv6 : Text
  pub tcp : List ℤ
  pub udp : List ℤ

pub record Manager : Type 0 where
  pub cfg : Config
  pub enabled : Bool
  pub port_grants : List PortGrant

unfoldable pub new_manager : Config → Manager
new_manager c = record { cfg = c; enabled = false; port_grants = [] }

-- One run of a binary with its arguments.
pub record Command : Type 0 where
  pub bin : Text
  pub args : List Text

-- `on_path` is `exec.LookPath`; `succeeds` gets the commands run before, the latest first.
pub record Host : Type 0 where
  pub on_path : Text → Bool
  pub succeeds : List Command → Command → Bool

-- `strconv.Itoa` of a port; only positive ones are written.
abbrev pub is_positive : ℤ → Bool
is_positive (pos n) = ltb 0 n
is_positive (negsuc n) = false

abbrev pub itoa : ℤ → Text
itoa (pos n) = decimal n
itoa (negsuc n) = b'-' ∷ decimal (suc n)

unfoldable pub port_rule : Text → Text → Text → ℤ → List Text
port_rule chain src proto port =
    lit "-A"
    ∷ chain
    ∷ lit "-s"
    ∷ src
    ∷ lit "-p"
    ∷ proto
    ∷ lit "--dport"
    ∷ itoa port
    ∷ lit "-j"
    ∷ lit "ACCEPT"
    ∷ []

-- The loop over one protocol's ports of one grant.
unfoldable pub port_rules : Text → Text → Text → List ℤ → List (List Text)
unfolding port_rule
port_rules chain src proto [] = []
port_rules chain src proto (p ∷ ps) =
    let rest = port_rules chain src proto ps in
    if is_positive p then port_rule chain src proto p ∷ rest else rest

unfoldable pub source : Bool → PortGrant → Text
source six g = if six then g.source_ipv6 else g.source_ip

unfoldable pub port_grant_rules : Text → List PortGrant → Bool → List (List Text)
port_grant_rules chain [] six = []
port_grant_rules chain (g ∷ gs) six =
    let rest = port_grant_rules chain gs six in
    let src = source six g in
    if is_empty src
    then rest
    else port_rules chain src (lit "tcp") g.tcp ++ port_rules chain src (lit "udp") g.udp ++ rest

unfoldable pub allow_rules : List ℤ → List (List Text)
allow_rules [] = []
allow_rules (p ∷ ps) =
    let rest = allow_rules ps in
    if is_positive p
    then (lit "-A"
        ∷ input_chain
        ∷ lit "-p"
        ∷ lit "tcp"
        ∷ lit "--dport"
        ∷ itoa p
        ∷ lit "-j"
        ∷ lit "ACCEPT"
        ∷ [])
      ∷ rest
    else rest

unfoldable pub append_drop : Text → List Text
append_drop chain = lit "-A" ∷ chain ∷ lit "-j" ∷ lit "DROP" ∷ []

unfoldable pub insert_jump : Text → Text → Text → List Text
insert_jump hook iface chain = lit "-I" ∷ hook ∷ lit "1" ∷ lit "-i" ∷ iface ∷ lit "-j" ∷ chain ∷ []

unfoldable pub delete_jump : Text → Text → Text → List Text
delete_jump hook iface chain = lit "-D" ∷ hook ∷ lit "-i" ∷ iface ∷ lit "-j" ∷ chain ∷ []

-- The commands of `applyTable` up to the jump from FORWARD, each of which must succeed.
unfoldable pub table_rules : Manager → FwTable → List (List Text)
unfolding allow_rules append_drop insert_jump port_grant_rules
table_rules m t =
    let six = t.bin == lit "ip6tables" in
    ((lit "-N" ∷ input_chain ∷ []) ∷ (lit "-N" ∷ forward_chain ∷ []) ∷ [])
    ++ ((lit "-A"
          ∷ input_chain
          ∷ lit "-m"
          ∷ lit "conntrack"
          ∷ lit "--ctstate"
          ∷ lit "RELATED,ESTABLISHED"
          ∷ lit "-j"
          ∷ lit "ACCEPT"
          ∷ [])
        ∷ (lit "-A" ∷ input_chain ∷ lit "-p" ∷ t.icmp_proto ∷ lit "-j" ∷ lit "ACCEPT" ∷ [])
        ∷ [])
    ++ allow_rules m.cfg.allowed_tcp_ports
    ++ port_grant_rules input_chain m.port_grants six
    ++ append_drop input_chain ∷ port_grant_rules forward_chain m.port_grants six
    ++ append_drop forward_chain ∷ insert_jump (lit "INPUT") m.cfg.iface input_chain ∷ []

module _ (h : Host) where
  -- `run`: the command is recorded, and whether it succeeded.
  unfoldable pub run : Text → List Text → List Command → List Command × Bool
  run bin args log =
      let c : Command = record { bin = bin; args = args } in (c ∷ log, h.succeeds log c)

  -- Commands one after the other until one fails.
  unfoldable pub run_all : Text → List (List Text) → List Command → List Command × Bool
  run_all bin [] log = (log, true)
  run_all bin (args ∷ more) log =
      let (log', good) = run bin args log in
      let rest = run_all bin more log' in if good then rest else (log', false)

  unfoldable pub apply_table : Manager → FwTable → List Command → List Command × Bool
  apply_table m t log =
      let (log1, good) = run_all t.bin (table_rules m t) log in
      if not good
      then (log1, false)
      else let (log2, jumped) =
          run t.bin (insert_jump (lit "FORWARD") m.cfg.iface forward_chain) log1 in
        if jumped
        then (log2, true)
        else ((run t.bin (delete_jump (lit "INPUT") m.cfg.iface input_chain) log2).0, false)

  -- At most `n` runs of a command, until it fails.
  unfoldable pub drain : ℕ → Text → List Text → List Command → List Command
  drain zero bin args log = log
  drain (suc n) bin args log =
      let (log', good) = run bin args log in
      let rest = drain n bin args log' in if good then rest else log'

  unfoldable pub teardown_table : Manager → FwTable → List Command → List Command
  teardown_table m t log =
      let log1 = drain 8 t.bin (delete_jump (lit "INPUT") m.cfg.iface input_chain) log in
      let log2 = drain 8 t.bin (delete_jump (lit "FORWARD") m.cfg.iface forward_chain) log1 in
      let log3 = (run t.bin (lit "-F" ∷ input_chain ∷ []) log2).0 in
      let log4 = (run t.bin (lit "-F" ∷ forward_chain ∷ []) log3).0 in
      let log5 = (run t.bin (lit "-X" ∷ input_chain ∷ []) log4).0 in
      (run t.bin (lit "-X" ∷ forward_chain ∷ []) log5).0

  unfoldable pub teardown : Manager → List Command → List Command
  teardown m log = teardown_table m v6 (teardown_table m v4 log)

  unfoldable pub apply_tables : Manager → List FwTable → List Command → List Command × Bool
  apply_tables m [] log = (log, true)
  apply_tables m (t ∷ ts) log =
      let (log', good) = apply_table m t log in
      let rest = apply_tables m ts log' in if good then rest else (teardown m log', false)

  -- `Apply`; the flag is false for an error.
  unfoldable pub apply : Manager → List Command → Manager × List Command × Bool
  apply m log =
      if not (h.on_path v4.bin && h.on_path v6.bin) || is_empty m.cfg.iface
      then (m, log, false)
      else let (log', good) = apply_tables m tables (teardown m log) in
        if good then (record m { enabled = true }, log', true) else (m, log', false)

  unfoldable pub stop : Manager → List Command → Manager × List Command
  stop m log = if m.enabled then (record m { enabled = false }, teardown m log) else (m, log)

abbrev pub eq_ℤ : ℤ → ℤ → Bool
eq_ℤ (pos a) (pos b) = eqb a b
eq_ℤ (negsuc a) (negsuc b) = eqb a b
eq_ℤ _ _ = false

unfoldable pub ints_equal : List ℤ → List ℤ → Bool
ints_equal [] [] = true
ints_equal (a ∷ xs) (b ∷ ys) = eq_ℤ a b && ints_equal xs ys
ints_equal _ _ = false

unfoldable pub grants_equal : List PortGrant → List PortGrant → Bool
unfolding ints_equal
grants_equal [] [] = true
grants_equal (a ∷ xs) (b ∷ ys) =
    (a.source_ip == b.source_ip
      && (a.source_ipv6 == b.source_ipv6 && (ints_equal a.tcp b.tcp && ints_equal a.udp b.udp)))
    && grants_equal xs ys
grants_equal _ _ = false

-- `SetPortGrants`, with no other call between its two steps.
unfoldable pub set_port_grants :
    Host → List PortGrant → Manager → List Command → Manager × List Command × Bool
set_port_grants h grants m log =
    if grants_equal m.port_grants grants
    then (m, log, true)
    else if m.enabled
    then apply h (record m { port_grants = grants }) log
    else (record m { port_grants = grants }, log, true)
