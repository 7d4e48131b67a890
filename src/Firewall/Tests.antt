-- ===== src/Firewall/Tests.antt =====
-- The theorems on internal/firewall/firewall.go on a host where every command succeeds.
use atreo_agent.Base.{true, lit, [], ◌∷◌, some, ◌≡◌, refl, ◌==◌}
use atreo_agent.Base.Int.{pos}
use atreo_agent.Firewall.{
  input_chain, forward_chain, v4, Manager, Host, append_drop, apply_table, run, run_all,
  table_rules, allow_rules, port_grant_rules, port_rules, source,
}
use atreo_agent.Firewall.Rules.{latest_append, apply_table-drops}

abbrev willing : Host
willing = record { on_path = λ bin. true; succeeds = λ log c. true }

abbrev manager : Manager
manager = record {
  cfg = record { iface = lit "wg-atreo"; allowed_tcp_ports = pos 80 ∷ pos 443 ∷ [] };
  enabled = true;
  port_grants =
      record { source_ip = lit "100.64.0.2"; source_ipv6 = []; tcp = pos 22 ∷ []; udp = [] } ∷ [];
}

accepted : (apply_table willing manager v4 []).1 ≡ true
unfolding apply_table run run_all table_rules allow_rules port_grant_rules port_rules source ◌==◌
accepted = refl

apply_table-drops_example :
    (latest_append (lit "iptables") input_chain (apply_table willing manager v4 []).0
      ≡ some (append_drop input_chain))
    × (latest_append (lit "iptables") forward_chain (apply_table willing manager v4 []).0
        ≡ some (append_drop forward_chain))
apply_table-drops_example = apply_table-drops willing manager v4 [] accepted
