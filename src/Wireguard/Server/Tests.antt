-- ===== src/Wireguard/Server/Tests.antt =====
-- The theorems on internal/wireguard/server.go at a server without peers, on a host where every
-- command succeeds.
use atreo_agent.Base.{List, true, Text, lit, some, [], ◌∷◌, ◌≡◌, refl}
use atreo_agent.Firewall.{Host}
use atreo_agent.Wireguard.Addresses.{Net}
use atreo_agent.Wireguard.Server.{Server}
use atreo_agent.Wireguard.Server.Harmless.{Guarded, run_calls-harmless}
use atreo_agent.Wireguard.Server.Peers.{
  Call, adds, removes, run_calls, history, table, replay, table-run_calls,
}

abbrev host : Host
host = record { on_path = λ bin. true; succeeds = λ log c. true }

-- An address is written as its bytes.
abbrev net : Net
net = record {
  parse_ip = λ s. some s;
  to4 = λ ip. some ip;
  to16 = λ ip. ip;
  ip_string = λ ip. ip;
  mask_ones = λ s. some 64;
}

abbrev server : Server
server = record {
  listen_port = 51820;
  server_ip = lit "100.64.0.1";
  subnet = lit "100.64.0.0/24";
  server_ipv6 = [];
  subnet_v6 = [];
  iface = lit "wg-atreo";
  public_key = [];
  peers = [];
  running = true;
}

abbrev good : Text
good = lit "AAAAAAAAAAAAAAAAAAAAAAAAAAAAAAAAAAAAAAAAAAA="

abbrev calls : List Call
calls = adds good (lit "100.64.0.2") ∷ adds (lit "--help") (lit "100.64.0.3") ∷ removes good ∷ []

run_calls-harmless_example : Guarded (run_calls host net calls (server, []))
run_calls-harmless_example = run_calls-harmless host net calls server refl

table-run_calls_example :
    table (run_calls host net calls (server, [])).0
    ≡ replay (history host net calls (server, [])) (table server)
table-run_calls_example = table-run_calls host net calls (server, [])
