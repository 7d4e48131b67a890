-- ===== src/Tunnel/Handlers/Samples.antt =====
-- One owner with one client and one app, a push, a provision and an unpairing signed by the owner, and the
-- state and the surroundings of the handlers that receive them.
use atreo_agent.Base.{true, Text, lit, ◌==◌, [], ◌∷◌, ◌++◌, none, some, insert}
use atreo_agent.Base.Int.{pos}
use atreo_agent.Base.Base64.{encode}
use atreo_agent.Atreolink.{App, Unicode}
use atreo_agent.Acl.{Store, new_store}
use atreo_agent.Acl.Persist.{missing, contents}
use atreo_agent.Firewall.{Host, new_manager}
use atreo_agent.Wireguard.Allocator.{IpAllocator, host}
use atreo_agent.Wireguard.Addresses.{Net}
use atreo_agent.Wireguard.Server.{Server}
use atreo_agent.Tunnel.Tests.{repeat, stamp, crypto, codec, key, ann}
use atreo_agent.Tunnel.Liveness.{booted}
use atreo_agent.Tunnel.Verify.{TunnelMessage}
use atreo_agent.Tunnel.Wire.{Decoders, DsEnvelope, DeviceState}
use atreo_agent.Tunnel.State.{Libraries, Identity}
use atreo_agent.Tunnel.Handlers.{Handlers, World}
use atreo_agent.Tunnel.Domain.{DomainWorld, Domains, CustomDomain}
use atreo_agent.Tunnel.Challenge.{ProvisionPayload, Rpc}
use atreo_agent.Tunnel.Commands.{Process, Payloads}

abbrev pub wg_key : Text
wg_key = lit "AAAAAAAAAAAAAAAAAAAAAAAAAAAAAAAAAAAAAAAAAAA="

abbrev pub signed : DsEnvelope
signed = record {
  payload = lit "a";
  signer_id = lit "ann";
  signature = encode (stamp key (lit "\"a\""));
}

abbrev pub photos : App
photos = record {
  id = lit "a1";
  name = lit "Photos";
  slug = lit "photos";
  internal_url = lit "http://nas";
  icon = [];
  type = [];
  port = pos 0;
  protocol = [];
}

abbrev pub push : DeviceState
push = record {
  device_id = lit "d";
  generation = pos 1;
  members =
      record {
        member_id = lit "ann";
        user_id = [];
        member_name = [];
        email = [];
        role = lit "owner";
        identity_key = encode key;
        join_attestation = none;
        admittance = none;
        status_envelope = none;
        permissions_envelope = none;
        clients =
            record {
              wg_public_key = wg_key;
              label = [];
              platform = [];
              registration_envelope = some signed;
              ip_lease = none;
              endpoint_type = [];
            }
            ∷ [];
      }
      ∷ [];
  apps =
      record {
        id = lit "a1";
        name = [];
        slug = [];
        internal_url = [];
        icon = [];
        envelope = some signed;
      }
      ∷ [];
  custom_domain = none;
}

abbrev pub decoders : Decoders
decoders = record {
  base64_string = λ s. some s;
  gunzip = λ n s. some s;
  state = λ s. some push;
  app = λ s. some (record {
    fields = record { intent = lit "app:upserted-d-a1"; timestamp = 0 };
    device_id = lit "d";
    app = photos;
  });
  status = λ s. none;
  permissions = λ s. none;
  registration = λ s. some (record {
    fields = record {
      intent = lit "wg:client-register-d-ann-" ++ wg_key ++ lit "-0";
      timestamp = 0;
    };
    device_id = lit "d";
    member_id = lit "ann";
    public_key = wg_key;
    client_name = [];
    platform = [];
  });
  custom_domain = λ s. none;
  url = λ s. some (lit "http", lit "nas");
}

abbrev pub libraries : Libraries
libraries = record {
  crypto = crypto;
  codec = codec;
  first = λ j. lit "body";
  digits = λ n. lit "0";
  invites = record { payload = λ s. none; time = λ s. none };
  decoders = decoders;
}

abbrev pub identity : Identity
identity = record { device_id = lit "d"; private_key = repeat 64 9 }

abbrev pub unicode : Unicode
unicode = record { to_lower = λ s. s; trim_space = λ s. s }

abbrev pub willing : Host
willing = record { on_path = λ bin. true; succeeds = λ log c. true }

abbrev pub net : Net
net = record {
  parse_ip = λ s. some s;
  to4 = λ ip. some ip;
  to16 = λ ip. ip;
  ip_string = λ ip. ip;
  mask_ones = λ s. some 64;
}

abbrev pub world : World
world = record {
  unicode = unicode;
  host = willing;
  net = net;
  firewall_reconcile = none;
  domain = none;
  saves = true;
  sends = true;
  now = 5_000_000_000;
}

abbrev pub pool : IpAllocator
pool = record {
  server_ip = lit "100.64.0.1";
  prefix = lit "100.64.0";
  allocated = [];
  used_ips =
      insert (host (lit "100.64.0") 255) true
        (insert (host (lit "100.64.0") 0) true (insert (lit "100.64.0.1") true []));
}

abbrev pub server : Server
server = record {
  listen_port = 51820;
  server_ip = lit "100.64.0.1";
  subnet = lit "100.64.0.0/24";
  server_ipv6 = [];
  subnet_v6 = [];
  iface = lit "wg-atreo";
  public_key = [];
  peers = [];
  running = true;
}

abbrev pub store : Store
store = record new_store {
  members = ann ∷ [];
  by_member_id = (lit "ann", 0) ∷ [];
  pinned_admin_pub_key = some key;
}

abbrev pub handlers : Handlers
handlers = record {
  acl = store;
  allocator = pool;
  server = server;
  log = [];
  firewall = new_manager (record { iface = lit "wg-atreo"; allowed_tcp_ports = [] });
  domains = record { registry = []; file = missing };
  live = booted 0;
  acl_file = missing;
  nonces =
      (
        lit "c",
        record { nonce = lit "n"; member_id = lit "ann"; client_key = wg_key; created_at = 0 },
      )
      ∷ [];
}

abbrev pub pushed : TunnelMessage
pushed = record {
  type = lit "device:state";
  correlation_id = [];
  payload = lit "push";
  signer_id = [];
  signature = [];
}

abbrev pub provision : ProvisionPayload
provision = record {
  fields = record { intent = lit "wg:provision-ann--n-0"; timestamp = 0 };
  member_id = lit "ann";
  membership_id = [];
  client_id = [];
  client_key = wg_key;
  nonce = lit "n";
  identity_key = [];
  challenge_correl_id = lit "c";
}

abbrev pub rpc : Rpc
rpc = record {
  challenge = λ s. none;
  provision = λ s. some provision;
  write_nonce = λ s. s;
  write_response = λ p. p.nas_signature;
  hex = λ s. some s;
  tunnel_host = lit "nas.io";
  relay = none;
}

abbrev pub asked : TunnelMessage
asked = record {
  type = lit "wg:provision";
  correlation_id = [];
  payload = lit "a";
  signer_id = lit "ann";
  signature = encode (stamp key (lit "\"a\""));
}

abbrev pub first_zone : CustomDomain
first_zone = record {
  parent_zone = lit "old.io";
  envelope_payload = [];
  envelope_owner_sig = [];
  verified_at = [];
}

abbrev pub domain_world : DomainWorld
domain_world = record {
  unicode = unicode;
  equal_fold = λ a b. a == b;
  issuing = record {
    paths = λ host. true;
    is_valid = λ host. true;
    before = λ host. some (record {
      chain = lit "pem";
      leaf = some (record { dns_names = host ∷ []; common_name = [] });
    });
    after = λ host. none;
  };
  writes = true;
  clears = true;
  verified_at = [];
}

abbrev pub domains : Domains
domains = record { registry = (lit "old.io", none) ∷ []; file = contents first_zone }

abbrev pub second_zone : CustomDomain
second_zone = record {
  parent_zone = lit "new.io";
  envelope_payload = signed.payload;
  envelope_owner_sig = signed.signature;
  verified_at = [];
}

abbrev pub process : Process
process = record { handlers = handlers; running = true; paired_file = true; notify = none }

abbrev pub payloads : Payloads
payloads = record {
  device = λ s. some (record {
    fields = record { intent = lit "unpair-device-d-0"; timestamp = 0 };
    device_id = lit "d";
  });
  generation = λ s. none;
  write_key = λ n. n.api_key;
  write_new_key = λ s. s;
  pairing_path = [];
  removes = true;
  clears = true;
}
