-- ===== src/Acl/Access.antt =====
-- internal/acl/store.go: who may reach what, through the proxy and through the firewall.
pub mod Proxy
pub mod Ports
use atreo_agent.Base.{
  Bool, true, false, not, ◌&&◌, ◌||◌, Text, lit, is_empty, ◌==◌, List, [], ◌∷◌, ◌++◌, Option, none,
  some, if◌then◌else◌,
}
use atreo_agent.Base.Int.{ℤ, is_port}
use atreo_agent.Atreolink.{Unicode, App, ClientRecord, MemberAclEntry, is_port_app, effective_slug}
use atreo_agent.Acl.{Store, is_admin_role, is_suspended, lookup_by_tunnel_ip}

-- The first app that the test accepts.
unfoldable pub find_app : (App → Bool) → List App → Option App
find_app p [] = none
find_app p (a ∷ apps) = if p a then some a else find_app p apps

-- Over the allowed apps of each member in turn.
unfoldable pub find_member_app : (App → Bool) → List MemberAclEntry → Option App
find_member_app p [] = none
find_member_app p (m ∷ ms) = elim (find_app p m.allowed_apps) [
  | some a ↦ some a
  | none ↦ find_member_app p ms
]

unfoldable pub proxies : Unicode → Text → App → Bool
proxies u slug a = not (is_port_app a) && effective_slug u a == slug

unfoldable pub opens_port : Unicode → Text → App → Bool
opens_port u slug a = is_port_app a && effective_slug u a == slug

-- The catalogue first, then the members' apps.
unfoldable pub find_anywhere : (App → Bool) → Store → Option App
find_anywhere p s = elim (find_app p s.apps) [
  | some a ↦ some a
  | none ↦ find_member_app p s.members
]

unfoldable pub find_app_by_slug : Unicode → Text → Store → Option App
find_app_by_slug u slug s = find_anywhere (proxies u slug) s

unfoldable pub find_port_app_by_slug : Unicode → Text → Store → Option App
find_port_app_by_slug u slug s = find_anywhere (opens_port u slug) s

-- `(true, app)` is `some app`, `(false, nil)` is `none`.
unfoldable pub member_may_reach : Unicode → Text → Store → MemberAclEntry → Option App
member_may_reach u slug s m =
    if is_suspended m.status
    then none
    else if is_admin_role m.role
    then find_app_by_slug u slug s
    else find_app (proxies u slug) m.allowed_apps

unfoldable pub is_app_allowed : Unicode → Text → Text → Store → Option App
is_app_allowed u source_ip slug s = elim (lookup_by_tunnel_ip s source_ip) [
  | none ↦ none
  | some m ↦ member_may_reach u slug s m
]

unfoldable pub is_port_app_allowed : Unicode → Text → Text → Store → Option App
is_port_app_allowed u source_ip slug s = elim (lookup_by_tunnel_ip s source_ip) [
  | none ↦ none
  | some m ↦ if is_suspended m.status then none else find_app (opens_port u slug) m.allowed_apps
]

pub record PortGrant : Type 0 where
  pub tunnel_ip : Text
  pub tunnel_ipv6 : Text
  pub tcp : List ℤ
  pub udp : List ℤ

unfoldable pub is_tcp : Text → Bool
is_tcp p = p == lit "tcp" || (p == lit "http" || p == lit "https")

unfoldable pub is_udp : Text → Bool
is_udp p = p == lit "udp"

-- The ports of the port apps whose protocol passes the test; an app whose port is no port is skipped.
unfoldable pub ports_of : (Text → Bool) → List App → List ℤ
ports_of proto [] = []
ports_of proto (a ∷ apps) =
    let rest = ports_of proto apps in
    if is_port_app a && is_port a.port && proto a.protocol then a.port ∷ rest else rest

unfoldable pub client_grants : List ℤ → List ℤ → List ClientRecord → List PortGrant
client_grants tcp udp [] = []
client_grants tcp udp (c ∷ cs) =
    let rest = client_grants tcp udp cs in
    if is_empty c.tunnel_ip
    then rest
    else record { tunnel_ip = c.tunnel_ip; tunnel_ipv6 = c.tunnel_ipv6; tcp = tcp; udp = udp }
      ∷ rest

abbrev both_empty : List ℤ → List ℤ → Bool
both_empty [] [] = true
both_empty _ _ = false

unfoldable pub member_grants : MemberAclEntry → List PortGrant
unfolding ports_of client_grants
member_grants m =
    let tcp = ports_of is_tcp m.allowed_apps in
    let udp = ports_of is_udp m.allowed_apps in
    if is_suspended m.status || both_empty tcp udp then [] else client_grants tcp udp m.clients

unfoldable pub grants_of : List MemberAclEntry → List PortGrant
unfolding member_grants
grants_of [] = []
grants_of (m ∷ ms) = member_grants m ++ grants_of ms

unfoldable pub port_grants : Store → List PortGrant
unfolding grants_of
port_grants s = grants_of s.members
