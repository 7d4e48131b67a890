-- ===== src/Acl/Access/Ports.antt =====
-- Which raw ports the firewall is told to open: `PortGrants` of internal/acl/store.go against the
-- members, port by port.
use atreo_agent.Base.{
  Bool, true, false, not, ◌&&◌, ◌||◌, Text, ◌==◌, ==_iff, is_empty, List, [], ◌∷◌, ◌++◌, any,
  any-append, eqb, ◌≡◌, refl, sym, ◌∙◌, arith, Bool-cases, inl, inr,
}
use atreo_agent.Base.Int.{ℤ, pos, negsuc, is_port}
use atreo_agent.Atreolink.{App, ClientRecord, MemberAclEntry, is_port_app}
use atreo_agent.Acl.{Store, is_suspended}
use atreo_agent.Acl.Access.{
  PortGrant, is_tcp, is_udp, ports_of, client_grants, both_empty, member_grants, grants_of,
  port_grants,
}

unfoldable pub same_port : ℤ → ℤ → Bool
same_port (pos a) (pos b) = eqb a b
same_port (negsuc a) (negsuc b) = eqb a b
same_port _ _ = false

-- The address is one of the two of a grant, and of a client that the firewall knows, which has an IPv4
-- address.
unfoldable pub grants_to : Text → PortGrant → Bool
grants_to ip g = g.tunnel_ip == ip || g.tunnel_ipv6 == ip

unfoldable pub stands_at : Text → ClientRecord → Bool
stands_at ip c = not (is_empty c.tunnel_ip) && (c.tunnel_ip == ip || c.tunnel_ipv6 == ip)

-- Some grant lets this address reach the port.
unfoldable pub opens : (PortGrant → List ℤ) → Text → ℤ → List PortGrant → Bool
opens side ip port gs = any (λ g. grants_to ip g && any (same_port port) (side g)) gs

-- The app is a port app on this port, which is a real one, and has such a protocol.
unfoldable pub offers : (Text → Bool) → ℤ → App → Bool
offers proto port a = is_port_app a && is_port a.port && proto a.protocol && same_port port a.port

-- An entry that is not suspended, with a client that stands at the address and an allowed app on the port.
unfoldable pub may_open : (Text → Bool) → Text → ℤ → MemberAclEntry → Bool
may_open proto ip port m =
    not (is_suspended m.status)
    && (any (stands_at ip) m.clients && any (offers proto port) m.allowed_apps)

any-ports_of :
    (proto : Text → Bool) (port : ℤ) (apps : List App)
    → any (same_port port) (ports_of proto apps) ≡ any (offers proto port) apps
unfolding any ports_of offers
any-ports_of proto port [] = refl
any-ports_of proto port (a ∷ apps) = ground (arith, any-ports_of proto port apps)

opens-none : (side : PortGrant → List ℤ) (ip : Text) (port : ℤ) → opens side ip port [] ≡ false
unfolding opens any
opens-none side ip port = refl

opens-append :
    (side : PortGrant → List ℤ) (ip : Text) (port : ℤ) (gs hs : List PortGrant)
    → opens side ip port (gs ++ hs) ≡ (opens side ip port gs || opens side ip port hs)
unfolding opens
opens-append side ip port gs hs = any-append _ gs hs

module _ (side : PortGrant → List ℤ) (ip : Text) (port : ℤ) (n : is_empty ip ≡ false) where
  opens-client_grants :
      (tcp udp open_ports : List ℤ) (cs : List ClientRecord)
      → ((a b : Text)
          → side (record { tunnel_ip = a; tunnel_ipv6 = b; tcp = tcp; udp = udp }) ≡ open_ports)
      → opens side ip port (client_grants tcp udp cs)
        ≡ (any (stands_at ip) cs && any (same_port port) open_ports)
  unfolding opens client_grants any grants_to stands_at
  opens-client_grants tcp udp open_ports [] h = refl
  opens-client_grants tcp udp open_ports (c ∷ cs) h = ground (
    arith,
    opens-client_grants tcp udp open_ports cs h,
    h c.tunnel_ip c.tunnel_ipv6,
    ==_iff c.tunnel_ip ip,
    n,
  )

  -- A side of the grants: its list is that of the ports with this protocol.
  module _ (proto : Text → Bool)
      (lists : (a b : Text) (m : MemberAclEntry)
        → side (record {
          tunnel_ip = a;
          tunnel_ipv6 = b;
          tcp = ports_of is_tcp m.allowed_apps;
          udp = ports_of is_udp m.allowed_apps;
        })
          ≡ ports_of proto m.allowed_apps)
      (none_open : (m : MemberAclEntry)
        → both_empty (ports_of is_tcp m.allowed_apps) (ports_of is_udp m.allowed_apps) ≡ true
        → ports_of proto m.allowed_apps ≡ []) where
    opens-member_grants :
        (m : MemberAclEntry) → opens side ip port (member_grants m) ≡ may_open proto ip port m
    unfolding member_grants may_open
    opens-member_grants m =
        let tcp = ports_of is_tcp m.allowed_apps in
        let udp = ports_of is_udp m.allowed_apps in
        let by_client =
          opens-client_grants tcp udp (ports_of proto m.allowed_apps) m.clients
            (λ a b. lists a b m) in
        let by_app = any-ports_of proto port m.allowed_apps in
        elim (Bool-cases (is_suspended m.status)) [
          | inl out ↦ rw out (unfold opens any in refl)
          | inr active ↦ elim (Bool-cases (both_empty tcp udp)) [
            | inl blank ↦
                let no_app : any (offers proto port) m.allowed_apps ≡ false =
                  sym by_app ∙ rw (none_open m blank) (unfold any in refl) in
                rw (active, blank) (rw no_app (ground (arith, opens-none side ip port)))
            | inr some_port ↦ rw (active, some_port) (rw by_client (rw by_app))
          ]
        ]

    opens-grants_of :
        (ms : List MemberAclEntry)
        → opens side ip port (grants_of ms) ≡ any (may_open proto ip port) ms
    unfolding grants_of any
    opens-grants_of [] = opens-none side ip port
    opens-grants_of (m ∷ ms) =
        rw (opens-append side ip port (member_grants m) (grants_of ms))
          (rw (opens-member_grants m, opens-grants_of ms))

both_empty-tcp : (tcp udp : List ℤ) → both_empty tcp udp ≡ true → tcp ≡ []
both_empty-tcp [] udp e = refl
both_empty-tcp (p ∷ tcp) udp e = cc

both_empty-udp : (tcp udp : List ℤ) → both_empty tcp udp ≡ true → udp ≡ []
both_empty-udp [] [] e = refl
both_empty-udp [] (p ∷ udp) e = cc
both_empty-udp (p ∷ tcp) udp e = cc

-- A TCP port is opened to an address that is not blank, IPv4 or IPv6, exactly if some entry that is not
-- suspended has a client that has an IPv4 address and of which this is one of the two addresses and,
-- among its allowed apps, a port app on this port, which lies in 1 to 65535, with one of the protocols tcp, http and https; a UDP port likewise, with the
-- protocol udp.
pub port_grants_open :
    (s : Store) (ip : Text) (port : ℤ)
    → is_empty ip ≡ false
    → (opens (λ g. g.tcp) ip port (port_grants s) ≡ any (may_open is_tcp ip port) s.members)
      × (opens (λ g. g.udp) ip port (port_grants s) ≡ any (may_open is_udp ip port) s.members)
unfolding port_grants
port_grants_open s ip port n = (
  opens-grants_of (λ g. g.tcp) ip port n is_tcp (λ a b m. refl)
      (λ m. both_empty-tcp (ports_of is_tcp m.allowed_apps) (ports_of is_udp m.allowed_apps))
      s.members,
  opens-grants_of (λ g. g.udp) ip port n is_udp (λ a b m. refl)
      (λ m. both_empty-udp (ports_of is_tcp m.allowed_apps) (ports_of is_udp m.allowed_apps))
      s.members,
)
