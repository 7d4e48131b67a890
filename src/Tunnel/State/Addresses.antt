-- ===== src/Tunnel/State/Addresses.antt =====
-- internal/tunnel/devicestate.go: the loops of `HandleDeviceState` that give each client of the push its tunnel
-- address, and then its IPv6 one.
pub mod Given
use atreo_agent.Base.{
  Bool, true, false, not, ◌&&◌, Text, is_empty, List, [], ◌∷◌, Option, none, some, Map, lookup,
  if◌then◌else◌,
}
use atreo_agent.Atreolink.{ClientRecord, MemberAclEntry}
use atreo_agent.Wireguard.Allocator.{IpAllocator, lookup_ip, try_adopt, allocate}
use atreo_agent.Wireguard.Addresses.{Net}
use atreo_agent.Wireguard.Server.{Server, tunnel_ipv6}

-- The address of a verified lease, blank if there is none.
unfoldable pub leased : Text → Map Text → Text
leased key leases = elim (lookup key leases) [ none ↦ [] | some ip ↦ ip ]

-- A new address from the pool.
unfoldable pub allocate_client : ClientRecord → IpAllocator → IpAllocator × Option ClientRecord
allocate_client c a =
    let (a', given) = allocate c.wg_public_key a in
    elim given [ none ↦ (a', none) | some ip ↦ (a', some (record c { tunnel_ip = ip })) ]

-- The leased address if it can be had.
unfoldable pub adopt_client : Text → ClientRecord → IpAllocator → IpAllocator × Option ClientRecord
unfolding allocate_client
adopt_client lip c a =
    let (a', adopted) = try_adopt c.wg_public_key lip a in
    if is_empty lip
    then allocate_client c a
    else if adopted
    then (a', some (record c { tunnel_ip = lip }))
    else allocate_client c a'

-- One round; `none` is the error of a full pool.
unfoldable pub address_client :
    Map Text → ClientRecord → IpAllocator → IpAllocator × Option ClientRecord
unfolding leased adopt_client
address_client leases c a =
    let ip = lookup_ip c.wg_public_key a in
    if is_empty c.wg_public_key
    then (a, some c)
    else if is_empty ip
    then adopt_client (leased c.wg_public_key leases) c a
    else (a, some (record c { tunnel_ip = ip }))

unfoldable pub cons_client :
    ClientRecord
    → IpAllocator × Option (List ClientRecord)
    → IpAllocator × Option (List ClientRecord)
cons_client c (a, none) = (a, none)
cons_client c (a, some cs) = (a, some (c ∷ cs))

unfoldable pub address_clients :
    Map Text → List ClientRecord → IpAllocator → IpAllocator × Option (List ClientRecord)
unfolding address_client cons_client
address_clients leases [] a = (a, some [])
address_clients leases (c ∷ cs) a =
    let (a', one) = address_client leases c a in
    elim one [ none ↦ (a', none) | some c' ↦ cons_client c' (address_clients leases cs a') ]

unfoldable pub cons_member :
    MemberAclEntry
    → IpAllocator × Option (List MemberAclEntry)
    → IpAllocator × Option (List MemberAclEntry)
cons_member m (a, none) = (a, none)
cons_member m (a, some ms) = (a, some (m ∷ ms))

unfoldable pub address_members :
    Map Text → List MemberAclEntry → IpAllocator → IpAllocator × Option (List MemberAclEntry)
unfolding address_clients cons_member
address_members leases [] a = (a, some [])
address_members leases (m ∷ ms) a =
    let (a', found) = address_clients leases m.clients a in
    elim found [
      | none ↦ (a', none)
      | some cs ↦ cons_member (record m { clients = cs }) (address_members leases ms a')
    ]

module _ (n : Net) (server : Server) where
  unfoldable pub with_v6 : ClientRecord → ClientRecord
  with_v6 c =
      if is_empty c.tunnel_ip
      then c
      else record c { tunnel_ipv6 = tunnel_ipv6 n server c.tunnel_ip }

  unfoldable pub clients_with_v6 : List ClientRecord → List ClientRecord
  unfolding with_v6
  clients_with_v6 [] = []
  clients_with_v6 (c ∷ cs) = with_v6 c ∷ clients_with_v6 cs

  unfoldable pub members_with_v6 : List MemberAclEntry → List MemberAclEntry
  unfolding clients_with_v6
  members_with_v6 [] = []
  members_with_v6 (m ∷ ms) = record m { clients = clients_with_v6 m.clients } ∷ members_with_v6 ms
