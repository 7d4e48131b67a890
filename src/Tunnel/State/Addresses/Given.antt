-- ===== src/Tunnel/State/Addresses/Given.antt =====
-- internal/tunnel/devicestate.go: what the loops that give the addresses keep of the allocator and of the clients.
use atreo_agent.Base.{
  Text, is_empty, List, [], ◌∷◌, Option, none, some, Map, All, OnSome, ◌≡◌, refl, sym, subst,
  Bool-cases, Option-cases, inl, inr,
}
use atreo_agent.Atreolink.{ClientRecord}
use atreo_agent.Wireguard.Allocator.{IpAllocator, lookup_ip, try_adopt, allocate}
use atreo_agent.Wireguard.Allocator.Unique.{IsValid}
use atreo_agent.Wireguard.Allocator.History.{allocates, adopts, step, step-IsValid}
use atreo_agent.Wireguard.Addresses.{Net}
use atreo_agent.Wireguard.Server.{Server}
use atreo_agent.Tunnel.State.Addresses.{
  leased, allocate_client, adopt_client, address_client, cons_client, address_clients, with_v6,
  clients_with_v6,
}

allocate-IsValid : (key : Text) (a : IpAllocator) → IsValid a → IsValid (allocate key a).0
unfolding step
allocate-IsValid key a v = step-IsValid a v (allocates key)

try_adopt-IsValid : (key ip : Text) (a : IpAllocator) → IsValid a → IsValid (try_adopt key ip a).0
unfolding step
try_adopt-IsValid key ip a v = step-IsValid a v (adopts key ip)

-- The allocator stays valid, and the client keeps its key.
abbrev pub Addressed : Text → IpAllocator × Option ClientRecord → Type 0
Addressed key r = IsValid r.0 × OnSome (λ c. c.wg_public_key ≡ key) r.1

allocate_client-Addressed :
    (c : ClientRecord) (a : IpAllocator)
    → IsValid a
    → Addressed c.wg_public_key (allocate_client c a)
unfolding allocate_client
allocate_client-Addressed c a v =
    let v' = allocate-IsValid c.wg_public_key a v in
    elim (Option-cases (allocate c.wg_public_key a).1) [
      | inl full ↦ rw (full, allocate_client) (v', tt)
      | inr (ip, e) ↦ rw (e, allocate_client) (v', refl)
    ]

adopt_client-Addressed :
    (lip : Text) (c : ClientRecord) (a : IpAllocator)
    → IsValid a
    → Addressed c.wg_public_key (adopt_client lip c a)
unfolding adopt_client
adopt_client-Addressed lip c a v =
    let v' = try_adopt-IsValid c.wg_public_key lip a v in
    elim (Bool-cases (is_empty lip)) [
      | inl blank ↦ rw (blank, adopt_client) (allocate_client-Addressed c a v)
      | inr given ↦ elim (Bool-cases (try_adopt c.wg_public_key lip a).1) [
        | inl adopted ↦ rw (given, adopted, adopt_client) (v', refl)
        | inr taken ↦
            rw (given, taken, adopt_client)
              (allocate_client-Addressed c (try_adopt c.wg_public_key lip a).0 v')
      ]
    ]

address_client-Addressed :
    (leases : Map Text) (c : ClientRecord) (a : IpAllocator)
    → IsValid a
    → Addressed c.wg_public_key (address_client leases c a)
unfolding address_client
address_client-Addressed leases c a v = elim (Bool-cases (is_empty c.wg_public_key)) [
  | inl keyless ↦ rw (keyless, address_client) (v, refl)
  | inr keyed ↦ elim (Bool-cases (is_empty (lookup_ip c.wg_public_key a))) [
    | inr held ↦ rw (keyed, held, address_client) (v, refl)
    | inl new ↦
        rw (keyed, new, address_client)
          (adopt_client-Addressed (leased c.wg_public_key leases) c a v)
  ]
]

-- Whatever holds of the clients by their keys holds of them with their addresses.
module _ (Q : Text → Type 0) where
  abbrev pub ByKey : List ClientRecord → Type 0
  ByKey = All (λ c. Q c.wg_public_key)

  cons_client-ByKey :
      (c : ClientRecord) (r : IpAllocator × Option (List ClientRecord))
      → Q c.wg_public_key
      → IsValid r.0 × OnSome ByKey r.1
      → IsValid (cons_client c r).0 × OnSome ByKey (cons_client c r).1
  unfolding cons_client
  cons_client-ByKey c (a, none) q h = h
  cons_client-ByKey c (a, some cs) q h = (h.0, (q, h.1))

  pub address_clients-ByKey :
      (leases : Map Text) (cs : List ClientRecord) (a : IpAllocator)
      → IsValid a
      → ByKey cs
      → IsValid (address_clients leases cs a).0 × OnSome ByKey (address_clients leases cs a).1
  unfolding address_clients
  address_clients-ByKey leases [] a v h = (v, tt)
  address_clients-ByKey leases (c ∷ cs) a v h =
      let one = address_client-Addressed leases c a v in
      elim (Option-cases (address_client leases c a).1) [
        | inl full ↦ rw (full, address_clients) (one.0, tt)
        | inr (c', e) ↦
            rw (e, address_clients)
              (cons_client-ByKey c' (address_clients leases cs (address_client leases c a).0)
                (subst Q (sym (rw e at one.1)) h.0)
                (address_clients-ByKey leases cs (address_client leases c a).0 one.0 h.1))
      ]

  pub clients_with_v6-ByKey :
      (n : Net) (server : Server) (cs : List ClientRecord)
      → ByKey cs
      → ByKey (clients_with_v6 n server cs)
  unfolding clients_with_v6 with_v6
  clients_with_v6-ByKey n server [] h = tt
  clients_with_v6-ByKey n server (c ∷ cs) h = (
    elim (Bool-cases (is_empty c.tunnel_ip)) [
      | inl none_yet ↦ rw none_yet h.0
      | inr given ↦ rw given h.0
    ],
    clients_with_v6-ByKey n server cs h.1,
  )
