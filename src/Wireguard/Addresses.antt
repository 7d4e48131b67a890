-- ===== src/Wireguard/Addresses.antt =====
-- internal/wireguard/server.go: the checks of a key and of an address, and the IPv6 address of a client. Package
-- net of Go is a parameter.
use atreo_agent.Base.{
  ℕ, Bool, true, false, not, Text, lit, is_empty, has_prefix, eqb, ltb, length, take, get_elem?, [],
  ◌∷◌, ◌++◌, Option, none, some, if◌then◌else◌,
}
use atreo_agent.Base.Result.{Result, ◌>>=◌, require, need}
use atreo_agent.Base.Base64.{decode}

-- `net.ParseIP`, `net.IP.To4`, `To16` and `String`, and the number of leading ones of the mask that
-- `net.ParseCIDR` gives.
pub record Net : Type 0 where
  pub parse_ip : Text → Option Text
  pub to4 : Text → Option Text
  pub to16 : Text → Text
  pub ip_string : Text → Text
  pub mask_ones : Text → Option ℕ

pub data KeyError : Type 0 where
  empty_key flag_injection not_base64 wrong_key_size : KeyError

-- `validateWGPublicKey`
unfoldable pub validate_wg_public_key : Text → Result {0, 0} KeyError Unit
validate_wg_public_key s = do
  _ ← require (not (is_empty s)) empty_key
  _ ← require (not (has_prefix s (lit "-"))) flag_injection
  b ← need (decode s) not_base64
  require (eqb (length b) 32) wrong_key_size

-- `none` in place of the four bytes is an error.
unfoldable pub v4_of : Net → Text → Option Text
v4_of n s = elim (n.parse_ip s) [ none ↦ none | some ip ↦ n.to4 ip ]

-- The sixteen bytes of an address that is no IPv4 address.
unfoldable pub v6_of : Net → Text → Option Text
v6_of n s = elim (n.parse_ip s) [
  | none ↦ none
  | some ip ↦ elim (n.to4 ip) [ none ↦ some (n.to16 ip) | some four ↦ none ]
]

abbrev is_some : Option Text → Bool
is_some none = false
is_some (some x) = true

unfoldable pub validate_tunnel_ipv4 : Net → Text → Bool
unfolding v4_of
validate_tunnel_ipv4 n s = is_some (v4_of n s)

unfoldable pub validate_tunnel_ipv6 : Net → Text → Bool
unfolding v6_of
validate_tunnel_ipv6 n s = is_some (v6_of n s)

-- The bytes of the server's address, with the last one that of the client.
unfoldable pub join_host : Net → Text → Option ℕ → Option Text
join_host n base none = none
join_host n base (some octet) = some (n.ip_string (take 15 base ++ octet ∷ []))

unfoldable pub derive_tunnel_ipv6 : Net → Text → Text → Option Text
unfolding v4_of v6_of join_host
derive_tunnel_ipv6 n server_ipv6 tunnel_ipv4 = elim (v4_of n tunnel_ipv4) [
  | none ↦ none
  | some four ↦ elim (v6_of n server_ipv6) [
    | none ↦ none
    | some base ↦ join_host n base (get_elem? four 3)
  ]
]

unfoldable pub v6_prefix_len : Net → Text → ℕ
v6_prefix_len n subnet = elim (n.mask_ones subnet) [
  | none ↦ 64
  | some ones ↦ if ltb 0 ones then ones else 64
]
