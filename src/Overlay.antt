-- ===== src/Overlay.antt =====
-- internal/overlay/overlay.go: the subnets of one installation. Package net of Go is a parameter, as are
-- the random draws, the clock and encoding/json; `atomic.WriteFile` either writes the file or leaves it.
pub mod Legacy
pub mod Draw
mod Tests
use atreo_agent.Base.{
  ℕ, zero, suc, ◌+◌, ◌-◌, ◌/◌, ◌%◌, Bool, true, false, not, ◌&&◌, Text, lit, is_empty, ◌==◌, eqb,
  decimal, length, take, get_elem?, List, [], ◌∷◌, ◌++◌, Option, none, some, if◌then◌else◌,
}
use atreo_agent.Base.Result.{Result, ok, failed, ◌>>=◌, require, need}

abbrev pub base : Text
base = lit "100.64.0.0/10"

abbrev pub legacy_subnet_v4 : Text
legacy_subnet_v4 = lit "100.64.0.0/24"

abbrev pub legacy_gateway_v4 : Text
legacy_gateway_v4 = lit "100.64.0.1"

abbrev pub legacy_gateway_v6 : Text
legacy_gateway_v6 = lit "fd00:64::1"

abbrev pub subnet_count : ℕ
subnet_count = 16384

-- `rolled_at` is in nanoseconds.
pub record Overlay : Type 0 where
  pub subnet_v4 : Text
  pub gateway_v4 : Text
  pub subnet_v6 : Text
  pub gateway_v6 : Text
  pub rolled_at : ℕ

-- What `net.ParseCIDR` gives: the address as written, the network's address and the length of its mask.
pub record Cidr : Type 0 where
  pub ip : Text
  pub network : Text
  pub ones : ℕ

-- `String` of an address and of a network, `To4` and `Contains`.
pub record Net : Type 0 where
  pub parse_cidr : Text → Option Cidr
  pub ip_string : Text → Text
  pub net_string : Text → ℕ → Text
  pub to4 : Text → Option Text
  pub contains : Cidr → Text → Bool

pub data OverlayError : Type 0 where
  base_unparsed subnet_unparsed not_a_24 not_canonical outside_base wrong_gateway : OverlayError
  not_ipv4 wrong_subnet_v6 wrong_gateway_v6 bad_json unreadable not_found : OverlayError
  no_randomness not_saved : OverlayError

-- `byte(b64>>8), byte(b64)`
unfoldable pub two_bytes : ℕ → Text
two_bytes n = n / 256 % 256 ∷ n % 256 ∷ []

abbrev zeros : Text
zeros = 0 ∷ 0 ∷ 0 ∷ 0 ∷ 0 ∷ 0 ∷ 0 ∷ []

unfoldable pub v6_prefix : ℕ → ℕ → Text
unfolding two_bytes
v6_prefix b64 third = (0xfd ∷ 0 ∷ 0 ∷ 0x64 ∷ []) ++ two_bytes b64 ++ two_bytes third ++ zeros

-- `copy(gw, ip); gw[len-1] = 1`
unfoldable pub with_host_one : Text → Text
with_host_one ip = take (length ip - 1) ip ++ 1 ∷ []

unfoldable pub dotted : ℕ → ℕ → Text → Text
dotted second third rest = lit "100." ++ decimal second ++ b'.' ∷ decimal third ++ b'.' ∷ rest

module _ (n : Net) where
  -- `v6At`; the numbers are those of an index below 2^14 or of two bytes.
  unfoldable pub v6_at : ℕ → ℕ → Text × Text
  unfolding v6_prefix
  v6_at b64 third =
      (n.net_string (v6_prefix b64 third ++ 0 ∷ []) 64, n.ip_string (v6_prefix b64 third ++ 1 ∷ []))

  unfoldable pub subnet_at : ℕ → ℕ → Overlay
  unfolding v6_at dotted
  subnet_at now idx = record {
    subnet_v4 = dotted (64 + idx / 256) (idx % 256) (lit "0/24");
    gateway_v4 = dotted (64 + idx / 256) (idx % 256) (lit "1");
    subnet_v6 = (v6_at (idx / 256) (idx % 256)).0;
    gateway_v6 = (v6_at (idx / 256) (idx % 256)).1;
    rolled_at = now;
  }

  -- The second and the third byte; `int64(ip4[1])-64` as a 16-bit word, of which both bytes are read.
  unfoldable pub v6_of_bytes : Text → Option (Text × Text)
  unfolding v6_at
  v6_of_bytes (a ∷ b ∷ c ∷ rest) = some (v6_at ((b + 65536 - 64) % 65536) c)
  v6_of_bytes _ = none

  unfoldable pub v6_from_v4 : Text → Result OverlayError (Text × Text)
  unfolding v6_of_bytes
  v6_from_v4 subnet = do
    cidr ← need (n.parse_cidr subnet) subnet_unparsed
    ip4 ← need (n.to4 cidr.network) not_ipv4
    need (v6_of_bytes ip4) not_ipv4

  unfoldable pub gateway_of : Text → Option Text
  unfolding with_host_one
  gateway_of subnet = elim (n.parse_cidr subnet) [
    | none ↦ none
    | some cidr ↦ some (n.ip_string (with_host_one cidr.network))
  ]

  -- `want, _ := gatewayOf(...)`
  unfoldable pub gateway_or_blank : Text → Text
  unfolding gateway_of
  gateway_or_blank subnet = elim (gateway_of subnet) [ none ↦ [] | some g ↦ g ]

  unfoldable pub validate : Overlay → Result {0, 0} OverlayError Unit
  validate o = do
    range ← need (n.parse_cidr base) base_unparsed
    cidr ← need (n.parse_cidr o.subnet_v4) subnet_unparsed
    _ ← require (eqb cidr.ones 24) not_a_24
    _ ← require (o.subnet_v4 == n.net_string cidr.network cidr.ones) not_canonical
    _ ← require (n.contains range cidr.ip) outside_base
    _ ← require (o.gateway_v4 == gateway_or_blank o.subnet_v4) wrong_gateway
    want ← v6_from_v4 o.subnet_v4
    _ ← require (o.subnet_v6 == want.0) wrong_subnet_v6
    require (o.gateway_v6 == want.1) wrong_gateway_v6

  -- `parseAndMigrate` on what the file decodes to; the flag is `migrated`.
  unfoldable pub parse_and_migrate : Option Overlay → Result OverlayError (Overlay × Bool)
  parse_and_migrate decoded = do
    o ← need decoded bad_json
    let old = is_empty o.subnet_v6 && is_empty o.gateway_v6
    pair ← if old then v6_from_v4 o.subnet_v4 else ok (o.subnet_v6, o.gateway_v6)
    let o' = record o { subnet_v6 = pair.0; gateway_v6 = pair.1 }
    _ ← validate o'
    ok (o', old)

-- The file as it is found: what its content decodes to, `none` for content that is no JSON.
pub data File : Type 0 where
  missing broken : File
  holds : Option Overlay → File

-- `rand.Int` below 2^14, one draw after the other; `none` is a failed read. The list is as long as
-- the draws that are made: a longer run of zeros is `no_randomness`.
unfoldable pub derive : Net → ℕ → List (Option ℕ) → Result OverlayError (Overlay × List (Option ℕ))
derive n now [] = failed no_randomness
derive n now (none ∷ draws) = failed no_randomness
derive n now (some idx ∷ draws) =
    let again = derive n now draws in if eqb idx 0 then again else ok (subnet_at n now idx, draws)

unfoldable pub load : Net → File → Result OverlayError Overlay
load n missing = failed not_found
load n broken = failed unreadable
load n (holds decoded) = do o ← parse_and_migrate n decoded; ok o.0

-- The file afterwards and the result; `saves` tells whether the write works.
unfoldable pub created :
    Bool → Result OverlayError (Overlay × List (Option ℕ)) → File × Result OverlayError Overlay
created saves (failed e) = (missing, failed e)
created false (ok (o, draws)) = (missing, failed not_saved)
created true (ok (o, draws)) = (holds (some o), ok o)

unfoldable pub kept :
    Bool → File → Result OverlayError (Overlay × Bool) → File × Result OverlayError Overlay
kept saves file (failed e) = (file, failed e)
kept saves file (ok (o, migrated)) = ((if migrated && saves then holds (some o) else file), ok o)

unfoldable pub load_or_create :
    Net → Bool → ℕ → List (Option ℕ) → File → File × Result OverlayError Overlay
unfolding created kept
load_or_create n saves now draws missing = created saves (derive n now draws)
load_or_create n saves now draws broken = (broken, failed unreadable)
load_or_create n saves now draws (holds decoded) =
    kept saves (holds decoded) (parse_and_migrate n decoded)

-- The loop of `Reroll`, with fuel for its rounds.
unfoldable pub reroll_loop : ℕ → Net → ℕ → Text → List (Option ℕ) → Result OverlayError Overlay
reroll_loop zero n now current draws = failed no_randomness
reroll_loop (suc fuel) n now current draws = elim (derive n now draws) [
  | failed e ↦ failed e
  | ok (next, rest) ↦
      let again = reroll_loop fuel n now current rest in
      if next.subnet_v4 == current then again else ok next
]

unfoldable pub saved :
    Bool → File → Result OverlayError Overlay → File × Result OverlayError Overlay
saved saves file (failed e) = (file, failed e)
saved false file (ok o) = (file, failed not_saved)
saved true file (ok o) = (holds (some o), ok o)

-- `Reroll`; there are not more rounds than draws.
unfoldable pub reroll : Net → Bool → ℕ → List (Option ℕ) → File → File × Result OverlayError Overlay
unfolding load reroll_loop saved
reroll n saves now draws file = elim (load n file) [
  | failed e ↦ (file, failed e)
  | ok current ↦ saved saves file (reroll_loop (suc (length draws)) n now current.subnet_v4 draws)
]
