-- ===== src/Agent/Reachability.antt =====
-- internal/agent/reachability.go, and the loop of `reportTransport` in internal/agent/agent.go that reports
-- how the agent is reached: each tick of the loop is one step.
pub mod Debounce
use atreo_agent.Base.{
  ℕ, zero, suc, Bool, true, false, not, ◌&&◌, ◌||◌, Text, is_empty, eqb, leb, List, [], ◌∷◌, Option,
  none, some, if◌then◌else◌,
}

pub data Reach : Type 0 where
  reach_unknown reach_public reach_carrier_nat : Reach

-- net/netip: what `classifyMappedIP` asks of an address, after `Unmap`; `none` is a parse error.
pub record Address : Type 0 where
  pub in_cgnat_range : Bool
  pub is_private : Bool
  pub is_loopback : Bool
  pub is_link_local_unicast : Bool
  pub is_unspecified : Bool

unfoldable pub classify_mapped_ip : (Text → Option Address) → Text → Reach
classify_mapped_ip parse_addr ip = elim (parse_addr ip) [
  | none ↦ reach_unknown
  | some a ↦
      if a.in_cgnat_range || a.is_private
      then reach_carrier_nat
      else if a.is_loopback || (a.is_link_local_unicast || a.is_unspecified)
      then reach_unknown
      else reach_public
]

abbrev pub usable_public : Reach → Bool
usable_public reach_public = true
usable_public _ = false

unfoldable pub relay_wanted : (Text → Option Address) → Text → Text → ℕ → Bool
relay_wanted parse_addr endpoint_ip mapped_ip mapped_port =
    if not (is_empty endpoint_ip)
    then false
    else if eqb mapped_port 0
    then true
    else not (usable_public (classify_mapped_ip parse_addr mapped_ip))

pub data TransportState : Type 0 where
  transport_unknown transport_direct transport_relay : TransportState

abbrev pub is_direct : TransportState → Bool
is_direct transport_direct = true
is_direct _ = false

abbrev pub is_relay : TransportState → Bool
is_relay transport_relay = true
is_relay _ = false

unfoldable pub transport_report_decision : TransportState → TransportState → ℕ → TransportState
transport_report_decision cur last relay_streak =
    if is_direct cur && not (is_direct last)
    then transport_direct
    else if is_relay cur && (not (is_relay last) && leb 2 relay_streak)
    then transport_relay
    else transport_unknown

-- The variables of the loop.
pub record Reporter : Type 0 where
  pub last : TransportState
  pub relay_streak : ℕ

abbrev pub new_reporter : Reporter
new_reporter = record { last = transport_unknown; relay_streak = 0 }

-- What one tick sees: whether the relay is needed, and whether a message sent now arrives.
pub record Tick : Type 0 where
  pub relay_needed : Bool
  pub sent : Bool

unfoldable pub observe : Bool → Reporter → Reporter
observe relay r = record r { relay_streak = if relay then suc r.relay_streak else 0 }

abbrev pub observed : Bool → TransportState
observed true = transport_relay
observed false = transport_direct

-- The last reported state advances only if the message was sent.
abbrev pub advance : TransportState → Bool → Reporter → Reporter
advance transport_unknown sent r = r
advance report true r = record r { last = report }
advance report false r = r

-- One tick: the new state and the report that is sent, if it is not unknown.
unfoldable pub tick : Tick → Reporter → Reporter × TransportState
unfolding observe
tick t r =
    let r' = observe t.relay_needed r in
    let report = transport_report_decision (observed t.relay_needed) r'.last r'.relay_streak in
    (advance report t.sent r', report)

unfoldable pub run : List Tick → Reporter → Reporter
run [] r = r
run (t ∷ ts) r = run ts (tick t r).0
