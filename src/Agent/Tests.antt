-- ===== src/Agent/Tests.antt =====
-- The theorems on `reportTransport` of internal/agent/agent.go at one history.
use atreo_agent.Base.{true, false, [], ◌∷◌, ◌≡◌, refl}
use atreo_agent.Agent.Reachability.{
  transport_direct, transport_relay, is_relay, new_reporter, Tick, tick, run, observe,
  transport_report_decision,
}
use atreo_agent.Agent.Reachability.Debounce.{EndsNeeded, report_relay_twice, run-settles}

abbrev direct : Tick
direct = record { relay_needed = false; sent = true }

abbrev lost : Tick
lost = record { relay_needed = true; sent = true }

reported : (tick lost (run (direct ∷ lost ∷ []) new_reporter)).1 ≡ transport_relay
unfolding tick run observe transport_report_decision
reported = refl

report_relay_twice_example :
    EndsNeeded (direct ∷ lost ∷ [])
    × (lost.relay_needed ≡ true)
    × (is_relay (run (direct ∷ lost ∷ []) new_reporter).last ≡ false)
report_relay_twice_example = report_relay_twice (direct ∷ lost ∷ []) lost reported

run-settles_example :
    ((tick direct (record { last = transport_relay; relay_streak = 3 })).0.last ≡ transport_direct)
    × ((run (lost ∷ lost ∷ []) (record { last = transport_relay; relay_streak = 3 })).last
        ≡ transport_relay)
run-settles_example = run-settles (record { last = transport_relay; relay_streak = 3 })
