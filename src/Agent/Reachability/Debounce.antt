-- ===== src/Agent/Reachability/Debounce.antt =====
-- `reportTransport` of internal/agent/agent.go: when a lost path is reported, and that a recovered one is
-- reported at once.
use atreo_agent.Base.{
  ℕ, zero, suc, ◌≤◌, Bool, true, false, leb, List, [], ◌∷◌, ◌++◌, ◌≡◌, ◌⊎◌, inl, inr, refl, ap,
  subst, ◌∙◌, arith, if◌then◌else◌,
}
use atreo_agent.Agent.Reachability.{
  TransportState, transport_unknown, transport_direct, transport_relay, is_relay,
  transport_report_decision, Reporter, new_reporter, Tick, observe, advance, tick, run,
}

-- The number of ticks at the end of a list that need the relay, the earlier ones counted before.
streak : ℕ → List Tick → ℕ
streak n [] = n
streak n (t ∷ ts) = streak (if t.relay_needed then suc n else 0) ts

advance-streak :
    (s : TransportState) (sent : Bool) (r : Reporter)
    → (advance s sent r).relay_streak ≡ r.relay_streak
advance-streak transport_unknown sent r = refl
advance-streak transport_direct true r = refl
advance-streak transport_direct false r = refl
advance-streak transport_relay true r = refl
advance-streak transport_relay false r = refl

run-streak : (ts : List Tick) (r : Reporter) → (run ts r).relay_streak ≡ streak r.relay_streak ts
unfolding run tick observe streak
run-streak [] r = refl
run-streak (t ∷ ts) r =
    run-streak ts (tick t r).0
    ∙ ap (λ n. streak n ts) (advance-streak _ t.sent (observe t.relay_needed r))

streak-append :
    (n : ℕ) (ts : List Tick) (t : Tick)
    → streak n (ts ++ t ∷ []) ≡ (if t.relay_needed then suc (streak n ts) else 0)
unfolding streak
streak-append n [] t = refl
streak-append n (s ∷ ts) t = streak-append (if s.relay_needed then suc n else 0) ts t

no_report : transport_unknown ≡ transport_relay → ⊥
no_report e = cc

other_report : transport_direct ≡ transport_relay → ⊥
other_report e = cc

long_enough :
    (n : ℕ)
    → (if leb 2 (suc n) then transport_relay else transport_unknown) ≡ transport_relay
    → 1 ≤ n
long_enough zero h = absurd (no_report h)
long_enough (suc n) h = omega arith

relay_report :
    (relay sent : Bool) (last : TransportState) (n : ℕ)
    → (tick
        (record { relay_needed = relay; sent = sent })
        (record { last = last; relay_streak = n })).1
      ≡ transport_relay
    → (relay ≡ true) × (1 ≤ n) × (is_relay last ≡ false)
unfolding tick observe transport_report_decision
relay_report true sent transport_unknown n h = (refl, long_enough n h, refl)
relay_report true sent transport_direct n h = (refl, long_enough n h, refl)
relay_report true sent transport_relay n h = absurd (no_report h)
relay_report false sent transport_unknown n h = absurd (other_report h)
relay_report false sent transport_direct n h = absurd (no_report h)
relay_report false sent transport_relay n h = absurd (other_report h)

snoc-cases : (ts : List Tick) → (ts ≡ []) ⊎ ((us : List Tick) × (t : Tick) × (ts ≡ us ++ t ∷ []))
snoc-cases [] = inl refl
snoc-cases (t ∷ ts) = elim (snoc-cases ts) [
  | inl blank ↦ inr ([], t, rw blank refl)
  | inr (us, last, parts) ↦ inr (t ∷ us, last, rw parts refl)
]

-- A run that is not empty ends with a tick that needs the relay.
last_needed : (relay : Bool) (n : ℕ) → 1 ≤ (if relay then suc n else 0) → relay ≡ true
last_needed true n h = refl
last_needed false n h = absurd (omega arith)

no_streak : 1 ≤ streak 0 [] → ⊥
unfolding streak
no_streak h = omega arith

-- Ticks of which the last one needs the relay.
pub record EndsNeeded (ticks : List Tick) : Type 0 where
  pub earlier : List Tick
  pub latest : Tick
  pub parts : ticks ≡ earlier ++ latest ∷ []
  pub needed : latest.relay_needed ≡ true

streak-EndsNeeded : (ticks : List Tick) → 1 ≤ streak 0 ticks → EndsNeeded ticks
streak-EndsNeeded ticks long = elim (snoc-cases ticks) [
  | inl blank ↦ absurd (no_streak (subst (λ ts. 1 ≤ streak 0 ts) blank long))
  | inr (ts, t, parts) ↦ record {
    earlier = ts;
    latest = t;
    parts = parts;
    needed =
        last_needed t.relay_needed (streak 0 ts)
          (subst (λ n. 1 ≤ n) (streak-append 0 ts t) (subst (λ us. 1 ≤ streak 0 us) parts long));
  }
]

-- After the loop has started, the loss of the direct path is reported only at a tick that needs the
-- relay, and only if the tick right before it needed the relay too, so never at the first tick; and
-- the last state that was sent is not the relay.
pub report_relay_twice :
    (ticks : List Tick) (t : Tick)
    → (tick t (run ticks new_reporter)).1 ≡ transport_relay
    → EndsNeeded ticks × (t.relay_needed ≡ true) × (is_relay (run ticks new_reporter).last ≡ false)
report_relay_twice ticks t h =
    let r = run ticks new_reporter in
    let (needed, long, other) = relay_report t.relay_needed t.sent r.last r.relay_streak h in
    (
      streak-EndsNeeded ticks (subst (λ n. 1 ≤ n) (run-streak ticks new_reporter) long),
      needed,
      other,
    )

direct_sent :
    (last : TransportState) (n : ℕ)
    → (tick
        (record { relay_needed = false; sent = true })
        (record { last = last; relay_streak = n })).0.last
      ≡ transport_direct
unfolding tick observe transport_report_decision
direct_sent transport_unknown n = refl
direct_sent transport_direct n = refl
direct_sent transport_relay n = refl

two : (n : ℕ) → leb 2 (suc (suc n)) ≡ true
two n = ground arith

relay_sent :
    (last : TransportState) (n : ℕ)
    → (run
        (record { relay_needed = true; sent = true }
          ∷ record { relay_needed = true; sent = true }
          ∷ [])
        (record { last = last; relay_streak = n })).last
      ≡ transport_relay
unfolding run tick observe transport_report_decision
relay_sent transport_unknown zero = refl
relay_sent transport_unknown (suc n) = rw (two n) refl
relay_sent transport_direct zero = refl
relay_sent transport_direct (suc n) = rw (two n) refl
relay_sent transport_relay n = refl

-- From any state, one tick with a direct path whose report would arrive leaves the direct path as the last
-- state sent, and two such ticks that need the relay leave the relay.
pub run-settles :
    (r : Reporter)
    → ((tick (record { relay_needed = false; sent = true }) r).0.last ≡ transport_direct)
      × ((run
            (record { relay_needed = true; sent = true }
              ∷ record { relay_needed = true; sent = true }
              ∷ [])
            r).last
          ≡ transport_relay)
run-settles r = (direct_sent r.last r.relay_streak, relay_sent r.last r.relay_streak)
