-- ===== src/Tunnel/Verify/Fresh.antt =====
-- The freshness test of `verifyCommand` in internal/tunnel/verify.go, with the 64-bit arithmetic it has.
use atreo_agent.Base.{ℕ, ◌+◌, ◌^◌, ◌≤◌, ◌<◌, true, ◌≡◌, ◌⊎◌, ◌↔◌, arith}
use atreo_agent.Tunnel.Verify.{is_negative, negated, skew, is_fresh}

-- With the clock between two minutes past 1970 and two minutes before the end of the int64 range,
-- a timestamp passes exactly when it is at most 120 s away from the clock, or is the one value
-- whose distance overflows: the clock minus 2^63.
pub is_fresh-exact :
    (now ts : ℕ)
    → 120 ≤ now
    → now + 120 < 2 ^ 63
    → ts < 2 ^ 64
    → (is_fresh now ts ≡ true) ↔ (((now ≤ ts + 120) × (ts ≤ now + 120)) ⊎ (ts ≡ now + 2 ^ 63))
unfolding is_fresh skew is_negative negated
is_fresh-exact now ts low high word = ground arith
