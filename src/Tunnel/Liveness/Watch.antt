-- ===== src/Tunnel/Liveness/Watch.antt =====
-- The liveness watch of internal/tunnel/devicestate.go along any history of marks and checks.
use atreo_agent.Base.{
  ℕ, ◌+◌, ◌≤◌, Bool, true, false, ◌||◌, ltb, List, [], ◌∷◌, Option, none, some, ◌≡◌, refl, ◌⊎◌,
  arith, inl, inr, Bool-cases,
}
use atreo_agent.Tunnel.Liveness.{
  LivenessState, booted, mark_liveness, older_than, or_else, is_recent, is_stale, tripping,
  check_liveness, stale_bound, cold_start_timeout,
}

pub data Event : Type 0 where
  marks : Bool → ℕ → Event
  checks : Option ℕ → ℕ → Event

unfoldable pub step : Event → LivenessState → LivenessState
step (marks applied now) l = mark_liveness applied now l
step (checks last_applied now) l = (check_liveness last_applied now l).0

unfoldable pub run : List Event → LivenessState → LivenessState
run [] l = l
run (e ∷ es) l = run es (step e l)

-- Once something was applied there is a time of liveness.
abbrev IsValid : LivenessState → Type 0
IsValid l = l.applied_once ≡ true → (t : ℕ) × (l.last_positive_liveness ≡ some t)

or_else-recent :
    (a b : Option ℕ) (now : ℕ) → is_recent now b ≡ true → (t : ℕ) × (or_else a b ≡ some t)
unfolding or_else is_recent
or_else-recent (some t) b now h = (t, refl)
or_else-recent none (some t) now h = (t, refl)
or_else-recent none none now h = cc

abbrev state : ℕ → Bool → Option ℕ → Bool → LivenessState
state boot applied last closed = record {
  boot_at = boot;
  applied_once = applied;
  last_positive_liveness = last;
  fail_closed = closed;
}

-- Why the watch may be open at this time, the store's time of its last apply given: something was applied
-- and the last sign of liveness, or that apply, is at most half an hour old; or nothing was applied yet
-- and the boot is at most 90 seconds ago.
pub record Justified (now : ℕ) (last_applied : Option ℕ) (l : LivenessState) : Type 0 where
  pub reason :
      ((t : ℕ) × (l.applied_once ≡ true)
        × (l.last_positive_liveness ≡ some t)
        × (now ≤ t + stale_bound))
      ⊎ ((is_recent now last_applied ≡ true)
          ⊎ ((l.applied_once ≡ false) × (now ≤ l.boot_at + cold_start_timeout)))

check-IsValid :
    (boot : ℕ) (applied : Bool) (last : Option ℕ) (closed : Bool) (last_applied : Option ℕ)
    (now : ℕ)
    → IsValid (state boot applied last closed)
    → IsValid (check_liveness last_applied now (state boot applied last closed)).0
unfolding check_liveness tripping
check-IsValid boot applied last true last_applied now v = v
check-IsValid boot true last false last_applied now v = λ h. v refl
check-IsValid boot false last false last_applied now v =
    elim (Bool-cases (is_recent now last_applied)) [
      | inl recent ↦ rw recent (λ h. or_else-recent last last_applied now recent)
      | inr old ↦ rw old (λ h. cc)
    ]

step-IsValid : (e : Event) (l : LivenessState) → IsValid l → IsValid (step e l)
unfolding step mark_liveness
step-IsValid (marks applied now) l v = λ h. (now, refl)
step-IsValid (checks last now) l v =
    check-IsValid l.boot_at l.applied_once l.last_positive_liveness l.fail_closed last now v

run-IsValid : (es : List Event) (l : LivenessState) → IsValid l → IsValid (run es l)
unfolding run
run-IsValid [] l v = v
run-IsValid (e ∷ es) l v = run-IsValid es (step e l) (step-IsValid e l v)

open_check :
    (boot : ℕ) (applied : Bool) (last : Option ℕ) (closed : Bool) (last_applied : Option ℕ)
    (now : ℕ)
    → IsValid (state boot applied last closed)
    → (check_liveness last_applied now (state boot applied last closed)).0.fail_closed ≡ false
    → Justified now last_applied (state boot applied last closed)
unfolding check_liveness tripping is_stale older_than or_else
open_check boot applied last true last_applied now v h = cc
open_check boot true none false last_applied now v h = absurd (clash (v refl).1)
  where
    clash : {t : ℕ} → none ≡ some t → ⊥
    clash e = cc
open_check boot true (some t) false last_applied now v h = record {
  reason = inl (t, refl, refl, ground arith);
}
open_check boot false last false last_applied now v h =
    elim (Bool-cases (is_recent now last_applied)) [
      | inl recent ↦ record { reason = inr (inl recent) }
      | inr old ↦ record { reason = inr (inr (refl, within (rw old at h))) }
    ]
  where
    within :
        (ltb (boot + cold_start_timeout) now || false) ≡ false → now ≤ boot + cold_start_timeout
    within g = ground arith

-- Whatever marks and checks came before, a check after which the watch is not fail-closed had a reason:
-- liveness within half an hour, a store applied within half an hour, or nothing applied and a boot
-- within 90 seconds.
pub check_liveness-Justified :
    (boot : ℕ) (es : List Event) (last_applied : Option ℕ) (now : ℕ)
    → (check_liveness last_applied now (run es (booted boot))).0.fail_closed ≡ false
    → Justified now last_applied (run es (booted boot))
check_liveness-Justified boot es last_applied now h =
    let l = run es (booted boot) in
    open_check l.boot_at l.applied_once l.last_positive_liveness l.fail_closed last_applied now
      (run-IsValid es (booted boot) (fresh boot)) h
  where
    fresh : (boot : ℕ) → IsValid (booted boot)
    fresh boot = unfold booted in λ e. cc
