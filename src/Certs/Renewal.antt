-- ===== src/Certs/Renewal.antt =====
-- internal/certs/manager.go: the daily renewal, and when the owner is told that it keeps failing. Times are
-- nanoseconds, the zero time is `none`; the state file, which is written without a check, is left out.
use atreo_agent.Base.{
  ℕ, suc, ◌+◌, ◌*◌, ◌<◌, Bool, true, not, ◌&&◌, ◌||◌, Text, List, [], ◌∷◌, ◌++◌, Option, none, some,
  Map, lookup, insert, leb, ltb, ◌≡◌, ◌⊎◌, subst, arith, Bool-cases, inl, inr, if◌then◌else◌,
}
use atreo_agent.Atreolink.{Unicode}
use atreo_agent.Certs.{Registry, Issuing, suffixes, ensure_cert}

abbrev pub renewal_alert_threshold : ℕ
renewal_alert_threshold = 3

abbrev pub renewal_alert_cooldown : ℕ
renewal_alert_cooldown = 24 * 3600 * 1_000_000_000

pub record RenewalState : Type 0 where
  pub consecutive_failures : ℕ
  pub last_attempt : Option ℕ
  pub last_success : Option ℕ
  pub last_notification : Option ℕ

abbrev pub fresh_state : RenewalState
fresh_state = record {
  consecutive_failures = 0;
  last_attempt = none;
  last_success = none;
  last_notification = none;
}

unfoldable pub state_of : Text → Map RenewalState → RenewalState
state_of suffix m = elim (lookup suffix m) [ none ↦ fresh_state | some st ↦ st ]

-- `time.Since(t) > renewalAlertCooldown`
unfoldable pub cooled : ℕ → Option ℕ → Bool
cooled now none = true
cooled now (some t) = ltb (t + renewal_alert_cooldown) now

-- What one failure does to the state of its suffix; the number is told to the owner.
unfoldable pub failure : Bool → ℕ → RenewalState → RenewalState × Option ℕ
unfolding cooled
failure notifies now st =
    let n = suc st.consecutive_failures in
    let failed = record st { consecutive_failures = n; last_attempt = some now } in
    if leb renewal_alert_threshold n && cooled now st.last_notification && notifies
    then (record failed { last_notification = some now }, some n)
    else (failed, none)

unfoldable pub success : ℕ → RenewalState → RenewalState
success now st = record st {
  consecutive_failures = 0;
  last_attempt = some now;
  last_success = some now;
}

-- `recordRenewalFailure`
unfoldable pub record_renewal_failure :
    Bool → Text → ℕ → Map RenewalState → Map RenewalState × Option ℕ
unfolding failure state_of
record_renewal_failure notifies suffix now m =
    let (st, told) = failure notifies now (state_of suffix m) in (insert suffix st m, told)

-- `recordRenewalSuccess`
unfoldable pub record_renewal_success : Text → ℕ → Map RenewalState → Map RenewalState
unfolding success state_of
record_renewal_success suffix now m = insert suffix (success now (state_of suffix m)) m

-- The registry, the renewal states, and who has been told of how many failures.
pub record Manager : Type 0 where
  pub registry : Registry
  pub states : Map RenewalState
  pub told : List (Text × ℕ)

unfoldable pub noted : Text → Option ℕ → List (Text × ℕ) → List (Text × ℕ)
noted suffix none told = told
noted suffix (some n) told = told ++ (suffix, n) ∷ []

module _ (u : Unicode) (equal_fold : Text → Text → Bool) (w : Issuing) (notifies : Bool)
    (now : ℕ) where
  -- One round of `renewAll`.
  unfoldable pub renew : Text → Manager → Manager
  unfolding record_renewal_failure record_renewal_success noted
  renew suffix m =
      let (r, good) = ensure_cert u equal_fold w suffix m.registry in
      let (states, told) = record_renewal_failure notifies suffix now m.states in
      if not (w.paths suffix) || w.is_valid suffix
      then m
      else if good
      then record m { registry = r; states = record_renewal_success suffix now m.states }
      else record m { registry = r; states = states; told = noted suffix told m.told }

  unfoldable pub renew_each : List Text → Manager → Manager
  unfolding renew
  renew_each [] m = m
  renew_each (suffix ∷ more) m = renew_each more (renew suffix m)

  unfoldable pub renew_all : Manager → Manager
  unfolding renew_each
  renew_all m = renew_each (suffixes m.registry) m

-- The attempts at one suffix, and the times at which the owner was told.
pub data Attempt : Type 0 where
  failed_at succeeded_at : ℕ → Attempt

unfoldable pub alert : ℕ → Option ℕ → List ℕ → List ℕ
alert now none times = times
alert now (some n) times = now ∷ times

unfoldable pub alerts : List Attempt → RenewalState → List ℕ
unfolding alert failure success
alerts [] st = []
alerts (succeeded_at now ∷ more) st = alerts more (success now st)
alerts (failed_at now ∷ more) st =
    alert now (failure true now st).1 (alerts more (failure true now st).0)

-- Each time is more than the cooldown after the one before it.
abbrev pub SpacedAfter : Option ℕ → List ℕ → Type 0
SpacedAfter before [] = Unit
SpacedAfter none (t ∷ ts) = SpacedAfter (some t) ts
SpacedAfter (some before) (t ∷ ts) = (before + renewal_alert_cooldown < t) × SpacedAfter (some t) ts

failure-cases :
    (now : ℕ) (st : RenewalState)
    → ((failure true now st).1 ≡ none)
        × ((failure true now st).0.last_notification ≡ st.last_notification)
      ⊎ ((cooled now st.last_notification ≡ true)
          × ((n : ℕ) × ((failure true now st).1 ≡ some n))
          × ((failure true now st).0.last_notification ≡ some now))
unfolding failure
failure-cases now st =
    elim (Bool-cases (
      leb renewal_alert_threshold (suc st.consecutive_failures)
      && cooled now st.last_notification
      && true)) [
        | inl tell ↦
            inr
              (ground arith, (suc st.consecutive_failures, rw (tell, failure)), rw (tell, failure))
        | inr quiet ↦ inl (rw (quiet, failure), rw (quiet, failure))
      ]

space :
    (before : Option ℕ) (t : ℕ) (ts : List ℕ)
    → cooled t before ≡ true
    → SpacedAfter (some t) ts
    → SpacedAfter before (t ∷ ts)
unfolding cooled
space none t ts c h = h
space (some b) t ts c h = (ground arith, h)

-- Whatever the attempts at a suffix and their times, the times at which the owner is told lie more
-- than the cooldown of a day apart, the first one also from the notification on record.
pub alerts-SpacedAfter :
    (attempts : List Attempt) (st : RenewalState)
    → SpacedAfter st.last_notification (alerts attempts st)
unfolding alerts success
alerts-SpacedAfter [] st = tt
alerts-SpacedAfter (succeeded_at now ∷ more) st = alerts-SpacedAfter more (success now st)
alerts-SpacedAfter (failed_at now ∷ more) st =
    let later = alerts-SpacedAfter more (failure true now st).0 in
    elim (failure-cases now st) [
      | inl (untold, same) ↦
          rw untold (subst (λ x. SpacedAfter x (alerts more (failure true now st).0)) same later)
      | inr (cool, (n, told), new) ↦ rw told (
          space st.last_notification now (alerts more (failure true now st).0) cool
            (subst (λ x. SpacedAfter x (alerts more (failure true now st).0)) new later))
    ]
