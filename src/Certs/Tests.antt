-- ===== src/Certs/Tests.antt =====
-- The theorems on internal/certs for one certificate, and for three failures in a row.
use atreo_agent.Base.{
  ℕ, ◌+◌, ◌*◌, List, true, lit, ◌==◌, [], ◌∷◌, none, some, ◌≡◌, refl, has_prefix, lookup, insert,
  any,
}
use atreo_agent.Atreolink.{Unicode}
use atreo_agent.Certs.{
  Certificate, load_suffix, lookup_cert, strip_first_label, get_certificate, normalise_host,
  assert_cert_matches_suffix, names, trim_prefix, trim_dot,
}
use atreo_agent.Certs.Served.{Call, loads, run, step, get_certificate-named}
use atreo_agent.Certs.Renewal.{
  Attempt, failed_at, fresh_state, alerts, alert, failure, cooled, success, SpacedAfter,
  alerts-SpacedAfter,
}

abbrev unicode : Unicode
unicode = record { to_lower = λ s. s; trim_space = λ s. s }

abbrev certificate : Certificate
certificate = record {
  chain = lit "pem";
  leaf = some (record { dns_names = lit "*.nas.io" ∷ []; common_name = [] });
}

abbrev calls : List Call
calls = loads (λ host. some certificate) (lit "nas.io") ∷ []

held :
    lookup_cert unicode
      (strip_first_label (lit "app.nas.io"))
      (run unicode (λ a b. a == b) calls [])
    ≡ some certificate
unfolding lookup_cert strip_first_label run step load_suffix normalise_host
    assert_cert_matches_suffix names trim_prefix trim_dot lookup insert any ◌==◌ has_prefix
held = refl

get_certificate-named_example :
    (get_certificate unicode (some (lit "app.nas.io")) (run unicode (λ a b. a == b) calls [])
      ≡ some certificate)
    × (assert_cert_matches_suffix unicode
          (λ a b. a == b)
          certificate
          (normalise_host unicode (strip_first_label (lit "app.nas.io")))
        ≡ true)
get_certificate-named_example =
    get_certificate-named unicode (λ a b. a == b) calls (lit "app.nas.io") certificate refl held

abbrev day : ℕ
day = 24 * 3600 * 1_000_000_000

abbrev attempts : List Attempt
attempts = failed_at 1 ∷ failed_at 2 ∷ failed_at 3 ∷ failed_at 4 ∷ failed_at (day + 4) ∷ []

-- The owner is told at the third failure and not again before the day has passed.
told : alerts attempts fresh_state ≡ (3 ∷ (day + 4) ∷ [])
unfolding alerts alert failure cooled success
told = refl

alerts-SpacedAfter_example : SpacedAfter none (alerts attempts fresh_state)
alerts-SpacedAfter_example = alerts-SpacedAfter attempts fresh_state
