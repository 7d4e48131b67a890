-- ===== src/Certs/Served.antt =====
-- internal/certs/registry.go: which certificate the registry hands out.
use atreo_agent.Base.{
  Bool, true, false, not, ◌&&◌, ◌||◌, Text, is_empty, ==_iff, List, [], ◌∷◌, Option, none, some,
  lookup, insert, delete, lookup-insert, lookup-delete, ◌≡◌, arith, Bool-cases, Option-cases, inl,
  inr,
}
use atreo_agent.Atreolink.{Unicode}
use atreo_agent.Certs.{
  Registry, Certificate, Files, Issuing, normalise_host, assert_cert_matches_suffix, load_suffix,
  load, add_suffix, remove_suffix, lookup_cert, strip_first_label, get_certificate, ensure_cert,
}

pub data Call : Type 0 where
  loads : Files → Text → Call
  loads_all : Files → List Text → Call
  adds removes : Text → Call
  ensures : Issuing → Text → Call

module _ (u : Unicode) (equal_fold : Text → Text → Bool) where
  unfoldable pub step : Call → Registry → Registry
  step (loads files host) r = (load_suffix u equal_fold files host r).0
  step (loads_all files hosts) r = load u equal_fold files hosts r
  step (adds host) r = add_suffix u equal_fold host r
  step (removes host) r = remove_suffix u equal_fold host r
  step (ensures w host) r = (ensure_cert u equal_fold w host r).0

  unfoldable pub run : List Call → Registry → Registry
  run [] r = r
  run (c ∷ cs) r = run cs (step c r)

  -- Every certificate names the host under which it stands.
  abbrev pub Named : Registry → Type 0
  Named r =
      (host : Text) (cert : Certificate)
      → lookup host r ≡ some (some cert)
      → assert_cert_matches_suffix u equal_fold cert host ≡ true

  insert-Named :
      (r : Registry) (host : Text) (cert : Certificate)
      → Named r
      → assert_cert_matches_suffix u equal_fold cert host ≡ true
      → Named (insert host (some cert) r)
  insert-Named r host cert v good other c held =
      ground (arith, lookup-insert host other (some cert) r, ==_iff host other, v other c)

  reserve-Named : (r : Registry) (host : Text) → Named r → Named (insert host none r)
  reserve-Named r host v other c held = ground (arith, lookup-insert host other none r, v other c)

  delete-Named : (r : Registry) (host : Text) → Named r → Named (delete host r)
  delete-Named r host v other c held = ground (arith, lookup-delete host other r, v other c)

  load_suffix-Named :
      (files : Files) (host : Text) (r : Registry)
      → Named r
      → Named (load_suffix u equal_fold files host r).0
  unfolding load_suffix
  load_suffix-Named files given r v =
      let host = normalise_host u given in
      elim (Bool-cases (is_empty host)) [
        | inl blank ↦ rw (blank, load_suffix) v
        | inr named ↦ elim (Option-cases (files host)) [
          | inl gone ↦ rw (named, gone, load_suffix) v
          | inr (cert, e) ↦ elim (Bool-cases (assert_cert_matches_suffix u equal_fold cert host)) [
            | inl good ↦ rw (named, e, good, load_suffix) (insert-Named r host cert v good)
            | inr bad ↦ rw (named, e, bad, load_suffix) v
          ]
        ]
      ]

  load-Named :
      (files : Files) (hosts : List Text) (r : Registry)
      → Named r
      → Named (load u equal_fold files hosts r)
  unfolding load
  load-Named files [] r v = v
  load-Named files (host ∷ hosts) r v =
      load-Named files hosts (load_suffix u equal_fold files host r).0
        (load_suffix-Named files host r v)

  ensure_cert-Named :
      (w : Issuing) (host : Text) (r : Registry)
      → Named r
      → Named (ensure_cert u equal_fold w host r).0
  unfolding ensure_cert
  ensure_cert-Named w given r v =
      let host = normalise_host u given in
      elim (Bool-cases (is_empty host || not (w.paths host))) [
        | inl out ↦ rw (out, ensure_cert) v
        | inr on ↦
            elim (Bool-cases (w.is_valid host && (load_suffix u equal_fold w.before host r).1)) [
              | inl current ↦ rw (on, current, ensure_cert) (load_suffix-Named w.before host r v)
              | inr due ↦ rw (on, due, ensure_cert) (load_suffix-Named w.after host r v)
            ]
      ]

  step-Named : (c : Call) (r : Registry) → Named r → Named (step c r)
  unfolding step add_suffix remove_suffix
  step-Named (loads files host) r v = load_suffix-Named files host r v
  step-Named (loads_all files hosts) r v = load-Named files hosts r v
  step-Named (adds given) r v =
      let host = normalise_host u given in
      elim (Bool-cases (is_empty host)) [
        | inl blank ↦ rw (blank, add_suffix, step) v
        | inr named ↦ elim (Option-cases (lookup host r)) [
          | inl new ↦ rw (named, new, add_suffix, step) (reserve-Named r host v)
          | inr (e, old) ↦ rw (named, old, add_suffix, step) v
        ]
      ]
  step-Named (removes given) r v =
      let host = normalise_host u given in
      elim (Bool-cases (is_empty host)) [
        | inl blank ↦ rw (blank, remove_suffix, step) v
        | inr named ↦ rw (named, remove_suffix, step) (delete-Named r host v)
      ]
  step-Named (ensures w host) r v = ensure_cert-Named w host r v

  run-Named : (cs : List Call) (r : Registry) → Named r → Named (run cs r)
  unfolding run
  run-Named [] r v = v
  run-Named (c ∷ cs) r v = run-Named cs (step c r) (step-Named c r v)

  none_yet : Named []
  none_yet host cert held = absurd (clash held)
    where
      clash : (lookup {V = Option Certificate} host [] ≡ some (some cert)) → ⊥
      clash e = unfold lookup in cc

  lookup_cert-Named :
      (r : Registry) (v : Named r) (host : Text) (cert : Certificate)
      → lookup_cert u host r ≡ some cert
      → assert_cert_matches_suffix u equal_fold cert (normalise_host u host) ≡ true
  unfolding lookup_cert
  lookup_cert-Named r v host cert e = ground (arith, v (normalise_host u host) cert)

  -- After any calls of the registry from an empty one, whatever the files hold: when a client asks
  -- by name and the registry has a certificate for the name without its first label, it is served
  -- this one, and the certificate names that host or its wildcard.
  pub get_certificate-named :
      (cs : List Call) (name : Text) (cert : Certificate)
      → is_empty name ≡ false
      → lookup_cert u (strip_first_label name) (run cs []) ≡ some cert
      → (get_certificate u (some name) (run cs []) ≡ some cert)
        × (assert_cert_matches_suffix u equal_fold cert (normalise_host u (strip_first_label name))
            ≡ true)
  unfolding get_certificate
  get_certificate-named cs name cert given e = (
    rw (given, e, get_certificate),
    lookup_cert-Named (run cs []) (run-Named cs [] none_yet) (strip_first_label name) cert e,
  )
