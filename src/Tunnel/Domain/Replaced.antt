-- ===== src/Tunnel/Domain/Replaced.antt =====
-- `reconcileCustomDomain` of internal/tunnel/devicestate.go: what the registry keeps when one custom domain
-- takes the place of another.
use atreo_agent.Base.{
  Bool, false, not, ◌&&◌, ◌||◌, Text, is_empty, ◌==◌, some, lookup, lookup-insert, lookup-delete,
  ◌≡◌, refl, ◌∙◌, Bool-cases, Option-cases, inl, inr,
}
use atreo_agent.Atreolink.{Unicode}
use atreo_agent.Certs.{
  Registry, Files, Issuing, normalise_host, assert_cert_matches_suffix, load_suffix, remove_suffix,
  ensure_cert,
}
use atreo_agent.Tunnel.Wire.{DsCustomDomain}
use atreo_agent.Tunnel.Domain.{
  Domains, DomainWorld, CustomDomain, current_row, drop_domain, install_domain, serves,
}

module _ (u : Unicode) (equal_fold : Text → Text → Bool) (host : Text) where
  lookup-load_suffix :
      (files : Files) (given : Text) (r : Registry)
      → (normalise_host u given == host) ≡ false
      → lookup host (load_suffix u equal_fold files given r).0 ≡ lookup host r
  unfolding load_suffix
  lookup-load_suffix files given r other =
      let h = normalise_host u given in
      elim (Bool-cases (is_empty h)) [
        | inl blank ↦ rw (blank, load_suffix) refl
        | inr named ↦ elim (Option-cases (files h)) [
          | inl gone ↦ rw (named, gone, load_suffix) refl
          | inr (cert, e) ↦ elim (Bool-cases (assert_cert_matches_suffix u equal_fold cert h)) [
            | inl good ↦
                rw (named, e, good, load_suffix)
                  (lookup-insert h host (some cert) r ∙ rw other refl)
            | inr bad ↦ rw (named, e, bad, load_suffix) refl
          ]
        ]
      ]

  lookup-ensure_cert :
      (w : Issuing) (given : Text) (r : Registry)
      → (normalise_host u (normalise_host u given) == host) ≡ false
      → lookup host (ensure_cert u equal_fold w given r).0 ≡ lookup host r
  unfolding ensure_cert
  lookup-ensure_cert w given r other =
      let h = normalise_host u given in
      elim (Bool-cases (is_empty h || not (w.paths h))) [
        | inl out ↦ rw (out, ensure_cert) refl
        | inr on ↦ elim (Bool-cases (w.is_valid h && (load_suffix u equal_fold w.before h r).1)) [
          | inl current ↦ rw (on, current, ensure_cert) (lookup-load_suffix w.before h r other)
          | inr due ↦ rw (on, due, ensure_cert) (lookup-load_suffix w.after h r other)
        ]
      ]

lookup-install_domain :
    (w : DomainWorld) (zone : Text) (cd : DsCustomDomain) (d : Domains) (host : Text)
    → (normalise_host w.unicode (normalise_host w.unicode zone) == host) ≡ false
    → lookup host (install_domain w zone cd d).registry ≡ lookup host d.registry
unfolding install_domain
lookup-install_domain w zone cd d host other = elim (Bool-cases (serves zone d)) [
  | inl same ↦ rw (same, install_domain) refl
  | inr new ↦
      rw (new, install_domain)
        (lookup-ensure_cert w.unicode w.equal_fold host w.issuing zone d.registry other)
]

lookup-drop_domain :
    (w : DomainWorld) (d : Domains) (row : CustomDomain) (host : Text)
    → current_row d ≡ some row
    → (normalise_host w.unicode row.parent_zone == host) ≡ false
    → lookup host (drop_domain w d).registry ≡ lookup host d.registry
unfolding drop_domain remove_suffix
lookup-drop_domain w d row host here other =
    let h = normalise_host w.unicode row.parent_zone in
    elim (Bool-cases (is_empty h)) [
      | inl blank ↦ rw (here, blank, drop_domain, remove_suffix) refl
      | inr named ↦
          rw (here, named, drop_domain, remove_suffix)
            (lookup-delete h host d.registry ∙ rw other refl)
    ]

-- The certificate of a custom domain outlives the domain: when a second zone has taken its place and
-- is taken away in turn, every host but that of the second zone has in the registry what it had at
-- first, the host of the first zone included.
pub replaced_domain-kept :
    (w w' : DomainWorld) (zone : Text) (cd : DsCustomDomain) (d : Domains) (row : CustomDomain)
    (host : Text)
    → current_row (install_domain w zone cd d) ≡ some row
    → (normalise_host w'.unicode row.parent_zone == host) ≡ false
    → (normalise_host w.unicode (normalise_host w.unicode zone) == host) ≡ false
    → lookup host (drop_domain w' (install_domain w zone cd d)).registry ≡ lookup host d.registry
replaced_domain-kept w w' zone cd d row host here first second =
    lookup-drop_domain w' (install_domain w zone cd d) row host here first
    ∙ lookup-install_domain w zone cd d host second
