-- ===== src/Certs.antt =====
-- internal/certs/registry.go and `EnsureCert` of internal/certs/manager.go: the TLS certificates by hostname.
-- The files, the parse of a leaf and the ACME client are parameters. Each method runs under the lock.
pub mod Served
pub mod Renewal
mod Tests
use atreo_agent.Base.{
  ℕ, Bool, true, false, not, ◌&&◌, ◌||◌, Text, lit, is_empty, ◌==◌, has_prefix, eqb, ltb, length,
  drop, List, [], ◌∷◌, ◌++◌, Option, none, some, Map, lookup, insert, delete, any, if◌then◌else◌,
}
use atreo_agent.Atreolink.{Unicode}

pub record Leaf : Type 0 where
  pub dns_names : List Text
  pub common_name : Text

-- A certificate as it is loaded: `leaf` is `none` when there is none that parses.
pub record Certificate : Type 0 where
  pub chain : Text
  pub leaf : Option Leaf

-- `cert` of an entry; the paths follow from the host.
abbrev pub Registry : Type 0
Registry = Map (Option Certificate)

-- `strings.TrimPrefix`, and `strings.TrimSuffix` of a dot.
unfoldable pub trim_prefix : Text → Text → Text
trim_prefix s p = if has_prefix s p then drop (length p) s else s

unfoldable pub trim_dot : Text → Text
trim_dot [] = []
trim_dot (c ∷ []) = if eqb c b'.' then [] else c ∷ []
trim_dot (c ∷ d ∷ s) = c ∷ trim_dot (d ∷ s)

unfoldable pub normalise_host : Unicode → Text → Text
unfolding trim_prefix trim_dot
normalise_host u h = trim_dot (trim_prefix (u.to_lower (u.trim_space h)) (lit "*."))

-- `strings.EqualFold` is a parameter.
unfoldable pub names : Unicode → Text → Text → Text → Bool
names u want wildcard dns = u.to_lower dns == wildcard || u.to_lower dns == want

unfoldable pub assert_cert_matches_suffix :
    Unicode → (Text → Text → Bool) → Certificate → Text → Bool
unfolding names
assert_cert_matches_suffix u equal_fold cert suffix = elim cert.leaf [
  | none ↦ false
  | some leaf ↦
      any (names u (u.to_lower suffix) (lit "*." ++ u.to_lower suffix)) leaf.dns_names
      || equal_fold leaf.common_name suffix
]

-- The files of a host as `tls.LoadX509KeyPair` reads them; `none` is its error.
abbrev pub Files : Type 0
Files = Text → Option Certificate

module _ (u : Unicode) (equal_fold : Text → Text → Bool) where
  -- `LoadSuffix`; the flag is false for an error.
  unfoldable pub load_suffix : Files → Text → Registry → Registry × Bool
  unfolding normalise_host
  load_suffix files given r =
      let host = normalise_host u given in
      if is_empty host then (r, false) else elim (files host) [
        | none ↦ (r, false)
        | some cert ↦
            if assert_cert_matches_suffix u equal_fold cert host
            then (insert host (some cert) r, true)
            else (r, false)
      ]

  -- `Load`, over the directories; what fails is passed over.
  unfoldable pub load : Files → List Text → Registry → Registry
  unfolding load_suffix
  load files [] r = r
  load files (host ∷ hosts) r = load files hosts (load_suffix files host r).0

  unfoldable pub add_suffix : Text → Registry → Registry
  unfolding normalise_host
  add_suffix given r =
      let host = normalise_host u given in
      if is_empty host then r else elim (lookup host r) [ some e ↦ r | none ↦ insert host none r ]

  -- `RemoveSuffix`; the files are removed as well.
  unfoldable pub remove_suffix : Text → Registry → Registry
  unfolding normalise_host
  remove_suffix given r =
      let host = normalise_host u given in if is_empty host then r else delete host r

-- The certificate that is at hand for a host.
unfoldable pub lookup_cert : Unicode → Text → Registry → Option Certificate
unfolding normalise_host
lookup_cert u host r = elim (lookup (normalise_host u host) r) [ none ↦ none | some cert ↦ cert ]

unfoldable pub has : Unicode → Text → Registry → Bool
unfolding lookup_cert
has u host r = elim (lookup_cert u host r) [ none ↦ false | some cert ↦ true ]

-- Go's `<` on strings.
unfoldable pub less : Text → Text → Bool
less [] [] = false
less [] (b ∷ t) = true
less (a ∷ s) [] = false
less (a ∷ s) (b ∷ t) = if eqb a b then less s t else ltb a b

-- The longer host first.
unfoldable pub comes_first : Text → Text → Bool
unfolding less
comes_first a b = if eqb (length a) (length b) then less a b else ltb (length b) (length a)

unfoldable pub place : Text → List Text → List Text
place h [] = h ∷ []
place h (k ∷ ks) = let rest = place h ks in if comes_first k h then k ∷ rest else h ∷ k ∷ ks

unfoldable pub sorted : List Text → List Text
unfolding place
sorted [] = []
sorted (h ∷ hs) = place h (sorted hs)

unfoldable pub hosts : Registry → List Text
hosts [] = []
hosts ((host, cert) ∷ r) = host ∷ hosts r

-- `Suffixes`
unfoldable pub suffixes : Registry → List Text
unfolding sorted hosts
suffixes r = sorted (hosts r)

-- The hosts that have a certificate.
unfoldable pub usable : Registry → List Text
usable [] = []
usable ((host, none) ∷ r) = usable r
usable ((host, some cert) ∷ r) = host ∷ usable r

unfoldable pub has_any : Registry → Bool
unfolding usable
has_any r = elim (usable r) [ [] ↦ false | h ∷ hs ↦ true ]

-- `fallbackCert`; its two errors are `none`.
unfoldable pub fallback_cert : Registry → Option Certificate
unfolding sorted usable
fallback_cert r = elim (sorted (usable r)) [
  | [] ↦ none
  | h ∷ hs ↦ elim (lookup h r) [ none ↦ none | some cert ↦ cert ]
]

unfoldable pub strip_first_label : Text → Text
strip_first_label [] = []
strip_first_label (c ∷ s) = let rest = strip_first_label s in if eqb c b'.' then s else rest

-- `GetCertificate`; `none` for a missing hello.
unfoldable pub get_certificate : Unicode → Option Text → Registry → Option Certificate
unfolding lookup_cert fallback_cert strip_first_label
get_certificate u none r = fallback_cert r
get_certificate u (some name) r =
    if is_empty name then fallback_cert r else elim (lookup_cert u (strip_first_label name) r) [
      | some cert ↦ some cert
      | none ↦ elim (lookup_cert u name r) [ some cert ↦ some cert | none ↦ fallback_cert r ]
    ]

-- What `EnsureCert` meets: whether the directory can be made and the certificate on disk is still
-- valid, the files before the ACME client runs, and those after it. They are loaded after a failure
-- of the client as after a success.
pub record Issuing : Type 0 where
  pub paths : Text → Bool
  pub is_valid : Text → Bool
  pub before : Files
  pub after : Files

-- `EnsureCert`; the flag is false for an error.
unfoldable pub ensure_cert :
    Unicode → (Text → Text → Bool) → Issuing → Text → Registry → Registry × Bool
unfolding normalise_host load_suffix
ensure_cert u equal_fold w given r =
    let host = normalise_host u given in
    let (r1, loaded) = load_suffix u equal_fold w.before host r in
    if is_empty host || not (w.paths host)
    then (r, false)
    else if w.is_valid host && loaded
    then (r1, true)
    else load_suffix u equal_fold w.after host r
