-- ===== src/Tunnel/Domain.antt =====
-- `reconcileCustomDomain` of internal/tunnel/devicestate.go, `normaliseZone` of
-- internal/tunnel/handler_customdomain.go, and the store of internal/store/customdomain.go. The disk
-- and the clock are parameters.
pub mod Replaced
use atreo_agent.Base.{
  Bool, true, false, not, ◌&&◌, ◌||◌, Text, lit, is_empty, ◌==◌, List, [], ◌∷◌, Option, none, some,
  if◌then◌else◌,
}
use atreo_agent.Base.Result.{Result, ok, failed}
use atreo_agent.Atreolink.{Unicode}
use atreo_agent.Acl.{Store}
use atreo_agent.Acl.Persist.{FileRead, missing, unreadable, garbled, contents}
use atreo_agent.Certs.{Registry, Issuing, trim_prefix, trim_dot, remove_suffix, ensure_cert}
use atreo_agent.Tunnel.Wire.{DsCustomDomain, CustomDomainSetPayload, joined}
use atreo_agent.Tunnel.State.{Libraries, Identity, signed_by}

unfoldable pub normalise_zone : Unicode → Text → Text
unfolding trim_prefix trim_dot
normalise_zone u zone = trim_prefix (trim_dot (u.to_lower (u.trim_space zone))) (lit "*.")

pub record CustomDomain : Type 0 where
  pub parent_zone : Text
  pub envelope_payload : Text
  pub envelope_owner_sig : Text
  pub verified_at : Text

-- `Get`: `failed` for an error.
unfoldable pub get : FileRead CustomDomain → Result {0, 0} Unit (Option CustomDomain)
get missing = ok none
get unreadable = failed tt
get garbled = failed tt
get (contents cd) = if is_empty cd.parent_zone then ok none else ok (some cd)

-- `Set` and `Clear`, with whether the disk lets them; an error changes nothing.
unfoldable pub set : Bool → CustomDomain → FileRead CustomDomain → FileRead CustomDomain
set works cd file = if is_empty cd.parent_zone || not works then file else contents cd

unfoldable pub clear : Bool → FileRead CustomDomain → FileRead CustomDomain
clear works file = if works then missing else file

-- The registry of the certificates and the file of the row.
pub record Domains : Type 0 where
  pub registry : Registry
  pub file : FileRead CustomDomain

-- What the certificate manager and the disk come to while the row is reconciled.
pub record DomainWorld : Type 0 where
  pub unicode : Unicode
  pub equal_fold : Text → Text → Bool
  pub issuing : Issuing
  pub writes : Bool
  pub clears : Bool
  pub verified_at : Text

-- The row that is served, if the file can be read.
unfoldable pub current_row : Domains → Option CustomDomain
unfolding get
current_row d = elim (get d.file) [ failed e ↦ none | ok row ↦ row ]

unfoldable pub serves : Text → Domains → Bool
unfolding current_row
serves zone d = elim (current_row d) [ none ↦ false | some row ↦ row.parent_zone == zone ]

-- No domain in the push.
unfoldable pub drop_domain : DomainWorld → Domains → Domains
unfolding current_row clear
drop_domain w d = elim (current_row d) [
  | none ↦ d
  | some row ↦ record {
    registry = remove_suffix w.unicode w.equal_fold row.parent_zone d.registry;
    file = clear w.clears d.file;
  }
]

-- The zone of a verified envelope.
unfoldable pub install_domain : DomainWorld → Text → DsCustomDomain → Domains → Domains
unfolding serves set
install_domain w zone cd d =
    let (registry, good) = ensure_cert w.unicode w.equal_fold w.issuing zone d.registry in
    let row : CustomDomain = record {
      parent_zone = zone;
      envelope_payload = cd.envelope.payload;
      envelope_owner_sig = cd.envelope.signature;
      verified_at = w.verified_at;
    } in
    if serves zone d
    then d
    else record d { registry = registry; file = if good then set w.writes row d.file else d.file }

module _ (l : Libraries) (i : Identity) (s : Store) (owner : Text) (w : DomainWorld) where
  -- The intent of a zone; `none` when there is none, or the envelope is not the owner's.
  unfoldable pub verified_zone : DsCustomDomain → Option Text
  unfolding normalise_zone signed_by
  verified_zone cd = elim (l.decoders.custom_domain cd.envelope.payload) [
    | none ↦ none
    | some payload ↦
        let zone = normalise_zone w.unicode payload.parent_zone in
        if is_empty zone
        then none
        else elim (signed_by l i s owner owner (lit "device:custom-domain-set") cd.envelope
            payload.fields (joined (lit "custom-domain-set") (i.device_id ∷ zone ∷ []))) [
              | failed e ↦ none
              | ok _ ↦ some zone
            ]
  ]

  unfoldable pub reconcile_custom_domain : Option DsCustomDomain → Domains → Domains
  unfolding drop_domain install_domain verified_zone
  reconcile_custom_domain none d = drop_domain w d
  reconcile_custom_domain (some cd) d = elim (verified_zone cd) [
    | none ↦ d
    | some zone ↦ install_domain w zone cd d
  ]
