-- ===== src/Tunnel/State/Vouched/Catalogue.antt =====
-- internal/tunnel/devicestate.go: the apps that pass, and the apps that are picked from them.
use atreo_agent.Base.{
  Text, lit, ◌==◌, List, [], ◌∷◌, some, Map, lookup, insert, lookup-insert, All, All-append, ◌≡◌,
  refl, arith, subst, Option-cases, Bool-cases, inl, inr,
}
use atreo_agent.Base.Result.{ok, OnOk, OnOk-of, OnOk-bind, OnOk-need, OnOk-map_error}
use atreo_agent.Atreolink.{App}
use atreo_agent.Acl.{Store}
use atreo_agent.Acl.Apps.{apps_by_id}
use atreo_agent.Tunnel.Wire.{DsEnvelope, DsApp, AppUpsertedPayload}
use atreo_agent.Tunnel.State.{
  Libraries, Identity, signed_by, app_intent, check_app, check_apps, validate_app, picked,
}
use atreo_agent.Tunnel.State.Vouched.{AppSigned}

module _ (l : Libraries) (i : Identity) (s : Store) (owner : Text) where
  one_signed :
      (env : DsEnvelope) (ap : AppUpsertedPayload) {u v : Unit {0}}
      → l.decoders.app env.payload ≡ some ap
      → signed_by l i s owner owner (lit "app:upserted") env ap.fields (app_intent l i s owner ap)
        ≡ ok u
      → validate_app l.decoders ap.app ≡ ok v
      → All (AppSigned l i s owner) (ap.app ∷ [])
  one_signed env ap decodes signed valid = (
    record {
      env = env;
      payload = ap;
      decodes = decodes;
      carries = refl;
      signed = signed;
      valid = valid;
    },
    tt,
  )

  check_app-AppSigned : (da : DsApp) → OnOk (All (AppSigned l i s owner)) (check_app l i s owner da)
  unfolding check_app
  check_app-AppSigned da = elim (Option-cases da.envelope) [
    | inl none_given ↦ rw (none_given, check_app) tt
    | inr (env, given) ↦
        rw (given, check_app)
          (OnOk-need (All (AppSigned l i s owner)) _ _ _ λ ap decodes.
            OnOk-map_error (All (AppSigned l i s owner)) _ _ _ λ u signed.
              OnOk-map_error (All (AppSigned l i s owner)) _ _ _
                λ v valid. one_signed env ap decodes signed valid)
  ]

  pub check_apps-AppSigned :
      (das : List DsApp) → OnOk (All (AppSigned l i s owner)) (check_apps l i s owner das)
  unfolding check_apps
  check_apps-AppSigned [] = tt
  check_apps-AppSigned (da ∷ das) = OnOk-bind (All (AppSigned l i s owner)) _ _ λ found e.
      OnOk-bind (All (AppSigned l i s owner)) _ _ λ rest e'.
        All-append (AppSigned l i s owner) found rest
          (OnOk-of (All (AppSigned l i s owner)) e (check_app-AppSigned da))
          (OnOk-of (All (AppSigned l i s owner)) e' (check_apps-AppSigned das))

-- What an app list gives by its ids comes from the list.
pub apps_by_id-All {κ} :
    (P : App → Type κ) (apps : List App) (m : Map App)
    → All P apps
    → ((id : Text) (a : App) → lookup id m ≡ some a → P a)
    → (id : Text) (a : App) → lookup id (apps_by_id apps m) ≡ some a
    → P a
unfolding apps_by_id
apps_by_id-All P [] m h base id a e = base id a e
apps_by_id-All P (b ∷ apps) m h base id a e =
    apps_by_id-All P apps (insert b.id b m) h.1
      (λ id' a' e'. elim (Bool-cases (b.id == id')) [
        | inl same ↦ subst P (ground (arith, lookup-insert b.id id' b m)) h.0
        | inr other ↦ base id' a' (ground (arith, lookup-insert b.id id' b m))
      ])
      id a e

pub picked-All {κ} :
    (P : App → Type κ) (by_id : Map App) (ids : List Text)
    → ((id : Text) (a : App) → lookup id by_id ≡ some a → P a)
    → All P (picked by_id ids)
unfolding picked
picked-All P by_id [] h = tt
picked-All P by_id (id ∷ ids) h = elim (Option-cases (lookup id by_id)) [
  | inl gone ↦ rw (gone, picked) (picked-All P by_id ids h)
  | inr (a, e) ↦ rw (e, picked) (h id a e, picked-All P by_id ids h)
]
