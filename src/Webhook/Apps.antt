-- ===== src/Webhook/Apps.antt =====
-- The app and the secret that a delivery is verified with.
use warmrunners.Base.{
  String, ◌≡◌, ◌≢◌, ◌⊎◌, inl, inr, Option, none, some, List, [], ◌∷◌, arith, ℤ, ok, GoMap, subst,
  lookup, eqb_ℤ, eqb_ℤ_iff, Option-cases, Result-cases, Bool-cases,
}
use warmrunners.Webhook.{Bytes, GitHubApp, Outside}
use warmrunners.Scheduler.Sscanf.{parse_int}
use warmrunners.Webhook.Dispatch.{find_app, secret_of, secret_namespace, resolve}

-- The first app of the list with this id.
abbrev pub IsFirst : ℤ → GitHubApp → List GitHubApp → Type 0
IsFirst id app [] = ⊥
IsFirst id app (a ∷ apps) =
    ((a ≡ app) × (app.app_id ≡ id)) ⊎ ((a.app_id ≢ id) × IsFirst id app apps)

find_app-IsFirst :
    (id : ℤ) (app : GitHubApp) (apps : List GitHubApp)
    → find_app id apps ≡ some app
    → IsFirst id app apps
unfolding find_app
find_app-IsFirst id app [] h = absurd cc
find_app-IsFirst id app (a ∷ apps) h = elim (Bool-cases (eqb_ℤ a.app_id id)) [
  | inl same ↦ inl (ground (arith, same, h, eqb_ℤ_iff a.app_id id))
  | inr other ↦ inr (
    ground (arith, other, eqb_ℤ_iff a.app_id id),
    find_app-IsFirst id app apps (ground (arith, other, h)),
  )
]

secret_of-eq-ok :
    (found : Option Bytes) (secret : Bytes)
    → secret_of found ≡ ok secret
    → (found ≡ some secret) × (secret ≢ [])
unfolding secret_of
secret_of-eq-ok none secret h = absurd cc
secret_of-eq-ok (some []) secret h = absurd cc
secret_of-eq-ok (some (b ∷ bytes)) secret h = (cc, λ e. cc (h, e))

-- What a delivery is verified with: the first app with the id that the header names in decimal, and the
-- secret under the key that the app refers to, which is not empty.
pub record IsResolved (out : Outside) (target : String) (app : GitHubApp) (secret : Bytes)
    : Type 0 where
  pub id : ℤ
  pub apps : List GitHubApp
  pub parsed : parse_int target ≡ some id
  pub listed : out.list_apps ≡ ok apps
  pub first : IsFirst id app apps
  pub fields : GoMap Bytes
  pub read :
      out.get_secret
        (secret_namespace app.webhook_secret_ref.namespace out.pod_namespace)
        app.webhook_secret_ref.name
      ≡ ok fields
  pub stored : lookup app.webhook_secret_ref.key fields ≡ some secret
  pub nonempty : secret ≢ []

module _ (out : Outside) (target : String) (app : GitHubApp) (secret : Bytes) where
  find_app-IsResolved :
      (id : ℤ) (apps : List GitHubApp) (a : GitHubApp)
      → parse_int target ≡ some id
      → out.list_apps ≡ ok apps
      → find_app id apps ≡ some a
      → resolve out target ≡ ok (app, secret)
      → IsResolved out target app secret
  unfolding resolve
  find_app-IsResolved id apps a parsed listed there h =
      elim (Result-cases (
        out.get_secret (secret_namespace a.webhook_secret_ref.namespace out.pod_namespace)
          a.webhook_secret_ref.name)) [
            | inr (e, failed) ↦ absurd (ground (arith, parsed, listed, there, failed, h))
            | inl (fields, read) ↦
                elim (Result-cases (secret_of (lookup a.webhook_secret_ref.key fields))) [
                  | inr (e, failed) ↦
                      absurd (ground (arith, parsed, listed, there, read, failed, h))
                  | inl (found, good) ↦
                      let same : (a ≡ app) × (found ≡ secret) =
                        ground (arith, parsed, listed, there, read, good, h) in
                      let (stored, nonempty) =
                        secret_of-eq-ok (lookup a.webhook_secret_ref.key fields) found good in
                      subst (λ x. IsResolved out target x secret) same.0
                        (subst (IsResolved out target a) same.1 (record {
                          id = id;
                          apps = apps;
                          parsed = parsed;
                          listed = listed;
                          first = find_app-IsFirst id a apps there;
                          fields = fields;
                          read = read;
                          stored = stored;
                          nonempty = nonempty;
                        }))
                ]
          ]

  -- A delivery is verified with the first app whose id the target header names, and with the text under the
  -- key of the Secret that this app refers to, which is not empty.
  pub resolve-IsResolved : resolve out target ≡ ok (app, secret) → IsResolved out target app secret
  unfolding resolve
  resolve-IsResolved h = elim (Option-cases (parse_int target)) [
    | inl bad ↦ absurd (ground (arith, bad, h))
    | inr (id, parsed) ↦ elim (Result-cases out.list_apps) [
      | inr (e, failed) ↦ absurd (ground (arith, parsed, failed, h))
      | inl (apps, listed) ↦ elim (Option-cases (find_app id apps)) [
        | inl unknown ↦ absurd (ground (arith, parsed, listed, unknown, h))
        | inr (a, there) ↦ find_app-IsResolved id apps a parsed listed there h
      ]
    ]
  ]
