-- ===== src/Webhook/Dispatch.antt =====
-- The app of a delivery and its event: internal/webhook/app_lookup.go and dispatcher.go.
use Prim.Native.String.{◌++◌ as str_append}
use warmrunners.Base.{
  String, Option, none, some, List, [], ◌∷◌, ℤ, Result, ok, err, lookup, if◌then◌else◌, ◌==◌, eqb_ℤ,
}
use warmrunners.Scheduler.Sscanf.{parse_int}
use warmrunners.Activity.Feed.{Feed, record_push, record_job}
use warmrunners.Webhook.{Bytes, GitHubApp, Outside}

-- The loop of `Resolve`: the first app with this id.
unfoldable pub find_app : ℤ → List GitHubApp → Option GitHubApp
find_app id [] = none
find_app id (app ∷ apps) =
    let rest = find_app id apps in if eqb_ℤ app.app_id id then some app else rest

-- An absent and an empty secret are errors.
unfoldable pub secret_of : Option Bytes → Result Bytes
secret_of none = err "webhook secret: key not found"
secret_of (some []) = err "webhook secret: key not found"
secret_of (some (b ∷ secret)) = ok (b ∷ secret)

-- The namespace of the Secret, with the two fallbacks.
unfoldable pub secret_namespace : String → String → String
secret_namespace namespace pod_namespace =
    if namespace == ""
    then (if pod_namespace == "" then "warmrunners-system" else pod_namespace)
    else namespace

module _ (out : Outside) where
  -- `Resolve`
  unfoldable pub resolve : String → Result (GitHubApp × Bytes)
  resolve target = elim (parse_int target) [
    | none ↦ err "unknown app: bad target id"
    | some id ↦ elim out.list_apps [
      | err e ↦ err (str_append "list GitHubApps: " e)
      | ok apps ↦ elim (find_app id apps) [
        | none ↦ err "unknown app: no GitHubApp with appID"
        | some app ↦
            let ref = app.webhook_secret_ref in
            elim (out.get_secret (secret_namespace ref.namespace out.pod_namespace) ref.name) [
              | err e ↦ err (str_append "webhook secret: " e)
              | ok fields ↦ elim (secret_of (lookup ref.key fields)) [
                | err e ↦ err e
                | ok secret ↦ ok (app, secret)
              ]
            ]
      ]
    ]
  ]

  -- The action "queued" alone is recorded.
  unfoldable pub dispatch_job : Feed → String → String → Option (List String) → Feed
  dispatch_job feed action repo labels =
      if action == "queued" then record_job repo labels feed out.feed_now else feed

  -- `Dispatcher.Handle`, as the feed that it leaves
  unfoldable pub dispatch : String → Bytes → Feed → Result Feed
  dispatch event body feed =
      if event == "push"
      then elim (out.decode_push body) [
        | err e ↦ err (str_append "webhook: decode push payload: " e)
        | ok p ↦ ok (record_push p.full_name p.after feed out.feed_now)
      ]
      else if event == "workflow_job"
      then elim (out.decode_job body) [
        | err e ↦ err (str_append "webhook: decode workflow_job payload: " e)
        | ok p ↦ ok (dispatch_job feed p.action p.full_name p.labels)
      ]
      else ok feed
