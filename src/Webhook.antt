-- ===== src/Webhook.antt =====
-- Inbound GitHub webhooks: internal/webhook.
pub mod Replay
pub mod Verify
pub mod Dispatch
pub mod Receiver
pub mod Signatures
pub mod Apps
pub mod Deliveries
pub mod Once
use warmrunners.Base.{ℕ, String, List, Option, Result, GoMap, ℤ}
use warmrunners.Clock.{Time}

-- `[]byte`
abbrev pub Bytes : Type 0
Bytes = List ℕ

-- `SecretKeyRef` of a GitHubApp
pub record WebhookSecretRef : Type 0 where
  pub name : String
  pub namespace : String
  pub key : String

-- `GitHubApp`: the fields of its spec that the receiver reads
pub record GitHubApp : Type 0 where
  pub app_id : ℤ
  pub webhook_secret_ref : WebhookSecretRef

-- `pushPayload`, the fields that are read
pub record PushPayload : Type 0 where
  pub after : String
  pub full_name : String

-- `workflowJobPayload`, the fields that are read; a list of labels may be nil.
pub record WorkflowJobPayload : Type 0 where
  pub action : String
  pub labels : Option (List String)
  pub full_name : String

-- What the receiver calls outside the repository, as it answers while one delivery is served.
pub record Outside : Type 0 where
  -- the GitHubApps of the cluster
  pub list_apps : Result (List GitHubApp)
  -- the environment variable POD_NAMESPACE
  pub pod_namespace : String
  -- a Secret: namespace, name; its `Data`
  pub get_secret : String → String → Result (GoMap Bytes)
  -- HMAC-SHA256: secret, body
  pub mac : Bytes → Bytes → Bytes
  -- `json.Unmarshal` into the two payloads
  pub decode_push : Bytes → Result PushPayload
  pub decode_job : Bytes → Result WorkflowJobPayload
  -- the readings of the clock by the guard and by the feed
  pub guard_now : Time
  pub feed_now : Time
