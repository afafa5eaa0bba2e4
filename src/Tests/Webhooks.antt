-- ===== src/Tests/Webhooks.antt =====
-- The theorems on inbound webhooks, at one app and a push to one repository.
use Prim.Native.String.{◌++◌ as str_append}
use warmrunners.Base.{
  String, ◌≡◌, ◌≢◌, ◌↔◌, ◌⊎◌, refl, true, false, none, some, [], ◌∷◌, ◌+◌, ◌*◌, arith, pos, ◌≤ℤ◌,
  ok, err, lookup, insert, length,
}
use warmrunners.Clock.{Time, second, time_sub}
use warmrunners.Activity.Feed.{empty_feed}
use warmrunners.Webhook.{Bytes, GitHubApp, Outside}
use warmrunners.Webhook.Replay.{seen, after_calls, new_replay_guard}
use warmrunners.Webhook.Replay.Consistency.{IsConsistent}
use warmrunners.Webhook.Replay.Bounds.{guard-IsConsistent}
use warmrunners.Webhook.Replay.Catching.{seen-replay}
use warmrunners.Webhook.Verify.{verify_signature, hex_decode}
use warmrunners.Webhook.Signatures.{verify_signature_iff}
use warmrunners.Scheduler.Sscanf.{parse_int}
use warmrunners.Webhook.Dispatch.{resolve, find_app, secret_of}
use warmrunners.Webhook.Receiver.{State, Request, complete, serve_http, handle_frame}
use warmrunners.Webhook.Deliveries.{IsAuthentic, serve_http-IsAuthentic, handle_frame_unsigned}
use warmrunners.Webhook.Once.{serve_all, serve_http_once}
use warmrunners.Tests.Fixtures.{noon}

abbrev app : GitHubApp
app = record {
  app_id = pos 7;
  webhook_secret_ref = record { name = "hook"; namespace = ""; key = "secret" };
}

abbrev secret : Bytes
secret = 18 ∷ 171 ∷ []

-- A code for the HMAC that gives back the secret.
abbrev outside_at : Time → Outside
outside_at now = record {
  list_apps = ok (app ∷ []);
  pod_namespace = "";
  get_secret = λ namespace name. ok (("secret", secret) ∷ []);
  mac = λ key body. key;
  decode_push = λ body. ok (record { after = "f00d"; full_name = "acme/api" });
  decode_job = λ body. err "unexpected end of JSON input";
  guard_now = now;
  feed_now = now;
}

abbrev push : Request
push = record {
  method = "POST";
  event = "push";
  id = "d1";
  signature = "sha256=12aB";
  target = "7";
  stream = complete (123 ∷ 125 ∷ []);
}

abbrev fresh : State
fresh = record { guard = new_replay_guard (pos 8) (pos (600 * second)); feed = empty_feed }

resolved : resolve (outside_at noon) "7" ≡ ok (app, secret)
unfolding resolve parse_int find_app warmrunners.Scheduler.Sscanf.scan_signed
    warmrunners.Scheduler.Sscanf.scan_unsigned warmrunners.Scheduler.Sscanf.scan_digits secret_of
    lookup
resolved = refl

signed : verify_signature (λ key body. key) (123 ∷ 125 ∷ []) "sha256=12aB" secret ≡ none
unfolding verify_signature hex_decode warmrunners.Webhook.Verify.after_prefix
    warmrunners.Webhook.Verify.hex_byte warmrunners.Webhook.Verify.hex_digit
    warmrunners.Webhook.Verify.bytes_equal
signed = refl

push-IsAuthentic : IsAuthentic (outside_at noon) push
push-IsAuthentic = record {
  body = 123 ∷ 125 ∷ [];
  app = app;
  secret = secret;
  post = refl;
  arrived = refl;
  small = refl;
  known = resolved;
  signed = signed;
  headers = refl;
}

verify_signature_iff_example :
    (verify_signature (λ key body. key) (123 ∷ 125 ∷ []) "sha256=12aB" secret ≡ none)
    ↔ ((hex : String) × ("sha256=12aB" ≡ str_append "sha256=" hex) × (hex_decode hex ≡ some secret))
verify_signature_iff_example =
    verify_signature_iff (λ key body. key) (123 ∷ 125 ∷ []) secret "sha256=12aB"

serve_http-IsAuthentic_example :
    (((serve_http (outside_at noon) push fresh).state ≡ fresh)
      × ((serve_http (outside_at noon) push fresh).status ≢ 200))
    ⊎ IsAuthentic (outside_at noon) push
serve_http-IsAuthentic_example = serve_http-IsAuthentic (outside_at noon) push fresh

handle_frame_unsigned_example :
    handle_frame (outside_at noon) (insert "X-Hub-Signature-256" "forged" []) [] fresh
    ≡ handle_frame (outside_at noon) [] [] fresh
handle_frame_unsigned_example = handle_frame_unsigned (outside_at noon) [] "forged" [] fresh

guard-IsConsistent_example :
    let g =
      after_calls ((noon + 1, "d2") ∷ (noon, "d1") ∷ []) (new_replay_guard (pos 1) (pos second)) in
    IsConsistent g × (pos (length g.lru) ≤ℤ pos 1)
guard-IsConsistent_example =
    guard-IsConsistent (pos 1) (pos second) ((noon + 1, "d2") ∷ (noon, "d1") ∷ []) (ground arith)

new_delivery : (seen "d1" (new_replay_guard (pos 8) (pos (600 * second))) noon).0 ≡ false
unfolding seen new_replay_guard lookup
new_delivery = refl

soon : time_sub (noon + second) noon ≤ℤ pos (600 * second)
unfolding time_sub
soon = ground arith

seen-replay_example :
    (seen "d1"
      (after_calls
        ((noon + second, "d2") ∷ [])
        (seen "d1" (new_replay_guard (pos 8) (pos (600 * second))) noon).1)
      (noon + second)).0
    ≡ true
unfolding after_calls
seen-replay_example =
    seen-replay (pos 8) (pos (600 * second)) [] ((noon + second, "d2") ∷ []) "d1" noon
      (noon + second) new_delivery (ground arith) (soon, tt) soon

seen_twice :
    (seen "d1"
      (after_calls ((noon, "d1") ∷ []) (new_replay_guard (pos 8) (pos (600 * second))))
      (noon + second)).0
    ≡ true
unfolding after_calls
seen_twice =
    seen-replay (pos 8) (pos (600 * second)) [] [] "d1" noon (noon + second) new_delivery
      (ground arith) tt soon

serve_http_once_example :
    let between = (serve_http (outside_at noon) push fresh).state in
    (serve_http (outside_at (noon + second)) push between).state.feed ≡ between.feed
unfolding serve_all
serve_http_once_example =
    serve_http_once (pos 8) (pos (600 * second)) empty_feed [] [] (outside_at noon)
      (outside_at (noon + second)) push push-IsAuthentic new_delivery (ground arith) tt soon
