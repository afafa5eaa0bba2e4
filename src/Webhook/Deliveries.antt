-- ===== src/Webhook/Deliveries.antt =====
-- Which deliveries reach the feed.
use warmrunners.Base.{
  String, ◌≡◌, ◌≢◌, refl, sym, ap, ◌∙◌, subst, ◌⊎◌, inl, inr, Bool, true, false, ◌||◌, none, arith,
  Result, ok, err, GoMap, insert, lookup-insert, length, ltb, ◌==◌, eq_iff, Bool-cases,
  Option-cases, Result-cases,
}
use warmrunners.Activity.Feed.{Feed}
use warmrunners.Webhook.{Bytes, GitHubApp, Outside}
use warmrunners.Webhook.Replay.{seen}
use warmrunners.Webhook.Verify.{verify_signature}
use warmrunners.Webhook.Dispatch.{resolve, dispatch}
use warmrunners.Webhook.Receiver.{
  State, Request, Stream, complete, broken, Delivery, Handled, Served, handle_verified, handle,
  answer, drop, serve_body, serve_http, handle_frame, handle_delivery, frame_delivery,
  max_body_bytes,
}

-- A complete POST of at most 1 MiB, with a signature of its body under the secret of a known app.
pub record IsAuthentic (out : Outside) (req : Request) : Type 0 where
  pub body : Bytes
  pub app : GitHubApp
  pub secret : Bytes
  pub post : req.method ≡ "POST"
  pub arrived : req.stream ≡ complete body
  pub small : ltb max_body_bytes (length body) ≡ false
  pub known : resolve out req.target ≡ ok (app, secret)
  pub signed : verify_signature out.mac body req.signature secret ≡ none
  pub headers : (req.event == "" || req.id == "" || req.signature == "" || req.target == "") ≡ false

Stream-cases :
    (b : Stream)
    → ((arrived : Bytes) × (b ≡ broken arrived)) ⊎ ((body : Bytes) × (b ≡ complete body))
Stream-cases (broken arrived) = inl (arrived, refl)
Stream-cases (complete body) = inr (body, refl)

module _ (out : Outside) where
  abbrev IsRefused : Request → State → Served → Type 0
  IsRefused req s r = ((r.state ≡ s) × (r.status ≢ 200)) ⊎ IsAuthentic out req

  serve_body-IsAuthentic :
      (req : Request) (body : Bytes) (s : State)
      → req.method ≡ "POST"
      → req.stream ≡ complete body
      → ltb max_body_bytes (length body) ≡ false
      → IsRefused req s (serve_body out req body s)
  unfolding serve_body handle answer drop
  serve_body-IsAuthentic req body s post arrived small =
      elim (Bool-cases
        (req.event == "" || req.id == "" || req.signature == "" || req.target == "")) [
          | inl missing ↦ rw (missing, serve_body) (inl (refl, ground arith))
          | inr headers ↦ elim (Result-cases (resolve out req.target)) [
            | inr (e, unknown) ↦
                rw (headers, unknown, serve_body, handle) (inl (refl, ground arith))
            | inl ((app, secret), known) ↦
                elim (Option-cases (verify_signature out.mac body req.signature secret)) [
                  | inr (e, forged) ↦
                      rw (headers, known, forged, serve_body, handle) (inl (refl, ground arith))
                  | inl signed ↦ inr (record {
                    body = body;
                    app = app;
                    secret = secret;
                    post = post;
                    arrived = arrived;
                    small = small;
                    known = known;
                    signed = signed;
                    headers = headers;
                  })
                ]
          ]
        ]

  serve_http-serve_body :
      (req : Request) (body : Bytes) (s : State)
      → (req.method == "POST") ≡ true
      → req.stream ≡ complete body
      → ltb max_body_bytes (length body) ≡ false
      → serve_http out req s ≡ serve_body out req body s
  unfolding serve_http
  serve_http-serve_body req body s post arrived small = ground (arith, post, arrived, small)

  -- Every request that is not authentic is refused with a status other than 200, and leaves the guard and
  -- the feed as they were.
  pub serve_http-IsAuthentic :
      (req : Request) (s : State)
      → (((serve_http out req s).state ≡ s) × ((serve_http out req s).status ≢ 200))
        ⊎ IsAuthentic out req
  unfolding serve_http drop
  serve_http-IsAuthentic req s = elim (Bool-cases (req.method == "POST")) [
    | inr other ↦ rw (other, serve_http) (inl (refl, ground arith))
    | inl post ↦ elim (Stream-cases req.stream) [
      | inl (arrived, cut) ↦ elim (Bool-cases (ltb max_body_bytes (length arrived))) [
        | inl large ↦ rw (post, cut, large, serve_http) (inl (refl, ground arith))
        | inr small ↦ rw (post, cut, small, serve_http) (inl (refl, ground arith))
      ]
      | inr (body, arrived) ↦ elim (Bool-cases (ltb max_body_bytes (length body))) [
        | inl large ↦ rw (post, arrived, large, serve_http) (inl (refl, ground arith))
        | inr small ↦
            subst (IsRefused req s) (sym (serve_http-serve_body req body s post arrived small))
              (serve_body-IsAuthentic req body s ((eq_iff req.method "POST").0 post) arrived small)
      ]
    ]
  ]

-- The feed after a delivery of this event, if it is not a replay.
abbrev pub fed : Feed → Bool → Result Feed → Feed
fed feed true r = feed
fed feed false (ok after) = after
fed feed false (err e) = feed

answer_state : (h : Handled) → (answer h).state ≡ h.state
unfolding answer drop
answer_state h = elim (Option-cases h.error) [
  | inl fine ↦ rw (fine, answer) refl
  | inr (e, wrong) ↦ rw (wrong, answer) refl
]

verified-effect :
    (out : Outside) (d : Delivery) (s : State)
    → let h = handle_verified out d s in
      (h.state.guard ≡ (seen d.id s.guard out.guard_now).1)
      × (h.state.feed
          ≡ fed s.feed (seen d.id s.guard out.guard_now).0 (dispatch out d.event d.body s.feed))
unfolding handle_verified
verified-effect out d s = elim (Bool-cases (seen d.id s.guard out.guard_now).0) [
  | inl old ↦ rw (old, handle_verified) (refl, refl)
  | inr new ↦ elim (Result-cases (dispatch out d.event d.body s.feed)) [
    | inl (after, done) ↦ rw (new, done, handle_verified) (refl, refl)
    | inr (e, failed) ↦ rw (new, failed, handle_verified) (refl, refl)
  ]
]

module _ (out : Outside) (req : Request) (s : State) (a : IsAuthentic out req) where
  abbrev delivery : Delivery
  delivery = record {
    event = req.event;
    id = req.id;
    signature = req.signature;
    target = req.target;
    body = a.body;
  }

  handle_authentic : handle out delivery s ≡ handle_verified out delivery s
  unfolding handle
  handle_authentic = rw (a.known, handle) (rw (a.signed, handle) refl)

  serve_delivery : serve_body out req a.body s ≡ answer (handle out delivery s)
  unfolding serve_body
  serve_delivery = rw (a.headers, serve_body) refl

  serve_authentic : serve_http out req s ≡ answer (handle_verified out delivery s)
  serve_authentic =
      serve_http-serve_body out req a.body s ((eq_iff req.method "POST").1 a.post) a.arrived a.small
      ∙ serve_delivery
      ∙ ap answer handle_authentic

  -- The guard sees an authentic delivery exactly once, and the feed takes its event exactly where the guard
  -- does not report a replay and the payload can be decoded.
  pub serve_http-effect :
      ((serve_http out req s).state.guard ≡ (seen req.id s.guard out.guard_now).1)
      × ((serve_http out req s).state.feed
          ≡ fed s.feed (seen req.id s.guard out.guard_now).0 (dispatch out req.event a.body s.feed))
  serve_http-effect =
      let same =
        ap (λ r. r.state) serve_authentic ∙ answer_state (handle_verified out delivery s) in
      let (guard, feed) = verified-effect out delivery s in
      (ap (λ t. t.guard) same ∙ guard, ap (λ t. t.feed) same ∙ feed)

frame_delivery_unsigned :
    (out : Outside) (headers : GoMap String) (signature : String) (body : Bytes)
    → frame_delivery out (insert "X-Hub-Signature-256" signature headers) body
      ≡ frame_delivery out headers body
unfolding frame_delivery
frame_delivery_unsigned out headers signature body = ground (
  arith,
  lookup-insert "X-Hub-Signature-256" "X-GitHub-Event" signature headers,
  lookup-insert "X-Hub-Signature-256" "X-GitHub-Delivery" signature headers,
  lookup-insert "X-Hub-Signature-256" "X-GitHub-Hook-Installation-Target-ID" signature headers,
)

-- The signature that a frame carries makes no difference: the tunnel does not verify it.
pub handle_frame_unsigned :
    (out : Outside) (headers : GoMap String) (signature : String) (body : Bytes) (s : State)
    → handle_frame out (insert "X-Hub-Signature-256" signature headers) body s
      ≡ handle_frame out headers body s
unfolding handle_frame
handle_frame_unsigned out headers signature body s =
    ap (λ d. handle_delivery out d s) (frame_delivery_unsigned out headers signature body)
