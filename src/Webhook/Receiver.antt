-- ===== src/Webhook/Receiver.antt =====
-- The path of a delivery: internal/webhook/receiver.go.
use Prim.Native.String.{◌++◌ as str_append}
use warmrunners.Base.{
  ℕ, String, not, ◌||◌, Option, none, some, List, [], ◌∷◌, ◌++◌, ok, err, GoMap, lookup, length,
  ltb, if◌then◌else◌, ◌==◌, nat_eq,
}
use warmrunners.Activity.Feed.{Feed}
use warmrunners.Webhook.{Bytes, Outside}
use warmrunners.Webhook.Replay.{ReplayGuard, seen}
use warmrunners.Webhook.Verify.{verify_signature}
use warmrunners.Webhook.Dispatch.{resolve, dispatch}

-- `DeliveriesDropped` with its reason, `EventsTotal` with its event and its path, and one observation
-- of `LagSeconds`.
pub data Tally : Type 0 where
  dropped : String → Tally
  counted : String → String → Tally
  lag : String → Tally

-- What outlives a delivery: the guard, and the feed that the dispatcher writes.
pub record State : Type 0 where
  pub guard : ReplayGuard
  pub feed : Feed

-- The status that `handle` returns (0 for a frame, which has none), its error, and what it did.
pub record Handled : Type 0 where
  pub status : ℕ
  pub error : Option String
  pub state : State
  pub tallies : List Tally

pub record Delivery : Type 0 where
  pub event : String
  pub id : String
  pub signature : String
  pub target : String
  pub body : Bytes

-- The body of a request: complete, or what had arrived when the connection failed.
pub data Stream : Type 0 where
  complete : Bytes → Stream
  broken : Bytes → Stream

pub record Request : Type 0 where
  pub method : String
  -- the four headers, "" where one is missing
  pub event : String
  pub id : String
  pub signature : String
  pub target : String
  pub stream : Stream

abbrev pub max_body_bytes : ℕ
max_body_bytes = 1048576

-- The tallies of an accepted delivery.
unfoldable pub accepted : String → List Tally
accepted event = counted event "true" ∷ (if event == "ping" then [] else lag event ∷ [])

abbrev refuse : ℕ → String → State → Handled
refuse status e s = record { status = status; error = some e; state = s; tallies = [] }

-- `dropReasonForStatus`
unfoldable pub drop_reason_for_status : ℕ → String
drop_reason_for_status status =
    if nat_eq status 404
    then "unknown_app"
    else if nat_eq status 401
    then "hmac_invalid"
    else "malformed"

-- What `ServeHTTP` answers, the state that it leaves and its tallies.
pub record Served : Type 0 where
  pub status : ℕ
  pub state : State
  pub tallies : List Tally

-- `drop`
unfoldable pub drop : ℕ → String → State → List Tally → Served
drop status reason s tallies = record {
  status = status;
  state = s;
  tallies = tallies ++ dropped reason ∷ [];
}

-- The end of `ServeHTTP`.
unfoldable pub answer : Handled → Served
unfolding drop
answer h = elim h.error [
  | none ↦ record { status = h.status; state = h.state; tallies = h.tallies }
  | some e ↦ drop h.status (drop_reason_for_status h.status) h.state h.tallies
]

module _ (out : Outside) where
  -- The part of `handle` behind the signature.
  unfoldable pub handle_verified : Delivery → State → Handled
  handle_verified d s =
      let (replayed, guard) = seen d.id s.guard out.guard_now in
      if replayed
      then record {
        status = 200;
        error = none;
        state = record s { guard = guard };
        tallies = dropped "replay" ∷ [];
      }
      else elim (dispatch out d.event d.body s.feed) [
        | err e ↦ record {
          status = 500;
          error = some (str_append "webhook: dispatch: " e);
          state = record s { guard = guard };
          tallies = [];
        }
        | ok feed ↦ record {
          status = 200;
          error = none;
          state = record { guard = guard; feed = feed };
          tallies = accepted d.event;
        }
      ]

  -- `handle`
  unfoldable pub handle : Delivery → State → Handled
  unfolding handle_verified
  handle d s = elim (resolve out d.target) [
    | err e ↦ refuse 404 (str_append "webhook: unknown installation target: " e) s
    | ok (app, secret) ↦ elim (verify_signature out.mac d.body d.signature secret) [
      | some e ↦ refuse 401 (str_append "webhook: invalid signature: " e) s
      | none ↦ handle_verified d s
    ]
  ]

  -- `ServeHTTP` behind the reading of the body.
  unfoldable pub serve_body : Request → Bytes → State → Served
  unfolding answer handle
  serve_body req body s =
      if req.event == "" || req.id == "" || req.signature == "" || req.target == ""
      then drop 400 "malformed" s []
      else answer (
          handle
            (record {
              event = req.event;
              id = req.id;
              signature = req.signature;
              target = req.target;
              body = body;
            })
            s)

  unfoldable pub serve_http : Request → State → Served
  unfolding serve_body
  serve_http req s =
      if not (req.method == "POST")
      then record { status = 405; state = s; tallies = [] }
      else elim req.stream [
        | broken arrived ↦
            if ltb max_body_bytes (length arrived)
            then drop 413 "body_too_large" s []
            else drop 400 "malformed" s []
        | complete body ↦
            if ltb max_body_bytes (length body)
            then drop 413 "body_too_large" s []
            else serve_body req body s
      ]

  -- A header of a tunnel frame, "" where it is missing.
  abbrev pub header : GoMap String → String → String
  header headers name = elim (lookup name headers) [ none ↦ "" | some value ↦ value ]

  -- The delivery of a tunnel frame; its signature is not read.
  unfoldable pub frame_delivery : GoMap String → Bytes → Delivery
  frame_delivery headers body = record {
    event = header headers "X-GitHub-Event";
    id = header headers "X-GitHub-Delivery";
    signature = "";
    target = header headers "X-GitHub-Hook-Installation-Target-ID";
    body = body;
  }

  -- `HandleFrame`, behind the reading of the headers.
  unfoldable pub handle_delivery : Delivery → State → Handled
  handle_delivery d s =
      if d.event == "" || d.id == "" || d.target == ""
      then refuse 0 "webhook: malformed tunnel frame: missing required header" s
      else elim (resolve out d.target) [
        | err e ↦ refuse 0 (str_append "webhook: unknown installation target: " e) s
        | ok found ↦
            let (replayed, guard) = seen d.id s.guard out.guard_now in
            if replayed
            then record {
              status = 0;
              error = none;
              state = record s { guard = guard };
              tallies = dropped "replay" ∷ [];
            }
            else elim (dispatch out d.event d.body s.feed) [
              | err e ↦ record {
                status = 0;
                error = some (str_append "webhook: dispatch: " e);
                state = record s { guard = guard };
                tallies = [];
              }
              | ok feed ↦ record {
                status = 0;
                error = none;
                state = record { guard = guard; feed = feed };
                tallies = counted d.event "tunnel" ∷ [];
              }
            ]
      ]

  -- What `HandleFrame` returns, the state that it leaves and its tallies.
  unfoldable pub handle_frame : GoMap String → Bytes → State → Handled
  handle_frame headers body s = handle_delivery (frame_delivery headers body) s
