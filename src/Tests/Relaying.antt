-- ===== src/Tests/Relaying.antt =====
-- The theorems on the tunnel.
use warmrunners.Base.{
  length, ◌≤◌, ℕ, zero, suc, ◌+◌, String, Bool, true, false, List, [], ◌∷◌, map, none, GoMap,
  Result, ok, ◌≡◌, refl, arith, All, pos, ◌≤ℤ◌, ◌<ℤ◌,
}
use warmrunners.Clock.{Duration}
use warmrunners.Webhook.{Bytes}
use warmrunners.Tunnel.{Frame, Scanned, Body}
use warmrunners.Tunnel.Stream.{read_sse}
use warmrunners.Tunnel.Events.{deliver, blocks_from, read_sse-deliver}
use warmrunners.Tunnel.Loop.{Answer, Round, Tunnel, cap_of, start}
use warmrunners.Tunnel.Backoff.{IsBounded, start-returns}
use warmrunners.Tunnel.Ladder.{ladder_waits, start-ladder, start-closed}
use warmrunners.Tunnel.Registry.{new_registry, get_tunnel}
use warmrunners.Tunnel.Ownership.{running_of}
use warmrunners.Tunnel.Calls.{
  RegistryCall, apply_calls, wished, at_most_one, apply_calls-running, late,
}

-- A decoding that keeps the text as the delivery, and a handler that collects the headers.
abbrev decode_text : String → Result Frame
decode_text payload =
    ok (record { event = "push"; delivery = payload; signature = ""; target_id = "7"; body = [] })

abbrev collect : GoMap String → Bytes → List (GoMap String) → List (GoMap String)
collect found body seen = found ∷ seen

abbrev live_line : String → Scanned
live_line text = record { text = text; cancelled = false }

-- A comment, the first event, a push of two lines, and one that is cut off.
abbrev relayed : Body
relayed = record {
  lines = map live_line (
      ":ping" ∷ "event: ready" ∷ "data: {}" ∷ "" ∷ "data: one" ∷ "data: two" ∷ "" ∷ "data: three"
      ∷ []);
  scan_err = none;
}

read_sse-deliver_example :
    read_sse decode_text collect relayed []
    ≡ (none, deliver decode_text collect (blocks_from [] (map (λ l. l.text) relayed.lines)) [])
read_sse-deliver_example =
    read_sse-deliver decode_text collect relayed []
      (refl, (refl, (refl, (refl, (refl, (refl, (refl, (refl, tt))))))))

-- One frame is handled, with both of its lines.
relayed_once :
    (read_sse decode_text collect relayed []).1
    ≡ (("X-GitHub-Event", "push")
        ∷ ("X-GitHub-Delivery", "one\ntwo")
        ∷ ("X-Hub-Signature-256", "")
        ∷ ("X-GitHub-Hook-Installation-Target-ID", "7")
        ∷ [])
      ∷ []
unfolding read_sse warmrunners.Tunnel.Stream.read_from warmrunners.Tunnel.Stream.read_line
    warmrunners.Tunnel.Stream.flush_pending warmrunners.Tunnel.Stream.take_line
    warmrunners.Workflow.References.cut_prefix warmrunners.Tunnel.Stream.cut_colon
    warmrunners.Tunnel.Stream.take_field warmrunners.Tunnel.Stream.write_data
    warmrunners.Tunnel.Stream.trim_one_space warmrunners.Tunnel.Stream.dispatch_event
    warmrunners.Tunnel.frame_headers
relayed_once = refl

abbrev nowhere : Duration → Duration
nowhere d = pos 0

abbrev refused_round : Bool → Round
refused_round stopped = record {
  stopped_before = stopped;
  answer = Answer.dial_failed "refused";
  stopped_after = false;
  int64_n = nowhere;
  stopped_waiting = false;
}

-- The context is cancelled behind the second round.
abbrev two_rounds : ℕ → Round
two_rounds zero = refused_round false
two_rounds (suc zero) = refused_round false
two_rounds (suc (suc n)) = refused_round true

two_rounds-random :
    (k : ℕ) (d : Duration)
    → pos 0 <ℤ d
    → (pos 0 ≤ℤ (two_rounds k).int64_n d) × ((two_rounds k).int64_n d <ℤ d)
two_rounds-random zero d h = (omega arith, h)
two_rounds-random (suc zero) d h = (omega arith, h)
two_rounds-random (suc (suc k)) d h = (omega arith, h)

abbrev closed_tunnel : Tunnel (List (GoMap String))
closed_tunnel = record { connected = false; failures = 0; successes = 0; handled = [] }

start-returns_example :
    let done = start decode_text collect (pos 0) two_rounds 5 closed_tunnel in
    (done.returned ≡ true)
    × (done.tunnel.connected ≡ false)
    × All (IsBounded (cap_of (pos 0))) done.waits
start-returns_example =
    start-returns decode_text collect (pos 0) two_rounds 2 5 closed_tunnel refl (omega arith)
      two_rounds-random

start-ladder_example :
    (start decode_text collect (pos 0) (λ k. refused_round false) 3 closed_tunnel).waits
    ≡ ladder_waits decode_text collect (pos 0) (λ k. refused_round false) 3 0
start-ladder_example =
    start-ladder decode_text collect (pos 0) (λ k. refused_round false) 3 closed_tunnel
      (λ k. record { before = refl; refused = tt; after = refl; waiting = refl }) (omega arith)

abbrev closed_round : Round
closed_round = record {
  stopped_before = false;
  answer = Answer.answered 200 relayed;
  stopped_after = false;
  int64_n = nowhere;
  stopped_waiting = false;
}

start-closed_example :
    let done = start decode_text collect (pos 0) (λ k. closed_round) 3 closed_tunnel in
    (done.waits ≡ []) × (done.tunnel.successes ≡ 3 + closed_tunnel.successes)
start-closed_example =
    start-closed decode_text collect (pos 0) (λ k. closed_round) 3 closed_tunnel
      (λ k. record { before = refl; body = relayed; opened = refl; clean = refl })

abbrev moved : List RegistryCall
moved =
    RegistryCall.ensure_call true "app" "https://smee.io/a"
    ∷ RegistryCall.ensure_call true "other" "https://smee.io/b"
    ∷ RegistryCall.stop_call true "other"
    ∷ RegistryCall.ensure_call false "app" "https://smee.io/c"
    ∷ []

apply_calls-running_example :
    let after = apply_calls moved new_registry in
    (map (λ x. x.url) (running_of "app" after.running) ≡ at_most_one (wished moved "app" none))
    × (map (λ x. x.client) (running_of "app" after.running) ≡ at_most_one (get_tunnel "app" after))
    × (length after.lingering ≤ late moved)
apply_calls-running_example = apply_calls-running moved "app"
