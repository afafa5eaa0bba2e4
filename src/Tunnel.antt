-- ===== src/Tunnel.antt =====
-- internal/webhook/tunnel.go: frames that a relay sends as server-sent events. The lines are what
-- `bufio.Scanner` delivers, each with whether the context is cancelled by then.
pub mod Stream
pub mod Events
pub mod Loop
pub mod Backoff
pub mod Ladder
pub mod Registry
pub mod Ownership
pub mod Calls
use warmrunners.Base.{String, Bool, List, Option, GoMap, ◌∷◌, []}
use warmrunners.Webhook.{Bytes}

-- `frame`
pub record Frame : Type 0 where
  pub event : String
  pub delivery : String
  pub signature : String
  pub target_id : String
  pub body : Bytes

-- `headers`
unfoldable pub frame_headers : Frame → GoMap String
frame_headers f =
    ("X-GitHub-Event", f.event)
    ∷ ("X-GitHub-Delivery", f.delivery)
    ∷ ("X-Hub-Signature-256", f.signature)
    ∷ ("X-GitHub-Hook-Installation-Target-ID", f.target_id)
    ∷ []

-- A line, and whether the context is cancelled when it is read.
pub record Scanned : Type 0 where
  pub text : String
  pub cancelled : Bool

-- The body of a response: its lines, and what `scanner.Err` returns behind them.
pub record Body : Type 0 where
  pub lines : List Scanned
  pub scan_err : Option String
