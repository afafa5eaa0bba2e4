-- ===== src/Tunnel/Stream.antt =====
-- `readSSE` and `dispatch` of internal/webhook/tunnel.go. The handler and the decoding of JSON are
-- parameters; what the handler returns is only logged.
use Prim.Native.Char.{code}
use Prim.Native.String.{◌++◌ as str_append}
use warmrunners.Base.{
  String, List, [], ◌∷◌, Option, none, some, GoMap, Result, ok, err, ◌&&◌, if◌then◌else◌, ◌==◌,
  nat_eq, is_some,
}
use warmrunners.Webhook.{Bytes}
use warmrunners.Workflow.References.{cut_prefix}
use warmrunners.Tunnel.{Frame, frame_headers, Scanned, Body}

-- `eventName` and `dataBuf`
pub record Pending : Type 0 where
  pub event_name : String
  pub data_buf : String

abbrev pub nothing_pending : Pending
nothing_pending = record { event_name = ""; data_buf = "" }

-- `strings.Cut(line, ":")`
unfoldable pub cut_colon : String → Option (String × String)
cut_colon String.[] = none
cut_colon (String.◌∷◌ c s) =
    let rest = cut_colon s in
    if nat_eq (code c) b':'
    then some ("", s)
    else elim rest [ none ↦ none | some p ↦ some (String.◌∷◌ c p.0, p.1) ]

-- `strings.TrimPrefix(value, " ")`
unfoldable pub trim_one_space : String → String
trim_one_space value = elim (cut_prefix " " value) [ none ↦ value | some rest ↦ rest ]

unfoldable pub write_data : String → String → String
write_data buf value = str_append (if buf == "" then "" else str_append buf "\n") value

unfoldable pub take_field : String → String → Pending → Pending
take_field field value p =
    if field == "event"
    then record p { event_name = value }
    else if field == "data"
    then record p { data_buf = write_data p.data_buf value }
    else p

-- A line that is not blank.
unfoldable pub take_line : String → Pending → Pending
take_line line p = if is_some (cut_prefix ":" line) then p else elim (cut_colon line) [
  | none ↦ p
  | some (field, value) ↦ take_field field (trim_one_space value) p
]

module _ {S : Type 0} (decode : String → Result Frame) (handle : GoMap String → Bytes → S → S) where
  unfoldable pub dispatch_event : String → String → S → S
  dispatch_event event_name payload s = if event_name == "ready" then s else elim (decode payload) [
    | err e ↦ s
    | ok f ↦
        if f.event == "" && f.delivery == "" && f.signature == ""
        then s
        else handle (frame_headers f) f.body s
  ]

  -- A blank line dispatches what has accumulated, if any.
  unfoldable pub flush_pending : Pending → S → S
  flush_pending p s = if p.data_buf == "" then s else dispatch_event p.event_name p.data_buf s

  unfoldable pub read_line : String → Pending → S → Pending × S
  read_line line p s =
      if line == "" then (nothing_pending, flush_pending p s) else (take_line line p, s)

  unfoldable pub read_from : List Scanned → Option String → Pending → S → Option String × S
  read_from [] scan_err p s = (scan_err, s)
  read_from (l ∷ lines) scan_err p s =
      let next = read_line l.text p s in
      let rest = read_from lines scan_err next.0 next.1 in if l.cancelled then (none, s) else rest

  -- The error that is returned, and what the handler has made of its state.
  unfoldable pub read_sse : Body → S → Option String × S
  read_sse body s = read_from body.lines body.scan_err nothing_pending s
