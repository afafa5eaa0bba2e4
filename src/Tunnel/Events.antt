-- ===== src/Tunnel/Events.antt =====
-- The events of a stream, described by its blocks of lines, and `readSSE` of internal/webhook/tunnel.go.
use Prim.Native.String.{◌++◌ as str_append}
use text.Mathlib.TextLemmas.{
  append_assoc as str_assoc, append-nil as str_append-nil, nil-append as str_nil-append,
  append-eq-nil_iff as str_append-eq-nil_iff,
}
use warmrunners.Base.{
  String, true, false, List, [], ◌∷◌, ◌++◌, map, Option, none, some, GoMap, Result, ◌≡◌, refl, sym,
  ◌∙◌, arith, All, if◌then◌else◌, ◌==◌, is_some, Bool-cases, Option-cases, eq_iff, inl, inr,
  append_assoc, append-nil,
}
use warmrunners.Webhook.{Bytes}
use warmrunners.Workflow.References.{cut_prefix}
use warmrunners.Tunnel.{Frame, Scanned, Body}
use warmrunners.Tunnel.Stream.{
  Pending, cut_colon, trim_one_space, write_data, take_field, take_line, flush_pending, read_line,
  read_from, read_sse,
}

-- The lines before each blank line; those behind the last one are left out.
unfoldable pub blocks_from : List String → List String → List (List String)
blocks_from block [] = []
blocks_from block (line ∷ lines) =
    let done = blocks_from [] lines in
    let more = blocks_from (block ++ (line ∷ [])) lines in if line == "" then block ∷ done else more

-- The value of a field on a line; a comment and a line without a colon have none.
unfoldable pub value_on : String → String → List String
value_on name line = if is_some (cut_prefix ":" line) then [] else elim (cut_colon line) [
  | none ↦ []
  | some (field, value) ↦ if field == name then trim_one_space value ∷ [] else []
]

unfoldable pub values : String → List String → List String
values name [] = []
values name (line ∷ block) = value_on name line ++ values name block

unfoldable pub last_of : List String → String
last_of [] = ""
last_of (v ∷ []) = v
last_of (v ∷ w ∷ vs) = last_of (w ∷ vs)

-- Each value behind a line break.
unfoldable pub broken_lines : List String → String
broken_lines [] = ""
broken_lines (v ∷ vs) = str_append (str_append "\n" v) (broken_lines vs)

-- The values from the first that is not empty on, with a line break between two of them.
unfoldable pub joined : List String → String
joined [] = ""
joined (v ∷ vs) = if v == "" then joined vs else str_append v (broken_lines vs)

-- The name and the data of a block.
unfoldable pub event_of : List String → Pending
event_of block = record {
  event_name = last_of (values "event" block);
  data_buf = joined (values "data" block);
}

broken_lines-append :
    (vs : List String) (w : String)
    → broken_lines (vs ++ (w ∷ [])) ≡ str_append (broken_lines vs) (str_append "\n" w)
unfolding broken_lines
broken_lines-append [] w =
    str_append-nil (str_append "\n" w) ∙ sym (str_nil-append (str_append "\n" w))
broken_lines-append (v ∷ vs) w =
    rw (broken_lines-append vs w)
      (sym (str_assoc (str_append "\n" v) (broken_lines vs) (str_append "\n" w)))

append-eqb : (v w : String) → (v == "") ≡ false → (str_append v w == "") ≡ false
append-eqb v w h = elim (Bool-cases (str_append v w == "")) [
  | inr full ↦ full
  | inl empty ↦ absurd (
      ground (
        arith,
        h,
        (eq_iff v "").1 (str_append-eq-nil_iff.0 ((eq_iff (str_append v w) "").0 empty)).0,
      ))
]

str_shift :
    (a b w : String)
    → str_append a (str_append b (str_append "\n" w))
      ≡ str_append (str_append (str_append a b) "\n") w
str_shift a b w = sym (str_assoc a b (str_append "\n" w)) ∙ sym (str_assoc (str_append a b) "\n" w)

joined-append : (vs : List String) (w : String) → joined (vs ++ (w ∷ [])) ≡ write_data (joined vs) w
unfolding joined write_data broken_lines
joined-append [] w = elim (Bool-cases (w == "")) [
  | inl empty ↦ rw (empty, str_nil-append w) (sym ((eq_iff w "").0 empty))
  | inr full ↦ rw (full, str_nil-append w) (str_append-nil w)
]
joined-append (v ∷ vs) w = elim (Bool-cases (v == "")) [
  | inl empty ↦ rw empty (joined-append vs w)
  | inr full ↦
      rw (full, append-eqb v (broken_lines vs) full, broken_lines-append vs w)
        (str_shift v (broken_lines vs) w)
]

last_of-append : (vs : List String) (w : String) → last_of (vs ++ (w ∷ [])) ≡ w
unfolding last_of
last_of-append [] w = refl
last_of-append (v ∷ []) w = refl
last_of-append (v ∷ u ∷ vs) w = last_of-append (u ∷ vs) w

values-append :
    (name : String) (block : List String) (line : String)
    → values name (block ++ (line ∷ [])) ≡ values name block ++ value_on name line
unfolding values
values-append name [] line = append-nil (value_on name line)
values-append name (l ∷ block) line =
    rw (values-append name block line)
      (sym (append_assoc (value_on name l) (values name block) (value_on name line)))

event_xor_data : (field : String) → (field == "event") ≡ true → (field == "data") ≡ false
event_xor_data field h = rw ((eq_iff field "event").0 h) refl

abbrev summary : List String → List String → Pending
summary names payloads = record { event_name = last_of names; data_buf = joined payloads }

take_field-summary :
    (field value : String) (names payloads : List String)
    → take_field field value (summary names payloads)
      ≡ summary
          (names ++ (if field == "event" then value ∷ [] else []))
          (payloads ++ (if field == "data" then value ∷ [] else []))
unfolding take_field
take_field-summary field value names payloads = elim (Bool-cases (field == "event")) [
  | inl event ↦
      rw (event, event_xor_data field event, append-nil payloads, last_of-append names value) refl
  | inr other ↦ elim (Bool-cases (field == "data")) [
    | inl payload ↦ rw (other, payload, append-nil names, joined-append payloads value) refl
    | inr ignored ↦ rw (other, ignored, append-nil names, append-nil payloads) refl
  ]
]

-- One more line makes the description of a block that of the longer block.
take_line-event_of :
    (line : String) (block : List String)
    → take_line line (event_of block) ≡ event_of (block ++ (line ∷ []))
unfolding take_line event_of value_on
take_line-event_of line block = elim (Bool-cases (is_some (cut_prefix ":" line))) [
  | inl comment ↦
      rw
        (
          values-append "event" block line,
          values-append "data" block line,
          value_on,
          comment,
          append-nil (values "event" block),
          append-nil (values "data" block),
        )
        refl
  | inr field_line ↦ elim (Option-cases (cut_colon line)) [
    | inl whole ↦
        rw
          (
            values-append "event" block line,
            values-append "data" block line,
            value_on,
            field_line,
            whole,
            append-nil (values "event" block),
            append-nil (values "data" block),
          )
          refl
    | inr (parts, found) ↦
        rw
          (
            values-append "event" block line,
            values-append "data" block line,
            value_on,
            field_line,
            found,
          )
          (take_field-summary parts.0 (trim_one_space parts.1) (values "event" block)
            (values "data" block))
  ]
]

module _ {S : Type 0} (decode : String → Result Frame) (handle : GoMap String → Bytes → S → S) where
  -- The events of the blocks, one after the other; one without data is not dispatched.
  unfoldable pub deliver : List (List String) → S → S
  deliver [] s = s
  deliver (block ∷ blocks) s = deliver blocks (flush_pending decode handle (event_of block) s)

  -- The context is not cancelled while the lines are read.
  abbrev pub IsLive : Scanned → Type 0
  IsLive l = l.cancelled ≡ false

  read_from-deliver :
      (lines : List Scanned) (scan_err : Option String) (block : List String) (s : S)
      → All IsLive lines
      → read_from decode handle lines scan_err (event_of block) s
        ≡ (scan_err, deliver (blocks_from block (map (λ l. l.text) lines)) s)
  unfolding read_from read_line deliver blocks_from event_of last_of joined values
  read_from-deliver [] scan_err block s live = refl
  read_from-deliver (l ∷ lines) scan_err block s live = elim (Bool-cases (l.text == "")) [
    | inl blank ↦
        rw (blank, live.0)
          (read_from-deliver lines scan_err [] (flush_pending decode handle (event_of block) s)
            live.1)
    | inr full ↦
        rw (full, live.0, take_line-event_of l.text block)
          (read_from-deliver lines scan_err (block ++ (l.text ∷ [])) s live.1)
  ]

  -- While the context lives, a stream is delivered as its blocks say: for each run of lines before a blank
  -- line, in order, the last `event` value and the `data` values with line breaks between them, from the
  -- first that is not empty on; comments, other fields and what follows the last blank line count for
  -- nothing, and the error of the scanner is returned.
  pub read_sse-deliver :
      (body : Body) (s : S)
      → All IsLive body.lines
      → read_sse decode handle body s
        ≡ (body.scan_err, deliver (blocks_from [] (map (λ l. l.text) body.lines)) s)
  unfolding read_sse event_of last_of joined values
  read_sse-deliver body s live = read_from-deliver body.lines body.scan_err [] s live
