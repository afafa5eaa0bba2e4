-- ===== src/Workflow/Documents.antt =====
-- `rejectMultiDoc` of internal/predictor/workflow/parse.go. A text is its code points: the bytes of
-- a file are taken as valid UTF-8.
use Prim.Native.Char.{Char, code}
use warmrunners.Base.{
  ℕ, suc, ◌+◌, ◌≤◌, ◌≡◌, inl, inr, ◌↔◌, arith, String, Bool, true, false, ◌&&◌, ◌||◌, List, [], ◌∷◌,
  Option, none, some, if◌then◌else◌, ◌==◌, nat_eq, leb, Bool-cases,
}
use warmrunners.Demand.Retry.{trim_space}

abbrev pub extend_line : Char → List String → List String
extend_line c [] = String.◌∷◌ c String.[] ∷ []
extend_line c (l ∷ lines) = String.◌∷◌ c l ∷ lines

-- `bytes.Split(raw, "\n")`
unfoldable pub split_lines : String → List String
split_lines String.[] = String.[] ∷ []
split_lines (String.◌∷◌ c s) =
    let lines = split_lines s in
    if nat_eq (code c) 10 then String.[] ∷ lines else extend_line c lines

-- `bytes.TrimRight(l, " \t\r")`
unfoldable pub is_blank : ℕ → Bool
is_blank c = nat_eq c 32 || nat_eq c 9 || nat_eq c 13

unfoldable pub trim_line : String → String
trim_line String.[] = String.[]
trim_line (String.◌∷◌ c s) =
    let rest = trim_line s in
    if is_blank (code c) && rest == "" then String.[] else String.◌∷◌ c rest

unfoldable pub is_separator : String → Bool
is_separator line = trim_line line == "---"

unfoldable pub starts_comment : String → Bool
starts_comment String.[] = false
starts_comment (String.◌∷◌ c s) = nat_eq (code c) b'#'

-- A line that is neither blank nor a comment.
unfoldable pub has_content : String → Bool
unfolding is_separator
has_content line =
    let trim = trim_space (trim_line line) in
    if trim == "" then false else if starts_comment trim then false else true

unfoldable pub flush : ℕ → Bool → ℕ
flush docs current = if current then suc docs else docs

-- The loop of `rejectMultiDoc` over `docs` and `currentHasContent`, with the last `flush`.
unfoldable pub count_docs : ℕ → Bool → List String → ℕ
count_docs docs current [] = flush docs current
count_docs docs current (l ∷ lines) = elim (is_separator l) [
  | true ↦ count_docs (flush docs current) false lines
  | false ↦ count_docs docs (current || has_content l) lines
]

unfoldable pub reject_multi_doc : String → Option String
reject_multi_doc raw =
    if leb 2 (count_docs 0 false (split_lines raw))
    then some "multi-document YAML not supported"
    else none

-- Whether one of the lines has content.
unfoldable pub any_content : List String → Bool
any_content [] = false
any_content (l ∷ lines) = has_content l || any_content lines

-- The lines up to the next separator, and the documents after it.
unfoldable pub first_document : List String → List String
first_document [] = []
first_document (l ∷ lines) =
    let rest = first_document lines in if is_separator l then [] else l ∷ rest

unfoldable pub later_documents : List String → List (List String)
later_documents [] = []
later_documents (l ∷ lines) =
    let rest = later_documents lines in if is_separator l then first_document lines ∷ rest else rest

unfoldable pub with_content : List (List String) → ℕ
with_content [] = 0
with_content (d ∷ documents) = (if any_content d then 1 else 0) + with_content documents

count_docs-documents :
    (docs : ℕ) (current : Bool) (lines : List String)
    → count_docs docs current lines
      ≡ docs
        + (if current || any_content (first_document lines) then 1 else 0)
        + with_content (later_documents lines)
unfolding count_docs flush any_content first_document later_documents with_content
count_docs-documents docs true [] = omega arith
count_docs-documents docs false [] = omega arith
count_docs-documents docs current (l ∷ lines) = elim (Bool-cases (is_separator l)) [
  | inl sep ↦
      rw (sep, count_docs)
        (ground (arith, sep, count_docs-documents (flush docs current) false lines))
  | inr line ↦
      rw (line, count_docs)
        (ground (arith, line, count_docs-documents docs (current || has_content l) lines))
]

-- The documents of a text: what stands between the separators.
unfoldable pub documents : String → List (List String)
documents raw = let lines = split_lines raw in first_document lines ∷ later_documents lines

-- `rejectMultiDoc` accepts a text exactly when at most one of its documents has a line that is
-- neither blank nor a comment.
pub reject_multi_doc_iff :
    (raw : String) → (reject_multi_doc raw ≡ none) ↔ (with_content (documents raw) ≤ 1)
unfolding reject_multi_doc documents with_content
reject_multi_doc_iff raw =
    let counted = count_docs-documents 0 false (split_lines raw) in
    (λ h. ground (arith, counted), λ h. ground (arith, counted))
