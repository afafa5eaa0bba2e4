-- ===== src/Tests/Workflows.antt =====
-- The theorems on workflow files, at a matrix of two rows and a workflow of two jobs.
use warmrunners.Base.{
  ℕ, ◌+◌, ◌≤◌, String, Bool, true, false, List, [], ◌∷◌, map, Option, none, some, GoMap, lookup,
  Result, ok, ◌≡◌, refl, ◌↔◌, arith, length,
}
use mathlib.Core.List.{Memᴰ}
use warmrunners.Base.Sort.{sort}
use warmrunners.Workflow.{
  RawYaml, MatrixRow, MatrixCombination, MatrixCombinations, Matrix, Runner, JobNode, WorkflowNode,
  Actionlint, Workflow, Strategy, WorkflowCall,
}
use warmrunners.Workflow.Combos.{
  Combo, MatrixAxis, axis_less, axes_of, map_matrix, apply_exclude, apply_include,
}
use warmrunners.Workflow.Product.{choices, sizes_product}
use warmrunners.Workflow.Crossing.{map_matrix-choices}
use warmrunners.Workflow.Exclusion.{IsExcluded, apply_exclude_iff}
use warmrunners.Workflow.Inclusion.{KeepsRows, apply_include-KeepsRows, map_matrix-include_only}
use warmrunners.Workflow.Documents.{documents, with_content, reject_multi_doc, reject_multi_doc_iff}
use warmrunners.Workflow.References.{single_matrix_ref, classify_uses, UsesKind}
use warmrunners.Workflow.Jobs.{map_job, parse}
use warmrunners.Workflow.Jobs.{uses_of}
use warmrunners.Workflow.Flags.{IsCallOf, IsFlagged, map_job-IsFlagged}

abbrev row : String → String → MatrixRow
row a b = record { values = RawYaml.text a ∷ RawYaml.text b ∷ []; expression = none }

abbrev os_go : Matrix
os_go = record {
  rows = ("os", some (row "linux" "mac")) ∷ ("go", some (row "1.22" "1.23")) ∷ [];
  include = none;
  exclude = none;
  expression = none;
}

abbrev on_linux : Option Runner
on_linux = some (record { labels = some "linux" ∷ []; labels_expr = none; group = none })

abbrev build_job : JobNode
build_job = record { needs = []; runs_on = on_linux; strategy = none; workflow_call = none }

abbrev matrix_job : JobNode
matrix_job = record {
  needs = some "build" ∷ [];
  runs_on = some (record { labels = []; labels_expr = some "${{ matrix.os }}"; group = none });
  strategy = some (record { matrix = some os_go });
  workflow_call = none;
}

abbrev pub ci_tree : WorkflowNode
ci_tree = record { jobs = ("build", build_job) ∷ ("test", matrix_job) ∷ [] }

-- A parser that reads every text as the same tree.
abbrev pub always : WorkflowNode → Actionlint
always tree = record {
  parse_ast = λ raw. (some tree, []);
  contains_expression = λ s. false;
  combinations_contain_expression = λ c. false;
}

abbrev os_axis : MatrixAxis
os_axis = record { name = "os"; values = "linux" ∷ "mac" ∷ [] }

abbrev go_axis : MatrixAxis
go_axis = record { name = "go"; values = "1.22" ∷ "1.23" ∷ [] }

map_matrix-choices_example :
    (map_matrix (always ci_tree) os_go
      ≡ record { combos = choices (sort axis_less (os_axis ∷ go_axis ∷ [])); dynamic = false })
    × (length (map_matrix (always ci_tree) os_go).combos ≡ sizes_product (os_axis ∷ go_axis ∷ []))
unfolding axes_of lookup warmrunners.Workflow.Combos.as_raw
map_matrix-choices_example =
    map_matrix-choices (always ci_tree) os_go (os_axis ∷ go_axis ∷ []) (refl, (refl, tt)) refl refl
      refl refl

abbrev linux_old : Combo
linux_old = ("os", "linux") ∷ ("go", "1.22") ∷ []

abbrev mac_new : Combo
mac_new = ("os", "mac") ∷ ("go", "1.23") ∷ []

abbrev no_mac : MatrixCombinations
no_mac = record {
  combinations =
      some (record { assigns = ("os", some (RawYaml.text "mac")) ∷ []; expression = none }) ∷ [];
  expression = none;
}

apply_exclude_iff_example :
    Memᴰ mac_new (apply_exclude (linux_old ∷ mac_new ∷ []) no_mac)
    ↔ (Memᴰ mac_new (linux_old ∷ mac_new ∷ []) × (¬ IsExcluded no_mac.combinations mac_new))
apply_exclude_iff_example = apply_exclude_iff (linux_old ∷ mac_new ∷ []) no_mac mac_new

apply_include-KeepsRows_example :
    KeepsRows
      ("os" ∷ "go" ∷ [])
      (linux_old ∷ mac_new ∷ [])
      (apply_include (linux_old ∷ mac_new ∷ []) (os_axis ∷ go_axis ∷ []) no_mac)
    × (length (apply_include (linux_old ∷ mac_new ∷ []) (os_axis ∷ go_axis ∷ []) no_mac) ≤ 2 + 1)
apply_include-KeepsRows_example =
    apply_include-KeepsRows (linux_old ∷ mac_new ∷ []) (os_axis ∷ go_axis ∷ []) no_mac

abbrev entry : String → Option MatrixCombination
entry os = some (record { assigns = ("os", some (RawYaml.text os)) ∷ []; expression = none })

abbrev three_entries : MatrixCombinations
three_entries = record {
  combinations = entry "linux" ∷ entry "mac" ∷ entry "windows" ∷ [];
  expression = none;
}

abbrev include_only : Matrix
include_only = record { rows = []; include = some three_entries; exclude = none; expression = none }

map_matrix-include_only_example :
    ((map_matrix (always ci_tree) include_only).dynamic ≡ false)
    × (length (map_matrix (always ci_tree) include_only).combos ≡ 1)
map_matrix-include_only_example =
    map_matrix-include_only (always ci_tree) include_only three_entries refl refl refl refl refl

-- The same job as a call of a local workflow.
abbrev calling_job : JobNode
calling_job = record matrix_job { workflow_call = some (record { uses = some "./build.yml" }) }

map_job-IsFlagged_example :
    IsFlagged (map_job (always ci_tree) "test" calling_job)
    × IsCallOf (uses_of (always ci_tree) calling_job) (map_job (always ci_tree) "test" calling_job)
map_job-IsFlagged_example = map_job-IsFlagged (always ci_tree) "test" calling_job

reject_multi_doc_iff_example :
    (reject_multi_doc "---\na: 1\n---\n# end\n" ≡ none)
    ↔ (with_content (documents "---\na: 1\n---\n# end\n") ≤ 1)
reject_multi_doc_iff_example = reject_multi_doc_iff "---\na: 1\n---\n# end\n"

one_document : reject_multi_doc "---\na: 1\n---\n# end\n" ≡ none
unfolding reject_multi_doc warmrunners.Workflow.Documents.count_docs
    warmrunners.Workflow.Documents.split_lines warmrunners.Workflow.Documents.is_separator
    warmrunners.Workflow.Documents.trim_line warmrunners.Workflow.Documents.is_blank
    warmrunners.Workflow.Documents.flush warmrunners.Workflow.Documents.has_content
    warmrunners.Demand.Retry.trim_space warmrunners.Demand.Retry.trim_right
    warmrunners.Demand.Retry.trim_left warmrunners.Scheduler.Sscanf.is_space
    warmrunners.Workflow.Documents.starts_comment
one_document = refl

two_documents : reject_multi_doc "a: 1\n---\nb: 2" ≡ some "multi-document YAML not supported"
unfolding reject_multi_doc warmrunners.Workflow.Documents.count_docs
    warmrunners.Workflow.Documents.split_lines warmrunners.Workflow.Documents.is_separator
    warmrunners.Workflow.Documents.trim_line warmrunners.Workflow.Documents.is_blank
    warmrunners.Workflow.Documents.flush warmrunners.Workflow.Documents.has_content
    warmrunners.Demand.Retry.trim_space warmrunners.Demand.Retry.trim_right
    warmrunners.Demand.Retry.trim_left warmrunners.Scheduler.Sscanf.is_space
    warmrunners.Workflow.Documents.starts_comment
two_documents = refl

matrix_os : single_matrix_ref " ${{ matrix.os }} " ≡ some "os"
unfolding single_matrix_ref warmrunners.Workflow.References.cut_prefix
    warmrunners.Demand.Retry.trim_space warmrunners.Demand.Retry.trim_right
    warmrunners.Demand.Retry.trim_left warmrunners.Scheduler.Sscanf.is_space
    warmrunners.Activity.has_suffix warmrunners.Workflow.References.drop_two
    warmrunners.Workflow.References.contains_any warmrunners.Workflow.References.has_char
matrix_os = refl

two_references : single_matrix_ref "${{ matrix.os }}-${{ matrix.go }}" ≡ none
unfolding single_matrix_ref warmrunners.Workflow.References.cut_prefix
    warmrunners.Demand.Retry.trim_space warmrunners.Demand.Retry.trim_right
    warmrunners.Demand.Retry.trim_left warmrunners.Scheduler.Sscanf.is_space
    warmrunners.Activity.has_suffix warmrunners.Workflow.References.drop_two
    warmrunners.Workflow.References.contains_any warmrunners.Workflow.References.has_char
two_references = refl

local_call : classify_uses "./.github/workflows/x.yml" ≡ UsesKind.uses_local
unfolding classify_uses
local_call = refl

resolved_labels : (map_job (always ci_tree) "test" matrix_job).runs_on.labels ≡ "linux" ∷ []
unfolding map_job warmrunners.Workflow.Jobs.uses_of warmrunners.Workflow.Jobs.finish_job
    warmrunners.Workflow.Jobs.resolve_runs_on warmrunners.Workflow.Jobs.matrix_of
    warmrunners.Workflow.Jobs.map_labels warmrunners.Workflow.Jobs.map_runs_on map_matrix
    warmrunners.Workflow.Combos.literal_combos warmrunners.Workflow.Combos.combos_of
    warmrunners.Workflow.Combos.excluded warmrunners.Workflow.Combos.included
    warmrunners.Workflow.Combos.as_raw warmrunners.Workflow.Combos.expand_row
    warmrunners.Workflow.Combos.expand_rows warmrunners.Workflow.Combos.with_values axes_of
    axis_less sort warmrunners.Base.Sort.insort warmrunners.Base.str_lt lookup
    warmrunners.Base.insert single_matrix_ref warmrunners.Workflow.References.resolve_matrix_runs_on
    warmrunners.Workflow.References.cut_prefix warmrunners.Workflow.References.drop_two
    warmrunners.Workflow.References.contains_any warmrunners.Workflow.References.has_char
    warmrunners.Workflow.References.matrix_key warmrunners.Demand.Retry.trim_space
    warmrunners.Demand.Retry.trim_right warmrunners.Demand.Retry.trim_left
    warmrunners.Scheduler.Sscanf.is_space warmrunners.Activity.has_suffix
resolved_labels = refl
