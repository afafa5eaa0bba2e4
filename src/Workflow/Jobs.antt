-- ===== src/Workflow/Jobs.antt =====
-- `Parse`, `mapJob` and `mapRunsOn` of internal/predictor/workflow/parse.go.
use Prim.Native.String.{◌++◌ as str_append}
use warmrunners.Base.{
  String, Bool, true, false, ◌||◌, List, [], ◌∷◌, Option, none, some, GoMap, Result, ok, err,
  if◌then◌else◌, is_some,
}
use warmrunners.Workflow.{Actionlint, Runner, JobNode, RunsOnSpec, MatrixSpec, Job, Workflow}
use warmrunners.Workflow.Documents.{reject_multi_doc}
use warmrunners.Workflow.References.{UsesKind, classify_uses, resolve_matrix_runs_on}
use warmrunners.Workflow.Combos.{map_matrix}

unfoldable pub present : List (Option String) → List String
present [] = []
present (none ∷ nodes) = present nodes
present (some value ∷ nodes) = value ∷ present nodes

abbrev pub text_of : Option String → String
text_of none = ""
text_of (some value) = value

abbrev pub no_runs_on : RunsOnSpec
no_runs_on = record { labels = []; group = ""; dynamic = false }

abbrev pub no_matrix : MatrixSpec
no_matrix = record { combos = []; dynamic = false }

module _ (lint : Actionlint) where
  -- The loop over the labels: the literal ones, and whether one is an expression.
  unfoldable pub map_labels : List (Option String) → List String × Bool
  map_labels [] = ([], false)
  map_labels (none ∷ labels) = map_labels labels
  map_labels (some l ∷ labels) =
      let rest = map_labels labels in
      if lint.contains_expression l then (rest.0, true) else (l ∷ rest.0, rest.1)

  unfoldable pub map_runs_on : Option Runner → RunsOnSpec
  map_runs_on none = no_runs_on
  map_runs_on (some r) =
      let (labels, dynamic) = map_labels r.labels in
      record {
        labels = labels;
        group = text_of r.group;
        dynamic = dynamic || is_some r.labels_expr;
      }

  -- `j.Strategy.Matrix`, where there is one.
  unfoldable pub matrix_of : JobNode → MatrixSpec
  matrix_of j = elim j.strategy [
    | none ↦ no_matrix
    | some strategy ↦ elim strategy.matrix [ none ↦ no_matrix | some m ↦ map_matrix lint m ]
  ]

  -- `runs-on` with the reference to the matrix resolved, where that is possible.
  unfoldable pub resolve_runs_on : Option Runner → MatrixSpec → RunsOnSpec
  resolve_runs_on none matrix = map_runs_on none
  resolve_runs_on (some r) matrix =
      let spec = map_runs_on (some r) in
      if matrix.dynamic then spec else elim r.labels_expr [
        | none ↦ spec
        | some expr ↦ elim (resolve_matrix_runs_on expr matrix.combos) [
          | none ↦ spec
          | some resolved ↦ record spec { labels = resolved; dynamic = false }
        ]
      ]

  -- The flags of a job that is no call: a dynamic matrix makes the labels dynamic.
  unfoldable pub finish_job : String → List String → RunsOnSpec → MatrixSpec → Job
  finish_job id needs runs_on matrix = record {
    id = id;
    needs = needs;
    runs_on = record runs_on { dynamic = runs_on.dynamic || matrix.dynamic };
    matrix = matrix;
    uses_local = "";
    uses_remote = false;
    dynamic = runs_on.dynamic || matrix.dynamic;
  }

  -- A job that calls a reusable workflow.
  unfoldable pub call_job : String → List String → String → Job
  call_job id needs uses =
      let kind = classify_uses uses in
      record {
        id = id;
        needs = needs;
        runs_on = no_runs_on;
        matrix = no_matrix;
        uses_local = elim kind [ UsesKind.uses_local ↦ uses | _ ↦ "" ];
        uses_remote = elim kind [ UsesKind.uses_remote ↦ true | _ ↦ false ];
        dynamic = false;
      }

  -- `j.WorkflowCall.Uses`
  unfoldable pub uses_of : JobNode → Option String
  uses_of j = elim j.workflow_call [ none ↦ none | some call ↦ call.uses ]

  unfoldable pub map_job : String → JobNode → Job
  map_job id j = elim (uses_of j) [
    | some uses ↦ call_job id (present j.needs) uses
    | none ↦
        let matrix = matrix_of j in
        finish_job id (present j.needs) (resolve_runs_on j.runs_on matrix) matrix
  ]

  unfoldable pub map_jobs : GoMap JobNode → GoMap Job
  map_jobs [] = []
  map_jobs ((id, j) ∷ jobs) = (id, map_job id j) ∷ map_jobs jobs

  -- The error where there is no tree.
  unfoldable pub parse_error : List String → String
  parse_error [] = "actionlint parse: no workflow produced"
  parse_error (message ∷ errs) = str_append "actionlint parse: " message

  unfoldable pub parse : String → Result Workflow
  parse raw = elim (reject_multi_doc raw) [
    | some message ↦ err message
    | none ↦ elim (lint.parse_ast raw).0 [
      | none ↦ err (parse_error (lint.parse_ast raw).1)
      | some wf ↦ ok (record { jobs = map_jobs wf.jobs })
    ]
  ]
