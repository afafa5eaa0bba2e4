-- ===== src/Workflow/Flags.antt =====
-- The jobs of a parsed workflow: their flags, their labels and their keys.
use warmrunners.Base.{
  String, ◌≢◌, ◌≡◌, refl, ap, sym, subst, inl, inr, true, false, List, [], ◌∷◌, Option, none, some,
  arith, GoMap, lookup, ok, eq_iff, ◌==◌, Bool-cases, Option-cases, All, is_some, not, ◌&&◌,
  if◌then◌else◌, Bool,
}
use warmrunners.Workflow.{Actionlint, WorkflowNode, JobNode, Job, Workflow}
use warmrunners.Workflow.References.{cut_prefix, has_char, classify_uses}
use warmrunners.Workflow.Combos.{map_matrix}
use warmrunners.Workflow.Documents.{reject_multi_doc}
use warmrunners.Workflow.Jobs.{
  map_labels, matrix_of, present, finish_job, call_job, uses_of, map_job, map_jobs, parse,
}

-- What the flags of a job tell of each other, and of a call.
pub record IsFlagged (j : Job) : Type 0 where
  pub labels_unknown : j.dynamic ≡ j.runs_on.dynamic
  pub matrix_counts : j.matrix.dynamic ≡ true → j.dynamic ≡ true
  pub matrix_empty : j.matrix.dynamic ≡ true → j.matrix.combos ≡ []
  pub one_call : j.uses_remote ≡ true → j.uses_local ≡ ""
  pub calls_static : j.uses_local ≢ "" → (j.dynamic ≡ false) × (j.runs_on.labels ≡ [])
  pub remote_static : j.uses_remote ≡ true → (j.dynamic ≡ false) × (j.runs_on.labels ≡ [])

matrix_of-empty :
    (lint : Actionlint) (j : JobNode)
    → (matrix_of lint j).dynamic ≡ true
    → (matrix_of lint j).combos ≡ []
unfolding matrix_of map_matrix
matrix_of-empty lint j h = ground arith

flagged : (lint : Actionlint) (id : String) (j : JobNode) → IsFlagged (map_job lint id j)
unfolding map_job finish_job call_job
flagged lint id j = elim (Option-cases (uses_of lint j)) [
  | inr (uses, call) ↦
      rw (call, map_job)
        (record {
          labels_unknown = refl;
          matrix_counts = λ h. ground arith;
          matrix_empty = λ h. ground arith;
          one_call = λ h. ground arith;
          calls_static = λ h. (refl, refl);
          remote_static = λ h. (refl, refl);
        })
  | inl own ↦
      rw (own, map_job)
        (record {
          labels_unknown = refl;
          matrix_counts = λ h. ground arith;
          matrix_empty = λ h. matrix_of-empty lint j h;
          one_call = λ h. ground arith;
          calls_static = λ h. absurd (h refl);
          remote_static = λ h. absurd (ground arith);
        })
]

-- The path begins with "./".
abbrev pub starts_local : String → Bool
starts_local uses = is_some (cut_prefix "./" uses)

-- What a job has to be by its `uses`: a path from ./ is a local call, owner/repo@ref is a remote one, and
-- any other text is a call of neither kind; none has labels, and none is dynamic.
abbrev pub IsCallOf : Option String → Job → Type 0
IsCallOf none job = (job.uses_local ≡ "") × (job.uses_remote ≡ false)
IsCallOf (some uses) job =
    (job.dynamic ≡ false)
    × (job.runs_on.labels ≡ [])
    × (job.matrix.combos ≡ [])
    × (job.uses_local ≡ (if starts_local uses then uses else ""))
    × (job.uses_remote ≡ (not (starts_local uses) && has_char b'@' uses && has_char b'/' uses))

call_of :
    (lint : Actionlint) (id : String) (j : JobNode) (uses : String)
    → IsCallOf (some uses) (call_job lint id (present j.needs) uses)
unfolding call_job classify_uses cut_prefix has_char
call_of lint id j uses = elim (Bool-cases (uses == "")) [
  | inl empty ↦
      subst (λ u. IsCallOf (some u) (call_job lint id (present j.needs) u))
        (sym ((eq_iff uses "").0 empty)) (refl, refl, refl, refl, refl)
  | inr full ↦ (refl, refl, refl, ground (arith, full), ground (arith, full))
]

-- Every job that the parser makes has consistent flags: it is dynamic exactly when its labels are, a dynamic
-- matrix makes it so and has no combinations, and it is never a local and a remote call at once. A job
-- without `uses` is no call. One with `uses` is not dynamic and has neither labels nor combinations; it is a
-- local call of this path where the path begins with "./", a remote call where it does not and holds an
-- "@" and a "/", and else neither.
pub map_job-IsFlagged :
    (lint : Actionlint) (id : String) (j : JobNode)
    → IsFlagged (map_job lint id j) × IsCallOf (uses_of lint j) (map_job lint id j)
unfolding map_job finish_job call_job classify_uses
map_job-IsFlagged lint id j = (
  flagged lint id j,
  elim (Option-cases (uses_of lint j)) [
    | inr (uses, call) ↦ rw (call, map_job) (call_of lint id j uses)
    | inl own ↦ rw (own, map_job) (refl, refl)
  ],
)

map_labels-static :
    (lint : Actionlint) (labels : List (Option String))
    → All (λ l. lint.contains_expression l ≡ false) (map_labels lint labels).0
unfolding map_labels
map_labels-static lint [] = tt
map_labels-static lint (none ∷ labels) = map_labels-static lint labels
map_labels-static lint (some l ∷ labels) = elim (Bool-cases (lint.contains_expression l)) [
  | inl dynamic ↦ rw dynamic (map_labels-static lint labels)
  | inr literal ↦ rw literal (literal, map_labels-static lint labels)
]

abbrev map_job_of : Actionlint → (String × JobNode) → Job
map_job_of lint e = map_job lint e.0 e.1

lookup-map_jobs :
    (lint : Actionlint) (jobs : GoMap JobNode) (id : String)
    → lookup id (map_jobs lint jobs)
      ≡ elim (lookup id jobs) [ none ↦ none | some j ↦ some (map_job lint id j) ]
unfolding lookup map_jobs
lookup-map_jobs lint [] id = refl
lookup-map_jobs lint ((k, j) ∷ jobs) id = elim (Bool-cases (k == id)) [
  | inl same ↦ rw same (ap (λ (t : String). some (map_job lint t j)) ((eq_iff k id).0 same))
  | inr other ↦ rw other (lookup-map_jobs lint jobs id)
]

-- A text with at most one document of which there is a tree is parsed, and the parsed workflow has
-- under every key of the tree, and under no other, what `mapJob` makes of the job under that key.
pub parse-lookup :
    (lint : Actionlint) (raw : String) (tree : WorkflowNode)
    → reject_multi_doc raw ≡ none
    → (lint.parse_ast raw).0 ≡ some tree
    → (wf : Workflow) × (parse lint raw ≡ ok wf)
      × ((id : String)
          → lookup id wf.jobs
            ≡ elim (lookup id tree.jobs) [ none ↦ none | some j ↦ some (map_job lint id j) ])
unfolding parse
parse-lookup lint raw tree one read = (
  record { jobs = map_jobs lint tree.jobs },
  ground (arith, one, read),
  lookup-map_jobs lint tree.jobs,
)

-- Every job of a parsed workflow.
abbrev pub AllFlagged : GoMap Job → Type 0
AllFlagged = All (λ e. IsFlagged e.1)

map_jobs-AllFlagged : (lint : Actionlint) (jobs : GoMap JobNode) → AllFlagged (map_jobs lint jobs)
unfolding map_jobs
map_jobs-AllFlagged lint [] = tt
map_jobs-AllFlagged lint ((id, j) ∷ jobs) =
    ((map_job-IsFlagged lint id j).0, map_jobs-AllFlagged lint jobs)

pub parse-AllFlagged :
    (lint : Actionlint) (raw : String) (wf : Workflow) → parse lint raw ≡ ok wf → AllFlagged wf.jobs
unfolding parse
parse-AllFlagged lint raw wf parsed = elim (Option-cases (reject_multi_doc raw)) [
  | inr (message, many) ↦ absurd (ground (arith, many))
  | inl one ↦ elim (Option-cases (lint.parse_ast raw).0) [
    | inl unread ↦ absurd (ground (arith, one, unread))
    | inr (tree, read) ↦
        let same : record { jobs = map_jobs lint tree.jobs } ≡ wf = ground (arith, one, read) in
        subst (λ (w : Workflow). AllFlagged w.jobs) same (map_jobs-AllFlagged lint tree.jobs)
  ]
]
