-- ===== src/Workflow/Runners.antt =====
-- What a job asks for, as its counts are described: internal/predictor/workflow_needs_graph.go and
-- internal/activity/workflow_runs_sampler.go count it each on its own.
use Prim.Native.String.{◌++◌ as str_append}
use warmrunners.Base.{ℕ, String, List, [], ◌∷◌, ◌++◌, GoMap, length, ◌==◌, nat_eq, if◌then◌else◌}
use warmrunners.Workflow.{RunsOnSpec}

-- The runners of a job: as many as its combinations, and one where there are none.
unfoldable pub runners_of : List (GoMap String) → ℕ
runners_of combos = if nat_eq (length combos) 0 then 1 else length combos

-- The labels that its runners need: a group is a label of its own, before the others.
unfoldable pub labels_of : RunsOnSpec → List String
labels_of r = (if r.group == "" then [] else str_append "group:" r.group ∷ []) ++ r.labels
