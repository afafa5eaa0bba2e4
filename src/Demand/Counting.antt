-- ===== src/Demand/Counting.antt =====
-- Pages and counts: `listRunIDs`, `countRunJobs` and `CurrentDemand` of internal/demand/github_poller.go,
-- over what `get` decodes for each page. A loop over pages runs on fuel; `none` says that it is spent.
use warmrunners.Base.{
  ℕ, zero, suc, String, true, false, Option, none, some, List, [], ◌∷◌, ◌++◌, ℤ, pos, ◌+ℤ◌, to_i32,
  Result, ok, err, ltb, length, if◌then◌else◌, ◌==◌,
}
use warmrunners.Labels.{labels_match}
use warmrunners.Controller.{Snapshot}

-- A job of `jobsResp`
pub record Job : Type 0 where
  pub status : String
  pub labels : List String

abbrev pub per_page : ℕ
per_page = 100

-- The loop that `listRunIDs` and `countRunJobs` share: from a page on, until one is not full.
unfoldable pub paged :
    {A S : Type 0} → (S → List A → S) → (ℕ → Result (List A)) → ℕ → ℕ → S → Option (Result S)
paged step fetch zero page s = none
paged step fetch (suc fuel) page s = elim (fetch page) [
  | err e ↦ some (err e)
  | ok items ↦ elim (ltb (length items) per_page) [
    | true ↦ some (ok (step s items))
    | false ↦ paged step fetch fuel (suc page) (step s items)
  ]
]

-- What `get` decodes: the runs of a status and the jobs of a run, by page.
pub record Server : Type 0 where
  pub runs : String → ℕ → Result (List ℤ)
  pub jobs : ℤ → ℕ → Result (List Job)

unfoldable pub list_run_ids : ℕ → Server → String → Option (Result (List ℤ))
list_run_ids fuel server status = paged (λ ids runs. ids ++ runs) (server.runs status) fuel 1 []

-- One job of the loop of `countRunJobs`
unfoldable pub count_job : List String → Snapshot → Job → Snapshot
count_job want s j =
    if labels_match j.labels want
    then (if j.status == "queued"
        then record s { queued = to_i32 (s.queued +ℤ pos 1) }
        else if j.status == "in_progress"
        then record s { running = to_i32 (s.running +ℤ pos 1) }
        else s)
    else s

unfoldable pub count_jobs : List String → Snapshot → List Job → Snapshot
count_jobs want s [] = s
count_jobs want s (j ∷ jobs) = count_jobs want (count_job want s j) jobs

abbrev pub no_jobs : Snapshot
no_jobs = record { queued = pos 0; running = pos 0 }

unfoldable pub count_run_jobs : ℕ → Server → List String → ℤ → Option (Result Snapshot)
count_run_jobs fuel server want id = paged (count_jobs want) (server.jobs id) fuel 1 no_jobs

unfoldable pub add_snapshot : Snapshot → Snapshot → Snapshot
add_snapshot s t = record {
  queued = to_i32 (s.queued +ℤ t.queued);
  running = to_i32 (s.running +ℤ t.running);
}

-- The inner loop of `CurrentDemand`.
unfoldable pub add_runs : ℕ → Server → List String → List ℤ → Snapshot → Option (Result Snapshot)
add_runs fuel server want [] s = some (ok s)
add_runs fuel server want (id ∷ ids) s = elim (count_run_jobs fuel server want id) [
  | none ↦ none
  | some (err e) ↦ some (err e)
  | some (ok t) ↦ add_runs fuel server want ids (add_snapshot s t)
]

-- The outer loop of `CurrentDemand`.
unfoldable pub add_statuses :
    ℕ → Server → List String → List String → Snapshot → Option (Result Snapshot)
add_statuses fuel server want [] s = some (ok s)
add_statuses fuel server want (status ∷ statuses) s = elim (list_run_ids fuel server status) [
  | none ↦ none
  | some (err e) ↦ some (err e)
  | some (ok ids) ↦ elim (add_runs fuel server want ids s) [
    | none ↦ none
    | some (err e) ↦ some (err e)
    | some (ok t) ↦ add_statuses fuel server want statuses t
  ]
]

-- `CurrentDemand`
unfoldable pub current_demand : ℕ → Server → List String → Option (Result Snapshot)
current_demand fuel server want =
    add_statuses fuel server want ("queued" ∷ "in_progress" ∷ []) no_jobs
