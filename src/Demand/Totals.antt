-- ===== src/Demand/Totals.antt =====
-- The demand is the number of the jobs that wait and that run.
use warmrunners.Base.{
  ℕ, ◌+◌, ◌*◌, ◌<◌, String, ◌≡◌, refl, sym, ap, ◌∙◌, ◌&&◌, some, List, [], ◌∷◌, ◌++◌, arith, ℤ, pos,
  +ℤ-pos, to_i32_pos, ok, if◌then◌else◌, ◌==◌, eq_iff, length, append_assoc,
}
use warmrunners.Labels.{labels_match}
use warmrunners.Controller.{Snapshot}
use warmrunners.Demand.Counting.{
  Job, Server, per_page, list_run_ids, count_job, count_jobs, no_jobs, count_run_jobs, add_snapshot,
  add_runs, add_statuses, current_demand,
}
use warmrunners.Demand.Paging.{ServesFrom, paged-all}

module _ (want : List String) where
  -- 1 for a job with this status that the labels match.
  abbrev hit : String → Job → ℕ
  hit status j = if labels_match j.labels want && j.status == status then 1 else 0

  -- The jobs with this status that the labels match.
  unfoldable pub matching : String → List Job → ℕ
  matching status [] = 0
  matching status (j ∷ jobs) = hit status j + matching status jobs

  abbrev counted : ℕ → ℕ → Snapshot
  counted q r = record { queued = pos q; running = pos r }

  count_job-counted :
      (j : Job) (q r : ℕ)
      → q + hit "queued" j < 2147483648
      → r + hit "in_progress" j < 2147483648
      → count_job want (counted q r) j ≡ counted (q + hit "queued" j) (r + hit "in_progress" j)
  unfolding count_job
  count_job-counted j q r hq hr = ground (
    arith,
    eq_iff j.status "queued",
    eq_iff j.status "in_progress",
    eq_iff "queued" "in_progress",
    +ℤ-pos q 1,
    +ℤ-pos r 1,
    to_i32_pos (q + 1),
    to_i32_pos (r + 1),
  )

  count_jobs-append :
      (s : Snapshot) (xs ys : List Job)
      → count_jobs want s (xs ++ ys) ≡ count_jobs want (count_jobs want s xs) ys
  unfolding count_jobs
  count_jobs-append s [] ys = refl
  count_jobs-append s (x ∷ xs) ys = count_jobs-append (count_job want s x) xs ys

  count_jobs-counted :
      (jobs : List Job) (q r : ℕ)
      → q + matching "queued" jobs < 2147483648
      → r + matching "in_progress" jobs < 2147483648
      → count_jobs want (counted q r) jobs
        ≡ counted (q + matching "queued" jobs) (r + matching "in_progress" jobs)
  unfolding count_jobs matching
  count_jobs-counted [] q r hq hr = ground arith
  count_jobs-counted (j ∷ jobs) q r hq hr =
      let here = count_job-counted j q r (omega (arith, hq)) (omega (arith, hr)) in
      let rest =
        count_jobs-counted jobs (q + hit "queued" j) (r + hit "in_progress" j) (omega (arith, hq))
          (omega (arith, hr)) in
      ap (λ s. count_jobs want s jobs) here ∙ rest ∙ ground arith

add_snapshot-counted :
    (want : List String) (q r m n : ℕ)
    → q + m < 2147483648
    → r + n < 2147483648
    → add_snapshot (counted want q r) (counted want m n) ≡ counted want (q + m) (r + n)
unfolding add_snapshot
add_snapshot-counted want q r m n hq hr =
    ground (arith, +ℤ-pos q m, +ℤ-pos r n, to_i32_pos (q + m), to_i32_pos (r + n))

-- A server whose runs, by status, and whose jobs, by run, are these lists, on pages of a hundred.
pub record Holds (server : Server) (runs : String → List ℤ) (jobs : ℤ → List Job) : Type 0 where
  pub runs_paged : (status : String) → ServesFrom 1 (server.runs status) (runs status)
  pub jobs_paged : (id : ℤ) → ServesFrom 1 (server.jobs id) (jobs id)

module _ (want : List String) (jobs : ℤ → List Job) where
  -- The jobs of runs with this status that the labels match.
  unfoldable pub matching_runs : String → List ℤ → ℕ
  matching_runs status [] = 0
  matching_runs status (id ∷ ids) = matching want status (jobs id) + matching_runs status ids

  -- The loops of the fuel given are long enough for the jobs of each run.
  abbrev pub FitsRuns : ℕ → List ℤ → Type 0
  FitsRuns fuel [] = Unit
  FitsRuns fuel (id ∷ ids) = (length (jobs id) < fuel * per_page) × FitsRuns fuel ids

  -- The jobs with a status over the queued runs and the runs in progress.
  abbrev pub all_matching : (String → List ℤ) → String → ℕ
  all_matching runs status =
      matching_runs status (runs "queued") + matching_runs status (runs "in_progress")

  module _ (server : Server) (runs : String → List ℤ) (holds : Holds server runs jobs)
      (fuel : ℕ) where
    count_run_jobs-matching :
        (id : ℤ)
        → length (jobs id) < fuel * per_page
        → matching want "queued" (jobs id) < 2147483648
        → matching want "in_progress" (jobs id) < 2147483648
        → count_run_jobs fuel server want id
          ≡ some (
              ok (
                counted want
                  (matching want "queued" (jobs id))
                  (matching want "in_progress" (jobs id))))
    unfolding count_run_jobs
    count_run_jobs-matching id enough hq hr =
        paged-all (count_jobs want) (count_jobs-append want) (server.jobs id) fuel 1 (jobs id)
          no_jobs (holds.jobs_paged id) enough
        ∙ ap (λ s. some (ok s))
            (count_jobs-counted want (jobs id) 0 0 (omega (arith, hq)) (omega (arith, hr))
              ∙ ground arith)

    add_runs-matching :
        (ids : List ℤ) (q r : ℕ)
        → FitsRuns fuel ids
        → q + matching_runs "queued" ids < 2147483648
        → r + matching_runs "in_progress" ids < 2147483648
        → add_runs fuel server want ids (counted want q r)
          ≡ some (
              ok (
                counted want
                  (q + matching_runs "queued" ids)
                  (r + matching_runs "in_progress" ids)))
    unfolding add_runs matching_runs add_snapshot
    add_runs-matching [] q r fits hq hr = ground arith
    add_runs-matching (id ∷ ids) q r fits hq hr =
        let mq = matching want "queued" (jobs id) in
        let mr = matching want "in_progress" (jobs id) in
        rw (count_run_jobs-matching id fits.0 (omega (arith, hq)) (omega (arith, hr)), add_runs)
          (ap (add_runs fuel server want ids)
              (add_snapshot-counted want q r mq mr (omega (arith, hq)) (omega (arith, hr)))
            ∙ add_runs-matching ids (q + mq) (r + mr) fits.1 (omega (arith, hq)) (omega (arith, hr))
            ∙ ground arith)

    list_run_ids-all :
        (status : String)
        → length (runs status) < fuel * per_page
        → list_run_ids fuel server status ≡ some (ok (runs status))
    unfolding list_run_ids
    list_run_ids-all status enough =
        paged-all (λ ids more. ids ++ more) (λ s xs ys. sym (append_assoc s xs ys))
          (server.runs status) fuel 1 (runs status) [] (holds.runs_paged status) enough

    -- Over a server that pages its runs and jobs by the hundred, and on fuel for that many pages, the demand is
    -- the number of the queued jobs and of the jobs in progress that the labels match, over the queued
    -- runs and the runs in progress, where these numbers are below 2^31.
    pub current_demand-matching :
        length (runs "queued") < fuel * per_page
        → length (runs "in_progress") < fuel * per_page
        → FitsRuns fuel (runs "queued")
        → FitsRuns fuel (runs "in_progress")
        → all_matching runs "queued" < 2147483648
        → all_matching runs "in_progress" < 2147483648
        → current_demand fuel server want
          ≡ some (
              ok (record {
                queued = pos (all_matching runs "queued");
                running = pos (all_matching runs "in_progress");
              }))
    unfolding current_demand add_statuses
    current_demand-matching queued_pages running_pages queued_fit running_fit hq hr =
        let first =
          add_runs-matching (runs "queued") 0 0 queued_fit (omega (arith, hq))
            (omega (arith, hr)) in
        let second =
          add_runs-matching (runs "in_progress") (0 + matching_runs "queued" (runs "queued"))
            (0 + matching_runs "in_progress" (runs "queued")) running_fit (omega (arith, hq))
            (omega (arith, hr)) in
        rw
          (
            list_run_ids-all "queued" queued_pages,
            first,
            list_run_ids-all "in_progress" running_pages,
            second,
            current_demand,
            add_statuses,
          )
          (ground arith)
