-- ===== src/Predictor/Additions.antt =====
-- One addition to the counts of a prediction or a sample, and what it is described as.
use warmrunners.Base.{
  ℕ, ◌+◌, ◌<◌, String, List, [], ◌∷◌, GoMap, ◌≡◌, refl, ◌∙◌, arith, ◌==◌, lookup-insert,
  if◌then◌else◌, Bool-cases, inl, inr, ℤ, pos, ◌+ℤ◌, +ℤ-pos, to_i64, to_i64_pos, length, eq_refl,
  false,
}
use warmrunners.Workflow.{RunsOnSpec, Job}
use warmrunners.Workflow.Runners.{runners_of, labels_of}
use warmrunners.Predictor.Walk.{count_of, add_count, expansions, resolve_labels}
use warmrunners.Sampler.{job_count}
use warmrunners.Sampler

-- The number of Go's positive ints, 0 included: 2 ^ 63.
abbrev pub int_bound : ℕ
int_bound = 9223372036854775808

count_of-add_count :
    (key other : String) (n : ℤ) (m : GoMap ℤ)
    → count_of other (add_count key n m)
      ≡ (if key == other then to_i64 (count_of key m +ℤ n) else count_of other m)
unfolding count_of add_count
count_of-add_count key other n m =
    ground (arith, lookup-insert key other (to_i64 (count_of key m +ℤ n)) m)

-- Below the bound an addition counts exactly.
pub count_of-added :
    (key : String) (n k : ℕ) (m : GoMap ℤ)
    → count_of key m ≡ pos n
    → n + k < int_bound
    → count_of key (add_count key (pos k) m) ≡ pos (n + k)
count_of-added key n k m counted small =
    count_of-add_count key key (pos k) m
    ∙ rw (eq_refl key, counted, +ℤ-pos n k) (to_i64_pos (n + k) small)

pub count_of-other :
    (key other : String) (k : ℤ) (m : GoMap ℤ)
    → (key == other) ≡ false
    → count_of other (add_count key k m) ≡ count_of other m
count_of-other key other k m different = count_of-add_count key other k m ∙ rw different refl

pub expansions-runners_of : (job : Job) → expansions job ≡ pos (runners_of job.matrix.combos)
unfolding expansions runners_of
expansions-runners_of job = combos_case job.matrix.combos
  where
    combos_case :
        (combos : List (GoMap String))
        → elim combos [ [] ↦ pos 1 | c ∷ cs ↦ pos (length (c ∷ cs)) ] ≡ pos (runners_of combos)
    combos_case [] = refl
    combos_case (c ∷ cs) = ground arith

pub job_count-runners_of : (job : Job) → job_count job ≡ pos (runners_of job.matrix.combos)
unfolding job_count expansions
job_count-runners_of job = expansions-runners_of job

pub resolve_labels-labels_of : (r : RunsOnSpec) → resolve_labels r ≡ labels_of r
unfolding resolve_labels labels_of
resolve_labels-labels_of r = elim (Bool-cases (r.group == "")) [
  | inl none_given ↦ rw none_given refl
  | inr given ↦ rw given refl
]

pub sampler_labels-labels_of : (r : RunsOnSpec) → Sampler.resolve_labels r ≡ labels_of r
unfolding Sampler.resolve_labels labels_of
sampler_labels-labels_of r = elim (Bool-cases (r.group == "")) [
  | inl none_given ↦ rw none_given refl
  | inr given ↦ rw given refl
]
