-- ===== src/Controller/Gauges.antt =====
-- The gauges of a policy hold one sample for each label set of its last reconcile, and no other.
use warmrunners.Base.{
  String, ◌≡◌, refl, ◌∙◌, Bool, true, false, ◌&&◌, Option, none, some, List, [], ◌∷◌, ◌++◌, arith,
  ℤ, GoMap, lookup, lookup-insert, keys, HasDistinctKeys, contains, ◌==◌, eq_iff, eq_refl,
  if◌then◌else◌,
}
use warmrunners.Controller.{Metric, set_gauge, delete_gauge, count}
use warmrunners.Controller.Metrics.{set_jobs, prune_jobs, labels_before, emit_jobs_metrics}

-- The sample of a gauge at a policy and a label set, after one change and after a list of changes.
abbrev pub is_at : String → String → String → String → List String → Bool
is_at gauge policy key gauge' (policy' ∷ key' ∷ []) =
    gauge' == gauge && policy' == policy && key' == key
is_at gauge policy key gauge' _ = false

unfoldable pub sample_after : String → String → String → Metric → Option ℤ → Option ℤ
sample_after gauge policy key (set_gauge gauge' labels v) old =
    if is_at gauge policy key gauge' labels then some v else old
sample_after gauge policy key (delete_gauge gauge' labels) old =
    if is_at gauge policy key gauge' labels then none else old
sample_after gauge policy key (count name labels) old = old

unfoldable pub samples_after : String → String → String → List Metric → Option ℤ → Option ℤ
samples_after gauge policy key [] old = old
samples_after gauge policy key (m ∷ metrics) old =
    samples_after gauge policy key metrics (sample_after gauge policy key m old)

samples_after-append :
    (gauge policy key : String) (xs ys : List Metric) (old : Option ℤ)
    → samples_after gauge policy key (xs ++ ys) old
      ≡ samples_after gauge policy key ys (samples_after gauge policy key xs old)
unfolding samples_after
samples_after-append gauge policy key [] ys old = refl
samples_after-append gauge policy key (x ∷ xs) ys old =
    samples_after-append gauge policy key xs ys (sample_after gauge policy key x old)

abbrev or_else : Option ℤ → Option ℤ → Option ℤ
or_else none old = old
or_else (some v) old = some v

module _ (gauge policy key : String) where
  samples_after-set_jobs :
      (m : GoMap ℤ) (old : Option ℤ)
      → HasDistinctKeys m
      → samples_after gauge policy key (set_jobs gauge policy m) old ≡ or_else (lookup key m) old
  unfolding samples_after sample_after set_jobs lookup
  samples_after-set_jobs [] old h = refl
  samples_after-set_jobs ((k, v) ∷ m) old h = ground (
    arith,
    eq_refl gauge,
    eq_refl policy,
    eq_iff k key,
    samples_after-set_jobs m old h.1,
    samples_after-set_jobs m (some v) h.1,
  )

  samples_after-prune_jobs :
      (curr prev : List String) (old : Option ℤ)
      → samples_after gauge policy key (prune_jobs gauge policy curr prev) old
        ≡ (if contains prev key && (if contains curr key then false else true) then none else old)
  unfolding samples_after sample_after prune_jobs contains
  samples_after-prune_jobs curr [] old = refl
  samples_after-prune_jobs curr (k ∷ prev) old = ground (
    arith,
    eq_refl gauge,
    eq_refl policy,
    eq_iff k key,
    samples_after-prune_jobs curr prev old,
    samples_after-prune_jobs curr prev none,
  )

  contains-keys :
      (m : GoMap ℤ) → contains (keys m) key ≡ (elim (lookup key m) [ none ↦ false | some _ ↦ true ])
  unfolding contains lookup
  contains-keys [] = refl
  contains-keys ((k, v) ∷ m) = ground (arith, contains-keys m)

  -- Where the gauge had samples at most for the label sets that the policy had on its last reconcile,
  -- it has afterwards exactly the counts of this one, and these label sets are remembered.
  pub emit_jobs_metrics-samples :
      (m : GoMap ℤ) (prev : GoMap (List String)) (old : Option ℤ)
      → HasDistinctKeys m
      → (contains (labels_before policy prev) key ≡ false → old ≡ none)
      → (samples_after gauge policy key (emit_jobs_metrics gauge policy m prev).0 old
          ≡ lookup key m)
        × (labels_before policy (emit_jobs_metrics gauge policy m prev).1 ≡ keys m)
  unfolding emit_jobs_metrics
  emit_jobs_metrics-samples m prev old distinct known = (
    samples_after-append gauge policy key (set_jobs gauge policy m) _ old
        ∙ ground (
          arith,
          samples_after-set_jobs m old distinct,
          samples_after-prune_jobs (keys m) (labels_before policy prev)
              (samples_after gauge policy key (set_jobs gauge policy m) old),
          contains-keys m,
        ),
    ground (arith, lookup-insert policy policy (keys m) prev, eq_refl policy),
  )
