-- ===== src/Controller/Observed.antt =====
-- The expiries of a policy's active window over any reconciles of it.
use warmrunners.Base.{
  ℕ, ℤ, ◌+◌, String, ◌≡◌, refl, subst, ◌∙◌, Bool, true, false, not, ◌&&◌, Option, none, some, List,
  [], ◌∷◌, ◌++◌, ok, err, Result, error_of, is_some, if◌then◌else◌, ltb, arith, All, inl, inr,
  Option-cases, Result-cases,
}
use warmrunners.Clock.{Time}
use warmrunners.Policy.{Ref, Policy}
use warmrunners.Adapter.{Adapter}
use warmrunners.Controller.{Source, World, Reconciler, Memory, Metric, count, set_gauge}
use warmrunners.Controller.Auth.{demand_source}
use warmrunners.Controller.Signals.{
  Contribution, compute_predicted, compute_activity, predictor_enabled,
}
use warmrunners.Controller.Metrics.{
  emit_active_window_metrics, emit_predicted_jobs_metrics, emit_activity_jobs_metrics,
}
use warmrunners.Controller.Reconcile.{
  Outcome, found, with_condition, with_error, with_leg, adapter_for, finish, no_source, with_source,
  reconcile, count_error,
}
use warmrunners.Controller.Window.{expiries, is_open, was_open, emit_active_window_metrics-edge}
use warmrunners.Controller.Expiries.{
  expiries-append, expiries-emit_predicted_jobs_metrics, expiries-emit_activity_jobs_metrics,
  expiries-count_error, expiries-count_change,
}

-- The window of a status at a time.
abbrev pub open_at : Time → Option Time → Bool
open_at now until = elim until [ none ↦ false | some t ↦ ltb now t ]

-- `activeUntil` of the status that a reconcile writes.
abbrev pub written_until : {Cluster : Type 0} → Outcome Cluster → Option Time
written_until out = elim out.status_updates [ [] ↦ none | pol ∷ more ↦ pol.status.active_until ]

-- One reconcile: its clock, whether it had a backend and got a demand source, and what it did.
pub record Seen (Cluster : Type 0) : Type 0 where
  pub now : Time
  pub sourced : Bool
  pub outcome : Outcome Cluster

-- How often the expiry counter goes up over the reconciles.
unfoldable pub counted : {Cluster : Type 0} → List (Seen Cluster) → ℕ
counted [] = 0
counted (s ∷ seen) = expiries s.outcome.metrics + counted seen

-- How often a window that was open at the last reconcile with a demand source is closed at the next such.
unfoldable pub closings : {Cluster : Type 0} → Bool → List (Seen Cluster) → ℕ
closings before [] = 0
closings before (s ∷ seen) =
    let open_now = open_at s.now (written_until s.outcome) in
    let next = if s.sourced then open_now else before in
    (if s.sourced && before && not open_now then 1 else 0) + closings next seen

-- Parts of the metrics without an expiry leave that of the window.
only_window :
    (e w s d g p h a c f : List Metric)
    → expiries e ≡ 0
    → expiries s ≡ 0
    → expiries d ≡ 0
    → expiries g ≡ 0
    → expiries p ≡ 0
    → expiries h ≡ 0
    → expiries a ≡ 0
    → expiries c ≡ 0
    → expiries f ≡ 0
    → expiries ((e ++ w ++ s ++ d ++ g ++ p ++ h ++ a ++ c) ++ f) ≡ expiries w
only_window e w s d g p h a c f he hs hd hg hp hh ha hc hf = omega (
  arith,
  expiries-append (e ++ w ++ s ++ d ++ g ++ p ++ h ++ a ++ c) f,
  expiries-append (e ++ w ++ s ++ d ++ g ++ p ++ h ++ a) c,
  expiries-append (e ++ w ++ s ++ d ++ g ++ p ++ h) a,
  expiries-append (e ++ w ++ s ++ d ++ g ++ p) h,
  expiries-append (e ++ w ++ s ++ d ++ g) p,
  expiries-append (e ++ w ++ s ++ d) g,
  expiries-append (e ++ w ++ s) d,
  expiries-append (e ++ w) s,
  expiries-append e w,
  he,
  hs,
  hd,
  hg,
  hp,
  hh,
  ha,
  hc,
  hf,
)

no_expiries : expiries [] ≡ 0
unfolding expiries
no_expiries = refl

expiries_gauge :
    (name : String) (labels : List String) (v : ℤ) → expiries (set_gauge name labels v ∷ []) ≡ 0
unfolding expiries
expiries_gauge name labels v = refl

expiries_gauges :
    (n1 n2 n3 n4 : String) (l1 l2 l3 l4 : List String) (v1 v2 v3 v4 : ℤ)
    → expiries
        (set_gauge n1 l1 v1 ∷ set_gauge n2 l2 v2 ∷ set_gauge n3 l3 v3 ∷ set_gauge n4 l4 v4 ∷ [])
      ≡ 0
unfolding expiries
expiries_gauges n1 n2 n3 n4 l1 l2 l3 l4 v1 v2 v3 v4 = refl

skipped_none :
    (skipped : Bool) (labels : List String)
    → expiries (if skipped then count "dry_run_skipped_patches" labels ∷ [] else []) ≡ 0
unfolding expiries
skipped_none true labels = refl
skipped_none false labels = refl

edge_count :
    (n : ℕ) (now before : Bool)
    → n ≡ (if now then 0 else if before then 1 else 0)
    → n ≡ (if true && before && not now then 1 else 0)
edge_count n true true h = h
edge_count n true false h = h
edge_count n false true h = h
edge_count n false false h = h

module _ {Cluster : Type 0} (world : World Cluster) (r : Reconciler Cluster) where
  with_leg-name :
      (ctype failure : String) (on : Bool) (result : Result Contribution) (pol : Policy)
      → (with_leg world r ctype failure on result pol).name ≡ pol.name
  unfolding with_leg with_condition
  with_leg-name ctype failure on (err e) pol = refl
  with_leg-name ctype failure true (ok c) pol = refl
  with_leg-name ctype failure false (ok c) pol = refl

  with_leg-until :
      (ctype failure : String) (on : Bool) (result : Result Contribution) (pol : Policy)
      → (with_leg world r ctype failure on result pol).status.active_until ≡ pol.status.active_until
  unfolding with_leg with_condition
  with_leg-until ctype failure on (err e) pol = refl
  with_leg-until ctype failure true (ok c) pol = refl
  with_leg-until ctype failure false (ok c) pol = refl

  -- The policy at which the window is looked at.
  abbrev checked : Source → Policy → Policy
  checked source pol =
      let snap = source pol.spec.github.owner pol.spec.github.repository pol.spec.github.labels in
      let pol1 = with_error world r "DemandSourceAvailable" (error_of snap) pol in
      with_leg world r "PredictorAvailable" "PredictError"
        (is_some r.predictor && predictor_enabled pol.spec) (compute_predicted world r pol1) pol1

  abbrev windowed : Source → Policy → Policy
  windowed source pol = record (checked source pol) {
    status = (compute_activity world r (checked source pol)).0;
  }

  windowed-name : (source : Source) (pol : Policy) → (windowed source pol).name ≡ pol.name
  unfolding with_error with_condition
  windowed-name source pol = with_leg-name _ _ _ _ _

  module _ (ad : Adapter Cluster) (ref : Ref) (source : Source) (pol : Policy) (mem : Memory) where
    abbrev out : Outcome Cluster
    out = with_source world r ad ref source pol mem

    with_source-expiries :
        expiries out.metrics
        ≡ expiries (emit_active_window_metrics world (windowed source pol) mem).0
    unfolding with_source finish
    with_source-expiries =
        only_window _ _ _ _ _ _ _ _ _ _ (expiries-count_error _ _ _) (skipped_none _ _)
          (expiries-count_error _ _ _) (expiries_gauges _ _ _ _ _ _ _ _ _ _ _ _)
          (expiries-emit_predicted_jobs_metrics _ _ _) (expiries_gauge _ _ _)
          (expiries-emit_activity_jobs_metrics _ _ _) (expiries-count_change world r _ _ _ _)
          (expiries-count_error _ _ _)

    with_source-memory :
        (name : String)
        → was_open name out.memory
          ≡ was_open name (emit_active_window_metrics world (windowed source pol) mem).1
    unfolding with_source finish emit_predicted_jobs_metrics emit_activity_jobs_metrics
    with_source-memory name = refl

    with_source-until : written_until out ≡ (windowed source pol).status.active_until
    unfolding with_source finish with_error with_condition
    with_source-until = with_leg-until _ _ _ _ _

  -- The policy has a backend, and a demand source can be built.
  unfoldable pub has_source : Policy → Bool
  has_source pol = elim (adapter_for world r pol.spec.target) [
    | none ↦ false
    | some backend ↦ elim (demand_source world r pol) [ err e ↦ false | ok source ↦ true ]
  ]

  -- What one reconcile counts, and what it remembers.
  abbrev IsStep : String → Policy → Memory → Bool → Outcome Cluster → Type 0
  IsStep name pol mem sourced o =
      (expiries o.metrics ≡ (
        if sourced && was_open name mem && not (open_at world.window_now (written_until o))
        then 1
        else 0))
      × (was_open name o.memory
          ≡ (if sourced then open_at world.window_now (written_until o) else was_open name mem))

  with_source-IsStep :
      (ad : Adapter Cluster) (ref : Ref) (source : Source) (pol : Policy) (mem : Memory)
      → IsStep pol.name pol mem true (with_source world r ad ref source pol mem)
  with_source-IsStep ad ref source pol mem =
      let name = windowed-name source pol in
      let until = with_source-until ad ref source pol mem in
      let pol' = windowed source pol in
      let (counted_here, remembered) =
        subst
          (λ n.
            (expiries (emit_active_window_metrics world pol' mem).0
              ≡ (if is_open world pol' then 0 else if was_open n mem then 1 else 0))
            × (was_open n (emit_active_window_metrics world pol' mem).1 ≡ is_open world pol'))
          name (emit_active_window_metrics-edge world pol' mem) in
      rw until (
        with_source-expiries ad ref source pol mem
            ∙ edge_count _ (is_open world pol') (was_open pol.name mem) counted_here,
        with_source-memory ad ref source pol mem pol.name ∙ remembered,
      )

  no_source-IsStep :
      (pol : Policy) (e : String) (mem : Memory)
      → IsStep pol.name pol mem false (no_source world r pol e mem)
  unfolding no_source finish
  no_source-IsStep pol e mem = (
    expiries-append (count_error pol.name "demand_source" (some e)) _
        ∙ omega (
          arith,
          expiries-count_error pol.name "demand_source" (some e),
          expiries-count_error pol.name "status_update" _,
        ),
    refl,
  )

  reconcile-IsStep :
      (pol : Policy) (mem : Memory)
      → IsStep pol.name pol mem (has_source pol) (reconcile world r (found pol) mem)
  unfolding reconcile has_source
  reconcile-IsStep pol mem = elim (Option-cases (adapter_for world r pol.spec.target)) [
    | inl no_backend ↦ rw (no_backend, reconcile, has_source) (no_expiries, refl)
    | inr ((ad, ref), target) ↦ elim (Result-cases (demand_source world r pol)) [
      | inr (e, refused) ↦ rw (target, refused, reconcile, has_source) (no_source-IsStep pol e mem)
      | inl (source, built) ↦
          rw (target, built, reconcile, has_source) (with_source-IsStep ad ref source pol mem)
    ]
  ]

module _ {Cluster : Type 0} (r : Reconciler Cluster) where
  -- Reconciles, one after the other, each with the memory that the one before left.
  unfoldable pub reconciles : List (World Cluster × Policy) → Memory → List (Seen Cluster)
  reconciles [] mem = []
  reconciles ((world, pol) ∷ rest) mem =
      let out = reconcile world r (found pol) mem in
      record { now = world.window_now; sourced = has_source world r pol; outcome = out }
      ∷ reconciles rest out.memory

  abbrev pub IsOf : String → World Cluster × Policy → Type 0
  IsOf name (world, pol) = pol.name ≡ name

  -- Over any sequence of reconciles of one policy, the expiry counter goes up exactly once each time that a
  -- window, which was open in the status that the reconcile before wrote (for the first, in the memory), is
  -- closed in the status of this one. Reconciles that have no backend or get no demand source look at no
  -- window, and are passed over.
  pub reconciles-closings :
      (name : String) (steps : List (World Cluster × Policy)) (mem : Memory)
      → All (IsOf name) steps
      → counted (reconciles steps mem) ≡ closings (was_open name mem) (reconciles steps mem)
  unfolding reconciles counted closings
  reconciles-closings name [] mem h = refl
  reconciles-closings name ((world, pol) ∷ rest) mem (named, more) =
      let out = reconcile world r (found pol) mem in
      let (here, next) =
        subst
          (λ n.
            (expiries out.metrics ≡ (
              if has_source world r pol
                && was_open n mem
                && not (open_at world.window_now (written_until out))
              then 1
              else 0))
            × (was_open n out.memory ≡ (
                if has_source world r pol
                then open_at world.window_now (written_until out)
                else was_open n mem)))
          named (reconcile-IsStep world r pol mem) in
      let later = reconciles-closings name rest out.memory more in rw (here, later, next) refl
