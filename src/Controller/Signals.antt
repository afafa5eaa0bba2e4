-- ===== src/Controller/Signals.antt =====
-- The predictor and the activity leg of the floor: `computePredicted`, `computeActivity` and
-- `computeActivityFromFeed`.
use Prim.Native.String.{◌++◌ as str_append}
use warmrunners.Base.{
  ℕ, String, Bool, true, false, not, Option, none, some, List, [], ◌∷◌, ◌++◌, ℤ, pos, ◌+ℤ◌, ◌*ℤ◌,
  to_i32, Result, ok, err, GoMap, take, ltb_ℤ, eqb_ℤ, if◌then◌else◌, str_lt, is_some,
}
use warmrunners.Base.Sort.{sort}
use warmrunners.Clock.{Time, Duration, second, is_zero, time_sub, time_add}
use warmrunners.Policy.{PredictedLabelSet, ActivityConfig, Spec, Policy, Status}
use warmrunners.Labels.{label_set_key, split_label_set_key, labels_superset}
use warmrunners.Activity.{builtin_denylist}
use warmrunners.Controller.{
  Reconciler, World, EventFeed, default_active_window, activity_window_default,
}
use warmrunners.Controller.Auth.{predictor_token}

-- `predictorTopN`, and `activityTopN`
abbrev pub predictor_top_n : ℕ
predictor_top_n = 8

-- The loop over a `PerLabelSet`, which the three functions share: the sum of the counts of the label
-- sets that include `want`, as an int32, and those label sets.
unfoldable pub match_from :
    List String → ℤ → List PredictedLabelSet → GoMap ℤ → ℤ × List PredictedLabelSet
match_from want contrib matched [] = (contrib, matched)
match_from want contrib matched ((key, count) ∷ m) =
    let labels = split_label_set_key key in
    elim (labels_superset labels want) [
      | true ↦
          match_from want (to_i32 (contrib +ℤ to_i32 count))
            (matched ++ record { labels = labels; count = to_i32 count } ∷ []) m
      | false ↦ match_from want contrib matched m
    ]

-- The comparison of `sort.Slice`: count descending, then key ascending.
unfoldable pub label_set_less : PredictedLabelSet → PredictedLabelSet → Bool
label_set_less a b =
    if eqb_ℤ a.count b.count
    then str_lt (label_set_key a.labels) (label_set_key b.labels)
    else ltb_ℤ b.count a.count

-- Sorted and cut to the first eight.
unfoldable pub top_label_sets : List PredictedLabelSet → List PredictedLabelSet
top_label_sets matched = take predictor_top_n (sort label_set_less matched)

-- What a leg adds to the floor, the label sets for the status, and the counts for the gauges.
pub record Contribution : Type 0 where
  pub contrib : ℤ
  pub matched : List PredictedLabelSet
  pub per_label_set : GoMap ℤ

abbrev pub no_contribution : Contribution
no_contribution = record { contrib = pos 0; matched = []; per_label_set = [] }

unfoldable pub contribution_of : List String → GoMap ℤ → Contribution
contribution_of want m =
    let (contrib, matched) = match_from want (pos 0) [] m in
    record { contrib = contrib; matched = top_label_sets matched; per_label_set = m }

-- `pol.Spec.Predictor == nil || pol.Spec.Predictor.Enabled`
unfoldable pub predictor_enabled : Spec → Bool
predictor_enabled spec = elim spec.predictor [ none ↦ true | some p ↦ p.enabled ]

unfoldable pub activity_enabled : Spec → Bool
activity_enabled spec = elim spec.activity [ none ↦ true | some a ↦ a.enabled ]

-- `owner/repository`
unfoldable pub full_name : Policy → String
full_name pol = str_append pol.spec.github.owner (str_append "/" pol.spec.github.repository)

module _ {Cluster : Type 0} (world : World Cluster) (r : Reconciler Cluster) where
  unfoldable pub compute_predicted : Policy → Result Contribution
  compute_predicted pol = elim r.predictor [
    | none ↦ ok no_contribution
    | some predict ↦
        if not (predictor_enabled pol.spec)
        then ok no_contribution
        else elim (predictor_token world r pol) [
          | err e ↦ err e
          | ok token ↦ elim (predict pol.spec.github.owner pol.spec.github.repository token) [
            | err e ↦ err e
            | ok per_label_set ↦ ok (contribution_of pol.spec.github.labels per_label_set)
          ]
        ]
  ]

  -- The active window of the feed.
  unfoldable pub active_window : Spec → Duration
  active_window spec = elim spec.active_window_seconds [
    | none ↦ default_active_window
    | some s ↦ if ltb_ℤ (pos 0) s then s *ℤ pos second else default_active_window
  ]

  -- `computeActivityFromFeed`: `none` is the empty source, at which the caller falls back to the poll;
  -- otherwise the source is "webhook" and the time is `activeUntil`.
  unfoldable pub compute_activity_from_feed : EventFeed → Policy → Option (Contribution × Time)
  compute_activity_from_feed feed pol =
      let (per_label_set, last_event) = feed (full_name pol) in
      let window = active_window pol.spec in
      if is_zero last_event
      then none
      else if ltb_ℤ window (time_sub world.feed_now last_event)
      then none
      else some (contribution_of pol.spec.github.labels per_label_set, time_add last_event window)

  -- The window of the poll.
  unfoldable pub poll_window : Option ActivityConfig → Duration
  poll_window none = activity_window_default
  poll_window (some a) =
      if ltb_ℤ (pos 0) a.window_seconds
      then a.window_seconds *ℤ pos second
      else activity_window_default

  unfoldable pub full_denylist : Option ActivityConfig → List String
  full_denylist none = builtin_denylist
  full_denylist (some a) = builtin_denylist ++ a.bot_login_denylist

  -- The status after a poll: marked only where a label set matched.
  unfoldable pub mark_polled : Policy → List PredictedLabelSet → Status
  mark_polled pol [] = pol.status
  mark_polled pol (s ∷ matched) =
      if is_some pol.spec.github_app_ref
      then record (pol.status) {
        last_event_source = "poll";
        active_until = some (time_add world.poll_now (poll_window pol.spec.activity));
      }
      else pol.status

  -- The poll path of `computeActivity`: the status, and the contribution or an error.
  unfoldable pub poll_activity : Policy → Status × Result Contribution
  poll_activity pol = elim r.activity [
    | none ↦ (pol.status, ok no_contribution)
    | some sample ↦
        if not (activity_enabled pol.spec)
        then (pol.status, ok no_contribution)
        else elim (predictor_token world r pol) [
          | err e ↦ (pol.status, err e)
          | ok token ↦
              elim (sample pol.spec.github.owner pol.spec.github.repository token
                (poll_window pol.spec.activity) (full_denylist pol.spec.activity)) [
                  | err e ↦ (pol.status, err e)
                  | ok per_label_set ↦
                      let c = contribution_of pol.spec.github.labels per_label_set in
                      (mark_polled pol c.matched, ok c)
                ]
        ]
  ]

  -- The feed that is read: only where the policy names an app.
  unfoldable pub feed_of : Policy → Option EventFeed
  feed_of pol = if is_some pol.spec.github_app_ref then r.event_feed else none

  -- `computeActivity`, less the deferred metrics.
  unfoldable pub compute_activity : Policy → Status × Result Contribution
  compute_activity pol = elim (feed_of pol) [
    | none ↦ poll_activity pol
    | some feed ↦ elim (compute_activity_from_feed feed pol) [
      | none ↦ poll_activity pol
      | some (c, until) ↦
          (record (pol.status) { last_event_source = "webhook"; active_until = some until }, ok c)
    ]
  ]
