-- ===== src/Controller/Freshness.antt =====
-- When the event feed speaks for a policy.
use warmrunners.Base.{
  ◌≤◌, ◌≡◌, sym, subst, false, some, inl, inr, arith, pos, negsuc, ◌<ℤ◌, ◌≤ℤ◌, ltb_ℤ, Bool-cases,
}
use warmrunners.Clock.{Time, Duration, is_zero, time_sub, time_add, max_duration}
use warmrunners.Policy.{Policy}
use warmrunners.Controller.{Reconciler, World, EventFeed}
use warmrunners.Controller.Signals.{
  Contribution, contribution_of, full_name, active_window, compute_activity_from_feed,
}

-- Within the reach of int64, what is no longer ago than `d` is not past once `d` is added.
time_sub-le :
    (t u : Time) (d : Duration) → d <ℤ pos max_duration → time_sub t u ≤ℤ d → t ≤ time_add u d
unfolding time_sub time_add
time_sub-le t u (pos d) small h = ground arith
time_sub-le t u (negsuc d) small h = ground arith

module _ {Cluster : Type 0} (world : World Cluster) (r : Reconciler Cluster) (feed : EventFeed)
    (pol : Policy) where
  -- There was an event, and the last one is no longer ago than the active window.
  abbrev pub IsFresh : Type 0
  IsFresh =
      (is_zero (feed (full_name pol)).1 ≡ false)
      × (time_sub world.feed_now (feed (full_name pol)).1 ≤ℤ active_window world r pol.spec)

  -- Where the feed answers, its last event is no longer ago than the active window, the contribution is that of
  -- the jobs that it counted, and the window that it opens is not over yet; the window is below 2^63 - 1
  -- nanoseconds.
  pub compute_activity_from_feed-IsFresh :
      (c : Contribution) (until : Time)
      → active_window world r pol.spec <ℤ pos max_duration
      → compute_activity_from_feed world r feed pol ≡ some (c, until)
      → IsFresh
        × (c ≡ contribution_of pol.spec.github.labels (feed (full_name pol)).0)
        × (world.feed_now ≤ until)
  unfolding compute_activity_from_feed
  compute_activity_from_feed-IsFresh c until small h =
      elim (Bool-cases (is_zero (feed (full_name pol)).1)) [
        | inl silent ↦ absurd (ground (arith, silent, h))
        | inr spoken ↦
            elim (Bool-cases (
              ltb_ℤ (active_window world r pol.spec)
                (time_sub world.feed_now (feed (full_name pol)).1))) [
                  | inl stale ↦ absurd (ground (arith, spoken, stale, h))
                  | inr fresh ↦
                      let window = active_window world r pol.spec in
                      let last = (feed (full_name pol)).1 in
                      let within : time_sub world.feed_now last ≤ℤ window = ground (arith, fresh) in
                      let labels = pol.spec.github.labels in
                      let given : (contribution_of labels (feed (full_name pol)).0 ≡ c)
                          × (time_add last window ≡ until) =
                        ground (arith, spoken, fresh, h) in
                      let open_still = time_sub-le world.feed_now last window small within in
                      (
                        (spoken, within),
                        sym given.0,
                        subst (λ n. world.feed_now ≤ n) given.1 open_still,
                      )
                ]
      ]
