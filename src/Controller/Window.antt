-- ===== src/Controller/Window.antt =====
-- The expiries of a policy's active window are counted once each.
use warmrunners.Base.{
  ℕ, ◌+◌, String, ◌≡◌, Bool, false, none, some, List, [], ◌∷◌, arith, lookup-insert, ltb, ◌==◌,
  eq_refl, if◌then◌else◌, is_some,
}
use warmrunners.Policy.{Policy}
use warmrunners.Controller.{World, Memory, Metric, set_gauge, delete_gauge, count}
use warmrunners.Controller.Metrics.{until_before, close_window, emit_active_window_metrics}

-- How often the expiry counter goes up.
unfoldable pub expiries : List Metric → ℕ
expiries [] = 0
expiries (set_gauge name labels v ∷ metrics) = expiries metrics
expiries (delete_gauge name labels ∷ metrics) = expiries metrics
expiries (count name labels ∷ metrics) =
    (if name == "active_window_expiries" then 1 else 0) + expiries metrics

-- The window is open at a reconcile.
abbrev pub is_open : {Cluster : Type 0} → World Cluster → Policy → Bool
is_open world pol = elim pol.status.active_until [ none ↦ false | some t ↦ ltb world.window_now t ]

-- The policy was seen with an open window.
abbrev pub was_open : String → Memory → Bool
was_open name mem = is_some (until_before name mem.prev_active_until)

module _ {Cluster : Type 0} where
  pub emit_active_window_metrics-edge :
      (world : World Cluster) (pol : Policy) (mem : Memory)
      → (expiries (emit_active_window_metrics world pol mem).0
          ≡ (if is_open world pol then 0 else if was_open pol.name mem then 1 else 0))
        × (was_open pol.name (emit_active_window_metrics world pol mem).1 ≡ is_open world pol)
  unfolding emit_active_window_metrics expiries close_window until_before
  emit_active_window_metrics-edge world pol mem = ground (
    arith,
    eq_refl pol.name,
    lookup-insert pol.name pol.name none mem.prev_active_until,
    lookup-insert pol.name pol.name pol.status.active_until mem.prev_active_until,
  )
