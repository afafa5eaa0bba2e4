-- ===== src/Webhook/Replay/History.antt =====
-- What the guard reports as a replay was delivered before.
use warmrunners.Base.{
  String, ◌≡◌, ◌⊎◌, inl, inr, true, some, List, [], ◌∷◌, arith, ℤ, ◌≤ℤ◌, lookup, lookup-insert,
  lookup-delete, eq_iff, Option-cases,
}
use warmrunners.Clock.{Time, Duration, time_sub}
use warmrunners.Webhook.Replay.{
  ReplayEntry, ReplayGuard, back, forget, evict, push_front, seen, after_calls, new_replay_guard,
}
use warmrunners.Webhook.Replay.Bounds.{after_calls_size}

-- Among the calls is one for the delivery, at this time.
abbrev pub HasCall : String → Time → List (Time × String) → Type 0
HasCall k t [] = ⊥
HasCall k t ((now, id) ∷ calls) = ((id ≡ k) × (now ≡ t)) ⊎ HasCall k t calls

module _ (j : String) (e : ReplayEntry) where
  lookup-evict :
      (g : ReplayGuard) → lookup j (evict g).elements ≡ some e → lookup j g.elements ≡ some e
  unfolding evict
  lookup-evict g h = elim (Option-cases (back g.lru)) [
    | inl empty ↦ ground (arith, empty, h)
    | inr (oldest, b) ↦ ground (arith, b, h, lookup-delete oldest.key j g.elements)
  ]

  lookup-forget :
      (k : String) (g : ReplayGuard)
      → lookup j (forget k g).elements ≡ some e
      → lookup j g.elements ≡ some e
  unfolding forget
  lookup-forget k g h = ground (arith, lookup-delete k j g.elements, h)

  lookup-push_front :
      (k : String) (now : Time) (g : ReplayGuard)
      → lookup j (push_front k now g).elements ≡ some e
      → ((k ≡ j) × (now ≡ e.inserted_at)) ⊎ (lookup j g.elements ≡ some e)
  unfolding push_front
  lookup-push_front k now g h =
      ground
        (arith, eq_iff k j, lookup-insert k j (record { key = k; inserted_at = now }) g.elements, h)

  lookup-seen :
      (k : String) (g : ReplayGuard) (now : Time)
      → lookup j (seen k g now).1.elements ≡ some e
      → ((k ≡ j) × (now ≡ e.inserted_at)) ⊎ (lookup j g.elements ≡ some e)
  unfolding seen
  lookup-seen k g now h = elim (Option-cases (lookup k g.elements)) [
    | inl new ↦ ground (arith, new, h, lookup-push_front k now (evict g), lookup-evict g)
    | inr (x, old) ↦ ground (
      arith,
      old,
      h,
      lookup-push_front k now (evict (forget k g)),
      lookup-evict (forget k g),
      lookup-forget k g,
    )
  ]

  lookup-after_calls :
      (size : ℤ) (ttl : Duration) (calls : List (Time × String))
      → lookup j (after_calls calls (new_replay_guard size ttl)).elements ≡ some e
      → HasCall j e.inserted_at calls
  unfolding after_calls new_replay_guard lookup
  lookup-after_calls size ttl [] h = absurd cc
  lookup-after_calls size ttl ((now, id) ∷ calls) h =
      elim (lookup-seen id (after_calls calls (new_replay_guard size ttl)) now h) [
        | inl this ↦ inl this
        | inr before ↦ inr (lookup-after_calls size ttl calls before)
      ]

seen-lookup :
    (k : String) (g : ReplayGuard) (now : Time)
    → (seen k g now).0 ≡ true
    → (e : ReplayEntry) × (lookup k g.elements ≡ some e) × (time_sub now e.inserted_at ≤ℤ g.ttl)
unfolding seen
seen-lookup k g now h = elim (Option-cases (lookup k g.elements)) [
  | inl new ↦ absurd (ground (arith, new, h))
  | inr (e, old) ↦ (e, old, ground (arith, old, h))
]

-- A delivery that the guard reports as a replay was passed to it before, within its lifetime.
pub seen-HasCall :
    (size : ℤ) (ttl : Duration) (calls : List (Time × String)) (k : String) (now : Time)
    → (seen k (after_calls calls (new_replay_guard size ttl)) now).0 ≡ true
    → (t : Time) × HasCall k t calls × (time_sub now t ≤ℤ ttl)
unfolding new_replay_guard
seen-HasCall size ttl calls k now h =
    let g = new_replay_guard size ttl in
    let (e, there, alive) = seen-lookup k (after_calls calls g) now h in
    (
      e.inserted_at,
      lookup-after_calls k e size ttl calls there,
      ground (arith, alive, after_calls_size g calls),
    )
