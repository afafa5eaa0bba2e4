-- ===== src/Webhook/Replay/Catching.antt =====
-- A replay is caught while its lifetime runs and the guard has not filled up since.
use warmrunners.Base.{
  ℕ, zero, suc, ◌<◌, take, ◌+◌, String, ◌≡◌, refl, sym, subst, All, true, false, some, List, [],
  ◌∷◌, arith, ℤ, pos, ◌≤ℤ◌, leb_ℤ, lookup, length, ◌==◌, eq_iff, eq_refl, Option-cases, Bool-cases,
  inl, inr,
}
use warmrunners.Clock.{Time, Duration, time_sub}
use warmrunners.Webhook.Replay.{
  ReplayEntry, ReplayGuard, remove_element, back, remove_back, forget, evict, push_front, seen,
  after_calls, new_replay_guard,
}
use warmrunners.Webhook.Replay.Consistency.{IsConsistent, seen-IsConsistent, entry_of}
use warmrunners.Webhook.Replay.Bounds.{
  IsBounded, after_calls-IsConsistent, after_calls_size, seen_size, new_replay_guard-IsConsistent,
  seen-IsBounded,
}

module _ (k : String) (e : ReplayEntry) where
  -- The entry is found among the first `n` elements.
  abbrev pub IsAmong : ℕ → List ReplayEntry → Type 0
  IsAmong n lru = entry_of k (take n lru) ≡ some e

  IsAmong-suc : (n : ℕ) (lru : List ReplayEntry) → IsAmong n lru → IsAmong (suc n) lru
  unfolding entry_of
  IsAmong-suc zero lru h = absurd cc
  IsAmong-suc (suc n) [] h = h
  IsAmong-suc (suc n) (x ∷ lru) h = ground (arith, IsAmong-suc n lru)

  IsAmong-entry_of : (n : ℕ) (lru : List ReplayEntry) → IsAmong n lru → entry_of k lru ≡ some e
  unfolding entry_of
  IsAmong-entry_of zero lru h = absurd cc
  IsAmong-entry_of (suc n) [] h = h
  IsAmong-entry_of (suc n) (x ∷ lru) h = ground (arith, IsAmong-entry_of n lru)

  IsAmong-remove_element :
      (j : String) (n : ℕ) (lru : List ReplayEntry)
      → (j == k) ≡ false
      → IsAmong n lru
      → IsAmong n (remove_element j lru)
  unfolding entry_of remove_element
  IsAmong-remove_element j zero lru other h = h
  IsAmong-remove_element j (suc n) [] other h = h
  IsAmong-remove_element j (suc n) (x ∷ lru) other h = ground (
    arith,
    eq_iff x.key j,
    eq_iff x.key k,
    eq_iff j k,
    IsAmong-remove_element j n lru other,
    IsAmong-suc n lru,
  )

  -- The back is not among the first elements of a longer list.
  IsAmong-remove_back :
      (n : ℕ) (lru : List ReplayEntry)
      → n < length lru
      → IsAmong n lru
      → IsAmong n (remove_back lru)
  unfolding entry_of remove_back
  IsAmong-remove_back zero lru more h = h
  IsAmong-remove_back (suc n) [] more h = h
  IsAmong-remove_back (suc n) (x ∷ []) more h = ground arith
  IsAmong-remove_back (suc n) (x ∷ y ∷ lru) more h = ground (arith, IsAmong-remove_back n (y ∷ lru))

  IsAmong-evict :
      (n : ℕ) (g : ReplayGuard) → pos (suc n) ≤ℤ g.size → IsAmong n g.lru → IsAmong n (evict g).lru
  unfolding evict
  IsAmong-evict n g room h = elim (Bool-cases (leb_ℤ g.size (pos (length g.lru)))) [
    | inr free ↦ rw (free, evict) h
    | inl full ↦ elim (Option-cases (back g.lru)) [
      | inl empty ↦ rw (full, empty, evict) h
      | inr (oldest, b) ↦ rw (full, b, evict) (IsAmong-remove_back n g.lru (ground arith) h)
    ]
  ]

  IsAmong-push_front :
      (j : String) (now : Time) (n : ℕ) (g : ReplayGuard)
      → (j == k) ≡ false
      → IsAmong n g.lru
      → IsAmong (suc n) (push_front j now g).lru
  unfolding push_front entry_of
  IsAmong-push_front j now n g other h = ground arith

  -- A call for an entry that lives reports it and changes nothing.
  seen_alive :
      (now : Time) (g : ReplayGuard)
      → IsConsistent g
      → time_sub now e.inserted_at ≤ℤ g.ttl
      → entry_of k g.lru ≡ some e
      → seen k g now ≡ (true, g)
  unfolding seen
  seen_alive now g c alive h =
      let fresh : leb_ℤ (time_sub now e.inserted_at) g.ttl ≡ true = ground arith in
      rw (c.same k, h, seen) (rw fresh refl)

  -- One more call moves the entry back by one place at most, while it lives.
  IsAmong-seen :
      (j : String) (now : Time) (n : ℕ) (g : ReplayGuard)
      → IsConsistent g
      → pos (suc n) ≤ℤ g.size
      → time_sub now e.inserted_at ≤ℤ g.ttl
      → IsAmong n g.lru
      → IsAmong (suc n) (seen j g now).1.lru
  unfolding seen forget
  IsAmong-seen j now n g c room alive h = elim (Bool-cases (j == k)) [
    | inl same ↦
        subst (λ x. IsAmong (suc n) (seen x g now).1.lru) (sym ((eq_iff j k).0 same))
          (rw (seen_alive now g c alive (IsAmong-entry_of n g.lru h)) (IsAmong-suc n g.lru h))
    | inr other ↦ elim (Option-cases (lookup j g.elements)) [
      | inl new ↦
          rw (new, seen) (IsAmong-push_front j now n (evict g) other (IsAmong-evict n g room h))
      | inr (x, old) ↦ elim (Bool-cases (leb_ℤ (time_sub now x.inserted_at) g.ttl)) [
        | inl fresh ↦ rw (old, fresh, seen) (IsAmong-suc n g.lru h)
        | inr expired ↦
            rw (old, expired, seen)
              (IsAmong-push_front j now n (evict (forget j g)) other
                (IsAmong-evict n (forget j g) room (IsAmong-remove_element j n g.lru other h)))
      ]
    ]
  ]

  IsAmong-after_calls :
      (n : ℕ) (g : ReplayGuard) (calls : List (Time × String))
      → pos 1 ≤ℤ g.size
      → IsConsistent g
      → IsBounded g
      → pos (n + length calls) ≤ℤ g.size
      → All (λ c. time_sub c.0 e.inserted_at ≤ℤ g.ttl) calls
      → IsAmong n g.lru
      → IsAmong (n + length calls) (after_calls calls g).lru
  unfolding after_calls
  IsAmong-after_calls n g [] one c b room alive h = subst (λ m. IsAmong m g.lru) (omega arith) h
  IsAmong-after_calls n g ((now, id) ∷ calls) one c b room alive h =
      let (c', b') = after_calls-IsConsistent g calls one c b in
      let before = IsAmong-after_calls n g calls one c b (ground (arith, room)) alive.1 h in
      subst (λ m. IsAmong m (seen id (after_calls calls g) now).1.lru) {x = suc (n + length calls)}
        (omega arith)
        (IsAmong-seen id now (n + length calls) (after_calls calls g) c'
          (ground (arith, room, after_calls_size g calls))
          (ground (arith, alive.0, after_calls_size g calls)) before)

seen-fresh :
    (k : String) (g : ReplayGuard) (now : Time) (x : ReplayEntry)
    → lookup k g.elements ≡ some x
    → leb_ℤ (time_sub now x.inserted_at) g.ttl ≡ true
    → (seen k g now).0 ≡ true
unfolding seen
seen-fresh k g now x old fresh = rw (old, fresh, seen) refl

-- A call that reports no replay puts its record to the front.
seen-new :
    (k : String) (g : ReplayGuard) (now : Time)
    → (seen k g now).0 ≡ false
    → IsAmong k (record { key = k; inserted_at = now }) 1 (seen k g now).1.lru
unfolding seen push_front entry_of
seen-new k g now h = elim (Option-cases (lookup k g.elements)) [
  | inl new ↦ rw (new, seen) (ground (arith, eq_refl k))
  | inr (x, old) ↦ elim (Bool-cases (leb_ℤ (time_sub now x.inserted_at) g.ttl)) [
    | inl fresh ↦ absurd (ground (arith, seen-fresh k g now x old fresh, h))
    | inr expired ↦ rw (old, expired, seen) (ground (arith, eq_refl k))
  ]
]

module _ (k : String) (t t' : Time) (g : ReplayGuard) (calls : List (Time × String)) where
  seen_again :
      IsConsistent g
      → IsBounded g
      → (seen k g t).0 ≡ false
      → pos (suc (length calls)) ≤ℤ g.size
      → All (λ c. time_sub c.0 t ≤ℤ g.ttl) calls
      → time_sub t' t ≤ℤ g.ttl
      → (seen k (after_calls calls (seen k g t).1) t').0 ≡ true
  seen_again c b new room alive alive' =
      let g1 = (seen k g t).1 in
      let e : ReplayEntry = record { key = k; inserted_at = t } in
      let (size1, ttl1) = seen_size k g t in
      let one1 : pos 1 ≤ℤ g1.size = ground (arith, room, size1) in
      let c1 = seen-IsConsistent k g t c in
      let b1 = seen-IsBounded k g t (ground (arith, room)) b in
      let (c2, b2) = after_calls-IsConsistent g1 calls one1 c1 b1 in
      let there =
        IsAmong-after_calls k e 1 g1 calls one1 c1 b1 (ground (arith, room, size1))
          (subst (λ d. All (λ c. time_sub c.0 t ≤ℤ d) calls) (sym ttl1) alive)
          (seen-new k g t new) in
      let hit =
        seen_alive k e t' (after_calls calls g1) c2
          (ground (arith, alive', after_calls_size g1 calls, ttl1))
          (IsAmong-entry_of k e (1 + length calls) (after_calls calls g1).lru there) in
      cc hit

-- Behind a call that recorded a delivery, fewer further calls than the size of the guard, all within the
-- lifetime of the record, leave it in place: a replay of the delivery within the lifetime is reported.
pub seen-replay :
    (size : ℤ) (ttl : Duration) (earlier calls : List (Time × String)) (k : String) (t t' : Time)
    → let g = after_calls earlier (new_replay_guard size ttl) in
      (seen k g t).0 ≡ false
      → pos (suc (length calls)) ≤ℤ size
      → All (λ c. time_sub c.0 t ≤ℤ ttl) calls
      → time_sub t' t ≤ℤ ttl
      → (seen k (after_calls calls (seen k g t).1) t').0 ≡ true
unfolding new_replay_guard
seen-replay size ttl earlier calls k t t' new room alive alive' =
    let fresh = new_replay_guard size ttl in
    let g = after_calls earlier fresh in
    let (c, b) =
      after_calls-IsConsistent fresh earlier (ground (arith, room))
        (new_replay_guard-IsConsistent size ttl) (ground (arith, room)) in
    let (size_g, ttl_g) = after_calls_size fresh earlier in
    seen_again k t t' g calls c b new (ground (arith, room, size_g))
      (subst (λ d. All (λ c. time_sub c.0 t ≤ℤ d) calls) (sym ttl_g) alive)
      (subst (λ d. time_sub t' t ≤ℤ d) (sym ttl_g) alive')
