-- ===== src/Webhook/Replay/Bounds.antt =====
-- The guard holds no more entries than its size.
use warmrunners.Base.{
  suc, ◌≤◌, String, ◌≡◌, refl, ap, none, some, List, [], ◌∷◌, arith, ℤ, pos, ◌≤ℤ◌, leb_ℤ, lookup,
  length, Option-cases, Bool-cases, inl, inr,
}
use warmrunners.Clock.{Time, Duration, time_sub}
use warmrunners.Webhook.Replay.{
  ReplayEntry, ReplayGuard, remove_element, back, remove_back, forget, evict, push_front, seen,
  after_calls, new_replay_guard,
}
use warmrunners.Webhook.Replay.Consistency.{IsConsistent, entry_of, back-cons, seen-IsConsistent}

-- The guard holds no more entries than its size.
abbrev pub IsBounded : ReplayGuard → Type 0
IsBounded g = pos (length g.lru) ≤ℤ g.size

length-remove_element-le :
    (k : String) (lru : List ReplayEntry) → length (remove_element k lru) ≤ length lru
unfolding remove_element
length-remove_element-le k [] = omega arith
length-remove_element-le k (e ∷ lru) = ground (arith, length-remove_element-le k lru)

-- Where there is a back, its removal shortens the list by one; otherwise the list is empty.
pub length-remove_back :
    (lru : List ReplayEntry) (oldest : ReplayEntry)
    → back lru ≡ some oldest
    → suc (length (remove_back lru)) ≡ length lru
unfolding remove_back back
length-remove_back [] oldest b = absurd cc
length-remove_back (e ∷ []) oldest b = refl
length-remove_back (e ∷ f ∷ lru) oldest b = ap suc (length-remove_back (f ∷ lru) oldest b)

pub back-none : (lru : List ReplayEntry) → back lru ≡ none → length lru ≡ 0
back-none [] b = refl
back-none (e ∷ lru) b = absurd (let (oldest, h) = back-cons e lru in cc (b, h))

evict_room :
    (g : ReplayGuard)
    → pos 1 ≤ℤ g.size
    → IsBounded g
    → pos (suc (length (evict g).lru)) ≤ℤ (evict g).size
unfolding evict
evict_room g one b = elim (Bool-cases (leb_ℤ g.size (pos (length g.lru)))) [
  | inr room ↦ rw (room, evict) (ground arith)
  | inl full ↦ elim (Option-cases (back g.lru)) [
    | inl empty ↦ rw (full, empty, evict) (ground (arith, back-none g.lru empty))
    | inr (oldest, h) ↦ rw (full, h, evict) (ground (arith, length-remove_back g.lru oldest h))
  ]
]

forget_bound : (k : String) (g : ReplayGuard) → IsBounded g → IsBounded (forget k g)
unfolding forget
forget_bound k g b = ground (arith, length-remove_element-le k g.lru)

pub seen-IsBounded :
    (k : String) (g : ReplayGuard) (now : Time)
    → pos 1 ≤ℤ g.size
    → IsBounded g
    → IsBounded (seen k g now).1
unfolding seen push_front forget
seen-IsBounded k g now one b = elim (Option-cases (lookup k g.elements)) [
  | inl new ↦ rw (new, seen) (evict_room g one b)
  | inr (e, old) ↦ elim (Bool-cases (leb_ℤ (time_sub now e.inserted_at) g.ttl)) [
    | inl fresh ↦ rw (old, fresh, seen) b
    | inr expired ↦ rw (old, expired, seen) (evict_room (forget k g) one (forget_bound k g b))
  ]
]

evict_size : (g : ReplayGuard) → ((evict g).size ≡ g.size) × ((evict g).ttl ≡ g.ttl)
unfolding evict
evict_size g = ground arith

-- A call changes neither the size nor the lifetime.
pub seen_size :
    (k : String) (g : ReplayGuard) (now : Time)
    → ((seen k g now).1.size ≡ g.size) × ((seen k g now).1.ttl ≡ g.ttl)
unfolding seen push_front forget
seen_size k g now = ground (arith, evict_size g, evict_size (forget k g))

pub after_calls_size :
    (g : ReplayGuard) (calls : List (Time × String))
    → ((after_calls calls g).size ≡ g.size) × ((after_calls calls g).ttl ≡ g.ttl)
unfolding after_calls
after_calls_size g [] = (refl, refl)
after_calls_size g ((now, id) ∷ calls) =
    ground (arith, seen_size id (after_calls calls g) now, after_calls_size g calls)

pub after_calls-IsConsistent :
    (g : ReplayGuard) (calls : List (Time × String))
    → pos 1 ≤ℤ g.size
    → IsConsistent g
    → IsBounded g
    → IsConsistent (after_calls calls g) × IsBounded (after_calls calls g)
unfolding after_calls
after_calls-IsConsistent g [] one c b = (c, b)
after_calls-IsConsistent g ((now, id) ∷ calls) one c b =
    let (c', b') = after_calls-IsConsistent g calls one c b in
    (
      seen-IsConsistent id (after_calls calls g) now c',
      seen-IsBounded id (after_calls calls g) now (ground (arith, after_calls_size g calls)) b',
    )

pub new_replay_guard-IsConsistent :
    (size : ℤ) (ttl : Duration) → IsConsistent (new_replay_guard size ttl)
unfolding new_replay_guard lookup entry_of
new_replay_guard-IsConsistent size ttl = record { distinct = tt; same = λ k. refl }

-- Whatever calls a new guard of a positive size has served, its list and its map hold the same entries,
-- one for each key, and no more of them than the size.
pub guard-IsConsistent :
    (size : ℤ) (ttl : Duration) (calls : List (Time × String))
    → pos 1 ≤ℤ size
    → let g = after_calls calls (new_replay_guard size ttl) in
      IsConsistent g × (pos (length g.lru) ≤ℤ size)
unfolding new_replay_guard
guard-IsConsistent size ttl calls one =
    let g = new_replay_guard size ttl in
    let (c, b) =
      after_calls-IsConsistent g calls one (new_replay_guard-IsConsistent size ttl)
        (ground arith) in
    (c, ground (arith, b, after_calls_size g calls))
