-- ===== src/Webhook/Replay.antt =====
-- The guard against replayed deliveries: internal/webhook/replay.go. A list element is its entry, which
-- the list is searched for by key; the reading of the clock is the last argument.
pub mod Consistency
pub mod Bounds
pub mod Catching
pub mod History
use warmrunners.Base.{
  String, Bool, true, false, Option, none, some, List, [], ◌∷◌, ℤ, pos, leb_ℤ, GoMap, lookup,
  insert, delete, length, if◌then◌else◌, ◌==◌,
}
use warmrunners.Clock.{Time, Duration, time_sub}

pub record ReplayEntry : Type 0 where
  pub key : String
  pub inserted_at : Time

-- `lru` is the list from its front to its back, `elements` the map `lookup`.
pub record ReplayGuard : Type 0 where
  pub size : ℤ
  pub ttl : Duration
  pub lru : List ReplayEntry
  pub elements : GoMap ReplayEntry

-- `NewReplayGuard`
unfoldable pub new_replay_guard : ℤ → Duration → ReplayGuard
new_replay_guard size ttl = record { size = size; ttl = ttl; lru = []; elements = [] }

-- `lru.Remove` of the element with this key
unfoldable pub remove_element : String → List ReplayEntry → List ReplayEntry
remove_element key [] = []
remove_element key (e ∷ lru) = if e.key == key then lru else e ∷ remove_element key lru

-- `lru.Back`
unfoldable pub back : List ReplayEntry → Option ReplayEntry
back [] = none
back (e ∷ []) = some e
back (e ∷ f ∷ lru) = back (f ∷ lru)

-- `lru.Remove` of the back
unfoldable pub remove_back : List ReplayEntry → List ReplayEntry
remove_back [] = []
remove_back (e ∷ []) = []
remove_back (e ∷ f ∷ lru) = e ∷ remove_back (f ∷ lru)

-- The branch for an expired entry.
unfoldable pub forget : String → ReplayGuard → ReplayGuard
forget id g = record g { lru = remove_element id g.lru; elements = delete id g.elements }

-- The oldest entry makes room where the guard is full.
unfoldable pub evict : ReplayGuard → ReplayGuard
evict g =
    if leb_ℤ g.size (pos (length g.lru))
    then elim (back g.lru) [
      | none ↦ g
      | some oldest ↦ record g { lru = remove_back g.lru; elements = delete oldest.key g.elements }
    ]
    else g

unfoldable pub push_front : String → Time → ReplayGuard → ReplayGuard
push_front id now g =
    let e : ReplayEntry = record { key = id; inserted_at = now } in
    record g { lru = e ∷ g.lru; elements = insert id e g.elements }

-- `Seen`: whether the delivery was seen, and the guard afterwards.
unfoldable pub seen : String → ReplayGuard → Time → Bool × ReplayGuard
seen id g now = elim (lookup id g.elements) [
  | none ↦ (false, push_front id now (evict g))
  | some e ↦
      if leb_ℤ (time_sub now e.inserted_at) g.ttl
      then (true, g)
      else (false, push_front id now (evict (forget id g)))
]

-- The guard after calls of `Seen`, the latest first.
unfoldable pub after_calls : List (Time × String) → ReplayGuard → ReplayGuard
after_calls [] g = g
after_calls ((now, id) ∷ calls) g = (seen id (after_calls calls g) now).1
