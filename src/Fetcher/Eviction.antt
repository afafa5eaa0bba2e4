-- ===== src/Fetcher/Eviction.antt =====
-- `cachedETag`, `touchAndGet` and `store` of internal/predictor/cache.go.
use warmrunners.Base.{
  ℕ, zero, suc, String, true, false, List, [], ◌∷◌, Option, none, some, lookup, insert, delete,
  if◌then◌else◌, ◌==◌, ltb, length, contains,
}
use warmrunners.Fetcher.{CacheEntry, FileCache}

-- `lru.Remove` of the element of a key.
unfoldable pub remove_key : String → List String → List String
remove_key key [] = []
remove_key key (k ∷ lru) = if k == key then lru else k ∷ remove_key key lru

-- `lru.MoveToFront`, which does nothing for an element that is not in the list.
unfoldable pub move_to_front : String → List String → List String
unfolding remove_key
move_to_front key lru = if contains lru key then key ∷ remove_key key lru else lru

-- `lru.Back`, and the list without it.
unfoldable pub last_key : List String → Option String
last_key [] = none
last_key (k ∷ []) = some k
last_key (k ∷ l ∷ lru) = last_key (l ∷ lru)

unfoldable pub without_last : List String → List String
without_last [] = []
without_last (k ∷ []) = []
without_last (k ∷ l ∷ lru) = k ∷ without_last (l ∷ lru)

unfoldable pub cached_etag : FileCache → String → String
cached_etag f key = elim (lookup key f.cache) [ none ↦ "" | some e ↦ e.etag ]

unfoldable pub touch_and_get : String → FileCache → Option String × FileCache
unfolding move_to_front
touch_and_get key f = elim (lookup key f.cache) [
  | none ↦ (none, f)
  | some e ↦ (some e.body, record f { lru = move_to_front key f.lru })
]

-- The loop over the back of the list: each round removes an element, so that as many rounds as there
-- are elements are enough.
unfoldable pub evict_rounds : ℕ → FileCache → FileCache
evict_rounds zero f = f
evict_rounds (suc rounds) f = elim (ltb f.capacity (length f.lru)) [
  | false ↦ f
  | true ↦ elim (last_key f.lru) [
    | none ↦ f
    | some victim ↦
        evict_rounds rounds (record f { lru = without_last f.lru; cache = delete victim f.cache })
  ]
]

unfoldable pub evict_over : FileCache → FileCache
unfolding evict_rounds
evict_over f = evict_rounds (length f.lru) f

unfoldable pub store : String → String → String → FileCache → FileCache
unfolding move_to_front evict_over
store key etag body f =
    let e : CacheEntry = record { etag = etag; body = body } in
    elim (lookup key f.cache) [
      | some old ↦ record f { lru = move_to_front key f.lru; cache = insert key e f.cache }
      | none ↦ evict_over (record f { lru = key ∷ f.lru; cache = insert key e f.cache })
    ]
