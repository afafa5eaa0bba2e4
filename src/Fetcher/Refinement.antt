-- ===== src/Fetcher/Refinement.antt =====
-- `store` and `touchAndGet` against the list of entries by recency.
use warmrunners.Base.{
  suc, ◌≤◌, String, true, false, List, ◌∷◌, Option, none, some, GoMap, lookup, insert, delete,
  lookup-insert, if◌then◌else◌, ◌==◌, length, take, contains, is_some, ◌≡◌, refl, sym, ap, ◌∙◌, inl,
  inr, arith, Option-cases, eq_iff, eq_refl, subst,
}
use warmrunners.Fetcher.{CacheEntry, FileCache}
use warmrunners.Fetcher.Eviction.{remove_key, move_to_front, touch_and_get, evict_over, store}
use warmrunners.Fetcher.Recency.{
  view, contents, IsDistinct, IsLru, contains-remove_key, remove_key-IsDistinct, length-remove_key,
  view-insert, delete-view, view-remove_key, linked-IsCached, length-view, view-cons, take-all,
}
use warmrunners.Fetcher.Overflow.{stored, pushed, evict_over-refines}

lookup-insert_self :
    (key : String) (e : CacheEntry) (cache : GoMap CacheEntry)
    → lookup key (insert key e cache) ≡ some e
lookup-insert_self key e cache = ground (arith, lookup-insert key key e cache, eq_refl key)

contains-cons :
    (key k : String) (lru : List String)
    → contains (key ∷ lru) k ≡ (if key == k then true else contains lru k)
unfolding contains
contains-cons key k lru = ground arith

-- A key in front of a list that has it elsewhere or not at all.
contains-front :
    (key k : String) (lru : List String)
    → IsDistinct lru
    → contains (key ∷ remove_key key lru) k ≡ (if key == k then true else contains lru k)
unfolding contains
contains-front key k lru h = ground (arith, contains-remove_key key k lru h)

module _ (f : FileCache) (key : String) (lru : IsLru f) where
  store-missing :
      (etag body : String)
      → lookup key f.cache ≡ none
      → store key etag body f
        ≡ evict_over
            (pushed f.capacity key f.lru (insert key (record { etag = etag; body = body }) f.cache))
  unfolding store
  store-missing etag body missing = rw (missing, store) refl

  store-new :
      (etag body : String)
      → lookup key f.cache ≡ none
      → (contents (store key etag body f)
          ≡ stored f.capacity key (record { etag = etag; body = body }) (contents f))
        × IsLru (store key etag body f)
  unfolding stored contents
  store-new etag body missing =
      let e : CacheEntry = record { etag = etag; body = body } in
      let cache = insert key e f.cache in
      let absent : contains f.lru key ≡ false = ground (arith, lru.linked key, missing) in
      let refined =
        evict_over-refines f.capacity key f.lru cache (absent, lru.distinct)
          (λ k. new_linked e absent k) lru.within in
      let shown : view cache (key ∷ f.lru) ≡ (key, e) ∷ delete key (view f.cache f.lru) =
        view-cons cache key f.lru e (lookup-insert_self key e f.cache)
        ∙ ap (λ (m : GoMap CacheEntry). (key, e) ∷ m)
            (view-insert key e f.cache f.lru absent ∙ sym (delete-view key f.cache f.lru absent)) in
      subst
        (λ (g : FileCache).
          (view g.cache g.lru ≡ take f.capacity ((key, e) ∷ delete key (view f.cache f.lru)))
          × IsLru g)
        (sym (store-missing etag body missing))
        (refined.0 ∙ ap (λ (m : GoMap CacheEntry). take f.capacity m) shown, refined.1)
    where
      new_linked :
          (e : CacheEntry)
          → contains f.lru key ≡ false
          → (k : String) → is_some (lookup k (insert key e f.cache)) ≡ contains (key ∷ f.lru) k
      new_linked e absent k =
          ground (arith, lookup-insert key k e f.cache, lru.linked k, contains-cons key k f.lru)

  store-existing :
      (etag body : String) (old : CacheEntry)
      → lookup key f.cache ≡ some old
      → store key etag body f ≡ record f {
        lru = key ∷ remove_key key f.lru;
        cache = insert key (record { etag = etag; body = body }) f.cache;
      }
  unfolding store move_to_front
  store-existing etag body old found = ground (arith, found, lru.linked key)

  -- The rest of a list that has the key.
  length-rest :
      (old : CacheEntry)
      → lookup key f.cache ≡ some old
      → suc (length (view f.cache (remove_key key f.lru))) ≤ f.capacity
  length-rest old found = omega (
    arith,
    lru.within,
    length-remove_key key f.lru (sym (lru.linked key) ∙ ap is_some found),
    length-view f.cache (remove_key key f.lru) (
        linked-IsCached f.cache (remove_key key f.lru)
          (λ k member. ground (arith, lru.linked k, contains-remove_key key k f.lru lru.distinct))),
  )

  front-IsLru :
      (cache : GoMap CacheEntry) (old : CacheEntry)
      → lookup key f.cache ≡ some old
      → ((k : String)
          → is_some (lookup k cache) ≡ (if key == k then true else is_some (lookup k f.cache)))
      → IsLru (record f { lru = key ∷ remove_key key f.lru; cache = cache })
  front-IsLru cache old found same = record {
    distinct = (
      ground (arith, contains-remove_key key key f.lru lru.distinct, eq_refl key),
      remove_key-IsDistinct key f.lru lru.distinct,
    );
    linked = λ k. ground (arith, same k, lru.linked k, contains-front key k f.lru lru.distinct);
    within =
        omega (
          arith,
          lru.within,
          length-remove_key key f.lru (sym (lru.linked key) ∙ ap is_some found),
        );
  }

  store-old :
      (etag body : String) (old : CacheEntry)
      → lookup key f.cache ≡ some old
      → (contents (store key etag body f)
          ≡ stored f.capacity key (record { etag = etag; body = body }) (contents f))
        × IsLru (store key etag body f)
  unfolding stored contents
  store-old etag body old found =
      let e : CacheEntry = record { etag = etag; body = body } in
      let cache = insert key e f.cache in
      let rest = remove_key key f.lru in
      let shown : view cache (key ∷ rest) ≡ (key, e) ∷ view f.cache rest =
        view-cons cache key rest e (lookup-insert_self key e f.cache)
        ∙ ap (λ (m : GoMap CacheEntry). (key, e) ∷ m)
            (view-insert key e f.cache rest
              (ground (arith, contains-remove_key key key f.lru lru.distinct, eq_refl key))) in
      let whole : take f.capacity ((key, e) ∷ view f.cache rest) ≡ (key, e) ∷ view f.cache rest =
        take-all f.capacity ((key, e) ∷ view f.cache rest) (length-rest old found) in
      subst
        (λ (g : FileCache).
          (view g.cache g.lru ≡ take f.capacity ((key, e) ∷ delete key (view f.cache f.lru)))
          × IsLru g)
        (sym (store-existing etag body old found))
        (
          shown
              ∙ sym whole
              ∙ ap (λ (m : GoMap CacheEntry). take f.capacity ((key, e) ∷ m))
                  (view-remove_key key f.cache f.lru lru.distinct),
          front-IsLru cache old found (λ k. ground (arith, lookup-insert key k e f.cache)),
        )

-- `store` on a cache whose list and map fit together: the entries, from the most recent, become the
-- new one, then those of the other keys in their order, cut at the capacity; and the list and the
-- map of the new cache fit together and within the capacity.
pub store-refines :
    (f : FileCache) (key etag body : String)
    → IsLru f
    → (contents (store key etag body f)
        ≡ stored f.capacity key (record { etag = etag; body = body }) (contents f))
      × IsLru (store key etag body f)
store-refines f key etag body lru = elim (Option-cases (lookup key f.cache)) [
  | inl missing ↦ store-new f key lru etag body missing
  | inr (old, found) ↦ store-old f key lru etag body old found
]

touch-found :
    (f : FileCache) (key : String) (e : CacheEntry)
    → IsLru f
    → lookup key f.cache ≡ some e
    → touch_and_get key f ≡ (some e.body, record f { lru = key ∷ remove_key key f.lru })
unfolding touch_and_get move_to_front
touch-found f key e lru found = ground (arith, found, lru.linked key)

touch-missing :
    (f : FileCache) (key : String) → lookup key f.cache ≡ none → touch_and_get key f ≡ (none, f)
unfolding touch_and_get
touch-missing f key missing = rw (missing, touch_and_get) refl

touch-view :
    (f : FileCache) (key : String) (e : CacheEntry)
    → IsLru f
    → lookup key f.cache ≡ some e
    → view f.cache (key ∷ remove_key key f.lru) ≡ (key, e) ∷ delete key (view f.cache f.lru)
touch-view f key e lru found =
    view-cons f.cache key (remove_key key f.lru) e found
    ∙ ap (λ (m : GoMap CacheEntry). (key, e) ∷ m) (view-remove_key key f.cache f.lru lru.distinct)

-- What a hit makes of the entries: the one under the key first.
unfoldable pub touched : String → CacheEntry → GoMap CacheEntry → GoMap CacheEntry
touched key e entries = (key, e) ∷ delete key entries

-- What a cache and a body are after a hit, or after a miss.
abbrev pub IsTouched : FileCache → String → Option String × FileCache → Type 0
IsTouched f key (body, g) =
    ((e : CacheEntry)
      → lookup key f.cache ≡ some e
      → (body ≡ some e.body) × (contents g ≡ touched key e (contents f)))
    × (lookup key f.cache ≡ none → (body ≡ none) × (g ≡ f))

-- `touchAndGet` on such a cache returns the body under the key and puts its entry first, before the
-- others in their order; for a key that is not cached it returns none and changes nothing; and the
-- list and the map still fit together.
pub touch_and_get-refines :
    (f : FileCache) (key : String)
    → IsLru f
    → IsLru (touch_and_get key f).1 × IsTouched f key (touch_and_get key f)
unfolding contents touched
touch_and_get-refines f key lru = elim (Option-cases (lookup key f.cache)) [
  | inl missing ↦
      rw (touch-missing f key missing)
        (lru, ((λ e found. absurd (ground (arith, missing, found))), (λ h. (refl, refl))))
  | inr (old, there) ↦ rw (touch-found f key old lru there) (
    front-IsLru f key lru f.cache old there (λ k. ground (arith, there, eq_iff key k)),
    (
      (λ e found. (ground (arith, there, found), touch-view f key e lru found)),
      (λ missing. absurd (ground (arith, there, missing))),
    ),
  )
]
