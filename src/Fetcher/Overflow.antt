-- ===== src/Fetcher/Overflow.antt =====
-- A key in front of a full list: the loop of `store` cuts the last entry.
use warmrunners.Base.{
  ℕ, suc, ◌≤◌, String, true, List, ◌∷◌, some, GoMap, lookup, delete, lookup-delete, ltb, length,
  take, contains, is_some, ◌≡◌, refl, sym, ap, ◌∙◌, inl, inr, arith, Bool-cases, eq_refl, subst,
}
use warmrunners.Fetcher.{CacheEntry, FileCache}
use warmrunners.Fetcher.Eviction.{last_key, without_last, evict_rounds, evict_over}
use warmrunners.Fetcher.Recency.{
  view, contents, IsDistinct, IsLru, contains-remove_key, remove_key-IsDistinct, last-removed,
  view-delete, linked-IsCached, length-view, view-without_last, take-all, evict_rounds-within,
  last_key-some, length-without_last,
}

-- What `store` makes of the entries: the new one first, the old one under its key left out, and the
-- last ones cut.
unfoldable pub stored : ℕ → String → CacheEntry → GoMap CacheEntry → GoMap CacheEntry
stored capacity key e entries = take capacity ((key, e) ∷ delete key entries)

evict_rounds-step :
    (rounds : ℕ) (f : FileCache) (v : String)
    → ltb f.capacity (length f.lru) ≡ true
    → last_key f.lru ≡ some v
    → evict_rounds (suc rounds) f
      ≡ evict_rounds rounds (record f { lru = without_last f.lru; cache = delete v f.cache })
unfolding evict_rounds
evict_rounds-step rounds f v over last = ground (arith, over, last)

module _ (capacity : ℕ) (key : String) (rest : List String) (cache : GoMap CacheEntry) where
  -- The cache with a key in front.
  abbrev pub pushed : FileCache
  pushed = record { capacity = capacity; lru = key ∷ rest; cache = cache }

  -- The cache without the entry of the last key.
  abbrev cut : String → FileCache
  cut v = record pushed { lru = without_last (key ∷ rest); cache = delete v cache }

  contents-pushed : contents pushed ≡ view cache (key ∷ rest)
  unfolding contents
  contents-pushed = refl

  evict_over-room : suc (length rest) ≤ capacity → evict_over pushed ≡ pushed
  unfolding evict_over
  evict_over-room fits = evict_rounds-within (suc (length rest)) pushed fits

  evict_over-full :
      (v : String)
      → last_key (key ∷ rest) ≡ some v
      → length rest ≡ capacity
      → evict_over pushed ≡ cut v
  unfolding evict_over
  evict_over-full v last full =
      evict_rounds-step (length rest) pushed v full_test last
      ∙ evict_rounds-within (length rest) (cut v)
          (omega (arith, length-without_last key rest, full))
    where
      full_test : ltb capacity (suc (length rest)) ≡ true
      full_test = ground arith

  cut-IsLru :
      (v : String)
      → last_key (key ∷ rest) ≡ some v
      → IsDistinct (key ∷ rest)
      → ((k : String) → is_some (lookup k cache) ≡ contains (key ∷ rest) k)
      → length rest ≤ capacity
      → IsLru (cut v)
  cut-IsLru v last distinct linked within =
      let same = last-removed (key ∷ rest) v distinct last in
      record {
        distinct =
            subst (λ (l : List String). IsDistinct l) (sym same)
              (remove_key-IsDistinct v (key ∷ rest) distinct);
        linked = λ k.
            subst (λ (l : List String). is_some (lookup k (delete v cache)) ≡ contains l k)
              (sym same)
              (ground (
                arith,
                linked k,
                lookup-delete v k cache,
                contains-remove_key v k (key ∷ rest) distinct,
              ));
        within = omega (arith, length-without_last key rest);
      }

  cut-contents :
      (v : String)
      → last_key (key ∷ rest) ≡ some v
      → IsDistinct (key ∷ rest)
      → ((k : String) → is_some (lookup k cache) ≡ contains (key ∷ rest) k)
      → contents (cut v) ≡ take (length rest) (view cache (key ∷ rest))
  unfolding contents
  cut-contents v last distinct linked =
      view-delete v cache (without_last (key ∷ rest)) (
        ap (λ (l : List String). contains l v) (last-removed (key ∷ rest) v distinct last)
        ∙ ground (arith, contains-remove_key v v (key ∷ rest) distinct, eq_refl v))
      ∙ view-without_last cache key rest
          (linked-IsCached cache (key ∷ rest) (λ k member. linked k ∙ member))

  pub evict_over-refines :
      IsDistinct (key ∷ rest)
      → ((k : String) → is_some (lookup k cache) ≡ contains (key ∷ rest) k)
      → length rest ≤ capacity
      → (contents (evict_over pushed) ≡ take capacity (view cache (key ∷ rest)))
        × IsLru (evict_over pushed)
  evict_over-refines distinct linked within = elim (Bool-cases (ltb capacity (suc (length rest)))) [
    | inr room ↦
        let fits : suc (length rest) ≤ capacity = ground (arith, room) in
        subst (λ (g : FileCache). (contents g ≡ take capacity (view cache (key ∷ rest))) × IsLru g)
          (sym (evict_over-room fits))
          (
            contents-pushed
                ∙ sym (
                    take-all capacity (view cache (key ∷ rest)) (
                      omega (
                        arith,
                        length-view cache (key ∷ rest)
                            (linked-IsCached cache (key ∷ rest) (λ k member. linked k ∙ member)),
                      ))),
            record { distinct = distinct; linked = linked; within = fits },
          )
    | inl over ↦
        let (v, last) = last_key-some key rest in
        let full : length rest ≡ capacity = ground (arith, within) in
        subst (λ (g : FileCache). (contents g ≡ take capacity (view cache (key ∷ rest))) × IsLru g)
          (sym (evict_over-full v last full))
          (
            cut-contents v last distinct linked
                ∙ ap (λ (n : ℕ). take n (view cache (key ∷ rest))) full,
            cut-IsLru v last distinct linked within,
          )
  ]
