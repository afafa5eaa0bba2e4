-- ===== src/Fetcher/Recency.antt =====
-- The list and the map of the cache against one list of entries by recency, cut at the capacity.
use warmrunners.Base.{
  ℕ, zero, suc, ◌≤◌, String, true, false, List, [], ◌∷◌, none, some, GoMap, lookup, insert, delete,
  lookup-insert, lookup-delete, if◌then◌else◌, ◌==◌, length, take, contains, is_some, ◌≡◌, refl,
  sym, ap, ◌∙◌, inl, inr, arith, Bool-cases, Option-cases, eq_iff, eq_refl, All,
}
use warmrunners.Fetcher.{CacheEntry, FileCache}
use warmrunners.Fetcher.Eviction.{remove_key, last_key, without_last, evict_rounds}

-- The entries from the most recent.
unfoldable pub view : GoMap CacheEntry → List String → GoMap CacheEntry
view cache [] = []
view cache (k ∷ lru) =
    let rest = view cache lru in elim (lookup k cache) [ none ↦ rest | some e ↦ (k, e) ∷ rest ]

unfoldable pub contents : FileCache → GoMap CacheEntry
unfolding view
contents f = view f.cache f.lru

abbrev pub IsDistinct : List String → Type 0
IsDistinct [] = Unit
IsDistinct (k ∷ lru) = (contains lru k ≡ false) × IsDistinct lru

-- The list has each key of the map once and no other, within the capacity.
pub record IsLru (f : FileCache) : Type 0 where
  pub distinct : IsDistinct f.lru
  pub linked : (k : String) → is_some (lookup k f.cache) ≡ contains f.lru k
  pub within : length f.lru ≤ f.capacity

pub contains-remove_key :
    (key k : String) (lru : List String)
    → IsDistinct lru
    → contains (remove_key key lru) k ≡ (if key == k then false else contains lru k)
unfolding remove_key contains
contains-remove_key key k [] h = ground arith
contains-remove_key key k (l ∷ lru) h =
    ground (arith, contains-remove_key key k lru h.1, h.0, eq_iff l key, eq_iff key k, eq_iff l k)

pub remove_key-IsDistinct :
    (key : String) (lru : List String) → IsDistinct lru → IsDistinct (remove_key key lru)
unfolding remove_key
remove_key-IsDistinct key [] h = tt
remove_key-IsDistinct key (l ∷ lru) h = elim (Bool-cases (l == key)) [
  | inl same ↦ rw same h.1
  | inr other ↦
      rw other
        (ground (arith, contains-remove_key key l lru h.1, h.0), remove_key-IsDistinct key lru h.1)
]

pub length-remove_key :
    (key : String) (lru : List String)
    → contains lru key ≡ true
    → suc (length (remove_key key lru)) ≡ length lru
unfolding remove_key contains
length-remove_key key [] h = cc
length-remove_key key (l ∷ lru) h = ground (arith, length-remove_key key lru, eq_iff l key)

pub last-member : (lru : List String) (v : String) → last_key lru ≡ some v → contains lru v ≡ true
unfolding last_key contains
last-member [] v e = cc
last-member (k ∷ []) v e = ground (arith, eq_iff k v)
last-member (k ∷ l ∷ lru) v e = ground (arith, last-member (l ∷ lru) v e)

pub last-removed :
    (lru : List String) (v : String)
    → IsDistinct lru
    → last_key lru ≡ some v
    → without_last lru ≡ remove_key v lru
unfolding last_key without_last remove_key contains
last-removed [] v h e = refl
last-removed (k ∷ []) v h e = ground (arith, eq_iff k v)
last-removed (k ∷ l ∷ lru) v h e =
    let member : contains (l ∷ lru) v ≡ true = last-member (l ∷ lru) v e in
    elim (Bool-cases (k == v)) [
      | inl same ↦ absurd (
          ground
            (arith, h.0, (eq_iff k v).0 same, ap (λ t. contains (l ∷ lru) t) ((eq_iff k v).0 same)))
      | inr other ↦ rw other (ap (λ (t : List String). k ∷ t) (last-removed (l ∷ lru) v h.1 e))
    ]

pub view-insert :
    (key : String) (e : CacheEntry) (cache : GoMap CacheEntry) (lru : List String)
    → contains lru key ≡ false
    → view (insert key e cache) lru ≡ view cache lru
unfolding view contains
view-insert key e cache [] h = refl
view-insert key e cache (k ∷ lru) h =
    ground
      (arith, view-insert key e cache lru, lookup-insert key k e cache, eq_iff key k, eq_iff k key)

pub view-delete :
    (key : String) (cache : GoMap CacheEntry) (lru : List String)
    → contains lru key ≡ false
    → view (delete key cache) lru ≡ view cache lru
unfolding view contains
view-delete key cache [] h = refl
view-delete key cache (k ∷ lru) h =
    ground (arith, view-delete key cache lru, lookup-delete key k cache, eq_iff key k, eq_iff k key)

pub delete-view :
    (key : String) (cache : GoMap CacheEntry) (lru : List String)
    → contains lru key ≡ false
    → delete key (view cache lru) ≡ view cache lru
unfolding view contains delete
delete-view key cache [] h = refl
delete-view key cache (k ∷ lru) h = ground (arith, delete-view key cache lru, eq_iff k key)

pub view-remove_key :
    (key : String) (cache : GoMap CacheEntry) (lru : List String)
    → IsDistinct lru
    → view cache (remove_key key lru) ≡ delete key (view cache lru)
unfolding view remove_key delete
view-remove_key key cache [] h = refl
view-remove_key key cache (k ∷ lru) h =
    ground (arith, view-remove_key key cache lru h.1, delete-view key cache lru, h.0, eq_iff k key)

-- Every key of the list is in the map.
abbrev pub IsCached : GoMap CacheEntry → List String → Type 0
IsCached cache = All (λ k. is_some (lookup k cache) ≡ true)

pub linked-IsCached :
    (cache : GoMap CacheEntry) (lru : List String)
    → ((k : String) → contains lru k ≡ true → is_some (lookup k cache) ≡ true)
    → IsCached cache lru
unfolding contains
linked-IsCached cache [] h = tt
linked-IsCached cache (k ∷ lru) h =
    (h k (ground (arith, eq_refl k)), linked-IsCached cache lru (λ l member. h l (ground arith)))

pub length-view :
    (cache : GoMap CacheEntry) (lru : List String)
    → IsCached cache lru
    → length (view cache lru) ≡ length lru
unfolding view
length-view cache [] h = refl
length-view cache (k ∷ lru) h = ground (arith, length-view cache lru h.1, h.0)

pub view-cons :
    (cache : GoMap CacheEntry) (k : String) (lru : List String) (e : CacheEntry)
    → lookup k cache ≡ some e
    → view cache (k ∷ lru) ≡ (k, e) ∷ view cache lru
unfolding view
view-cons cache k lru e found = rw (found, view) refl

pub view-without_last :
    (cache : GoMap CacheEntry) (k : String) (lru : List String)
    → IsCached cache (k ∷ lru)
    → view cache (without_last (k ∷ lru)) ≡ take (length lru) (view cache (k ∷ lru))
unfolding without_last
view-without_last cache k [] h = no_keys cache
  where
    no_keys : (c : GoMap CacheEntry) → view c [] ≡ []
    no_keys c = unfold view in refl
view-without_last cache k (l ∷ lru) h = elim (Option-cases (lookup k cache)) [
  | inl missing ↦ absurd (ground (arith, missing, h.0))
  | inr (e, found) ↦
      view-cons cache k (without_last (l ∷ lru)) e found
      ∙ ap (λ (m : GoMap CacheEntry). (k, e) ∷ m) (view-without_last cache l lru h.1)
      ∙ ap (λ (m : GoMap CacheEntry). take (suc (length lru)) m)
          (sym (view-cons cache k (l ∷ lru) e found))
]

pub take-all {ℓ} : {A : Type ℓ} (n : ℕ) (xs : List A) → length xs ≤ n → take n xs ≡ xs
take-all zero [] h = refl
take-all zero (x ∷ xs) h = absurd (omega arith)
take-all (suc n) [] h = refl
take-all (suc n) (x ∷ xs) h = ap (λ (ys : List _). x ∷ ys) (take-all n xs (omega arith))

pub evict_rounds-within :
    (rounds : ℕ) (f : FileCache) → length f.lru ≤ f.capacity → evict_rounds rounds f ≡ f
unfolding evict_rounds
evict_rounds-within zero f h = refl
evict_rounds-within (suc rounds) f h = ground arith

pub last_key-some : (k : String) (lru : List String) → (v : String) × (last_key (k ∷ lru) ≡ some v)
unfolding last_key
last_key-some k [] = (k, refl)
last_key-some k (l ∷ lru) = last_key-some l lru

pub length-without_last :
    (k : String) (lru : List String) → length (without_last (k ∷ lru)) ≡ length lru
unfolding without_last
length-without_last k [] = refl
length-without_last k (l ∷ lru) = ap suc (length-without_last l lru)
