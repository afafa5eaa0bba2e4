-- ===== src/Fetcher/Versions.antt =====
-- `Fetch` against a server that has one version of the file.
use Prim.Native.String.{◌++◌ as str_append}
use text.Mathlib.TextLemmas.{nil-append}
use warmrunners.Base.{
  ℕ, zero, suc, String, ◌≡◌, refl, sym, ap, ◌∙◌, subst, inl, inr, Option, some, none, ◌∷◌, arith,
  Result, ok, err, nat_eq, Bool-cases, Option-cases, Result-cases, GoMap, lookup, insert, delete,
  lookup-insert, lookup-delete, eq_iff, ◌==◌, ltb, length,
}
use warmrunners.Predictor.Listing.{header_of}
use warmrunners.Fetcher.{CacheEntry, FileCache, WorkflowFetcher}
use warmrunners.Fetcher.Eviction.{
  cached_etag, touch_and_get, store, evict_rounds, evict_over, last_key, without_last,
}
use warmrunners.Fetcher.Fetch.{
  FileResponse, FileReply, failed, response, finished, FetchOutside, Wanted, cache_key,
  contents_url, file_request, take_file_response, fetch_step, sleep_ctx, after_wait, fetch_from,
  fetch, nothing_cached,
}
use warmrunners.Fetcher.Fetches.{FetchStep-cases}

-- Every entry is a version of the file under its key; `text key etag` is the text of a version.
abbrev pub IsVersioned : (String → String → String) → GoMap CacheEntry → Type 0
IsVersioned text cache =
    (key : String) (e : CacheEntry) → lookup key cache ≡ some e → e.body ≡ text key e.etag

evict_rounds-lookup :
    (rounds : ℕ) (f : FileCache) (k : String) (e : CacheEntry)
    → lookup k (evict_rounds rounds f).cache ≡ some e
    → lookup k f.cache ≡ some e
unfolding evict_rounds
evict_rounds-lookup zero f k e h = h
evict_rounds-lookup (suc rounds) f k e h = elim (Bool-cases (ltb f.capacity (length f.lru))) [
  | inr room ↦ ground (arith, room)
  | inl over ↦ elim (Option-cases (last_key f.lru)) [
    | inl empty ↦ ground (arith, over, empty)
    | inr (v, last) ↦
        let rest =
          evict_rounds-lookup rounds
            (record f { lru = without_last f.lru; cache = delete v f.cache }) k e
            (ground (arith, over, last)) in
        ground (arith, rest, lookup-delete v k f.cache)
  ]
]

store-lookup :
    (f : FileCache) (key etag body k : String) (e : CacheEntry)
    → lookup k (store key etag body f).cache ≡ some e
    → lookup k (insert key (record { etag = etag; body = body }) f.cache) ≡ some e
unfolding store evict_over
store-lookup f key etag body k e h = elim (Option-cases (lookup key f.cache)) [
  | inr (old, found) ↦ ground (arith, found)
  | inl missing ↦
      evict_rounds-lookup (suc (length f.lru))
        (record f {
          lru = key ∷ f.lru;
          cache = insert key (record { etag = etag; body = body }) f.cache;
        })
        k e (ground (arith, missing))
]

store-IsVersioned :
    (text : String → String → String) (f : FileCache) (key etag : String)
    → IsVersioned text f.cache
    → IsVersioned text (store key etag (text key etag) f).cache
store-IsVersioned text f key etag h k e found =
    let e' : CacheEntry = record { etag = etag; body = text key etag } in
    let here = store-lookup f key etag (text key etag) k e found in
    elim (Bool-cases (key == k)) [
      | inl same ↦ ground (arith, here, same, eq_iff key k, lookup-insert key k e' f.cache)
      | inr other ↦ h k e (ground (arith, here, other, lookup-insert key k e' f.cache))
    ]

touch_and_get-cache : (f : FileCache) (key : String) → (touch_and_get key f).1.cache ≡ f.cache
unfolding touch_and_get
touch_and_get-cache f key = elim (Option-cases (lookup key f.cache)) [
  | inl missing ↦ rw (missing, touch_and_get) refl
  | inr (e, found) ↦ rw (found, touch_and_get) refl
]

module _ (out : FetchOutside) (f : WorkflowFetcher) (w : Wanted) (text : String → String → String)
    (etag : String) where
  -- The server has the version `etag`: a 200 names it, and its body is read whole or fails, and a 304
  -- answers a request that names it. Other answers, and network errors, are free.
  pub record HasVersion (r : FileResponse) : Type 0 where
    pub names : r.code ≡ 200 → r.etag ≡ etag
    pub sends : (body : String) → r.code ≡ 200 → r.body ≡ ok body → body ≡ text (cache_key w) etag
    pub confirms : r.code ≡ 304 → (file_request out f w).if_none_match ≡ some etag

  -- The cache and the result of a step or of a call.
  abbrev pub IsCurrent : Result String → FileCache → Type 0
  IsCurrent result files =
      IsVersioned text files.cache
      × ((body : String) → result ≡ ok body → body ≡ text (cache_key w) etag)

  -- A request names the version of the entry that is cached.
  named_in :
      (o : Option CacheEntry)
      → header_of "" (elim o [ none ↦ "" | some e ↦ e.etag ]) ≡ some etag
      → (e : CacheEntry) × (o ≡ some e) × (e.etag ≡ etag)
  unfolding header_of
  named_in none named = cc
  named_in (some e) named = (
    e,
    refl,
    elim (Bool-cases (e.etag == "")) [
      | inl empty ↦ absurd (ground (arith, empty))
      | inr given ↦
          let same : str_append "" e.etag ≡ etag = ground (arith, given) in
          sym (nil-append e.etag) ∙ same
    ],
  )

  named_entry :
      (file_request out f w).if_none_match ≡ some etag
      → (e : CacheEntry) × (lookup (cache_key w) f.files.cache ≡ some e) × (e.etag ≡ etag)
  unfolding file_request cached_etag
  named_entry named = named_in (lookup (cache_key w) f.files.cache) named

  same_step :
      (start result : Result String) (before files : FileCache)
      → IsCurrent start before
      → finished start before ≡ finished result files
      → IsCurrent result files
  same_step start result before files h e =
      let results : start ≡ result = cc in
      let caches : before ≡ files = cc in
      subst (λ (r : Result String). IsCurrent r files) results
        (subst (λ (g : FileCache). IsCurrent start g) caches h)

  failure-IsCurrent : (e : String) → IsVersioned text f.files.cache → IsCurrent (err e) f.files
  failure-IsCurrent e h = (h, λ body same. absurd cc)

  cached-IsCurrent :
      IsVersioned text f.files.cache
      → (file_request out f w).if_none_match ≡ some etag
      → (body : String) → (touch_and_get (cache_key w) f.files).0 ≡ some body
      → IsCurrent (ok body) (touch_and_get (cache_key w) f.files).1
  unfolding touch_and_get
  cached-IsCurrent h named body got =
      let (e, found, version) = named_entry named in
      let same : e.body ≡ body = ground (arith, found, got) in
      (
        subst (λ (m : GoMap CacheEntry). IsVersioned text m)
            (sym (touch_and_get-cache f.files (cache_key w))) h,
        λ b returned.
            ground
              (arith, same, returned, h (cache_key w) e found, ap (text (cache_key w)) version),
      )

  response-IsCurrent :
      (r : FileResponse) (attempt : ℕ) (result : Result String) (files : FileCache)
      → IsVersioned text f.files.cache
      → HasVersion r
      → take_file_response out f w r attempt ≡ finished result files
      → IsCurrent result files
  unfolding take_file_response
  response-IsCurrent r attempt result files versioned server done =
      elim (Bool-cases (nat_eq r.code 200)) [
        | inl fine ↦ elim (Result-cases r.body) [
          | inr (e, broken) ↦
              same_step (err e) result f.files files (failure-IsCurrent e versioned)
                (ground (arith, fine, broken, done))
          | inl (body, read) ↦
              let sent = server.sends body (ground (arith, fine)) read in
              let named = server.names (ground (arith, fine)) in
              same_step (ok body) result (store (cache_key w) r.etag body f.files) files
                (
                  rw (sent, named) (store-IsVersioned text f.files (cache_key w) etag versioned),
                  λ b same. ground (arith, sent, same),
                )
                (ground (arith, fine, read, done))
        ]
        | inr other ↦ elim (Bool-cases (nat_eq r.code 304)) [
          | inl unchanged ↦ elim (Option-cases (touch_and_get (cache_key w) f.files).0) [
            | inl missing ↦
                same_step (err (nothing_cached w)) result f.files files
                  (failure-IsCurrent (nothing_cached w) versioned)
                  (ground (arith, other, unchanged, missing, done))
            | inr (body, got) ↦
                same_step (ok body) result (touch_and_get (cache_key w) f.files).1 files
                  (cached-IsCurrent versioned (server.confirms (ground (arith, unchanged))) body
                    got)
                  (ground (arith, other, unchanged, got, done))
          ]
          | inr neither ↦
              let kept : f.files ≡ files = ground (arith, other, neither, done) in
              (
                subst (λ (g : FileCache). IsVersioned text g.cache) kept versioned,
                λ body same. absurd (ground (arith, other, neither, done, same)),
              )
        ]
      ]

  step-IsCurrent :
      (attempt : ℕ) (result : Result String) (files : FileCache)
      → IsVersioned text f.files.cache
      → ((r : FileResponse) → out.reply attempt (file_request out f w) ≡ response r → HasVersion r)
      → fetch_step out f w attempt ≡ finished result files
      → IsCurrent result files
  unfolding fetch_step
  step-IsCurrent attempt result files versioned server done =
      from_reply (out.reply attempt (file_request out f w)) refl
    where
      from_reply :
          (reply : FileReply)
          → out.reply attempt (file_request out f w) ≡ reply
          → IsCurrent result files
      from_reply (failed e) same = absurd (ground (arith, same, done))
      from_reply (response r) same =
          response-IsCurrent r attempt result files versioned (server r same)
            (ground (arith, same, done))

  module _ (versioned : IsVersioned text f.files.cache)
      (server : (i : ℕ) (r : FileResponse)
        → out.reply i (file_request out f w) ≡ response r
        → HasVersion r) where
    fetch_from-IsCurrent :
        (left attempt : ℕ)
        → IsCurrent (fetch_from out f w left attempt).result (fetch_from out f w left attempt).files
    unfolding fetch_from after_wait
    fetch_from-IsCurrent zero attempt = elim (FetchStep-cases (fetch_step out f w attempt)) [
      | inl (r, files, h) ↦
          rw (h, fetch_from) (step-IsCurrent attempt r files versioned (server attempt) h)
      | inr (inl (e, h)) ↦ rw (h, fetch_from) (failure-IsCurrent e versioned)
      | inr (inr (e, d, h)) ↦ rw (h, fetch_from) (failure-IsCurrent e versioned)
    ]
    fetch_from-IsCurrent (suc left) attempt = elim (FetchStep-cases (fetch_step out f w attempt)) [
      | inl (r, files, h) ↦
          rw (h, fetch_from) (step-IsCurrent attempt r files versioned (server attempt) h)
      | inr (inl (e, h)) ↦ rw (h, fetch_from) (fetch_from-IsCurrent left (suc attempt))
      | inr (inr (e, d, h)) ↦ elim (Option-cases (sleep_ctx out f w attempt d).1) [
        | inr (e', stopped) ↦ rw (h, stopped, fetch_from) (failure-IsCurrent e' versioned)
        | inl rested ↦ rw (h, rested, fetch_from) (fetch_from-IsCurrent left (suc attempt))
      ]
    ]

    -- Where the cache holds versions and the server has one version of the file, which a 200 sends and
    -- a 304 confirms, `Fetch` returns nothing but the text of that version, whether it was sent or
    -- cached, and the cache holds versions again. Errors of any kind may come between.
    pub fetch-IsCurrent : IsCurrent (fetch out f w).result (fetch out f w).files
    unfolding fetch
    fetch-IsCurrent = elim (Option-cases (out.new_request (contents_url out f w))) [
      | inr (e, bad) ↦ rw (bad, fetch) (failure-IsCurrent e versioned)
      | inl made ↦ rw (made, fetch) (fetch_from-IsCurrent 3 0)
    ]
