-- ===== src/Predictor/Listing.antt =====
-- The listings of internal/predictor/workflow_needs_graph.go: `cachedGet` and its cache,
-- `listActiveRuns` and `listJobs`.
use Prim.Native.Char.{code}
use Prim.Native.String.{char_at, ◌++◌ as str_append}
use warmrunners.Base.{
  ℕ, zero, suc, ◌/◌, ◌%◌, String, Bool, true, false, ◌&&◌, List, [], ◌∷◌, ◌++◌, Option, none, some,
  GoMap, lookup, insert, Result, ok, err, ℤ, pos, negsuc, eqb_ℤ, if◌then◌else◌, ◌==◌, nat_eq, ltb,
  leb, length,
}
use warmrunners.Demand.Retry.{trim_space}
use warmrunners.Predictor.{
  RunRef, Request, Reply, failed, response, Outside, ListCacheEntry, PredictState, Call,
}

abbrev pub default_runs_cap : ℕ
default_runs_cap = 50

-- The cap that `NewWorkflowNeedsGraph` sets.
unfoldable pub runs_cap_of : ℤ → ℕ
runs_cap_of (pos zero) = default_runs_cap
runs_cap_of (pos (suc n)) = suc n
runs_cap_of (negsuc n) = default_runs_cap

abbrev pub active_statuses : List String
active_statuses = "in_progress" ∷ "queued" ∷ "pending" ∷ "requested" ∷ "waiting" ∷ []

-- `cachedETag`, `cachedBody` and `storeList`
unfoldable pub cached_etag : GoMap ListCacheEntry → String → String
cached_etag cache key = elim (lookup key cache) [ none ↦ "" | some e ↦ e.etag ]

unfoldable pub cached_body : GoMap ListCacheEntry → String → Option String
cached_body cache key = elim (lookup key cache) [ none ↦ none | some e ↦ some e.body ]

unfoldable pub store_list : String → String → String → GoMap ListCacheEntry → GoMap ListCacheEntry
store_list key etag body cache = insert key (record { etag = etag; body = body }) cache

-- A header that is set only for a text that is not empty.
unfoldable pub header_of : String → String → Option String
header_of prefix value = if value == "" then none else some (str_append prefix value)

-- `strings.TrimRight(s, "/")`
unfoldable pub trim_slashes : String → String
trim_slashes String.[] = String.[]
trim_slashes (String.◌∷◌ c s) =
    let rest = trim_slashes s in
    if nat_eq (code c) b'/' && rest == "" then String.[] else String.◌∷◌ c rest

-- `%d`: the digits are written from the last one.
unfoldable pub show_digits : ℕ → ℕ → String → String
show_digits zero n out = out
show_digits (suc fuel) n out =
    let shown = String.◌∷◌ (char_at "0123456789" (n % 10)) out in
    let more = show_digits fuel (n / 10) shown in if ltb n 10 then shown else more

unfoldable pub show_int : ℤ → String
unfolding show_digits
show_int (pos n) = show_digits (suc n) n ""
show_int (negsuc n) = str_append "-" (show_digits (suc (suc n)) (suc n) "")

unfoldable pub concat_texts : List String → String
concat_texts [] = ""
concat_texts (t ∷ ts) = str_append t (concat_texts ts)

unfoldable pub seen_id : List RunRef → ℤ → Bool
seen_id [] id = false
seen_id (r ∷ runs) id = if eqb_ℤ r.id id then true else seen_id runs id

-- The loop over one listing: the runs, and whether the cap ends the whole scan.
unfoldable pub union_runs : Call → List RunRef → List RunRef → List RunRef × Bool
unfolding seen_id
union_runs call runs [] = (runs, false)
union_runs call runs (r ∷ listed) = elim (seen_id runs r.id) [
  | true ↦ union_runs call runs listed
  | false ↦ elim (leb call.runs_cap (length (runs ++ r ∷ []))) [
    | true ↦ (runs ++ r ∷ [], true)
    | false ↦ union_runs call (runs ++ r ∷ []) listed
  ]
]

module _ {W : Type 0} (out : Outside W) (call : Call) where
  unfoldable pub request_for : GoMap ListCacheEntry → String → Request
  unfolding header_of cached_etag
  request_for cache url = record {
    url = url;
    authorization = header_of "Bearer " (trim_space call.token);
    if_none_match = header_of "" (cached_etag cache url);
  }

  -- The switch on the status of a response.
  unfoldable pub take_response :
      String
      → ℕ
      → String
      → String
      → Result String
      → GoMap ListCacheEntry
      → Result String × GoMap ListCacheEntry
  unfolding store_list cached_body
  take_response url code status etag body cache =
      if nat_eq code 200
      then elim body [
        | err e ↦ (err e, cache)
        | ok text ↦ (ok text, store_list url etag text cache)
      ]
      else if nat_eq code 304
      then elim (cached_body cache url) [
        | none ↦ (err (str_append "304 with no cached payload for " url), cache)
        | some text ↦ (ok text, cache)
      ]
      else (err (concat_texts ("GET " ∷ url ∷ ": " ∷ status ∷ [])), cache)

  unfoldable pub take_reply :
      String → Reply → GoMap ListCacheEntry → Result String × GoMap ListCacheEntry
  unfolding take_response
  take_reply url (failed e) cache = (err e, cache)
  take_reply url (response code status etag body) cache =
      take_response url code status etag body cache

  unfoldable pub cached_get : String → PredictState W → Result String × PredictState W
  unfolding request_for take_reply
  cached_get url s = elim (out.new_request url) [
    | some e ↦ (err e, s)
    | none ↦
        let (reply, outside) = out.http_do (request_for s.list_cache url) s.outside in
        let (result, cache) = take_reply url reply s.list_cache in
        (result, record s { outside = outside; list_cache = cache })
  ]

  unfoldable pub runs_url : String → String
  unfolding trim_slashes concat_texts
  runs_url status = concat_texts (
      trim_slashes call.base_url
      ∷ "/repos/"
      ∷ out.path_escape call.owner
      ∷ "/"
      ∷ out.path_escape call.repo
      ∷ "/actions/runs?status="
      ∷ status
      ∷ [])

  unfoldable pub jobs_url : ℤ → String
  unfolding trim_slashes concat_texts show_int
  jobs_url run_id = concat_texts (
      trim_slashes call.base_url
      ∷ "/repos/"
      ∷ out.path_escape call.owner
      ∷ "/"
      ∷ out.path_escape call.repo
      ∷ "/actions/runs/"
      ∷ show_int run_id
      ∷ "/jobs?filter=latest"
      ∷ [])

  -- `cachedGet` and the decoding of its body, with the texts that go before an error.
  unfoldable pub get_runs : String → PredictState W → Result (List RunRef) × PredictState W
  get_runs status s =
      let (result, s') = cached_get (runs_url status) s in
      (
        elim result [
          | err e ↦ err (concat_texts ("list runs (status=" ∷ status ∷ "): " ∷ e ∷ []))
          | ok body ↦ elim (out.decode_runs body) [
            | err e ↦ err (concat_texts ("decode runs (status=" ∷ status ∷ "): " ∷ e ∷ []))
            | ok listed ↦ ok listed
          ]
        ],
        s',
      )

  -- The loop over the statuses.
  unfoldable pub list_from :
      List String → List RunRef → PredictState W → Result (List RunRef) × PredictState W
  list_from [] runs s = (ok runs, s)
  list_from (status ∷ statuses) runs s = elim (get_runs status s).0 [
    | err e ↦ (err e, (get_runs status s).1)
    | ok listed ↦ elim (union_runs call runs listed).1 [
      | true ↦ (ok (union_runs call runs listed).0, (get_runs status s).1)
      | false ↦ list_from statuses (union_runs call runs listed).0 (get_runs status s).1
    ]
  ]

  unfoldable pub list_active_runs : PredictState W → Result (List RunRef) × PredictState W
  list_active_runs s = list_from active_statuses [] s

  -- The names of the jobs of a run, as the keys of a map.
  unfoldable pub list_jobs : ℤ → PredictState W → Result (List String) × PredictState W
  list_jobs run_id s =
      let (result, s') = cached_get (jobs_url run_id) s in
      (elim result [ err e ↦ err e | ok body ↦ out.decode_jobs body ], s')
