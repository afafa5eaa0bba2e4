-- ===== src/Predictor/Coherence.antt =====
-- The cache of listings against a server that answers conditional requests.
use Prim.Native.String.{◌++◌ as str_append}
use text.Mathlib.TextLemmas.{nil-append}
use warmrunners.Base.{
  String, Bool, true, false, Option, none, some, GoMap, lookup, lookup-insert, ok, ◌≡◌, refl, inl,
  inr, arith, eq_iff, ◌==◌, if◌then◌else◌, Bool-cases,
}
use warmrunners.Predictor.{Request, Reply, response, Outside, ListCacheEntry, PredictState, Call}
use warmrunners.Predictor.Listing.{
  cached_etag, cached_body, store_list, header_of, request_for, take_response, take_reply,
  cached_get,
}

-- `text url etag` is the body of a version. The server says that nothing changed where the request
-- names the version that it has, and sends the version otherwise.
unfoldable pub names_version : Option String → String → Bool
names_version none etag = false
names_version (some e) etag = e == etag

unfoldable pub reply_for : (String → String → String) → Request → String → Reply
unfolding names_version
reply_for text req etag =
    if names_version req.if_none_match etag
    then response 304 "304 Not Modified" etag (ok "")
    else response 200 "200 OK" etag (ok (text req.url etag))

-- A request can be made for each URL, and each is answered by the version that the server has.
module _ {W : Type 0} (out : Outside W) where
  pub record IsConditional (etag_of : W → String → String) (text : String → String → String)
      : Type 0 where
    pub makes : (url : String) → out.new_request url ≡ none
    pub answers :
        (req : Request) (w : W)
        → (out.http_do req w).0 ≡ reply_for text req (etag_of (out.http_do req w).1 req.url)

-- Every entry is a version of its URL.
abbrev pub IsCoherent : (String → String → String) → GoMap ListCacheEntry → Type 0
IsCoherent text cache =
    (url : String) (e : ListCacheEntry) → lookup url cache ≡ some e → e.body ≡ text url e.etag

store_list-IsCoherent :
    (text : String → String → String) (cache : GoMap ListCacheEntry) (url etag : String)
    → IsCoherent text cache
    → IsCoherent text (store_list url etag (text url etag) cache)
unfolding store_list
store_list-IsCoherent text cache url etag h other e found = elim (Bool-cases (url == other)) [
  | inl same ↦ ground (
    arith,
    same,
    found,
    eq_iff url other,
    lookup-insert url other (record { etag = etag; body = text url etag }) cache,
  )
  | inr different ↦ h other e (
      ground (
        arith,
        different,
        found,
        lookup-insert url other (record { etag = etag; body = text url etag }) cache,
      ))
]

module _ {W : Type 0} (out : Outside W) (call : Call) (text : String → String → String) where
  named_entry :
      (etag : String) (o : Option ListCacheEntry)
      → names_version (header_of "" (elim o [ none ↦ "" | some e ↦ e.etag ])) etag ≡ true
      → (e : ListCacheEntry) × (o ≡ some e) × (e.etag ≡ etag)
  unfolding header_of names_version
  named_entry etag none named = cc
  named_entry etag (some e) named = (
    e,
    refl,
    elim (Bool-cases (e.etag == "")) [
      | inl empty ↦ absurd (ground (arith, empty))
      | inr given ↦ ground (arith, given, eq_iff (str_append "" e.etag) etag, nil-append e.etag)
    ],
  )

  -- The request names a version only where the cache has it.
  names_cached :
      (url etag : String) (cache : GoMap ListCacheEntry)
      → names_version (request_for out call cache url).if_none_match etag ≡ true
      → (e : ListCacheEntry) × (lookup url cache ≡ some e) × (e.etag ≡ etag)
  unfolding request_for cached_etag
  names_cached url etag cache named = named_entry etag (lookup url cache) named

  -- The reply to the request that the cache makes.
  take_reply-current :
      (url etag : String) (cache : GoMap ListCacheEntry)
      → IsCoherent text cache
      → ((take_reply out call url (reply_for text (request_for out call cache url) etag) cache).0
          ≡ ok (text url etag))
        × IsCoherent text
            (take_reply out call url (reply_for text (request_for out call cache url) etag) cache).1
  unfolding take_reply take_response reply_for cached_body request_for
  take_reply-current url etag cache h =
      elim (Bool-cases (names_version (request_for out call cache url).if_none_match etag)) [
        | inr changed ↦ rw changed (refl, store_list-IsCoherent text cache url etag h)
        | inl same ↦
            let (e, found, version) = names_cached url etag cache same in
            rw (same, found) (ground (arith, h url e found, version), h)
      ]

-- Against a server that answers conditional requests, `cachedGet` returns the body that the server
-- has now, whether it was sent or taken from the cache, and the cache stays coherent: what it holds
-- for a URL is the body of the version that it names.
pub cached_get-current :
    {W : Type 0} (out : Outside W) (call : Call) (etag_of : W → String → String)
    (text : String → String → String) (url : String) (s : PredictState W)
    → IsConditional out etag_of text
    → IsCoherent text s.list_cache
    → ((cached_get out call url s).0
        ≡ ok (text url (etag_of (cached_get out call url s).1.outside url)))
      × IsCoherent text (cached_get out call url s).1.list_cache
unfolding cached_get
cached_get-current out call etag_of text url s server h =
    rw
      (
        server.makes url,
        cached_get,
        server.answers (request_for out call s.list_cache url) s.outside,
      )
      (take_reply-current out call text url _ s.list_cache h)
